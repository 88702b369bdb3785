-- ===== src/Upload/Streams/Examples.antt =====
-- The theorem on the counts at a concrete run.
use aird.Base.{max, ◌≤◌, ◌≡◌, refl, [], ◌∷◌, arith}
use aird.Upload.Handlers.{update_at}
use aird.Upload.Streams.{
  try_acquire_chunk_stream, count_holders, Reach, here, next, acquire, start, streams_counted,
}

one_stream-Reach :
    Reach 4 start (record { counts = update_at (λ u. 0) "ann" 1; holders = "ann" ∷ [] })
unfolding try_acquire_chunk_stream
one_stream-Reach =
    next here (acquire start "ann" 2 (update_at (λ u. 0) "ann" 1) (λ e. cc) (omega arith) refl)

streams_counted_example :
    (update_at (λ u. 0) "ann" 1 "ann" ≡ count_holders "ann" ("ann" ∷ [])) × (1 ≤ max 1 4)
streams_counted_example =
    streams_counted 4 (record { counts = update_at (λ u. 0) "ann" 1; holders = "ann" ∷ [] }) "ann"
      one_stream-Reach
