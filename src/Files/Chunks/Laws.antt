-- ===== src/Files/Chunks/Laws.antt =====
-- The chunks, put together, are the bytes that were asked for.
use aird.Base.{
  ℕ, zero, suc, ◌+◌, ◌-◌, min, ◌≤◌, ◌<◌, ◌≡◌, refl, sym, ap, subst, ◌∙◌, ◌⊎◌, inl, inr, true, false,
  Bool-cases, Option, none, some, List, [], ◌∷◌, ◌++◌, All, length, take, drop, length-take,
  length-drop, leb, eqb, arith, if◌then◌else◌,
}
use aird.Base.Text.{is_empty}
use mathlib.Core.List.{append_assoc}
use aird.Files.Chunks.{
  Bytes, should_use_mmap, read_loop, yield_aiofile_chunks, Reader, new_reader, read_next,
  reader_loop, chunk_then, yield_reader_chunks, first_attempt, serve_file_chunk,
}
use aird.Files.Chunks.Pieces.{
  take_nil, take_zero, take_pieces, take_all, drop-drop, empty_nil, filled,
}

abbrev pub joined : List Bytes → Bytes
joined [] = []
joined (c ∷ cs) = c ++ joined cs

-- A chunk that a client gets: not empty, and of the chunk size at most.
abbrev pub FitsChunk : ℕ → Bytes → Type 0
FitsChunk chunk_size c = (0 < length c) × (length c ≤ chunk_size)

-- The bytes from `start` to `end`, both included, or to the end of the file.
abbrev pub slice : ℕ → Option ℕ → Bytes → Bytes
slice start none file = drop start file
slice start (some end) file = take (end + 1 - start) (drop start file)

-- What was read is empty though something was wanted: nothing is left.
nothing_left : (n : ℕ) (xs : Bytes) → 0 < n → take n xs ≡ [] → xs ≡ []
nothing_left zero xs h e = absurd (omega arith)
nothing_left (suc n) [] h e = refl
nothing_left (suc n) (x ∷ xs) h e = cc

module _ (chunk_size : ℕ) (pos : 0 < chunk_size) where
  read_loop-joined :
      (fuel remaining : ℕ) (rest : Bytes)
      → remaining ≤ fuel
      → (joined (read_loop fuel chunk_size remaining rest) ≡ take remaining rest)
        × All (FitsChunk chunk_size) (read_loop fuel chunk_size remaining rest)
  unfolding read_loop
  read_loop-joined zero remaining rest h = (sym (take_zero remaining rest (omega arith)), tt)
  read_loop-joined (suc fuel) remaining rest h =
      let n = min chunk_size remaining in
      let chunk = take n rest in
      elim (Bool-cases (eqb remaining 0)) [
        | inl done ↦ rw done (sym (take_zero remaining rest (ground arith)), tt)
        | inr more ↦ rw more (elim (Bool-cases (is_empty chunk)) [
          | inl end ↦
              let left : rest ≡ [] =
                nothing_left n rest (ground (arith, pos)) (empty_nil chunk end) in
              rw end (sym (ap (take remaining) left ∙ take_nil remaining), tt)
          | inr some_bytes ↦
              let size : 0 < length chunk = filled chunk some_bytes in
              let (later, fits) =
                read_loop-joined fuel (remaining - length chunk) (drop n rest) (omega arith) in
              rw some_bytes (
                ap (λ l. chunk ++ l) later ∙ take_pieces n remaining rest (omega arith),
                ((size, omega (arith, length-take n rest)), fits),
              )
        ])
      ]

  abbrev reader : ℕ → ℕ → Reader
  reader at stop = record { pos = at; stop = stop; chunk_size = chunk_size }

  abbrev next_pos : ℕ → ℕ → ℕ
  next_pos at stop = min (at + chunk_size) stop

  abbrev next_chunk : ℕ → ℕ → Bytes → Bytes
  next_chunk at stop file = take (next_pos at stop - at) (drop at file)

  reader_step :
      (fuel : ℕ) (file : Bytes) (r r' : Reader) (o : Option Bytes)
      → read_next file r ≡ (o, r')
      → reader_loop (suc fuel) file r ≡ chunk_then o (reader_loop fuel file r')
  unfolding reader_loop
  reader_step fuel file r r' o e =
      ap (λ (p : Option Bytes × Reader). chunk_then p.0 (reader_loop fuel file p.1)) e

  read_next_done :
      (file : Bytes) (at stop : ℕ)
      → leb stop at ≡ true
      → read_next file (reader at stop) ≡ (none, reader at stop)
  unfolding read_next
  read_next_done file at stop h = rw h refl

  read_next_more :
      (file : Bytes) (at stop : ℕ)
      → leb stop at ≡ false
      → read_next file (reader at stop) ≡ (
        if is_empty (next_chunk at stop file) then none else some (next_chunk at stop file),
        reader (next_pos at stop) stop,
      )
  unfolding read_next
  read_next_more file at stop h = rw h refl

  pieces_from :
      (at stop : ℕ) (file : Bytes)
      → leb stop at ≡ false
      → stop ≤ length file
      → next_chunk at stop file ++ take (stop - next_pos at stop) (drop (next_pos at stop) file)
        ≡ take (stop - at) (drop at file)
  pieces_from at stop file more le =
      let n = next_pos at stop - at in
      let whole : n ≡ length (next_chunk at stop file) =
        ground (arith, length-take n (drop at file), length-drop at file, le) in
      let next : at + n ≡ next_pos at stop = ground (arith, more) in
      let left : stop - next_pos at stop ≡ stop - at - length (next_chunk at stop file) =
        ground (arith, whole, more) in
      ap (λ k. next_chunk at stop file ++ take (stop - next_pos at stop) (drop k file)) (sym next)
      ∙ ap (λ l. next_chunk at stop file ++ take (stop - next_pos at stop) l)
          (sym (drop-drop n at file))
      ∙ ap (λ k. next_chunk at stop file ++ take k (drop n (drop at file))) left
      ∙ take_pieces n (stop - at) (drop at file) (ground (arith, more))

  abbrev Reads : ℕ → ℕ → Bytes → List Bytes → Type 0
  Reads at stop file cs =
      (joined cs ≡ take (stop - at) (drop at file)) × All (FitsChunk chunk_size) cs

  -- The same for the reader.
  reader_loop-joined :
      (fuel : ℕ) (file : Bytes) (at stop : ℕ)
      → stop ≤ length file
      → stop - at ≤ fuel
      → Reads at stop file (reader_loop fuel file (reader at stop))
  reader_loop-joined zero file at stop le h = (
    unfold reader_loop in sym (take_zero (stop - at) (drop at file) (omega arith)),
    unfold reader_loop in tt,
  )
  reader_loop-joined (suc fuel) file at stop le h = elim (Bool-cases (leb stop at)) [
    | inl done ↦
        subst (Reads at stop file)
          (sym (reader_step fuel file _ _ _ (read_next_done file at stop done)))
          (sym (take_zero (stop - at) (drop at file) (ground arith)), tt)
    | inr more ↦
        subst (Reads at stop file)
          (sym (reader_step fuel file _ _ _ (read_next_more file at stop more)))
          (after more (Bool-cases (is_empty (next_chunk at stop file))) (
            reader_loop-joined fuel file (next_pos at stop) stop le (ground (arith, pos, h, more))))
  ]
    where
      after :
          leb stop at ≡ false
          → (is_empty (next_chunk at stop file) ≡ true)
            ⊎ (is_empty (next_chunk at stop file) ≡ false)
          → Reads
              (next_pos at stop)
              stop
              file
              (reader_loop fuel file (reader (next_pos at stop) stop))
          → Reads at stop file (
              chunk_then
                (if is_empty (next_chunk at stop file)
                  then none
                  else some (next_chunk at stop file))
                (reader_loop fuel file (reader (next_pos at stop) stop)))
      after more (inl end) later =
          let left : drop at file ≡ [] =
            nothing_left (next_pos at stop - at) (drop at file) (ground (arith, pos, more))
              (empty_nil (next_chunk at stop file) end) in
          rw end (sym (ap (take (stop - at)) left ∙ take_nil (stop - at)), tt)
      after more (inr some_bytes) (rest, fits) =
          let size = filled (next_chunk at stop file) some_bytes in
          rw some_bytes (
            ap (λ l. next_chunk at stop file ++ l) rest ∙ pieces_from at stop file more le,
            ((size, ground (arith, length-take (next_pos at stop - at) (drop at file))), fits),
          )

take-min : (n : ℕ) (xs : Bytes) → take (min n (length xs)) xs ≡ take n xs
take-min n xs = elim (Bool-cases (leb (length xs) n)) [
  | inl past ↦ take_all _ xs (ground arith) ∙ sym (take_all n xs (ground arith))
  | inr within ↦ ap (λ k. take k xs) (ground arith)
]

take_stop :
    (end start : ℕ) (file : Bytes)
    → take (min (end + 1) (length file) - start) (drop start file)
      ≡ take (end + 1 - start) (drop start file)
take_stop end start file =
    ap (λ k. take k (drop start file)) (omega (arith, length-drop start file))
    ∙ take-min (end + 1 - start) (drop start file)

-- The chunks of a request, and the bytes that it asks for.
abbrev pub Serves : ℕ → Option ℕ → ℕ → Bytes → List Bytes → Type 0
Serves start end chunk_size file cs =
    (joined cs ≡ slice start end file) × All (FitsChunk chunk_size) cs

yield_reader_chunks-Serves :
    (start : ℕ) (end : Option ℕ) (chunk_size : ℕ) (file : Bytes)
    → 0 < chunk_size
    → Serves start end chunk_size file (yield_reader_chunks start end chunk_size file)
unfolding yield_reader_chunks new_reader
yield_reader_chunks-Serves start none chunk_size file h =
    let (whole, fits) =
      reader_loop-joined chunk_size h (length file - start) file start (length file) (omega arith)
        (omega arith) in
    (whole ∙ take_all _ (drop start file) (omega (arith, length-drop start file)), fits)
yield_reader_chunks-Serves start (some end) chunk_size file h =
    let stop = min (end + 1) (length file) in
    let (whole, fits) =
      reader_loop-joined chunk_size h (stop - start) file start stop (omega arith) (omega arith) in
    (whole ∙ take_stop end start file, fits)

yield_aiofile_chunks-Serves :
    (start : ℕ) (end : Option ℕ) (chunk_size : ℕ) (file : Bytes)
    → 0 < chunk_size
    → Serves start end chunk_size file (yield_aiofile_chunks start end chunk_size file)
unfolding yield_aiofile_chunks
yield_aiofile_chunks-Serves start none chunk_size file h =
    let n = length file - start in
    let (whole, fits) = read_loop-joined chunk_size h n n (drop start file) (omega arith) in
    (whole ∙ take_all n (drop start file) (omega (arith, length-drop start file)), fits)
yield_aiofile_chunks-Serves start (some end) chunk_size file h =
    let n = end + 1 - start in read_loop-joined chunk_size h n n (drop start file) (omega arith)

first_attempt-Serves :
    (start : ℕ) (end : Option ℕ) (chunk_size : ℕ) (file : Bytes)
    → 0 < chunk_size
    → Serves start end chunk_size file (first_attempt start end chunk_size file)
unfolding first_attempt
first_attempt-Serves start end chunk_size file h =
    elim (Bool-cases (should_use_mmap (length file))) [
      | inl large ↦ rw large (yield_reader_chunks-Serves start end chunk_size file h)
      | inr small ↦ rw small (yield_aiofile_chunks-Serves start end chunk_size file h)
    ]

-- A file or a range of it is served, if no error comes up and the chunk size is not 0, in nonempty
-- chunks of the chunk size at most that are together the bytes from `start` to `end`, or to the end
-- of the file, whichever way the file is read.
pub serve_file_chunk-Serves :
    (start : ℕ) (end : Option ℕ) (chunk_size : ℕ) (file : Bytes)
    → 0 < chunk_size
    → Serves start end chunk_size file (serve_file_chunk none start end chunk_size file)
unfolding serve_file_chunk
serve_file_chunk-Serves start end chunk_size file h =
    first_attempt-Serves start end chunk_size file h

joined-append : (xs ys : List Bytes) → joined (xs ++ ys) ≡ joined xs ++ joined ys
joined-append [] ys = refl
joined-append (x ∷ xs) ys = simp (joined-append xs ys, append_assoc)

-- After an error the file is read again from `start`: a client that has got `k` chunks gets them,
-- and then all the bytes that were asked for once more.
pub serve_file_chunk_again :
    (k start : ℕ) (end : Option ℕ) (chunk_size : ℕ) (file : Bytes)
    → 0 < chunk_size
    → joined (serve_file_chunk (some k) start end chunk_size file)
      ≡ joined (take k (serve_file_chunk none start end chunk_size file)) ++ slice start end file
unfolding serve_file_chunk
serve_file_chunk_again k start end chunk_size file h =
    joined-append (take k (first_attempt start end chunk_size file)) _
    ∙ ap (λ l. joined (take k (first_attempt start end chunk_size file)) ++ l)
        (yield_reader_chunks-Serves start end chunk_size file h).0
