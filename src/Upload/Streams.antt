-- ===== src/Upload/Streams.antt =====
-- The counts of running requests: `_active_chunk_streams` of
-- aird/handlers/ranged_upload_handlers.py and `_active` of TransferRateLimiter in
-- aird/core/rate_limit.py. A user who is missing in the dictionary counts 0, so a count of 0 and
-- a missing key are the same here.
mod Examples
use Prim.Native.String.{String}
use text.Mathlib.Text.{◌==◌}
use text.Mathlib.TextEquality.{eq_iff}
use aird.Base.{
  ℕ, suc, ◌+◌, ◌-◌, max, ◌≤◌, ◌≡◌, ◌≢◌, refl, sym, ◌∙◌, ap, subst, inl, inr, Bool-cases, Bool, true,
  false, Option, none, some, List, [], ◌∷◌, ◌++◌, leb, eqb, arith, if◌then◌else◌,
}
use aird.Upload.Handlers.{update_at}

abbrev pub Counts : Type 0
Counts = String → ℕ

-- The answer and the counts after it.
unfoldable pub try_acquire_chunk_stream : String → ℕ → Counts → Bool × Counts
try_acquire_chunk_stream username limit active =
    if leb (max 1 limit) (active username)
    then (false, active)
    else (true, update_at active username (active username + 1))

abbrev released : String → Counts → Counts
released username active =
    if leb (active username) 1
    then update_at active username 0
    else update_at active username (active username - 1)

-- `none` and the empty text release nothing.
unfoldable pub release_chunk_stream : Option String → Counts → Counts
release_chunk_stream none active = active
release_chunk_stream (some username) active =
    if username == "" then active else released username active

-- The limiter has no limit where its maximum is 0.
unfoldable pub try_acquire_concurrent : ℕ → String → Counts → Bool × Counts
try_acquire_concurrent max_concurrent username active =
    if eqb max_concurrent 0
    then (true, active)
    else if leb max_concurrent (active username)
    then (false, active)
    else (true, update_at active username (active username + 1))

unfoldable pub release_concurrent : ℕ → String → Counts → Counts
release_concurrent max_concurrent username active =
    if eqb max_concurrent 0 then active else released username active

-- The running requests: `prepare` takes a slot for its user or refuses the request, and `on_finish`
-- gives back the slot of a request that has one. A request's own limit is its session's profile's;
-- `limit` bounds them all.
pub record Streams : Type 0 where
  pub counts : Counts
  pub holders : List String

pub count_holders : String → List String → ℕ
count_holders u [] = 0
count_holders u (h ∷ hs) = let rest = count_holders u hs in if h == u then suc rest else rest

pub data Step (limit : ℕ) : Streams → Streams → Type 0 where
  acquire :
      (s : Streams) (u : String) (own : ℕ) (counts : Counts)
      → u ≢ ""
      → own ≤ limit
      → try_acquire_chunk_stream u own s.counts ≡ (true, counts)
      → Step limit s (record { counts = counts; holders = u ∷ s.holders })
  refuse :
      (s : Streams) (u : String) (own : ℕ) (counts : Counts)
      → try_acquire_chunk_stream u own s.counts ≡ (false, counts)
      → Step limit s (record { counts = counts; holders = s.holders })
  finish :
      (s : Streams) (before after : List String) (u : String)
      → u ≢ ""
      → s.holders ≡ before ++ u ∷ after
      → Step limit s
          (record { counts = release_chunk_stream (some u) s.counts; holders = before ++ after })

pub data Reach (limit : ℕ) : Streams → Streams → Type 0 where
  here : {s : Streams} → Reach limit s s
  next : {s t u : Streams} → Reach limit s t → Step limit t u → Reach limit s u

abbrev pub start : Streams
start = record { counts = λ u. 0; holders = [] }

-- Each user's count is the number of the user's running requests, and within the limit.
pub record IsExact (limit : ℕ) (s : Streams) : Type 0 where
  pub exact : (u : String) → s.counts u ≡ count_holders u s.holders
  pub bounded : (u : String) → s.counts u ≤ max 1 limit

count_holders-append :
    (u v : String) (before after : List String)
    → count_holders u (before ++ v ∷ after)
      ≡ count_holders u (before ++ after) + (if v == u then 1 else 0)
unfolding count_holders
count_holders-append u v [] after = ground arith
count_holders-append u v (b ∷ bs) after = ground (arith, count_holders-append u v bs after)

acquire-IsExact :
    (limit own : ℕ) (s : Streams) (u : String) (counts : Counts)
    → IsExact limit s
    → own ≤ limit
    → try_acquire_chunk_stream u own s.counts ≡ (true, counts)
    → IsExact limit (record { counts = counts; holders = u ∷ s.holders })
unfolding try_acquire_chunk_stream count_holders
acquire-IsExact limit own s u counts k le h = elim (Bool-cases (leb (max 1 own) (s.counts u))) [
  | inl full ↦ cc
  | inr room ↦
      let added : update_at s.counts u (s.counts u + 1) ≡ counts = ground (arith, h, room) in
      record {
        exact = λ v. subst (λ (c : Counts). c v ≡ count_holders v (u ∷ s.holders)) added (grown v);
        bounded = λ v. subst (λ (c : Counts). c v ≤ max 1 limit) added (small v room);
      }
]
  where
    grown : (v : String) → update_at s.counts u (s.counts u + 1) v ≡ count_holders v (u ∷ s.holders)
    grown v = elim (Bool-cases (u == v)) [
      | inl same ↦
          let e : s.counts u ≡ s.counts v = ap s.counts ((eq_iff u v).0 same) in
          ground (arith, same, e, k.exact v)
      | inr differ ↦ ground (arith, differ, k.exact v)
    ]

    small :
        (v : String)
        → leb (max 1 own) (s.counts u) ≡ false
        → update_at s.counts u (s.counts u + 1) v ≤ max 1 limit
    small v room = ground (arith, le, room, k.bounded v)

finish-IsExact :
    (limit : ℕ) (s : Streams) (before after : List String) (u : String)
    → IsExact limit s
    → u ≢ ""
    → s.holders ≡ before ++ u ∷ after
    → IsExact limit
        (record { counts = release_chunk_stream (some u) s.counts; holders = before ++ after })
unfolding release_chunk_stream
finish-IsExact limit s before after u k named e = record {
  exact =
      λ v. subst (λ (c : Counts). c v ≡ count_holders v (before ++ after)) (sym plain) (lowered v);
  bounded = λ v. subst (λ (c : Counts). c v ≤ max 1 limit) (sym plain) (small v);
}
  where
    plain : (if u == "" then s.counts else released u s.counts) ≡ released u s.counts
    plain = elim (Bool-cases (u == "")) [
      | inl nobody ↦ absurd (named ((eq_iff u "").0 nobody))
      | inr somebody ↦ rw somebody refl
    ]

    counted :
        (v : String) → s.counts v ≡ count_holders v (before ++ after) + (if u == v then 1 else 0)
    counted v = k.exact v ∙ ap (count_holders v) e ∙ count_holders-append v u before after

    lowered : (v : String) → released u s.counts v ≡ count_holders v (before ++ after)
    lowered v = elim (Bool-cases (u == v)) [
      | inl same ↦
          let e : s.counts u ≡ s.counts v = ap s.counts ((eq_iff u v).0 same) in
          ground (arith, same, e, counted v)
      | inr differ ↦ ground (arith, differ, counted v)
    ]

    small : (v : String) → released u s.counts v ≤ max 1 limit
    small v = ground (arith, k.bounded v, k.bounded u)

Step-IsExact : {limit : ℕ} {s t : Streams} → Step limit s t → IsExact limit s → IsExact limit t
unfolding try_acquire_chunk_stream
Step-IsExact (acquire s u own counts named le h) k = acquire-IsExact _ own s u counts k le h
Step-IsExact {limit} (refuse s u own counts h) k =
    let same : s.counts ≡ counts = ground (arith, h) in
    record {
      exact = λ v. ap (λ (c : Counts). c v) (sym same) ∙ k.exact v;
      bounded = λ v. subst (λ (c : Counts). c v ≤ max 1 limit) same (k.bounded v);
    }
Step-IsExact (finish s before after u named e) k = finish-IsExact _ s before after u k named e

start-IsExact : (limit : ℕ) → IsExact limit start
unfolding count_holders
start-IsExact limit = record { exact = λ u. refl; bounded = λ u. omega arith }

-- However requests start, are refused and finish, each user's count is the number of the user's
-- running requests, and at most the largest limit of a profile, or 1 if that is 0.
pub streams_counted :
    (limit : ℕ) (s : Streams) (u : String)
    → Reach limit start s
    → (s.counts u ≡ count_holders u s.holders) × (s.counts u ≤ max 1 limit)
streams_counted limit s u r = let k = go r in (k.exact u, k.bounded u)
  where
    go : {t : Streams} → Reach limit start t → IsExact limit t
    go here = start-IsExact limit
    go (next r st) = Step-IsExact st (go r)
