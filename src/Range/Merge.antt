-- ===== src/Range/Merge.antt =====
-- `merge_ranges` keeps the bytes that the ranges hold.
use aird.Base.{
  ℕ, ◌+◌, ◌≤◌, max, ◌≡◌, refl, List, [], ◌∷◌, arith, ◌∙◌, leb, leb→le, Bool-cases, inl, inr, true,
  ◌++◌, ◌⊎◌,
}
use aird.Range.{
  ByteRange, insert_by_start, sort_by_start, merge_from, merge_sorted, merge_ranges, holds_byte,
  covers,
}

-- Every start is at least `n`, and the starts go up.
abbrev pub StartsFrom : ℕ → List ByteRange → Type 0
StartsFrom n [] = Unit
StartsFrom n (r ∷ rs) = (n ≤ r.start) × StartsFrom r.start rs

pub StartsFrom-le : (m n : ℕ) (rs : List ByteRange) → m ≤ n → StartsFrom n rs → StartsFrom m rs
StartsFrom-le m n [] h k = tt
StartsFrom-le m n (r ∷ rs) h (k, ks) = (omega arith, ks)

insert_by_start-StartsFrom :
    (n : ℕ) (r : ByteRange) (rs : List ByteRange)
    → n ≤ r.start
    → StartsFrom n rs
    → StartsFrom n (insert_by_start r rs)
unfolding insert_by_start
insert_by_start-StartsFrom n r [] h k = (h, tt)
insert_by_start-StartsFrom n r (s ∷ rs) h (k, ks) =
    ground (arith, insert_by_start-StartsFrom s.start r rs)

pub sort_by_start-StartsFrom : (rs : List ByteRange) → StartsFrom 0 (sort_by_start rs)
unfolding sort_by_start
sort_by_start-StartsFrom [] = tt
sort_by_start-StartsFrom (r ∷ rs) =
    insert_by_start-StartsFrom 0 r (sort_by_start rs) (omega arith) (sort_by_start-StartsFrom rs)

covers-insert_by_start :
    (r : ByteRange) (rs : List ByteRange) (i : ℕ)
    → covers (insert_by_start r rs) i ≡ covers (r ∷ rs) i
unfolding insert_by_start covers
covers-insert_by_start r [] i = refl
covers-insert_by_start r (s ∷ rs) i = ground (arith, covers-insert_by_start r rs i)

covers-cons :
    (r : ByteRange) (rs ss : List ByteRange) (i : ℕ)
    → covers rs i ≡ covers ss i
    → covers (r ∷ rs) i ≡ covers (r ∷ ss) i
unfolding covers
covers-cons r rs ss i h = ground arith

covers-sort_by_start : (rs : List ByteRange) (i : ℕ) → covers (sort_by_start rs) i ≡ covers rs i
unfolding sort_by_start
covers-sort_by_start [] i = refl
covers-sort_by_start (r ∷ rs) i =
    covers-insert_by_start r (sort_by_start rs) i
    ∙ covers-cons r (sort_by_start rs) rs i (covers-sort_by_start rs i)

-- Two ranges that touch hold together what the joined range holds.
covers-join :
    (last current : ByteRange) (rs : List ByteRange) (i : ℕ)
    → last.start ≤ current.start
    → current.start ≤ last.end + 1
    → covers (record { start = last.start; end = max last.end current.end } ∷ rs) i
      ≡ covers (last ∷ current ∷ rs) i
unfolding covers
covers-join last current rs i h k = ground arith

covers-merge_from :
    (last : ByteRange) (rs : List ByteRange) (i : ℕ)
    → StartsFrom last.start rs
    → covers (merge_from last rs) i ≡ covers (last ∷ rs) i
unfolding merge_from
covers-merge_from last [] i h = refl
covers-merge_from last (current ∷ rest) i (h, hs) =
    let whole : ByteRange = record { start = last.start; end = max last.end current.end } in
    elim (Bool-cases (leb current.start (last.end + 1))) [
      | inl near ↦ rw near (
          covers-merge_from whole rest i (StartsFrom-le last.start current.start rest h hs)
          ∙ covers-join last current rest i h (leb→le _ _ near))
      | inr far ↦
          rw far (covers-cons last _ (current ∷ rest) i (covers-merge_from current rest i hs))
    ]

covers-merge_sorted :
    (rs : List ByteRange) (i : ℕ) → StartsFrom 0 rs → covers (merge_sorted rs) i ≡ covers rs i
unfolding merge_sorted
covers-merge_sorted [] i h = refl
covers-merge_sorted (r ∷ rs) i (h, hs) = covers-merge_from r rs i hs

-- The merged ranges hold exactly the bytes that the given ranges hold.
pub covers-merge_ranges : (rs : List ByteRange) (i : ℕ) → covers (merge_ranges rs) i ≡ covers rs i
unfolding merge_ranges
covers-merge_ranges rs i =
    covers-merge_sorted (sort_by_start rs) i (sort_by_start-StartsFrom rs)
    ∙ covers-sort_by_start rs i

pub covers-append :
    (rs : List ByteRange) (r : ByteRange) (i : ℕ)
    → covers (rs ++ r ∷ []) i ≡ true
    → (covers rs i ≡ true) ⊎ (holds_byte r i ≡ true)
unfolding covers
covers-append [] r i h = ground arith
covers-append (x ∷ xs) r i h = ground (arith, covers-append xs r i)

pub covers-append_back :
    (rs : List ByteRange) (r : ByteRange) (i : ℕ)
    → (covers rs i ≡ true) ⊎ (holds_byte r i ≡ true)
    → covers (rs ++ r ∷ []) i ≡ true
unfolding covers
covers-append_back [] r i h = ground (arith, h)
covers-append_back (x ∷ xs) r i h = ground (arith, h, covers-append_back xs r i)
