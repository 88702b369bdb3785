-- ===== src/Range/Canonical.antt =====
-- `merge_ranges` returns a canonical form, which the bytes alone determine.
use aird.Base.{
  ℕ, ◌+◌, ◌≤◌, ◌<◌, max, map, ap, ◌≡◌, refl, sym, ◌∙◌, true, false, List, [], ◌∷◌, All, arith, leb,
  Bool-cases, inl, inr,
}
use aird.Range.{
  ByteRange, IsRange, insert_by_start, sort_by_start, merge_from, merge_sorted, merge_ranges,
  covers, ranges_to_json, ranges_from_json, items_to_ranges, range_to_item,
}
use aird.Range.Merge.{StartsFrom, StartsFrom-le, sort_by_start-StartsFrom, covers-merge_ranges}

-- Ranges in order, each with a gap before the next, the first at `n` or later.
abbrev pub SeparatedFrom : ℕ → List ByteRange → Type 0
SeparatedFrom n [] = Unit
SeparatedFrom n (r ∷ rs) = (n ≤ r.start) × (r.start ≤ r.end) × SeparatedFrom (r.end + 2) rs

abbrev pub IsCanonical : List ByteRange → Type 0
IsCanonical rs = SeparatedFrom 0 rs

insert_by_start-IsRange :
    (r : ByteRange) (rs : List ByteRange)
    → IsRange r
    → All IsRange rs
    → All IsRange (insert_by_start r rs)
unfolding insert_by_start
insert_by_start-IsRange r [] h k = (h, tt)
insert_by_start-IsRange r (s ∷ rs) h (k, ks) = ground (arith, insert_by_start-IsRange r rs h ks)

sort_by_start-IsRange : (rs : List ByteRange) → All IsRange rs → All IsRange (sort_by_start rs)
unfolding sort_by_start
sort_by_start-IsRange [] h = tt
sort_by_start-IsRange (r ∷ rs) (h, hs) =
    insert_by_start-IsRange r (sort_by_start rs) h (sort_by_start-IsRange rs hs)

merge_from-SeparatedFrom :
    (n : ℕ) (last : ByteRange) (rs : List ByteRange)
    → n ≤ last.start
    → IsRange last
    → StartsFrom last.start rs
    → All IsRange rs
    → SeparatedFrom n (merge_from last rs)
unfolding merge_from
merge_from-SeparatedFrom n last [] h v hs vs = (h, v, tt)
merge_from-SeparatedFrom n last (current ∷ rest) h v (hc, hs) (vc, vs) =
    let whole : ByteRange = record { start = last.start; end = max last.end current.end } in
    elim (Bool-cases (leb current.start (last.end + 1))) [
      | inl near ↦ rw near (
          merge_from-SeparatedFrom n whole rest h (omega arith)
            (StartsFrom-le last.start current.start rest hc hs) vs)
      | inr far ↦
          rw far
            (h, v, merge_from-SeparatedFrom (last.end + 2) current rest (ground arith) vc hs vs)
    ]

merge_sorted-IsCanonical :
    (rs : List ByteRange) → StartsFrom 0 rs → All IsRange rs → IsCanonical (merge_sorted rs)
unfolding merge_sorted
merge_sorted-IsCanonical [] h v = tt
merge_sorted-IsCanonical (r ∷ rs) (h, hs) (v, vs) = merge_from-SeparatedFrom 0 r rs h v hs vs

-- The merged ranges are in order, nonempty, and no two of them overlap or touch.
pub merge_ranges-IsCanonical :
    (rs : List ByteRange) → All IsRange rs → IsCanonical (merge_ranges rs)
unfolding merge_ranges
merge_ranges-IsCanonical rs v =
    merge_sorted-IsCanonical (sort_by_start rs) (sort_by_start-StartsFrom rs)
      (sort_by_start-IsRange rs v)

-- Nothing below the first start is held.
pub covers_below :
    (n : ℕ) (rs : List ByteRange) (i : ℕ) → SeparatedFrom n rs → i < n → covers rs i ≡ false
unfolding covers
covers_below n [] i h k = refl
covers_below n (r ∷ rs) i (h, v, hs) k = ground (arith, covers_below (r.end + 2) rs i hs)

covers-nil : (i : ℕ) → covers [] i ≡ false
unfolding covers
covers-nil i = refl

pub covers_start :
    (n : ℕ) (r : ByteRange) (rs : List ByteRange)
    → SeparatedFrom n (r ∷ rs)
    → covers (r ∷ rs) r.start ≡ true
unfolding covers
covers_start n r rs (h, v, hs) = ground arith

pub covers_past_end :
    (n : ℕ) (r : ByteRange) (rs : List ByteRange)
    → SeparatedFrom n (r ∷ rs)
    → covers (r ∷ rs) (r.end + 1) ≡ false
unfolding covers
covers_past_end n r rs (h, v, hs) = ground (arith, covers_below (r.end + 2) rs (r.end + 1) hs)

covers_ge : (n : ℕ) (rs : List ByteRange) (i : ℕ) → SeparatedFrom n rs → covers rs i ≡ true → n ≤ i
covers_ge n rs i h e = ground (arith, covers_below n rs i h)

-- The byte past the first range separates it from a longer one.
first_le :
    (n m : ℕ) (x y : ByteRange) (xs ys : List ByteRange)
    → SeparatedFrom n (x ∷ xs)
    → SeparatedFrom m (y ∷ ys)
    → ((i : ℕ) → covers (x ∷ xs) i ≡ covers (y ∷ ys) i)
    → (y.start ≤ x.start) × (y.end ≤ x.end)
first_le n m x y xs ys (hx, vx, sx) (hy, vy, sy) e =
    let low : y.start ≤ x.start =
      covers_ge y.start (y ∷ ys) x.start (omega arith, vy, sy)
        (sym (e x.start) ∙ covers_start n x xs (hx, vx, sx)) in
    let gap : covers (y ∷ ys) (x.end + 1) ≡ false =
      sym (e (x.end + 1)) ∙ covers_past_end n x xs (hx, vx, sx) in
    (low, unfold covers in ground arith)

tail_covers :
    (n m : ℕ) (x y : ByteRange) (xs ys : List ByteRange)
    → SeparatedFrom n (x ∷ xs)
    → SeparatedFrom m (y ∷ ys)
    → x.start ≡ y.start
    → x.end ≡ y.end
    → ((i : ℕ) → covers (x ∷ xs) i ≡ covers (y ∷ ys) i)
    → (i : ℕ) → covers xs i ≡ covers ys i
unfolding covers
tail_covers n m x y xs ys (hx, vx, sx) (hy, vy, sy) p q e i =
    ground (arith, e i, covers_below (x.end + 2) xs i sx, covers_below (y.end + 2) ys i sy)

separated_unique :
    (n m : ℕ) (xs ys : List ByteRange)
    → SeparatedFrom n xs
    → SeparatedFrom m ys
    → ((i : ℕ) → covers xs i ≡ covers ys i)
    → xs ≡ ys
separated_unique n m [] [] hx hy e = refl
separated_unique n m [] (y ∷ ys) hx hy e =
    cc (e y.start, covers_start m y ys hy, covers-nil y.start)
separated_unique n m (x ∷ xs) [] hx hy e =
    cc (e x.start, covers_start n x xs hx, covers-nil x.start)
separated_unique n m (x ∷ xs) (y ∷ ys) hx hy e =
    let (sx, ex) = first_le n m x y xs ys hx hy e in
    let (sy, ey) = first_le m n y x ys xs hy hx (λ i. sym (e i)) in
    let starts : x.start ≡ y.start = omega arith in
    let ends : x.end ≡ y.end = omega arith in
    let rest =
      separated_unique (x.end + 2) (y.end + 2) xs ys hx.2 hy.2
        (tail_covers n m x y xs ys hx hy starts ends e) in
    cc (starts, ends, rest)

-- The merged list depends on the bytes that are held alone: neither the order in which the ranges
-- came nor how they were cut shows in it.
pub merge_ranges_unique :
    (xs ys : List ByteRange)
    → All IsRange xs
    → All IsRange ys
    → ((i : ℕ) → covers xs i ≡ covers ys i)
    → merge_ranges xs ≡ merge_ranges ys
merge_ranges_unique xs ys vx vy e =
    separated_unique 0 0 (merge_ranges xs) (merge_ranges ys) (merge_ranges-IsCanonical xs vx)
      (merge_ranges-IsCanonical ys vy)
      (λ i. covers-merge_ranges xs i ∙ e i ∙ sym (covers-merge_ranges ys i))

pub SeparatedFrom-IsRange : (n : ℕ) (rs : List ByteRange) → SeparatedFrom n rs → All IsRange rs
SeparatedFrom-IsRange n [] h = tt
SeparatedFrom-IsRange n (r ∷ rs) (h, v, hs) = (v, SeparatedFrom-IsRange (r.end + 2) rs hs)

pub merge_ranges-IsRange : (rs : List ByteRange) → All IsRange rs → All IsRange (merge_ranges rs)
merge_ranges-IsRange rs v =
    SeparatedFrom-IsRange 0 (merge_ranges rs) (merge_ranges-IsCanonical rs v)

-- Merging what is merged changes nothing.
pub merge_ranges_idem :
    (rs : List ByteRange) → All IsRange rs → merge_ranges (merge_ranges rs) ≡ merge_ranges rs
merge_ranges_idem rs v =
    merge_ranges_unique (merge_ranges rs) rs (merge_ranges-IsRange rs v) v (covers-merge_ranges rs)

items_to_ranges-map : (rs : List ByteRange) → items_to_ranges (map range_to_item rs) ≡ rs
unfolding items_to_ranges range_to_item
items_to_ranges-map [] = refl
items_to_ranges-map (r ∷ rs) = ap (λ t. r ∷ t) (items_to_ranges-map rs)

-- Reading back what was stored gives the merged ranges.
pub ranges_from_json-ranges_to_json :
    (rs : List ByteRange) → All IsRange rs → ranges_from_json (ranges_to_json rs) ≡ merge_ranges rs
unfolding ranges_from_json ranges_to_json
ranges_from_json-ranges_to_json rs v =
    rw (items_to_ranges-map (merge_ranges rs)) (merge_ranges_idem rs v)
