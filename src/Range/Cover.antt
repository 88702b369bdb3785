-- ===== src/Range/Cover.antt =====
-- `ranges_cover_file` decides whether every byte of the file was received.
use aird.Base.{ℕ, zero, suc, ◌+◌, ◌≤◌, ◌<◌, ◌≡◌, ◌↔◌, sym, ◌∙◌, true, List, [], ◌∷◌, All, arith}
use aird.Range.{
  ByteRange, IsRange, merge_ranges, cover_from, cover_merged, ranges_cover_file, covers,
}
use aird.Range.Merge.{covers-merge_ranges}
use aird.Range.Canonical.{IsCanonical, merge_ranges-IsCanonical, covers_below, covers_past_end}

-- No range reaches past the file.
abbrev pub Within : ℕ → ByteRange → Type 0
Within total r = r.end < total

pub covers-Within :
    (total : ℕ) (rs : List ByteRange) (i : ℕ)
    → All (Within total) rs
    → covers rs i ≡ true
    → i < total
unfolding covers
covers-Within total [] i h e = cc
covers-Within total (r ∷ rs) i (h, hs) e = ground (arith, covers-Within total rs i hs)

-- A canonical list passes the test only if its first range is the whole file.
cover_merged_whole :
    (total : ℕ) (rs : List ByteRange)
    → IsCanonical rs
    → cover_merged total rs ≡ true
    → (i : ℕ) → i < total
    → covers rs i ≡ true
unfolding cover_merged cover_from covers
cover_merged_whole total [] h e i lt = cc
cover_merged_whole total (r ∷ []) h e i lt = ground arith
cover_merged_whole total (r ∷ s ∷ rest) h e i lt = ground arith

module _ (total : ℕ) (pos : 0 < total) where
  whole_first :
      (r : ByteRange) (rs : List ByteRange)
      → IsCanonical (r ∷ rs)
      → ((i : ℕ) → i < total → covers (r ∷ rs) i ≡ true)
      → (r.start ≡ 0) × (total ≤ r.end + 1)
  whole_first r rs (h, v, hs) full = (
    ground (arith, covers_below r.start (r ∷ rs) 0 (omega arith, v, hs), full 0 pos),
    ground (arith, covers_past_end 0 r rs (h, v, hs), full (r.end + 1)),
  )

  cover_merged_full :
      (rs : List ByteRange)
      → IsCanonical rs
      → ((i : ℕ) → covers rs i ≡ true → i < total)
      → ((i : ℕ) → i < total → covers rs i ≡ true)
      → cover_merged total rs ≡ true
  unfolding cover_merged cover_from
  cover_merged_full [] h small full = unfold covers in ground (arith, full 0 pos)
  cover_merged_full (r ∷ []) h small full = ground (arith, whole_first r [] h full)
  cover_merged_full (r ∷ s ∷ rest) h small full =
      let (start, end) = whole_first r (s ∷ rest) h full in
      let held : covers (r ∷ s ∷ rest) s.start ≡ true = unfold covers in ground (arith, h.2) in
      absurd (omega (arith, small s.start held, h.2))

ranges_cover_file_pos :
    (rs : List ByteRange) (n : ℕ)
    → ranges_cover_file rs (suc n) ≡ cover_merged (suc n) (merge_ranges rs)
unfolding ranges_cover_file
ranges_cover_file_pos rs n = ground arith

-- A list that passes holds every byte of the file.
pub ranges_cover_file_sound :
    (rs : List ByteRange) (total : ℕ)
    → All IsRange rs
    → ranges_cover_file rs total ≡ true
    → (i : ℕ) → i < total
    → covers rs i ≡ true
ranges_cover_file_sound rs zero v e i lt = elim lt [ ]
ranges_cover_file_sound rs (suc n) v e i lt =
    sym (covers-merge_ranges rs i)
    ∙ cover_merged_whole (suc n) (merge_ranges rs) (merge_ranges-IsCanonical rs v)
        (sym (ranges_cover_file_pos rs n) ∙ e) i lt

-- A list with no byte past the end passes once it holds every byte of a file that is not empty.
pub ranges_cover_file_full :
    (rs : List ByteRange) (total : ℕ)
    → All IsRange rs
    → 0 < total
    → ((i : ℕ) → covers rs i ≡ true → i < total)
    → ((i : ℕ) → i < total → covers rs i ≡ true)
    → ranges_cover_file rs total ≡ true
ranges_cover_file_full rs zero v pos small full = absurd (omega (arith, pos))
ranges_cover_file_full rs (suc n) v pos small full =
    ranges_cover_file_pos rs n
    ∙ cover_merged_full (suc n) pos (merge_ranges rs) (merge_ranges-IsCanonical rs v)
        (λ i held. small i (sym (covers-merge_ranges rs i) ∙ held))
        (λ i lt. covers-merge_ranges rs i ∙ full i lt)

-- For nonempty ranges within the file, the test passes exactly when the file is not empty and
-- every byte of it lies in one of the ranges.
pub ranges_cover_file_iff :
    (rs : List ByteRange) (total : ℕ)
    → All IsRange rs
    → All (Within total) rs
    → (ranges_cover_file rs total ≡ true)
      ↔ ((0 < total) × ((i : ℕ) → i < total → covers rs i ≡ true))
unfolding ranges_cover_file
ranges_cover_file_iff rs zero v w = (λ e. cc, λ h. absurd (omega (arith, h.0)))
ranges_cover_file_iff rs (suc n) v w = (
  λ e. (omega arith, ranges_cover_file_sound rs (suc n) v e),
  λ h. ranges_cover_file_full rs (suc n) v h.0 (λ i held. covers-Within (suc n) rs i w held) h.1,
)
