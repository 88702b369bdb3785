-- ===== src/Range/Examples.antt =====
-- Tests of the range functions, and the theorems at concrete inputs.
use aird.Base.{ℕ, ◌≤◌, ◌<◌, ◌≡◌, ◌↔◌, refl, true, false, some, List, [], ◌∷◌, arith}
use aird.Base.Text.{
  codes, strip, lower, starts_with, after, contains, before, digits, after_digits, int_of, is_empty,
  is_digit,
}
use aird.Range.{
  ByteRange, merge_ranges, ranges_cover_file, ranges_to_json, ranges_from_json, covers,
}
use aird.Range.Canonical.{
  IsCanonical, merge_ranges-IsCanonical, merge_ranges_unique, ranges_from_json-ranges_to_json,
}
use aird.Range.Cover.{ranges_cover_file_iff}
use aird.Range.Merge.{covers-merge_ranges}
use aird.Range.Header.{parse_range_header, parse_content_range}
use aird.Range.Header.Reads.{content_header, parse_content_range-content_header}
use aird.Range.Header.Laws.{
  range_header, selects, is_requested, selects-parse_range_header, parse_range_header_bounds,
}

abbrev range : ℕ → ℕ → ByteRange
range a b = record { start = a; end = b }

abbrev received : List ByteRange
received = range 5 9 ∷ range 0 2 ∷ range 3 4 ∷ range 20 29 ∷ []

merge_test : merge_ranges received ≡ range 0 9 ∷ range 20 29 ∷ []
unfolding merge_ranges
merge_test = refl

cover_test : ranges_cover_file (range 3 9 ∷ range 0 2 ∷ []) 10 ≡ true
unfolding ranges_cover_file merge_ranges
cover_test = refl

gap_test : ranges_cover_file (range 4 9 ∷ range 0 2 ∷ []) 10 ≡ false
unfolding ranges_cover_file merge_ranges
gap_test = refl

-- A range past the end hides that the file is covered.
stray_test : ranges_cover_file (range 0 9 ∷ range 20 29 ∷ []) 10 ≡ false
unfolding ranges_cover_file merge_ranges
stray_test = refl

header_test : parse_range_header (some (codes " Bytes=2-30, 5-6 ")) 10 ≡ some (range 2 9)
unfolding parse_range_header strip lower starts_with after contains before digits after_digits
    int_of
header_test = refl

suffix_test : parse_range_header (some (codes "bytes=-3")) 10 ≡ some (range 7 9)
unfolding parse_range_header strip lower starts_with after contains before digits after_digits
    int_of
suffix_test = refl

content_test :
    parse_content_range (some (codes "bytes 0-9/20"))
    ≡ some (record { start = 0; end = 9; total = some 20 })
unfolding parse_content_range strip lower starts_with digits after_digits int_of is_empty
content_test = refl

merge_ranges-IsCanonical_example : IsCanonical (merge_ranges received)
merge_ranges-IsCanonical_example = merge_ranges-IsCanonical received (omega arith)

covers-merge_ranges_example : covers (merge_ranges received) 7 ≡ covers received 7
covers-merge_ranges_example = covers-merge_ranges received 7

same_bytes : (i : ℕ) → covers (range 0 4 ∷ []) i ≡ covers (range 2 4 ∷ range 0 3 ∷ []) i
unfolding covers
same_bytes i = ground arith

merge_ranges_unique_example :
    merge_ranges (range 0 4 ∷ []) ≡ merge_ranges (range 2 4 ∷ range 0 3 ∷ [])
merge_ranges_unique_example =
    merge_ranges_unique (range 0 4 ∷ []) (range 2 4 ∷ range 0 3 ∷ []) (omega arith) (omega arith)
      same_bytes

ranges_cover_file_iff_example :
    (ranges_cover_file (range 3 9 ∷ range 0 2 ∷ []) 10 ≡ true)
    ↔ ((0 < 10) × ((i : ℕ) → i < 10 → covers (range 3 9 ∷ range 0 2 ∷ []) i ≡ true))
ranges_cover_file_iff_example =
    ranges_cover_file_iff (range 3 9 ∷ range 0 2 ∷ []) 10 (omega arith) (omega arith)

ranges_from_json-ranges_to_json_example :
    ranges_from_json (ranges_to_json received) ≡ merge_ranges received
ranges_from_json-ranges_to_json_example = ranges_from_json-ranges_to_json received (omega arith)

selects-parse_range_header_example :
    selects (parse_range_header (some (range_header (codes "2") (codes "30"))) 10) 9
    ≡ is_requested (codes "2") (codes "30") 10 9
unfolding is_digit
selects-parse_range_header_example =
    selects-parse_range_header (codes "2") (codes "30") 10 9 refl refl

parse_range_header_bounds_example : (2 ≤ 9) × (9 < 10)
parse_range_header_bounds_example =
    parse_range_header_bounds (some (codes " Bytes=2-30, 5-6 ")) 10 (range 2 9) header_test

parse_content_range-content_header_example :
    parse_content_range (some (content_header (codes "3") (codes "12") (some (codes "20"))))
    ≡ some (record { start = 3; end = 12; total = some 20 })
unfolding is_digit int_of
parse_content_range-content_header_example =
    parse_content_range-content_header (codes "3") (codes "12") (some (codes "20")) refl refl refl
