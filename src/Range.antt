-- ===== src/Range.antt =====
-- aird/core/http_range.py: byte ranges with an inclusive end, their merging, and whether a list of
-- them covers a file. Positions are natural numbers: they come from decimal digits.
pub mod Merge
pub mod Canonical
pub mod Cover
pub mod Header
mod Examples
use aird.Base.{
  ℕ, ◌+◌, ◌-◌, ◌≤◌, max, Bool, true, false, List, [], ◌∷◌, map, leb, eqb, if◌then◌else◌,
}

pub record ByteRange : Type 0 where
  pub start : ℕ
  pub end : ℕ

-- `sorted(ranges, key=lambda r: r.start)`, which is stable.
pub insert_by_start : ByteRange → List ByteRange → List ByteRange
insert_by_start r [] = r ∷ []
insert_by_start r (s ∷ rs) = if leb r.start s.start then r ∷ s ∷ rs else s ∷ insert_by_start r rs

pub sort_by_start : List ByteRange → List ByteRange
sort_by_start [] = []
sort_by_start (r ∷ rs) = insert_by_start r (sort_by_start rs)

-- The loop of `merge_ranges`; `last` is `merged[-1]`, and what stands before it is final.
pub merge_from : ByteRange → List ByteRange → List ByteRange
merge_from last [] = last ∷ []
merge_from last (current ∷ rest) =
    let joined = merge_from (record { start = last.start; end = max last.end current.end }) rest in
    let apart = merge_from current rest in
    if leb current.start (last.end + 1) then joined else last ∷ apart

pub merge_sorted : List ByteRange → List ByteRange
merge_sorted [] = []
merge_sorted (first ∷ rest) = merge_from first rest

unfoldable pub merge_ranges : List ByteRange → List ByteRange
unfolding insert_by_start sort_by_start merge_from merge_sorted
merge_ranges ranges = merge_sorted (sort_by_start ranges)

-- The loop of `ranges_cover_file`; the test after the loop is `covered >= total_size`.
pub cover_from : ℕ → ℕ → List ByteRange → Bool
cover_from total covered [] = leb total covered
cover_from total covered (r ∷ rest) =
    let next = cover_from total (r.end + 1) rest in if eqb r.start covered then next else false

-- `not merged or merged[0].start != 0`, and then the loop.
pub cover_merged : ℕ → List ByteRange → Bool
cover_merged total [] = false
cover_merged total (first ∷ rest) =
    if eqb first.start 0 then cover_from total 0 (first ∷ rest) else false

unfoldable pub ranges_cover_file : List ByteRange → ℕ → Bool
unfolding cover_from cover_merged
ranges_cover_file ranges total =
    if eqb total 0 then false else cover_merged total (merge_ranges ranges)

-- An item of the stored JSON list: a list of non-negative integers, or a value that is no list of
-- two items, which is skipped. A list of two items that are no integers, which `int` would
-- convert or refuse, is left out: `update_ranges` is the only writer of the column, and stores
-- what `ranges_to_json` gives.
pub data Item : Type 0 where
  ints : List ℕ → Item
  other : Item

pub range_to_item : ByteRange → Item
range_to_item r = ints (r.start ∷ r.end ∷ [])

unfoldable pub ranges_to_json : List ByteRange → List Item
unfolding range_to_item
ranges_to_json ranges = map range_to_item (merge_ranges ranges)

-- The loop of `ranges_from_json`.
pub items_to_ranges : List Item → List ByteRange
items_to_ranges [] = []
items_to_ranges (ints (a ∷ b ∷ []) ∷ rest) = record { start = a; end = b } ∷ items_to_ranges rest
items_to_ranges (_ ∷ rest) = items_to_ranges rest

unfoldable pub ranges_from_json : List Item → List ByteRange
unfolding items_to_ranges
ranges_from_json items = merge_ranges (items_to_ranges items)

-- What the ranges hold: the byte at `i` lies in one of them.
unfoldable pub holds_byte : ByteRange → ℕ → Bool
holds_byte r i = if leb r.start i then leb i r.end else false

unfoldable pub covers : List ByteRange → ℕ → Bool
unfolding holds_byte
covers [] i = false
covers (r ∷ rs) i = if holds_byte r i then true else covers rs i

abbrev pub IsRange : ByteRange → Type 0
IsRange r = r.start ≤ r.end
