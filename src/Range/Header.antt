-- ===== src/Range/Header.antt =====
-- `parse_range_header` and `parse_content_range` of aird/core/http_range.py, over code points.
-- Headers reach them decoded by Latin-1. `int` is taken without the limit of 4300 digits that newer
-- versions of Python set for it, by which a longer position raises ValueError.
pub mod Laws
pub mod Content
pub mod Reads
use aird.Base.{
  ℕ, zero, suc, ◌-◌, min, ◌&&◌, drop, Option, none, some, List, [], ◌∷◌, leb, ltb, eqb,
  if◌then◌else◌,
}
use aird.Base.Text.{
  codes, strip, lower, starts_with, contains, before, after, is_digit, is_space, digits,
  after_digits, int_of, lstrip, is_empty,
}
use aird.Range.{ByteRange}

-- The tests at the end of `parse_range_header`; `start < 0` never holds.
pub clip : ℕ → ℕ → ℕ → Option ByteRange
clip start end size =
    if ltb end start
    then none
    else if leb size start
    then none
    else some (record { start = start; end = min end (size - 1) })

-- The three forms `-suffix`, `first-` and `first-last`, by which of the two groups is empty.
pub pick_range : List ℕ → List ℕ → ℕ → Option ByteRange
pick_range [] [] size = none
pick_range [] (e ∷ es) size =
    let suffix = int_of (e ∷ es) in
    if eqb suffix 0 then none else clip (size - suffix) (size - 1) size
pick_range (s ∷ ss) [] size = clip (int_of (s ∷ ss)) (size - 1) size
pick_range (s ∷ ss) (e ∷ es) size = clip (int_of (s ∷ ss)) (int_of (e ∷ es)) size

-- `_RANGE_RE.match(spec)`: digits, a dash, digits, the end.
pub match_end : List ℕ → List ℕ → List ℕ → ℕ → Option ByteRange
match_end start end [] size = pick_range start end size
match_end start end (_ ∷ _) size = none

pub match_dash : List ℕ → List ℕ → ℕ → Option ByteRange
match_dash start [] size = none
match_dash start (c ∷ cs) size =
    if eqb c b'-' then match_end start (digits cs) (after_digits cs) size else none

pub parse_spec : List ℕ → ℕ → Option ByteRange
parse_spec spec size = match_dash (digits spec) (after_digits spec) size

unfoldable pub parse_range_header : Option (List ℕ) → ℕ → Option ByteRange
unfolding clip pick_range match_end match_dash parse_spec
parse_range_header none size = none
parse_range_header (some []) size = none
parse_range_header (some (c ∷ cs)) zero = none
parse_range_header (some (c ∷ cs)) (suc n) =
    let header = strip (c ∷ cs) in
    if starts_with (codes "bytes=") (lower header)
    then (let spec = strip (after b'=' header) in
        if contains b',' spec
        then parse_spec (strip (before b',' spec)) (suc n)
        else parse_spec spec (suc n))
    else none

-- The named groups of `_CONTENT_RANGE_RE` and the test `end < start`.
pub record ContentRange : Type 0 where
  pub start : ℕ
  pub end : ℕ
  pub total : Option ℕ

pub order_checked : ContentRange → Option ContentRange
order_checked r = if ltb r.end r.start then none else some r

-- `(\d+|\*)$`
pub match_total : ℕ → ℕ → List ℕ → Option ContentRange
match_total start end [] = none
match_total start end (c ∷ cs) =
    if eqb c b'*' && is_empty cs
    then order_checked (record { start = start; end = end; total = none })
    else if is_digit c && is_empty (after_digits cs)
    then order_checked (record { start = start; end = end; total = some (int_of (c ∷ cs)) })
    else none

-- `(\d+)/`
pub match_last : ℕ → List ℕ → List ℕ → Option ContentRange
match_last start [] rest = none
match_last start (d ∷ ds) [] = none
match_last start (d ∷ ds) (c ∷ cs) =
    if eqb c b'/' then match_total start (int_of (d ∷ ds)) cs else none

-- `(\d+)-`
pub match_first : List ℕ → List ℕ → Option ContentRange
match_first [] rest = none
match_first (d ∷ ds) [] = none
match_first (d ∷ ds) (c ∷ cs) =
    if eqb c b'-' then match_last (int_of (d ∷ ds)) (digits cs) (after_digits cs) else none

-- `\s+` and what follows it.
pub match_numbers : List ℕ → Option ContentRange
match_numbers [] = none
match_numbers (c ∷ cs) =
    if is_space c
    then (let rest = lstrip cs in match_first (digits rest) (after_digits rest))
    else none

unfoldable pub parse_content_range : Option (List ℕ) → Option ContentRange
unfolding order_checked match_total match_last match_first match_numbers
parse_content_range none = none
parse_content_range (some []) = none
parse_content_range (some (c ∷ cs)) =
    let header = strip (c ∷ cs) in
    if starts_with (codes "bytes") (lower header) then match_numbers (drop 5 header) else none
