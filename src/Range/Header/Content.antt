-- ===== src/Range/Header/Content.antt =====
-- What a parsed Content-Range says.
use aird.Base.{ℕ, ◌≤◌, ◌≡◌, Option, none, some, List, [], ◌∷◌, drop, arith}
use aird.Base.Text.{int_of, digits, after_digits, strip, lstrip}
use aird.Range.Header.{
  ContentRange, order_checked, match_total, match_last, match_first, match_numbers,
  parse_content_range,
}

match_total-order :
    (start end : ℕ) (s : List ℕ) (r : ContentRange)
    → match_total start end s ≡ some r
    → r.start ≤ r.end
unfolding match_total order_checked
match_total-order start end [] r e = cc
match_total-order start end (c ∷ cs) r e = ground arith

match_last-order :
    (start : ℕ) (ds rest : List ℕ) (r : ContentRange)
    → match_last start ds rest ≡ some r
    → r.start ≤ r.end
unfolding match_last
match_last-order start [] rest r e = cc
match_last-order start (d ∷ ds) [] r e = cc
match_last-order start (d ∷ ds) (c ∷ cs) r e =
    match_total-order start (int_of (d ∷ ds)) cs r (ground arith)

match_first-order :
    (ds rest : List ℕ) (r : ContentRange) → match_first ds rest ≡ some r → r.start ≤ r.end
unfolding match_first
match_first-order [] rest r e = cc
match_first-order (d ∷ ds) [] r e = cc
match_first-order (d ∷ ds) (c ∷ cs) r e =
    match_last-order (int_of (d ∷ ds)) (digits cs) (after_digits cs) r (ground arith)

match_numbers-order : (s : List ℕ) (r : ContentRange) → match_numbers s ≡ some r → r.start ≤ r.end
unfolding match_numbers
match_numbers-order [] r e = cc
match_numbers-order (c ∷ cs) r e =
    match_first-order (digits (lstrip cs)) (after_digits (lstrip cs)) r (ground arith)

-- A parsed Content-Range is nonempty.
pub parse_content_range-order :
    (header : Option (List ℕ)) (r : ContentRange)
    → parse_content_range header ≡ some r
    → r.start ≤ r.end
unfolding parse_content_range
parse_content_range-order none r e = cc
parse_content_range-order (some []) r e = cc
parse_content_range-order (some (c ∷ cs)) r e =
    match_numbers-order (drop 5 (strip (c ∷ cs))) r (ground arith)
