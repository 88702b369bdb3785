-- ===== src/Range/Header/Laws.antt =====
-- A `Range` header selects the bytes that it asks for.
use aird.Base.{
  ℕ, zero, suc, ◌+◌, ◌≤◌, ◌<◌, ◌≡◌, refl, Bool, true, false, ◌&&◌, ◌||◌, Option, none, some, List,
  [], ◌∷◌, ◌++◌, all, arith, leb, ltb, eqb,
}
use aird.Base.Text.{
  codes, is_digit, is_space, plain, int_of, contains, digits, after_digits, strip, strip_of_plain,
  lower, starts_with, after, before,
}
use aird.Range.{ByteRange, holds_byte}
use aird.Range.Header.{clip, pick_range, match_end, match_dash, parse_spec, parse_range_header}

-- Whether byte `i` of a file of `size` bytes is asked for by `bytes=<first>-<last>`, either of
-- the two being a run of digits or empty.
abbrev pub is_requested : List ℕ → List ℕ → ℕ → ℕ → Bool
is_requested [] [] size i = false
is_requested [] (e ∷ es) size i = ltb i size && leb size (i + int_of (e ∷ es))
is_requested (s ∷ ss) [] size i = ltb i size && leb (int_of (s ∷ ss)) i
is_requested (s ∷ ss) (e ∷ es) size i =
    ltb i size && leb (int_of (s ∷ ss)) i && leb i (int_of (e ∷ es))

abbrev pub selects : Option ByteRange → ℕ → Bool
selects none i = false
selects (some r) i = holds_byte r i

selects-pick_range :
    (first last : List ℕ) (n i : ℕ)
    → selects (pick_range first last (suc n)) i ≡ is_requested first last (suc n) i
unfolding pick_range clip holds_byte
selects-pick_range [] [] n i = refl
selects-pick_range [] (e ∷ es) n i = ground arith
selects-pick_range (s ∷ ss) [] n i = ground arith
selects-pick_range (s ∷ ss) (e ∷ es) n i = ground arith

-- What the parser needs of a text of digits and dashes.
abbrev is_spec : ℕ → Bool
is_spec c = is_digit c || eqb c b'-'

spec_of_digits :
    (first last : List ℕ)
    → all is_digit first ≡ true
    → all is_digit last ≡ true
    → all is_spec (first ++ b'-' ∷ last) ≡ true
unfolding is_digit
spec_of_digits [] [] h k = refl
spec_of_digits [] (c ∷ cs) h k = ground (arith, spec_of_digits [] cs h)
spec_of_digits (c ∷ cs) last h k = ground (arith, spec_of_digits cs last)

plain_of_spec : (s : List ℕ) → all is_spec s ≡ true → all plain s ≡ true
unfolding is_digit is_space
plain_of_spec [] h = refl
plain_of_spec (c ∷ cs) h = ground (arith, plain_of_spec cs)

contains_comma : (s : List ℕ) → all is_spec s ≡ true → contains b',' s ≡ false
unfolding is_digit contains
contains_comma [] h = refl
contains_comma (c ∷ cs) h = ground (arith, contains_comma cs)

digits-append :
    (first last : List ℕ)
    → all is_digit first ≡ true
    → (digits (first ++ b'-' ∷ last) ≡ first) × (after_digits (first ++ b'-' ∷ last) ≡ b'-' ∷ last)
unfolding digits after_digits
digits-append [] last h = (refl, refl)
digits-append (c ∷ cs) last h = ground (arith, digits-append cs last)

digits-all : (s : List ℕ) → all is_digit s ≡ true → (digits s ≡ s) × (after_digits s ≡ [])
unfolding digits after_digits
digits-all [] h = (refl, refl)
digits-all (c ∷ cs) h = ground (arith, digits-all cs)

parse_spec_digits :
    (first last : List ℕ) (size : ℕ)
    → all is_digit first ≡ true
    → all is_digit last ≡ true
    → parse_spec (first ++ b'-' ∷ last) size ≡ pick_range first last size
unfolding parse_spec match_dash match_end
parse_spec_digits first last size h k =
    let (d, a) = digits-append first last h in let (d', a') = digits-all last k in rw (d, a, d', a')

abbrev pub range_header : List ℕ → List ℕ → List ℕ
range_header first last = codes "bytes=" ++ first ++ b'-' ∷ last

range_header_plain :
    (rest : List ℕ) → all plain rest ≡ true → all plain (codes "bytes=" ++ rest) ≡ true
unfolding is_space
range_header_plain rest h = h

range_header_prefix :
    (rest : List ℕ)
    → (starts_with (codes "bytes=") (lower (codes "bytes=" ++ rest)) ≡ true)
      × (after b'=' (codes "bytes=" ++ rest) ≡ rest)
unfolding starts_with lower after
range_header_prefix rest = (refl, refl)

parse_range_header_digits :
    (first last : List ℕ) (n : ℕ)
    → all is_digit first ≡ true
    → all is_digit last ≡ true
    → parse_range_header (some (range_header first last)) (suc n) ≡ pick_range first last (suc n)
unfolding parse_range_header
parse_range_header_digits first last n h k =
    let spec = first ++ b'-' ∷ last in
    let is = spec_of_digits first last h k in
    let clear = plain_of_spec spec is in
    let (prefix, cut) = range_header_prefix spec in
    rw
      (
        strip_of_plain _ (range_header_plain spec clear),
        prefix,
        cut,
        strip_of_plain _ clear,
        contains_comma spec is,
      )
      (parse_spec_digits first last (suc n) h k)

nothing_requested : (first last : List ℕ) (i : ℕ) → false ≡ is_requested first last 0 i
nothing_requested [] [] i = refl
nothing_requested [] (e ∷ es) i = ground arith
nothing_requested (s ∷ ss) [] i = ground arith
nothing_requested (s ∷ ss) (e ∷ es) i = ground arith

-- A header `bytes=<first>-<last>`, where each of the two is a run of digits or empty, selects for
-- every file size exactly the bytes that it asks for: those from `first` to `last`, from `first`
-- on, or the last `last` of them. No byte is asked for by `bytes=-`, and none of an empty file.
pub selects-parse_range_header :
    (first last : List ℕ) (size i : ℕ)
    → all is_digit first ≡ true
    → all is_digit last ≡ true
    → selects (parse_range_header (some (range_header first last)) size) i
      ≡ is_requested first last size i
unfolding parse_range_header
selects-parse_range_header first last zero i h k = nothing_requested first last i
selects-parse_range_header first last (suc n) i h k =
    rw (parse_range_header_digits first last n h k) (selects-pick_range first last n i)

pick_range_bounds :
    (first last : List ℕ) (n : ℕ) (r : ByteRange)
    → pick_range first last (suc n) ≡ some r
    → (r.start ≤ r.end) × (r.end < suc n)
unfolding pick_range clip
pick_range_bounds [] [] n r e = cc
pick_range_bounds [] (x ∷ xs) n r e = ground arith
pick_range_bounds (x ∷ xs) [] n r e = ground arith
pick_range_bounds (x ∷ xs) (y ∷ ys) n r e = ground arith

match_end_bounds :
    (start end rest : List ℕ) (n : ℕ) (r : ByteRange)
    → match_end start end rest (suc n) ≡ some r
    → (r.start ≤ r.end) × (r.end < suc n)
unfolding match_end
match_end_bounds start end [] n r e = pick_range_bounds start end n r e
match_end_bounds start end (c ∷ cs) n r e = cc

match_dash_bounds :
    (start rest : List ℕ) (n : ℕ) (r : ByteRange)
    → match_dash start rest (suc n) ≡ some r
    → (r.start ≤ r.end) × (r.end < suc n)
unfolding match_dash
match_dash_bounds start [] n r e = cc
match_dash_bounds start (c ∷ cs) n r e =
    match_end_bounds start (digits cs) (after_digits cs) n r (ground arith)

parse_spec_bounds :
    (spec : List ℕ) (n : ℕ) (r : ByteRange)
    → parse_spec spec (suc n) ≡ some r
    → (r.start ≤ r.end) × (r.end < suc n)
unfolding parse_spec
parse_spec_bounds spec n r e = match_dash_bounds (digits spec) (after_digits spec) n r e

-- Whatever the header, a range that is returned is nonempty and lies within the file.
pub parse_range_header_bounds :
    (header : Option (List ℕ)) (size : ℕ) (r : ByteRange)
    → parse_range_header header size ≡ some r
    → (r.start ≤ r.end) × (r.end < size)
unfolding parse_range_header
parse_range_header_bounds none size r e = cc
parse_range_header_bounds (some []) size r e = cc
parse_range_header_bounds (some (c ∷ cs)) zero r e = cc
parse_range_header_bounds (some (c ∷ cs)) (suc n) r e = ground (
  arith,
  parse_spec_bounds (strip (before b',' (strip (after b'=' (strip (c ∷ cs)))))) n r,
  parse_spec_bounds (strip (after b'=' (strip (c ∷ cs)))) n r,
)
