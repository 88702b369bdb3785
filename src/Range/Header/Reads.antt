-- ===== src/Range/Header/Reads.antt =====
-- What a Content-Range that is written as the protocol has it reads as.
use mathlib.Core.List.{append-nil}
use aird.Base.{
  ℕ, ◌≡◌, refl, sym, ◌∙◌, ap, Bool, true, false, Option, none, some, List, [], ◌∷◌, ◌++◌, all, ltb,
  arith, if◌then◌else◌,
}
use aird.Base.Text.{
  codes, is_digit, is_space, is_empty, plain, int_of, digits, after_digits, lstrip, strip_of_ends,
  lstrip_of_visible, lower, starts_with,
}
use aird.Range.Header.{
  order_checked, match_total, match_last, match_first, match_numbers, parse_content_range,
}

-- The length of the file in the header: a number, or an asterisk where it is not known.
abbrev pub total_text : Option (List ℕ) → List ℕ
total_text none = b'*' ∷ []
total_text (some total) = total

abbrev pub total_value : Option (List ℕ) → Option ℕ
total_value none = none
total_value (some total) = some (int_of total)

-- A nonempty run of digits.
abbrev pub is_number : List ℕ → Bool
is_number [] = false
is_number (c ∷ cs) = all is_digit (c ∷ cs)

abbrev pub is_total : Option (List ℕ) → Bool
is_total none = true
is_total (some total) = is_number total

-- What stands behind the first number.
abbrev pub behind_first : List ℕ → Option (List ℕ) → List ℕ
behind_first last total = b'-' ∷ (last ++ (b'/' ∷ total_text total))

abbrev pub content_header : List ℕ → List ℕ → Option (List ℕ) → List ℕ
content_header first last total = codes "bytes " ++ (first ++ behind_first last total)

digits_cut :
    (ds : List ℕ) (c : ℕ) (rest : List ℕ)
    → all is_digit ds ≡ true
    → is_digit c ≡ false
    → (digits (ds ++ c ∷ rest) ≡ ds) × (after_digits (ds ++ c ∷ rest) ≡ c ∷ rest)
unfolding digits after_digits
digits_cut [] c rest h k = (ground (arith, k), ground (arith, k))
digits_cut (d ∷ ds) c rest h k = ground (arith, digits_cut ds c rest)

after_digits-all : (ds : List ℕ) → all is_digit ds ≡ true → after_digits ds ≡ []
unfolding after_digits
after_digits-all [] h = refl
after_digits-all (d ∷ ds) h = ground (arith, after_digits-all ds)

digits_plain :
    (ds rest : List ℕ)
    → all is_digit ds ≡ true
    → all plain rest ≡ true
    → all plain (ds ++ rest) ≡ true
unfolding is_digit is_space
digits_plain [] rest h k = k
digits_plain (d ∷ ds) rest h k = ground (arith, digits_plain ds rest)

match_total_reads :
    (start end : ℕ) (total : Option (List ℕ))
    → is_total total ≡ true
    → match_total start end (total_text total)
      ≡ order_checked (record { start = start; end = end; total = total_value total })
unfolding match_total is_empty is_digit
match_total_reads start end none h = refl
match_total_reads start end (some []) h = cc
match_total_reads start end (some (c ∷ cs)) h = ground (arith, after_digits-all cs)

match_first_reads :
    (first last : List ℕ) (total : Option (List ℕ))
    → is_number first ≡ true
    → is_number last ≡ true
    → is_total total ≡ true
    → match_first first (behind_first last total)
      ≡ order_checked
          (record { start = int_of first; end = int_of last; total = total_value total })
unfolding match_first match_last is_digit
match_first_reads [] last total h k l = cc
match_first_reads (c ∷ cs) [] total h k l = cc
match_first_reads (c ∷ cs) (d ∷ ds) total h k l =
    let (all_digits, rest) = digits_cut (d ∷ ds) b'/' (total_text total) k refl in
    rw (all_digits, rest) (match_total_reads (int_of (c ∷ cs)) (int_of (d ∷ ds)) total l)

-- What is written behind the unit has no white space.
numbers_plain :
    (first last : List ℕ) (total : Option (List ℕ))
    → all is_digit first ≡ true
    → is_number last ≡ true
    → is_total total ≡ true
    → all plain (first ++ behind_first last total) ≡ true
unfolding is_space
numbers_plain first last total h k l =
    digits_plain first (behind_first last total) h (rest last k (ending total l))
  where
    ending : (t : Option (List ℕ)) → is_total t ≡ true → all plain (b'/' ∷ total_text t) ≡ true
    ending none l = refl
    ending (some []) l = cc
    ending (some (c ∷ cs)) l =
        ap (all plain) (sym (append-nil (c ∷ cs))) ∙ digits_plain (c ∷ cs) [] l refl

    rest :
        (ds : List ℕ)
        → is_number ds ≡ true
        → all plain (b'/' ∷ total_text total) ≡ true
        → all plain (behind_first ds total) ≡ true
    rest [] k e = cc
    rest (d ∷ ds) k e = digits_plain (d ∷ ds) (b'/' ∷ total_text total) k e

digit_plain : (c : ℕ) → is_digit c ≡ true → plain c ≡ true
unfolding is_digit is_space
digit_plain c h = ground (arith, h)

numbers_read :
    (c : ℕ) (cs last : List ℕ) (total : Option (List ℕ))
    → is_number (c ∷ cs) ≡ true
    → is_number last ≡ true
    → is_total total ≡ true
    → match_numbers (b' ' ∷ ((c ∷ cs) ++ behind_first last total))
      ≡ order_checked
          (record { start = int_of (c ∷ cs); end = int_of last; total = total_value total })
unfolding match_numbers is_space is_digit
numbers_read c cs last total h k l =
    let numbers = (c ∷ cs) ++ behind_first last total in
    let kept : lstrip numbers ≡ numbers =
      lstrip_of_visible c (cs ++ behind_first last total) (digit_plain c (ground (arith, h))) in
    let (run, behind) = digits_cut (c ∷ cs) b'-' (last ++ (b'/' ∷ total_text total)) h refl in
    rw (kept, run, behind) (match_first_reads (c ∷ cs) last total h k l)

-- A Content-Range `bytes <first>-<last>/<total>`, of runs of digits that are not empty or with an
-- asterisk for the total, reads as the numbers that stand in it, in their order; it is refused
-- only if the last is below the first.
pub parse_content_range-content_header :
    (first last : List ℕ) (total : Option (List ℕ))
    → is_number first ≡ true
    → is_number last ≡ true
    → is_total total ≡ true
    → parse_content_range (some (content_header first last total)) ≡ (
        if ltb (int_of last) (int_of first)
        then none
        else some (record { start = int_of first; end = int_of last; total = total_value total }))
unfolding parse_content_range starts_with lower order_checked is_space
parse_content_range-content_header [] last total h k l = cc
parse_content_range-content_header (c ∷ cs) last total h k l =
    rw
      (strip_of_ends b'b' (codes "ytes ") c (cs ++ behind_first last total) refl
        (numbers_plain (c ∷ cs) last total h k l))
      (numbers_read c cs last total h k l)
