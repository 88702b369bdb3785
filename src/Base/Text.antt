-- ===== src/Base/Text.antt =====
-- Text as a list of code points, for the code that walks it. Digits and letters are those of
-- Latin-1, in which the HTTP server decodes header values; white space is that of Unicode.
use Prim.Native.Nat.{ℕ, ◌+◌, ◌-◌, ◌*◌}
use Prim.Native.Char.{code}
use Prim.Native.String.{String}
use mathlib.Core.Path.{◌≡◌, refl}
use mathlib.Core.Bool.{Bool, true, false, not, ◌&&◌, ◌||◌}
use mathlib.Core.List.{List, [], ◌∷◌, map, ◌++◌}
use native.Mathlib.Omega.{arith}
use aird.Base.Tests.{leb, eqb, if◌then◌else◌}
use aird.Base.Lists.{any, all}

abbrev pub codes : String → List ℕ
codes String.[] = []
codes (String.◌∷◌ c s) = code c ∷ codes s

-- The white space beyond Latin-1.
unfoldable pub is_wide_space : ℕ → Bool
is_wide_space c =
    eqb c 5760
    || (leb 8192 c && leb c 8202)
    || eqb c 8232
    || eqb c 8233
    || eqb c 8239
    || eqb c 8287
    || eqb c 12288

-- `str.isspace`, and `\s` of the regular expressions.
unfoldable pub is_space : ℕ → Bool
is_space c =
    (leb 9 c && leb c 13)
    || (leb 28 c && leb c 32)
    || eqb c 133
    || eqb c 160
    || (leb 5760 c && is_wide_space c)

-- `\d` of the regular expressions.
unfoldable pub is_digit : ℕ → Bool
is_digit c = leb b'0' c && leb c b'9'

-- `str.lower`, one character.
unfoldable pub lower_char : ℕ → ℕ
lower_char c =
    if (leb b'A' c && leb c b'Z') || (leb 192 c && leb c 222 && not (eqb c 215)) then c + 32 else c

unfoldable pub lower : List ℕ → List ℕ
unfolding lower_char
lower s = map lower_char s

unfoldable pub is_empty {ℓ} : {A : Type ℓ} → List A → Bool
is_empty [] = true
is_empty (_ ∷ _) = false

pub lstrip : List ℕ → List ℕ
lstrip [] = []
lstrip (c ∷ cs) = let rest = lstrip cs in if is_space c then rest else c ∷ cs

pub rstrip : List ℕ → List ℕ
rstrip [] = []
rstrip (c ∷ cs) = let rest = rstrip cs in if is_space c && is_empty rest then [] else c ∷ rest

unfoldable pub strip : List ℕ → List ℕ
unfolding lstrip rstrip is_space is_empty
strip s = lstrip (rstrip s)

unfoldable pub starts_with : List ℕ → List ℕ → Bool
starts_with [] s = true
starts_with (p ∷ ps) [] = false
starts_with (p ∷ ps) (c ∷ cs) = eqb p c && starts_with ps cs

unfoldable pub contains : ℕ → List ℕ → Bool
contains c s = any (λ d. eqb c d) s

-- `s.split(c, 1)[0]` and, where `c` is there, `s.split(c, 1)[1]`.
unfoldable pub before : ℕ → List ℕ → List ℕ
before c [] = []
before c (d ∷ ds) = if eqb c d then [] else d ∷ before c ds

unfoldable pub after : ℕ → List ℕ → List ℕ
after c [] = []
after c (d ∷ ds) = if eqb c d then ds else after c ds

-- `int` of a run of digits.
pub int_from : ℕ → List ℕ → ℕ
int_from n [] = n
int_from n (c ∷ cs) = int_from (n * 10 + (c - b'0')) cs

unfoldable pub int_of : List ℕ → ℕ
unfolding int_from
int_of s = int_from 0 s

-- The longest prefix of digits (`\d*` at the start), and what follows it.
unfoldable pub digits : List ℕ → List ℕ
unfolding is_digit
digits [] = []
digits (c ∷ cs) = if is_digit c then c ∷ digits cs else []

unfoldable pub after_digits : List ℕ → List ℕ
unfolding is_digit
after_digits [] = []
after_digits (c ∷ cs) = if is_digit c then after_digits cs else c ∷ cs

abbrev pub plain : ℕ → Bool
plain c = not (is_space c)

lstrip_of_plain : (s : List ℕ) → all plain s ≡ true → lstrip s ≡ s
unfolding lstrip
lstrip_of_plain [] h = refl
lstrip_of_plain (c ∷ cs) h = ground arith

rstrip_of_plain : (s : List ℕ) → all plain s ≡ true → rstrip s ≡ s
unfolding rstrip
rstrip_of_plain [] h = refl
rstrip_of_plain (c ∷ cs) h = ground (arith, rstrip_of_plain cs)

-- A text without white space is stripped of nothing.
pub strip_of_plain : (s : List ℕ) → all plain s ≡ true → strip s ≡ s
unfolding strip
strip_of_plain s h = rw (rstrip_of_plain s h) (lstrip_of_plain s h)

nonempty-append : (p : List ℕ) (d : ℕ) (s : List ℕ) → is_empty (p ++ d ∷ s) ≡ false
unfolding is_empty
nonempty-append [] d s = refl
nonempty-append (c ∷ cs) d s = refl

rstrip-append :
    (p : List ℕ) (d : ℕ) (s : List ℕ) → all plain (d ∷ s) ≡ true → rstrip (p ++ d ∷ s) ≡ p ++ d ∷ s
unfolding rstrip
rstrip-append [] d s h = rstrip_of_plain (d ∷ s) h
rstrip-append (c ∷ cs) d s h = ground (arith, rstrip-append cs d s h, nonempty-append cs d s)

-- A text that begins with no white space and ends in a text without any is stripped of nothing.
pub strip_of_ends :
    (c : ℕ) (p : List ℕ) (d : ℕ) (s : List ℕ)
    → plain c ≡ true
    → all plain (d ∷ s) ≡ true
    → strip (c ∷ p ++ d ∷ s) ≡ c ∷ p ++ d ∷ s
unfolding strip lstrip
strip_of_ends c p d s h k = rw (rstrip-append (c ∷ p) d s k) (ground arith)

pub lstrip_of_visible : (c : ℕ) (cs : List ℕ) → plain c ≡ true → lstrip (c ∷ cs) ≡ c ∷ cs
unfolding lstrip
lstrip_of_visible c cs h = ground (arith, h)

abbrev pub Text : Type 0
Text = List ℕ

unfoldable pub text_eqb : Text → Text → Bool
text_eqb [] [] = true
text_eqb (a ∷ as') (b ∷ bs) = eqb a b && text_eqb as' bs
text_eqb _ _ = false

pub text_eqb→eq : (a b : Text) → text_eqb a b ≡ true → a ≡ b
unfolding text_eqb
text_eqb→eq [] [] h = refl
text_eqb→eq [] (b ∷ bs) h = cc
text_eqb→eq (a ∷ as') [] h = cc
text_eqb→eq (a ∷ as') (b ∷ bs) h = ground (arith, text_eqb→eq as' bs)

pub text_eqb_refl : (a : Text) → text_eqb a a ≡ true
unfolding text_eqb
text_eqb_refl [] = refl
text_eqb_refl (a ∷ as') = ground (arith, text_eqb_refl as')

-- `s.split(c)`: the first part, and the parts after each `c`.
unfoldable pub split_head : ℕ → Text → Text
split_head c [] = []
split_head c (d ∷ ds) = if eqb c d then [] else d ∷ split_head c ds

unfoldable pub split_tail : ℕ → Text → List Text
unfolding split_head
split_tail c [] = []
split_tail c (d ∷ ds) =
    let rest = split_tail c ds in if eqb c d then split_head c ds ∷ rest else rest

unfoldable pub split : ℕ → Text → List Text
unfolding split_head split_tail
split c s = split_head c s ∷ split_tail c s
