-- ===== src/Files/Chunks/Pieces.antt =====
-- Pieces of a list of bytes.
use aird.Base.{
  ℕ, zero, suc, ◌+◌, ◌-◌, ◌≤◌, ◌<◌, ◌≡◌, refl, sym, ap, ◌∙◌, true, false, [], ◌∷◌, ◌++◌, length,
  take, drop, arith,
}
use aird.Base.Text.{is_empty}
use aird.Files.Chunks.{Bytes}

abbrev pub no_bytes : Bytes
no_bytes = []

pub take_nil : (n : ℕ) → take n no_bytes ≡ []
take_nil zero = refl
take_nil (suc n) = refl

pub drop_nil : (n : ℕ) → drop n no_bytes ≡ []
drop_nil zero = refl
drop_nil (suc n) = refl

pub take_zero : (n : ℕ) (xs : Bytes) → n ≡ 0 → take n xs ≡ []
take_zero zero xs e = refl
take_zero (suc n) xs e = absurd (omega arith)

-- A shorter piece first, and the rest of the piece after it.
pub take_pieces :
    (n r : ℕ) (xs : Bytes)
    → n ≤ r
    → take n xs ++ take (r - length (take n xs)) (drop n xs) ≡ take r xs
take_pieces zero r xs h = ap (λ k. take k xs) (omega arith)
take_pieces (suc n) zero xs h = absurd (omega arith)
take_pieces (suc n) (suc r) [] h = take_nil (suc r - 0)
take_pieces (suc n) (suc r) (x ∷ xs) h =
    let less : suc r - suc (length (take n xs)) ≡ r - length (take n xs) = omega arith in
    rw less (ap (λ l. x ∷ l) (take_pieces n r xs (omega arith)))

pub take_all : (n : ℕ) (xs : Bytes) → length xs ≤ n → take n xs ≡ xs
take_all zero [] h = refl
take_all zero (x ∷ xs) h = absurd (omega arith)
take_all (suc n) [] h = refl
take_all (suc n) (x ∷ xs) h = ap (λ l. x ∷ l) (take_all n xs (omega arith))

pub drop-drop : (m p : ℕ) (xs : Bytes) → drop m (drop p xs) ≡ drop (p + m) xs
drop-drop m zero xs = ap (λ k. drop k xs) (omega arith)
drop-drop m (suc p) [] = drop_nil m ∙ sym (drop_nil (suc p + m))
drop-drop m (suc p) (x ∷ xs) =
    let e : suc p + m ≡ suc (p + m) = omega arith in rw e (drop-drop m p xs)

pub empty_nil : (xs : Bytes) → is_empty xs ≡ true → xs ≡ []
unfolding is_empty
empty_nil [] h = refl
empty_nil (x ∷ xs) h = cc

pub filled : (xs : Bytes) → is_empty xs ≡ false → 0 < length xs
unfolding is_empty
filled [] h = cc
filled (x ∷ xs) h = omega arith
