-- ===== src/Shares/Paths/Split.antt =====
-- Splitting a path at its slashes undoes the joining of its components.
use aird.Base.{
  ◌≡◌, refl, ◌∙◌, ap, Bool, true, false, not, ◌&&◌, List, [], ◌∷◌, ◌++◌, all, eqb, arith, if_false,
}
use aird.Base.Text.{Text, is_empty, contains, split, split_head, split_tail}
use aird.Shares.Paths.{slash, join_slash}

abbrev pub proper : Text → Bool
proper comp = not (is_empty comp) && not (contains slash comp)

pub split_head-bare : (s : Text) → contains slash (split_head slash s) ≡ false
unfolding split_head contains
split_head-bare [] = refl
split_head-bare (c ∷ cs) = ground (arith, split_head-bare cs)

pub split_tail-bare : (s : Text) → all (λ c. not (contains slash c)) (split_tail slash s) ≡ true
unfolding split_tail
split_tail-bare [] = refl
split_tail-bare (c ∷ cs) = ground (arith, split_tail-bare cs, split_head-bare cs)

pub split-bare : (s : Text) → all (λ c. not (contains slash c)) (split slash s) ≡ true
unfolding split
split-bare s = ground (arith, split_tail-bare s, split_head-bare s)

-- Splitting what was joined.
pub split_head-append :
    (c s : Text) → contains slash c ≡ false → split_head slash (c ++ slash ∷ s) ≡ c
unfolding split_head contains
split_head-append [] s h = refl
split_head-append (x ∷ xs) s h =
    if_false {b = eqb slash x} _ _ (ground (arith, h))
    ∙ ap (λ t. x ∷ t) (split_head-append xs s (ground (arith, h)))

pub split_tail-append :
    (c s : Text) → contains slash c ≡ false → split_tail slash (c ++ slash ∷ s) ≡ split slash s
unfolding split_tail split contains
split_tail-append [] s h = refl
split_tail-append (x ∷ xs) s h =
    if_false {b = eqb slash x} _ _ (ground (arith, h)) ∙ split_tail-append xs s (ground (arith, h))

pub split_head-single : (c : Text) → contains slash c ≡ false → split_head slash c ≡ c
unfolding split_head contains
split_head-single [] h = refl
split_head-single (x ∷ xs) h =
    if_false {b = eqb slash x} _ _ (ground (arith, h))
    ∙ ap (λ t. x ∷ t) (split_head-single xs (ground (arith, h)))

pub split_tail-single : (c : Text) → contains slash c ≡ false → split_tail slash c ≡ []
unfolding split_tail contains
split_tail-single [] h = refl
split_tail-single (x ∷ xs) h =
    if_false {b = eqb slash x} _ _ (ground (arith, h)) ∙ split_tail-single xs (ground (arith, h))

pub split-single : (c : Text) → contains slash c ≡ false → split slash c ≡ c ∷ []
unfolding split
split-single c h =
    ap (λ t. t ∷ split_tail slash c) (split_head-single c h)
    ∙ ap (λ l. c ∷ l) (split_tail-single c h)

pub split-join_slash :
    (c : Text) (cs : List Text)
    → all proper (c ∷ cs) ≡ true
    → split slash (join_slash (c ∷ cs)) ≡ c ∷ cs
unfolding join_slash split
split-join_slash c [] h = split-single c (ground (arith, h))
split-join_slash c (d ∷ ds) h =
    ap (λ t. t ∷ split_tail slash (c ++ slash ∷ join_slash (d ∷ ds)))
      (split_head-append c _ (ground (arith, h)))
    ∙ ap (λ l. c ∷ l)
        (split_tail-append c _ (ground (arith, h)) ∙ split-join_slash d ds (ground (arith, h)))
