-- ===== src/Shares/Paths/Laws.antt =====
-- A normalised path that does not start with `..` has no component `..` at all.
use aird.Base.{
  ◌≡◌, refl, sym, subst, inl, inr, Bool, true, false, not, ◌&&◌, ◌||◌, Bool-cases, List, [], ◌∷◌,
  ◌++◌, all, arith, if◌then◌else◌,
}
use aird.Base.Text.{
  Text, text_eqb, text_eqb→eq, text_eqb_refl, is_empty, starts_with, contains, split,
}
use aird.Shares.Paths.{
  slash, dot, dots, is_dots, ends_in_dots, popped, push_comp, norm_comps, join_slash, or_dot,
  normpath,
}
use aird.Shares.Paths.Split.{proper, split-bare, split-join_slash}

abbrev plain : Text → Bool
plain comp = not (is_dots comp)

-- Names after some `..`, as `normpath` builds them.
unfoldable settled : List Text → Bool
settled [] = true
settled (c ∷ cs) = if is_dots c then settled cs else all plain cs

all-append :
    (p : Text → Bool) (cs : List Text) (c : Text)
    → all p cs ≡ true
    → p c ≡ true
    → all p (cs ++ c ∷ []) ≡ true
all-append p [] c h e = ground (arith, e)
all-append p (d ∷ ds) c h e = ground (arith, h, e, all-append p ds c)

all-popped : (p : Text → Bool) (cs : List Text) → all p cs ≡ true → all p (popped cs) ≡ true
all-popped p [] h = refl
all-popped p (c ∷ []) h = refl
all-popped p (c ∷ d ∷ ds) h = ground (arith, h, all-popped p (d ∷ ds))

settled-append_name :
    (cs : List Text) (c : Text)
    → is_dots c ≡ false
    → settled cs ≡ true
    → settled (cs ++ c ∷ []) ≡ true
unfolding settled
settled-append_name [] c e h = ground (arith, e)
settled-append_name (d ∷ ds) c e h =
    ground (arith, e, h, settled-append_name ds c, all-append plain ds c)

plain-ends : (cs : List Text) → all plain cs ≡ true → ends_in_dots cs ≡ false
plain-ends [] h = refl
plain-ends (c ∷ []) h = ground (arith, h)
plain-ends (c ∷ d ∷ ds) h = ground (arith, h, plain-ends (d ∷ ds))

settled-append_dots :
    (cs : List Text) (c : Text)
    → is_dots c ≡ true
    → (is_empty cs || ends_in_dots cs) ≡ true
    → settled cs ≡ true
    → settled (cs ++ c ∷ []) ≡ true
unfolding settled is_empty
settled-append_dots [] c e m h = ground (arith, e)
settled-append_dots (d ∷ []) c e m h = ground (arith, e, m, h)
settled-append_dots (d ∷ b ∷ bs) c e m h =
    ground (arith, e, m, h, settled-append_dots (b ∷ bs) c, plain-ends (b ∷ bs))

settled-popped : (cs : List Text) → settled cs ≡ true → settled (popped cs) ≡ true
unfolding settled
settled-popped [] h = refl
settled-popped (c ∷ []) h = refl
settled-popped (c ∷ d ∷ ds) h =
    ground (arith, h, settled-popped (d ∷ ds), all-popped plain (d ∷ ds))

-- What `normpath` keeps while it builds its components.
abbrev kept : List Text → Bool
kept cs = settled cs && all proper cs

-- A component of a path split at its slashes.
push_comp-kept :
    (cs : List Text) (c : Text)
    → contains slash c ≡ false
    → kept cs ≡ true
    → kept (push_comp cs c) ≡ true
unfolding push_comp
push_comp-kept cs c bare h = ground (
  arith,
  bare,
  h,
  settled-append_name cs c,
  settled-append_dots cs c,
  settled-popped cs,
  all-append proper cs c,
  all-popped proper cs,
)

norm_comps-kept :
    (new_comps comps : List Text)
    → all (λ c. not (contains slash c)) comps ≡ true
    → kept new_comps ≡ true
    → kept (norm_comps new_comps comps) ≡ true
unfolding norm_comps
norm_comps-kept new_comps [] bare h = h
norm_comps-kept new_comps (c ∷ cs) bare h =
    norm_comps-kept (push_comp new_comps c) cs (ground (arith, bare))
      (push_comp-kept new_comps c (ground (arith, bare)) h)

-- A path whose first component is `..` starts so.
starts-append : (c s : Text) → is_dots c ≡ true → starts_with dots (c ++ s) ≡ true
unfolding starts_with
starts-append c s e =
    subst (λ t. starts_with dots (t ++ s) ≡ true) (sym (text_eqb→eq c dots e)) refl

first_dots :
    (c : Text) (cs : List Text) → is_dots c ≡ true → starts_with dots (join_slash (c ∷ cs)) ≡ true
unfolding join_slash
first_dots c [] e = subst (λ t. starts_with dots t ≡ true) (sym (text_eqb→eq c dots e)) dots_start
  where
    dots_start : starts_with dots dots ≡ true
    dots_start = starts-append dots [] (text_eqb_refl dots)
first_dots c (d ∷ ds) e = starts-append c (slash ∷ join_slash (d ∷ ds)) e

-- No component is `..` or empty.
unfoldable pub has_safe_comps : Text → Bool
unfolding split
has_safe_comps path = all (λ c. not (is_dots c) && not (is_empty c)) (split slash path)

named :
    (cs : List Text)
    → all plain cs ≡ true
    → all proper cs ≡ true
    → all (λ c. not (is_dots c) && not (is_empty c)) cs ≡ true
named [] h k = refl
named (c ∷ cs) h k = ground (arith, h, k, named cs)

dot_safe : has_safe_comps dot ≡ true
unfolding has_safe_comps text_eqb is_empty
dot_safe = refl

kept-plain :
    (c : Text) (cs : List Text)
    → is_dots c ≡ false
    → kept (c ∷ cs) ≡ true
    → all plain (c ∷ cs) ≡ true
unfolding settled
kept-plain c cs e h = ground (arith, e, h)

joined-has_safe_comps :
    (d : Text) (ds : List Text)
    → all proper (d ∷ ds) ≡ true
    → all plain (d ∷ ds) ≡ true
    → has_safe_comps (join_slash (d ∷ ds)) ≡ true
unfolding has_safe_comps
joined-has_safe_comps d ds k names =
    subst (λ comps. all (λ c. not (is_dots c) && not (is_empty c)) comps ≡ true)
      (sym (split-join_slash d ds k)) (named (d ∷ ds) names k)

nothing_kept : kept [] ≡ true
unfolding settled
nothing_kept = refl

safe_comps :
    (cs : List Text)
    → kept cs ≡ true
    → starts_with dots (or_dot cs) ≡ false
    → has_safe_comps (or_dot cs) ≡ true
safe_comps [] h e = dot_safe
safe_comps (c ∷ cs) h e = elim (Bool-cases (is_dots c)) [
  | inl up ↦ absurd (cc (e, first_dots c cs up))
  | inr name ↦ joined-has_safe_comps c cs (ground (arith, h)) (kept-plain c cs name h)
]

-- A normalised path that does not start with `..` has no component that is `..` or empty.
pub normpath-has_safe_comps :
    (rel : Text) → starts_with dots (normpath rel) ≡ false → has_safe_comps (normpath rel) ≡ true
unfolding normpath
normpath-has_safe_comps rel e =
    safe_comps (norm_comps [] (split slash rel))
      (norm_comps-kept [] (split slash rel) (split-bare rel) nothing_kept) e
