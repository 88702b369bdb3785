-- ===== src/Policy/Decision/Order.antt =====
-- The order of policies: sorting and filtering them keeps what holds of each.
use aird.Base.Int.{ℤ, pos, negsuc, pos_part, neg_part, eqb_ℤ}
use aird.Base.{
  ◌+◌, ◌<◌, ◌≤◌, ◌≡◌, ◌∙◌, ap, ◌⊎◌, inl, inr, ◌↔◌, Bool, true, false, Bool-cases, List, [], ◌∷◌,
  All, All-map, arith, if◌then◌else◌,
}
use aird.Policy.Decision.{Policy, not_after, insert_policy, sort_policies, filter_policies}

-- The order of integers.
abbrev pub Below : ℤ → ℤ → Type 0
Below a b = pos_part a + neg_part b < pos_part b + neg_part a

-- A higher priority, or the same and an identifier that is not larger.
abbrev pub Precedes : Policy → Policy → Type 0
Precedes p q = Below q.priority p.priority ⊎ ((p.priority ≡ q.priority) × (p.id ≤ q.id))

eqb_ℤ→eq : (a b : ℤ) → eqb_ℤ a b ≡ true → a ≡ b
eqb_ℤ→eq (pos a) (pos b) h = ap pos (ground (arith, h))
eqb_ℤ→eq (pos a) (negsuc b) h = absurd (ground (arith, h))
eqb_ℤ→eq (negsuc a) (pos b) h = absurd (ground (arith, h))
eqb_ℤ→eq (negsuc a) (negsuc b) h = ap negsuc (ground (arith, h))

pub not_after-Precedes : (p q : Policy) → not_after p q ≡ true → Precedes p q
not_after-Precedes p q h = elim (Bool-cases (eqb_ℤ p.priority q.priority)) [
  | inl same ↦ inr (eqb_ℤ→eq p.priority q.priority same, ground (arith, same, h))
  | inr differ ↦ inl (ground (arith, differ, h))
]

pub Below-not_after : (p q : Policy) → Below q.priority p.priority → not_after q p ≡ false
Below-not_after p q h = ground (arith, h)

pub not_after_total : (p q : Policy) → not_after p q ≡ false → not_after q p ≡ true
not_after_total p q h = ground arith

pub not_after_trans :
    (p q r : Policy) → not_after p q ≡ true → not_after q r ≡ true → not_after p r ≡ true
not_after_trans p q r h k = ground arith

abbrev pub IsIn : Policy → List Policy → Type 0
IsIn p [] = ⊥
IsIn p (q ∷ qs) = (p ≡ q) ⊎ IsIn p qs

abbrev pub IsSorted : List Policy → Type 0
IsSorted [] = Unit
IsSorted (p ∷ ps) = All (λ q. not_after p q ≡ true) ps × IsSorted ps

module _ (P : Policy → Type 0) where
  All-insert_policy :
      (p : Policy) (qs : List Policy) → All P (insert_policy p qs) ↔ (P p × All P qs)
  unfolding insert_policy
  All-insert_policy p [] = (λ h. h, λ h. h)
  All-insert_policy p (q ∷ qs) = elim (Bool-cases (not_after p q)) [
    | inl first ↦ rw first (λ h. h, λ h. h)
    | inr later ↦ rw later (
      λ h. let (hp, hs) = (All-insert_policy p qs).0 h.1 in (hp, (h.0, hs)),
      λ h. (h.1.0, (All-insert_policy p qs).1 (h.0, h.1.1)),
    )
  ]

  pub All-sort_policies : (ps : List Policy) → All P (sort_policies ps) → All P ps
  unfolding sort_policies
  All-sort_policies [] h = tt
  All-sort_policies (p ∷ ps) h =
      let (hp, hs) = (All-insert_policy p (sort_policies ps)).0 h in (hp, All-sort_policies ps hs)

  pub All-filter_policies :
      (test : Policy → Bool) (ps : List Policy)
      → All P (filter_policies test ps)
      → All (λ q. test q ≡ true → P q) ps
  unfolding filter_policies
  All-filter_policies test [] h = tt
  All-filter_policies test (p ∷ ps) h = go (Bool-cases (test p)) (All-filter_policies test ps) h
    where
      go :
          ((test p ≡ true) ⊎ (test p ≡ false))
          → (All P (filter_policies test ps) → All (λ q. test q ≡ true → P q) ps)
          → All P (if test p then p ∷ filter_policies test ps else filter_policies test ps)
          → (test p ≡ true → P p) × All (λ q. test q ≡ true → P q) ps
      go (inl yes') ih k = let (a, b) = rw yes' at k in (λ _. a, ih b)
      go (inr no') ih k = (λ e. cc (e, no'), ih (rw no' at k))

insert_policy-IsSorted :
    (p : Policy) (qs : List Policy) → IsSorted qs → IsSorted (insert_policy p qs)
unfolding insert_policy
insert_policy-IsSorted p [] h = (tt, tt)
insert_policy-IsSorted p (q ∷ qs) (h, hs) = elim (Bool-cases (not_after p q)) [
  | inl first ↦ rw first ((first, All-map _ _ qs (λ r k. not_after_trans p q r first k) h), (h, hs))
  | inr later ↦ rw later (
    (All-insert_policy (λ r. not_after q r ≡ true) p qs).1 (not_after_total p q later, h),
    insert_policy-IsSorted p qs hs,
  )
]

pub sort_policies-IsSorted : (ps : List Policy) → IsSorted (sort_policies ps)
unfolding sort_policies
sort_policies-IsSorted [] = tt
sort_policies-IsSorted (p ∷ ps) =
    insert_policy-IsSorted p (sort_policies ps) (sort_policies-IsSorted ps)

In-insert_policy :
    (x p : Policy) (qs : List Policy) → IsIn x (insert_policy p qs) → (x ≡ p) ⊎ IsIn x qs
unfolding insert_policy
In-insert_policy x p [] h = h
In-insert_policy x p (q ∷ qs) h = go (Bool-cases (not_after p q)) (In-insert_policy x p qs) h
  where
    go :
        ((not_after p q ≡ true) ⊎ (not_after p q ≡ false))
        → (IsIn x (insert_policy p qs) → (x ≡ p) ⊎ IsIn x qs)
        → IsIn x (if not_after p q then p ∷ q ∷ qs else q ∷ insert_policy p qs)
        → (x ≡ p) ⊎ IsIn x (q ∷ qs)
    go (inl first) ih k = rw first at k
    go (inr later) ih k =
        let k' : (x ≡ q) ⊎ IsIn x (insert_policy p qs) = rw later at k in
        elim k' [
          | inl e ↦ inr (inl e)
          | inr r ↦ elim (ih r) [ inl e ↦ inl e | inr t ↦ inr (inr t) ]
        ]

pub In-sort_policies : (x : Policy) (ps : List Policy) → IsIn x (sort_policies ps) → IsIn x ps
unfolding sort_policies
In-sort_policies x [] h = h
In-sort_policies x (p ∷ ps) h = elim (In-insert_policy x p (sort_policies ps) h) [
  | inl e ↦ inl e
  | inr r ↦ inr (In-sort_policies x ps r)
]

pub In-filter_policies :
    (test : Policy → Bool) (x : Policy) (ps : List Policy)
    → IsIn x (filter_policies test ps)
    → IsIn x ps × (test x ≡ true)
unfolding filter_policies
In-filter_policies test x [] h = absurd h
In-filter_policies test x (p ∷ ps) h = go (Bool-cases (test p)) (In-filter_policies test x ps) h
  where
    go :
        ((test p ≡ true) ⊎ (test p ≡ false))
        → (IsIn x (filter_policies test ps) → IsIn x ps × (test x ≡ true))
        → IsIn x (if test p then p ∷ filter_policies test ps else filter_policies test ps)
        → IsIn x (p ∷ ps) × (test x ≡ true)
    go (inl yes') ih k =
        let k' : (x ≡ p) ⊎ IsIn x (filter_policies test ps) = rw yes' at k in
        elim k' [ inl e ↦ (inl e, ap test e ∙ yes') | inr r ↦ let (a, b) = ih r in (inr a, b) ]
    go (inr no') ih k = let (a, b) = ih (rw no' at k) in (inr a, b)

module _ (P : Policy → Type 0) where
  pub filter_policies-All :
      (test : Policy → Bool) (ps : List Policy)
      → All (λ q. test q ≡ true → P q) ps
      → All P (filter_policies test ps)
  unfolding filter_policies
  filter_policies-All test [] h = tt
  filter_policies-All test (p ∷ ps) (h, hs) = elim (Bool-cases (test p)) [
    | inl in_ ↦ rw in_ (h in_, filter_policies-All test ps hs)
    | inr out ↦ rw out (filter_policies-All test ps hs)
  ]

  pub sort_policies-All : (ps : List Policy) → All P ps → All P (sort_policies ps)
  unfolding sort_policies
  sort_policies-All [] h = tt
  sort_policies-All (p ∷ ps) (h, hs) =
      (All-insert_policy P p (sort_policies ps)).1 (h, sort_policies-All ps hs)
