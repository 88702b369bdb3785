-- ===== src/Policy/Decision/First.antt =====
-- The first policy that decides.
use aird.Base.{
  ◌≡◌, ◌≢◌, refl, sym, ◌∙◌, ◌⊎◌, inl, inr, true, false, Bool-cases, Option, none, some, List, [],
  ◌∷◌, All, All-map, arith, if_true, if_false,
}
use aird.Base.Text.{Text}
use aird.Policy.Value.{Value}
use aird.Policy.Condition.{Library, Outcome, yields, malformed, crashed, evaluate_condition}
use aird.Policy.Decision.{
  Policy, Decision, not_after, sort_policies, filter_policies, matches_action, condition_of,
  verdict, default_deny, on_outcome, decide_from, decide,
}
use aird.Policy.Decision.Order.{
  Precedes, not_after-Precedes, IsIn, IsSorted, All-sort_policies, All-filter_policies,
  sort_policies-IsSorted, In-sort_policies, In-filter_policies, sort_policies-All,
  filter_policies-All,
}

module _ (lib : Library) (attrs : Value) where
  -- An enabled policy whose condition holds.
  abbrev pub Fires : Policy → Type 0
  Fires p = (p.enabled ≡ true) × (evaluate_condition lib (condition_of p) attrs ≡ yields true)

  -- One that also has an effect.
  abbrev pub Speaks : Policy → Type 0
  Speaks p = Fires p × (verdict p ≢ none)

  -- `p` decides `d`, and no policy of the list that would decide comes strictly before it.
  pub record IsFirst (p : Policy) (d : Decision) (ps : List Policy) : Type 0 where
    pub listed : IsIn p ps
    pub fires : Fires p
    pub decides : verdict p ≡ some d
    pub first : All (λ q. Speaks q → Precedes p q) ps

  abbrev Decided : Decision → List Policy → Type 0
  Decided d ps = ((p : Policy) × IsFirst p d ps) ⊎ ((d ≡ default_deny) × All (λ q. ¬ Speaks q) ps)

  not_after_refl : (p : Policy) → not_after p p ≡ true
  not_after_refl p = ground arith

  -- A policy that does not speak leaves the decision to the rest.
  silent :
      (p : Policy) (ps : List Policy) (d : Decision)
      → ¬ Speaks p
      → Decided d ps
      → Decided d (p ∷ ps)
  silent p ps d n (inl (q, h)) = inl (
    q,
    record {
      listed = inr h.listed;
      fires = h.fires;
      decides = h.decides;
      first = (λ s. absurd (n s), h.first);
    },
  )
  silent p ps d n (inr (e, h)) = inr (e, (n, h))

  fired :
      (p : Policy) (ps : List Policy) (d : Decision) (o : Option Decision) (rest : Option Decision)
      → All (λ q. not_after p q ≡ true) ps
      → Fires p
      → verdict p ≡ o
      → (rest ≡ some d → Decided d ps)
      → elim o [ none ↦ rest | some x ↦ some x ] ≡ some d
      → Decided d (p ∷ ps)
  fired p ps d none rest sorted f e ih h = silent p ps d (λ s. s.1 e) (ih h)
  fired p ps d (some x) rest sorted f e ih h = inl (
    p,
    record {
      listed = inl refl;
      fires = f;
      decides = e ∙ h;
      first = (
        λ _. not_after-Precedes p p (not_after_refl p),
        All-map _ _ ps (λ q k _. not_after-Precedes p q k) sorted,
      );
    },
  )

  outcome-Decided :
      (p : Policy) (ps : List Policy) (d : Decision) (r : Outcome)
      → All (λ q. not_after p q ≡ true) ps
      → p.enabled ≡ true
      → evaluate_condition lib (condition_of p) attrs ≡ r
      → (decide_from lib ps attrs ≡ some d → Decided d ps)
      → on_outcome lib r p (decide_from lib ps attrs) ≡ some d
      → Decided d (p ∷ ps)
  unfolding on_outcome
  outcome-Decided p ps d (yields true) sorted on e ih h =
      fired p ps d (verdict p) (decide_from lib ps attrs) sorted (on, e) refl ih h
  outcome-Decided p ps d (yields false) sorted on e ih h = silent p ps d (λ s. cc (e, s.0.1)) (ih h)
  outcome-Decided p ps d malformed sorted on e ih h = silent p ps d (λ s. cc (e, s.0.1)) (ih h)
  outcome-Decided p ps d crashed sorted on e ih h = cc

  decide_from-Decided :
      (ps : List Policy) (d : Decision)
      → IsSorted ps
      → decide_from lib ps attrs ≡ some d
      → Decided d ps
  unfolding decide_from
  decide_from-Decided [] d h e = inr (ground arith, tt)
  decide_from-Decided (p ∷ ps) d (h, hs) e = elim (Bool-cases p.enabled) [
    | inl on ↦
        outcome-Decided p ps d (evaluate_condition lib (condition_of p) attrs) h on refl
          (decide_from-Decided ps d hs) (sym (if_true _ _ on) ∙ e)
    | inr off ↦
        silent p ps d (λ s. cc (off, s.0.0))
          (decide_from-Decided ps d hs (sym (if_false _ _ off) ∙ e))
  ]

  Decided-of :
      (ps : List Policy) (action : Text) (d : Decision)
      → Decided d (sort_policies (filter_policies (matches_action action) ps))
      → ((p : Policy) × (IsIn p ps × (matches_action action p ≡ true))
          × Fires p
          × (verdict p ≡ some d)
          × All (λ q. matches_action action q ≡ true → Speaks q → Precedes p q) ps)
        ⊎ ((d ≡ default_deny) × All (λ q. matches_action action q ≡ true → ¬ Speaks q) ps)
  Decided-of ps action d (inl (p, h)) = inl (
    p,
    In-filter_policies (matches_action action) p ps (In-sort_policies p _ h.listed),
    h.fires,
    h.decides,
    All-filter_policies _ (matches_action action) ps (All-sort_policies _ _ h.first),
  )
  Decided-of ps action d (inr (e, h)) =
      inr (e, All-filter_policies _ (matches_action action) ps (All-sort_policies _ _ h))

abbrev pub IsExplained : Library → List Policy → Text → Value → Decision → Type 0
IsExplained lib ps action attrs d =
    ((p : Policy) × (IsIn p ps × (matches_action action p ≡ true))
      × Fires lib attrs p
      × (verdict p ≡ some d)
      × All (λ q. matches_action action q ≡ true → Speaks lib attrs q → Precedes p q) ps)
    ⊎ ((d ≡ default_deny) × All (λ q. matches_action action q ≡ true → ¬ Speaks lib attrs q) ps)

-- A decision is that of a stored policy that covers the action, is enabled, whose condition holds
-- and that has an effect, such that no other policy of that kind has a higher priority, or the same
-- priority and a smaller identifier; or it is the default deny, and there is no such policy.
pub decide_first :
    (lib : Library) (ps : List Policy) (action : Text) (attrs : Value) (d : Decision)
    → decide lib ps action attrs ≡ some d
    → IsExplained lib ps action attrs d
unfolding decide
decide_first lib ps action attrs d h =
    Decided-of lib attrs ps action d
      (decide_from-Decided lib attrs _ d (sort_policies-IsSorted _) h)

-- Reaching a decision.
module _ (lib : Library) (attrs : Value) where
  abbrev pub Crashes : Policy → Type 0
  Crashes p = (p.enabled ≡ true) × (evaluate_condition lib (condition_of p) attrs ≡ crashed)

  outcome_reached :
      (p : Policy) (r : Outcome) (rest : Option Decision)
      → r ≢ crashed
      → rest ≢ none
      → on_outcome lib r p rest ≢ none
  unfolding on_outcome
  outcome_reached p (yields true) rest n m = ground (arith, m)
  outcome_reached p (yields false) rest n m = m
  outcome_reached p malformed rest n m = m
  outcome_reached p crashed rest n m = absurd (n refl)

  decide_from_reached :
      (ps : List Policy) → All (λ p. ¬ Crashes p) ps → decide_from lib ps attrs ≢ none
  unfolding decide_from
  decide_from_reached [] h e = cc
  decide_from_reached (p ∷ ps) (n, h) e = elim (Bool-cases p.enabled) [
    | inl on ↦
        outcome_reached p (evaluate_condition lib (condition_of p) attrs) (decide_from lib ps attrs)
          (λ c. n (on, c)) (decide_from_reached ps h) (sym (if_true _ _ on) ∙ e)
    | inr off ↦ decide_from_reached ps h (sym (if_false _ _ off) ∙ e)
  ]

-- `evaluate` returns a decision if no condition of an enabled policy for the action raises an
-- exception other than PolicyEvaluationError.
pub decide_reached :
    (lib : Library) (ps : List Policy) (action : Text) (attrs : Value)
    → All (λ p. matches_action action p ≡ true → ¬ Crashes lib attrs p) ps
    → decide lib ps action attrs ≢ none
unfolding decide
decide_reached lib ps action attrs h =
    decide_from_reached lib attrs _
      (sort_policies-All _ _ (filter_policies-All _ (matches_action action) ps h))
