-- ===== src/Policy/Decision/Priority.antt =====
-- Where priorities lead.
use aird.Base.{
  ◌≡◌, ◌∙◌, ap, true, false, Option, none, some, List, [], ◌∷◌, Bool-cases, inl, inr, if_true,
  if_false,
}
use aird.Base.Text.{Text, text_eqb, codes}
use aird.Policy.Value.{Value}
use aird.Policy.Condition.{Library}
use aird.Policy.Decision.{
  Policy, Decision, Effect, permit, not_after, insert_policy, sort_policies, filter_policies,
  matches_action, verdict, on_outcome, decide_from, decide,
}
use aird.Policy.Decision.Order.{Below, Below-not_after}
use aird.Policy.Decision.First.{Fires}

abbrev pub effect_of : Option Decision → Option Effect
effect_of none = none
effect_of (some d) = some d.effect

module _ (lib : Library) (action : Text) (attrs : Value) where
  permits : (p : Policy) → p.effect ≡ codes "permit" → effect_of (verdict p) ≡ some permit
  unfolding verdict text_eqb
  permits p e = ap effect_of (
      if_false _ _ (ap (λ t. text_eqb t (codes "deny")) e)
      ∙ if_true _ _ (ap (λ t. text_eqb t (codes "permit")) e))

  spoken :
      (o rest : Option Decision)
      → effect_of o ≡ some permit
      → effect_of (elim o [ none ↦ rest | some d ↦ some d ]) ≡ some permit
  spoken none rest h = cc
  spoken (some d) rest h = h

  head_decides :
      (p : Policy) (rest : List Policy)
      → Fires lib attrs p
      → p.effect ≡ codes "permit"
      → effect_of (decide_from lib (p ∷ rest) attrs) ≡ some permit
  unfolding decide_from on_outcome
  head_decides p rest (on, holds) e =
      ap effect_of
        (if_true _ _ on ∙ ap (λ r. on_outcome lib r p (decide_from lib rest attrs)) holds)
      ∙ spoken (verdict p) (decide_from lib rest attrs) (permits p e)

  pair_sorted :
      (p q : Policy)
      → matches_action action p ≡ true
      → not_after q p ≡ false
      → (rest : List Policy) × (sort_policies (filter_policies (matches_action action) (q ∷ p ∷ []))
          ≡ p ∷ rest)
  unfolding sort_policies insert_policy filter_policies
  pair_sorted p q mp before = elim (Bool-cases (matches_action action q)) [
    | inl mq ↦ (q ∷ [], rw (mq, mp) (if_false _ _ before))
    | inr nq ↦ ([], rw (nq, mp))
  ]

  -- Of two policies, a permit that covers the action, is enabled and holds, and that has the higher
  -- priority, is granted, also if the other one is a deny that holds.
  pub permit_before_deny :
      (p q : Policy)
      → matches_action action p ≡ true
      → Fires lib attrs p
      → p.effect ≡ codes "permit"
      → Below q.priority p.priority
      → effect_of (decide lib (q ∷ p ∷ []) action attrs) ≡ some permit
  unfolding decide
  permit_before_deny p q mp f e before =
      let (rest, sorted) = pair_sorted p q mp (Below-not_after p q before) in
      ap (λ l. effect_of (decide_from lib l attrs)) sorted ∙ head_decides p rest f e
