-- ===== src/Policy/Examples.antt =====
-- Tests of the policy engine, and the theorems at concrete inputs.
use aird.Base.{arith, ℕ, ◌≡◌, ◌≢◌, refl, true, false, Option, none, some, [], ◌∷◌}
use aird.Base.Int.{pos}
use aird.Base.Text.{Text, codes, text_eqb, is_empty}
use aird.Policy.Value.{Value, null, str, arr, obj, nil, cons, end, field, truthy}
use aird.Policy.Condition.{Library, yields, malformed, evaluate_condition, dispatch}
use aird.Policy.Condition.Laws.{
  and_node, or_node, not_node, first_not, outcomes, opposite, evaluate-operators,
}
use aird.Policy.Decision.{
  Policy, Decision, permit, permitted_by, sort_policies, filter_policies, matches_action,
  condition_of, decide,
}
use aird.Policy.Decision.First.{Fires, Crashes, IsExplained, decide_first, decide_reached}
use aird.Policy.Decision.Priority.{effect_of, permit_before_deny}

-- Two digits, no ISO times, no addresses.
abbrev two_digits : Text → Option ℕ
two_digits _ = some 12

abbrev library : Library
library = record { int_of_text = two_digits; iso_time = λ t. none; in_network = λ a b. none }

abbrev attrs : Value
attrs = obj (
    field (codes "subject") (obj (field (codes "role") (str (codes "admin")) end)) (
      field (codes "resource") (obj (field (codes "tags") (arr (cons (str (codes "pii")) nil)) end))
        end))

abbrev is_admin : Value
is_admin = obj (
    field (codes "Equals")
      (obj (
        field (codes "left") (obj (field (codes "attr") (str (codes "subject.role")) end))
          (field (codes "right") (str (codes "admin")) end)))
      end)

abbrev is_pii : Value
is_pii = obj (field (codes "tag_present") (str (codes "pii")) end)

both_hold :
    evaluate_condition library (and_node (cons is_admin (cons is_pii nil))) attrs ≡ yields true
unfolding evaluate_condition dispatch
both_hold = refl

unknown_operator : evaluate_condition library (obj (field (codes "xor") null end)) attrs ≡ malformed
unfolding evaluate_condition dispatch
unknown_operator = refl

abbrev policy : ℕ → Text → ℕ → Value → Policy
policy id effect priority condition = record {
  id = id;
  name = codes "p";
  description = [];
  effect = effect;
  target_actions = codes "*" ∷ [];
  condition = condition;
  priority = pos priority;
  enabled = true;
}

abbrev admins : Policy
admins = policy 1 (codes "permit") 10 is_admin

abbrev no_pii : Policy
no_pii = policy 2 (codes "deny") 5 is_pii

abbrev read : Text
read = codes "file.read"

abbrev by_admins : Decision
by_admins = record { effect = permit; reason = permitted_by (codes "p"); matched = some admins }

admitted : decide library (no_pii ∷ admins ∷ []) read attrs ≡ some by_admins
unfolding decide evaluate_condition dispatch truthy matches_action condition_of text_eqb
    sort_policies filter_policies is_empty
admitted = refl

admins-Fires : Fires library attrs admins
unfolding evaluate_condition dispatch condition_of truthy
admins-Fires = (refl, refl)

admins_cover : matches_action read admins ≡ true
unfolding matches_action text_eqb
admins_cover = refl

permit_before_deny_example :
    effect_of (decide library (no_pii ∷ admins ∷ []) read attrs) ≡ some permit
permit_before_deny_example =
    permit_before_deny library read attrs admins no_pii admins_cover admins-Fires refl (omega arith)

decide_first_example : IsExplained library (no_pii ∷ admins ∷ []) read attrs by_admins
decide_first_example = decide_first library (no_pii ∷ admins ∷ []) read attrs by_admins admitted

admins_run : matches_action read admins ≡ true → ¬ Crashes library attrs admins
unfolding evaluate_condition dispatch condition_of truthy
admins_run _ (_, e) = cc

decide_reached_example : decide library (admins ∷ []) read attrs ≢ none
decide_reached_example = decide_reached library (admins ∷ []) read attrs (admins_run, tt)

evaluate-operators_example :
    (evaluate_condition library (and_node (cons is_admin (cons is_pii nil))) attrs
      ≡ first_not true (outcomes library attrs (cons is_admin (cons is_pii nil))))
    × (evaluate_condition library (or_node (cons is_admin (cons is_pii nil))) attrs
        ≡ first_not false (outcomes library attrs (cons is_admin (cons is_pii nil))))
    × (evaluate_condition library (arr (cons is_admin (cons is_pii nil))) attrs
        ≡ first_not true (outcomes library attrs (cons is_admin (cons is_pii nil))))
    × (evaluate_condition library (not_node is_admin) attrs
        ≡ opposite (evaluate_condition library is_admin attrs))
evaluate-operators_example =
    evaluate-operators library attrs is_admin (cons is_admin (cons is_pii nil))
