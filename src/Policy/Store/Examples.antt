-- ===== src/Policy/Store/Examples.antt =====
-- Tests of the writes, and their theorems at a concrete table.
use aird.Base.{ℕ, ◌≡◌, ◌≢◌, refl, true, false, some, none, [], ◌∷◌, All}
use aird.Base.Int.{pos}
use aird.Base.Text.{codes, text_eqb, is_empty}
use aird.Policy.Value.{bool}
use aird.Policy.Decision.{Policy, verdict}
use aird.Policy.Store.{
  PolicyTable, NewPolicy, is_effect, made_policy, insert_policy, set_name, set_effect,
  update_policy, is_accepted, get_policy,
}
use aird.Policy.Store.Laws.{
  here, next, inserts, updates, empty_table, stored_policies_decide, get_policy-insert_policy,
  SaysAll,
}

abbrev readers : NewPolicy
readers = record {
  name = codes "readers";
  effect = codes "permit";
  target_actions = codes "file.read" ∷ [];
  condition = bool false;
  description = [];
  priority = pos 3;
  enabled = true;
}

abbrev one_policy : PolicyTable
one_policy = record { rows = made_policy 1 readers ∷ []; last_id = 1 }

insert_test : insert_policy readers empty_table ≡ (some 1, one_policy)
unfolding insert_policy is_effect text_eqb is_empty
insert_test = refl

twice_test : (insert_policy readers one_policy).0 ≡ none
unfolding insert_policy is_effect text_eqb is_empty
twice_test = refl

bad_effect_test : (update_policy 1 (set_effect (codes "maybe") ∷ []) one_policy).0 ≡ false
unfolding update_policy is_accepted is_effect text_eqb
bad_effect_test = refl

-- The policy is stored and then renamed.
abbrev two_writes : PolicyTable
two_writes = (update_policy 1 (set_name (codes "all") ∷ []) (insert_policy readers empty_table).1).1

stored_policies_decide_example : All (λ p. verdict p ≢ none) two_writes.rows
stored_policies_decide_example =
    stored_policies_decide two_writes
      (next (next here (inserts readers)) (updates 1 (set_name (codes "all") ∷ [])))

get_policy-insert_policy_example :
    ((p : Policy) × (get_policy 1 one_policy ≡ some p) × SaysAll readers 1 p)
    × ((j : ℕ) → j ≢ 1 → get_policy j one_policy ≡ get_policy j empty_table)
get_policy-insert_policy_example =
    get_policy-insert_policy readers empty_table one_policy 1 here insert_test
