-- ===== src/Policy/Store.antt =====
-- The table of policies and its writes: aird/db/policies.py on a database that can be read. The
-- column `condition_json` is kept decoded, since `json.loads` gives back what `json.dumps` was
-- given; a missing description is the empty text.
pub mod Laws
mod Examples
use aird.Base.{
  ℕ, suc, Bool, true, false, not, ◌&&◌, ◌||◌, Option, none, some, List, [], ◌∷◌, ◌++◌, any, all,
  eqb, if◌then◌else◌,
}
use aird.Base.Int.{ℤ}
use aird.Base.Text.{Text, text_eqb, codes, is_empty}
use aird.Policy.Value.{Value, obj, end, truthy}
use aird.Policy.Decision.{Policy}

-- The rows in order of insertion, and the last identifier that AUTOINCREMENT gave.
pub record PolicyTable : Type 0 where
  pub rows : List Policy
  pub last_id : ℕ

pub record NewPolicy : Type 0 where
  pub name : Text
  pub effect : Text
  pub target_actions : List Text
  pub condition : Value
  pub description : Text
  pub priority : ℤ
  pub enabled : Bool

unfoldable pub is_effect : Text → Bool
is_effect e = text_eqb e (codes "permit") || text_eqb e (codes "deny")

-- `condition or {}`.
abbrev pub or_empty : Value → Value
or_empty v = if truthy v then v else obj end

abbrev pub made_policy : ℕ → NewPolicy → Policy
made_policy id q = record {
  id = id;
  name = q.name;
  description = q.description;
  effect = q.effect;
  target_actions = q.target_actions;
  condition = or_empty q.condition;
  priority = q.priority;
  enabled = q.enabled;
}

-- The new identifier, or `none`; a name that is there breaks the column's UNIQUE.
unfoldable pub insert_policy : NewPolicy → PolicyTable → Option ℕ × PolicyTable
insert_policy q t =
    if is_empty q.name
    then (none, t)
    else if not (is_effect q.effect)
    then (none, t)
    else if any (λ p. text_eqb p.name q.name) t.rows
    then (none, t)
    else (
      some (suc t.last_id),
      record { rows = t.rows ++ made_policy (suc t.last_id) q ∷ []; last_id = suc t.last_id },
    )

-- One keyword argument of `update_policy`.
pub data Change : Type 0 where
  set_name set_description set_effect : Text → Change
  set_actions : List Text → Change
  set_condition : Value → Change
  set_priority : ℤ → Change
  set_enabled : Bool → Change
  other_field : Change

unfoldable pub apply_change : Change → Policy → Policy
apply_change (set_name v) p = record p { name = v }
apply_change (set_description v) p = record p { description = v }
apply_change (set_effect v) p = record p { effect = v }
apply_change (set_actions v) p = record p { target_actions = v }
apply_change (set_condition v) p = record p { condition = or_empty v }
apply_change (set_priority v) p = record p { priority = v }
apply_change (set_enabled v) p = record p { enabled = v }
apply_change other_field p = p

unfoldable pub apply_changes : List Change → Policy → Policy
unfolding apply_change
apply_changes [] p = p
apply_changes (c ∷ cs) p = apply_changes cs (apply_change c p)

-- `_policy_field_to_sql` refuses an effect of another name; a field of another name is passed over.
unfoldable pub is_accepted : Change → Bool
is_accepted (set_effect v) = is_effect v
is_accepted _ = true

abbrev pub is_update : Change → Bool
is_update other_field = false
is_update _ = true

unfoldable pub find_policy : ℕ → List Policy → Option Policy
find_policy id [] = none
find_policy id (p ∷ ps) = if eqb p.id id then some p else find_policy id ps

unfoldable pub replace_policy : ℕ → Policy → List Policy → List Policy
replace_policy id new [] = []
replace_policy id new (p ∷ ps) =
    let rest = replace_policy id new ps in if eqb p.id id then new ∷ rest else p ∷ rest

abbrev pub clashes : ℕ → Policy → List Policy → Bool
clashes id new rows = any (λ r. not (eqb r.id id) && text_eqb r.name new.name) rows

unfoldable pub write_policy : ℕ → List Change → Option Policy → PolicyTable → Bool × PolicyTable
write_policy id changes none t = (false, t)
write_policy id changes (some p) t =
    let new = apply_changes changes p in
    if clashes id new t.rows
    then (false, t)
    else (true, record t { rows = replace_policy id new t.rows })

unfoldable pub update_policy : ℕ → List Change → PolicyTable → Bool × PolicyTable
update_policy id changes t =
    if not (all is_accepted changes)
    then (false, t)
    else if not (any is_update changes)
    then (false, t)
    else write_policy id changes (find_policy id t.rows) t

unfoldable pub drop_policy : ℕ → List Policy → List Policy
drop_policy id [] = []
drop_policy id (p ∷ ps) = let rest = drop_policy id ps in if eqb p.id id then rest else p ∷ rest

unfoldable pub delete_policy : ℕ → PolicyTable → Bool × PolicyTable
delete_policy id t = (any (λ p. eqb p.id id) t.rows, record t { rows = drop_policy id t.rows })

unfoldable pub get_policy : ℕ → PolicyTable → Option Policy
get_policy id t = find_policy id t.rows

unfoldable pub find_named : Text → List Policy → Option Policy
find_named name [] = none
find_named name (p ∷ ps) = if text_eqb p.name name then some p else find_named name ps

unfoldable pub get_policy_by_name : Text → PolicyTable → Option Policy
get_policy_by_name name t = if is_empty name then none else find_named name t.rows
