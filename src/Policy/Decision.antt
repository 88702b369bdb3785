-- ===== src/Policy/Decision.antt =====
-- The decision over the stored policies: `PolicyService.evaluate`, its cache, and the reading of
-- the table by `list_policies`.
pub mod Order
pub mod First
pub mod Priority
use aird.Base.{
  ℕ, ◌+◌, ◌-◌, Bool, true, false, ◌&&◌, ◌||◌, Option, none, some, List, [], ◌∷◌, any, leb, ltb,
  if◌then◌else◌,
}
use aird.Base.Int.{ℤ, leb_ℤ, eqb_ℤ}
use aird.Base.Text.{Text, text_eqb, codes, is_empty}
use aird.Policy.Value.{Value, obj, end, truthy}
use aird.Policy.Condition.{Library, Outcome, yields, malformed, crashed, evaluate_condition}

-- A row of the table, decoded by `_row_to_policy`.
pub record Policy : Type 0 where
  pub id : ℕ
  pub name : Text
  pub description : Text
  pub effect : Text
  pub target_actions : List Text
  pub condition : Value
  pub priority : ℤ
  pub enabled : Bool

-- The key `(-priority, id)` of the sort, compared.
abbrev pub not_after : Policy → Policy → Bool
not_after p q = if eqb_ℤ p.priority q.priority then leb p.id q.id else leb_ℤ q.priority p.priority

pub insert_policy : Policy → List Policy → List Policy
insert_policy p [] = p ∷ []
insert_policy p (q ∷ qs) = if not_after p q then p ∷ q ∷ qs else q ∷ insert_policy p qs

unfoldable pub sort_policies : List Policy → List Policy
unfolding insert_policy
sort_policies [] = []
sort_policies (p ∷ ps) = insert_policy p (sort_policies ps)

unfoldable pub filter_policies : (Policy → Bool) → List Policy → List Policy
filter_policies test [] = []
filter_policies test (p ∷ ps) =
    let rest = filter_policies test ps in if test p then p ∷ rest else rest

-- `_matches_action`.
unfoldable pub matches_action : Text → Policy → Bool
matches_action action p =
    any (λ t. text_eqb t (codes "*")) p.target_actions
    || any (λ t. text_eqb t action) p.target_actions

-- `list_policies(conn, enabled_only=True)` on a table that can be read.
unfoldable pub list_enabled : List Policy → List Policy
unfolding sort_policies filter_policies
list_enabled table = sort_policies (filter_policies (λ p. p.enabled) table)

pub data Effect : Type 0 where
  permit deny : Effect

-- The text of `reason`: the policy's description, or one that names the policy.
pub data Reason : Type 0 where
  described : Text → Reason
  denied_by : Text → Reason
  permitted_by : Text → Reason
  no_match : Reason

pub record Decision : Type 0 where
  pub effect : Effect
  pub reason : Reason
  pub matched : Option Policy

unfoldable pub described_or : Reason → Policy → Reason
described_or reason p = if is_empty p.description then reason else described p.description

-- `policy.get("condition") or {}`.
unfoldable pub condition_of : Policy → Value
condition_of p = if truthy p.condition then p.condition else obj end

abbrev pub default_deny : Decision
default_deny = record { effect = deny; reason = no_match; matched = none }

-- What an enabled policy whose condition holds decides; `none` is neither effect, and goes on.
unfoldable pub verdict : Policy → Option Decision
unfolding described_or
verdict p =
    if text_eqb p.effect (codes "deny")
    then some
        (record { effect = deny; reason = described_or (denied_by p.name) p; matched = some p })
    else if text_eqb p.effect (codes "permit")
    then some (record {
      effect = permit;
      reason = described_or (permitted_by p.name) p;
      matched = some p;
    })
    else none

module _ (lib : Library) where
  -- One round of the loop of `evaluate`, given what the rest decides. A malformed condition is
  -- skipped; any other exception leaves `evaluate`, for which `none` stands.
  pub on_outcome : Outcome → Policy → Option Decision → Option Decision
  unfolding verdict
  on_outcome (yields false) p rest = rest
  on_outcome (yields true) p rest = elim (verdict p) [ none ↦ rest | some d ↦ some d ]
  on_outcome malformed p rest = rest
  on_outcome crashed p rest = none

  unfoldable pub decide_from : List Policy → Value → Option Decision
  unfolding on_outcome condition_of
  decide_from [] attrs = some default_deny
  decide_from (p ∷ ps) attrs =
      let rest = decide_from ps attrs in
      if p.enabled then on_outcome (evaluate_condition lib (condition_of p) attrs) p rest else rest

  -- `evaluate`, from the loaded policies on. Logging and events do not change the decision.
  unfoldable pub decide : List Policy → Text → Value → Option Decision
  unfolding decide_from
  decide policies action attrs =
      decide_from (sort_policies (filter_policies (matches_action action) policies)) attrs

-- The cache of `_load_policies`, with the moment it was loaded at; times are in ticks.
pub record Cache : Type 0 where
  pub policies : Option (List Policy)
  pub loaded_at : ℕ

abbrev pub invalidated : Cache
invalidated = record { policies = none; loaded_at = 0 }

refill : ℕ → List Policy → List Policy × Cache
refill now table =
    let loaded = list_enabled table in (loaded, record { policies = some loaded; loaded_at = now })

load_cached : ℕ → ℕ → List Policy → ℕ → Option (List Policy) → List Policy × Cache
unfolding refill
load_cached ttl now table at none = refill now table
load_cached ttl now table at (some ps) =
    if ltb (now - at) ttl
    then (ps, record { policies = some ps; loaded_at = at })
    else refill now table

unfoldable pub load_policies : ℕ → ℕ → List Policy → Cache → List Policy × Cache
unfolding load_cached
load_policies ttl now table c = load_cached ttl now table c.loaded_at c.policies
