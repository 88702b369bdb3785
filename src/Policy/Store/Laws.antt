-- ===== src/Policy/Store/Laws.antt =====
-- What the writes keep: effects that decide, identifiers that are not used twice.
use mathlib.Core.Option.{some-injective}
use aird.Base.{
  ℕ, suc, ◌≤◌, ◌≡◌, ◌≢◌, refl, sym, ◌∙◌, ◌⊎◌, subst, inl, inr, true, false, Bool-cases, Option,
  none, some, List, [], ◌∷◌, ◌++◌, All, All-append, All-map, any, all, eqb, arith, if_true,
  if_false,
}
use aird.Base.Text.{text_eqb, is_empty}
use aird.Policy.Value.{truthy, obj, end}
use aird.Policy.Decision.{Policy, verdict}
use aird.Policy.Store.{
  PolicyTable, NewPolicy, is_effect, made_policy, insert_policy, Change, set_name, set_description,
  set_effect, set_actions, set_condition, set_priority, set_enabled, other_field, apply_change,
  apply_changes, is_accepted, is_update, clashes, find_policy, replace_policy, write_policy,
  update_policy, drop_policy, delete_policy, get_policy,
}

-- A row that the writes let in.
abbrev RowOk : ℕ → Policy → Type 0
RowOk last p = (is_effect p.effect ≡ true) × (p.id ≤ last)

pub record IsStore (t : PolicyTable) : Type 0 where
  pub rows : All (RowOk t.last_id) t.rows

change-RowOk :
    (n : ℕ) (c : Change) (p : Policy)
    → is_accepted c ≡ true
    → RowOk n p
    → RowOk n (apply_change c p)
unfolding is_accepted apply_change
change-RowOk n (set_name v) p a h = h
change-RowOk n (set_description v) p a h = h
change-RowOk n (set_effect v) p a h = (a, h.1)
change-RowOk n (set_actions v) p a h = h
change-RowOk n (set_condition v) p a h = h
change-RowOk n (set_priority v) p a h = h
change-RowOk n (set_enabled v) p a h = h
change-RowOk n other_field p a h = h

changes-RowOk :
    (n : ℕ) (cs : List Change) (p : Policy)
    → all is_accepted cs ≡ true
    → RowOk n p
    → RowOk n (apply_changes cs p)
unfolding apply_changes
changes-RowOk n [] p a h = h
changes-RowOk n (c ∷ cs) p a h =
    changes-RowOk n cs (apply_change c p) (ground (arith, a))
      (change-RowOk n c p (ground (arith, a)) h)

find_policy-RowOk :
    (n id : ℕ) (ps : List Policy) (p : Policy)
    → All (RowOk n) ps
    → find_policy id ps ≡ some p
    → RowOk n p
unfolding find_policy
find_policy-RowOk n id [] p h e = cc
find_policy-RowOk n id (x ∷ xs) p (h, hs) e = elim (Bool-cases (eqb x.id id)) [
  | inl same ↦ subst (RowOk n) (some-injective _ _ (sym (if_true _ _ same) ∙ e)) h
  | inr differ ↦ find_policy-RowOk n id xs p hs (sym (if_false _ _ differ) ∙ e)
]

replace_policy-RowOk :
    (n id : ℕ) (new : Policy) (ps : List Policy)
    → RowOk n new
    → All (RowOk n) ps
    → All (RowOk n) (replace_policy id new ps)
unfolding replace_policy
replace_policy-RowOk n id new [] k h = tt
replace_policy-RowOk n id new (x ∷ xs) k (h, hs) = elim (Bool-cases (eqb x.id id)) [
  | inl same ↦ rw same (k, replace_policy-RowOk n id new xs k hs)
  | inr differ ↦ rw differ (h, replace_policy-RowOk n id new xs k hs)
]

drop_policy-RowOk :
    (n id : ℕ) (ps : List Policy) → All (RowOk n) ps → All (RowOk n) (drop_policy id ps)
unfolding drop_policy
drop_policy-RowOk n id [] h = tt
drop_policy-RowOk n id (x ∷ xs) (h, hs) = elim (Bool-cases (eqb x.id id)) [
  | inl same ↦ rw same (drop_policy-RowOk n id xs hs)
  | inr differ ↦ rw differ (h, drop_policy-RowOk n id xs hs)
]

insert_policy-IsStore :
    (q : NewPolicy) (t : PolicyTable) → IsStore t → IsStore (insert_policy q t).1
unfolding insert_policy
insert_policy-IsStore q t k = elim (Bool-cases (is_empty q.name)) [
  | inl unnamed ↦ rw unnamed k
  | inr named ↦ rw named (elim (Bool-cases (is_effect q.effect)) [
    | inr bad ↦ rw bad k
    | inl good ↦ rw good (elim (Bool-cases (any (λ p. text_eqb p.name q.name) t.rows)) [
      | inl taken ↦ rw taken k
      | inr free ↦ rw free (record {
        rows =
            All-append (RowOk (suc t.last_id)) t.rows _
              (All-map (RowOk t.last_id) (RowOk (suc t.last_id)) t.rows
                (λ p h. (h.0, omega (arith, h.1))) k.rows)
              ((good, omega arith), tt);
      })
    ])
  ])
]

write_policy-IsStore :
    (id : ℕ) (cs : List Change) (o : Option Policy) (t : PolicyTable)
    → all is_accepted cs ≡ true
    → find_policy id t.rows ≡ o
    → IsStore t
    → IsStore (write_policy id cs o t).1
unfolding write_policy
write_policy-IsStore id cs none t a e k = k
write_policy-IsStore id cs (some p) t a e k =
    elim (Bool-cases (clashes id (apply_changes cs p) t.rows)) [
      | inl clash ↦ rw clash k
      | inr free ↦ rw free (record {
        rows =
            replace_policy-RowOk t.last_id id (apply_changes cs p) t.rows
              (changes-RowOk t.last_id cs p a (find_policy-RowOk t.last_id id t.rows p k.rows e))
              k.rows;
      })
    ]

update_policy-IsStore :
    (id : ℕ) (cs : List Change) (t : PolicyTable) → IsStore t → IsStore (update_policy id cs t).1
unfolding update_policy
update_policy-IsStore id cs t k = elim (Bool-cases (all is_accepted cs)) [
  | inr bad ↦ rw bad k
  | inl good ↦ rw good (elim (Bool-cases (any is_update cs)) [
    | inr nothing ↦ rw nothing k
    | inl some_field ↦
        rw some_field (write_policy-IsStore id cs (find_policy id t.rows) t good refl k)
  ])
]

-- The table over time.
pub data Write (t : PolicyTable) : PolicyTable → Type 0 where
  inserts : (q : NewPolicy) → Write t (insert_policy q t).1
  updates : (id : ℕ) (cs : List Change) → Write t (update_policy id cs t).1
  deletes : (id : ℕ) → Write t (delete_policy id t).1

pub data Writes : PolicyTable → PolicyTable → Type 0 where
  here : {t : PolicyTable} → Writes t t
  next : {t u v : PolicyTable} → Writes t u → Write u v → Writes t v

abbrev pub empty_table : PolicyTable
empty_table = record { rows = []; last_id = 0 }

Write-IsStore : {t u : PolicyTable} → Write t u → IsStore t → IsStore u
unfolding delete_policy
Write-IsStore {t} (inserts q) k = insert_policy-IsStore q t k
Write-IsStore {t} (updates id cs) k = update_policy-IsStore id cs t k
Write-IsStore {t} (deletes id) k = record { rows = drop_policy-RowOk t.last_id id t.rows k.rows }

pub Writes-IsStore : {t : PolicyTable} → Writes empty_table t → IsStore t
Writes-IsStore here = record { rows = tt }
Writes-IsStore (next r w) = Write-IsStore w (Writes-IsStore r)

effect_decides : (p : Policy) → is_effect p.effect ≡ true → verdict p ≢ none
unfolding is_effect verdict
effect_decides p h e = ground (arith, h, e)

-- After any writes to an empty table, each stored policy has an effect that `evaluate` acts on.
pub stored_policies_decide :
    (t : PolicyTable) → Writes empty_table t → All (λ p. verdict p ≢ none) t.rows
stored_policies_decide t r =
    All-map (RowOk t.last_id) (λ p. verdict p ≢ none) t.rows (λ p h. effect_decides p h.0)
      (Writes-IsStore r).rows

find_policy-append :
    (n id : ℕ) (ps : List Policy) (q : Policy)
    → All (RowOk n) ps
    → q.id ≡ suc n
    → (find_policy (suc n) (ps ++ q ∷ []) ≡ some q)
      × (id ≢ suc n → find_policy id (ps ++ q ∷ []) ≡ find_policy id ps)
unfolding find_policy
find_policy-append n id [] q h e = (ground (arith, e), λ d. ground (arith, e, d))
find_policy-append n id (p ∷ ps) q (h, hs) e =
    let (new, old) = find_policy-append n id ps q hs e in
    (ground (arith, new, h.1), λ d. ground (arith, old d))

-- The policy that is found after an insertion.
get_policy-made_policy :
    (q : NewPolicy) (t u : PolicyTable) (id : ℕ)
    → Writes empty_table t
    → insert_policy q t ≡ (some id, u)
    → (get_policy id u ≡ some (made_policy id q))
      × ((j : ℕ) → j ≢ id → get_policy j u ≡ get_policy j t)
unfolding insert_policy get_policy
get_policy-made_policy q t u id r e =
    let k = (Writes-IsStore r).rows in
    let made = made_policy (suc t.last_id) q in
    let number : suc t.last_id ≡ id = ground (arith, e) in
    let table : t.rows ++ made ∷ [] ≡ u.rows = ground (arith, e) in
    (
      subst (λ l. find_policy id l ≡ some (made_policy id q)) table
          (subst (λ i. find_policy i (t.rows ++ made ∷ []) ≡ some (made_policy i q)) number
            (find_policy-append t.last_id 0 t.rows made k refl).0),
      λ j d.
          subst (λ l. find_policy j l ≡ find_policy j t.rows) table
            ((find_policy-append t.last_id j t.rows made k refl).1 (λ x. d (x ∙ number))),
    )

-- A policy that says what was asked for, under an identifier; the condition is the one that was
-- given, or the empty one where that is false as a Python value.
pub record SaysAll (q : NewPolicy) (id : ℕ) (p : Policy) : Type 0 where
  numbered : p.id ≡ id
  name : p.name ≡ q.name
  description : p.description ≡ q.description
  effect : p.effect ≡ q.effect
  actions : p.target_actions ≡ q.target_actions
  condition_kept :
      (truthy q.condition ≡ true) × (p.condition ≡ q.condition)
      ⊎ (truthy q.condition ≡ false) × (p.condition ≡ obj end)
  priority : p.priority ≡ q.priority
  enabled : p.enabled ≡ q.enabled

made_policy-SaysAll : (q : NewPolicy) (id : ℕ) → SaysAll q id (made_policy id q)
made_policy-SaysAll q id = record {
  numbered = refl;
  name = refl;
  description = refl;
  effect = refl;
  actions = refl;
  condition_kept = elim (Bool-cases (truthy q.condition)) [
    | inl given ↦ inl (given, if_true _ _ given)
    | inr empty ↦ inr (empty, if_false _ _ empty)
  ];
  priority = refl;
  enabled = refl;
}

-- After any writes to an empty table, a policy that is inserted is found under the identifier
-- that is returned, and it has the name, description, effect, actions, priority and switch that
-- were given, and the condition that was given, or `{}` if that is false as a Python value; every
-- other identifier finds what it found before.
pub get_policy-insert_policy :
    (q : NewPolicy) (t u : PolicyTable) (id : ℕ)
    → Writes empty_table t
    → insert_policy q t ≡ (some id, u)
    → ((p : Policy) × (get_policy id u ≡ some p) × SaysAll q id p)
      × ((j : ℕ) → j ≢ id → get_policy j u ≡ get_policy j t)
get_policy-insert_policy q t u id r e =
    let (found, others) = get_policy-made_policy q t u id r e in
    ((made_policy id q, found, made_policy-SaysAll q id), others)
