-- ===== src/Policy/Condition.antt =====
-- The evaluation of condition trees: `_evaluate_condition` and its operators.
pub mod Laws
use aird.Base.{
  ℕ, ◌+◌, ◌*◌, Bool, true, false, not, Option, none, some, List, [], ◌∷◌, leb, ltb, if◌then◌else◌,
  ◌&&◌, ◌||◌,
}
use aird.Base.Text.{Text, text_eqb, codes, split, lower}
use aird.Policy.Value.{
  Value, null, bool, num, str, arr, obj, Values, nil, cons, Fields, end, field, get, value_eq,
  mem_values, truthy, resolve_attr, resolve_value,
}

-- `malformed` is a PolicyEvaluationError; `crashed` is any other exception, such as the
-- AttributeError of `payload.get` where the payload is no dictionary.
pub data Outcome : Type 0 where
  yields : Bool → Outcome
  malformed : Outcome
  crashed : Outcome

-- Parts of the standard library: `int` of a text, `none` where it fails or is negative; the time of
-- day of `datetime.fromisoformat`, in microseconds, `none` where it fails; and whether the address
-- lies in the network, both read by `ipaddress` from their texts, `none` where either fails.
pub record Library : Type 0 where
  pub int_of_text : Text → Option ℕ
  pub iso_time : Text → Option ℕ
  pub in_network : Value → Value → Option Bool

-- `all` and `any` over a list stop at the first element that decides, and at an exception.
abbrev pub and_then : Outcome → Outcome → Outcome
and_then (yields true) next = next
and_then (yields false) next = yields false
and_then malformed next = malformed
and_then crashed next = crashed

abbrev pub or_else : Outcome → Outcome → Outcome
or_else (yields true) next = yields true
or_else (yields false) next = next
or_else malformed next = malformed
or_else crashed next = crashed

abbrev pub negate : Outcome → Outcome
negate (yields b) = yields (not b)
negate malformed = malformed
negate crashed = crashed

-- `payload.get(key)` of a payload that has `get`; a missing key gives `None`.
abbrev pub or_null : Option Value → Value
or_null none = null
or_null (some v) = v

-- `_parse_time`: "HH:MM" or "HH:MM:SS", in microseconds of the day.
unfoldable pub make_time : Option ℕ → Option ℕ → Option ℕ → Option ℕ
make_time (some h) (some m) (some s) =
    if ltb h 24 && ltb m 60 && ltb s 60 then some (((h * 60 + m) * 60 + s) * 1000000) else none
make_time _ _ _ = none

module _ (lib : Library) where
  unfoldable pub parse_parts : List Text → Option ℕ
  unfolding make_time
  parse_parts (h ∷ m ∷ []) = make_time (lib.int_of_text h) (lib.int_of_text m) (some 0)
  parse_parts (h ∷ m ∷ s ∷ []) =
      make_time (lib.int_of_text h) (lib.int_of_text m) (lib.int_of_text s)
  parse_parts _ = none

  unfoldable pub parse_time : Value → Option ℕ
  unfolding parse_parts split
  parse_time (str s) = parse_parts (split b':' s)
  parse_time _ = none

  -- `attrs.get("environment", {}).get(key)`, with `null` for what is missing. The attributes of
  -- a request always hold a dictionary there.
  unfoldable pub attribute : Text → Text → Value → Value
  unfolding get
  attribute group key (obj fs) = elim (get group fs) [
    | some (obj gs) ↦ or_null (get key gs)
    | _ ↦ null
  ]
  attribute group key _ = null

  stamp_of : Value → Option ℕ
  stamp_of (str s) = lib.iso_time s
  stamp_of _ = none

  -- `_resolve_timestamp`.
  unfoldable pub resolve_timestamp : Fields → Value → Option ℕ
  unfolding stamp_of attribute get resolve_value
  resolve_timestamp payload attrs = elim (get (codes "value") payload) [
    | none ↦
        let iso = attribute (codes "environment") (codes "timestamp") attrs in
        if truthy iso then stamp_of iso else none
    | some null ↦
        let iso = attribute (codes "environment") (codes "timestamp") attrs in
        if truthy iso then stamp_of iso else none
    | some v ↦ stamp_of (resolve_value v attrs)
  ]

  -- The last tests of `_eval_time_between`: a window that ends before it starts runs over midnight.
  unfoldable pub in_window : ℕ → ℕ → ℕ → Bool
  in_window start stop now =
      if leb start stop then leb start now && leb now stop else leb start now || leb now stop

  unfoldable pub eval_time_between : Fields → Value → Outcome
  unfolding in_window resolve_timestamp parse_time
  eval_time_between payload attrs = elim (parse_time (or_null (get (codes "start") payload))) [
    | none ↦ malformed
    | some start ↦ elim (parse_time (or_null (get (codes "end") payload))) [
      | none ↦ malformed
      | some stop ↦ elim (resolve_timestamp payload attrs) [
        | none ↦ yields false
        | some now ↦ yields (in_window start stop now)
      ]
    ]
  ]

  -- `_eval_in`.
  unfoldable pub eval_in : Fields → Value → Outcome
  unfolding mem_values value_eq resolve_value get
  eval_in payload attrs =
      let value = resolve_value (or_null (get (codes "value") payload)) attrs in
      elim (resolve_value (or_null (get (codes "list") payload)) attrs) [
        | arr xs ↦ yields (mem_values value xs)
        | str s ↦ yields (value_eq value (str s))
        | _ ↦ yields false
      ]

  -- `_eval_ip_in_cidr`.
  abbrev or_false : Option Bool → Bool
  or_false none = false
  or_false (some b) = b

  unfoldable pub eval_ip_in_cidr : Fields → Value → Outcome
  unfolding attribute resolve_value get truthy
  eval_ip_in_cidr payload attrs =
      let cidr = resolve_value (or_null (get (codes "cidr") payload)) attrs in
      let ip : Value = elim (or_null (get (codes "ip") payload)) [
        | null ↦ attribute (codes "environment") (codes "ip") attrs
        | expr ↦ resolve_value expr attrs
      ] in
      if truthy ip && truthy cidr then yields (or_false (lib.in_network ip cidr)) else yields false

  -- `_eval_tag_present`. The tags of a request are a list.
  values_of : Value → Values
  values_of (arr xs) = xs
  values_of _ = nil

  unfoldable pub eval_tag_present : Value → Value → Outcome
  unfolding values_of attribute resolve_value mem_values value_eq
  eval_tag_present payload attrs =
      let tags = values_of (attribute (codes "resource") (codes "tags") attrs) in
      yields (mem_values (resolve_value payload attrs) tags)

  eval_equals : Fields → Value → Bool
  unfolding value_eq resolve_value get
  eval_equals payload attrs =
      value_eq (resolve_value (or_null (get (codes "left") payload)) attrs)
        (resolve_value (or_null (get (codes "right") payload)) attrs)

  -- An operator that reads its payload by `payload.get`.
  with_fields : (Fields → Value → Outcome) → Value → Value → Outcome
  with_fields f (obj fs) attrs = f fs attrs
  with_fields f _ attrs = crashed

  abbrev is_present : Value → Bool
  is_present null = false
  is_present _ = true

  -- `_OP_DISPATCH` on the operator's name in lower case. The three results are what the payload
  -- gives as a node, and as the list of `and` and of `or`.
  unfoldable pub dispatch : Text → Value → Value → Outcome → Outcome → Outcome → Outcome
  unfolding with_fields eval_equals eval_in eval_tag_present eval_time_between eval_ip_in_cidr
      text_eqb lower resolve_attr
  dispatch name payload attrs node all_of any_of =
      let op = lower name in
      if text_eqb op (codes "and")
      then all_of
      else if text_eqb op (codes "or")
      then any_of
      else if text_eqb op (codes "not")
      then negate node
      else if text_eqb op (codes "equals")
      then with_fields (λ fs a. yields (eval_equals fs a)) payload attrs
      else if text_eqb op (codes "not_equals")
      then with_fields (λ fs a. yields (not (eval_equals fs a))) payload attrs
      else if text_eqb op (codes "in")
      then with_fields eval_in payload attrs
      else if text_eqb op (codes "tag_present")
      then eval_tag_present payload attrs
      else if text_eqb op (codes "time_between")
      then with_fields eval_time_between payload attrs
      else if text_eqb op (codes "ip_in_cidr")
      then with_fields eval_ip_in_cidr payload attrs
      else if text_eqb op (codes "attr")
      then yields (is_present (resolve_attr payload attrs))
      else malformed

  -- What `for c in (payload or [])` does with a payload that is no list: nothing if it is false; a
  -- text or a dictionary yields texts, which are no nodes; the rest is not iterable.
  unfoldable pub iterate_other : Value → Bool → Outcome
  unfolding truthy
  iterate_other payload empty =
      if truthy payload
      then elim payload [ str _ ↦ malformed | obj _ ↦ malformed | _ ↦ crashed ]
      else yields empty

  unfoldable mutual
    unfolding dispatch iterate_other

    -- `_evaluate_condition`.
    pub evaluate_condition : Value → Value → Outcome
    evaluate_condition null attrs = yields false
    evaluate_condition (bool b) attrs = yields b
    evaluate_condition (arr xs) attrs = evaluate_all xs attrs
    evaluate_condition (num n) attrs = malformed
    evaluate_condition (str s) attrs = malformed
    evaluate_condition (obj fs) attrs = evaluate_items fs attrs

    pub evaluate_all : Values → Value → Outcome
    evaluate_all nil attrs = yields true
    evaluate_all (cons x xs) attrs =
        let rest = evaluate_all xs attrs in and_then (evaluate_condition x attrs) rest

    pub evaluate_any : Values → Value → Outcome
    evaluate_any nil attrs = yields false
    evaluate_any (cons x xs) attrs =
        let rest = evaluate_any xs attrs in or_else (evaluate_condition x attrs) rest

    -- A dictionary: true if empty, its operator if it has one, else the conjunction of its items.
    pub evaluate_items : Fields → Value → Outcome
    evaluate_items end attrs = yields true
    evaluate_items (field op payload rest) attrs =
        let later = evaluate_items rest attrs in
        let node = evaluate_condition payload attrs in
        let all_of = evaluate_payload_all payload attrs in
        let any_of = evaluate_payload_any payload attrs in
        and_then (dispatch op payload attrs node all_of any_of) later

    pub evaluate_payload_all : Value → Value → Outcome
    evaluate_payload_all (arr xs) attrs = evaluate_all xs attrs
    evaluate_payload_all null attrs = iterate_other null true
    evaluate_payload_all (bool b) attrs = iterate_other (bool b) true
    evaluate_payload_all (num n) attrs = iterate_other (num n) true
    evaluate_payload_all (str s) attrs = iterate_other (str s) true
    evaluate_payload_all (obj fs) attrs = iterate_other (obj fs) true

    pub evaluate_payload_any : Value → Value → Outcome
    evaluate_payload_any (arr xs) attrs = evaluate_any xs attrs
    evaluate_payload_any null attrs = iterate_other null false
    evaluate_payload_any (bool b) attrs = iterate_other (bool b) false
    evaluate_payload_any (num n) attrs = iterate_other (num n) false
    evaluate_payload_any (str s) attrs = iterate_other (str s) false
    evaluate_payload_any (obj fs) attrs = iterate_other (obj fs) false
