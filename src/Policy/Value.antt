-- ===== src/Policy/Value.antt =====
-- The JSON values of conditions and attributes, with Python's `==`, truth and dictionary lookup.
use aird.Base.{
  ℕ, suc, Bool, true, false, not, ◌&&◌, ◌||◌, Option, none, some, List, [], ◌∷◌, eqb, if◌then◌else◌,
}
use aird.Base.Text.{Text, text_eqb, split, is_empty, codes}
use aird.Base.Int.{ℤ, pos, eqb_ℤ}

-- Numbers are integers. A dictionary is its items in order of insertion, each key once.
mutual
  pub data Value : Type 0 where
    null : Value
    bool : Bool → Value
    num : ℤ → Value
    str : Text → Value
    arr : Values → Value
    obj : Fields → Value

  pub data Values : Type 0 where
    nil : Values
    cons : Value → Values → Values

  pub data Fields : Type 0 where
    end : Fields
    field : Text → Value → Fields → Fields

-- `d.get(key)`, with `none` for a missing key.
unfoldable pub get : Text → Fields → Option Value
get key end = none
get key (field k v rest) = if text_eqb k key then some v else get key rest

unfoldable pub count_fields : Fields → ℕ
count_fields end = 0
count_fields (field k v rest) = suc (count_fields rest)

-- `True == 1` and `False == 0`.
abbrev pub bool_num : Bool → ℤ
bool_num true = pos 1
bool_num false = pos 0

abbrev bool_eqb : Bool → Bool → Bool
bool_eqb true b = b
bool_eqb false b = not b

-- `==` of two scalars, or of a scalar and anything else.
unfoldable pub scalar_eq : Value → Value → Bool
scalar_eq null null = true
scalar_eq (bool a) (bool b) = bool_eqb a b
scalar_eq (bool a) (num n) = eqb_ℤ (bool_num a) n
scalar_eq (num n) (bool b) = eqb_ℤ n (bool_num b)
scalar_eq (num n) (num m) = eqb_ℤ n m
scalar_eq (str s) (str t) = text_eqb s t
scalar_eq _ _ = false

unfoldable mutual
  unfolding scalar_eq get count_fields

  pub value_eq : Value → Value → Bool
  value_eq (arr xs) w = eq_arr xs w
  value_eq (obj fs) w = elim w [
    | obj gs ↦ eqb (count_fields fs) (count_fields gs) && sub_obj fs gs
    | _ ↦ false
  ]
  value_eq null w = scalar_eq null w
  value_eq (bool b) w = scalar_eq (bool b) w
  value_eq (num n) w = scalar_eq (num n) w
  value_eq (str s) w = scalar_eq (str s) w

  pub eq_arr : Values → Value → Bool
  eq_arr nil w = elim w [ arr nil ↦ true | _ ↦ false ]
  eq_arr (cons x xs) w = elim w [ arr (cons y ys) ↦ value_eq x y && eq_arr xs (arr ys) | _ ↦ false ]

  -- Dictionaries are equal in whatever order their items stand.
  pub sub_obj : Fields → Fields → Bool
  sub_obj end gs = true
  sub_obj (field k v rest) gs =
      elim (get k gs) [ none ↦ false | some w ↦ value_eq v w ] && sub_obj rest gs

-- `value in list`.
unfoldable pub mem_values : Value → Values → Bool
mem_values v nil = false
mem_values v (cons w ws) = value_eq w v || mem_values v ws

unfoldable pub texts : List Text → Values
texts [] = nil
texts (t ∷ ts) = cons (str t) (texts ts)

-- Python's truth of a value.
unfoldable pub truthy : Value → Bool
truthy null = false
truthy (bool b) = b
truthy (num n) = not (eqb_ℤ n (pos 0))
truthy (str s) = not (is_empty s)
truthy (arr nil) = false
truthy (arr (cons _ _)) = true
truthy (obj end) = false
truthy (obj (field _ _ _)) = true

-- The loop of `_resolve_attr`; `null` stands for a part that is missing.
unfoldable pub walk : List Text → Value → Value
walk [] cursor = cursor
walk (part ∷ parts) (obj fs) = elim (get part fs) [ none ↦ null | some v ↦ walk parts v ]
walk (part ∷ parts) _ = null

unfoldable pub resolve_attr : Value → Value → Value
unfolding walk split
resolve_attr (str []) attrs = null
resolve_attr (str (c ∷ cs)) attrs = walk (split b'.' (c ∷ cs)) attrs
resolve_attr _ attrs = null

-- `_resolve_value`: `{"attr": path}` and `{"literal": value}` stand for other values.
unfoldable pub resolve_value : Value → Value → Value
unfolding resolve_attr text_eqb
resolve_value (obj (field k v end)) attrs =
    if text_eqb k (codes "attr")
    then resolve_attr v attrs
    else if text_eqb k (codes "literal")
    then v
    else obj (field k v end)
resolve_value node attrs = node
