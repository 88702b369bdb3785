-- ===== src/Policy/Condition/Laws.antt =====
-- Laws of the condition trees, exceptions included.
use aird.Base.{◌≡◌, refl, ◌∙◌, ap, Bool, true, false, List, [], ◌∷◌}
use aird.Base.Text.{codes, text_eqb, lower}
use aird.Policy.Value.{Value, arr, obj, Values, nil, cons, end, field}
use aird.Policy.Condition.{
  Library, Outcome, yields, malformed, crashed, negate, and_then, or_else, dispatch,
  evaluate_condition, evaluate_all, evaluate_any,
}

abbrev pub and_node : Values → Value
and_node xs = obj (field (codes "and") (arr xs) end)

abbrev pub or_node : Values → Value
or_node xs = obj (field (codes "or") (arr xs) end)

abbrev pub not_node : Value → Value
not_node x = obj (field (codes "not") x end)

module _ (lib : Library) (attrs : Value) where
  and_true : (r : Outcome) → and_then r (yields true) ≡ r
  and_true (yields true) = refl
  and_true (yields false) = refl
  and_true malformed = refl
  and_true crashed = refl

  evaluate-not_node :
      (x : Value)
      → evaluate_condition lib (not_node x) attrs ≡ negate (evaluate_condition lib x attrs)
  unfolding dispatch text_eqb lower evaluate_condition
  evaluate-not_node x = and_true _

  evaluate-and_node :
      (xs : Values) → evaluate_condition lib (and_node xs) attrs ≡ evaluate_all lib xs attrs
  unfolding dispatch text_eqb lower evaluate_condition
  evaluate-and_node xs = and_true _

  evaluate-or_node :
      (xs : Values) → evaluate_condition lib (or_node xs) attrs ≡ evaluate_any lib xs attrs
  unfolding dispatch text_eqb lower evaluate_condition
  evaluate-or_node xs = and_true _

-- The first result that is not `unit`, or `unit`.
unfoldable pub first_not : Bool → List Outcome → Outcome
first_not unit [] = yields unit
first_not true (yields true ∷ rs) = first_not true rs
first_not true (yields false ∷ rs) = yields false
first_not false (yields false ∷ rs) = first_not false rs
first_not false (yields true ∷ rs) = yields true
first_not true (malformed ∷ rs) = malformed
first_not false (malformed ∷ rs) = malformed
first_not true (crashed ∷ rs) = crashed
first_not false (crashed ∷ rs) = crashed

unfoldable pub outcomes : Library → Value → Values → List Outcome
outcomes lib attrs nil = []
outcomes lib attrs (cons x xs) = evaluate_condition lib x attrs ∷ outcomes lib attrs xs

-- Not true, false, or the same exception.
unfoldable pub opposite : Outcome → Outcome
opposite (yields true) = yields false
opposite (yields false) = yields true
opposite malformed = malformed
opposite crashed = crashed

and_then-first_not :
    (r : Outcome) (rs : List Outcome) → and_then r (first_not true rs) ≡ first_not true (r ∷ rs)
unfolding first_not
and_then-first_not (yields true) rs = refl
and_then-first_not (yields false) rs = refl
and_then-first_not malformed rs = refl
and_then-first_not crashed rs = refl

or_else-first_not :
    (r : Outcome) (rs : List Outcome) → or_else r (first_not false rs) ≡ first_not false (r ∷ rs)
unfolding first_not
or_else-first_not (yields true) rs = refl
or_else-first_not (yields false) rs = refl
or_else-first_not malformed rs = refl
or_else-first_not crashed rs = refl

evaluate_all-first_not :
    (lib : Library) (attrs : Value) (xs : Values)
    → evaluate_all lib xs attrs ≡ first_not true (outcomes lib attrs xs)
unfolding evaluate_condition first_not outcomes
evaluate_all-first_not lib attrs nil = refl
evaluate_all-first_not lib attrs (cons x xs) =
    ap (and_then (evaluate_condition lib x attrs)) (evaluate_all-first_not lib attrs xs)
    ∙ and_then-first_not (evaluate_condition lib x attrs) (outcomes lib attrs xs)

evaluate_any-first_not :
    (lib : Library) (attrs : Value) (xs : Values)
    → evaluate_any lib xs attrs ≡ first_not false (outcomes lib attrs xs)
unfolding evaluate_condition first_not outcomes
evaluate_any-first_not lib attrs nil = refl
evaluate_any-first_not lib attrs (cons x xs) =
    ap (or_else (evaluate_condition lib x attrs)) (evaluate_any-first_not lib attrs xs)
    ∙ or_else-first_not (evaluate_condition lib x attrs) (outcomes lib attrs xs)

negate-opposite : (r : Outcome) → negate r ≡ opposite r
unfolding opposite
negate-opposite (yields true) = refl
negate-opposite (yields false) = refl
negate-opposite malformed = refl
negate-opposite crashed = refl

-- What the operators on conditions give, by what their operands give in order: `and` the first
-- result that is not true, or true if all are; `or` the first that is not false, or false if all
-- are; a plain list is an `and`; and `not` the opposite. An exception counts as a result that is
-- neither, so that one behind the deciding operand does not come up.
pub evaluate-operators :
    (lib : Library) (attrs : Value) (x : Value) (xs : Values)
    → (evaluate_condition lib (and_node xs) attrs ≡ first_not true (outcomes lib attrs xs))
      × (evaluate_condition lib (or_node xs) attrs ≡ first_not false (outcomes lib attrs xs))
      × (evaluate_condition lib (arr xs) attrs ≡ first_not true (outcomes lib attrs xs))
      × (evaluate_condition lib (not_node x) attrs ≡ opposite (evaluate_condition lib x attrs))
unfolding evaluate_condition
evaluate-operators lib attrs x xs = (
  evaluate-and_node lib attrs xs ∙ evaluate_all-first_not lib attrs xs,
  evaluate-or_node lib attrs xs ∙ evaluate_any-first_not lib attrs xs,
  evaluate_all-first_not lib attrs xs,
  evaluate-not_node lib attrs x ∙ negate-opposite (evaluate_condition lib x attrs),
)
