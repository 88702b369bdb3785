-- ===== src/Shares/Verify/Entries.antt =====
-- The table of attempts as a dictionary: lookups after changes, and keys that stay distinct.
use aird.Base.{
  ℕ, ◌≤◌, ◌≡◌, refl, sym, ◌∙◌, ap, subst, inl, inr, Bool, true, false, not, ◌&&◌, Bool-cases, none,
  some, [], ◌∷◌, all, leb, arith, if◌then◌else◌, if_true, if_false,
}
use aird.Base.Text.{Text, text_eqb, text_eqb→eq, text_eqb_refl}
use aird.Shares.Verify.{Attempts, AttemptTable, drop_stale, find_attempts, put_attempts}

pub find-put_same :
    (a : Attempts) (table : AttemptTable) → find_attempts a.ip (put_attempts a table) ≡ some a
unfolding find_attempts put_attempts
find-put_same a [] = if_true _ _ (text_eqb_refl a.ip)
find-put_same a (x ∷ xs) = ground (arith, find-put_same a xs, text_eqb_refl a.ip)

pub find-put_other :
    (ip : Text) (a : Attempts) (table : AttemptTable)
    → text_eqb a.ip ip ≡ false
    → find_attempts ip (put_attempts a table) ≡ find_attempts ip table
unfolding find_attempts put_attempts
find-put_other ip a [] h = if_false _ _ h
find-put_other ip a (x ∷ xs) h = elim (Bool-cases (text_eqb x.ip a.ip)) [
  | inl same ↦
      ap (find_attempts ip) (if_true _ _ same)
      ∙ if_false _ _ h
      ∙ sym (if_false _ _ (subst (λ t. text_eqb t ip ≡ false) (sym (text_eqb→eq x.ip a.ip same)) h))
  | inr other ↦
      ap (find_attempts ip) (if_false _ _ other)
      ∙ ap (λ rest. if text_eqb x.ip ip then some x else rest) (find-put_other ip a xs h)
]

abbrev pub lacks : Text → AttemptTable → Bool
lacks ip table = all (λ a. not (text_eqb a.ip ip)) table

-- A dictionary has no key twice, and an entry counts an attempt.
unfoldable pub is_distinct : AttemptTable → Bool
is_distinct [] = true
is_distinct (a ∷ as') = leb 1 a.attempts && lacks a.ip as' && is_distinct as'

pub lacks-drop_stale :
    (now : ℕ) (ip : Text) (table : AttemptTable)
    → lacks ip table ≡ true
    → lacks ip (drop_stale now table) ≡ true
unfolding drop_stale
lacks-drop_stale now ip [] h = refl
lacks-drop_stale now ip (a ∷ as') h = ground (arith, h, lacks-drop_stale now ip as')

pub drop_stale-distinct :
    (now : ℕ) (table : AttemptTable)
    → is_distinct table ≡ true
    → is_distinct (drop_stale now table) ≡ true
unfolding drop_stale is_distinct
drop_stale-distinct now [] h = refl
drop_stale-distinct now (a ∷ as') h =
    ground (arith, h, drop_stale-distinct now as', lacks-drop_stale now a.ip as')

pub text_eqb_sym : (a b : Text) → text_eqb a b ≡ false → text_eqb b a ≡ false
text_eqb_sym a b h = elim (Bool-cases (text_eqb b a)) [
  | inl same ↦ absurd (
      cc (h, sym (subst (λ t. text_eqb a t ≡ true) (sym (text_eqb→eq b a same)) (text_eqb_refl a))))
  | inr other ↦ other
]

pub lacks-put_attempts :
    (ip : Text) (new : Attempts) (table : AttemptTable)
    → lacks ip table ≡ true
    → text_eqb new.ip ip ≡ false
    → lacks ip (put_attempts new table) ≡ true
unfolding put_attempts
lacks-put_attempts ip new [] h e = ground (arith, e)
lacks-put_attempts ip new (a ∷ as') h e = ground (arith, h, e, lacks-put_attempts ip new as')

pub lacks_eq :
    (a b : Text) (table : AttemptTable)
    → text_eqb a b ≡ true
    → lacks a table ≡ true
    → lacks b table ≡ true
lacks_eq a b table e h = subst (λ k. lacks k table ≡ true) (text_eqb→eq a b e) h

pub put_attempts-distinct :
    (new : Attempts) (table : AttemptTable)
    → is_distinct table ≡ true
    → leb 1 new.attempts ≡ true
    → is_distinct (put_attempts new table) ≡ true
unfolding put_attempts is_distinct
put_attempts-distinct new [] h once = ground (arith, once)
put_attempts-distinct new (a ∷ as') h once = ground (
  arith,
  h,
  once,
  put_attempts-distinct new as',
  lacks-put_attempts a.ip new as',
  text_eqb_sym a.ip new.ip,
  lacks_eq a.ip new.ip as',
)

pub find-lacks :
    (ip : Text) (table : AttemptTable) → lacks ip table ≡ true → find_attempts ip table ≡ none
unfolding find_attempts
find-lacks ip [] h = refl
find-lacks ip (a ∷ as') h = ground (arith, h, find-lacks ip as')

pub le_refl : {n : ℕ} → n ≤ n
le_refl = omega arith

pub same_bounds : {x y z w : ℕ} → y ≤ z → x ≡ y → w ≡ z → x ≤ w
same_bounds h e d = omega (arith, h, e, d)
