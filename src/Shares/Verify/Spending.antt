-- ===== src/Shares/Verify/Spending.antt =====
-- What an attempt takes of the allowance of its address.
use aird.Base.{
  ℕ, suc, ◌+◌, ◌-◌, ◌≤◌, ◌≡◌, refl, sym, ◌∙◌, ap, subst, ◌⊎◌, inl, inr, Bool, true, false, ◌&&◌,
  Bool-cases, Option, none, some, [], ◌∷◌, leb, arith, if◌then◌else◌, if_true, if_false,
}
use aird.Base.Text.{Text, text_eqb, text_eqb→eq}
use aird.Shares.Verify.{
  Attempts, AttemptTable, rate_limit_window, max_attempts, is_past, drop_stale, find_attempts,
  put_attempts, counted,
}
use aird.Shares.Verify.Entries.{
  find-put_same, find-put_other, is_distinct, lacks-drop_stale, lacks_eq, find-lacks, le_refl,
  same_bounds,
}

-- How many attempts a table still lets through for an entry, from a time on until a window later.
abbrev pub allowance : ℕ → Option Attempts → ℕ
allowance start none = max_attempts
allowance start (some a) =
    if leb start a.timestamp
    then max_attempts - a.attempts
    else (max_attempts - a.attempts) + max_attempts

pub le_trans : {x y z : ℕ} → x ≤ y → y ≤ z → x ≤ z
le_trans h k = omega (arith, h, k)

pub none_distinct : is_distinct [] ≡ true
unfolding is_distinct
none_distinct = refl

pub past_allowance :
    (start now : ℕ) (a : Attempts)
    → {x y : ℕ} → now ≤ start + rate_limit_window
    → is_past now a.timestamp ≡ true
    → x ≡ max_attempts
    → y ≡ allowance start (some a)
    → x ≤ y
past_allowance start now a late past e d = ground arith

pub drop_step :
    (start now : ℕ) (ip : Text) (a : Attempts) (rest : AttemptTable) (found : Option Attempts)
    → now ≤ start + rate_limit_window
    → allowance start (find_attempts ip rest) ≤ allowance start found
    → (text_eqb a.ip ip ≡ true → find_attempts ip rest ≡ none)
    → allowance start (find_attempts ip (if is_past now a.timestamp then rest else a ∷ rest))
      ≤ allowance start (if text_eqb a.ip ip then some a else found)
unfolding find_attempts
drop_step start now ip a rest found late ih alone =
    by_cases (Bool-cases (is_past now a.timestamp)) (Bool-cases (text_eqb a.ip ip))
  where
    by_cases :
        (is_past now a.timestamp ≡ true) ⊎ (is_past now a.timestamp ≡ false)
        → (text_eqb a.ip ip ≡ true) ⊎ (text_eqb a.ip ip ≡ false)
        → allowance start (find_attempts ip (if is_past now a.timestamp then rest else a ∷ rest))
          ≤ allowance start (if text_eqb a.ip ip then some a else found)
    by_cases (inl past) (inl same) =
        past_allowance start now a late past
          (ap (λ t. allowance start (find_attempts ip t)) (if_true _ _ past)
            ∙ ap (allowance start) (alone same))
          (ap (allowance start) (if_true _ _ same))
    by_cases (inl past) (inr other) =
        same_bounds ih (ap (λ t. allowance start (find_attempts ip t)) (if_true _ _ past))
          (ap (allowance start) (if_false _ _ other))
    by_cases (inr kept) (inl same) =
        same_bounds le_refl
          (ap (λ t. allowance start (find_attempts ip t)) (if_false _ _ kept)
            ∙ ap (allowance start) (if_true _ _ same))
          (ap (allowance start) (if_true _ _ same))
    by_cases (inr kept) (inr other) =
        same_bounds ih
          (ap (λ t. allowance start (find_attempts ip t)) (if_false _ _ kept)
            ∙ ap (allowance start) (if_false _ _ other))
          (ap (allowance start) (if_false _ _ other))

-- Dropping stale entries makes no more room within the window.
pub drop_stale-allowance :
    (start now : ℕ) (ip : Text) (table : AttemptTable)
    → now ≤ start + rate_limit_window
    → is_distinct table ≡ true
    → allowance start (find_attempts ip (drop_stale now table))
      ≤ allowance start (find_attempts ip table)
unfolding drop_stale find_attempts is_distinct
drop_stale-allowance start now ip [] late h = omega arith
drop_stale-allowance start now ip (a ∷ as') late h =
    drop_step start now ip a (drop_stale now as') (find_attempts ip as') late
      (drop_stale-allowance start now ip as' late (ground (arith, h)))
      (λ same.
        find-lacks ip (drop_stale now as')
          (lacks-drop_stale now ip as' (lacks_eq a.ip ip as' same (ground (arith, h)))))

abbrev pub charge : Bool → Bool → ℕ
charge here granted = if here && granted then 1 else 0

-- What an answer leaves of the allowance of an address, and what it took of it.
unfoldable pub spent : ℕ → Text → Text → Bool × AttemptTable → ℕ
spent start ip who result =
    allowance start (find_attempts ip result.1) + charge (text_eqb who ip) result.0

pub refused_spends :
    (start : ℕ) (ip who : Text) (table : AttemptTable)
    → spent start ip who (false, table) ≤ allowance start (find_attempts ip table)
unfolding spent
refused_spends start ip who table = elim (Bool-cases (text_eqb who ip)) [
  | inl here ↦ ground (arith, here)
  | inr elsewhere ↦ ground (arith, elsewhere)
]

pub elsewhere_spends :
    (start : ℕ) (ip who : Text) (table : AttemptTable) (new : Attempts)
    → new.ip ≡ who
    → text_eqb who ip ≡ false
    → spent start ip who (true, put_attempts new table) ≤ allowance start (find_attempts ip table)
unfolding spent
elsewhere_spends start ip who table new named elsewhere =
    same_bounds le_refl
      (ap (λ b. allowance start (find_attempts ip (put_attempts new table)) + charge b true)
          elsewhere
        ∙ ap (λ o. allowance start o + 0)
            (find-put_other ip new table (subst (λ t. text_eqb t ip ≡ false) (sym named) elsewhere))
        ∙ plus_zero)
      refl
  where
    plus_zero : {n : ℕ} → n + 0 ≡ n
    plus_zero = omega arith

pub counted_less :
    (start : ℕ) (a : Attempts) (who : Text)
    → leb max_attempts a.attempts ≡ false
    → allowance start
          (some (record { ip = who; attempts = suc a.attempts; timestamp = a.timestamp }))
        + 1
      ≤ allowance start (some a)
counted_less start a who more = ground arith

pub here_spends :
    (start : ℕ) (ip who : Text) (table : AttemptTable) (new : Attempts)
    → new.ip ≡ who
    → text_eqb who ip ≡ true
    → spent start ip who (true, put_attempts new table) ≡ allowance start (some new) + 1
unfolding spent
here_spends start ip who table new named here =
    ap (λ b. allowance start (find_attempts ip (put_attempts new table)) + charge b true) here
    ∙ ap (λ o. allowance start o + 1)
        (subst (λ t. find_attempts t (put_attempts new table) ≡ some new)
          (named ∙ text_eqb→eq who ip here) (find-put_same new table))

-- Counting an attempt takes it from the allowance of its address, and from no other.
pub counted-allowance :
    (start : ℕ) (ip who : Text) (table : AttemptTable) (a : Attempts)
    → (text_eqb who ip ≡ true → allowance start (some a) ≤ allowance start (find_attempts ip table))
    → spent start ip who (counted who table a) ≤ allowance start (find_attempts ip table)
counted-allowance start ip who table a room =
    by_cases (Bool-cases (leb max_attempts a.attempts)) (Bool-cases (text_eqb who ip))
  where
    new : Attempts
    new = record { ip = who; attempts = suc a.attempts; timestamp = a.timestamp }

    by_cases :
        (leb max_attempts a.attempts ≡ true) ⊎ (leb max_attempts a.attempts ≡ false)
        → (text_eqb who ip ≡ true) ⊎ (text_eqb who ip ≡ false)
        → spent start ip who (counted who table a) ≤ allowance start (find_attempts ip table)
    by_cases (inl full) here =
        same_bounds (refused_spends start ip who table) (ap (spent start ip who) (if_true _ _ full))
          refl
    by_cases (inr more) (inl here) = omega (
      arith,
      ap (spent start ip who) (
          if_false {b = leb max_attempts a.attempts} (false, table) (true, put_attempts new table)
            more),
      here_spends start ip who table new refl here,
      counted_less start a who more,
      room here,
    )
    by_cases (inr more) (inr elsewhere) =
        same_bounds (elsewhere_spends start ip who table new refl elsewhere)
          (ap (spent start ip who) (if_false _ _ more)) refl
