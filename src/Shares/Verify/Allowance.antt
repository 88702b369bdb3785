-- ===== src/Shares/Verify/Allowance.antt =====
-- What an attempt takes of the allowance of its address.
use aird.Base.{
  ℕ, suc, ◌+◌, ◌≤◌, ◌≡◌, refl, sym, ap, subst, inl, inr, Bool, true, Bool-cases, Option, none, some,
  leb, arith, if_true, if_false,
}
use aird.Base.Text.{Text, text_eqb, text_eqb→eq}
use aird.Shares.Verify.{
  Attempts, AttemptTable, rate_limit_window, max_attempts, is_past, drop_stale, find_attempts,
  or_first, restarted, counted, check_rate_limit,
}
use aird.Shares.Verify.Entries.{
  is_distinct, drop_stale-distinct, put_attempts-distinct, le_refl, same_bounds,
}
use aird.Shares.Verify.Spending.{
  allowance, le_trans, drop_stale-allowance, spent, counted-allowance,
}

pub restart_room :
    (start now : ℕ) (a : Attempts)
    → start ≤ now
    → now ≤ start + rate_limit_window
    → is_past now a.timestamp ≡ true
    → allowance start (some (record a { attempts = 0; timestamp = now })) ≤ allowance start (some a)
restart_room start now a early late past = ground arith

pub restarted-allowance :
    (start now : ℕ) (a : Attempts)
    → start ≤ now
    → now ≤ start + rate_limit_window
    → allowance start (some (restarted now a)) ≤ allowance start (some a)
restarted-allowance start now a early late = elim (Bool-cases (is_past now a.timestamp)) [
  | inl past ↦
      same_bounds (restart_room start now a early late past)
        (ap (λ b. allowance start (some b)) (if_true _ _ past)) refl
  | inr current ↦
      same_bounds le_refl (ap (λ b. allowance start (some b)) (if_false _ _ current)) refl
]

pub or_first-allowance :
    (start now : ℕ) (ip : Text) (o : Option Attempts)
    → start ≤ now
    → allowance start (some (or_first ip now o)) ≤ allowance start o
or_first-allowance start now ip none early = ground arith
or_first-allowance start now ip (some a) early = omega arith

-- Within a window, an attempt that is let through is one fewer of the allowance of its address.
pub check_rate_limit-allowance :
    (start now : ℕ) (ip who : Text) (table : AttemptTable)
    → start ≤ now
    → now ≤ start + rate_limit_window
    → is_distinct table ≡ true
    → spent start ip who (check_rate_limit now who table) ≤ allowance start (find_attempts ip table)
unfolding check_rate_limit
check_rate_limit-allowance start now ip who table early late h =
    le_trans (counted-allowance start ip who fresh entry room)
      (drop_stale-allowance start now ip table late h)
  where
    fresh : AttemptTable
    fresh = drop_stale now table

    entry : Attempts
    entry = restarted now (or_first who now (find_attempts who fresh))

    room :
        text_eqb who ip ≡ true
        → allowance start (some entry) ≤ allowance start (find_attempts ip fresh)
    room here =
        le_trans
          (le_trans
            (restarted-allowance start now (or_first who now (find_attempts who fresh)) early late)
            (or_first-allowance start now who (find_attempts who fresh) early))
          (same_bounds le_refl
            (ap (λ t. allowance start (find_attempts t fresh)) (text_eqb→eq who ip here)) refl)

one_le : (n : ℕ) → leb 1 (suc n) ≡ true
one_le n = ground arith

pub check_rate_limit-distinct :
    (now : ℕ) (who : Text) (table : AttemptTable)
    → is_distinct table ≡ true
    → is_distinct (check_rate_limit now who table).1 ≡ true
unfolding check_rate_limit
check_rate_limit-distinct now who table h =
    counted_distinct (drop_stale now table)
      (restarted now (or_first who now (find_attempts who (drop_stale now table))))
      (drop_stale-distinct now table h)
  where
    counted_distinct :
        (fresh : AttemptTable) (a : Attempts)
        → is_distinct fresh ≡ true
        → is_distinct (counted who fresh a).1 ≡ true
    counted_distinct fresh a k = elim (Bool-cases (leb max_attempts a.attempts)) [
      | inl full ↦
          subst (λ (p : Bool × AttemptTable). is_distinct p.1 ≡ true) (sym (if_true _ _ full)) k
      | inr more ↦
          subst (λ (p : Bool × AttemptTable). is_distinct p.1 ≡ true) (sym (if_false _ _ more))
            (put_attempts-distinct
              (record { ip = who; attempts = suc a.attempts; timestamp = a.timestamp }) fresh k
              (one_le a.attempts))
    ]
