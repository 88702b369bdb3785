-- ===== src/Shares/Verify/Limit.antt =====
-- How many posts of an address the limit lets through.
use aird.Base.{
  ℕ, ◌+◌, ◌-◌, ◌*◌, ◌≤◌, ◌≡◌, refl, sym, ap, subst, inl, inr, Bool, true, false, not, Bool-cases,
  Option, some, List, [], ◌∷◌, All, leb, eqb, arith, if◌then◌else◌, if_true, if_false,
}
use aird.Base.Text.{Text, text_eqb}
use aird.Shares.Table.{Shares, get_share_by_id}
use aird.Shares.Verify.{
  Attempts, AttemptTable, rate_limit_window, max_attempts, find_attempts, check_rate_limit,
  TokenBody, VerifyAnswer, error, answered, verify_found, post_token,
}
use aird.Shares.Verify.Entries.{is_distinct, same_bounds}
use aird.Shares.Verify.Spending.{allowance, le_trans, none_distinct, charge, spent}
use aird.Shares.Verify.Allowance.{check_rate_limit-allowance, check_rate_limit-distinct}

-- A post to the verification page.
pub record Guess : Type 0 where
  pub now : ℕ
  pub ip : Text
  pub sid : Text
  pub body : TokenBody

abbrev is_limited : VerifyAnswer → Bool
is_limited (error n) = eqb n 429
is_limited _ = false

-- The table after some posts, and how many posts of an address are not turned away by the limit.
unfoldable pub after_posts : Shares → List Guess → AttemptTable → AttemptTable
after_posts shares [] table = table
after_posts shares (g ∷ gs) table =
    after_posts shares gs (post_token shares g.now g.ip g.sid g.body table).1

unfoldable pub count_heard : Shares → Text → List Guess → AttemptTable → ℕ
count_heard shares ip [] table = 0
count_heard shares ip (g ∷ gs) table =
    charge (text_eqb g.ip ip) (not (is_limited (post_token shares g.now g.ip g.sid g.body table).0))
    + count_heard shares ip gs (post_token shares g.now g.ip g.sid g.body table).1

answered-table :
    (answer : VerifyAnswer) (result : Bool × AttemptTable) → (answered answer result).1 ≡ result.1
answered-table answer (true, table) = refl
answered-table answer (false, table) = refl

charge_le : (here heard : Bool) → charge here heard ≤ charge here true
charge_le here heard = ground arith

answered-spends :
    (start : ℕ) (ip who : Text) (answer : VerifyAnswer) (result : Bool × AttemptTable)
    → charge (text_eqb who ip) (not (is_limited (answered answer result).0))
        + allowance start (find_attempts ip (answered answer result).1)
      ≤ spent start ip who result
unfolding spent
answered-spends start ip who answer (true, table) =
    omega (arith, charge_le (text_eqb who ip) (not (is_limited answer)))
answered-spends start ip who answer (false, table) = omega arith

post_token-spends :
    (shares : Shares) (start : ℕ) (ip : Text) (g : Guess) (table : AttemptTable)
    → start ≤ g.now
    → g.now ≤ start + rate_limit_window
    → is_distinct table ≡ true
    → charge
          (text_eqb g.ip ip)
          (not (is_limited (post_token shares g.now g.ip g.sid g.body table).0))
        + allowance start (find_attempts ip (post_token shares g.now g.ip g.sid g.body table).1)
      ≤ allowance start (find_attempts ip table)
unfolding post_token
post_token-spends shares start ip g table early late h =
    le_trans
      (answered-spends start ip g.ip (verify_found g.body (get_share_by_id g.sid shares))
        (check_rate_limit g.now g.ip table))
      (check_rate_limit-allowance start g.now ip g.ip table early late h)

post_token-distinct :
    (shares : Shares) (g : Guess) (table : AttemptTable)
    → is_distinct table ≡ true
    → is_distinct (post_token shares g.now g.ip g.sid g.body table).1 ≡ true
unfolding post_token
post_token-distinct shares g table h =
    subst (λ t. is_distinct t ≡ true) (sym (answered-table _ (check_rate_limit g.now g.ip table)))
      (check_rate_limit-distinct g.now g.ip table h)

after_posts-distinct :
    (shares : Shares) (gs : List Guess) (table : AttemptTable)
    → is_distinct table ≡ true
    → is_distinct (after_posts shares gs table) ≡ true
unfolding after_posts
after_posts-distinct shares [] table h = h
after_posts-distinct shares (g ∷ gs) table h =
    after_posts-distinct shares gs _ (post_token-distinct shares g table h)

abbrev pub Within : ℕ → Guess → Type 0
Within start g = (start ≤ g.now) × (g.now ≤ start + rate_limit_window)

count_heard-allowance :
    (shares : Shares) (start : ℕ) (ip : Text) (gs : List Guess) (table : AttemptTable)
    → All (Within start) gs
    → is_distinct table ≡ true
    → count_heard shares ip gs table ≤ allowance start (find_attempts ip table)
unfolding count_heard
count_heard-allowance shares start ip [] table within h = omega arith
count_heard-allowance shares start ip (g ∷ gs) table ((early, late), within) h = omega (
  arith,
  post_token-spends shares start ip g table early late h,
  count_heard-allowance shares start ip gs _ within (post_token-distinct shares g table h),
)

entry_allowance :
    (start : ℕ) (ip : Text) (a : Attempts) (rest : Option Attempts)
    → leb 1 a.attempts ≡ true
    → allowance start rest + 1 ≤ 2 * max_attempts
    → allowance start (if text_eqb a.ip ip then some a else rest) + 1 ≤ 2 * max_attempts
entry_allowance start ip a rest once h = elim (Bool-cases (text_eqb a.ip ip)) [
  | inl here ↦ same_bounds (own once) (ap (λ o. allowance start o + 1) (if_true _ _ here)) refl
  | inr elsewhere ↦ same_bounds h (ap (λ o. allowance start o + 1) (if_false _ _ elsewhere)) refl
]
  where
    own : leb 1 a.attempts ≡ true → allowance start (some a) + 1 ≤ 2 * max_attempts
    own k = ground (arith, k)

allowance_le :
    (start : ℕ) (ip : Text) (table : AttemptTable)
    → is_distinct table ≡ true
    → allowance start (find_attempts ip table) + 1 ≤ 2 * max_attempts
unfolding find_attempts is_distinct
allowance_le start ip [] h = omega arith
allowance_le start ip (a ∷ as') h =
    entry_allowance start ip a (find_attempts ip as') (ground (arith, h))
      (allowance_le start ip as' (ground (arith, h)))

less_one : {n m : ℕ} → n ≤ m → m + 1 ≤ 2 * max_attempts → n ≤ 2 * max_attempts - 1
less_one h k = omega (arith, h, k)

-- After any posts, within any span of five minutes at most nineteen posts of an address get past
-- the limit, whatever the other addresses post.
pub count_heard_le :
    (shares : Shares) (earlier gs : List Guess) (start : ℕ) (ip : Text)
    → All (Within start) gs
    → count_heard shares ip gs (after_posts shares earlier []) ≤ 2 * max_attempts - 1
count_heard_le shares earlier gs start ip within =
    let kept = after_posts-distinct shares earlier [] none_distinct in
    less_one (count_heard-allowance shares start ip gs _ within kept)
      (allowance_le start ip (after_posts shares earlier []) kept)
