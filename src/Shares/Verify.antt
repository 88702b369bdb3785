-- ===== src/Shares/Verify.antt =====
-- The verification of tokens: `TokenVerificationHandler` of aird/handlers/share_handlers.py, with
-- its limit of attempts. Times are whole microseconds.
pub mod Entries
pub mod Spending
pub mod Allowance
pub mod Limit
pub mod Opens
use aird.Base.{
  ℕ, suc, ◌+◌, ◌*◌, Bool, true, false, not, ◌&&◌, Option, none, some, List, [], ◌∷◌, length, ltb,
  leb, if◌then◌else◌,
}
use aird.Base.Text.{Text, text_eqb, strip, is_empty}
use aird.Shares.Table.{Shares, Share, get_share_by_id}
use aird.Shares.Access.{is_ascii}

-- An entry of `_TOKEN_VERIFY_ATTEMPTS`.
pub record Attempts : Type 0 where
  pub ip : Text
  pub attempts : ℕ
  pub timestamp : ℕ

abbrev pub AttemptTable : Type 0
AttemptTable = List Attempts

abbrev pub rate_limit_window : ℕ
rate_limit_window = 300 * 1000000

abbrev pub max_attempts : ℕ
max_attempts = 10

abbrev pub is_past : ℕ → ℕ → Bool
is_past now timestamp = ltb (timestamp + rate_limit_window) now

-- The entries that are not stale.
unfoldable pub drop_stale : ℕ → AttemptTable → AttemptTable
drop_stale now [] = []
drop_stale now (a ∷ as') =
    let rest = drop_stale now as' in if is_past now a.timestamp then rest else a ∷ rest

unfoldable pub find_attempts : Text → AttemptTable → Option Attempts
find_attempts ip [] = none
find_attempts ip (a ∷ as') =
    let rest = find_attempts ip as' in if text_eqb a.ip ip then some a else rest

unfoldable pub put_attempts : Attempts → AttemptTable → AttemptTable
put_attempts new [] = new ∷ []
put_attempts new (a ∷ as') =
    let rest = put_attempts new as' in if text_eqb a.ip new.ip then new ∷ as' else a ∷ rest

abbrev pub or_first : Text → ℕ → Option Attempts → Attempts
or_first ip now none = record { ip = ip; attempts = 0; timestamp = now }
or_first ip now (some a) = a

abbrev pub restarted : ℕ → Attempts → Attempts
restarted now a = if is_past now a.timestamp then record a { attempts = 0; timestamp = now } else a

abbrev pub counted : Text → AttemptTable → Attempts → Bool × AttemptTable
counted ip table a = if leb max_attempts a.attempts then (false, table) else (
  true,
  put_attempts (record { ip = ip; attempts = suc a.attempts; timestamp = a.timestamp }) table,
)

-- `_check_rate_limit`.
unfoldable pub check_rate_limit : ℕ → Text → AttemptTable → Bool × AttemptTable
unfolding drop_stale find_attempts put_attempts
check_rate_limit now ip table =
    let fresh = drop_stale now table in
    counted ip fresh (restarted now (or_first ip now (find_attempts ip fresh)))

-- The body of a post: too large, with a token that is no text, or with this token, where none is
-- the empty one.
pub data TokenBody : Type 0 where
  too_large : TokenBody
  not_text : TokenBody
  token : Text → TokenBody

pub data VerifyAnswer : Type 0 where
  error : ℕ → VerifyAnswer
  success : VerifyAnswer
  success_with_cookie : Text → VerifyAnswer

abbrev pub access_token_max_len : ℕ
access_token_max_len = 16 * 1024

abbrev pub compare_token : Text → Text → VerifyAnswer
compare_token provided stored =
    if is_empty stored
    then success
    else if is_empty provided
    then error 400
    else if not (is_ascii provided && is_ascii stored)
    then error 500
    else if text_eqb provided stored
    then success_with_cookie provided
    else error 403

abbrev pub or_no_token : Option Text → Text
or_no_token none = []
or_no_token (some t) = t

abbrev pub verify_text : Share → Text → VerifyAnswer
verify_text share provided =
    if ltb access_token_max_len (length provided)
    then error 400
    else compare_token provided (or_no_token share.secret_token)

unfoldable pub verify_token : Share → TokenBody → VerifyAnswer
verify_token share too_large = error 413
verify_token share not_text = error 500
verify_token share (token t) = verify_text share (strip t)

abbrev pub verify_found : TokenBody → Option Share → VerifyAnswer
verify_found body none = error 404
verify_found body (some share) = verify_token share body

abbrev pub answered : VerifyAnswer → Bool × AttemptTable → VerifyAnswer × AttemptTable
answered answer (true, table) = (answer, table)
answered answer (false, table) = (error 429, table)

-- `TokenVerificationHandler.post`.
unfoldable pub post_token :
    Shares → ℕ → Text → Text → TokenBody → AttemptTable → VerifyAnswer × AttemptTable
unfolding check_rate_limit verify_token
post_token shares now ip sid body table =
    answered (verify_found body (get_share_by_id sid shares)) (check_rate_limit now ip table)
