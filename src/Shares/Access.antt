-- ===== src/Shares/Access.antt =====
-- Who may open a share, and what its pages answer: the helpers, `SharedListHandler` and
-- `SharedFileHandler` of aird/handlers/share_handlers.py, with the paths as posixpath normalises
-- them.
pub mod Laws
use aird.Base.{
  ℕ, ◌+◌, Bool, true, not, ◌&&◌, ◌||◌, Option, none, some, [], ◌∷◌, ◌++◌, all, drop, ltb,
  if◌then◌else◌,
}
use aird.Base.Text.{Text, text_eqb, codes, strip, is_empty, starts_with}
use aird.Shares.Creator.{login_matches}
use aird.Shares.Table.{Share, or_nil, lists_user}

-- What `_get_cookie_username` finds in the cookie: text that is not JSON, a JSON object with what
-- stands under "username" as text, or the text of any other JSON value.
pub data UserCookie : Type 0 where
  missing : UserCookie
  not_json : Text → UserCookie
  object : Text → UserCookie
  value : Text → UserCookie

abbrev pub nonempty : Text → Option Text
nonempty t = if is_empty t then none else some t

unfoldable pub get_cookie_username : UserCookie → Option Text
get_cookie_username missing = none
get_cookie_username (not_json raw) = nonempty (strip raw)
get_cookie_username (object username) = nonempty (strip username)
get_cookie_username (value v) = nonempty (strip v)

-- A request: the cookie of the user, the header `Authorization`, and the cookie of the share.
pub record ShareRequest : Type 0 where
  pub user : UserCookie
  pub authorization : Text
  pub token_cookie : Option Text

abbrev pub bearer : Text
bearer = codes "Bearer "

unfoldable pub get_provided_token : ShareRequest → Option Text
get_provided_token r =
    if starts_with bearer r.authorization then some (drop 7 r.authorization) else r.token_cookie

-- `_share_has_user_acl`.
unfoldable pub has_user_acl : Share → Bool
has_user_acl share = elim share.allowed_users [
  | some users ↦ true
  | none ↦ not (is_empty (or_nil share.modify_users))
]

-- The answer of `_check_share_access`; `raised` is the `TypeError` of `compare_digest`, which
-- takes no text beyond ASCII.
pub data Access : Type 0 where
  allowed : Access
  ask_token : Access
  refused : Access
  raised : Access

unfoldable pub without_secret_token : Share → Access
unfolding has_user_acl
without_secret_token share = if has_user_acl share then refused else allowed

abbrev pub is_ascii : Text → Bool
is_ascii t = all (λ c. ltb c 128) t

abbrev pub compared : Text → Text → Access
compared provided secret =
    if is_ascii provided && is_ascii secret
    then (if text_eqb provided secret then allowed else ask_token)
    else raised

abbrev pub with_token : Option Text → Text → Access
with_token none secret = ask_token
with_token (some provided) secret =
    if is_empty provided then ask_token else compared provided secret

unfoldable pub with_secret : Share → Option Text → Access
unfolding without_secret_token
with_secret share provided = elim share.secret_token [
  | none ↦ without_secret_token share
  | some secret ↦ if is_empty secret then without_secret_token share else with_token provided secret
]

unfoldable pub is_member : Share → Text → Bool
is_member share username =
    login_matches share.created_by username
    || lists_user username (or_nil share.allowed_users)
    || lists_user username (or_nil share.modify_users)

unfoldable pub check_share_access : Share → ShareRequest → Access
unfolding is_member with_secret get_cookie_username get_provided_token
check_share_access share r = elim (get_cookie_username r.user) [
  | none ↦ with_secret share (get_provided_token r)
  | some username ↦
      if is_member share username then allowed else with_secret share (get_provided_token r)
]

-- `_is_user_allowed_for_modify`: whether, or the status.
pub data Modify : Type 0 where
  may_modify : Modify
  may_not : ℕ → Modify

unfoldable pub is_user_allowed_for_modify : Share → UserCookie → Modify
unfolding get_cookie_username
is_user_allowed_for_modify share cookie =
    let users = or_nil share.modify_users in
    if is_empty users then may_not 403 else elim (get_cookie_username cookie) [
      | none ↦ may_not 401
      | some username ↦ if lists_user username users then may_modify else may_not 403
    ]
