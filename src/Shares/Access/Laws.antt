-- ===== src/Shares/Access/Laws.antt =====
-- Who is let into a share.
use aird.Base.{
  ◌≡◌, refl, sym, ◌∙◌, ap, ◌↔◌, ◌⊎◌, inl, inr, Bool, true, false, not, Bool-cases, Option,
  Option-cases, none, some, arith, if◌then◌else◌, if_true, if_false,
}
use aird.Base.Text.{Text, text_eqb→eq, text_eqb_refl, is_empty}
use aird.Shares.Table.{Share}
use aird.Shares.Access.{
  ShareRequest, get_cookie_username, get_provided_token, has_user_acl, allowed,
  without_secret_token, is_ascii, with_token, with_secret, is_member, check_share_access,
}

abbrev pub has_token : Share → Bool
has_token share = elim share.secret_token [ none ↦ false | some t ↦ not (is_empty t) ]

-- The grounds on which a share is open to a request.
pub data Entitled (share : Share) (r : ShareRequest) : Type 0 where
  member :
      (username : Text)
      → get_cookie_username r.user ≡ some username
      → is_member share username ≡ true
      → Entitled share r
  unrestricted : has_token share ≡ false → has_user_acl share ≡ false → Entitled share r
  holds_token :
      (token : Text)
      → share.secret_token ≡ some token
      → is_empty token ≡ false
      → is_ascii token ≡ true
      → get_provided_token r ≡ some token
      → Entitled share r

sound_token :
    (share : Share) (r : ShareRequest) (secret : Text) (provided : Option Text)
    → share.secret_token ≡ some secret
    → is_empty secret ≡ false
    → get_provided_token r ≡ provided
    → with_token provided secret ≡ allowed
    → Entitled share r
sound_token share r secret none e some_secret p h = absurd (cc h)
sound_token share r secret (some t) e some_secret p h =
    holds_token secret e some_secret (ground (arith, h))
      (p ∙ ap some (text_eqb→eq t secret (ground (arith, h))))

-- What `with_secret` and `has_token` come to, by the token of the share.
data TokenCase (share : Share) : Type 0 where
  no_token :
      has_token share ≡ false
      → ((provided : Option Text) → with_secret share provided ≡ without_secret_token share)
      → TokenCase share
  secret_token :
      (secret : Text)
      → share.secret_token ≡ some secret
      → has_token share ≡ true
      → is_empty secret ≡ false
      → ((provided : Option Text) → with_secret share provided ≡ with_token provided secret)
      → TokenCase share

token_case : (share : Share) → TokenCase share
unfolding with_secret
token_case share = elim (Option-cases share.secret_token) [
  | inl e ↦ no_token (rw e) (λ provided. rw e)
  | inr (secret, e) ↦ given secret e (Bool-cases (is_empty secret))
]
  where
    given :
        (secret : Text)
        → share.secret_token ≡ some secret
        → (is_empty secret ≡ true) ⊎ (is_empty secret ≡ false)
        → TokenCase share
    given secret e (inl empty) =
        no_token (rw e (ap not empty)) (λ provided. rw e (if_true _ _ empty))
    given secret e (inr given_secret) =
        secret_token secret e (rw e (ap not given_secret)) given_secret
          (λ provided. rw e (if_false _ _ given_secret))

without-allowed :
    (share : Share) → without_secret_token share ≡ allowed → has_user_acl share ≡ false
unfolding without_secret_token
without-allowed share h = ground (arith, h)

allowed-without :
    (share : Share) → has_user_acl share ≡ false → without_secret_token share ≡ allowed
unfolding without_secret_token
allowed-without share h = if_false _ _ h

sound_secret :
    (share : Share) (r : ShareRequest)
    → with_secret share (get_provided_token r) ≡ allowed
    → Entitled share r
sound_secret share r h = elim (token_case share) [
  | no_token e w ↦ unrestricted e (without-allowed share (sym (w _) ∙ h))
  | secret_token secret e _ given w ↦
      sound_token share r secret (get_provided_token r) e given refl (sym (w _) ∙ h)
]

some_user :
    (share : Share) (r : ShareRequest) (username : Text)
    → get_cookie_username r.user ≡ some username
    → check_share_access share r
      ≡ (if is_member share username then allowed else with_secret share (get_provided_token r))
unfolding check_share_access
some_user share r username e = rw (e, check_share_access)

no_user :
    (share : Share) (r : ShareRequest)
    → get_cookie_username r.user ≡ none
    → check_share_access share r ≡ with_secret share (get_provided_token r)
unfolding check_share_access
no_user share r e = rw (e, check_share_access)

sound : (share : Share) (r : ShareRequest) → check_share_access share r ≡ allowed → Entitled share r
sound share r h = elim (Option-cases (get_cookie_username r.user)) [
  | inl e ↦ sound_secret share r (sym (no_user share r e) ∙ h)
  | inr (username, e) ↦ by_member username e (Bool-cases (is_member share username))
]
  where
    by_member :
        (username : Text)
        → get_cookie_username r.user ≡ some username
        → (is_member share username ≡ true) ⊎ (is_member share username ≡ false)
        → Entitled share r
    by_member username e (inl m) = member username e m
    by_member username e (inr m) =
        sound_secret share r (sym (some_user share r username e ∙ if_false _ _ m) ∙ h)

-- Who is let in without being a member is let in as a member too.
by_secret :
    (share : Share) (r : ShareRequest)
    → with_secret share (get_provided_token r) ≡ allowed
    → check_share_access share r ≡ allowed
by_secret share r h = elim (Option-cases (get_cookie_username r.user)) [
  | inl e ↦ no_user share r e ∙ h
  | inr (username, e) ↦
      some_user share r username e
      ∙ ap (λ a. if is_member share username then allowed else a) h
      ∙ ground arith
]

with_secret-some :
    (share : Share) (secret : Text) (provided : Option Text)
    → share.secret_token ≡ some secret
    → is_empty secret ≡ false
    → with_secret share provided ≡ with_token provided secret
unfolding with_secret
with_secret-some share secret provided e given = rw e (if_false _ _ given)

own_token :
    (token : Text)
    → is_empty token ≡ false
    → is_ascii token ≡ true
    → with_token (some token) token ≡ allowed
own_token token given ascii = ground (arith, given, ascii, text_eqb_refl token)

complete :
    (share : Share) (r : ShareRequest) → Entitled share r → check_share_access share r ≡ allowed
complete share r (member username e m) = some_user share r username e ∙ if_true _ _ m
complete share r (unrestricted e acl) = by_secret share r (elim (token_case share) [
  | no_token _ w ↦ w _ ∙ allowed-without share acl
  | secret_token _ _ has _ _ ↦ absurd (cc (e, has))
])
complete share r (holds_token token e given ascii p) = by_secret share r (
    with_secret-some share token _ e given
    ∙ ap (λ o. with_token o token) p
    ∙ own_token token given ascii)

-- A request is let into a share exactly on one of the grounds: it comes from the share's creator
-- or a user on one of its lists; the share has neither a token nor lists of users; or it carries
-- the share's token.
pub check_share_access-Entitled :
    (share : Share) (r : ShareRequest) → (check_share_access share r ≡ allowed) ↔ Entitled share r
check_share_access-Entitled share r = (sound share r, complete share r)
