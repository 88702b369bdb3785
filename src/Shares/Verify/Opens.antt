-- ===== src/Shares/Verify/Opens.antt =====
-- A token that the page accepts opens the share.
use aird.Base.{
  ◌≡◌, refl, sym, ◌∙◌, ap, inl, inr, Bool, true, false, not, ◌&&◌, Bool-cases, Option-cases, some,
  length, ltb, if◌then◌else◌, if_true, if_false,
}
use aird.Base.Text.{Text, text_eqb, text_eqb→eq, is_empty, starts_with, strip}
use aird.Shares.Table.{Share}
use aird.Shares.Access.{
  ShareRequest, allowed, check_share_access, get_provided_token, bearer, is_ascii,
}
use aird.Shares.Access.Laws.{holds_token, check_share_access-Entitled}
use aird.Shares.Verify.{
  TokenBody, too_large, not_text, token, VerifyAnswer, error, success, success_with_cookie,
  compare_token, or_no_token, verify_token, access_token_max_len,
}

is_cookie : VerifyAnswer → Bool
is_cookie (success_with_cookie t) = true
is_cookie _ = false

past_guard :
    (b : Bool) (x y : VerifyAnswer) (cookie : Text)
    → is_cookie x ≡ false
    → (if b then x else y) ≡ success_with_cookie cookie
    → (b ≡ false) × (y ≡ success_with_cookie cookie)
unfolding is_cookie
past_guard true x y cookie plain h = absurd (cc (sym plain ∙ ap is_cookie h))
past_guard false x y cookie plain h = (refl, h)

both : (b c : Bool) → not (b && c) ≡ false → (b ≡ true) × (c ≡ true)
both true true h = (refl, refl)
both true false h = absurd (cc h)
both false c h = absurd (cc h)

last_test :
    (provided stored cookie : Text)
    → (if text_eqb provided stored then success_with_cookie provided else error 403)
      ≡ success_with_cookie cookie
    → (provided ≡ stored) × (provided ≡ cookie)
last_test provided stored cookie h = elim (Bool-cases (text_eqb provided stored)) [
  | inl same ↦ (text_eqb→eq provided stored same, cc (sym (if_true _ _ same) ∙ h))
  | inr other ↦ absurd (
      cc (
        sym
          (if_false {b = text_eqb provided stored} (success_with_cookie provided) (error 403) other)
        ∙ h))
]

compare_token-cookie :
    (provided stored cookie : Text)
    → compare_token provided stored ≡ success_with_cookie cookie
    → (is_empty stored ≡ false) × (is_ascii stored ≡ true) × (stored ≡ cookie)
unfolding is_cookie
compare_token-cookie provided stored cookie h =
    let (given, after_stored) = past_guard (is_empty stored) success _ cookie refl h in
    let (_, after_empty) = past_guard (is_empty provided) (error 400) _ cookie refl after_stored in
    let (ascii, after_ascii) =
      past_guard (not (is_ascii provided && is_ascii stored)) (error 500) _ cookie refl
        after_empty in
    let (_, stored_ascii) = both _ _ ascii in
    let (same, named) = last_test provided stored cookie after_ascii in
    (given, stored_ascii, sym same ∙ named)

verify_token-cookie :
    (share : Share) (body : TokenBody) (cookie : Text)
    → verify_token share body ≡ success_with_cookie cookie
    → let stored = or_no_token share.secret_token in
      (is_empty stored ≡ false) × (is_ascii stored ≡ true) × (stored ≡ cookie)
unfolding verify_token is_cookie
verify_token-cookie share too_large cookie h = absurd (cc h)
verify_token-cookie share not_text cookie h = absurd (cc h)
verify_token-cookie share (token t) cookie h =
    let (_, compared) =
      past_guard (ltb access_token_max_len (length (strip t))) (error 400) _ cookie refl h in
    compare_token-cookie (strip t) (or_no_token share.secret_token) cookie compared

stored_token :
    (share : Share)
    → is_empty (or_no_token share.secret_token) ≡ false
    → share.secret_token ≡ some (or_no_token share.secret_token)
unfolding is_empty
stored_token share given = elim (Option-cases share.secret_token) [
  | inl e ↦ absurd (cc (sym (ap (λ o. is_empty (or_no_token o)) e) ∙ given))
  | inr (t, e) ↦ e ∙ ap some (ap or_no_token (sym e))
]

cookie_provided :
    (r : ShareRequest) (t : Text)
    → starts_with bearer r.authorization ≡ false
    → r.token_cookie ≡ some t
    → get_provided_token r ≡ some t
unfolding get_provided_token
cookie_provided r t no_header e = if_false _ _ no_header ∙ e

-- The cookie that the verification page sets opens its share to any request that carries it and
-- has no bearer token of its own.
pub verify_token-allowed :
    (share : Share) (body : TokenBody) (cookie : Text) (r : ShareRequest)
    → verify_token share body ≡ success_with_cookie cookie
    → r.token_cookie ≡ some cookie
    → starts_with bearer r.authorization ≡ false
    → check_share_access share r ≡ allowed
verify_token-allowed share body cookie r h e no_header =
    let (given, ascii, named) = verify_token-cookie share body cookie h in
    (check_share_access-Entitled share r).1 (
      holds_token (or_no_token share.secret_token) (stored_token share given) given ascii
        (cookie_provided r (or_no_token share.secret_token) no_header (e ∙ ap some (sym named))))
