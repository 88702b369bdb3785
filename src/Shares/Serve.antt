-- ===== src/Shares/Serve.antt =====
-- The pages of a share: `SharedListHandler.get` and `SharedFileHandler.get` of
-- aird/handlers/share_handlers.py, with the cover test of aird/db/shares.py.
pub mod Guards
pub mod Laws
use aird.Base.{
  ℕ, Bool, false, not, ◌&&◌, ◌||◌, Option, none, some, List, [], ◌∷◌, any, if◌then◌else◌,
}
use aird.Base.Text.{Text, text_eqb, codes, starts_with}
use aird.Shares.Table.{Shares, Share, get_share_by_id, is_share_expired}
use aird.Shares.Access.{
  ShareRequest, Access, allowed, ask_token, refused, raised, check_share_access, Modify,
  is_user_allowed_for_modify,
}
use aird.Shares.Paths.{
  slash, dots, with_slashes, lstrip_slashes, normpath, should_include, covers_static_path,
}

-- The clock and the disk. A path of a share is relative to the root of the share.
pub record World : Type 0 where
  pub now : ℕ
  pub instant : Text → Option ℕ
  pub glob : Text → Text → Bool
  pub within_root : Share → Text → Bool
  pub within_folder : Share → Text → Text → Bool
  pub is_dir : Share → Text → Bool
  pub is_file : Share → Text → Bool
  pub covers_by_tag : Share → Text → Bool
  pub file_list : Share → List Text

abbrev pub includes : World → Share → Text → Bool
includes w share path = should_include w.glob share.allow_list share.avoid_list path

-- One round of the loop of `_share_covers_dynamic_path`.
unfoldable pub covers_from : World → Share → Text → Text → Bool
covers_from w share path folder =
    if not (w.within_root share path)
    then false
    else if w.is_dir share folder && w.within_folder share path folder
    then includes w share path
    else w.is_file share folder
      && text_eqb (with_slashes folder) (with_slashes path)
      && includes w share path

unfoldable pub covers_dynamic_path : World → Share → Text → Bool
unfolding covers_from
covers_dynamic_path w share path = any (λ folder. covers_from w share path folder) share.paths

-- `share_covers_relative_path`.
unfoldable pub is_path_in_share : World → Share → Text → Bool
unfolding covers_dynamic_path covers_static_path
is_path_in_share w share path =
    if text_eqb share.share_type (codes "tag")
    then w.covers_by_tag share path
    else if text_eqb share.share_type (codes "dynamic")
    then covers_dynamic_path w share path
    else covers_static_path w.glob share path

pub data Page : Type 0 where
  status : ℕ → Page
  to_verify : Page
  server_error : Page
  listing : List Text → Modify → Page
  file : Share → Text → Page

-- What both handlers do first; `ask` is their answer where a token is needed.
abbrev pub after_access : Page → Access → Page → Page
after_access ask allowed page = page
after_access ask ask_token page = ask
after_access ask refused page = status 403
after_access ask raised page = server_error

unfoldable pub admitted : World → Share → ShareRequest → Page → Page → Page
admitted w share r ask page =
    if is_share_expired w.instant w.now share.expiry_date
    then status 410
    else after_access ask (check_share_access share r) page

abbrev pub with_share : (Share → Page) → Option Share → Page
with_share page none = status 404
with_share page (some share) = page share

unfoldable pub get_shared_list : World → Shares → Text → ShareRequest → Page
unfolding admitted
get_shared_list w shares sid r =
    with_share
      (λ share.
        admitted w share r to_verify
          (listing (w.file_list share) (is_user_allowed_for_modify share r.user)))
      (get_share_by_id sid shares)

unfoldable pub shared_file : World → Share → Text → Page
unfolding is_path_in_share
shared_file w share path =
    let rel = lstrip_slashes (with_slashes path) in
    let norm = normpath rel in
    if not (is_path_in_share w share path)
    then status 403
    else if starts_with dots norm || starts_with (slash ∷ []) norm
    then status 403
    else if not (text_eqb norm rel) && not (is_path_in_share w share norm)
    then status 403
    else if not (w.within_root share norm)
    then status 403
    else if not (w.is_file share norm)
    then status 404
    else file share norm

unfoldable pub get_shared_file : World → Shares → Text → Text → ShareRequest → Page
unfolding admitted shared_file
get_shared_file w shares sid path r =
    with_share (λ share. admitted w share r (status 403) (shared_file w share path))
      (get_share_by_id sid shares)
