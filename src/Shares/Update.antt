-- ===== src/Shares/Update.antt =====
-- Changing and revoking a share: `ShareUpdateHandler` and `ShareRevokeHandler` of
-- aird/handlers/share_handlers.py.
pub mod Editors
mod Examples
use aird.Base.{
  ℕ, Bool, true, false, not, ◌&&◌, ◌||◌, Option, none, some, List, [], ◌∷◌, ◌++◌, length, any, all,
  ltb, if◌then◌else◌,
}
use aird.Base.Text.{Text, text_eqb, codes, strip, is_empty, starts_with}
use aird.Shares.Paths.{with_slashes}
use aird.Shares.Table.{
  Shares, Share, ShareChanges, get_share_by_id, update_share, delete_share, or_nil, or_null_list,
}
use aird.Shares.Owner.{User, is_share_owner, can_edit_share_paths}
use aird.Shares.Entries.{
  downloaded, provider_error, download_failed, PathEntry, Download, local_paths, remote_items,
  dedupe_from,
}

-- The body of an update; `none` is a key that is not there, and an inner `none` is null.
pub record Update : Type 0 where
  pub share_id : Text
  pub share_type : Option Text
  pub remove_files : Option (List Text)
  pub paths : Option (Option (List PathEntry))
  pub allowed_users : Option (Option (List Text))
  pub modify_users : Option (Option (List Text))
  pub disable_token : Option Bool
  pub rotate_token : Bool
  pub allow_list : Option (Option (List Text))
  pub avoid_list : Option (Option (List Text))
  pub expiry_date : Option (Option Text)

abbrev pub has_key {ℓ} : {A : Type ℓ} → Option A → Bool
has_key none = false
has_key (some a) = true

-- The keys that an editor may send.
abbrev pub editor_part : Update → Update
editor_part body = record {
  share_id = body.share_id;
  share_type = none;
  remove_files = body.remove_files;
  paths = body.paths;
  allowed_users = none;
  modify_users = none;
  disable_token = none;
  rotate_token = false;
  allow_list = none;
  avoid_list = none;
  expiry_date = none;
}

-- `_share_update_payload_for_user`.
unfoldable pub payload_for_user : User → Share → Update → Option Update
unfolding is_share_owner can_edit_share_paths
payload_for_user user share body =
    if is_share_owner user share
    then some body
    else if not (can_edit_share_paths user share)
    then none
    else if has_key body.paths || has_key body.remove_files
    then some (editor_part body)
    else none

-- The validation of a body, the user's root, the cloud, and a new token.
pub record Site : Type 0 where
  pub download : Text → List ℕ → Download
  pub is_valid : Update → Bool
  pub has_path : Text → Text → Bool
  pub fresh_token : Text

abbrev pub cloud_share_folder : Text
cloud_share_folder = codes ".aird_cloud"

unfoldable pub is_cloud_relative_path : Text → Text → Bool
is_cloud_relative_path share_id path =
    starts_with (cloud_share_folder ++ codes "/" ++ share_id ++ codes "/") (with_slashes path)

-- Paths, or the status of an error.
pub data Parsed : Type 0 where
  parsed : List Text → Parsed
  failed : ℕ → Parsed

-- `_parse_paths_for_update`.
abbrev pub with_download : List Text → Download → Parsed
with_download paths (downloaded new) = parsed (dedupe_from [] (paths ++ new))
with_download paths provider_error = failed 400
with_download paths download_failed = failed 500

unfoldable pub parse_paths : Site → Text → Text → List PathEntry → Parsed
unfolding local_paths remote_items dedupe_from
parse_paths site share_id share_type entries =
    let items = remote_items entries in
    if text_eqb share_type (codes "dynamic") && not (is_empty items)
    then failed 400
    else if is_empty items
    then parsed (dedupe_from [] (local_paths entries))
    else with_download (local_paths entries) (site.download share_id items)

-- `_validate_update_local_paths`: a path exists below the user's root, as a folder in a dynamic
-- share.
unfoldable pub paths_valid : Site → Text → Text → List Text → Bool
unfolding is_cloud_relative_path
paths_valid site share_id share_type paths =
    all (λ p. is_cloud_relative_path share_id p || site.has_path share_type p) paths

-- `_apply_remove_files`, and then `_apply_paths_update`: the new paths if they change, or a status.
unfoldable pub without_paths : List Text → List Text → List Text
without_paths files [] = []
without_paths files (p ∷ ps) =
    let rest = without_paths files ps in if any (λ q. text_eqb q p) files then rest else p ∷ rest

unfoldable pub after_removal : Option (List Text) → List Text → Option (List Text)
unfolding without_paths
after_removal none current = none
after_removal (some []) current = none
after_removal (some (f ∷ fs)) current = some (without_paths (f ∷ fs) current)

pub data NewPaths : Type 0 where
  new_paths : Option (List Text) → NewPaths
  path_error : ℕ → NewPaths

abbrev pub checked_paths : Site → Text → Text → Parsed → NewPaths
checked_paths site share_id share_type (failed n) = path_error n
checked_paths site share_id share_type (parsed ps) =
    if paths_valid site share_id share_type ps then new_paths (some ps) else path_error 400

unfoldable pub paths_of_update : Site → Text → Share → Update → NewPaths
unfolding parse_paths paths_valid after_removal
paths_of_update site share_type share body = elim body.paths [
  | some (some entries) ↦
      checked_paths site body.share_id share_type
        (parse_paths site body.share_id share_type entries)
  | _ ↦ new_paths (after_removal body.remove_files share.paths)
]

-- `_build_token_update_fields`: the arguments `secret_token` and `disable_token` of `update_share`.
abbrev pub or_new : Option Text → Text → Text
or_new none fresh_token = fresh_token
or_new (some t) fresh_token = t

unfoldable pub token_fields : Option Bool → Bool → Option Text → Text → Option Text × Option Bool
token_fields (some true) rotate old fresh_token = (none, some true)
token_fields (some false) true old fresh_token = (some fresh_token, some false)
token_fields (some false) false old fresh_token = (some (or_new old fresh_token), some false)
token_fields none true old fresh_token = (some fresh_token, some false)
token_fields none false old fresh_token = (none, none)

abbrev pub users_column : Option (Option (List Text)) → Option (Option (List Text))
users_column none = none
users_column (some none) = some none
users_column (some (some l)) = some (or_null_list l)

abbrev pub given_list : Option (Option (List Text)) → Option (List Text)
given_list none = none
given_list (some l) = some (or_nil l)

-- `_compute_share_update_fields`.
unfoldable pub changes_of : Site → Share → Update → Option (List Text) → ShareChanges
unfolding token_fields
changes_of site share body paths =
    let tokens =
      token_fields body.disable_token body.rotate_token share.secret_token site.fresh_token in
    record {
      share_type = body.share_type;
      disable_token = tokens.1;
      secret_token = tokens.0;
      allow_list = given_list body.allow_list;
      avoid_list = given_list body.avoid_list;
      expiry_date = body.expiry_date;
      tag_name = none;
      allowed_users = users_column body.allowed_users;
      modify_users = users_column body.modify_users;
      paths = paths;
    }

-- `_validate_share_type_change`: whether it is refused.
abbrev pub names_paths : Update → Bool
names_paths body =
    elim body.paths [ some (some entries) ↦ true | _ ↦ false ]
    || elim body.remove_files [ none ↦ false | some files ↦ not (is_empty files) ]

unfoldable pub type_refused : Text → Share → Update → Bool
unfolding is_cloud_relative_path
type_refused share_type share body =
    (text_eqb share_type (codes "tag") && names_paths body)
    || (text_eqb share_type (codes "dynamic")
        && any (λ p. is_cloud_relative_path body.share_id p) share.paths)

-- `_execute_share_update` with `_apply_db_update`; a status, and the table.
abbrev pub updated_reply : Bool × Shares → ℕ × Shares
updated_reply (true, shares) = (200, shares)
updated_reply (false, shares) = (500, shares)

abbrev pub write_update : Site → Share → Update → Shares → NewPaths → ℕ × Shares
write_update site share body shares (path_error n) = (n, shares)
write_update site share body shares (new_paths paths) =
    updated_reply
      (update_share (changes_of site share body paths) site.fresh_token body.share_id shares)

abbrev pub or_type : Option Text → Text → Text
or_type none old = old
or_type (some t) old = t

unfoldable pub execute_share_update : Site → Share → Update → Shares → ℕ × Shares
unfolding type_refused paths_of_update
execute_share_update site share body shares =
    let share_type = or_type body.share_type share.share_type in
    if type_refused share_type share body
    then (400, shares)
    else write_update site share body shares (paths_of_update site share_type share body)

abbrev pub execute_payload : Site → Share → Shares → Option Update → ℕ × Shares
execute_payload site share shares none = (403, shares)
execute_payload site share shares (some body) = execute_share_update site share body shares

abbrev pub update_found : Site → User → Update → Shares → Option Share → ℕ × Shares
update_found site user body shares none = (404, shares)
update_found site user body shares (some share) =
    execute_payload site share shares (payload_for_user user share body)

-- `ShareUpdateHandler._perform_share_update`.
unfoldable pub perform_share_update : Site → User → Update → Shares → ℕ × Shares
unfolding execute_share_update payload_for_user
perform_share_update site user body shares =
    if not (site.is_valid body)
    then (400, shares)
    else if is_empty body.share_id
    then (400, shares)
    else update_found site user body shares (get_share_by_id body.share_id shares)

abbrev pub share_id_max_len : ℕ
share_id_max_len = 128

abbrev pub revoke_found : User → Text → Shares → Option Share → ℕ × Shares
revoke_found user sid shares none = (404, shares)
revoke_found user sid shares (some share) =
    if not (is_share_owner user share) then (403, shares) else (200, delete_share sid shares)

-- `ShareRevokeHandler.post`, for a user who may do it and with sharing on.
unfoldable pub revoke_share : User → Text → Shares → ℕ × Shares
unfolding is_share_owner
revoke_share user id shares =
    let sid = strip id in
    if is_empty sid
    then (400, shares)
    else if ltb share_id_max_len (length sid)
    then (400, shares)
    else revoke_found user sid shares (get_share_by_id sid shares)
