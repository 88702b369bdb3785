-- ===== src/Shares/Create.antt =====
-- Making a share: `ShareCreateHandler.post` of aird/handlers/share_handlers.py and its helpers.
pub mod Laws
mod Examples
use aird.Base.{
  ℕ, Bool, true, false, not, ◌&&◌, ◌||◌, Option, none, some, List, [], ◌∷◌, ◌++◌, if◌then◌else◌,
}
use aird.Base.Text.{Text, text_eqb, codes, strip, is_empty}
use aird.Shares.Table.{Shares, NewShare, insert_share}
use aird.Shares.Entries.{
  PathEntry, local, cloud, other, remote_items, Download, downloaded, provider_error,
  download_failed, dedupe_from,
}

-- `ShareCreateRequest`.
pub record CreateRequest : Type 0 where
  pub paths : List PathEntry
  pub allowed_users : List Text
  pub modify_users : List Text
  pub share_type : Text
  pub allow_list : List Text
  pub avoid_list : List Text
  pub disable_token : Bool
  pub expiry_date : Option Text
  pub tag_name : Option Text

-- What stands at a path below the user's root: a file, a folder with all files in it, a folder
-- that cannot be read, or nothing; `outside` is a path that leaves the root.
pub data Found : Type 0 where
  a_file : Found
  folder : List Text → Found
  unreadable : Found
  nothing : Found
  outside : Found

-- The validation of the body's form, the user's root, the cloud, the clock and the random texts.
pub record CreateSite : Type 0 where
  pub is_valid : CreateRequest → Bool
  pub at : Text → Found
  pub download : Text → List ℕ → Download
  pub new_id : Text
  pub random_token : Text
  pub created : Text

abbrev pub is_dynamic : Text → Bool
is_dynamic share_type = text_eqb share_type (codes "dynamic")

-- `_add_local_path`: what a path adds to `valid_paths`, and to `dynamic_folders`.
unfoldable pub valid_from : Bool → Text → Found → List Text
valid_from dynamic path a_file = path ∷ []
valid_from true path (folder files) = []
valid_from false path (folder []) = path ∷ []
valid_from false path (folder (f ∷ fs)) = f ∷ fs
valid_from dynamic path unreadable = []
valid_from dynamic path nothing = []
valid_from dynamic path outside = []

unfoldable pub folders_from : Bool → Text → Found → List Text
folders_from true path (folder files) = path ∷ []
folders_from true path unreadable = path ∷ []
folders_from _ path _ = []

-- `_collect_paths_from_request`, for the one list and the other.
unfoldable pub collect : (Text → List Text) → List PathEntry → List Text
collect add [] = []
collect add (local t ∷ es) =
    let rest = collect add es in if is_empty (strip t) then rest else add (strip t) ++ rest
collect add (cloud i ∷ es) = collect add es
collect add (other ∷ es) = collect add es

pub data Resolved : Type 0 where
  final_paths : List Text → Resolved
  resolve_error : ℕ → Resolved

-- `_resolve_final_paths_dynamic`.
unfoldable pub resolve_dynamic : List Text → List ℕ → Resolved
resolve_dynamic folders (i ∷ items) = resolve_error 400
resolve_dynamic [] [] = resolve_error 400
resolve_dynamic (f ∷ fs) [] = final_paths (f ∷ fs)

-- `_resolve_final_paths_static`.
abbrev pub combined : List Text → Resolved
combined [] = resolve_error 400
combined (p ∷ ps) = final_paths (dedupe_from [] (p ∷ ps))

abbrev pub with_cloud : List Text → Download → Resolved
with_cloud valid (downloaded paths) = combined (valid ++ paths)
with_cloud valid provider_error = resolve_error 400
with_cloud valid download_failed = resolve_error 500

unfoldable pub resolve_static : CreateSite → List Text → List ℕ → Resolved
unfolding dedupe_from
resolve_static site valid [] = combined valid
resolve_static site valid (i ∷ items) = with_cloud valid (site.download site.new_id (i ∷ items))

-- `_resolve_share_paths` and `ShareCreateHandler._build_share_paths`.
unfoldable pub resolve_share_paths : CreateSite → CreateRequest → Resolved
unfolding collect valid_from folders_from resolve_dynamic resolve_static remote_items
resolve_share_paths site req =
    let items = remote_items req.paths in
    if is_dynamic req.share_type
    then resolve_dynamic (collect (λ p. folders_from true p (site.at p)) req.paths) items
    else resolve_static site (collect (λ p. valid_from false p (site.at p)) req.paths) items

unfoldable pub build_share_paths : CreateSite → CreateRequest → Resolved
unfolding resolve_share_paths
build_share_paths site req =
    if text_eqb req.share_type (codes "tag")
    then elim req.tag_name [ none ↦ resolve_error 400 | some t ↦ final_paths [] ]
    else resolve_share_paths site req

-- `_create_share_record`.
unfoldable pub new_share : CreateSite → Option Text → CreateRequest → List Text → NewShare
new_share site username req paths = record {
  id = site.new_id;
  created = site.created;
  paths = paths;
  allowed_users = req.allowed_users;
  modify_users = req.modify_users;
  secret_token = if req.disable_token then none else some site.random_token;
  share_type = req.share_type;
  allow_list = req.allow_list;
  avoid_list = req.avoid_list;
  expiry_date = req.expiry_date;
  tag_name = req.tag_name;
  created_by = username;
}

abbrev pub create_with : CreateSite → Option Text → CreateRequest → Shares → Resolved → ℕ × Shares
create_with site username req shares (resolve_error n) = (n, shares)
create_with site username req shares (final_paths paths) =
    (200, insert_share (new_share site username req paths) shares)

-- The body of a request, as `parse_json_body` and `from_payload` read it: over the limit of its
-- size, one that raises because it is no dictionary or a field is no list, or a request.
pub data CreateBody : Type 0 where
  too_long : CreateBody
  unusable : CreateBody
  request : CreateRequest → CreateBody

-- `ShareCreateHandler.post`, for a user who may share, with sharing on.
unfoldable pub post_share : CreateSite → Option Text → CreateBody → Shares → ℕ × Shares
unfolding build_share_paths new_share
post_share site username too_long shares = (413, shares)
post_share site username unusable shares = (500, shares)
post_share site username (request req) shares =
    if not (site.is_valid req)
    then (400, shares)
    else create_with site username req shares (build_share_paths site req)
