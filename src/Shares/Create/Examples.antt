-- ===== src/Shares/Create/Examples.antt =====
-- Shares that are made and refused, and the theorem at one of them.
use aird.Base.{◌≡◌, refl, true, false, none, some, [], ◌∷◌, if◌then◌else◌}
use aird.Base.Text.{Text, codes, text_eqb, is_empty, strip}
use aird.Shares.Access.{ShareRequest, object}
use aird.Shares.Entries.{downloaded, local, cloud}
use aird.Shares.Create.{
  request, CreateRequest, CreateSite, a_file, folder, nothing, build_share_paths, final_paths,
  post_share,
}

abbrev site : CreateSite
site = record {
  is_valid = λ req. true;
  at = λ path.
      if text_eqb path (codes "a")
      then a_file
      else if text_eqb path (codes "d")
      then folder (codes "a" ∷ [])
      else nothing;
  download = λ sid items. downloaded [];
  new_id = codes "s1";
  random_token = codes "key";
  created = codes "today";
}

abbrev wish : CreateRequest
wish = record {
  paths = local (codes " a ") ∷ local (codes "d") ∷ [];
  allowed_users = [];
  modify_users = [];
  share_type = codes "static";
  allow_list = [];
  avoid_list = [];
  disable_token = false;
  expiry_date = none;
  tag_name = none;
}

abbrev ann : Text
ann = codes "ann"

abbrev visit : ShareRequest
visit = record { user = object ann; authorization = []; token_cookie = none }

-- The file is named twice and stands once.
test_paths : build_share_paths site wish ≡ final_paths (codes "a" ∷ [])
unfolding build_share_paths text_eqb is_empty strip
test_paths = refl

test_no_folder :
    post_share site
      (some ann)
      (request (record wish { paths = local (codes "a") ∷ []; share_type = codes "dynamic" }))
      []
    ≡ (400, [])
unfolding post_share text_eqb is_empty strip
test_no_folder = refl

test_cloud :
    post_share site
      (some ann)
      (request
        (record wish { paths = cloud 1 ∷ local (codes "d") ∷ []; share_type = codes "dynamic" }))
      []
    ≡ (400, [])
unfolding post_share text_eqb
test_cloud = refl
