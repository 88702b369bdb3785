-- ===== src/Shares/Update/Examples.antt =====
-- An update by an editor and by the owner, and the theorem at the first.
use aird.Shares.Paths.{with_slashes}
use aird.Shares.Creator.{login_matches}
use aird.Base.{◌≡◌, refl, true, false, none, some, [], ◌∷◌}
use aird.Base.Text.{starts_with, strip, is_empty, text_eqb, codes}
use aird.Shares.Table.{update_share, NewShare, Shares, insert_share, get_share_by_id}
use aird.Shares.Table.Laws.{type_read, users_read, share_of_new}
use aird.Shares.Owner.{User, is_share_owner}
use aird.Shares.Entries.{downloaded, local}
use aird.Shares.Update.{changes_of, Update, Site, perform_share_update, revoke_share}
use aird.Shares.Update.Editors.{EditorChange, perform_share_update-EditorChange}

abbrev docs : NewShare
docs = record {
  id = codes "s1";
  created = codes "today";
  paths = codes "a.txt" ∷ [];
  allowed_users = [];
  modify_users = codes "bob" ∷ [];
  secret_token = some (codes "key");
  share_type = codes "static";
  allow_list = [];
  avoid_list = [];
  expiry_date = none;
  tag_name = none;
  created_by = some (codes "ann");
}

abbrev table : Shares
table = insert_share docs []

abbrev site : Site
site = record {
  download = λ sid items. downloaded [];
  is_valid = λ body. true;
  has_path = λ share_type path. true;
  fresh_token = codes "new";
}

abbrev bob : User
bob = record { is_admin = false; username = some (codes "bob") }

abbrev ann : User
ann = record { is_admin = false; username = some (codes "ann") }

-- New paths, and the token taken away.
abbrev wish : Update
wish = record {
  share_id = codes "s1";
  share_type = none;
  remove_files = none;
  paths = some (some (local (codes " b.txt ") ∷ local (codes "b.txt") ∷ []));
  allowed_users = none;
  modify_users = none;
  disable_token = some true;
  rotate_token = false;
  allow_list = none;
  avoid_list = none;
  expiry_date = none;
}

found : get_share_by_id (codes "s1") table ≡ some (share_of_new docs)
unfolding get_share_by_id insert_share share_of_new text_eqb users_read type_read is_empty
found = refl

stranger : is_share_owner bob (share_of_new docs) ≡ false
unfolding is_share_owner share_of_new is_empty strip login_matches text_eqb
stranger = refl

test_editor :
    get_share_by_id (codes "s1") (perform_share_update site bob wish table).1
    ≡ some (share_of_new (record docs { paths = codes "b.txt" ∷ [] }))
unfolding perform_share_update get_share_by_id insert_share share_of_new is_empty text_eqb strip
    login_matches starts_with with_slashes update_share changes_of users_read type_read
test_editor = refl

test_owner :
    get_share_by_id (codes "s1") (perform_share_update site ann wish table).1
    ≡ some (share_of_new (record docs { paths = codes "b.txt" ∷ []; secret_token = none }))
unfolding perform_share_update get_share_by_id insert_share share_of_new is_empty text_eqb strip
    login_matches starts_with with_slashes update_share changes_of users_read type_read
test_owner = refl

test_revoke : revoke_share bob (codes "s1") table ≡ (403, table)
unfolding revoke_share insert_share is_empty strip get_share_by_id text_eqb login_matches
test_revoke = refl

perform_share_update-EditorChange_example :
    EditorChange bob
      (share_of_new docs)
      (codes "s1")
      table
      (perform_share_update site bob wish table).1
perform_share_update-EditorChange_example =
    perform_share_update-EditorChange site bob (share_of_new docs) wish table found stranger
