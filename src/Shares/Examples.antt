-- ===== src/Shares/Examples.antt =====
-- A table of shares with its pages, and the theorems at it.
use aird.Shares.Creator.{login_matches}
use aird.Base.{
  ℕ, ◌*◌, ◌-◌, ◌≤◌, ◌≡◌, ◌↔◌, refl, true, false, none, some, Option, List, [], ◌∷◌, ◌++◌, arith,
  if◌then◌else◌,
}
use aird.Base.Text.{strip, is_empty, Text, codes, text_eqb, starts_with}
use aird.Shares.Table.{
  is_share_expired, NewShare, Shares, insert_share, get_share_by_id, cleanup_expired_shares,
}
use aird.Shares.Table.Laws.{type_read, users_read, share_of_new, get_share_by_id-insert_share}
use aird.Shares.Table.Keys.{is_keyed, unexpired, get_share_by_id-cleanup_expired_shares}
use aird.Shares.Access.{bearer, ShareRequest, missing, object, allowed, check_share_access}
use aird.Shares.Access.Laws.{Entitled, check_share_access-Entitled}
use aird.Shares.Serve.{status, World, get_shared_file, file}
use aird.Shares.Serve.Laws.{Opens, Serves, get_shared_file-Serves}
use aird.Shares.Verify.{post_token, token, verify_token, success_with_cookie, max_attempts}
use aird.Shares.Verify.Limit.{Guess, after_posts, count_heard, count_heard_le}
use aird.Shares.Verify.Opens.{verify_token-allowed}

abbrev docs : NewShare
docs = record {
  id = codes "s1";
  created = codes "today";
  paths = codes "docs/a.txt" ∷ [];
  allowed_users = [];
  modify_users = codes "bob" ∷ [];
  secret_token = some (codes "key");
  share_type = codes "static";
  allow_list = [];
  avoid_list = [];
  expiry_date = some (codes "never");
  tag_name = none;
  created_by = some (codes "ann (Admin)");
}

abbrev old : NewShare
old = record docs { id = codes "s2"; expiry_date = some (codes "past") }

abbrev table : Shares
table = insert_share old (insert_share docs [])

abbrev instant : Text → Option ℕ
instant t = if text_eqb t (codes "past") then some 5 else none

abbrev world : World
world = record {
  now = 9;
  instant = instant;
  glob = λ path pattern. text_eqb path pattern;
  within_root = λ share path. true;
  within_folder = λ share path folder. false;
  is_dir = λ share path. false;
  is_file = λ share path. text_eqb path (codes "docs/a.txt");
  covers_by_tag = λ share path. false;
  file_list = λ share. share.paths;
}

abbrev bob : ShareRequest
bob = record { user = object (codes "bob"); authorization = []; token_cookie = none }

abbrev guest : ShareRequest
guest = record { user = missing; authorization = []; token_cookie = some (codes "key") }

get_share_by_id-insert_share_example : get_share_by_id (codes "s2") table ≡ (
    if text_eqb (codes "s2") (codes "s2")
    then some (share_of_new old)
    else get_share_by_id (codes "s2") (insert_share docs []))
get_share_by_id-insert_share_example =
    get_share_by_id-insert_share old (insert_share docs []) (codes "s2")

table_keyed : is_keyed table ≡ true
unfolding insert_share is_keyed text_eqb
table_keyed = refl

get_share_by_id-cleanup_expired_shares_example :
    get_share_by_id (codes "s2") (cleanup_expired_shares instant 9 table)
    ≡ unexpired instant 9 (get_share_by_id (codes "s2") table)
get_share_by_id-cleanup_expired_shares_example =
    get_share_by_id-cleanup_expired_shares instant 9 (codes "s2") table table_keyed

test_cleanup : get_share_by_id (codes "s2") (cleanup_expired_shares instant 9 table) ≡ none
unfolding get_share_by_id cleanup_expired_shares insert_share text_eqb
test_cleanup = refl

check_share_access-Entitled_example :
    (check_share_access (share_of_new docs) bob ≡ allowed) ↔ Entitled (share_of_new docs) bob
check_share_access-Entitled_example = check_share_access-Entitled (share_of_new docs) bob

test_access : check_share_access (share_of_new docs) bob ≡ allowed
unfolding check_share_access share_of_new is_empty strip login_matches text_eqb users_read
test_access = refl

test_file :
    get_shared_file world table (codes "s1") (codes "/docs\\a.txt") bob
    ≡ file (share_of_new docs) (codes "docs/a.txt")
unfolding get_shared_file insert_share get_share_by_id text_eqb is_share_expired check_share_access
    login_matches share_of_new users_read type_read
test_file = refl

get_shared_file-Serves_example :
    Opens world table (codes "s1") bob (share_of_new docs)
    × Serves world (share_of_new docs) (codes "/docs\\a.txt") (codes "docs/a.txt")
get_shared_file-Serves_example =
    get_shared_file-Serves world table (codes "s1") (codes "/docs\\a.txt") (codes "docs/a.txt") bob
      (share_of_new docs) test_file

test_up : get_shared_file world table (codes "s1") (codes "docs/../../a.txt") bob ≡ status 403
unfolding get_shared_file insert_share get_share_by_id text_eqb is_share_expired check_share_access
    login_matches
test_up = refl

test_verify :
    verify_token (share_of_new docs) (token (codes " key ")) ≡ success_with_cookie (codes "key")
unfolding verify_token share_of_new strip text_eqb
test_verify = refl

no_header : starts_with bearer [] ≡ false
unfolding starts_with
no_header = refl

verify_token-allowed_example : check_share_access (share_of_new docs) guest ≡ allowed
verify_token-allowed_example =
    verify_token-allowed (share_of_new docs) (token (codes " key ")) (codes "key") guest test_verify
      refl no_header

-- A guess of one address at a time.
abbrev guess_at : ℕ → Guess
guess_at now = record {
  now = now;
  ip = codes "9.9.9.9";
  sid = codes "s1";
  body = token (codes "no");
}

abbrev three_guesses : List Guess
three_guesses = guess_at 5 ∷ guess_at 6 ∷ guess_at 7 ∷ []

count_heard_le_example :
    count_heard table (codes "9.9.9.9") three_guesses (after_posts table (guess_at 1 ∷ []) [])
    ≤ 2 * max_attempts - 1
count_heard_le_example =
    count_heard_le table (guess_at 1 ∷ []) three_guesses 4 (codes "9.9.9.9")
      ((omega arith, omega arith), ((omega arith, omega arith), ((omega arith, omega arith), tt)))

abbrev nine_guesses : ℕ → List Guess
nine_guesses now =
    guess_at now
    ∷ guess_at now
    ∷ guess_at now
    ∷ guess_at now
    ∷ guess_at now
    ∷ guess_at now
    ∷ guess_at now
    ∷ guess_at now
    ∷ guess_at now
    ∷ []

-- Of twelve guesses ten are heard.
test_limit :
    count_heard table (codes "9.9.9.9") (guess_at 4 ∷ guess_at 5 ∷ guess_at 6 ∷ nine_guesses 7) []
    ≡ 10
unfolding count_heard text_eqb post_token get_share_by_id insert_share strip
test_limit = refl

-- Around the end of a window nineteen are heard within a microsecond: the first opens the window,
-- nine more are heard at its end, and ten of eleven after it.
test_burst :
    count_heard table
      (codes "9.9.9.9")
      (nine_guesses 300000006 ++ guess_at 300000007 ∷ guess_at 300000007 ∷ nine_guesses 300000007)
      (after_posts table (guess_at 6 ∷ []) [])
    ≡ 19
unfolding count_heard after_posts text_eqb post_token get_share_by_id insert_share strip
test_burst = refl
