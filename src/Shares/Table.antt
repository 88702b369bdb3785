-- ===== src/Shares/Table.antt =====
-- The table `shares` of aird/db/shares.py: rows in order of insertion, with all optional columns.
-- The columns that hold a JSON list are kept decoded; `none` is NULL.

pub mod Keys
pub mod Laws
use aird.Base.{
  ℕ, Bool, true, false, not, ◌&&◌, ◌||◌, Option, none, some, List, [], ◌∷◌, ◌++◌, any, ltb,
  if◌then◌else◌,
}
use aird.Base.Text.{Text, text_eqb, codes, is_empty}
use aird.Shares.Creator.{login_matches}

pub record ShareRow : Type 0 where
  pub id : Text
  pub created : Text
  pub paths : Option (List Text)
  pub allowed_users : Option (List Text)
  pub modify_users : Option (List Text)
  pub secret_token : Option Text
  pub share_type : Option Text
  pub allow_list : Option (List Text)
  pub avoid_list : Option (List Text)
  pub expiry_date : Option Text
  pub tag_name : Option Text
  pub created_by : Option Text

abbrev pub Shares : Type 0
Shares = List ShareRow

-- The dictionary of `_row_to_share_dict`.
pub record Share : Type 0 where
  pub id : Text
  pub created : Text
  pub paths : List Text
  pub allowed_users : Option (List Text)
  pub modify_users : Option (List Text)
  pub secret_token : Option Text
  pub share_type : Text
  pub allow_list : List Text
  pub avoid_list : List Text
  pub expiry_date : Option Text
  pub tag_name : Option Text
  pub created_by : Option Text

abbrev pub or_nil : Option (List Text) → List Text
or_nil none = []
or_nil (some l) = l

abbrev pub or_static : Option Text → Text
or_static none = codes "static"
or_static (some t) = if is_empty t then codes "static" else t

unfoldable pub share_of_row : ShareRow → Share
share_of_row r = record {
  id = r.id;
  created = r.created;
  paths = or_nil r.paths;
  allowed_users = r.allowed_users;
  modify_users = r.modify_users;
  secret_token = r.secret_token;
  share_type = or_static r.share_type;
  allow_list = or_nil r.allow_list;
  avoid_list = or_nil r.avoid_list;
  expiry_date = r.expiry_date;
  tag_name = r.tag_name;
  created_by = r.created_by;
}

-- `json.dumps(l) if l else None`.
abbrev pub or_null_list : List Text → Option (List Text)
or_null_list [] = none
or_null_list (x ∷ xs) = some (x ∷ xs)

unfoldable pub find_share : Text → Shares → Option ShareRow
find_share sid [] = none
find_share sid (r ∷ rs) = if text_eqb r.id sid then some r else find_share sid rs

unfoldable pub delete_share : Text → Shares → Shares
delete_share sid [] = []
delete_share sid (r ∷ rs) =
    let rest = delete_share sid rs in if text_eqb r.id sid then rest else r ∷ rest

-- The arguments of `insert_share`; a missing list is the empty one.
pub record NewShare : Type 0 where
  pub id : Text
  pub created : Text
  pub paths : List Text
  pub allowed_users : List Text
  pub modify_users : List Text
  pub secret_token : Option Text
  pub share_type : Text
  pub allow_list : List Text
  pub avoid_list : List Text
  pub expiry_date : Option Text
  pub tag_name : Option Text
  pub created_by : Option Text

unfoldable pub row_of_new : NewShare → ShareRow
row_of_new n = record {
  id = n.id;
  created = n.created;
  paths = some n.paths;
  allowed_users = or_null_list n.allowed_users;
  modify_users = or_null_list n.modify_users;
  secret_token = n.secret_token;
  share_type = some n.share_type;
  allow_list = or_null_list n.allow_list;
  avoid_list = or_null_list n.avoid_list;
  expiry_date = n.expiry_date;
  tag_name = n.tag_name;
  created_by = n.created_by;
}

-- `REPLACE INTO`: a row with the same key goes first.
unfoldable pub insert_share : NewShare → Shares → Shares
unfolding row_of_new delete_share
insert_share n shares = delete_share n.id shares ++ row_of_new n ∷ []

abbrev pub share_of : Option ShareRow → Option Share
share_of none = none
share_of (some r) = some (share_of_row r)

unfoldable pub get_share_by_id : Text → Shares → Option Share
unfolding find_share share_of_row
get_share_by_id sid shares = share_of (find_share sid shares)

-- The arguments of `update_share`; `none` is one that was not given, or is `None` where that means
-- the same. `fresh_token` is the new random token.
pub record ShareChanges : Type 0 where
  pub share_type : Option Text
  pub disable_token : Option Bool
  pub secret_token : Option Text
  pub allow_list : Option (List Text)
  pub avoid_list : Option (List Text)
  pub expiry_date : Option (Option Text)
  pub tag_name : Option Text
  pub allowed_users : Option (Option (List Text))
  pub modify_users : Option (Option (List Text))
  pub paths : Option (List Text)

abbrev pub replaced {ℓ} : {A : Type ℓ} → Option A → A → A
replaced none old = old
replaced (some new) old = new

abbrev pub or_fresh : Option Text → Text → Text
or_fresh none fresh_token = fresh_token
or_fresh (some t) fresh_token = t

-- `_get_token_field_updates`.
unfoldable pub token_update : Option Bool → Option Text → Text → Option (Option Text)
token_update none none fresh_token = none
token_update none (some t) fresh_token = some (some t)
token_update (some true) given fresh_token = some none
token_update (some false) given fresh_token = some (some (or_fresh given fresh_token))

abbrev pub list_column : Option (List Text) → Option (Option (List Text))
list_column none = none
list_column (some l) = some (or_null_list l)

abbrev pub given_column {ℓ} : {A : Type ℓ} → Option A → Option (Option A)
given_column none = none
given_column (some a) = some (some a)

unfoldable pub apply_changes : ShareChanges → Text → ShareRow → ShareRow
unfolding token_update
apply_changes c fresh_token r = record r {
  share_type = replaced (given_column c.share_type) r.share_type;
  secret_token = replaced (token_update c.disable_token c.secret_token fresh_token) r.secret_token;
  allow_list = replaced (list_column c.allow_list) r.allow_list;
  avoid_list = replaced (list_column c.avoid_list) r.avoid_list;
  expiry_date = replaced c.expiry_date r.expiry_date;
  tag_name = replaced (given_column c.tag_name) r.tag_name;
  allowed_users = replaced c.allowed_users r.allowed_users;
  modify_users = replaced c.modify_users r.modify_users;
  paths = replaced (given_column c.paths) r.paths;
}

unfoldable pub update_rows : ShareChanges → Text → Text → Shares → Shares
update_rows c fresh_token sid [] = []
update_rows c fresh_token sid (r ∷ rs) =
    let rest = update_rows c fresh_token sid rs in
    if text_eqb r.id sid then apply_changes c fresh_token r ∷ rest else r ∷ rest

abbrev pub is_given {ℓ} : {A : Type ℓ} → Option A → Bool
is_given none = false
is_given (some a) = true

abbrev pub has_changes : ShareChanges → Bool
has_changes c =
    is_given c.share_type
    || is_given c.disable_token
    || is_given c.secret_token
    || is_given c.allow_list
    || is_given c.avoid_list
    || is_given c.expiry_date
    || is_given c.tag_name
    || is_given c.allowed_users
    || is_given c.modify_users
    || is_given c.paths

-- With no change it answers `True` and does nothing; else whether a row has the key.
unfoldable pub update_share : ShareChanges → Text → Text → Shares → Bool × Shares
unfolding update_rows apply_changes
update_share c fresh_token sid shares =
    if not (has_changes c)
    then (true, shares)
    else (any (λ r. text_eqb r.id sid) shares, update_rows c fresh_token sid shares)

-- `list_shares_accessible_to_user`, for one share.
abbrev pub lists_user : Text → List Text → Bool
lists_user username users = any (λ u. text_eqb u username) users

abbrev pub allows_user : Text → Option (List Text) → Bool
allows_user username none = true
allows_user username (some users) = lists_user username users

unfoldable pub is_accessible : Text → Share → Bool
is_accessible username share =
    if login_matches share.created_by username
    then false
    else lists_user username (or_nil share.modify_users) || allows_user username share.allowed_users

unfoldable pub list_shares_accessible : Text → Shares → List Share
unfolding is_accessible share_of_row
list_shares_accessible username [] = []
list_shares_accessible username (r ∷ rs) =
    let rest = list_shares_accessible username rs in
    if is_empty username
    then []
    else if is_accessible username (share_of_row r)
    then share_of_row r ∷ rest
    else rest

-- `is_share_expired` and `cleanup_expired_shares`. `instant` is `datetime.fromisoformat` of the
-- stripped text with `Z` read as UTC, `none` where it fails; times are in ticks of UTC.
unfoldable pub is_share_expired : (Text → Option ℕ) → ℕ → Option Text → Bool
is_share_expired instant now none = false
is_share_expired instant now (some []) = false
is_share_expired instant now (some (c ∷ cs)) = elim (instant (c ∷ cs)) [
  | none ↦ false
  | some limit ↦ ltb limit now
]

unfoldable pub cleanup_expired_shares : (Text → Option ℕ) → ℕ → Shares → Shares
unfolding is_share_expired
cleanup_expired_shares instant now [] = []
cleanup_expired_shares instant now (r ∷ rs) =
    let rest = cleanup_expired_shares instant now rs in
    if is_share_expired instant now r.expiry_date then rest else r ∷ rest
