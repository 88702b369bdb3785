-- ===== src/Upload/Table.antt =====
-- aird/db/ranged_uploads.py: the table `ranged_upload_sessions`, rows in order of insertion.
pub mod Laws
use Prim.Native.String.{String}
use text.Mathlib.Text.{◌==◌}
use text.Mathlib.TextEquality.{eq_iff}
use text.Mathlib.TextPositions.{eq_refl}
use aird.Base.{
  ℕ, suc, ◌*◌, ◌+◌, ◌≡◌, ◌≢◌, Bool, Option, none, some, List, [], ◌∷◌, ◌++◌, eqb, if◌then◌else◌,
}
use aird.Range.{ByteRange, Item, ranges_to_json, ranges_from_json}

-- A row; `ranges` is the decoded `ranges_json`.
pub record Row : Type 0 where
  pub id : String
  pub username : String
  pub upload_dir : String
  pub filename : String
  pub temp_path : String
  pub total_size : ℕ
  pub ranges : List Item
  pub created_at : String
  pub transfer_profile : String
  pub chunk_bytes : ℕ

abbrev pub Table : Type 0
Table = List Row

pub find_row : String → Table → Option Row
find_row id [] = none
find_row id (r ∷ rs) = if r.id == id then some r else find_row id rs

-- The dictionary that `get_session` returns.
pub record Session : Type 0 where
  pub id : String
  pub username : String
  pub upload_dir : String
  pub filename : String
  pub temp_path : String
  pub total_size : ℕ
  pub ranges : List ByteRange
  pub transfer_profile : String
  pub chunk_bytes : ℕ

abbrev pub default_chunk_bytes : ℕ
default_chunk_bytes = 32 * 1024 * 1024

unfoldable pub session_of : Row → Session
session_of r = record {
  id = r.id;
  username = r.username;
  upload_dir = r.upload_dir;
  filename = r.filename;
  temp_path = r.temp_path;
  total_size = r.total_size;
  ranges = ranges_from_json r.ranges;
  transfer_profile = if r.transfer_profile == "" then "open" else r.transfer_profile;
  chunk_bytes = if eqb r.chunk_bytes 0 then default_chunk_bytes else r.chunk_bytes;
}

pub session_of_found : Option Row → Option Session
session_of_found none = none
session_of_found (some r) = some (session_of r)

unfoldable pub get_session : Table → String → Option Session
unfolding find_row session_of session_of_found
get_session table id = session_of_found (find_row id table)

-- `INSERT`; `none` is the error of a second row with the same primary key.
unfoldable pub insert_new : Option Row → Row → Table → Option Table
insert_new none row table = some (table ++ row ∷ [])
insert_new (some _) row table = none

-- The new row holds no range.
unfoldable pub create_session : Row → Table → Option Table
unfolding insert_new find_row
create_session row table = insert_new (find_row row.id table) (record row { ranges = [] }) table

unfoldable pub update_ranges : String → List ByteRange → Table → Table
update_ranges id ranges [] = []
update_ranges id ranges (r ∷ rs) =
    let rest = update_ranges id ranges rs in
    if r.id == id then record r { ranges = ranges_to_json ranges } ∷ rest else r ∷ rest

unfoldable pub delete_session : String → Table → Table
delete_session id [] = []
delete_session id (r ∷ rs) =
    let rest = delete_session id rs in if r.id == id then rest else r ∷ rest

unfoldable pub count_active_sessions : String → Table → ℕ
count_active_sessions username [] = 0
count_active_sessions username (r ∷ rs) =
    let rest = count_active_sessions username rs in
    if r.username == username then suc rest else rest

-- Identifier and temporary file of each row created before a moment; `earlier` is the comparison
-- of the database on the stored texts.
unfoldable pub list_stale_sessions :
    (String → String → Bool) → String → Table → List (String × String)
list_stale_sessions earlier moment [] = []
list_stale_sessions earlier moment (r ∷ rs) =
    let rest = list_stale_sessions earlier moment rs in
    if earlier r.created_at moment then (r.id, r.temp_path) ∷ rest else rest
