-- ===== src/Upload/Handlers.antt =====
-- The request handlers of aird/handlers/ranged_upload_handlers.py, and `finalize_upload_to_disk` of
-- aird/handlers/file_op_handlers.py. What a decorator refuses never reaches them.
pub mod Update
pub mod Finish
pub mod Complete
use Prim.Native.String.{String}
use text.Mathlib.Text.{◌==◌}
use aird.Base.{
  ℕ, ◌+◌, ◌-◌, ◌*◌, ◌/◌, max, Bool, true, false, not, ◌&&◌, ◌⊎◌, inl, inr, Option, none, some, List,
  [], ◌∷◌, ◌++◌, leb, ltb, eqb, if◌then◌else◌,
}
use aird.Range.{Item, merge_ranges, ranges_cover_file, ranges_to_json}
use aird.Range.Header.{ContentRange}
use aird.Upload.Table.{Table, Session, get_session, update_ranges, delete_session}
use aird.Upload.File.{File, ensure_size}

pub data Body : Type 0 where
  error : String → Body
  chunk_too_large : ℕ → ℕ → Body
  length_mismatch : ℕ → ℕ → Body
  under_threshold : ℕ → Body
  session_created : String → ℕ → ℕ → String → Body
  chunk_received : List Item → ℕ → String → ℕ → Body
  complete : String → Body
  unhandled_error : Body
  session_status : String → ℕ → List Item → Bool → String → ℕ → Body

pub record Reply : Type 0 where
  pub status : ℕ
  pub body : Body

abbrev pub reply_error : ℕ → String → Reply
reply_error status message = record { status = status; body = error message }

abbrev pub save_failed : String
save_failed = "Failed to save upload. Please try again."

abbrev pub session_not_found : String
session_not_found = "Upload session not found"

-- `_upload_storage_response`, by whether the error is `ENOSPC`.
pub data StorageError : Type 0 where
  disk_full other_error : StorageError

unfoldable pub upload_storage_response : StorageError → Reply
upload_storage_response disk_full = reply_error 507 "Not enough disk space to complete this upload."
upload_storage_response other_error = reply_error 500 save_failed

-- `_validate_chunk_put_request`.
pub data Checked : Type 0 where
  accepted : ℕ → ℕ → Checked
  refused : Reply → Checked

abbrev pub mebibyte : ℕ
mebibyte = 1024 * 1024

abbrev pub differs : Option ℕ → ℕ → Bool
differs none size = false
differs (some total) size = not (eqb total size)

unfoldable pub validate_chunk_put_request : Session → Option ContentRange → ℕ → Checked
validate_chunk_put_request session none body_length =
    refused (reply_error 400 "Content-Range header required")
validate_chunk_put_request session (some parsed) body_length =
    let expected_len = parsed.end - parsed.start + 1 in
    let max_chunk = max session.chunk_bytes (4 * mebibyte) in
    if differs parsed.total session.total_size
    then refused (reply_error 400 "Content-Range total does not match session")
    else if ltb max_chunk expected_len
    then refused (record {
      status = 413;
      body = chunk_too_large (expected_len / mebibyte) (max_chunk / mebibyte);
    })
    else if not (eqb body_length expected_len)
    then refused (record { status = 400; body = length_mismatch body_length expected_len })
    else if leb session.total_size parsed.end
    then refused (reply_error 416 "Range beyond file size")
    else accepted parsed.start parsed.end

-- The process's state: the session table, the temporary files by path, the users' files that
-- uploads have delivered, the newest first, and the bytes used of each quota.
pub record World : Type 0 where
  pub table : Table
  pub temp : String → Option File
  pub delivered : List (String × File)
  pub used : String → ℕ

-- How the file gets to its destination: `os.makedirs` may raise, which nothing catches, and
-- `shutil.move` may fail, which is answered.
pub data Placing : Type 0 where
  file_moved move_failed folder_failed : Placing

-- What one request finds outside: the quota of the uploader where quotas are on, the destination
-- of a name or the reply of its refusal (`_validate_upload_destination`), and how the move goes.
-- A destination that is a folder, into which `shutil.move` would put the file, is left out.
pub record Outside : Type 0 where
  pub quotas_on : Bool
  pub quota_bytes : Option ℕ
  pub destination : String → String → String ⊎ (ℕ × String)
  pub placing : Placing

-- The result of `finalize_upload_to_disk`, or an exception that leaves it.
pub record Finished : Type 0 where
  pub raised : Bool
  pub success : Bool
  pub status : ℕ
  pub message : String
  pub world : World

abbrev pub exceeds : Option ℕ → ℕ → Bool
exceeds none used = false
exceeds (some quota) used = ltb quota used

abbrev pub update_at {ℓ} : {A : Type ℓ} → (String → A) → String → A → String → A
update_at f k v j = if k == j then v else f j

-- The move of the temporary file to its destination, and the quota's count after it.
pub move_upload : Placing → Outside → Session → File → String → World → Finished
move_upload file_moved out session file path w = record {
  raised = false;
  success = true;
  status = 200;
  message = "Upload successful";
  world = record w {
    temp = update_at w.temp session.temp_path none;
    delivered = (path, file) ∷ w.delivered;
    used =
        if out.quotas_on
        then update_at w.used session.username (w.used session.username + session.total_size)
        else w.used;
  };
}
move_upload move_failed out session file path w = record {
  raised = false;
  success = false;
  status = 500;
  message = save_failed;
  world = w;
}
move_upload folder_failed out session file path w = record {
  raised = true;
  success = false;
  status = 500;
  message = save_failed;
  world = w;
}

pub place_upload : Outside → Session → File → String ⊎ (ℕ × String) → World → Finished
place_upload out session file (inl path) w = move_upload out.placing out session file path w
place_upload out session file (inr (status, message)) w = record {
  raised = false;
  success = false;
  status = status;
  message = message;
  world = w;
}

pub finalize_upload_to_disk : Outside → Session → File → World → Finished
unfolding place_upload move_upload
finalize_upload_to_disk out session file w =
    if out.quotas_on && exceeds out.quota_bytes (w.used session.username + session.total_size)
    then record {
      raised = false;
      success = false;
      status = 413;
      message = "Storage quota exceeded";
      world = w;
    }
    else place_upload out session file (out.destination session.upload_dir session.filename) w

-- The reply of a finished upload, after `delete_session`.
pub finished_reply : Finished → Reply
finished_reply f =
    if f.success
    then record { status = 201; body = complete f.message }
    else reply_error f.status f.message

-- `_finalize_ranged_upload_if_complete` once the ranges cover the file; `none` is a temporary
-- file that is gone, for which the size check raises `OSError`. An exception of
-- `finalize_upload_to_disk` leaves the handler before the session is deleted.
unfoldable pub finalize_complete : Outside → Session → Option File → World → Reply × World
unfolding finished_reply finalize_upload_to_disk ensure_size
finalize_complete out session none w = (reply_error 500 save_failed, w)
finalize_complete out session (some file) w =
    let whole = ensure_size session.total_size file in
    let sized = record w { temp = update_at w.temp session.temp_path (some whole) } in
    let finished = finalize_upload_to_disk out session whole sized in
    if finished.raised then (record { status = 500; body = unhandled_error }, finished.world) else (
      finished_reply finished,
      record (finished.world) { table = delete_session session.id finished.world.table },
    )

-- The part of `put` under the session's lock, for a chunk that is in the file at `temp_path`.
unfoldable pub put_found : Outside → ℕ → ℕ → String → Option Session → World → Reply × World
unfolding finalize_complete
put_found out start end temp_path none w = (reply_error 404 session_not_found, w)
put_found out start end temp_path (some session) w =
    let new_ranges = merge_ranges (session.ranges ++ record { start = start; end = end } ∷ []) in
    let w' = record w { table = update_ranges session.id new_ranges w.table } in
    if ranges_cover_file new_ranges session.total_size
    then finalize_complete out session (w.temp temp_path) w'
    else (
      record {
        status = 200;
        body =
            chunk_received (ranges_to_json new_ranges) session.total_size session.transfer_profile
              session.chunk_bytes;
      },
      w',
    )

unfoldable pub put_commit : Outside → String → ℕ → ℕ → String → World → Reply × World
unfolding put_found
put_commit out upload_id start end temp_path w =
    put_found out start end temp_path (get_session w.table upload_id) w
