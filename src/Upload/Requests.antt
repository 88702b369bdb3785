-- ===== src/Upload/Requests.antt =====
-- The parts of the upload handlers that come before the disk is touched: `post` of
-- RangedUploadSessionHandler, `put` of RangedUploadChunkHandler up to the write, `get` of
-- RangedUploadStatusHandler, and the count of running chunk requests per user.
pub mod Laws
use Prim.Native.String.{String}
use text.Mathlib.Text.{◌==◌}
use aird.Base.{ℕ, ◌+◌, ◌-◌, Bool, not, Option, none, some, List, [], leb, ltb, if◌then◌else◌}
use aird.Range.{ranges_cover_file, ranges_to_json}
use aird.Range.Header.{parse_content_range}
use aird.Upload.Table.{Row, Table, Session, get_session, create_session, count_active_sessions}
use aird.Upload.File.{File, empty_file}
use aird.Upload.Handlers.{
  Reply, under_threshold, session_created, session_status, reply_error, StorageError,
  upload_storage_response, Checked, accepted, refused, validate_chunk_put_request, World, update_at,
  session_not_found,
}

-- What `post` reads of the configuration and the request. `total_size` is `none` where the body
-- holds no integer or a negative one; the two names are as they are after `unquote`.
pub record PostRequest : Type 0 where
  pub feature_on : Bool
  pub streams : Bool
  pub body_is_json : Bool
  pub upload_dir : String
  pub filename : String
  pub total_size : Option ℕ
  pub max_file_size : ℕ
  pub too_large_message : String
  pub large_file_threshold : ℕ
  pub db_connected : Bool
  pub username : String
  pub session_id : String
  pub temp_path : String
  pub now : String
  pub profile : String
  pub range_chunk_bytes : ℕ

abbrev pub max_active_sessions_per_user : ℕ
max_active_sessions_per_user = 5

unfoldable pub new_row : PostRequest → ℕ → Row
new_row q total = record {
  id = q.session_id;
  username = q.username;
  upload_dir = q.upload_dir;
  filename = q.filename;
  temp_path = q.temp_path;
  total_size = total;
  ranges = [];
  created_at = q.now;
  transfer_profile = q.profile;
  chunk_bytes = q.range_chunk_bytes;
}

-- The row is inserted beside a new empty file; `none` is the error of a repeated identifier.
pub with_table : PostRequest → ℕ → World → Option Table → Option (Reply × World)
with_table q total w none = none
with_table q total w (some table) = some (
  record { status = 201; body = session_created q.session_id total q.range_chunk_bytes q.profile },
  record w { table = table; temp = update_at w.temp q.temp_path (some empty_file) },
)

pub post_sized : PostRequest → ℕ → World → Option (Reply × World)
unfolding new_row with_table
post_sized q total w =
    if q.filename == ""
    then some (reply_error 400 "filename and total_size are required", w)
    else if ltb q.max_file_size total
    then some (reply_error 413 q.too_large_message, w)
    else if ltb total q.large_file_threshold
    then some (record { status = 400; body = under_threshold q.large_file_threshold }, w)
    else if not q.db_connected
    then some (reply_error 500 "Database unavailable", w)
    else if leb max_active_sessions_per_user (count_active_sessions q.username w.table)
    then some (reply_error 429 "Too many active upload sessions", w)
    else with_table q total w (create_session (new_row q total) w.table)

pub post_body : PostRequest → Option ℕ → World → Option (Reply × World)
unfolding post_sized
post_body q none w = some (reply_error 400 "filename and total_size are required", w)
post_body q (some total) w = post_sized q total w

unfoldable pub post : PostRequest → World → Option (Reply × World)
unfolding post_body
post q w =
    if not q.feature_on
    then some
        (reply_error 403 "Feature disabled: File upload is currently disabled by administrator", w)
    else if q.streams
    then some (
      reply_error 409 "Ranged uploads are disabled for the WireGuard profile; use POST /upload",
      w,
    )
    else if not q.body_is_json
    then some (reply_error 400 "Bad request", w)
    else post_body q q.total_size w

-- What `put` reads of the request. `write_error` is the failure of the staging of a streamed body.
pub record PutRequest : Type 0 where
  pub feature_on : Bool
  pub db_connected : Bool
  pub username : String
  pub content_range : Option (List ℕ)
  pub streamed : Bool
  pub write_error : Option StorageError
  pub body_length : ℕ

-- Where a chunk that passes every test is to be written.
pub data Put : Type 0 where
  goes : Session → ℕ → ℕ → Put
  stops : Reply → Put

pub put_validated : Session → Checked → Put
put_validated session (accepted start end) = goes session start end
put_validated session (refused reply) = stops reply

pub put_staged : PutRequest → Session → Option StorageError → Put
unfolding put_validated
put_staged q session (some e) = stops (upload_storage_response e)
put_staged q session none =
    put_validated session
      (validate_chunk_put_request session (parse_content_range q.content_range) q.body_length)

pub staging_error : PutRequest → Option StorageError
staging_error q = if q.streamed then q.write_error else none

pub put_session : PutRequest → Option Session → Put
unfolding put_staged staging_error
put_session q none = stops (reply_error 404 session_not_found)
put_session q (some session) =
    if not (session.username == q.username)
    then stops (reply_error 403 "Access denied: You don't have permission to perform this action")
    else put_staged q session (staging_error q)

unfoldable pub put_check : PutRequest → String → Table → Put
unfolding put_session
put_check q upload_id table =
    if not q.feature_on
    then stops
        (reply_error 403 "Feature disabled: File upload is currently disabled by administrator")
    else if not q.db_connected
    then stops (reply_error 500 "Database unavailable")
    else put_session q (get_session table upload_id)

-- `get` of RangedUploadStatusHandler.
pub status_found : String → String → Option Session → Reply
status_found username upload_id none = reply_error 404 session_not_found
status_found username upload_id (some session) =
    if not (session.username == username)
    then reply_error 403 "Access denied: You don't have permission to perform this action"
    else record {
      status = 200;
      body =
          session_status upload_id session.total_size (ranges_to_json session.ranges)
            (ranges_cover_file session.ranges session.total_size) session.transfer_profile
            session.chunk_bytes;
    }

unfoldable pub get_status : Bool → String → String → Table → Reply
unfolding status_found
get_status db_connected username upload_id table =
    if not db_connected
    then reply_error 500 "Database unavailable"
    else status_found username upload_id (get_session table upload_id)
