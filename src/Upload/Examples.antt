-- ===== src/Upload/Examples.antt =====
-- Tests of the upload handlers, and their theorems at concrete inputs.
use Prim.Native.String.{String}
use text.Mathlib.TextEquality.{eq_iff}
use aird.Base.{
  ℕ, ◌≤◌, ◌≡◌, ◌≢◌, refl, ap, inl, inr, ◌⊎◌, true, false, none, some, List, [], ◌∷◌, All, get_or,
  min, arith,
}
use aird.Base.Text.{codes, strip, lower, starts_with, digits, after_digits, int_of, is_empty}
use aird.Range.{ByteRange, merge_ranges, ranges_cover_file, ranges_from_json, covers}
use aird.Range.Header.{parse_content_range}
use aird.Upload.Table.{
  Session, get_session, create_session, update_ranges, session_of, count_active_sessions,
}
use aird.Upload.File.{empty_file, stored, write_at, write_range, copy_range_file, ensure_size}
use aird.Upload.File.Laws.{Accepts, chunk_stored}
use aird.Upload.Handlers.{
  Reply, World, Outside, put_commit, validate_chunk_put_request, finalize_complete, session_created,
  update_at, complete, file_moved, move_failed,
}
use aird.Upload.Requests.{PostRequest, post, new_row, PutRequest, put_check, goes}
use aird.Upload.Requests.Laws.{IsAdmitted, put_check_goes, Opens, post-Opens}
use aird.Upload.Flow.{
  Chunk, Sent, IsPart, IsFresh, open_session, admit, write, commit, Reach, here, next, start_system,
  start_world,
}
use aird.Upload.Flow.Invariant.{IsWhole}
use aird.Upload.Flow.Integrity.{delivered_files}
use aird.Upload.Flow.Limit.{session_limit}
use aird.Upload.Handlers.Complete.{
  IsDelivered, put_commit_complete, put_commit_waits, finalize_complete_fails,
}
use aird.Upload.Table.Laws.{get_session-update_ranges}

abbrev letters : List ℕ
letters = 65 ∷ 66 ∷ 67 ∷ []

abbrev request : PostRequest
request = record {
  feature_on = true;
  streams = false;
  body_is_json = true;
  upload_dir = "docs";
  filename = "a.bin";
  total_size = some 3;
  max_file_size = 1000;
  too_large_message = "too large";
  large_file_threshold = 2;
  db_connected = true;
  username = "ann";
  session_id = "s1";
  temp_path = "/tmp/1";
  now = "t";
  profile = "open";
  range_chunk_bytes = 64;
}

abbrev opened : World
opened = record {
  table = new_row request 3 ∷ [];
  temp = update_at (λ p. none) "/tmp/1" (some empty_file);
  delivered = [];
  used = λ u. 0;
}

abbrev opened_reply : Reply
opened_reply = record { status = 201; body = session_created "s1" 3 64 "open" }

post_test : post request start_world ≡ some (opened_reply, opened)
unfolding post new_row create_session count_active_sessions
post_test = refl

abbrev session : Session
session = session_of (new_row request 3)

found_test : get_session opened.table "s1" ≡ some session
unfolding get_session session_of new_row
found_test = refl

post-Opens_example : (opened ≡ start_world) ⊎ Opens request start_world opened
post-Opens_example = post-Opens request start_world opened opened_reply post_test

abbrev chunk_request : PutRequest
chunk_request = record {
  feature_on = true;
  db_connected = true;
  username = "ann";
  content_range = some (codes "bytes 0-2/3");
  streamed = false;
  write_error = none;
  body_length = 3;
}

check_test : put_check chunk_request "s1" opened.table ≡ goes session 0 2
unfolding put_check parse_content_range get_session session_of new_row validate_chunk_put_request
    strip lower starts_with digits after_digits int_of is_empty
check_test = refl

put_check_goes_example : IsAdmitted chunk_request "s1" opened.table session 0 2
put_check_goes_example = put_check_goes chunk_request "s1" opened.table session 0 2 check_test

-- A disk that stores two bytes at most.
abbrev two_bytes : ℕ → ℕ → ℕ
two_bytes offset n = min 2 n

two_bytes-Accepts : Accepts two_bytes
two_bytes-Accepts offset n h = (omega arith, omega arith)

chunk_stored_example :
    (write_range two_bytes 0 letters empty_file ≡ stored (write_at 0 letters empty_file))
    × (copy_range_file two_bytes 0 letters empty_file ≡ stored (write_at 0 letters empty_file))
chunk_stored_example = chunk_stored two_bytes 0 letters empty_file two_bytes-Accepts

abbrev sent : String → Sent
sent id = record { size = 3; byte = λ i. get_or letters i 0 }

abbrev flying : Chunk
flying = record {
  id = "s1";
  temp_path = "/tmp/1";
  start = 0;
  end = 2;
  body = letters;
  written = false;
}

abbrev written : World
written = record opened {
  temp = update_at opened.temp "/tmp/1" (some (write_at 0 letters empty_file));
}

abbrev out : Outside
out = record {
  quotas_on = true;
  quota_bytes = some 10;
  destination = λ dir name. inl name;
  placing = file_moved;
}

abbrev finished : World
finished = (put_commit out "s1" 0 2 "/tmp/1" written).1

finished_test :
    (put_commit out "s1" 0 2 "/tmp/1" written).0
    ≡ record { status = 201; body = complete "Upload successful" }
unfolding put_commit get_session session_of new_row merge_ranges ranges_cover_file ensure_size
    ranges_from_json
finished_test = refl

request-IsFresh : IsFresh request start_system
unfolding get_session
request-IsFresh = record { id_new = tt; path_new = λ j t h. cc; chunk_path_new = tt }

letters-IsPart : IsPart sent "s1" 0 letters
letters-IsPart i h = ap (λ j. get_or letters j 0) (omega arith)

finished-Reach : Reach sent two_bytes start_system (record { world = finished; flying = [] })
unfolding session_of new_row
finished-Reach =
    next
      (next
        (next
          (next here
            (open_session start_system request opened_reply opened request-IsFresh refl post_test))
          (admit (record { world = opened; flying = [] }) chunk_request "s1" session 0 2 letters
            check_test refl letters-IsPart))
        (write (record { world = opened; flying = flying ∷ [] }) [] [] flying empty_file
          (write_at 0 letters empty_file) refl refl
          (chunk_stored two_bytes 0 letters empty_file two_bytes-Accepts).1))
      (commit (record { world = written; flying = record flying { written = true } ∷ [] }) [] []
        (record flying { written = true }) out refl refl)

delivered_files_example : All (λ d. IsWhole sent d.1) finished.delivered
delivered_files_example =
    delivered_files sent two_bytes (record { world = finished; flying = [] }) two_bytes-Accepts
      finished-Reach

session_found : get_session written.table "s1" ≡ some session
unfolding get_session new_row
session_found = refl

put_commit_complete_example :
    IsDelivered "s1" "a.bin"
      (ensure_size 3 (write_at 0 letters empty_file))
      written
      (put_commit out "s1" 0 2 "/tmp/1" written)
unfolding session_of new_row ranges_from_json merge_ranges
put_commit_complete_example =
    put_commit_complete out "s1" "/tmp/1" "a.bin" 0 2 session (write_at 0 letters empty_file)
      written session_found refl tt tt (omega arith) (omega arith)
      (λ i lt. inr (omega arith, omega arith)) refl refl refl

put_commit_waits_example :
    ((put_commit out "s1" 0 1 "/tmp/1" written).0.status ≡ 200)
    × ((put_commit out "s1" 0 1 "/tmp/1" written).1.delivered ≡ written.delivered)
    × ((put_commit out "s1" 0 1 "/tmp/1" written).1.temp ≡ written.temp)
unfolding session_of new_row covers ranges_from_json merge_ranges
put_commit_waits_example =
    put_commit_waits out "s1" "/tmp/1" 0 1 2 session written session_found tt (omega arith)
      (omega arith) refl (inr (omega arith))

session_limit_example : count_active_sessions "ann" opened.table ≤ 5
session_limit_example =
    session_limit sent two_bytes "ann" (record { world = opened; flying = [] })
      (next here
        (open_session start_system request opened_reply opened request-IsFresh refl post_test))

abbrev broken_disk : Outside
broken_disk = record out { placing = move_failed }

only_session :
    (j : String) (t : Session)
    → get_session written.table j ≡ some t
    → t.temp_path ≡ session.temp_path
    → j ≡ session.id
unfolding get_session session_of new_row
only_session j t h e = ground (arith, eq_iff "s1" j, h)

finalize_complete_fails_example :
    ((finalize_complete broken_disk session (some empty_file) written).1.delivered ≡ [])
    × (get_session
          (finalize_complete broken_disk session (some empty_file) written).1.table
          session.id
        ≡ none)
    × ((finalize_complete broken_disk session (some empty_file) written).1.temp session.temp_path
        ≡ some (ensure_size session.total_size empty_file))
    × ((j : String) (t : Session)
        → get_session (finalize_complete broken_disk session (some empty_file) written).1.table j
          ≡ some t
        → t.temp_path ≢ session.temp_path)
finalize_complete_fails_example =
    finalize_complete_fails broken_disk session empty_file written refl only_session

abbrev two_ranges : List ByteRange
two_ranges = record { start = 1; end = 2 } ∷ record { start = 0; end = 0 } ∷ []

get_session-update_ranges_example :
    (get_session (update_ranges "s1" two_ranges opened.table) "s1"
      ≡ some (record session { ranges = merge_ranges two_ranges }))
    × ((j : String)
        → "s1" ≢ j
        → get_session (update_ranges "s1" two_ranges opened.table) j ≡ get_session opened.table j)
get_session-update_ranges_example =
    get_session-update_ranges "s1" two_ranges session opened.table (omega arith, (omega arith, tt))
      found_test
