-- ===== src/Upload/Requests/Laws.antt =====
-- What `post` and `put` have established when they go on.
use Prim.Native.String.{String}
use mathlib.Core.Option.{some-injective}
use text.Mathlib.Text.{◌==◌}
use text.Mathlib.TextEquality.{eq_iff}
use aird.Base.{
  ℕ, ◌+◌, ◌-◌, ◌<◌, ◌≤◌, ◌≡◌, ◌≢◌, refl, sym, ◌⊎◌, ◌∙◌, ap, inl, inr, true, Bool-cases, Option,
  none, some, [], arith, if_true, if_false,
}
use aird.Range.Header.{ContentRange, parse_content_range}
use aird.Range.Header.Content.{parse_content_range-order}
use aird.Range.{ranges_to_json, merge_ranges}
use aird.Range.Canonical.{ranges_from_json-ranges_to_json}
use aird.Upload.Table.{
  Table, Session, session_of, get_session, create_session, count_active_sessions,
}
use aird.Upload.Table.Laws.{get_session-create_session}
use aird.Upload.File.{empty_file}
use aird.Upload.Handlers.{
  Reply, World, Checked, accepted, refused, validate_chunk_put_request, update_at, StorageError,
}
use aird.Upload.Requests.{
  PostRequest, post, post_body, post_sized, with_table, new_row, max_active_sessions_per_user,
  PutRequest, goes, put_check, put_session, put_staged, put_validated, staging_error,
}

-- A chunk that is accepted is what its header says, and lies within the file.
pub record IsAccepted (session : Session) (parsed : ContentRange) (n start end : ℕ) : Type 0 where
  pub start_said : start ≡ parsed.start
  pub end_said : end ≡ parsed.end
  pub within : end < session.total_size
  pub length : n ≡ end - start + 1

validate_accepted :
    (session : Session) (o : Option ContentRange) (n start end : ℕ)
    → validate_chunk_put_request session o n ≡ accepted start end
    → (parsed : ContentRange) × (o ≡ some parsed) × IsAccepted session parsed n start end
unfolding validate_chunk_put_request
validate_accepted session none n start end h = cc
validate_accepted session (some parsed) n start end h = (
  parsed,
  refl,
  record {
    start_said = ground arith;
    end_said = ground arith;
    within = ground arith;
    length = ground arith;
  },
)

-- A chunk passes `put` only if the feature is on, the session is there and its user's own, the
-- staging did not fail, and the Content-Range fits the session and the body.
pub record IsAdmitted (q : PutRequest) (id : String) (table : Table) (session : Session)
    (start end : ℕ) : Type 0 where
  pub feature : q.feature_on ≡ true
  pub connected : q.db_connected ≡ true
  pub found : get_session table id ≡ some session
  pub own : session.username ≡ q.username
  pub staged : staging_error q ≡ none
  pub parsed : ContentRange
  pub header : parse_content_range q.content_range ≡ some parsed
  pub order : start ≤ end
  pub range : IsAccepted session parsed q.body_length start end

validated_goes :
    (s session : Session) (checked : Checked) (start end : ℕ)
    → put_validated s checked ≡ goes session start end
    → (s ≡ session) × (checked ≡ accepted start end)
unfolding put_validated
validated_goes s session (accepted a b) start end h = ground arith
validated_goes s session (refused r) start end h = cc

staged_goes :
    (q : PutRequest) (s session : Session) (o : Option StorageError) (start end : ℕ)
    → put_staged q s o ≡ goes session start end
    → (o ≡ none)
      × (s ≡ session)
      × (validate_chunk_put_request s (parse_content_range q.content_range) q.body_length
          ≡ accepted start end)
unfolding put_staged
staged_goes q s session (some e) start end h = cc
staged_goes q s session none start end h =
    let (same, ok) = validated_goes s session _ start end h in (refl, same, ok)

session_goes :
    (q : PutRequest) (o : Option Session) (session : Session) (start end : ℕ)
    → put_session q o ≡ goes session start end
    → (o ≡ some session)
      × (session.username ≡ q.username)
      × (staging_error q ≡ none)
      × (validate_chunk_put_request session (parse_content_range q.content_range) q.body_length
          ≡ accepted start end)
unfolding put_session
session_goes q none session start end h = cc
session_goes q (some s) session start end h =
    let own : (s.username == q.username) ≡ true = ground arith in
    let next : put_staged q s (staging_error q) ≡ goes session start end = ground arith in
    let (staged, same, ok) = staged_goes q s session (staging_error q) start end next in
    (
      ap some same,
      ap (λ (x : Session). x.username) (sym same) ∙ (eq_iff s.username q.username).0 own,
      staged,
      ap (λ x. validate_chunk_put_request x (parse_content_range q.content_range) q.body_length)
            (sym same)
          ∙ ok,
    )

-- A chunk request is let through only if uploads are on, the database is there, the session exists
-- and is the user's own, the staging did not fail, and the Content-Range parses, is nonempty, ends
-- before the session's length and spans exactly the body.
pub put_check_goes :
    (q : PutRequest) (id : String) (table : Table) (session : Session) (start end : ℕ)
    → put_check q id table ≡ goes session start end
    → IsAdmitted q id table session start end
unfolding put_check
put_check_goes q id table session start end h =
    let reached : put_session q (get_session table id) ≡ goes session start end = ground arith in
    let (found, own, staged, ok) =
      session_goes q (get_session table id) session start end reached in
    let (parsed, header, range) =
      validate_accepted session (parse_content_range q.content_range) q.body_length start end ok in
    record {
      feature = ground arith;
      connected = ground arith;
      found = found;
      own = own;
      staged = staged;
      parsed = parsed;
      header = header;
      order =
          let ordered = parse_content_range-order q.content_range parsed header in
          omega (arith, ordered, range.start_said, range.end_said);
      range = range;
    }

-- A session as a request asks for it.
pub record IsAsked (q : PostRequest) (total : ℕ) (s : Session) : Type 0 where
  id : s.id ≡ q.session_id
  username : s.username ≡ q.username
  upload_dir : s.upload_dir ≡ q.upload_dir
  filename : s.filename ≡ q.filename
  temp_path : s.temp_path ≡ q.temp_path
  total_size : s.total_size ≡ total
  ranges : s.ranges ≡ []

-- What a request for a session has done: one new session and an empty file.
pub record Opens (q : PostRequest) (w v : World) : Type 0 where
  pub total : ℕ
  pub asked : q.total_size ≡ some total
  pub small : total ≤ q.max_file_size
  pub table : create_session (new_row q total) w.table ≡ some v.table
  pub fresh : get_session w.table q.session_id ≡ none
  pub made : (s : Session) × (get_session v.table q.session_id ≡ some s) × IsAsked q total s
  pub others : (j : String) → q.session_id ≢ j → get_session v.table j ≡ get_session w.table j
  pub below_limit : count_active_sessions q.username w.table < max_active_sessions_per_user
  pub world :
      v ≡ record w { table = v.table; temp = update_at w.temp q.temp_path (some empty_file) }

new_row-IsAsked :
    (q : PostRequest) (total : ℕ) (t u : Table)
    → create_session (new_row q total) t ≡ some u
    → (s : Session) × (get_session u q.session_id ≡ some s) × IsAsked q total s
unfolding new_row session_of ranges_to_json merge_ranges
new_row-IsAsked q total t u h = (
  session_of (record (new_row q total) { ranges = [] }),
  (get_session-create_session (new_row q total) q.session_id t u h).1
      ∙ if_true _ _ ((eq_iff q.session_id q.session_id).1 refl),
  record {
    id = refl;
    username = refl;
    upload_dir = refl;
    filename = refl;
    temp_path = refl;
    total_size = refl;
    ranges = ranges_from_json-ranges_to_json [] tt;
  },
)

new_row-others :
    (q : PostRequest) (total : ℕ) (t u : Table)
    → create_session (new_row q total) t ≡ some u
    → (j : String) → q.session_id ≢ j
    → get_session u j ≡ get_session t j
unfolding new_row
new_row-others q total t u h j n =
    (get_session-create_session (new_row q total) j t u h).1
    ∙ elim (Bool-cases (q.session_id == j)) [
      | inl same ↦ absurd (n ((eq_iff q.session_id j).0 same))
      | inr differ ↦ if_false _ _ differ
    ]

sized-Opens :
    (q : PostRequest) (total : ℕ) (w v : World) (reply : Reply) (o : Option Table)
    → q.total_size ≡ some total
    → total ≤ q.max_file_size
    → count_active_sessions q.username w.table < max_active_sessions_per_user
    → create_session (new_row q total) w.table ≡ o
    → with_table q total w o ≡ some (reply, v)
    → Opens q w v
unfolding with_table new_row
sized-Opens q total w v reply none asked small few e h = cc
sized-Opens q total w v reply (some u) asked small few e h =
    let same : record w { table = u; temp = update_at w.temp q.temp_path (some empty_file) } ≡ v =
      ap (λ (p : Reply × World). p.1) (some-injective _ _ h) in
    let row : create_session (new_row q total) w.table ≡ some v.table =
      e ∙ ap (λ (x : World). some x.table) same in
    record {
      total = total;
      asked = asked;
      small = small;
      table = row;
      fresh = (get_session-create_session (new_row q total) q.session_id w.table v.table row).0;
      made = new_row-IsAsked q total w.table v.table row;
      others = new_row-others q total w.table v.table row;
      below_limit = few;
      world =
          sym same
          ∙ ap
              (λ (x : World). record w {
                table = x.table;
                temp = update_at w.temp q.temp_path (some empty_file);
              })
              same;
    }

sized_passes :
    (q : PostRequest) (total : ℕ) (w v : World) (reply : Reply)
    → post_sized q total w ≡ some (reply, v)
    → (v ≡ w)
      ⊎ ((total ≤ q.max_file_size)
          × (count_active_sessions q.username w.table < max_active_sessions_per_user)
          × (with_table q total w (create_session (new_row q total) w.table) ≡ some (reply, v)))
unfolding post_sized
sized_passes q total w v reply h = ground arith

body-Opens :
    (q : PostRequest) (o : Option ℕ) (w v : World) (reply : Reply)
    → q.total_size ≡ o
    → post_body q o w ≡ some (reply, v)
    → (v ≡ w) ⊎ Opens q w v
unfolding post_body
body-Opens q none w v reply e h = inl (ground arith)
body-Opens q (some total) w v reply e h = elim (sized_passes q total w v reply h) [
  | inl same ↦ inl same
  | inr (small, few, made) ↦ inr (
      sized-Opens q total w v reply (create_session (new_row q total) w.table) e small few refl
        made)
]

passes :
    (q : PostRequest) (w v : World) (reply : Reply)
    → post q w ≡ some (reply, v)
    → (v ≡ w) ⊎ (post_body q q.total_size w ≡ some (reply, v))
unfolding post
passes q w v reply h = ground arith

-- A request for a session leaves the world as it was, or it asked for a size within the limit,
-- the user had fewer than five sessions, and no session had the identifier, under which there is
-- now one with the user, folder, name, temporary file and size that were asked for and with no
-- ranges; every other identifier gives what it gave, and the temporary file is an empty one.
pub post-Opens :
    (q : PostRequest) (w v : World) (reply : Reply)
    → post q w ≡ some (reply, v)
    → (v ≡ w) ⊎ Opens q w v
post-Opens q w v reply h = elim (passes q w v reply h) [
  | inl same ↦ inl same
  | inr reached ↦ body-Opens q q.total_size w v reply refl reached
]
