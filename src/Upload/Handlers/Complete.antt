-- ===== src/Upload/Handlers/Complete.antt =====
-- When the commit of a chunk delivers the file, and when it waits for more.
use Prim.Native.String.{String}
use text.Mathlib.Text.{◌==◌}
use text.Mathlib.TextEquality.{eq_iff}
use aird.Base.{
  ℕ, ◌+◌, ◌<◌, ◌≤◌, ◌≡◌, ◌≢◌, refl, sym, ◌⊎◌, ◌∙◌, ap, subst, inl, inr, true, false, Bool-cases,
  ◌&&◌, none, some, List, [], ◌∷◌, ◌++◌, All, All-append, arith, if◌then◌else◌, if_true, if_false,
}
use aird.Range.{ByteRange, IsRange, holds_byte, covers, merge_ranges, ranges_cover_file}
use aird.Range.Merge.{covers-append, covers-append_back, covers-merge_ranges}
use aird.Range.Canonical.{merge_ranges-IsRange}
use aird.Range.Cover.{Within, covers-Within, ranges_cover_file_full, ranges_cover_file_sound}
use aird.Upload.Table.{Session, Table, get_session, update_ranges, delete_session}
use aird.Upload.Table.Laws.{get_session-id, get_session-delete_session}
use aird.Upload.File.{File, ensure_size}
use aird.Upload.Handlers.{
  Reply, World, Outside, exceeds, update_at, finalize_complete, finalize_upload_to_disk,
  place_upload, move_upload, file_moved, move_failed, put_found, put_commit,
}

abbrev chunk_of : ℕ → ℕ → ByteRange
chunk_of start end = record { start = start; end = end }

abbrev received_with : Session → ℕ → ℕ → List ByteRange
received_with s start end = s.ranges ++ chunk_of start end ∷ []

module _ (session : Session) (start end : ℕ) (valid : All IsRange session.ranges)
    (within : All (Within session.total_size) session.ranges) (order : start ≤ end)
    (fits : end < session.total_size) where
  abbrev chunk : ByteRange
  chunk = chunk_of start end

  abbrev received : List ByteRange
  received = received_with session start end

  received-IsRange : All IsRange (merge_ranges received)
  received-IsRange =
      merge_ranges-IsRange received (All-append IsRange session.ranges _ valid (order, tt))

  whole-covers :
      ((i : ℕ)
        → i < session.total_size
        → (covers session.ranges i ≡ true) ⊎ ((start ≤ i) × (i ≤ end)))
      → ranges_cover_file (merge_ranges received) session.total_size ≡ true
  whole-covers full =
      ranges_cover_file_full (merge_ranges received) session.total_size received-IsRange
        (omega (arith, fits)) small (λ i lt. covers-merge_ranges received i ∙ all i (full i lt))
    where
      small : (i : ℕ) → covers (merge_ranges received) i ≡ true → i < session.total_size
      small i h =
          elim (covers-append session.ranges chunk i (sym (covers-merge_ranges received i) ∙ h)) [
            | inl old ↦ covers-Within session.total_size session.ranges i within old
            | inr new ↦ (unfold holds_byte in ground (arith, fits))
          ]

      all :
          (i : ℕ)
          → (covers session.ranges i ≡ true) ⊎ ((start ≤ i) × (i ≤ end))
          → covers received i ≡ true
      all i (inl old) = covers-append_back session.ranges chunk i (inl old)
      all i (inr (low, high)) =
          covers-append_back session.ranges chunk i (inr (unfold holds_byte in ground arith))

-- What a successful delivery leaves, for the session `s` and the file `f`.
pub record IsDelivered (id path : String) (f : File) (w : World) (result : Reply × World)
    : Type 0 where
  pub status : result.0.status ≡ 201
  pub files : result.1.delivered ≡ (path, f) ∷ w.delivered
  pub gone : get_session result.1.table id ≡ none

finalize_upload_to_disk_moves :
    (out : Outside) (s : Session) (f : File) (path : String) (w : World)
    → (out.quotas_on && exceeds out.quota_bytes (w.used s.username + s.total_size)) ≡ false
    → out.destination s.upload_dir s.filename ≡ inl path
    → out.placing ≡ file_moved
    → finalize_upload_to_disk out s f w ≡ move_upload out.placing out s f path w
unfolding finalize_upload_to_disk place_upload
finalize_upload_to_disk_moves out s f path w fits to moves = rw fits (rw to refl)

delete_session_gone : (s : Session) (t : Table) → get_session (delete_session s.id t) s.id ≡ none
delete_session_gone s t =
    get_session-delete_session s.id s.id t ∙ if_true _ _ ((eq_iff s.id s.id).1 refl)

-- A session that is found after another one was deleted was found before.
pub deleted_session :
    (s : Session) (j : String) (t : Session) (table : Table)
    → get_session (delete_session s.id table) j ≡ some t
    → (j ≢ s.id) × (get_session table j ≡ some t)
deleted_session s j t table h =
    let step = get_session-delete_session s.id j table in
    elim (Bool-cases (s.id == j)) [
      | inl same ↦ cc (step, h, ap (λ b. if b then none else get_session table j) same)
      | inr differ ↦
          (λ p. cc (differ, (eq_iff s.id j).1 (sym p)), sym (if_false _ _ differ) ∙ sym step ∙ h)
    ]

finalize_complete-IsDelivered :
    (out : Outside) (s : Session) (file : File) (path : String) (w : World)
    → (out.quotas_on && exceeds out.quota_bytes (w.used s.username + s.total_size)) ≡ false
    → out.destination s.upload_dir s.filename ≡ inl path
    → out.placing ≡ file_moved
    → IsDelivered s.id path
        (ensure_size s.total_size file)
        w
        (finalize_complete out s (some file) w)
unfolding finalize_complete
finalize_complete-IsDelivered out s file path w fits to moves =
    rw
      (finalize_upload_to_disk_moves out s (ensure_size s.total_size file) path
        (record w { temp = update_at w.temp s.temp_path (some (ensure_size s.total_size file)) })
        fits to moves)
      (unfold move_upload in
        rw moves (record { status = refl; files = refl; gone = delete_session_gone s w.table }))

-- The commit of a chunk whose session is there, by whether all bytes are received.
put_commit_whole :
    (out : Outside) (id p : String) (start end : ℕ) (s : Session) (w : World)
    → get_session w.table id ≡ some s
    → ranges_cover_file (merge_ranges (received_with s start end)) s.total_size ≡ true
    → put_commit out id start end p w
      ≡ finalize_complete out s (w.temp p) (record w {
        table = update_ranges s.id (merge_ranges (received_with s start end)) w.table;
      })
unfolding put_commit put_found
put_commit_whole out id p start end s w found whole = rw found (rw whole refl)

-- The chunk that completes a file delivers it. If the session is there with ranges within the file,
-- if each byte of the file lies in one of them or in the chunk, if the temporary file is there, the
-- quota has room, the name has a destination and the move succeeds, then the reply is 201, the file
-- is delivered at the destination with the session's length, and the session is gone.
pub put_commit_complete :
    (out : Outside) (id p path : String) (start end : ℕ) (s : Session) (file : File) (w : World)
    → get_session w.table id ≡ some s
    → w.temp p ≡ some file
    → All IsRange s.ranges
    → All (Within s.total_size) s.ranges
    → start ≤ end
    → end < s.total_size
    → ((i : ℕ) → i < s.total_size → (covers s.ranges i ≡ true) ⊎ ((start ≤ i) × (i ≤ end)))
    → (out.quotas_on && exceeds out.quota_bytes (w.used s.username + s.total_size)) ≡ false
    → out.destination s.upload_dir s.filename ≡ inl path
    → out.placing ≡ file_moved
    → IsDelivered id path (ensure_size s.total_size file) w (put_commit out id start end p w)
put_commit_complete out id p path start end s file w found there valid within order fits full room
      to moves =
    let whole = whole-covers s start end valid within order fits full in
    let w' : World = record w {
      table = update_ranges s.id (merge_ranges (received_with s start end)) w.table;
    } in
    let moved = finalize_complete-IsDelivered out s file path w' room to moves in
    let done : IsDelivered s.id path (ensure_size s.total_size file) w
        (finalize_complete out s (some file) w') =
      record { status = moved.status; files = moved.files; gone = moved.gone } in
    subst (λ r. IsDelivered id path (ensure_size s.total_size file) w r)
      (sym (
        put_commit_whole out id p start end s w found whole
        ∙ ap (λ o. finalize_complete out s o w') there))
      (subst
        (λ k.
          IsDelivered k path (ensure_size s.total_size file) w
            (finalize_complete out s (some file) w'))
        (get_session-id id w.table s found) done)

-- While a byte of the file is missing, the commit of a chunk replies 200 and delivers nothing, and
-- the temporary files stay as they are.
pub put_commit_waits :
    (out : Outside) (id p : String) (start end i : ℕ) (s : Session) (w : World)
    → get_session w.table id ≡ some s
    → All IsRange s.ranges
    → start ≤ end
    → i < s.total_size
    → covers s.ranges i ≡ false
    → (i < start) ⊎ (end < i)
    → ((put_commit out id start end p w).0.status ≡ 200)
      × ((put_commit out id start end p w).1.delivered ≡ w.delivered)
      × ((put_commit out id start end p w).1.temp ≡ w.temp)
unfolding put_commit put_found
put_commit_waits out id p start end i s w found valid order lt old new =
    rw found
      (elim (Bool-cases
        (ranges_cover_file (merge_ranges (received_with s start end)) s.total_size)) [
          | inl whole ↦ absurd (missing whole)
          | inr part ↦ rw part (refl, refl, refl)
        ])
  where
    missing : ranges_cover_file (merge_ranges (received_with s start end)) s.total_size ≡ true → ⊥
    missing whole =
        let held : covers (merge_ranges (received_with s start end)) i ≡ true =
          ranges_cover_file_sound _ s.total_size
            (merge_ranges-IsRange _ (All-append IsRange s.ranges _ valid (order, tt))) whole i lt in
        elim (covers-append s.ranges (chunk_of start end) i
          (sym (covers-merge_ranges (received_with s start end) i) ∙ held)) [
            | inl there ↦ cc
            | inr there ↦ (unfold holds_byte in ground (arith, new))
          ]

finalize_upload_to_disk_fails :
    (out : Outside) (s : Session) (f : File) (w : World)
    → out.placing ≡ move_failed
    → ((finalize_upload_to_disk out s f w).raised ≡ false)
      × ((finalize_upload_to_disk out s f w).world ≡ w)
unfolding finalize_upload_to_disk place_upload move_upload
finalize_upload_to_disk_fails out s f w stuck_move =
    elim (Bool-cases
      (out.quotas_on && exceeds out.quota_bytes (w.used s.username + s.total_size))) [
        | inl over ↦ rw over (refl, refl)
        | inr room ↦ rw room (placed (out.destination s.upload_dir s.filename))
      ]
  where
    placed :
        (d : String ⊎ (ℕ × String))
        → ((place_upload out s f d w).raised ≡ false) × ((place_upload out s f d w).world ≡ w)
    placed (inl path) = rw stuck_move (refl, refl)
    placed (inr e) = (refl, refl)

-- Where the move of a complete file to its destination fails, and no other session refers to the
-- temporary file, nothing is delivered, the session is gone all the same, and the temporary file
-- stays, though no session refers to it any more.
pub finalize_complete_fails :
    (out : Outside) (s : Session) (file : File) (w : World)
    → out.placing ≡ move_failed
    → ((j : String) (t : Session)
        → get_session w.table j ≡ some t
        → t.temp_path ≡ s.temp_path
        → j ≡ s.id)
    → ((finalize_complete out s (some file) w).1.delivered ≡ w.delivered)
      × (get_session (finalize_complete out s (some file) w).1.table s.id ≡ none)
      × ((finalize_complete out s (some file) w).1.temp s.temp_path
          ≡ some (ensure_size s.total_size file))
      × ((j : String) (t : Session)
          → get_session (finalize_complete out s (some file) w).1.table j ≡ some t
          → t.temp_path ≢ s.temp_path)
unfolding finalize_complete
finalize_complete_fails out s file w stuck_move only =
    let whole = ensure_size s.total_size file in
    let sized : World = record w { temp = update_at w.temp s.temp_path (some whole) } in
    let (quiet, same) = finalize_upload_to_disk_fails out s whole sized stuck_move in
    rw quiet (
      ap (λ (v : World). v.delivered) same,
      delete_session_gone s _,
      ap (λ (v : World). v.temp s.temp_path) same
          ∙ if_true _ _ ((eq_iff s.temp_path s.temp_path).1 refl),
      λ j t h p.
          let (other, there) =
            deleted_session s j t w.table
              (ap (λ (v : World). get_session (delete_session s.id v.table) j) (sym same) ∙ h) in
          other (only j t there p),
    )
