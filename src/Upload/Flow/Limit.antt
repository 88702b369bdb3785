-- ===== src/Upload/Flow/Limit.antt =====
-- The limit on the sessions of one user.
use Prim.Native.String.{String}
use mathlib.Core.Option.{some-injective}
use text.Mathlib.Text.{◌==◌}
use text.Mathlib.TextEquality.{eq_iff}
use aird.Base.{
  ℕ, ◌+◌, ◌≤◌, ◌<◌, ◌≡◌, refl, sym, ◌∙◌, ap, subst, inl, inr, Bool-cases, Option, none, some, List,
  [], ◌∷◌, ◌++◌, arith, if◌then◌else◌,
}
use aird.Range.{ByteRange, merge_ranges, ranges_cover_file}
use aird.Upload.Table.{
  Row, Table, Session, get_session, find_row, insert_new, create_session, update_ranges,
  delete_session, count_active_sessions,
}
use aird.Upload.File.{File, ensure_size}
use aird.Upload.Handlers.{
  Reply, World, Outside, update_at, finalize_complete, finalize_upload_to_disk, put_found,
  put_commit,
}
use aird.Upload.Handlers.Finish.{finalize_upload_to_disk-Delivers}
use aird.Upload.Requests.{PostRequest, post, new_row, max_active_sessions_per_user}
use aird.Upload.Requests.Laws.{post-Opens}
use aird.Upload.Flow.{
  System, Sent, Step, open_session, admit, write, commit, cut_off, clean, clean_session, drop,
  Reach, here, next, start_system,
}

module _ (u : String) where
  count-append :
      (t : Table) (r : Row)
      → count_active_sessions u (t ++ r ∷ [])
        ≡ count_active_sessions u t + (if r.username == u then 1 else 0)
  unfolding count_active_sessions
  count-append [] r = ground arith
  count-append (x ∷ xs) r = ground (arith, count-append xs r)

  count-update_ranges :
      (id : String) (ranges : List ByteRange) (t : Table)
      → count_active_sessions u (update_ranges id ranges t) ≡ count_active_sessions u t
  unfolding count_active_sessions update_ranges
  count-update_ranges id ranges [] = refl
  count-update_ranges id ranges (x ∷ xs) = ground (arith, count-update_ranges id ranges xs)

  count-delete_session :
      (id : String) (t : Table)
      → count_active_sessions u (delete_session id t) ≤ count_active_sessions u t
  unfolding count_active_sessions delete_session
  count-delete_session id [] = omega arith
  count-delete_session id (x ∷ xs) = ground (arith, count-delete_session id xs)

  count-create_session :
      (r : Row) (t v : Table)
      → create_session r t ≡ some v
      → count_active_sessions u v ≡ count_active_sessions u t + (if r.username == u then 1 else 0)
  unfolding create_session insert_new
  count-create_session r t v h = go (find_row r.id t) h
    where
      go :
          (o : Option Row)
          → insert_new o (record r { ranges = [] }) t ≡ some v
          → count_active_sessions u v
            ≡ count_active_sessions u t + (if r.username == u then 1 else 0)
      go none h =
          ap (λ x. count_active_sessions u x) (sym (some-injective _ _ h))
          ∙ count-append t (record r { ranges = [] })
      go (some x) h = cc

  post-limit :
      (q : PostRequest) (w v : World) (reply : Reply)
      → post q w ≡ some (reply, v)
      → count_active_sessions u w.table ≤ max_active_sessions_per_user
      → count_active_sessions u v.table ≤ max_active_sessions_per_user
  post-limit q w v reply h le = elim (post-Opens q w v reply h) [
    | inl same ↦
        subst (λ x. count_active_sessions u x.table ≤ max_active_sessions_per_user) (sym same) le
    | inr opens ↦
        let grown = count-create_session (new_row q opens.total) w.table v.table opens.table in
        elim (Bool-cases (q.username == u)) [
          | inl own ↦
              let named : q.username ≡ u = (eq_iff q.username u).0 own in
              let below : count_active_sessions u w.table < max_active_sessions_per_user =
                subst (λ x. count_active_sessions x w.table < max_active_sessions_per_user) named
                  opens.below_limit in
              (unfold new_row in ground (arith, grown, below))
          | inr else_one ↦ (unfold new_row in ground (arith, grown, le, else_one))
        ]
  ]

  finalize_complete-count :
      (out : Outside) (s : Session) (o : Option File) (w : World)
      → count_active_sessions u (finalize_complete out s o w).1.table
        ≤ count_active_sessions u w.table
  unfolding finalize_complete
  finalize_complete-count out s none w = omega arith
  finalize_complete-count out s (some file) w =
      let whole = ensure_size s.total_size file in
      let sized : World = record w { temp = update_at w.temp s.temp_path (some whole) } in
      let same = (finalize_upload_to_disk-Delivers out s whole sized).table in
      elim (Bool-cases (finalize_upload_to_disk out s whole sized).raised) [
        | inl raises ↦ rw raises (
            subst (λ t. count_active_sessions u t ≤ count_active_sessions u w.table) (sym same)
              (omega arith))
        | inr ends ↦ rw ends (
            subst
              (λ t.
                count_active_sessions u (delete_session s.id t) ≤ count_active_sessions u w.table)
              (sym same) (count-delete_session s.id w.table))
      ]

  put_found-count :
      (out : Outside) (start end : ℕ) (p : String) (o : Option Session) (w : World)
      → count_active_sessions u (put_found out start end p o w).1.table
        ≤ count_active_sessions u w.table
  unfolding put_found
  put_found-count out start end p none w = omega arith
  put_found-count out start end p (some s) w =
      let new_ranges = merge_ranges (s.ranges ++ record { start = start; end = end } ∷ []) in
      let w' : World = record w { table = update_ranges s.id new_ranges w.table } in
      let same = count-update_ranges s.id new_ranges w.table in
      elim (Bool-cases (ranges_cover_file new_ranges s.total_size)) [
        | inl whole ↦ rw whole (omega (arith, same, finalize_complete-count out s (w.temp p) w'))
        | inr part ↦ rw part (omega (arith, same))
      ]

  module _ (sent : String → Sent) (accept : ℕ → ℕ → ℕ) where
    abbrev IsLimited : System → Type 0
    IsLimited s = count_active_sessions u s.world.table ≤ max_active_sessions_per_user

    Step-limit : {s t : System} → Step sent accept s t → IsLimited s → IsLimited t
    unfolding put_commit
    Step-limit (open_session s q reply w fresh said e) h = post-limit q s.world w reply e h
    Step-limit (admit s q id session start end body e n part) h = h
    Step-limit (write s before after c file file' e there done) h = h
    Step-limit (commit s before after c out e done) h = omega (
      arith,
      h,
      put_found-count out c.start c.end c.temp_path (get_session s.world.table c.id) s.world,
    )
    Step-limit (cut_off s before after c file n e there part) h = h
    Step-limit (clean s id session found) h =
        (unfold clean_session in omega (arith, h, count-delete_session session.id s.world.table))
    Step-limit (drop s before after c e) h = h

    Reach-limit : {s t : System} → IsLimited s → Reach sent accept s t → IsLimited t
    Reach-limit h here = h
    Reach-limit h (next r st) = Step-limit st (Reach-limit h r)

-- In whatever order sessions are opened or cleaned away and chunks are admitted, written, cut
-- off, recorded or dropped, no user has more than five sessions.
pub session_limit :
    (sent : String → Sent) (accept : ℕ → ℕ → ℕ) (u : String) (s : System)
    → Reach sent accept start_system s
    → count_active_sessions u s.world.table ≤ 5
unfolding count_active_sessions
session_limit sent accept u s r = Reach-limit u sent accept (omega arith) r
