-- ===== src/Upload/Flow/Invariant/Commit.antt =====
-- Recording a chunk, and delivering the file once all are recorded, keeps the invariant.
use Prim.Native.String.{String}
use mathlib.Core.Option.{some-injective}
use text.Mathlib.Text.{◌==◌}
use text.Mathlib.TextEquality.{eq_iff}
use aird.Base.{
  ℕ, ◌<◌, ◌≡◌, ◌≢◌, refl, sym, ◌⊎◌, ◌∙◌, ap, subst, inl, inr, true, Bool-cases, Option-cases, some,
  List, [], ◌∷◌, ◌++◌, All, All-append, All-front, All-back, All-map, arith, if◌then◌else◌, if_true,
}
use aird.Range.{
  ByteRange, IsRange, holds_byte, covers, merge_ranges, ranges_cover_file, ranges_to_json,
  ranges_from_json,
}
use aird.Range.Merge.{covers-append, covers-merge_ranges}
use aird.Range.Canonical.{merge_ranges-IsRange, ranges_from_json-ranges_to_json}
use aird.Range.Cover.{ranges_cover_file_sound}
use aird.Upload.Table.{Session, Table, get_session, update_ranges}
use aird.Upload.Table.Laws.{stored_ranges, get_session-id, get_session-stored_ranges}
use aird.Upload.File.{File, ensure_size}
use aird.Upload.Handlers.{
  World, Outside, update_at, finalize_complete, finalize_upload_to_disk, put_found, put_commit,
}
use aird.Upload.Flow.{Chunk, System, Sent}
use aird.Upload.Flow.Invariant.Delivered.{delivered-IsSound}
use aird.Upload.Flow.Invariant.Sized.{ensure_size_size, ensure_size_byte, sized-IsSound}
use aird.Upload.Flow.Invariant.{SessionOk, ChunkOk, IsWhole, IsSound}
use aird.Upload.Handlers.Finish.{finalize_upload_to_disk-Delivers, finalize_upload_to_disk_raises}

-- What the stored ranges are when they are read again.
reread :
    (rs : List ByteRange)
    → All IsRange rs
    → All IsRange (ranges_from_json (ranges_to_json rs))
      × ((i : ℕ) → covers (ranges_from_json (ranges_to_json rs)) i ≡ covers rs i)
reread rs v =
    let e = ranges_from_json-ranges_to_json rs v in
    (
      subst (All IsRange) (sym e) (merge_ranges-IsRange rs v),
      λ i. ap (λ l. covers l i) e ∙ covers-merge_ranges rs i,
    )

module _ (sent : String → Sent) (w : World) (delivered : All (λ d. IsWhole sent d.1) w.delivered)
    (sessions : (j : String) (t : Session) → get_session w.table j ≡ some t → SessionOk sent w j t)
    (distinct : (j k : String) (t u : Session)
      → j ≢ k
      → get_session w.table j ≡ some t
      → get_session w.table k ≡ some u
      → t.temp_path ≢ u.temp_path)
    (c : Chunk) (ok : ChunkOk sent w c) (done : c.written ≡ true) (s : Session)
    (here : get_session w.table c.id ≡ some s) where
  abbrev new_ranges : List ByteRange
  new_ranges = merge_ranges (s.ranges ++ record { start = c.start; end = c.end } ∷ [])

  s_ok : SessionOk sent w c.id s
  s_ok = sessions c.id s here

  abbrev new_table : Table
  new_table = update_ranges s.id new_ranges w.table

  abbrev new_world : World
  new_world = record w { table = new_table }

  new_ranges-IsRange : All IsRange new_ranges
  new_ranges-IsRange =
      merge_ranges-IsRange _ (All-append IsRange s.ranges _ s_ok.valid (ok.order, tt))

  -- The bytes of the recorded ranges are the client's.
  new_bytes : (i : ℕ) → covers new_ranges i ≡ true → s_ok.file.byte i ≡ (sent c.id).byte i
  new_bytes i h =
      elim (covers-append s.ranges (record { start = c.start; end = c.end }) i
        (sym (covers-merge_ranges _ i) ∙ h)) [
          | inl old ↦ s_ok.bytes i old
          | inr new ↦
              ok.held s s_ok.file i done here
                (ap (λ (p : String). w.temp p) (sym (ok.owner s here)) ∙ s_ok.found)
                (unfold holds_byte in ground arith) (unfold holds_byte in ground arith)
        ]

  new_within : (i : ℕ) → covers new_ranges i ≡ true → i < s.total_size
  new_within i h =
      elim (covers-append s.ranges (record { start = c.start; end = c.end }) i
        (sym (covers-merge_ranges _ i) ∙ h)) [
          | inl old ↦ s_ok.within i old
          | inr new ↦ (unfold holds_byte in ground (arith, ok.fits, s_ok.size))
        ]

  found_update :
      (j : String) (t : Session)
      → get_session new_table j ≡ some t
      → (j ≢ c.id × (get_session w.table j ≡ some t))
        ⊎ ((j ≡ c.id) × (t ≡ record s { ranges = ranges_from_json (ranges_to_json new_ranges) }))
  found_update j t h =
      let step = get_session-stored_ranges s.id j new_ranges w.table in
      let id : s.id ≡ c.id = get_session-id c.id w.table s here in
      elim (Bool-cases (s.id == j)) [
        | inl same ↦
            let same_id : j ≡ c.id = sym ((eq_iff s.id j).0 same) ∙ id in
            let found : get_session w.table j ≡ some s =
              ap (λ k. get_session w.table k) same_id ∙ here in
            inr (
              same_id,
              some-injective _ _ (
                  sym h
                  ∙ step
                  ∙ ap
                      (λ b.
                        if b
                        then stored_ranges new_ranges (get_session w.table j)
                        else get_session w.table j)
                      same
                  ∙ ap (stored_ranges new_ranges) found),
            )
        | inr differ ↦ inl (
          λ e. cc (differ, (eq_iff s.id j).1 (id ∙ sym e)),
          sym (
                ap
                  (λ b.
                    if b
                    then stored_ranges new_ranges (get_session w.table j)
                    else get_session w.table j)
                  differ)
              ∙ sym step
              ∙ h,
        )
      ]

  recorded_own :
      SessionOk sent new_world c.id
        (record s { ranges = ranges_from_json (ranges_to_json new_ranges) })
  recorded_own =
      let (v, same) = reread new_ranges new_ranges-IsRange in
      record {
        file = s_ok.file;
        found = s_ok.found;
        size = s_ok.size;
        valid = v;
        within = λ i h. new_within i (sym (same i) ∙ h);
        bytes = λ i h. new_bytes i (sym (same i) ∙ h);
      }

  keep_session : (j : String) (t : Session) → SessionOk sent w j t → SessionOk sent new_world j t
  keep_session j t k = record {
    file = k.file;
    found = k.found;
    size = k.size;
    valid = k.valid;
    within = k.within;
    bytes = k.bytes;
  }

  -- Each session of the new table has a session of the old one with the same file.
  pub old_session :
      (j : String) (t : Session)
      → get_session new_table j ≡ some t
      → (u : Session) × (get_session w.table j ≡ some u) × (u.temp_path ≡ t.temp_path)
  old_session j t h = elim (found_update j t h) [
    | inl (n, e) ↦ (t, e, refl)
    | inr (same, e) ↦
        (s, ap (λ k. get_session w.table k) same ∙ here, ap (λ (x : Session). x.temp_path) (sym e))
  ]

  pub recorded-SessionOk :
      (j : String) (t : Session) → get_session new_table j ≡ some t → SessionOk sent new_world j t
  recorded-SessionOk j t h = elim (found_update j t h) [
    | inl (n, e) ↦ keep_session j t (sessions j t e)
    | inr (same, e) ↦
        subst (λ k. SessionOk sent new_world k t) (sym same)
          (subst (SessionOk sent new_world c.id) (sym e) recorded_own)
  ]

  recorded_distinct :
      (j k : String) (t u : Session)
      → j ≢ k
      → get_session new_table j ≡ some t
      → get_session new_table k ≡ some u
      → t.temp_path ≢ u.temp_path
  recorded_distinct j k t u n h m e =
      let (t', ht, pt) = old_session j t h in
      let (u', hu, pu) = old_session k u m in distinct j k t' u' n ht hu (pt ∙ e ∙ sym pu)

  recorded-ChunkOk : (d : Chunk) → ChunkOk sent w d → ChunkOk sent new_world d
  recorded-ChunkOk d k = record {
    order = k.order;
    whole_body = k.whole_body;
    part = k.part;
    fits = k.fits;
    owner = λ t h. let (t', ht, pt) = old_session d.id t h in sym pt ∙ k.owner t' ht;
    others = λ j t n h e. let (t', ht, pt) = old_session j t h in k.others j t' n ht (pt ∙ e);
    held = λ t f i written h there from to.
        let (t', ht, pt) = old_session d.id t h in k.held t' f i written ht there from to;
  }

  -- The session that a chunk completes.
  module _ (full : ranges_cover_file new_ranges s.total_size ≡ true) where
    abbrev whole : File
    whole = ensure_size s.total_size s_ok.file

    whole-IsWhole : IsWhole sent whole
    whole-IsWhole = record {
      id = c.id;
      size = ensure_size_size s.total_size s_ok.file ∙ s_ok.size;
      bytes = λ i h.
          let lt : i < s.total_size =
            subst (λ n. i < n) (ensure_size_size s.total_size s_ok.file) h in
          ensure_size_byte s.total_size s_ok.file i lt
          ∙ new_bytes i
              (ranges_cover_file_sound new_ranges s.total_size new_ranges-IsRange full i lt);
    }

    abbrev sized : World
    sized = record new_world { temp = update_at w.temp s.temp_path (some whole) }

  recorded_here :
      get_session new_table c.id
      ≡ some (record s { ranges = ranges_from_json (ranges_to_json new_ranges) })
  recorded_here =
      let id : s.id ≡ c.id = get_session-id c.id w.table s here in
      get_session-stored_ranges s.id c.id new_ranges w.table
      ∙ if_true _ _ ((eq_iff s.id c.id).1 id)
      ∙ ap (stored_ranges new_ranges) here

  new-IsSound :
      (rest : List Chunk)
      → All (ChunkOk sent w) rest
      → IsSound sent (record { world = new_world; flying = rest })
  new-IsSound rest h = record {
    sessions = recorded-SessionOk;
    distinct = recorded_distinct;
    chunks = All-map (ChunkOk sent w) (ChunkOk sent new_world) rest recorded-ChunkOk h;
    delivered = delivered;
  }

  -- The folder of the destination cannot be made.
  raised-IsSound :
      (rest : List Chunk) (full : ranges_cover_file new_ranges s.total_size ≡ true)
      → All (ChunkOk sent w) rest
      → IsSound sent (record { world = sized full; flying = rest })
  raised-IsSound rest full h =
      let sound = new-IsSound rest h in
      let kept = record s { ranges = ranges_from_json (ranges_to_json new_ranges) } in
      let again = sized-IsSound sent new_world rest sound c.id kept recorded_here in
      let file : (sound.sessions c.id kept recorded_here).file ≡ s_ok.file =
        some-injective _ _ (sym (sound.sessions c.id kept recorded_here).found ∙ s_ok.found) in
      subst
        (λ f. IsSound sent (record {
          world = record new_world {
            temp = update_at w.temp s.temp_path (some (ensure_size s.total_size f));
          };
          flying = rest;
        }))
        file again

  finished-IsSound :
      (out : Outside) (rest : List Chunk)
      → ranges_cover_file new_ranges s.total_size ≡ true
      → All (ChunkOk sent w) rest
      → IsSound sent (record {
        world = (finalize_complete out s (w.temp c.temp_path) new_world).1;
        flying = rest;
      })
  unfolding finalize_complete
  finished-IsSound out rest full h =
      let there : w.temp c.temp_path ≡ some s_ok.file =
        ap (λ (p : String). w.temp p) (sym (ok.owner s here)) ∙ s_ok.found in
      let result = finalize_upload_to_disk out s (whole full) (sized full) in
      rw there (elim (Bool-cases result.raised) [
        | inl raises ↦ rw raises (
            subst (λ v. IsSound sent (record { world = v; flying = rest }))
              (sym (finalize_upload_to_disk_raises out s (whole full) (sized full) raises))
              (raised-IsSound rest full h))
        | inr ends ↦ rw ends (
            delivered-IsSound sent new_world rest (new-IsSound rest h) c.id
              (record s { ranges = ranges_from_json (ranges_to_json new_ranges) }) recorded_here
              (whole full) (whole-IsWhole full) result.world
              (finalize_upload_to_disk-Delivers out s (whole full) (sized full)))
      ])

  pub recorded-IsSound :
      (out : Outside) (rest : List Chunk)
      → All (ChunkOk sent w) rest
      → IsSound sent
          (record { world = (put_found out c.start c.end c.temp_path (some s) w).1; flying = rest })
  unfolding put_found
  recorded-IsSound out rest h = elim (Bool-cases (ranges_cover_file new_ranges s.total_size)) [
    | inl full ↦ rw full (finished-IsSound out rest full h)
    | inr more ↦ rw more (new-IsSound rest h)
  ]

pub commit-IsSound :
    (sent : String → Sent) (s : System) (before after : List Chunk) (c : Chunk) (out : Outside)
    → IsSound sent s
    → s.flying ≡ before ++ c ∷ after
    → c.written ≡ true
    → IsSound sent (record {
      world = (put_commit out c.id c.start c.end c.temp_path s.world).1;
      flying = before ++ after;
    })
unfolding put_commit put_found
commit-IsSound sent s before after c out h e done =
    let all = subst (All (ChunkOk sent s.world)) e h.chunks in
    let front = All-front (ChunkOk sent s.world) before (c ∷ after) all in
    let back = All-back (ChunkOk sent s.world) before (c ∷ after) all in
    let rest = All-append (ChunkOk sent s.world) before after front back.1 in
    elim (Option-cases (get_session s.world.table c.id)) [
      | inl gone ↦ rw gone (record {
        sessions = h.sessions;
        distinct = h.distinct;
        chunks = rest;
        delivered = h.delivered;
      })
      | inr (session, here) ↦ rw here (
          recorded-IsSound sent s.world h.delivered h.sessions h.distinct c back.0 done session here
            out (before ++ after) rest)
    ]
