-- ===== src/Upload/Flow/Invariant/Open.antt =====
-- Opening a session keeps the invariant.
use Prim.Native.String.{String}
use mathlib.Core.Option.{some-injective}
use text.Mathlib.Text.{◌==◌}
use text.Mathlib.TextEquality.{eq_iff}
use aird.Base.{
  ◌≡◌, ◌≢◌, refl, sym, ◌⊎◌, ◌∙◌, ap, subst, inl, inr, true, false, Bool-cases, some, List, [], All,
  ◌∷◌, if◌then◌else◌,
}
use aird.Range.{covers, ranges_from_json, merge_ranges}
use aird.Upload.Table.{Row, Session, session_of, get_session}
use aird.Upload.Table.Laws.{get_session-create_session}
use aird.Upload.File.{empty_file}
use aird.Upload.Handlers.{World, update_at, Reply}
use aird.Upload.Handlers.Update.{update_at_self, update_at_ne}
use aird.Upload.Requests.{PostRequest, post, new_row}
use aird.Upload.Requests.Laws.{Opens, post-Opens}
use aird.Upload.Flow.{Chunk, System, Sent, IsFresh}
use aird.Upload.Flow.Invariant.{SessionOk, ChunkOk, IsSound}

module _ (sent : String → Sent) (s : System) (h : IsSound sent s) (q : PostRequest)
    (fresh : IsFresh q s) (v : World) (o : Opens q s.world v)
    (said : q.total_size ≡ some (sent q.session_id).size) where
  abbrev row : Row
  row = record (new_row q o.total) { ranges = [] }

  abbrev opened : Session
  opened = session_of row

  abbrev opened_world : World
  opened_world = record (s.world) {
    table = v.table;
    temp = update_at s.world.temp q.temp_path (some empty_file);
  }

  opened_get :
      (j : String) (t : Session)
      → get_session v.table j ≡ some t
      → ((j ≡ q.session_id) × (opened ≡ t))
        ⊎ ((j ≢ q.session_id) × (get_session s.world.table j ≡ some t))
  unfolding new_row
  opened_get j t e =
      let law =
        (get_session-create_session (new_row q o.total) j s.world.table v.table o.table).1 in
      go law (Bool-cases (q.session_id == j))
    where
      go :
          get_session v.table j
            ≡ (if q.session_id == j then some opened else get_session s.world.table j)
          → ((q.session_id == j) ≡ true) ⊎ ((q.session_id == j) ≡ false)
          → ((j ≡ q.session_id) × (opened ≡ t))
            ⊎ ((j ≢ q.session_id) × (get_session s.world.table j ≡ some t))
      go law (inl same) = inl (
        sym ((eq_iff q.session_id j).0 same),
        some-injective _ _
            (sym (law ∙ ap (λ b. if b then some opened else get_session s.world.table j) same) ∙ e),
      )
      go law (inr differ) = inr (
        λ p. cc (differ, (eq_iff q.session_id j).1 (sym p)),
        sym (law ∙ ap (λ b. if b then some opened else get_session s.world.table j) differ) ∙ e,
      )

  opened-SessionOk : SessionOk sent opened_world q.session_id opened
  unfolding new_row session_of ranges_from_json merge_ranges covers
  opened-SessionOk = record {
    file = empty_file;
    found = update_at_self s.world.temp q.temp_path (some empty_file);
    size = some-injective _ _ (sym o.asked ∙ said);
    valid = tt;
    within = λ i e. cc;
    bytes = λ i e. cc;
  }

  kept-SessionOk :
      (j : String) (t : Session)
      → t.temp_path ≢ q.temp_path
      → SessionOk sent s.world j t
      → SessionOk sent opened_world j t
  kept-SessionOk j t n k = record {
    file = k.file;
    found =
        update_at_ne s.world.temp q.temp_path t.temp_path (some empty_file) (λ p. n (sym p))
        ∙ k.found;
    size = k.size;
    valid = k.valid;
    within = k.within;
    bytes = k.bytes;
  }

  opened_path : opened.temp_path ≡ q.temp_path
  unfolding new_row session_of
  opened_path = refl

  opened_distinct :
      (j k : String) (t u : Session)
      → j ≢ k
      → get_session v.table j ≡ some t
      → get_session v.table k ≡ some u
      → t.temp_path ≢ u.temp_path
  opened_distinct j k t u n a b p = go (opened_get j t a) (opened_get k u b)
    where
      go :
          ((j ≡ q.session_id) × (opened ≡ t))
            ⊎ ((j ≢ q.session_id) × (get_session s.world.table j ≡ some t))
          → ((k ≡ q.session_id) × (opened ≡ u))
            ⊎ ((k ≢ q.session_id) × (get_session s.world.table k ≡ some u))
          → ⊥
      go (inl (e, _)) (inl (f, _)) = n (e ∙ sym f)
      go (inl (_, e)) (inr (_, f)) =
          fresh.path_new k u f (sym p ∙ ap (λ (x : Session). x.temp_path) (sym e) ∙ opened_path)
      go (inr (_, f)) (inl (_, e)) =
          fresh.path_new j t f (p ∙ ap (λ (x : Session). x.temp_path) (sym e) ∙ opened_path)
      go (inr (_, e)) (inr (_, f)) = h.distinct j k t u n e f p

  opened-ChunkOk :
      (c : Chunk)
      → c.id ≢ q.session_id
      → c.temp_path ≢ q.temp_path
      → ChunkOk sent s.world c
      → ChunkOk sent opened_world c
  opened-ChunkOk c n m k = record {
    order = k.order;
    whole_body = k.whole_body;
    part = k.part;
    fits = k.fits;
    owner = λ t e. k.owner t (own t e);
    others = λ j t d e. elim (opened_get j t e) [
      | inl (_, same) ↦ λ p. m (sym p ∙ ap (λ (x : Session). x.temp_path) (sym same) ∙ opened_path)
      | inr (_, old) ↦ k.others j t d old
    ];
    held = λ t f i done e there from to.
        k.held t f i done (own t e)
          (sym
              (update_at_ne s.world.temp q.temp_path c.temp_path (some empty_file) (λ p. m (sym p)))
            ∙ there)
          from to;
  }
    where
      own :
          (t : Session)
          → get_session v.table c.id ≡ some t
          → get_session s.world.table c.id ≡ some t
      own t e = elim (opened_get c.id t e) [ inl (same, _) ↦ absurd (n same) | inr (_, old) ↦ old ]

  opened_chunks :
      (cs : List Chunk)
      → All (λ c. c.id ≢ q.session_id) cs
      → All (λ c. c.temp_path ≢ q.temp_path) cs
      → All (ChunkOk sent s.world) cs
      → All (ChunkOk sent opened_world) cs
  opened_chunks [] a b k = tt
  opened_chunks (c ∷ cs) (a, as') (b, bs) (k, ks) =
      (opened-ChunkOk c a b k, opened_chunks cs as' bs ks)

  opened-IsSound : IsSound sent (record s { world = opened_world })
  opened-IsSound = record {
    sessions = λ j t e. elim (opened_get j t e) [
      | inl (same, is) ↦
          subst (λ k. SessionOk sent opened_world k t) (sym same)
            (subst (SessionOk sent opened_world q.session_id) is opened-SessionOk)
      | inr (_, old) ↦ kept-SessionOk j t (fresh.path_new j t old) (h.sessions j t old)
    ];
    distinct = opened_distinct;
    chunks = opened_chunks s.flying fresh.id_new fresh.chunk_path_new h.chunks;
    delivered = h.delivered;
  }

pub open_session-IsSound :
    (sent : String → Sent) (s : System) (q : PostRequest) (reply : Reply) (v : World)
    → IsSound sent s
    → IsFresh q s
    → q.total_size ≡ some (sent q.session_id).size
    → post q s.world ≡ some (reply, v)
    → IsSound sent (record s { world = v })
open_session-IsSound sent s q reply v h fresh said e = elim (post-Opens q s.world v reply e) [
  | inl same ↦ subst (λ w. IsSound sent (record s { world = w })) (sym same) h
  | inr o ↦
      subst (λ w. IsSound sent (record s { world = w })) (sym o.world)
        (opened-IsSound sent s h q fresh v o said)
]
