-- ===== src/Upload/Flow/Invariant/Clean.antt =====
-- Removing a session that is stale, with its temporary file, keeps the invariant.
use Prim.Native.String.{String}
use aird.Base.{◌≡◌, ◌≢◌, sym, ◌∙◌, none, some, All-map}
use aird.Upload.Table.{Session, get_session}
use aird.Upload.Table.Laws.{get_session-id}
use aird.Upload.Handlers.{World}
use aird.Upload.Handlers.Complete.{deleted_session}
use aird.Upload.Handlers.Update.{update_at_ne}
use aird.Upload.Flow.{Chunk, System, Sent, clean_session}
use aird.Upload.Flow.Invariant.{SessionOk, ChunkOk, IsSound}

module _ (sent : String → Sent) (s : System) (h : IsSound sent s) (id : String) (old : Session)
    (here : get_session s.world.table id ≡ some old) where
  abbrev pub cleaned : World
  cleaned = clean_session old s.world

  kept :
      (j : String) (t : Session)
      → get_session cleaned.table j ≡ some t
      → (j ≢ id) × (get_session s.world.table j ≡ some t)
  unfolding clean_session
  kept j t e =
      let (n, found) = deleted_session old j t s.world.table e in
      (λ p. n (p ∙ sym (get_session-id id s.world.table old here)), found)

  apart :
      (j : String) (t : Session)
      → get_session cleaned.table j ≡ some t
      → old.temp_path ≢ t.temp_path
  apart j t e p = let (n, found) = kept j t e in h.distinct j id t old n found here (sym p)

  cleaned_temp : (p : String) → old.temp_path ≢ p → cleaned.temp p ≡ s.world.temp p
  unfolding clean_session
  cleaned_temp p n = update_at_ne s.world.temp old.temp_path p none n

  cleaned-SessionOk :
      (j : String) (t : Session) → get_session cleaned.table j ≡ some t → SessionOk sent cleaned j t
  cleaned-SessionOk j t e =
      let k = h.sessions j t (kept j t e).1 in
      record {
        file = k.file;
        found = cleaned_temp t.temp_path (apart j t e) ∙ k.found;
        size = k.size;
        valid = k.valid;
        within = k.within;
        bytes = k.bytes;
      }

  cleaned-ChunkOk : (c : Chunk) → ChunkOk sent s.world c → ChunkOk sent cleaned c
  cleaned-ChunkOk c k = record {
    order = k.order;
    whole_body = k.whole_body;
    part = k.part;
    fits = k.fits;
    owner = λ t e. k.owner t (kept c.id t e).1;
    others = λ j t n e. k.others j t n (kept j t e).1;
    held = λ t f i done e there from to.
        let found = (kept c.id t e).1 in
        k.held t f i done found
          (sym (cleaned_temp c.temp_path (λ p. apart c.id t e (p ∙ sym (k.owner t found)))) ∙ there)
          from to;
  }

  pub clean-IsSound : IsSound sent (record s { world = cleaned })
  unfolding clean_session
  clean-IsSound = record {
    sessions = cleaned-SessionOk;
    distinct = λ j k t u n e f. h.distinct j k t u n (kept j t e).1 (kept k u f).1;
    chunks =
        All-map (ChunkOk sent s.world) (ChunkOk sent cleaned) s.flying cleaned-ChunkOk h.chunks;
    delivered = h.delivered;
  }
