-- ===== src/Upload/Flow/Invariant/Delivered.antt =====
-- Delivering a whole file and removing its session keeps the invariant.
use Prim.Native.String.{String}
use aird.Base.{◌≡◌, ◌≢◌, sym, ◌∙◌, ap, subst, inl, inr, some, List, All, All-map}
use aird.Upload.Table.{Session, Table, get_session, delete_session}
use aird.Upload.Table.Laws.{get_session-id}
use aird.Upload.File.{File}
use aird.Upload.Handlers.{World, update_at}
use aird.Upload.Handlers.Complete.{deleted_session}
use aird.Upload.Handlers.Update.{update_at_ne}
use aird.Upload.Handlers.Finish.{Delivers}
use aird.Upload.Flow.{Chunk, Sent}
use aird.Upload.Flow.Invariant.{SessionOk, ChunkOk, IsWhole, IsSound}

module _ (sent : String → Sent) (w : World) (flying : List Chunk)
    (h : IsSound sent (record { world = w; flying = flying })) (id : String) (s : Session)
    (here : get_session w.table id ≡ some s) (whole : File) (complete : IsWhole sent whole)
    (v : World)
    (d : Delivers s.temp_path whole
      (record w { temp = update_at w.temp s.temp_path (some whole) })
      v) where
  abbrev pub final : World
  final = record v { table = delete_session s.id v.table }

  kept :
      (j : String) (t : Session)
      → get_session final.table j ≡ some t
      → (j ≢ id) × (get_session w.table j ≡ some t)
  kept j t e =
      let before : get_session (delete_session s.id w.table) j ≡ some t =
        ap (λ (x : Table). get_session (delete_session s.id x) j) (sym d.table) ∙ e in
      let (n, found) = deleted_session s j t w.table before in
      (λ p. n (p ∙ sym (get_session-id id w.table s here)), found)

  apart :
      (j : String) (t : Session) → get_session final.table j ≡ some t → s.temp_path ≢ t.temp_path
  apart j t e p = let (n, found) = kept j t e in h.distinct j id t s n found here (sym p)

  final_temp : (p : String) → s.temp_path ≢ p → final.temp p ≡ w.temp p
  final_temp p n = d.temp p n ∙ update_at_ne w.temp s.temp_path p (some whole) n

  final-SessionOk :
      (j : String) (t : Session) → get_session final.table j ≡ some t → SessionOk sent final j t
  final-SessionOk j t e =
      let k = h.sessions j t (kept j t e).1 in
      record {
        file = k.file;
        found = final_temp t.temp_path (apart j t e) ∙ k.found;
        size = k.size;
        valid = k.valid;
        within = k.within;
        bytes = k.bytes;
      }

  final-ChunkOk : (c : Chunk) → ChunkOk sent w c → ChunkOk sent final c
  final-ChunkOk c k = record {
    order = k.order;
    whole_body = k.whole_body;
    part = k.part;
    fits = k.fits;
    owner = λ t e. k.owner t (kept c.id t e).1;
    others = λ j t n e. k.others j t n (kept j t e).1;
    held = λ t f i done e there from to.
        let found = (kept c.id t e).1 in
        k.held t f i done found
          (sym (final_temp c.temp_path (λ p. apart c.id t e (p ∙ sym (k.owner t found)))) ∙ there)
          from to;
  }

  final_delivered : All (λ x. IsWhole sent x.1) final.delivered
  final_delivered = elim d.files [
    | inl same ↦ subst (All (λ x. IsWhole sent x.1)) (sym same) h.delivered
    | inr (p, more) ↦ subst (All (λ x. IsWhole sent x.1)) (sym more) (complete, h.delivered)
  ]

  pub delivered-IsSound : IsSound sent (record { world = final; flying = flying })
  delivered-IsSound = record {
    sessions = final-SessionOk;
    distinct = λ j k t u n e f. h.distinct j k t u n (kept j t e).1 (kept k u f).1;
    chunks = All-map (ChunkOk sent w) (ChunkOk sent final) flying final-ChunkOk h.chunks;
    delivered = final_delivered;
  }
