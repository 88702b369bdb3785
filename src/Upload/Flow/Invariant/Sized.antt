-- ===== src/Upload/Flow/Invariant/Sized.antt =====
-- Bringing a temporary file to the length of its session keeps the invariant.
use Prim.Native.String.{String}
use mathlib.Core.Option.{some-injective}
use aird.Base.{
  ℕ, ◌<◌, ◌≤◌, ◌≡◌, ◌≢◌, sym, ◌∙◌, ap, subst, inl, inr, true, some, List, All-map, arith,
}
use aird.Upload.Table.{Session, get_session}
use aird.Upload.File.{File, ensure_size}
use aird.Upload.Handlers.{World, update_at}
use aird.Upload.Flow.{Chunk, Sent}
use aird.Upload.Flow.Invariant.{SessionOk, ChunkOk, IsSound}
use aird.Upload.Handlers.Update.{String-cases, update_at_self, update_at_ne}

pub ensure_size_size : (n : ℕ) (f : File) → (ensure_size n f).size ≡ n
unfolding ensure_size
ensure_size_size n f = ground arith

pub ensure_size_byte : (n : ℕ) (f : File) (i : ℕ) → i < n → (ensure_size n f).byte i ≡ f.byte i
unfolding ensure_size
ensure_size_byte n f i h = ground arith

module _ (sent : String → Sent) (w : World) (flying : List Chunk)
    (h : IsSound sent (record { world = w; flying = flying })) (id : String) (s : Session)
    (here : get_session w.table id ≡ some s) where
  abbrev pub own : SessionOk sent w id s
  own = h.sessions id s here

  abbrev pub whole : File
  whole = ensure_size s.total_size own.file

  abbrev pub sized : World
  sized = record w { temp = update_at w.temp s.temp_path (some whole) }

  whole_byte : (i : ℕ) → i < s.total_size → whole.byte i ≡ own.file.byte i
  whole_byte i lt = ensure_size_byte s.total_size own.file i lt

  sized_own : SessionOk sent sized id s
  sized_own = record {
    file = whole;
    found = update_at_self w.temp s.temp_path (some whole);
    size = own.size;
    valid = own.valid;
    within = own.within;
    bytes = λ i e. whole_byte i (own.within i e) ∙ own.bytes i e;
  }

  apart :
      (j : String) (t : Session)
      → j ≢ id
      → get_session w.table j ≡ some t
      → s.temp_path ≢ t.temp_path
  apart j t n e p = h.distinct j id t s n e here (sym p)

  sized-SessionOk :
      (j : String) (t : Session) → get_session w.table j ≡ some t → SessionOk sent sized j t
  sized-SessionOk j t e = elim (String-cases j id) [
    | inl same ↦
        subst (λ k. SessionOk sent sized k t) (sym same)
          (subst (SessionOk sent sized id)
            (some-injective _ _ (sym here ∙ ap (λ k. get_session w.table k) (sym same) ∙ e))
            sized_own)
    | inr differ ↦
        let k = h.sessions j t e in
        record {
          file = k.file;
          found =
              update_at_ne w.temp s.temp_path t.temp_path (some whole) (apart j t differ e)
              ∙ k.found;
          size = k.size;
          valid = k.valid;
          within = k.within;
          bytes = k.bytes;
        }
  ]

  -- A chunk of the session whose file is brought to its length.
  held_own :
      (c : Chunk)
      → ChunkOk sent w c
      → (t : Session) (i : ℕ) → c.written ≡ true
      → get_session w.table c.id ≡ some t
      → c.id ≡ id
      → c.start ≤ i
      → i ≤ c.end
      → whole.byte i ≡ (sent c.id).byte i
  held_own c k t i done e same from to =
      let found : get_session w.table id ≡ some t =
        ap (λ j. get_session w.table j) (sym same) ∙ e in
      let path : s.temp_path ≡ c.temp_path =
        ap (λ (x : Session). x.temp_path) (some-injective _ _ (sym here ∙ found)) ∙ k.owner t e in
      let size : (sent c.id).size ≡ s.total_size = ap (λ j. (sent j).size) same ∙ sym own.size in
      whole_byte i (omega (arith, size, k.fits))
      ∙ k.held t own.file i done e (ap (λ (p : String). w.temp p) (sym path) ∙ own.found) from to

  sized-ChunkOk : (c : Chunk) → ChunkOk sent w c → ChunkOk sent sized c
  sized-ChunkOk c k = record {
    order = k.order;
    whole_body = k.whole_body;
    part = k.part;
    fits = k.fits;
    owner = k.owner;
    others = k.others;
    held = λ t f i done e there from to. elim (String-cases c.id id) [
      | inl same ↦
          let path : s.temp_path ≡ c.temp_path =
            ap (λ (x : Session). x.temp_path)
              (some-injective _ _ (sym here ∙ ap (λ j. get_session w.table j) (sym same) ∙ e))
            ∙ k.owner t e in
          let equal : whole ≡ f = some-injective _ _ (
            sym (update_at_self w.temp s.temp_path (some whole))
            ∙ ap (λ (p : String). sized.temp p) path
            ∙ there) in
          ap (λ (g : File). g.byte i) (sym equal) ∙ held_own c k t i done e same from to
      | inr differ ↦
          k.held t f i done e
            (sym (
                update_at_ne w.temp s.temp_path c.temp_path (some whole)
                  (λ p. apart c.id t differ e (p ∙ sym (k.owner t e))))
              ∙ there)
            from to
    ];
  }

  pub sized-IsSound : IsSound sent (record { world = sized; flying = flying })
  sized-IsSound = record {
    sessions = sized-SessionOk;
    distinct = h.distinct;
    chunks = All-map (ChunkOk sent w) (ChunkOk sent sized) flying sized-ChunkOk h.chunks;
    delivered = h.delivered;
  }
