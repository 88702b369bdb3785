-- ===== src/Upload/Flow/Integrity.antt =====
-- Every file that an upload delivers is the one that its client sent.
use Prim.Native.String.{String}
use mathlib.Core.Option.{some-injective}
use aird.Base.{
  ℕ, zero, suc, ◌+◌, ◌<◌, ◌≤◌, take, get_or, length-take, arith, refl, [], ◌≡◌, sym, ◌∙◌, ap, subst,
  true, false, some, List, ◌∷◌, ◌++◌, All, All-front, All-back, All-append, All-map, length,
}
use aird.Upload.Table.{Session}
use aird.Upload.File.{File, stored, write_at}
use aird.Upload.File.Laws.{Accepts, chunk_stored}
use aird.Upload.Handlers.{World, update_at}
use aird.Upload.Requests.{PutRequest, put_check, goes}
use aird.Upload.Requests.Laws.{put_check_goes}
use aird.Upload.Flow.{
  Chunk, System, Sent, IsPart, Step, open_session, admit, write, commit, cut_off, clean, drop,
  Reach, here, next, start_system,
}
use aird.Upload.Flow.Invariant.{ChunkOk, IsWhole, IsSound, start_system-IsSound}
use aird.Upload.Flow.Invariant.Write.{
  written_world, write-SessionOk, write-ChunkOk, written-ChunkOk,
}
use aird.Upload.Flow.Invariant.Commit.{commit-IsSound}
use aird.Upload.Flow.Invariant.Clean.{clean-IsSound}
use aird.Upload.Flow.Invariant.Open.{open_session-IsSound}

stored-injective : {f g : File} → stored f ≡ stored g → f ≡ g
stored-injective h = cc

get_or-take : (n : ℕ) (xs : List ℕ) (i : ℕ) → i < n → get_or (take n xs) i 0 ≡ get_or xs i 0
get_or-take zero xs i h = absurd (omega arith)
get_or-take (suc n) [] i h = refl
get_or-take (suc n) (x ∷ xs) zero h = ground arith
get_or-take (suc n) (x ∷ xs) (suc i) h = ground (arith, get_or-take n xs i (omega arith))

module _ (sent : String → Sent) where
  admitted-ChunkOk :
      (s : System) (q : PutRequest) (id : String) (session : Session) (start end : ℕ)
      (body : List ℕ)
      → IsSound sent s
      → put_check q id s.world.table ≡ goes session start end
      → length body ≡ q.body_length
      → IsPart sent id start body
      → ChunkOk sent s.world (record {
        id = id;
        temp_path = session.temp_path;
        start = start;
        end = end;
        body = body;
        written = false;
      })
  admitted-ChunkOk s q id session start end body h e n part =
      let a = put_check_goes q id s.world.table session start end e in
      record {
        order = a.order;
        whole_body = n ∙ a.range.length;
        part = part;
        fits = omega (arith, a.range.within, (h.sessions id session a.found).size);
        owner =
            λ t found. ap (λ (x : Session). x.temp_path) (some-injective _ _ (sym found ∙ a.found));
        others = λ j t d found. h.distinct j id t session d found a.found;
        held = λ t f i done. cc;
      }

  write-IsSound :
      (s : System) (before after : List Chunk) (c : Chunk) (file : File)
      → IsSound sent s
      → s.flying ≡ before ++ c ∷ after
      → (there : s.world.temp c.temp_path ≡ some file)
      → IsSound sent (record {
        world = record (s.world) {
          temp = update_at s.world.temp c.temp_path (some (write_at c.start c.body file));
        };
        flying = before ++ record c { written = true } ∷ after;
      })
  write-IsSound s before after c file h e there =
      let all = subst (All (ChunkOk sent s.world)) e h.chunks in
      let front = All-front (ChunkOk sent s.world) before (c ∷ after) all in
      let back = All-back (ChunkOk sent s.world) before (c ∷ after) all in
      let w = written_world sent s.world c back.0 file there in
      let keep = write-ChunkOk sent s.world c back.0 file there in
      record {
        sessions = λ j t found.
            write-SessionOk sent s.world c back.0 file there j t found (h.sessions j t found);
        distinct = h.distinct;
        chunks =
            All-append (ChunkOk sent w) before (record c { written = true } ∷ after)
              (All-map (ChunkOk sent s.world) (ChunkOk sent w) before keep front)
              (
                written-ChunkOk sent s.world c back.0 file there,
                All-map (ChunkOk sent s.world) (ChunkOk sent w) after keep back.1,
              );
        delivered = h.delivered;
      }

  -- A part of a chunk, from its beginning, is itself a chunk that could have been sent.
  cut-ChunkOk :
      (w : World) (c : Chunk) (n : ℕ)
      → n < length c.body
      → ChunkOk sent w c
      → ChunkOk sent w (record c { body = take (suc n) c.body; end = c.start + n })
  cut-ChunkOk w c n lt k =
      let size : length (take (suc n) c.body) ≡ suc n = omega (arith, length-take (suc n) c.body) in
      let shorter : c.start + n ≤ c.end = omega (arith, k.whole_body, k.order) in
      record {
        order = omega arith;
        whole_body = omega (arith, size);
        part = λ i h.
            get_or-take (suc n) c.body i (omega (arith, size)) ∙ k.part i (omega (arith, size));
        fits = omega (arith, shorter, k.fits);
        owner = k.owner;
        others = k.others;
        held =
            λ t f i done e there from to. k.held t f i done e there from (omega (arith, shorter));
      }

  cut_off-IsSound :
      (s : System) (before after : List Chunk) (c : Chunk) (file : File) (n : ℕ)
      → IsSound sent s
      → s.flying ≡ before ++ c ∷ after
      → (there : s.world.temp c.temp_path ≡ some file) → n < length c.body
      → IsSound sent (record {
        world = record (s.world) {
          temp =
              update_at s.world.temp c.temp_path
                (some (write_at c.start (take (suc n) c.body) file));
        };
        flying = before ++ after;
      })
  cut_off-IsSound s before after c file n h e there lt =
      let all = subst (All (ChunkOk sent s.world)) e h.chunks in
      let front = All-front (ChunkOk sent s.world) before (c ∷ after) all in
      let back = All-back (ChunkOk sent s.world) before (c ∷ after) all in
      let cut = record c { body = take (suc n) c.body; end = c.start + n } in
      let ok = cut-ChunkOk s.world c n lt back.0 in
      let w = written_world sent s.world cut ok file there in
      let keep = write-ChunkOk sent s.world cut ok file there in
      record {
        sessions = λ j t found.
            write-SessionOk sent s.world cut ok file there j t found (h.sessions j t found);
        distinct = h.distinct;
        chunks =
            All-append (ChunkOk sent w) before after
              (All-map (ChunkOk sent s.world) (ChunkOk sent w) before keep front)
              (All-map (ChunkOk sent s.world) (ChunkOk sent w) after keep back.1);
        delivered = h.delivered;
      }

  module _ (accept : ℕ → ℕ → ℕ) (progress : Accepts accept) where
    Step-IsSound : {s t : System} → Step sent accept s t → IsSound sent s → IsSound sent t
    Step-IsSound (open_session s q reply w fresh said e) h =
        open_session-IsSound sent s q reply w h fresh said e
    Step-IsSound (admit s q id session start end body e n part) h = record {
      sessions = h.sessions;
      distinct = h.distinct;
      chunks = (admitted-ChunkOk s q id session start end body h e n part, h.chunks);
      delivered = h.delivered;
    }
    Step-IsSound (write s before after c file file' e there done) h =
        let same : write_at c.start c.body file ≡ file' =
          stored-injective (sym (chunk_stored accept c.start c.body file progress).1 ∙ done) in
        subst
          (λ f. IsSound sent (record {
            world = record (s.world) { temp = update_at s.world.temp c.temp_path (some f) };
            flying = before ++ record c { written = true } ∷ after;
          }))
          same (write-IsSound s before after c file h e there)
    Step-IsSound (commit s before after c out e done) h =
        commit-IsSound sent s before after c out h e done
    Step-IsSound (cut_off s before after c file n e there part) h =
        cut_off-IsSound s before after c file n h e there part
    Step-IsSound (clean s id session found) h = clean-IsSound sent s h id session found
    Step-IsSound (drop s before after c e) h =
        let all = subst (All (ChunkOk sent s.world)) e h.chunks in
        record {
          sessions = h.sessions;
          distinct = h.distinct;
          chunks =
              All-append (ChunkOk sent s.world) before after
                (All-front (ChunkOk sent s.world) before (c ∷ after) all)
                (All-back (ChunkOk sent s.world) before (c ∷ after) all).1;
          delivered = h.delivered;
        }

    pub Reach-IsSound : {s t : System} → IsSound sent s → Reach sent accept s t → IsSound sent t
    Reach-IsSound h here = h
    Reach-IsSound h (next r st) = Step-IsSound st (Reach-IsSound h r)

-- If clients send in each chunk the part of their file that its header names, if identifiers and
-- temporary files are new, and if the disk stores some bytes at each call of a write that does
-- not fail, then in whatever order sessions are opened or cleaned away and chunks are admitted,
-- written, cut off with a part of them written, recorded or dropped, every delivered file has the
-- length and the bytes of the file that one client sent.
pub delivered_files :
    (sent : String → Sent) (accept : ℕ → ℕ → ℕ) (s : System)
    → Accepts accept
    → Reach sent accept start_system s
    → All (λ d. IsWhole sent d.1) s.world.delivered
delivered_files sent accept s progress r =
    (Reach-IsSound sent accept progress (start_system-IsSound sent) r).delivered
