-- ===== src/Upload/Flow.antt =====
-- The uploads as a whole: sessions are opened, chunks are admitted, written, in part or whole,
-- and recorded, and old sessions are removed, each of these at once and any of them between two
-- of another request. `put` waits for the rate limiter, for the disk and for the session's lock
-- between them.
pub mod Invariant
pub mod Integrity
pub mod Limit
use Prim.Native.String.{String}
use aird.Base.{
  ℕ, suc, take, ◌+◌, ◌<◌, ◌≡◌, ◌≢◌, Bool, true, false, none, some, List, [], ◌∷◌, ◌++◌, All, length,
  get_or,
}
use aird.Upload.Table.{Session, get_session, delete_session}
use aird.Upload.File.{File, stored, write_at, copy_range_file}
use aird.Upload.Handlers.{Reply, World, Outside, update_at, put_commit}
use aird.Upload.Requests.{PostRequest, post, PutRequest, goes, put_check}

-- A chunk that passed the tests of `put`.
pub record Chunk : Type 0 where
  pub id : String
  pub temp_path : String
  pub start : ℕ
  pub end : ℕ
  pub body : List ℕ
  pub written : Bool

pub record System : Type 0 where
  pub world : World
  pub flying : List Chunk

-- The file that the client of an upload sends: its length and its bytes.
pub record Sent : Type 0 where
  pub size : ℕ
  pub byte : ℕ → ℕ

module _ (sent : String → Sent) where
  -- The body of a chunk is the part of the client's file that begins at `start`.
  abbrev pub IsPart : String → ℕ → List ℕ → Type 0
  IsPart id start body = (i : ℕ) → i < length body → get_or body i 0 ≡ (sent id).byte (start + i)

-- A new identifier and a new temporary file: both names are random, and `mkstemp` never returns
-- a file that is there.
pub record IsFresh (q : PostRequest) (s : System) : Type 0 where
  pub id_new : All (λ c. c.id ≢ q.session_id) s.flying
  pub path_new :
      (j : String) (t : Session) → get_session s.world.table j ≡ some t → t.temp_path ≢ q.temp_path
  pub chunk_path_new : All (λ c. c.temp_path ≢ q.temp_path) s.flying

-- What the cleaning of aird/main.py does to a session that is older than a day, if the temporary
-- file can be removed; else it leaves the session for the next time.
unfoldable pub clean_session : Session → World → World
clean_session session w = record w {
  table = delete_session session.id w.table;
  temp = update_at w.temp session.temp_path none;
}

module _ (sent : String → Sent) (accept : ℕ → ℕ → ℕ) where
  pub data Step : System → System → Type 0 where
    open_session :
        (s : System) (q : PostRequest) (reply : Reply) (w : World)
        → IsFresh q s
        → q.total_size ≡ some (sent q.session_id).size
        → post q s.world ≡ some (reply, w)
        → Step s (record s { world = w })
    admit :
        (s : System) (q : PutRequest) (id : String) (session : Session) (start end : ℕ)
        (body : List ℕ)
        → put_check q id s.world.table ≡ goes session start end
        → length body ≡ q.body_length
        → IsPart sent id start body
        → Step s (record s {
          flying =
              record {
                id = id;
                temp_path = session.temp_path;
                start = start;
                end = end;
                body = body;
                written = false;
              }
              ∷ s.flying;
        })
    write :
        (s : System) (before after : List Chunk) (c : Chunk) (file file' : File)
        → s.flying ≡ before ++ c ∷ after
        → s.world.temp c.temp_path ≡ some file
        → copy_range_file accept c.start c.body file ≡ stored file'
        → Step s (record {
          world = record (s.world) { temp = update_at s.world.temp c.temp_path (some file') };
          flying = before ++ record c { written = true } ∷ after;
        })
    commit :
        (s : System) (before after : List Chunk) (c : Chunk) (out : Outside)
        → s.flying ≡ before ++ c ∷ after
        → c.written ≡ true
        → Step s (record {
          world = (put_commit out c.id c.start c.end c.temp_path s.world).1;
          flying = before ++ after;
        })
    -- The write fails, or is cut off, when the first `n + 1` bytes of the chunk are in the file.
    cut_off :
        (s : System) (before after : List Chunk) (c : Chunk) (file : File) (n : ℕ)
        → s.flying ≡ before ++ c ∷ after
        → s.world.temp c.temp_path ≡ some file
        → n < length c.body
        → Step s (record {
          world = record (s.world) {
            temp =
                update_at s.world.temp c.temp_path
                  (some (write_at c.start (take (suc n) c.body) file));
          };
          flying = before ++ after;
        })
    clean :
        (s : System) (id : String) (session : Session)
        → get_session s.world.table id ≡ some session
        → Step s (record s { world = clean_session session s.world })
    -- The request fails before it has written anything, or is cut off.
    drop :
        (s : System) (before after : List Chunk) (c : Chunk)
        → s.flying ≡ before ++ c ∷ after
        → Step s (record s { flying = before ++ after })

  pub data Reach (s : System) : System → Type 0 where
    here : Reach s s
    next : {t u : System} → Reach s t → Step t u → Reach s u

abbrev pub start_world : World
start_world = record { table = []; temp = λ p. none; delivered = []; used = λ u. 0 }

abbrev pub start_system : System
start_system = record { world = start_world; flying = [] }
