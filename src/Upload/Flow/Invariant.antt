-- ===== src/Upload/Flow/Invariant.antt =====
-- What holds of sessions, chunks and delivered files, and that it holds at first.
pub mod Write
pub mod Commit
pub mod Open
pub mod Sized
pub mod Clean
pub mod Delivered
use Prim.Native.String.{String}
use text.Mathlib.TextEquality.{eq_iff}
use text.Mathlib.Text.{◌==◌}
use aird.Base.{ℕ, ◌+◌, ◌-◌, ◌<◌, ◌≤◌, ◌≡◌, ◌≢◌, ◌⊎◌, true, some, [], ◌∷◌, ◌++◌, All, length}
use aird.Range.{IsRange, covers}
use aird.Upload.Table.{Session, get_session}
use aird.Upload.File.{File}
use aird.Upload.Handlers.{World}
use aird.Upload.Flow.{Chunk, System, Sent, IsPart, start_system}

module _ (sent : String → Sent) where
  -- The temporary file of a session holds what its ranges say.
  pub record SessionOk (w : World) (id : String) (s : Session) : Type 0 where
    pub file : File
    pub found : w.temp s.temp_path ≡ some file
    pub size : s.total_size ≡ (sent id).size
    pub valid : All IsRange s.ranges
    pub within : (i : ℕ) → covers s.ranges i ≡ true → i < s.total_size
    pub bytes : (i : ℕ) → covers s.ranges i ≡ true → file.byte i ≡ (sent id).byte i

  pub record ChunkOk (w : World) (c : Chunk) : Type 0 where
    pub order : c.start ≤ c.end
    pub whole_body : length c.body ≡ c.end - c.start + 1
    pub part : IsPart sent c.id c.start c.body
    pub fits : c.end < (sent c.id).size
    pub owner : (t : Session) → get_session w.table c.id ≡ some t → t.temp_path ≡ c.temp_path
    pub others :
        (j : String) (t : Session)
        → j ≢ c.id
        → get_session w.table j ≡ some t
        → t.temp_path ≢ c.temp_path
    pub held :
        (t : Session) (file : File) (i : ℕ)
        → c.written ≡ true
        → get_session w.table c.id ≡ some t
        → w.temp c.temp_path ≡ some file
        → c.start ≤ i
        → i ≤ c.end
        → file.byte i ≡ (sent c.id).byte i

  -- A delivered file is the file of one client, byte for byte and of the same length.
  pub record IsWhole (f : File) : Type 0 where
    pub id : String
    pub size : f.size ≡ (sent id).size
    pub bytes : (i : ℕ) → i < f.size → f.byte i ≡ (sent id).byte i

  pub record IsSound (s : System) : Type 0 where
    pub sessions :
        (j : String) (t : Session) → get_session s.world.table j ≡ some t → SessionOk s.world j t
    pub distinct :
        (j k : String) (t u : Session)
        → j ≢ k
        → get_session s.world.table j ≡ some t
        → get_session s.world.table k ≡ some u
        → t.temp_path ≢ u.temp_path
    pub chunks : All (ChunkOk s.world) s.flying
    pub delivered : All (λ d. IsWhole d.1) s.world.delivered

  pub start_system-IsSound : IsSound start_system
  unfolding get_session
  start_system-IsSound = record {
    sessions = λ j t h. cc;
    distinct = λ j k t u n h. cc;
    chunks = tt;
    delivered = tt;
  }
