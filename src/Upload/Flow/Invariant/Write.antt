-- ===== src/Upload/Flow/Invariant/Write.antt =====
-- Writing a chunk, admitting one and dropping one keep the invariant.
use Prim.Native.String.{String}
use mathlib.Core.Option.{some-injective}
use aird.Base.{
  ℕ, ◌+◌, ◌-◌, ◌≤◌, ◌≡◌, ◌≢◌, refl, sym, ◌⊎◌, ◌∙◌, ap, subst, inl, inr, true, Bool-cases, ◌&&◌,
  some, length, get_or, leb, ltb, arith, if◌then◌else◌,
}
use aird.Range.{covers}
use aird.Upload.Table.{Session, get_session}
use aird.Upload.File.{File, write_at}
use aird.Upload.File.Laws.{write_at_byte}
use aird.Upload.Handlers.{World, update_at}
use aird.Upload.Flow.{Chunk, Sent}
use aird.Upload.Flow.Invariant.{SessionOk, ChunkOk}
use aird.Upload.Handlers.Update.{String-cases, update_at_self, update_at_ne}

module _ (sent : String → Sent) (w : World) (c : Chunk) (ok : ChunkOk sent w c) (file : File)
    (there : w.temp c.temp_path ≡ some file) where
  abbrev file' : File
  file' = write_at c.start c.body file

  abbrev pub written_world : World
  written_world = record w { temp = update_at w.temp c.temp_path (some file') }

  file'_part : (i : ℕ) → c.start ≤ i → i ≤ c.end → file'.byte i ≡ (sent c.id).byte i
  file'_part i h k =
      let cut : leb c.start i && ltb i (c.start + length c.body) ≡ true =
        ground (arith, ok.whole_body, ok.order) in
      let place : c.start + (i - c.start) ≡ i = omega arith in
      write_at_byte c.start c.body file i
      ∙ ap (λ b. if b then get_or c.body (i - c.start) 0 else file.byte i) cut
      ∙ ok.part (i - c.start) (omega (arith, ok.whole_body, ok.order))
      ∙ ap (λ n. (sent c.id).byte n) place

  file'_keeps : (i : ℕ) → file.byte i ≡ (sent c.id).byte i → file'.byte i ≡ (sent c.id).byte i
  file'_keeps i h = elim (Bool-cases (leb c.start i && ltb i (c.start + length c.body))) [
    | inl inside ↦ file'_part i (ground arith) (ground (arith, ok.whole_body, ok.order))
    | inr outside ↦
        write_at_byte c.start c.body file i
        ∙ ap (λ b. if b then get_or c.body (i - c.start) 0 else file.byte i) outside
        ∙ h
  ]

  same_file :
      (t : Session)
      → get_session w.table c.id ≡ some t
      → (s : SessionOk sent w c.id t) (i : ℕ) → covers t.ranges i ≡ true
      → file.byte i ≡ (sent c.id).byte i
  same_file t e s i covered =
      let equal : s.file ≡ file =
        some-injective _ _ (sym s.found ∙ ap (λ (p : String). w.temp p) (ok.owner t e) ∙ there) in
      ap (λ (f : File). f.byte i) (sym equal) ∙ s.bytes i covered

  session_owned :
      (t : Session)
      → get_session w.table c.id ≡ some t
      → SessionOk sent w c.id t
      → SessionOk sent written_world c.id t
  session_owned t e s = record {
    file = file';
    found = rw (ok.owner t e) (update_at_self w.temp c.temp_path (some file'));
    size = s.size;
    valid = s.valid;
    within = s.within;
    bytes = λ i covered. file'_keeps i (same_file t e s i covered);
  }

  pub write-SessionOk :
      (j : String) (t : Session)
      → get_session w.table j ≡ some t
      → SessionOk sent w j t
      → SessionOk sent written_world j t
  write-SessionOk j t e s = elim (String-cases j c.id) [
    | inl same ↦
        subst (λ k. SessionOk sent written_world k t) (sym same)
          (session_owned t (subst (λ k. get_session w.table k ≡ some t) same e)
            (subst (λ k. SessionOk sent w k t) same s))
    | inr differ ↦ record {
      file = s.file;
      found =
          update_at_ne w.temp c.temp_path t.temp_path (some file')
            (λ p. ok.others j t differ e (sym p))
          ∙ s.found;
      size = s.size;
      valid = s.valid;
      within = s.within;
      bytes = s.bytes;
    }
  ]

  written_file :
      (p : String) (f : File) → c.temp_path ≡ p → written_world.temp p ≡ some f → file' ≡ f
  written_file p f same here = some-injective _ _ (
      sym (update_at_self w.temp c.temp_path (some file'))
      ∙ ap (λ (q : String). written_world.temp q) same
      ∙ here)

  -- Another chunk for the file that was written is a chunk of the same upload.
  held_same :
      (d : Chunk)
      → ChunkOk sent w d
      → (t : Session) (f : File) (i : ℕ) → d.written ≡ true
      → get_session w.table d.id ≡ some t
      → written_world.temp d.temp_path ≡ some f
      → d.start ≤ i
      → i ≤ d.end
      → c.temp_path ≡ d.temp_path
      → (d.id ≡ c.id) ⊎ (d.id ≢ c.id)
      → f.byte i ≡ (sent d.id).byte i
  held_same d k t f i done e here from to same (inl id) =
      ap (λ (g : File). g.byte i) (sym (written_file d.temp_path f same here))
      ∙ file'_keeps i (
          k.held t file i done e (ap (λ (q : String). w.temp q) (sym same) ∙ there) from to
          ∙ ap (λ j. (sent j).byte i) id)
      ∙ ap (λ j. (sent j).byte i) (sym id)
  held_same d k t f i done e here from to same (inr id) =
      absurd (ok.others d.id t id e (k.owner t e ∙ sym same))

  pub write-ChunkOk : (d : Chunk) → ChunkOk sent w d → ChunkOk sent written_world d
  write-ChunkOk d k = record {
    order = k.order;
    whole_body = k.whole_body;
    part = k.part;
    fits = k.fits;
    owner = k.owner;
    others = k.others;
    held = λ t f i done e here from to. elim (String-cases c.temp_path d.temp_path) [
      | inl same ↦ held_same d k t f i done e here from to same (String-cases d.id c.id)
      | inr differ ↦
          k.held t f i done e
            (sym (update_at_ne w.temp c.temp_path d.temp_path (some file') differ) ∙ here) from to
    ];
  }

  pub written-ChunkOk : ChunkOk sent written_world (record c { written = true })
  written-ChunkOk = record {
    order = ok.order;
    whole_body = ok.whole_body;
    part = ok.part;
    fits = ok.fits;
    owner = ok.owner;
    others = ok.others;
    held = λ t f i done e here from to.
        ap (λ (g : File). g.byte i) (sym (written_file c.temp_path f refl here))
        ∙ file'_part i from to;
  }
