-- ===== src/Upload/Handlers/Finish.antt =====
-- What `finalize_upload_to_disk` leaves as it was.
use Prim.Native.String.{String}
use aird.Base.{ℕ, ◌+◌, ◌≡◌, ◌≢◌, refl, ◌⊎◌, true, inl, inr, Bool-cases, none, ◌∷◌, ◌&&◌}
use aird.Upload.Table.{Session}
use aird.Upload.File.{File}
use aird.Upload.Handlers.{
  World, Outside, Placing, file_moved, move_failed, folder_failed, exceeds, finalize_upload_to_disk,
  place_upload, move_upload,
}
use aird.Upload.Handlers.Update.{update_at_ne}

-- What finishing an upload changes: the temporary file of the session, and at most one delivered
-- file, which is the one that was assembled.
pub record Delivers (p : String) (f : File) (w v : World) : Type 0 where
  pub table : v.table ≡ w.table
  pub temp : (q : String) → p ≢ q → v.temp q ≡ w.temp q
  pub files : (v.delivered ≡ w.delivered) ⊎ ((d : String) × (v.delivered ≡ (d, f) ∷ w.delivered))

move_upload-Delivers :
    (p : Placing) (out : Outside) (s : Session) (f : File) (d : String) (w : World)
    → Delivers s.temp_path f w (move_upload p out s f d w).world
unfolding move_upload
move_upload-Delivers file_moved out s f d w = record {
  table = refl;
  temp = λ q n. update_at_ne w.temp s.temp_path q none n;
  files = inr (d, refl);
}
move_upload-Delivers move_failed out s f d w = record {
  table = refl;
  temp = λ q n. refl;
  files = inl refl;
}
move_upload-Delivers folder_failed out s f d w = record {
  table = refl;
  temp = λ q n. refl;
  files = inl refl;
}

place_upload-Delivers :
    (out : Outside) (s : Session) (f : File) (d : String ⊎ (ℕ × String)) (w : World)
    → Delivers s.temp_path f w (place_upload out s f d w).world
unfolding place_upload
place_upload-Delivers out s f (inl d) w = move_upload-Delivers out.placing out s f d w
place_upload-Delivers out s f (inr (status, message)) w = record {
  table = refl;
  temp = λ q n. refl;
  files = inl refl;
}

pub finalize_upload_to_disk-Delivers :
    (out : Outside) (s : Session) (f : File) (w : World)
    → Delivers s.temp_path f w (finalize_upload_to_disk out s f w).world
unfolding finalize_upload_to_disk
finalize_upload_to_disk-Delivers out s f w =
    elim (Bool-cases
      (out.quotas_on && exceeds out.quota_bytes (w.used s.username + s.total_size))) [
        | inl over ↦ rw over (record { table = refl; temp = λ q n. refl; files = inl refl })
        | inr fits ↦
            rw fits (place_upload-Delivers out s f (out.destination s.upload_dir s.filename) w)
      ]

-- An exception leaves the world as it was.
move_upload_raises :
    (p : Placing) (out : Outside) (s : Session) (f : File) (d : String) (w : World)
    → (move_upload p out s f d w).raised ≡ true
    → (move_upload p out s f d w).world ≡ w
unfolding move_upload
move_upload_raises file_moved out s f d w h = cc
move_upload_raises move_failed out s f d w h = cc
move_upload_raises folder_failed out s f d w h = refl

place_upload_raises :
    (out : Outside) (s : Session) (f : File) (d : String ⊎ (ℕ × String)) (w : World)
    → (place_upload out s f d w).raised ≡ true
    → (place_upload out s f d w).world ≡ w
unfolding place_upload
place_upload_raises out s f (inl d) w h = move_upload_raises out.placing out s f d w h
place_upload_raises out s f (inr (status, message)) w h = cc

pub finalize_upload_to_disk_raises :
    (out : Outside) (s : Session) (f : File) (w : World)
    → (finalize_upload_to_disk out s f w).raised ≡ true
    → (finalize_upload_to_disk out s f w).world ≡ w
unfolding finalize_upload_to_disk
finalize_upload_to_disk_raises out s f w =
    elim (Bool-cases
      (out.quotas_on && exceeds out.quota_bytes (w.used s.username + s.total_size))) [
        | inl over ↦ rw over (λ h. cc)
        | inr fits ↦
            rw fits (λ h. place_upload_raises out s f (out.destination s.upload_dir s.filename) w h)
      ]
