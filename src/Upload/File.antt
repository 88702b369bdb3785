-- ===== src/Upload/File.antt =====
-- The temporary file of a session: its length and its bytes, zero past the end. The writes of
-- aird/handlers/ranged_upload_handlers.py, over `os.pwrite`, which may store a part of its data.
pub mod Laws
use aird.Base.{
  ℕ, zero, suc, ◌+◌, ◌-◌, ◌*◌, max, ◌&&◌, List, [], ◌∷◌, length, take, drop, get_or, leb, ltb, eqb,
  if◌then◌else◌,
}

pub record File : Type 0 where
  pub size : ℕ
  pub byte : ℕ → ℕ

pub empty_file : File
empty_file = record { size = 0; byte = λ i. 0 }

-- What a write of all of `data` at `offset` leaves.
unfoldable pub write_at : ℕ → List ℕ → File → File
write_at offset [] file = file
write_at offset (b ∷ bs) file = record {
  size = max file.size (offset + length (b ∷ bs));
  byte = λ i.
      if leb offset i && ltb i (offset + length (b ∷ bs))
      then get_or (b ∷ bs) (i - offset) 0
      else file.byte i;
}

-- `stuck` is a loop whose fuel ran out; `short` is the error of a write that stored nothing.
pub data Stored : Type 0 where
  stored : File → Stored
  short : File → Stored
  stuck : Stored

-- `_pwrite_all`. `accept offset n` is the number of bytes that `os.pwrite` stores when `n` are
-- left to be written at `offset`.
pub pwrite_all : ℕ → (ℕ → ℕ → ℕ) → List ℕ → ℕ → File → Stored
pwrite_all fuel accept [] offset file = stored file
pwrite_all zero accept (b ∷ bs) offset file = stuck
pwrite_all (suc fuel) accept (b ∷ bs) offset file =
    let view = b ∷ bs in
    let written = accept offset (length view) in
    let rest =
      pwrite_all fuel accept (drop written view) (offset + written)
        (write_at offset (take written view) file) in
    if eqb written 0 then short file else rest

-- The loop of `_copy_range_file_sync`: blocks of the request's body, each by `_pwrite_all`.
and_then : Stored → (File → Stored) → Stored
and_then (stored file) next = next file
and_then (short file) next = short file
and_then stuck next = stuck

pub copy_range : ℕ → ℕ → (ℕ → ℕ → ℕ) → List ℕ → ℕ → File → Stored
unfolding and_then
copy_range fuel block accept [] offset file = stored file
copy_range zero block accept (b ∷ bs) offset file = stuck
copy_range (suc fuel) block accept (b ∷ bs) offset file =
    let chunk = take block (b ∷ bs) in
    and_then (pwrite_all (length chunk) accept chunk offset file)
      λ file'. copy_range fuel block accept (drop block (b ∷ bs)) (offset + length chunk) file'

abbrev pub copy_block : ℕ
copy_block = 1024 * 1024

-- `_write_range_sync` and `_copy_range_file_sync`, where `os.pwrite` is there.
pub write_range : (ℕ → ℕ → ℕ) → ℕ → List ℕ → File → Stored
write_range accept start body file = pwrite_all (length body) accept body start file

pub copy_range_file : (ℕ → ℕ → ℕ) → ℕ → List ℕ → File → Stored
copy_range_file accept start body file = copy_range (length body) copy_block accept body start file

-- `_ensure_upload_file_size_sync`.
unfoldable pub ensure_size : ℕ → File → File
ensure_size total file =
    if eqb file.size total
    then file
    else record { size = total; byte = λ i. if ltb i total then file.byte i else 0 }
