-- ===== src/Files/Chunks.antt =====
-- The chunks in which aird/core/mmap_handler.py serves a file or a range of it.
pub mod Pieces
pub mod Laws
use aird.Base.{
  ℕ, zero, suc, ◌+◌, ◌-◌, ◌*◌, min, Bool, Option, none, some, List, [], ◌∷◌, ◌++◌, length, take,
  drop, leb, eqb, if◌then◌else◌,
}
use aird.Base.Text.{is_empty}

abbrev pub Bytes : Type 0
Bytes = List ℕ

abbrev pub mmap_min_size : ℕ
mmap_min_size = 1 * 1024 * 1024

abbrev pub should_use_mmap : ℕ → Bool
should_use_mmap file_size = leb mmap_min_size file_size

-- `(end - start + 1) if end is not None else file_size - start`; a negative count reads nothing,
-- as 0.
abbrev pub wanted : ℕ → Option ℕ → ℕ → ℕ
wanted start none file_size = file_size - start
wanted start (some end) file_size = end + 1 - start

-- The loop of `_read_chunks_sync` and `_yield_aiofile_chunks`, on an open file of which `rest` is
-- still to be read.
pub read_loop : ℕ → ℕ → ℕ → Bytes → List Bytes
read_loop zero chunk_size remaining rest = []
read_loop (suc fuel) chunk_size remaining rest =
    let n = min chunk_size remaining in
    let chunk = take n rest in
    let later = read_loop fuel chunk_size (remaining - length chunk) (drop n rest) in
    if eqb remaining 0 then [] else if is_empty chunk then [] else chunk ∷ later

unfoldable pub yield_aiofile_chunks : ℕ → Option ℕ → ℕ → Bytes → List Bytes
unfolding read_loop
yield_aiofile_chunks start end chunk_size file =
    let remaining = wanted start end (length file) in
    read_loop remaining chunk_size remaining (drop start file)

-- `_SyncChunkReader`; `stop` is one more than its `_end`, so that the empty file has one too.
pub record Reader : Type 0 where
  pub pos : ℕ
  pub stop : ℕ
  pub chunk_size : ℕ

unfoldable pub new_reader : ℕ → Option ℕ → ℕ → ℕ → Reader
new_reader start none file_size chunk_size = record {
  pos = start;
  stop = file_size;
  chunk_size = chunk_size;
}
new_reader start (some end) file_size chunk_size = record {
  pos = start;
  stop = min (end + 1) file_size;
  chunk_size = chunk_size;
}

-- `read_next`; both ways of reading give the bytes from `pos` to the chunk's end.
unfoldable pub read_next : Bytes → Reader → Option Bytes × Reader
read_next file r =
    let chunk_end = min (r.pos + r.chunk_size) r.stop in
    let chunk = take (chunk_end - r.pos) (drop r.pos file) in
    if leb r.stop r.pos
    then (none, r)
    else (if is_empty chunk then none else some chunk, record r { pos = chunk_end })

-- The loop of `_yield_reader_chunks`.
abbrev pub chunk_then : Option Bytes → List Bytes → List Bytes
chunk_then none later = []
chunk_then (some c) later = c ∷ later

pub reader_loop : ℕ → Bytes → Reader → List Bytes
unfolding read_next
reader_loop zero file r = []
reader_loop (suc fuel) file r =
    let (chunk, r') = read_next file r in chunk_then chunk (reader_loop fuel file r')

unfoldable pub yield_reader_chunks : ℕ → Option ℕ → ℕ → Bytes → List Bytes
unfolding reader_loop new_reader
yield_reader_chunks start end chunk_size file =
    let r = new_reader start end (length file) chunk_size in reader_loop (r.stop - r.pos) file r

-- `serve_file_chunk`. `fault` is the number of chunks after which the reading raises an `OSError`
-- or a `ValueError`, if it does; the file is then read again.
pub first_attempt : ℕ → Option ℕ → ℕ → Bytes → List Bytes
first_attempt start end chunk_size file =
    if should_use_mmap (length file)
    then yield_reader_chunks start end chunk_size file
    else yield_aiofile_chunks start end chunk_size file

unfoldable pub serve_file_chunk : Option ℕ → ℕ → Option ℕ → ℕ → Bytes → List Bytes
unfolding first_attempt
serve_file_chunk none start end chunk_size file = first_attempt start end chunk_size file
serve_file_chunk (some k) start end chunk_size file =
    take k (first_attempt start end chunk_size file)
    ++ yield_reader_chunks start end chunk_size file
