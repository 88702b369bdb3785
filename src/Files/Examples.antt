-- ===== src/Files/Examples.antt =====
-- Chunks and line offsets of some files, and the theorems at them.
use aird.Base.Text.{is_empty}
use aird.Base.{◌≡◌, refl, inl, true, none, some, [], ◌∷◌, arith}
use aird.Files.Chunks.{yield_reader_chunks, yield_aiofile_chunks, Bytes, serve_file_chunk}
use aird.Files.Chunks.Laws.{Serves, joined, serve_file_chunk-Serves}
use aird.Files.Lines.{
  find_newline, lines_of, find_line_offsets, find_offsets_small, find_offsets_mmap,
}
use aird.Files.Lines.Starts.{line_starts, find_line_offsets-line_starts}

abbrev six_bytes : Bytes
six_bytes = 5 ∷ 10 ∷ 6 ∷ 7 ∷ 10 ∷ 8 ∷ []

test_chunks : serve_file_chunk none 1 (some 4) 3 six_bytes ≡ (10 ∷ 6 ∷ 7 ∷ []) ∷ (10 ∷ []) ∷ []
unfolding serve_file_chunk yield_aiofile_chunks is_empty
test_chunks = refl

-- A reading that fails after one chunk sends that chunk twice.
test_fault :
    joined (serve_file_chunk (some 1) 1 (some 4) 3 six_bytes) ≡ 10 ∷ 6 ∷ 7 ∷ 10 ∷ 6 ∷ 7 ∷ 10 ∷ []
unfolding serve_file_chunk yield_aiofile_chunks is_empty yield_reader_chunks
test_fault = refl

test_small : find_offsets_small six_bytes none ≡ 0 ∷ 2 ∷ 5 ∷ []
unfolding find_offsets_small lines_of
test_small = refl

test_mmap : find_offsets_mmap six_bytes none ≡ 0 ∷ 2 ∷ []
unfolding find_offsets_mmap find_newline
test_mmap = refl

serve_file_chunk-Serves_example :
    Serves 1 (some 4) 3 six_bytes (serve_file_chunk none 1 (some 4) 3 six_bytes)
serve_file_chunk-Serves_example = serve_file_chunk-Serves 1 (some 4) 3 six_bytes (omega arith)

find_line_offsets-line_starts_example :
    find_line_offsets six_bytes none ≡ line_starts true 0 six_bytes
find_line_offsets-line_starts_example = find_line_offsets-line_starts six_bytes (inl refl)
