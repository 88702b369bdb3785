-- ===== src/Files/Lines.antt =====
-- `find_line_offsets` of aird/core/mmap_handler.py, in its two ways of reading.
pub mod Laws
pub mod Starts
use aird.Base.{
  ℕ, zero, suc, ◌+◌, Bool, false, Option, none, some, List, [], ◌∷◌, length, drop, ltb, eqb,
  if◌then◌else◌,
}
use aird.Files.Chunks.{Bytes, should_use_mmap}

abbrev pub newline : ℕ
newline = 10

-- The iteration over a binary file: each line with its newline, the last one maybe without.
abbrev pub onto_first : ℕ → List Bytes → List Bytes
onto_first c [] = (c ∷ []) ∷ []
onto_first c (l ∷ ls) = (c ∷ l) ∷ ls

unfoldable pub lines_of : Bytes → List Bytes
lines_of [] = []
lines_of (c ∷ cs) =
    let rest = lines_of cs in if eqb c newline then (c ∷ []) ∷ rest else onto_first c rest

-- `max_lines and len(offsets) > max_lines`; `None` and 0 are no limit.
abbrev pub at_limit : Option ℕ → ℕ → Bool
at_limit none n = false
at_limit (some zero) n = false
at_limit (some (suc m)) n = ltb (suc m) n

-- `offsets[:-1]` of a list that begins with `x`.
abbrev pub all_but_last : ℕ → List ℕ → List ℕ
all_but_last x [] = []
all_but_last x (y ∷ ys) = x ∷ all_but_last y ys

-- The loop of `_find_offsets_small`; `n` is `len(offsets)`.
unfoldable pub small_loop : Option ℕ → ℕ → ℕ → List Bytes → List ℕ
small_loop max_lines n pos [] = []
small_loop max_lines n pos (line ∷ lines) =
    let rest = small_loop max_lines (n + 1) (pos + length line) lines in
    (pos + length line) ∷ (if at_limit max_lines (n + 1) then [] else rest)

unfoldable pub find_offsets_small : Bytes → Option ℕ → List ℕ
unfolding small_loop
find_offsets_small file max_lines = all_but_last 0 (small_loop max_lines 1 0 (lines_of file))

-- `mm.find(b"\n", pos)`, counted from `pos`.
unfoldable pub find_newline : Bytes → Option ℕ
find_newline [] = none
find_newline (c ∷ cs) =
    if eqb c newline then some 0 else elim (find_newline cs) [ none ↦ none | some k ↦ some (suc k) ]

-- The loop of `_find_offsets_mmap`, where `rest` is the file from `pos` on.
abbrev pub mmap_next : (ℕ → List ℕ) → Option ℕ → List ℕ
mmap_next next none = []
mmap_next next (some k) = next k

unfoldable pub mmap_loop : ℕ → Option ℕ → ℕ → ℕ → Bytes → List ℕ
mmap_loop zero max_lines n pos rest = []
mmap_loop (suc fuel) max_lines n pos rest =
    mmap_next
      (λ k.
        (pos + suc k)
        ∷ (if at_limit max_lines (n + 1)
            then []
            else mmap_loop fuel max_lines (n + 1) (pos + suc k) (drop (suc k) rest)))
      (find_newline rest)

unfoldable pub find_offsets_mmap : Bytes → Option ℕ → List ℕ
unfolding mmap_loop
find_offsets_mmap file max_lines = all_but_last 0 (mmap_loop (length file) max_lines 1 0 file)

unfoldable pub find_line_offsets : Bytes → Option ℕ → List ℕ
unfolding find_offsets_small find_offsets_mmap
find_line_offsets file max_lines =
    if should_use_mmap (length file)
    then find_offsets_mmap file max_lines
    else find_offsets_small file max_lines
