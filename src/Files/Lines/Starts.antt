-- ===== src/Files/Lines/Starts.antt =====
-- The offsets that are found are those at which the lines start.
use aird.Base.{
  ℕ, suc, ◌+◌, ◌≡◌, refl, sym, ap, ◌∙◌, ◌⊎◌, inl, inr, Bool, true, false, Bool-cases, none, List,
  [], ◌∷◌, length, eqb, arith, if◌then◌else◌, if_true, if_false,
}
use aird.Files.Chunks.{Bytes, should_use_mmap}
use aird.Files.Lines.{
  newline, onto_first, lines_of, all_but_last, small_loop, find_offsets_small, find_offsets_mmap,
  find_line_offsets,
}
use aird.Files.Lines.Laws.{is_terminated, find_offsets_agree}

-- The offsets at which a line starts: that of a byte which is the first or follows a newline.
unfoldable pub line_starts : Bool → ℕ → Bytes → List ℕ
line_starts fresh pos [] = []
line_starts fresh pos (c ∷ cs) =
    let rest = line_starts (eqb c newline) (pos + 1) cs in if fresh then pos ∷ rest else rest

abbrev first_of : ℕ → Bytes → List ℕ → List ℕ
first_of q [] l = []
first_of q (c ∷ cs) l = q ∷ l

line_starts_fresh :
    (p : ℕ) (s : Bytes) → line_starts true p s ≡ first_of p s (line_starts false p s)
unfolding line_starts
line_starts_fresh p [] = refl
line_starts_fresh p (c ∷ cs) = refl

lines_of_more :
    (d : ℕ) (ds : Bytes) → (l : Bytes) × (ls : List Bytes) × (lines_of (d ∷ ds) ≡ l ∷ ls)
unfolding lines_of
lines_of_more d ds = elim (Bool-cases (eqb d newline)) [
  | inl here ↦ (d ∷ [], lines_of ds, if_true _ _ here)
  | inr other ↦ first_line (if_false _ _ other) (lines_of ds) refl
]
  where
    first_line :
        lines_of (d ∷ ds) ≡ onto_first d (lines_of ds)
        → (r : List Bytes) → lines_of ds ≡ r
        → (l : Bytes) × (ls : List Bytes) × (lines_of (d ∷ ds) ≡ l ∷ ls)
    first_line e [] f = (d ∷ [], [], e ∙ ap (onto_first d) f)
    first_line e (l ∷ ls) f = (d ∷ l, ls, e ∙ ap (onto_first d) f)

small_loop-line_starts :
    (n q p : ℕ) (s : Bytes)
    → all_but_last q (small_loop none n p (lines_of s)) ≡ first_of q s (line_starts false p s)
unfolding small_loop lines_of line_starts
small_loop-line_starts n q p [] = refl
small_loop-line_starts n q p (c ∷ cs) = elim (Bool-cases (eqb c newline)) [
  | inl here ↦ rw here (
      ap (λ l. q ∷ l)
        (small_loop-line_starts (n + 1) (p + 1) (p + 1) cs ∙ sym (line_starts_fresh (p + 1) cs)))
  | inr other ↦ rw other (inside cs (small_loop-line_starts n q (p + 1) cs))
]
  where
    inside :
        (ds : Bytes)
        → all_but_last q (small_loop none n (p + 1) (lines_of ds))
          ≡ first_of q ds (line_starts false (p + 1) ds)
        → all_but_last q (small_loop none n p (onto_first c (lines_of ds)))
          ≡ q ∷ line_starts false (p + 1) ds
    inside [] ih = refl
    inside (d ∷ ds) ih =
        let (l, ls, e) = lines_of_more d ds in
        let place : p + suc (length l) ≡ p + 1 + length l = omega arith in
        ap (λ x. all_but_last q (small_loop none n p (onto_first c x))) e
        ∙ ap (λ k. all_but_last q (k ∷ small_loop none (n + 1) k ls)) place
        ∙ ap (λ x. all_but_last q (small_loop none n (p + 1) x)) (sym e)
        ∙ ih

-- With no limit, `find_line_offsets` gives the offsets of the bytes that are first in the file or
-- follow a newline, for every file that is below the size for mapping or is terminated: empty, or
-- ending in a newline.
pub find_line_offsets-line_starts :
    (file : Bytes)
    → (should_use_mmap (length file) ≡ false) ⊎ (is_terminated file ≡ true)
    → find_line_offsets file none ≡ line_starts true 0 file
unfolding find_line_offsets
find_line_offsets-line_starts file h = elim (Bool-cases (should_use_mmap (length file))) [
  | inr small ↦ if_false _ _ small ∙ small_starts
  | inl large ↦ if_true _ _ large ∙ mapped large h
]
  where
    small_starts : find_offsets_small file none ≡ line_starts true 0 file
    small_starts =
        unfold find_offsets_small in
        (small_loop-line_starts 1 0 0 file ∙ sym (line_starts_fresh 0 file))

    mapped :
        should_use_mmap (length file) ≡ true
        → (should_use_mmap (length file) ≡ false) ⊎ (is_terminated file ≡ true)
        → find_offsets_mmap file none ≡ line_starts true 0 file
    mapped large (inl small) = absurd (cc (large, small))
    mapped large (inr t) = sym (find_offsets_agree file none t) ∙ small_starts
