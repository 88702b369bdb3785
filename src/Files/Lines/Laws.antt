-- ===== src/Files/Lines/Laws.antt =====
-- Where the two ways of finding line offsets agree, and what the offsets are.
use aird.Base.{
  ℕ, zero, suc, ◌+◌, ◌≤◌, ◌<◌, ◌≡◌, refl, sym, ap, subst, ◌∙◌, ◌⊎◌, inl, inr, Bool, true, false,
  Bool-cases, Option, Option-cases, none, some, List, [], ◌∷◌, length, drop, eqb, arith,
  if◌then◌else◌, if_true, if_false,
}
use aird.Files.Chunks.{Bytes}
use aird.Files.Lines.{
  newline, onto_first, lines_of, at_limit, all_but_last, small_loop, find_offsets_small,
  find_newline, mmap_next, mmap_loop, find_offsets_mmap,
}

-- Empty, or ending in a newline.
unfoldable pub is_terminated : Bytes → Bool
is_terminated [] = true
is_terminated (c ∷ []) = eqb c newline
is_terminated (c ∷ d ∷ ds) = is_terminated (d ∷ ds)

-- The first line, and the others.
record Splits (k : ℕ) (s : Bytes) : Type 0 where
  line : Bytes
  lines : lines_of s ≡ line ∷ lines_of (drop (suc k) s)
  size : length line ≡ suc k
  shorter : length (drop (suc k) s) < length s
  terminated : is_terminated (drop (suc k) s) ≡ is_terminated s

splits : (s : Bytes) (k : ℕ) → find_newline s ≡ some k → Splits k s
unfolding find_newline lines_of is_terminated
splits [] k h = cc
splits (c ∷ []) k h = elim (Bool-cases (eqb c newline)) [
  | inl here ↦
      let first : 0 ≡ k = ground (arith, h, here) in
      subst (λ j. Splits j (c ∷ [])) first
        (record {
          line = c ∷ [];
          lines = if_true _ _ here;
          size = refl;
          shorter = omega arith;
          terminated = sym here;
        })
  | inr other ↦ absurd (ground (arith, h, other))
]
splits (c ∷ d ∷ ds) k h = elim (Bool-cases (eqb c newline)) [
  | inl here ↦
      let first : 0 ≡ k = ground (arith, h, here) in
      subst (λ j. Splits j (c ∷ d ∷ ds)) first
        (record {
          line = c ∷ [];
          lines = if_true _ _ here;
          size = refl;
          shorter = omega arith;
          terminated = refl;
        })
  | inr other ↦ later other (Option-cases (find_newline (d ∷ ds))) (splits (d ∷ ds))
]
  where
    later :
        eqb c newline ≡ false
        → (find_newline (d ∷ ds) ≡ none) ⊎ ((j : ℕ) × (find_newline (d ∷ ds) ≡ some j))
        → ((j : ℕ) → find_newline (d ∷ ds) ≡ some j → Splits j (d ∷ ds))
        → Splits k (c ∷ d ∷ ds)
    later other (inl e) ih = absurd (cc (sym (if_false _ _ other) ∙ h, e))
    later other (inr (j, e)) ih =
        let r = ih j e in
        let index : suc j ≡ k = ground (arith, h, other, e) in
        subst (λ i. Splits i (c ∷ d ∷ ds)) index
          (record {
            line = c ∷ r.line;
            lines = if_false _ _ other ∙ ap (onto_first c) r.lines;
            size = omega (arith, r.size);
            shorter = omega (arith, r.shorter);
            terminated = r.terminated;
          })

-- A text with no newline is empty, or one unterminated line.
no_newline :
    (s : Bytes)
    → find_newline s ≡ none
    → (s ≡ []) ⊎ ((lines_of s ≡ s ∷ []) × (is_terminated s ≡ false))
unfolding find_newline lines_of is_terminated
no_newline [] h = inl refl
no_newline (c ∷ []) h = elim (Bool-cases (eqb c newline)) [
  | inl here ↦ absurd (ground (arith, h, here))
  | inr other ↦ inr (if_false _ _ other, other)
]
no_newline (c ∷ d ∷ ds) h = elim (Bool-cases (eqb c newline)) [
  | inl here ↦ absurd (cc (sym (if_true _ _ here) ∙ h))
  | inr other ↦ elim (Option-cases (find_newline (d ∷ ds))) [
    | inr (j, e) ↦ absurd (ground (arith, h, other, e))
    | inl e ↦ elim (no_newline (d ∷ ds) e) [
      | inl nothing ↦ absurd (cc nothing)
      | inr (lines, open_line) ↦ inr (if_false _ _ other ∙ ap (onto_first c) lines, open_line)
    ]
  ]
]

mmap_step :
    (fuel : ℕ) (m : Option ℕ) (n pos : ℕ) (s : Bytes) (o : Option ℕ)
    → find_newline s ≡ o
    → mmap_loop (suc fuel) m n pos s
      ≡ mmap_next
          (λ k.
            (pos + suc k)
            ∷ (if at_limit m (n + 1)
                then []
                else mmap_loop fuel m (n + 1) (pos + suc k) (drop (suc k) s)))
          o
unfolding mmap_loop
mmap_step fuel m n pos s o e = ap (mmap_next _) e

small_step :
    (m : Option ℕ) (n pos k : ℕ) (s line : Bytes)
    → length line ≡ suc k
    → lines_of s ≡ line ∷ lines_of (drop (suc k) s)
    → small_loop m n pos (lines_of s)
      ≡ (pos + suc k)
        ∷ (if at_limit m (n + 1)
            then []
            else small_loop m (n + 1) (pos + suc k) (lines_of (drop (suc k) s)))
unfolding small_loop
small_step m n pos k s line size lines = ap (small_loop m n pos) lines ∙ rw size refl

mmap_loop_nil : (fuel : ℕ) (m : Option ℕ) (n pos : ℕ) → mmap_loop fuel m n pos [] ≡ []
unfolding mmap_loop find_newline
mmap_loop_nil zero m n pos = refl
mmap_loop_nil (suc fuel) m n pos = refl

small_loop_nil : (m : Option ℕ) (n pos : ℕ) → small_loop m n pos (lines_of []) ≡ []
unfolding small_loop lines_of
small_loop_nil m n pos = refl

small_loop_one :
    (n pos : ℕ) (line : Bytes)
    → length (small_loop none n pos (line ∷ [])) ≡ suc (length {A = ℕ} [])
unfolding small_loop
small_loop_one n pos line = refl

-- The two loops agree on a text that ends in a newline.
loops_agree :
    (fuel : ℕ) (m : Option ℕ) (n pos : ℕ) (s : Bytes)
    → length s ≤ fuel
    → is_terminated s ≡ true
    → small_loop m n pos (lines_of s) ≡ mmap_loop fuel m n pos s
loops_agree zero m n pos [] h t = unfold small_loop lines_of mmap_loop in refl
loops_agree zero m n pos (c ∷ cs) h t = absurd (omega arith)
loops_agree (suc fuel) m n pos s h t = elim (Option-cases (find_newline s)) [
  | inl e ↦ elim (no_newline s e) [
    | inl nothing ↦
        ap (λ l. small_loop m n pos (lines_of l)) nothing
        ∙ small_loop_nil m n pos
        ∙ sym (mmap_step fuel m n pos s none e)
    | inr (_, open_line) ↦ absurd (cc (t, open_line))
  ]
  | inr (k, e) ↦
      let r = splits s k e in
      small_step m n pos k s r.line r.size r.lines
      ∙ ap (λ l. (pos + suc k) ∷ (if at_limit m (n + 1) then [] else l))
          (loops_agree fuel m (n + 1) (pos + suc k) (drop (suc k) s) (omega (arith, r.shorter, h))
            (r.terminated ∙ t))
      ∙ sym (mmap_step fuel m n pos s (some k) e)
]

-- On an unterminated text the mapped file misses the end of the last line.
loops_differ :
    (fuel n pos : ℕ) (s : Bytes)
    → length s ≤ fuel
    → is_terminated s ≡ false
    → length (small_loop none n pos (lines_of s)) ≡ suc (length (mmap_loop fuel none n pos s))
loops_differ zero n pos [] h t = (unfold is_terminated in cc)
loops_differ zero n pos (c ∷ cs) h t = absurd (omega arith)
loops_differ (suc fuel) n pos s h t = elim (Option-cases (find_newline s)) [
  | inl e ↦ elim (no_newline s e) [
    | inl nothing ↦ absurd (unfold is_terminated in cc (t, ap is_terminated nothing))
    | inr (one_line, _) ↦
        ap (λ l. length (small_loop none n pos l)) one_line
        ∙ small_loop_one n pos s
        ∙ ap (λ l. suc (length l)) (sym (mmap_step fuel none n pos s none e))
  ]
  | inr (k, e) ↦
      let r = splits s k e in
      ap length (small_step none n pos k s r.line r.size r.lines)
      ∙ ap suc (
          loops_differ fuel (n + 1) (pos + suc k) (drop (suc k) s) (omega (arith, r.shorter, h))
            (r.terminated ∙ t))
      ∙ ap (λ l. suc (length l)) (sym (mmap_step fuel none n pos s (some k) e))
]

-- Both ways of finding the offsets agree, whatever the limit, on a file that is empty or ends in a
-- newline.
pub find_offsets_agree :
    (file : Bytes) (m : Option ℕ)
    → is_terminated file ≡ true
    → find_offsets_small file m ≡ find_offsets_mmap file m
unfolding find_offsets_small find_offsets_mmap
find_offsets_agree file m t =
    ap (all_but_last 0) (loops_agree (length file) m 1 0 file (omega arith) t)

length-all_but_last : (x : ℕ) (xs : List ℕ) → length (all_but_last x xs) ≡ length xs
length-all_but_last x [] = refl
length-all_but_last x (y ∷ ys) = ap suc (length-all_but_last y ys)

-- With no limit, on a nonempty file that does not end in a newline the mapped way finds one offset
-- less.
pub find_offsets_mmap_misses :
    (file : Bytes)
    → is_terminated file ≡ false
    → length (find_offsets_small file none) ≡ suc (length (find_offsets_mmap file none))
unfolding find_offsets_small find_offsets_mmap
find_offsets_mmap_misses file t =
    length-all_but_last 0 _
    ∙ loops_differ (length file) 1 0 file (omega arith) t
    ∙ ap suc (sym (length-all_but_last 0 _))
