-- ===== src/Upload/File/Laws.antt =====
-- A range is stored whole, however the writes are cut.
use mathlib.Core.Path.{fun_ext}
use mathlib.Core.List.{append-nil}
use native.Mathlib.Nat.{add-zero}
use aird.Base.{
  ℕ, zero, suc, ◌+◌, ◌-◌, ◌<◌, ◌≤◌, max, min, ◌≡◌, refl, sym, ◌∙◌, ap, ◌&&◌, false, List, [], ◌∷◌,
  ◌++◌, length, take, drop, get_or, leb, ltb, eqb, arith, if◌then◌else◌, take-append-drop,
  length-take, length-drop, length-append,
}
use aird.Upload.File.{
  File, write_at, stored, pwrite_all, and_then, copy_range, write_range, copy_range_file,
  copy_block,
}

sub-zero : (i : ℕ) → i - 0 ≡ i
sub-zero i = omega arith

get_or-append :
    (xs ys : List ℕ) (i : ℕ)
    → get_or (xs ++ ys) i 0
      ≡ (if ltb i (length xs) then get_or xs i 0 else get_or ys (i - length xs) 0)
get_or-append [] ys i = ground (arith, ap (λ (k : ℕ). get_or ys k 0) (sub-zero i))
get_or-append (x ∷ xs) ys zero = ground arith
get_or-append (x ∷ xs) ys (suc i) = ground (arith, get_or-append xs ys i)

pub write_at_byte :
    (offset : ℕ) (xs : List ℕ) (file : File) (i : ℕ)
    → (write_at offset xs file).byte i ≡ (
        if leb offset i && ltb i (offset + length xs)
        then get_or xs (i - offset) 0
        else file.byte i)
unfolding write_at
write_at_byte offset [] file i = ground arith
write_at_byte offset (x ∷ xs) file i = refl

pub write_at_size :
    (offset x : ℕ) (xs : List ℕ) (file : File)
    → (write_at offset (x ∷ xs) file).size ≡ max file.size (offset + length (x ∷ xs))
unfolding write_at
write_at_size offset x xs file = refl

-- One write after another is the write of both.
sub-sub : (offset n i : ℕ) → i - offset - n ≡ i - (offset + n)
sub-sub offset n i = omega arith

write_at-append_byte :
    (offset : ℕ) (xs ys : List ℕ) (file : File) (i : ℕ)
    → (write_at (offset + length xs) ys (write_at offset xs file)).byte i
      ≡ (write_at offset (xs ++ ys) file).byte i
write_at-append_byte offset xs ys file i = ground (
  arith,
  write_at_byte (offset + length xs) ys (write_at offset xs file) i,
  write_at_byte offset xs file i,
  write_at_byte offset (xs ++ ys) file i,
  length-append xs ys,
  get_or-append xs ys (i - offset),
  ap (λ (k : ℕ). get_or ys k 0) (sub-sub offset (length xs) i),
)

write_at-append_size :
    (offset : ℕ) (xs ys : List ℕ) (file : File)
    → (write_at (offset + length xs) ys (write_at offset xs file)).size
      ≡ (write_at offset (xs ++ ys) file).size
unfolding write_at
write_at-append_size offset [] ys file = ap (λ (k : ℕ). (write_at k ys file).size) (add-zero offset)
write_at-append_size offset (x ∷ xs) [] file = rw append-nil
write_at-append_size offset (x ∷ xs) (y ∷ ys) file = ground (arith, length-append xs (y ∷ ys))

File-eq : (f g : File) → f.size ≡ g.size → ((i : ℕ) → f.byte i ≡ g.byte i) → f ≡ g
File-eq f g p q = λ i. record { size = p i; byte = fun_ext q i }

write_at-append :
    (offset : ℕ) (xs ys : List ℕ) (file : File)
    → write_at (offset + length xs) ys (write_at offset xs file) ≡ write_at offset (xs ++ ys) file
write_at-append offset xs ys file =
    File-eq _ _ (write_at-append_size offset xs ys file) (write_at-append_byte offset xs ys file)

-- The contract of `os.pwrite`: of a nonempty text it stores some bytes, and no more than there are.
abbrev pub Accepts : (ℕ → ℕ → ℕ) → Type 0
Accepts accept = (offset n : ℕ) → 0 < n → (0 < accept offset n) × (accept offset n ≤ n)

write_at-nil : (offset : ℕ) (file : File) → write_at offset [] file ≡ file
unfolding write_at
write_at-nil offset file = refl

-- A write of the first `n` elements and then of the others is the write of all.
write_at_cut :
    (offset n : ℕ) (xs : List ℕ) (file : File)
    → n ≤ length xs
    → write_at (offset + n) (drop n xs) (write_at offset (take n xs) file) ≡ write_at offset xs file
write_at_cut offset n xs file h =
    let taken : length (take n xs) ≡ n = omega (arith, length-take n xs) in
    ap (λ (k : ℕ). write_at (offset + k) (drop n xs) (write_at offset (take n xs) file)) (sym taken)
    ∙ write_at-append offset (take n xs) (drop n xs) file
    ∙ ap (λ (l : List ℕ). write_at offset l file) (take-append-drop n xs)

pwrite_all_whole :
    (fuel : ℕ) (accept : ℕ → ℕ → ℕ) (xs : List ℕ) (offset : ℕ) (file : File)
    → Accepts accept
    → length xs ≤ fuel
    → pwrite_all fuel accept xs offset file ≡ stored (write_at offset xs file)
unfolding pwrite_all
pwrite_all_whole zero accept [] offset file h k = ap stored (sym (write_at-nil offset file))
pwrite_all_whole zero accept (x ∷ xs) offset file h k = absurd (omega arith)
pwrite_all_whole (suc fuel) accept [] offset file h k = ap stored (sym (write_at-nil offset file))
pwrite_all_whole (suc fuel) accept (x ∷ xs) offset file h k =
    let n = accept offset (length (x ∷ xs)) in
    let (some_stored, no_more) = h offset (length (x ∷ xs)) (omega arith) in
    let going : eqb n 0 ≡ false = ground arith in
    let rest =
      pwrite_all_whole fuel accept (drop n (x ∷ xs)) (offset + n)
        (write_at offset (take n (x ∷ xs)) file) h (omega (arith, length-drop n (x ∷ xs))) in
    rw going (rest ∙ ap stored (write_at_cut offset n (x ∷ xs) file no_more))

copy_range_whole :
    (fuel block : ℕ) (accept : ℕ → ℕ → ℕ) (xs : List ℕ) (offset : ℕ) (file : File)
    → Accepts accept
    → 0 < block
    → length xs ≤ fuel
    → copy_range fuel block accept xs offset file ≡ stored (write_at offset xs file)
unfolding copy_range
copy_range_whole zero block accept [] offset file h b k = ap stored (sym (write_at-nil offset file))
copy_range_whole zero block accept (x ∷ xs) offset file h b k = absurd (omega arith)
copy_range_whole (suc fuel) block accept [] offset file h b k =
    ap stored (sym (write_at-nil offset file))
copy_range_whole (suc fuel) block accept (x ∷ xs) offset file h b k =
    let chunk = take block (x ∷ xs) in
    let size : length chunk ≡ min block (length (x ∷ xs)) = length-take block (x ∷ xs) in
    rw (pwrite_all_whole (length chunk) accept chunk offset file h (omega arith), and_then)
      (copy_range_whole fuel block accept (drop block (x ∷ xs)) (offset + length chunk)
          (write_at offset chunk file) h b (omega (arith, length-drop block (x ∷ xs)))
        ∙ ap stored (
            write_at-append offset chunk (drop block (x ∷ xs)) file
            ∙ ap (λ (l : List ℕ). write_at offset l file) (take-append-drop block (x ∷ xs))))

-- With a disk that stores some bytes at each call, a chunk is stored whole, at its place, whichever
-- way it came: in memory or staged in a file that is copied block by block.
pub chunk_stored :
    (accept : ℕ → ℕ → ℕ) (start : ℕ) (body : List ℕ) (file : File)
    → Accepts accept
    → (write_range accept start body file ≡ stored (write_at start body file))
      × (copy_range_file accept start body file ≡ stored (write_at start body file))
unfolding write_range copy_range_file
chunk_stored accept start body file h = (
  pwrite_all_whole (length body) accept body start file h (omega arith),
  copy_range_whole (length body) copy_block accept body start file h (omega arith) (omega arith),
)
