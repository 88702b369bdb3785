-- ===== src/Security/Folder/Laws.antt =====
-- What every folder name is.
use aird.Base.{
  ℕ, zero, suc, ◌≤◌, ◌≡◌, refl, sym, ◌∙◌, subst, inl, inr, Bool, true, false, not, ◌&&◌, ◌||◌,
  Bool-cases, Option, none, some, [], ◌∷◌, ◌++◌, take, length, length-take, length-append, all, eqb,
  ltb, arith, if◌then◌else◌, if_true, if_false,
}
use aird.Base.Text.{Text, is_empty, strip, contains}
use aird.Security.Folder.{
  is_folder_char, with_underscores, lstrip_hidden, rstrip_dots, has_two_dots, is_reserved,
  shortened, is_dotted, checked_name, visible, sanitize_username_for_folder,
}

with_underscores-safe : (s : Text) → all is_folder_char (with_underscores s) ≡ true
unfolding with_underscores is_folder_char
with_underscores-safe [] = refl
with_underscores-safe (c ∷ cs) = ground (arith, with_underscores-safe cs)

lstrip_hidden-safe :
    (s : Text) → all is_folder_char s ≡ true → all is_folder_char (lstrip_hidden s) ≡ true
unfolding lstrip_hidden
lstrip_hidden-safe [] h = refl
lstrip_hidden-safe (c ∷ cs) h = ground (arith, h, lstrip_hidden-safe cs)

rstrip_dots-safe :
    (s : Text) → all is_folder_char s ≡ true → all is_folder_char (rstrip_dots s) ≡ true
unfolding rstrip_dots
rstrip_dots-safe [] h = refl
rstrip_dots-safe (c ∷ cs) h = ground (arith, h, rstrip_dots-safe cs)

-- The first character is neither a dot nor an underscore.
unfoldable pub starts_visible : Text → Bool
starts_visible [] = false
starts_visible (c ∷ cs) = not (eqb c 46) && not (eqb c 95)

lstrip_hidden-visible :
    (s : Text) → (is_empty (lstrip_hidden s) || starts_visible (lstrip_hidden s)) ≡ true
unfolding lstrip_hidden starts_visible is_empty
lstrip_hidden-visible [] = refl
lstrip_hidden-visible (c ∷ cs) = ground (arith, lstrip_hidden-visible cs)

rstrip_dots-visible :
    (s : Text)
    → (is_empty s || starts_visible s) ≡ true
    → (is_empty (rstrip_dots s) || starts_visible (rstrip_dots s)) ≡ true
unfolding rstrip_dots starts_visible is_empty
rstrip_dots-visible [] h = refl
rstrip_dots-visible (c ∷ cs) h = ground (arith, h)

all-take : (p : ℕ → Bool) (n : ℕ) (s : Text) → all p s ≡ true → all p (take n s) ≡ true
all-take p zero s h = refl
all-take p (suc n) [] h = refl
all-take p (suc n) (c ∷ cs) h = ground (arith, h, all-take p n cs)

all-append : (p : ℕ → Bool) (s t : Text) → all p s ≡ true → all p t ≡ true → all p (s ++ t) ≡ true
all-append p [] t h k = k
all-append p (c ∷ cs) t h k = ground (arith, h, k, all-append p cs t)

-- A shortened name is the name itself, of twenty characters at most, or twenty of it and the
-- digest.
shortened-cases :
    (P : Text → Type 0) (digest : Text → Text) (username name : Text)
    → P (take 20 name ++ 95 ∷ take 12 (digest username))
    → (length name ≤ 20 → P name)
    → P (shortened digest username name)
shortened-cases P digest username name long_case short_case =
    elim (Bool-cases (ltb 20 (length name))) [
      | inl long ↦ subst P (sym (if_true _ _ long)) long_case
      | inr short ↦
          subst P
            (sym (
              if_false {b = ltb 20 (length name)} _ _ short
              ∙ if_false {b = ltb 64 (length name)} _ _ (ground (arith, short))))
            (short_case (ground (arith, short)))
    ]

underscore_safe : (t : Text) → all is_folder_char t ≡ true → all is_folder_char (95 ∷ t) ≡ true
unfolding is_folder_char
underscore_safe t h = h

starts_visible-take :
    (name t : Text) → starts_visible name ≡ true → starts_visible (take 20 name ++ t) ≡ true
unfolding starts_visible
starts_visible-take [] t h = absurd (cc h)
starts_visible-take (c ∷ cs) t h = h

length-hashed : (name hash : Text) → length (take 20 name ++ 95 ∷ take 12 hash) ≤ 33
length-hashed name hash = omega (
  arith,
  length-append (take 20 name) (95 ∷ take 12 hash),
  length-take 20 name,
  length-take 12 hash,
)

-- A name for a folder: it starts visibly, and has safe characters only, 33 at most, and nothing
-- that makes it a path or a device.
pub record Safe (name : Text) : Type 0 where
  visible_start : starts_visible name ≡ true
  characters : all is_folder_char name ≡ true
  short : length name ≤ 33
  no_up : has_two_dots name ≡ false
  no_device : is_reserved name ≡ false

past_check :
    (b : Bool) (o : Option Text) (name : Text)
    → (if b then none else o) ≡ some name
    → (b ≡ false) × (o ≡ some name)
past_check true o name h = absurd (cc h)
past_check false o name h = (refl, h)

no_two_dots : (name : Text) → is_dotted name ≡ false → has_two_dots name ≡ false
no_two_dots name h = ground (arith, h)

started :
    (s : Text)
    → is_empty s ≡ false
    → (is_empty s || starts_visible s) ≡ true
    → starts_visible s ≡ true
started s given h = ground (arith, given, h)

at_most_33 : {n : ℕ} → n ≤ 20 → n ≤ 33
at_most_33 h = omega (arith, h)

checked_name-some :
    (candidate name : Text)
    → checked_name candidate ≡ some name
    → (has_two_dots name ≡ false) × (is_reserved name ≡ false) × (candidate ≡ name)
checked_name-some candidate name h =
    let (no_device, after_device) = past_check (is_reserved candidate) _ name h in
    let (_, after_slash) =
      past_check (contains 47 candidate || contains 92 candidate) _ name after_device in
    let (no_dots, same) = past_check (is_dotted candidate) _ name after_slash in
    let equal : candidate ≡ name = cc same in
    (
      subst (λ t. has_two_dots t ≡ false) equal (no_two_dots candidate no_dots),
      subst (λ t. is_reserved t ≡ false) equal no_device,
      equal,
    )

visible-safe : (username : Text) → all is_folder_char (visible username) ≡ true
visible-safe username = rstrip_dots-safe (lstrip_hidden (with_underscores (strip username))) (
    lstrip_hidden-safe (with_underscores (strip username)) (with_underscores-safe (strip username)))

visible-starts :
    (username : Text) → (is_empty (visible username) || starts_visible (visible username)) ≡ true
visible-starts username =
    rstrip_dots-visible (lstrip_hidden (with_underscores (strip username)))
      (lstrip_hidden-visible (with_underscores (strip username)))

hashed-safe :
    (name hash : Text)
    → all is_folder_char name ≡ true
    → all is_folder_char hash ≡ true
    → all is_folder_char (take 20 name ++ 95 ∷ take 12 hash) ≡ true
hashed-safe name hash h k =
    all-append is_folder_char (take 20 name) (95 ∷ take 12 hash) (all-take is_folder_char 20 name h)
      (underscore_safe (take 12 hash) (all-take is_folder_char 12 hash k))

-- A name that is given to a user's folder is one visible component: it starts with neither a dot
-- nor an underscore, has letters, digits, `_`, `-`, `.` and `@` only, at most 33 of them and no
-- two dots in a row, and is no device of Windows, if the digest has such characters only.
pub sanitize_username_for_folder-Safe :
    (digest : Text → Text) (username name : Text)
    → all is_folder_char (digest username) ≡ true
    → sanitize_username_for_folder digest username ≡ some name
    → Safe name
unfolding sanitize_username_for_folder
sanitize_username_for_folder-Safe digest username name hex h =
    let (_, after_strip) = past_check (is_empty (strip username)) _ name h in
    let (not_empty, after_empty) = past_check (is_empty (visible username)) _ name after_strip in
    let (no_up, no_device, same) =
      checked_name-some (shortened digest username (visible username)) name after_empty in
    let safe = visible-safe username in
    let visible_start = started (visible username) not_empty (visible-starts username) in
    record {
      visible_start =
          subst (λ t. starts_visible t ≡ true) same
            (shortened-cases (λ t. starts_visible t ≡ true) digest username (visible username)
              (starts_visible-take (visible username) _ visible_start) (λ _. visible_start));
      characters =
          subst (λ t. all is_folder_char t ≡ true) same
            (shortened-cases (λ t. all is_folder_char t ≡ true) digest username (visible username)
              (hashed-safe (visible username) (digest username) safe hex) (λ _. safe));
      short =
          subst (λ t. length t ≤ 33) same
            (shortened-cases (λ t. length t ≤ 33) digest username (visible username)
              (length-hashed (visible username) (digest username)) at_most_33);
      no_up = no_up;
      no_device = no_device;
    }
