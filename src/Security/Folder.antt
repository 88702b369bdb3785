-- ===== src/Security/Folder.antt =====
-- The folder of a user: `sanitize_username_for_folder` of aird/core/security.py.
pub mod Laws
use aird.Base.{
  ℕ, ◌+◌, ◌-◌, Bool, false, ◌&&◌, ◌||◌, Option, none, some, List, [], ◌∷◌, ◌++◌, map, take, length,
  any, eqb, leb, ltb, if◌then◌else◌,
}
use aird.Base.Text.{Text, text_eqb, codes, strip, is_empty, contains, split_head}

-- `[a-zA-Z0-9_\-\.@]`.
unfoldable pub is_folder_char : ℕ → Bool
is_folder_char c =
    (leb b'a' c && leb c b'z')
    || (leb b'A' c && leb c b'Z')
    || (leb b'0' c && leb c b'9')
    || eqb c 95
    || eqb c 45
    || eqb c 46
    || eqb c 64

unfoldable pub with_underscores : Text → Text
unfolding is_folder_char
with_underscores s = map (λ c. if is_folder_char c then c else 95) s

-- `lstrip("._")` and `rstrip(". ")`.
unfoldable pub lstrip_hidden : Text → Text
lstrip_hidden [] = []
lstrip_hidden (c ∷ cs) =
    let rest = lstrip_hidden cs in if eqb c 46 || eqb c 95 then rest else c ∷ cs

unfoldable pub rstrip_dots : Text → Text
rstrip_dots [] = []
rstrip_dots (c ∷ cs) =
    let rest = rstrip_dots cs in if (eqb c 46 || eqb c 32) && is_empty rest then [] else c ∷ rest

-- `".." in name`.
unfoldable pub has_two_dots : Text → Bool
has_two_dots [] = false
has_two_dots (c ∷ []) = false
has_two_dots (c ∷ d ∷ ds) = (eqb c 46 && eqb d 46) || has_two_dots (d ∷ ds)

-- `str.upper` on the characters of a folder name.
unfoldable pub upper : Text → Text
upper s = map (λ c. if leb b'a' c && leb c b'z' then c - 32 else c) s

abbrev pub windows_reserved : List Text
windows_reserved =
    codes "CON"
    ∷ codes "PRN"
    ∷ codes "AUX"
    ∷ codes "NUL"
    ∷ codes "COM1"
    ∷ codes "COM2"
    ∷ codes "COM3"
    ∷ codes "COM4"
    ∷ codes "COM5"
    ∷ codes "COM6"
    ∷ codes "COM7"
    ∷ codes "COM8"
    ∷ codes "COM9"
    ∷ codes "LPT1"
    ∷ codes "LPT2"
    ∷ codes "LPT3"
    ∷ codes "LPT4"
    ∷ codes "LPT5"
    ∷ codes "LPT6"
    ∷ codes "LPT7"
    ∷ codes "LPT8"
    ∷ codes "LPT9"
    ∷ []

unfoldable pub is_reserved : Text → Bool
unfolding upper split_head
is_reserved name =
    let stem = upper (split_head 46 name) in any (λ r. text_eqb r stem) windows_reserved

-- `digest` is the hexadecimal SHA-256 of the name in UTF-8.
abbrev pub shortened : (Text → Text) → Text → Text → Text
shortened digest username name =
    if ltb 20 (length name)
    then take 20 name ++ 95 ∷ take 12 (digest username)
    else if ltb 64 (length name)
    then take 64 name
    else name

abbrev pub is_dotted : Text → Bool
is_dotted name = text_eqb name (codes ".") || text_eqb name (codes "..") || has_two_dots name

abbrev pub checked_name : Text → Option Text
checked_name name =
    if is_reserved name
    then none
    else if contains 47 name || contains 92 name
    then none
    else if is_dotted name
    then none
    else some name

abbrev pub visible : Text → Text
visible username = rstrip_dots (lstrip_hidden (with_underscores (strip username)))

unfoldable pub sanitize_username_for_folder : (Text → Text) → Text → Option Text
unfolding with_underscores lstrip_hidden rstrip_dots has_two_dots is_reserved
sanitize_username_for_folder digest username =
    let name = visible username in
    if is_empty (strip username)
    then none
    else if is_empty name
    then none
    else checked_name (shortened digest username name)
