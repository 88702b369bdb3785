-- ===== src/Security/Examples.antt =====
-- Folder names of some users, and the theorem at one of them.
use aird.Base.{◌≡◌, refl, none, some, all, true, [], ◌∷◌}
use aird.Base.Text.{is_wide_space, contains, text_eqb, Text, codes, is_empty, strip}
use aird.Security.Folder.{sanitize_username_for_folder, is_folder_char}
use aird.Security.Folder.Laws.{Safe, sanitize_username_for_folder-Safe}

-- A digest of the right form.
abbrev digest : Text → Text
digest username = codes "0123456789abcdef"

test_spaces : sanitize_username_for_folder digest (codes " Ann Lee ") ≡ some (codes "Ann_Lee")
unfolding sanitize_username_for_folder is_empty strip text_eqb contains
test_spaces = refl

-- An ideographic space is white space too.
test_wide_space : sanitize_username_for_folder digest (97 ∷ 98 ∷ 12288 ∷ []) ≡ some (codes "ab")
unfolding sanitize_username_for_folder is_empty strip text_eqb contains is_wide_space
test_wide_space = refl

test_long :
    sanitize_username_for_folder digest (codes "a.very.long.user@example.org")
    ≡ some (codes "a.very.long.user@exa_0123456789ab")
unfolding sanitize_username_for_folder is_empty strip text_eqb contains
test_long = refl

test_hidden : sanitize_username_for_folder digest (codes "../..") ≡ none
unfolding sanitize_username_for_folder is_empty strip
test_hidden = refl

test_device : sanitize_username_for_folder digest (codes "nul.txt") ≡ none
unfolding sanitize_username_for_folder is_empty strip text_eqb
test_device = refl

digest_safe : all is_folder_char (digest (codes " Ann Lee ")) ≡ true
unfolding is_folder_char
digest_safe = refl

sanitize_username_for_folder-Safe_example : Safe (codes "Ann_Lee")
sanitize_username_for_folder-Safe_example =
    sanitize_username_for_folder-Safe digest (codes " Ann Lee ") (codes "Ann_Lee") digest_safe
      test_spaces
