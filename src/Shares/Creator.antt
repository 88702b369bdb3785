-- ===== src/Shares/Creator.antt =====
-- Who made a share: aird/core/share_root.py. The column `created_by` holds a login, or, in old
-- rows, a login with its role, as in `ann (Admin)`.
pub mod Laws
use aird.Base.{
  Bool, true, false, not, ◌&&◌, ◌||◌, Option, none, some, [], ◌∷◌, all, eqb, if◌then◌else◌,
}
use aird.Base.Text.{Text, text_eqb, codes, strip, is_empty}

-- The text before a suffix, if it ends so.
unfoldable pub without_suffix : Text → Text → Option Text
without_suffix suffix [] = if is_empty suffix then some [] else none
without_suffix suffix (c ∷ cs) =
    let rest = without_suffix suffix cs in
    if text_eqb (c ∷ cs) suffix then some [] else elim rest [ none ↦ none | some p ↦ some (c ∷ p) ]

-- The group of `^(.+?) \((Admin|User)\)$`: `.` is any character but a newline.
abbrev pub named_part : Text → Bool
named_part p = not (is_empty p) && all (λ c. not (eqb c 10)) p

abbrev pub part_of : Option Text → Option Text
part_of none = none
part_of (some p) = if named_part p then some p else none

unfoldable pub role_display : Text → Option Text
unfolding without_suffix
role_display c = elim (part_of (without_suffix (codes " (Admin)") c)) [
  | some p ↦ some p
  | none ↦ part_of (without_suffix (codes " (User)") c)
]

abbrev pub or_empty_text : Option Text → Text
or_empty_text none = []
or_empty_text (some t) = t

abbrev pub names_login : Option Text → Text → Bool
names_login none username = false
names_login (some p) username = text_eqb (strip p) username

-- `login_matches_share_creator_field`.
unfoldable pub login_matches : Option Text → Text → Bool
unfolding role_display
login_matches creator_field username =
    let c = strip (or_empty_text creator_field) in
    if is_empty username
    then false
    else if is_empty c
    then false
    else if text_eqb c username
    then true
    else names_login (role_display c) username

-- `creator_folder_username_from_share_field`.
abbrev pub admin_label : Text
admin_label = codes "Admin (Token)"

abbrev pub access_label : Text
access_label = codes "Access (Token)"

abbrev pub login_part : Text → Option Text → Text
login_part c none = c
login_part c (some p) = strip p

unfoldable pub creator_folder_username : Option Text → Text
unfolding role_display
creator_folder_username created_by =
    let c = strip (or_empty_text created_by) in
    if is_empty c
    then []
    else if text_eqb c admin_label || text_eqb c access_label
    then []
    else login_part c (role_display c)

-- `filesystem_root_for_share`, by the name of the folder below the root; `none` is the root itself.
-- `folder_name` is `sanitize_username_for_folder`.
abbrev pub token_only : Text → Bool
token_only login = text_eqb login (codes "token_user") || text_eqb login (codes "admin_token")

unfoldable pub folder_for_share : (Text → Option Text) → Bool → Option Text → Option Text
unfolding creator_folder_username
folder_for_share folder_name multi_user created_by =
    let login = creator_folder_username created_by in
    if not multi_user
    then none
    else if is_empty login || token_only login
    then none
    else folder_name login
