-- ===== src/Shares/Creator/Laws.antt =====
-- The login that a share's folder belongs to is recognised as its creator.
use aird.Base.{
  ◌≡◌, sym, ◌∙◌, ap, subst, ◌⊎◌, inl, inr, true, false, ◌||◌, Bool-cases, Option, none, some, [],
  if◌then◌else◌, if_true, if_false,
}
use aird.Base.Text.{Text, text_eqb, text_eqb_refl, is_empty, strip}
use aird.Shares.Creator.{
  or_empty_text, role_display, names_login, login_part, login_matches, creator_folder_username,
  admin_label, access_label,
}

empty_not_login : (login : Text) → [] ≡ login → is_empty login ≡ false → true ≡ false
unfolding is_empty
empty_not_login login e some_login = ap is_empty e ∙ some_login

-- The part of a creator field that its folder is named after names a login.
part_names :
    (c login : Text) (part : Option Text)
    → login_part c part ≡ login
    → (if text_eqb c login then true else names_login part login) ≡ true
part_names c login none e = if_true _ _ (subst (λ l. text_eqb c l ≡ true) e (text_eqb_refl c))
part_names c login (some p) e = elim (Bool-cases (text_eqb c login)) [
  | inl same ↦ if_true _ _ same
  | inr other ↦
      if_false _ _ other ∙ subst (λ l. text_eqb (strip p) l ≡ true) e (text_eqb_refl (strip p))
]

-- If the folder of a share is that of a login, the share's creator field names that login.
pub folder-login_matches :
    (field : Option Text) (login : Text)
    → creator_folder_username field ≡ login
    → is_empty login ≡ false
    → login_matches field login ≡ true
unfolding creator_folder_username login_matches
folder-login_matches field login e some_login =
    let c = strip (or_empty_text field) in
    elim (Bool-cases (is_empty c)) [
      | inl no_field ↦
          absurd (cc (empty_not_login login (sym (if_true _ _ no_field) ∙ e) some_login))
      | inr some_field ↦
          if_false _ _ some_login
          ∙ if_false _ _ some_field
          ∙ part_names c login (role_display c) (part some_field (Bool-cases _))
    ]
  where
    part :
        is_empty (strip (or_empty_text field)) ≡ false
        → let c = strip (or_empty_text field) in
          let token = text_eqb c admin_label || text_eqb c access_label in
          (token ≡ true) ⊎ (token ≡ false) → login_part c (role_display c) ≡ login
    part some_field (inl token) = absurd (
        cc (
          empty_not_login login (sym (if_false _ _ some_field ∙ if_true _ _ token) ∙ e) some_login))
    part some_field (inr named) = sym (if_false _ _ some_field ∙ if_false _ _ named) ∙ e
