-- ===== src/Shares/Update/Editors.antt =====
-- What a user who does not own a share can change of it.
use aird.Base.{
  ℕ, ◌≡◌, refl, sym, ◌∙◌, ap, subst, ◌⊎◌, inl, inr, Bool, true, false, not, ◌||◌, Bool-cases,
  Option, none, some, List, [], ◌∷◌, if◌then◌else◌, if_true, if_false,
}
use aird.Base.Text.{Text, text_eqb, is_empty}
use aird.Shares.Table.{
  Shares, Share, ShareChanges, get_share_by_id, update_share, update_rows, apply_changes,
}
use aird.Shares.Owner.{User, is_share_owner, can_edit_share_paths}
use aird.Shares.Update.{
  Update, Site, editor_part, has_key, payload_for_user, NewPaths, new_paths, path_error, changes_of,
  token_fields, updated_reply, write_update, type_refused, execute_share_update, execute_payload,
  update_found, perform_share_update,
}

-- The table with other paths under one key, and nothing else changed.
unfoldable pub with_paths : Text → List Text → Shares → Shares
with_paths sid ps [] = []
with_paths sid ps (r ∷ rs) =
    let rest = with_paths sid ps rs in
    if text_eqb r.id sid then record r { paths = some ps } ∷ rest else r ∷ rest

-- A change of an editor leaves the table, or changes the paths of one share.
pub data EditorChange (user : User) (share : Share) (sid : Text) (before : Shares)
    : Shares → Type 0 where
  unchanged : EditorChange user share sid before before
  paths_changed :
      (ps : List Text)
      → can_edit_share_paths user share ≡ true
      → EditorChange user share sid before (with_paths sid ps before)

updated_reply-table : (result : Bool × Shares) → (updated_reply result).1 ≡ result.1
updated_reply-table (true, shares) = refl
updated_reply-table (false, shares) = refl

-- The changes of an editor's body.
editor_changes : Option (List Text) → ShareChanges
editor_changes paths = record {
  share_type = none;
  disable_token = none;
  secret_token = none;
  allow_list = none;
  avoid_list = none;
  expiry_date = none;
  tag_name = none;
  allowed_users = none;
  modify_users = none;
  paths = paths;
}

changes_of-editor :
    (site : Site) (share : Share) (body : Update) (paths : Option (List Text))
    → changes_of site share (editor_part body) paths ≡ editor_changes paths
unfolding changes_of token_fields editor_changes
changes_of-editor site share body paths = refl

update_rows-editor :
    (ps : List Text) (fresh_token sid : Text) (shares : Shares)
    → update_rows (editor_changes (some ps)) fresh_token sid shares ≡ with_paths sid ps shares
unfolding update_rows apply_changes with_paths editor_changes
update_rows-editor ps fresh_token sid [] = refl
update_rows-editor ps fresh_token sid (r ∷ rs) =
    ap (λ rest. if text_eqb r.id sid then record r { paths = some ps } ∷ rest else r ∷ rest)
      (update_rows-editor ps fresh_token sid rs)

update_share-editor :
    (ps : List Text) (fresh_token sid : Text) (shares : Shares)
    → (update_share (editor_changes (some ps)) fresh_token sid shares).1 ≡ with_paths sid ps shares
unfolding update_share editor_changes
update_share-editor ps fresh_token sid shares = update_rows-editor ps fresh_token sid shares

update_share-nothing :
    (fresh_token sid : Text) (shares : Shares)
    → (update_share (editor_changes none) fresh_token sid shares).1 ≡ shares
unfolding update_share editor_changes
update_share-nothing fresh_token sid shares = refl

write_update-EditorChange :
    (site : Site) (user : User) (share : Share) (body : Update) (shares : Shares) (paths : NewPaths)
    → can_edit_share_paths user share ≡ true
    → EditorChange user share body.share_id shares
        (write_update site share (editor_part body) shares paths).1
write_update-EditorChange site user share body shares (path_error n) h = unchanged
write_update-EditorChange site user share body shares (new_paths none) h =
    subst (EditorChange user share body.share_id shares) (sym same) unchanged
  where
    same : (write_update site share (editor_part body) shares (new_paths none)).1 ≡ shares
    same =
        updated_reply-table _
        ∙ ap (λ c. (update_share c site.fresh_token body.share_id shares).1)
            (changes_of-editor site share body none)
        ∙ update_share-nothing site.fresh_token body.share_id shares
write_update-EditorChange site user share body shares (new_paths (some ps)) h =
    subst (EditorChange user share body.share_id shares) (sym changed) (paths_changed ps h)
  where
    changed :
        (write_update site share (editor_part body) shares (new_paths (some ps))).1
        ≡ with_paths body.share_id ps shares
    changed =
        updated_reply-table _
        ∙ ap (λ c. (update_share c site.fresh_token body.share_id shares).1)
            (changes_of-editor site share body (some ps))
        ∙ update_share-editor ps site.fresh_token body.share_id shares

execute-EditorChange :
    (site : Site) (user : User) (share : Share) (body : Update) (shares : Shares)
    → can_edit_share_paths user share ≡ true
    → EditorChange user share body.share_id shares
        (execute_share_update site share (editor_part body) shares).1
unfolding execute_share_update
execute-EditorChange site user share body shares h =
    elim (Bool-cases (type_refused share.share_type share (editor_part body))) [
      | inl refused ↦
          subst (λ (p : ℕ × Shares). EditorChange user share body.share_id shares p.1)
            (sym (if_true _ _ refused)) unchanged
      | inr accepted ↦
          subst (λ (p : ℕ × Shares). EditorChange user share body.share_id shares p.1)
            (sym (if_false _ _ accepted))
            (write_update-EditorChange site user share body shares _ h)
    ]

-- What a user who is no owner gets through of a body.
payload-editor :
    (user : User) (share : Share) (body : Update)
    → is_share_owner user share ≡ false
    → (payload_for_user user share body ≡ none)
      ⊎ ((can_edit_share_paths user share ≡ true)
          × (payload_for_user user share body ≡ some (editor_part body)))
unfolding payload_for_user
payload-editor user share body stranger =
    by_cases (Bool-cases (can_edit_share_paths user share))
      (Bool-cases (has_key body.paths || has_key body.remove_files))
  where
    by_cases :
        (can_edit_share_paths user share ≡ true) ⊎ (can_edit_share_paths user share ≡ false)
        → ((has_key body.paths || has_key body.remove_files) ≡ true)
          ⊎ ((has_key body.paths || has_key body.remove_files) ≡ false)
        → (payload_for_user user share body ≡ none)
          ⊎ ((can_edit_share_paths user share ≡ true)
              × (payload_for_user user share body ≡ some (editor_part body)))
    by_cases (inr none_allowed) _ = inl (if_false _ _ stranger ∙ if_true _ _ (ap not none_allowed))
    by_cases (inl may) (inl keys) =
        inr (may, if_false _ _ stranger ∙ if_false _ _ (ap not may) ∙ if_true _ _ keys)
    by_cases (inl may) (inr no_keys) =
        inl (if_false _ _ stranger ∙ if_false _ _ (ap not may) ∙ if_false _ _ no_keys)

update_found-EditorChange :
    (site : Site) (user : User) (share : Share) (body : Update) (shares : Shares)
    → is_share_owner user share ≡ false
    → EditorChange user share body.share_id shares
        (update_found site user body shares (some share)).1
update_found-EditorChange site user share body shares stranger =
    elim (payload-editor user share body stranger) [
      | inl e ↦
          subst
            (λ (o : Option Update).
              EditorChange user share body.share_id shares (execute_payload site share shares o).1)
            (sym e) unchanged
      | inr (may, e) ↦
          subst
            (λ (o : Option Update).
              EditorChange user share body.share_id shares (execute_payload site share shares o).1)
            (sym e) (execute-EditorChange site user share body shares may)
    ]

-- Whatever a user who does not own a share sends as an update of it, the table stays as it was,
-- or the user may edit the share's paths and these alone are changed: not the token, the lists of
-- users and patterns, the type or the expiry, and no other share.
pub perform_share_update-EditorChange :
    (site : Site) (user : User) (share : Share) (body : Update) (shares : Shares)
    → get_share_by_id body.share_id shares ≡ some share
    → is_share_owner user share ≡ false
    → EditorChange user share body.share_id shares (perform_share_update site user body shares).1
unfolding perform_share_update
perform_share_update-EditorChange site user share body shares found stranger =
    by_cases (Bool-cases (not (site.is_valid body))) (Bool-cases (is_empty body.share_id))
  where
    by_cases :
        (not (site.is_valid body) ≡ true) ⊎ (not (site.is_valid body) ≡ false)
        → (is_empty body.share_id ≡ true) ⊎ (is_empty body.share_id ≡ false)
        → EditorChange user share body.share_id shares
            (perform_share_update site user body shares).1
    by_cases (inl invalid) _ =
        subst (λ (p : ℕ × Shares). EditorChange user share body.share_id shares p.1)
          (sym (if_true _ _ invalid)) unchanged
    by_cases (inr valid) (inl no_id) =
        subst (λ (p : ℕ × Shares). EditorChange user share body.share_id shares p.1)
          (sym (if_false _ _ valid ∙ if_true _ _ no_id)) unchanged
    by_cases (inr valid) (inr some_id) =
        subst (λ (p : ℕ × Shares). EditorChange user share body.share_id shares p.1)
          (sym (
            if_false _ _ valid
            ∙ if_false _ _ some_id
            ∙ ap (update_found site user body shares) found))
          (update_found-EditorChange site user share body shares stranger)
