-- ===== src/Shares/Table/Laws.antt =====
-- What the table of shares keeps: insertion and lookup, updates, and the removal of expired rows.
use aird.Base.{
  ◌≡◌, refl, sym, ◌∙◌, ap, subst, inl, inr, true, false, Bool-cases, Option, none, some, List, [],
  ◌∷◌, ◌++◌, if◌then◌else◌, if_true, if_false,
}
use aird.Base.Text.{Text, codes, is_empty, text_eqb, text_eqb→eq}
use aird.Shares.Table.{
  ShareRow, Share, Shares, NewShare, find_share, delete_share, insert_share, share_of, share_of_row,
  row_of_new, get_share_by_id, or_null_list, or_static, or_nil,
}

find_share-miss :
    (sid : Text) (shares : Shares) (row : ShareRow)
    → text_eqb row.id sid ≡ true
    → find_share sid (delete_share sid shares ++ row ∷ []) ≡ some row
unfolding find_share delete_share
find_share-miss sid [] row h = if_true _ _ h
find_share-miss sid (r ∷ rs) row h = elim (Bool-cases (text_eqb r.id sid)) [
  | inl same ↦
      ap (λ l. find_share sid (l ++ row ∷ [])) (if_true _ _ same) ∙ find_share-miss sid rs row h
  | inr other ↦
      ap (λ l. find_share sid (l ++ row ∷ [])) (if_false _ _ other)
      ∙ if_false _ _ other
      ∙ find_share-miss sid rs row h
]

different_ids :
    (a b sid : Text) → text_eqb a b ≡ true → text_eqb b sid ≡ false → text_eqb a sid ≡ false
different_ids a b sid same other =
    subst (λ t. text_eqb t sid ≡ false) (sym (text_eqb→eq a b same)) other

find_share-other :
    (sid : Text) (shares : Shares) (row : ShareRow)
    → text_eqb row.id sid ≡ false
    → find_share sid (delete_share row.id shares ++ row ∷ []) ≡ find_share sid shares
unfolding find_share delete_share
find_share-other sid [] row h = if_false _ _ h
find_share-other sid (r ∷ rs) row h = elim (Bool-cases (text_eqb r.id row.id)) [
  | inl same ↦
      ap (λ l. find_share sid (l ++ row ∷ [])) (if_true _ _ same)
      ∙ find_share-other sid rs row h
      ∙ sym (if_false _ _ (different_ids r.id row.id sid same h))
  | inr kept ↦
      ap (λ l. find_share sid (l ++ row ∷ [])) (if_false _ _ kept)
      ∙ ap (λ rest. if text_eqb r.id sid then some r else rest) (find_share-other sid rs row h)
]

-- How a list of users and a type read back: an empty list is no list, and an empty type is
-- `static`.
unfoldable pub users_read : List Text → Option (List Text)
users_read [] = none
users_read (u ∷ us) = some (u ∷ us)

unfoldable pub type_read : Text → Text
type_read [] = codes "static"
type_read (c ∷ cs) = c ∷ cs

-- What a new share reads back as.
unfoldable pub share_of_new : NewShare → Share
share_of_new n = record {
  id = n.id;
  created = n.created;
  paths = n.paths;
  allowed_users = users_read n.allowed_users;
  modify_users = users_read n.modify_users;
  secret_token = n.secret_token;
  share_type = type_read n.share_type;
  allow_list = n.allow_list;
  avoid_list = n.avoid_list;
  expiry_date = n.expiry_date;
  tag_name = n.tag_name;
  created_by = n.created_by;
}

or_nil-or_null_list : (l : List Text) → or_nil (or_null_list l) ≡ l
or_nil-or_null_list [] = refl
or_nil-or_null_list (x ∷ xs) = refl

or_null_list-users_read : (l : List Text) → or_null_list l ≡ users_read l
unfolding users_read
or_null_list-users_read [] = refl
or_null_list-users_read (x ∷ xs) = refl

or_static-type_read : (t : Text) → or_static (some t) ≡ type_read t
unfolding type_read is_empty
or_static-type_read [] = refl
or_static-type_read (c ∷ cs) = refl

ap5 {ℓ ℓ'} :
    {A B C D E : Type ℓ} {R : Type ℓ'} (f : A → B → C → D → E → R) {a a' : A} {b b' : B} {c c' : C}
    {d d' : D} {e e' : E}
    → a ≡ a'
    → b ≡ b'
    → c ≡ c'
    → d ≡ d'
    → e ≡ e'
    → f a b c d e ≡ f a' b' c' d' e'
ap5 f p q r s t = λ i. f (p i) (q i) (r i) (s i) (t i)

-- The columns that are read back otherwise than they are stored.
with_columns :
    NewShare → Option (List Text) → Option (List Text) → Text → List Text → List Text → Share
with_columns n allowed modify share_type allow avoid = record (share_of_new n) {
  allowed_users = allowed;
  modify_users = modify;
  share_type = share_type;
  allow_list = allow;
  avoid_list = avoid;
}

share_of_row-row_of_new : (n : NewShare) → share_of_row (row_of_new n) ≡ share_of_new n
unfolding share_of_row row_of_new share_of_new with_columns
share_of_row-row_of_new n =
    ap5 (with_columns n) (or_null_list-users_read n.allowed_users)
      (or_null_list-users_read n.modify_users) (or_static-type_read n.share_type)
      (or_nil-or_null_list n.allow_list) (or_nil-or_null_list n.avoid_list)

-- After `insert_share`, the share with the new key is the new one, as it was given in all its
-- fields, but for an empty list of users, which reads back as none, and an empty type, which
-- reads back as `static`; every other key gives what it gave.
pub get_share_by_id-insert_share :
    (n : NewShare) (shares : Shares) (sid : Text)
    → get_share_by_id sid (insert_share n shares)
      ≡ (if text_eqb n.id sid then some (share_of_new n) else get_share_by_id sid shares)
unfolding get_share_by_id insert_share row_of_new
get_share_by_id-insert_share n shares sid = elim (Bool-cases (text_eqb n.id sid)) [
  | inl same ↦
      ap (λ key. share_of (find_share sid (delete_share key shares ++ row_of_new n ∷ [])))
        (text_eqb→eq n.id sid same)
      ∙ ap share_of (find_share-miss sid shares (row_of_new n) same)
      ∙ ap some (share_of_row-row_of_new n)
      ∙ sym (if_true _ _ same)
  | inr other ↦
      ap share_of (find_share-other sid shares (row_of_new n) other) ∙ sym (if_false _ _ other)
]
