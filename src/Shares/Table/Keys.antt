-- ===== src/Shares/Table/Keys.antt =====
-- The key of a share is the key of no other, and what the removal of expired shares leaves.
use aird.Base.{
  ℕ, ◌≡◌, refl, sym, ◌∙◌, ap, subst, ◌⊎◌, inl, inr, Bool, true, false, not, ◌&&◌, Bool-cases,
  Option, none, some, [], ◌∷◌, ◌++◌, all, arith, if◌then◌else◌, if_true, if_false,
}
use aird.Base.Text.{Text, text_eqb, text_eqb_refl, text_eqb→eq}
use aird.Shares.Table.{
  ShareRow, Share, Shares, NewShare, ShareChanges, find_share, delete_share, insert_share,
  share_of_row, row_of_new, get_share_by_id, update_rows, update_share, apply_changes, has_changes,
  is_share_expired, cleanup_expired_shares,
}

abbrev pub lacks : Text → Shares → Bool
lacks sid rows = all (λ r. not (text_eqb r.id sid)) rows

-- No key stands twice.
unfoldable pub is_keyed : Shares → Bool
is_keyed [] = true
is_keyed (r ∷ rs) = lacks r.id rs && is_keyed rs

-- An operation on the table.
pub data Change : Shares → Shares → Type 0 where
  insert : (n : NewShare) (shares : Shares) → Change shares (insert_share n shares)
  update :
      (c : ShareChanges) (fresh_token sid : Text) (shares : Shares)
      → Change shares (update_share c fresh_token sid shares).1
  delete : (sid : Text) (shares : Shares) → Change shares (delete_share sid shares)
  cleanup :
      (instant : Text → Option ℕ) (now : ℕ) (shares : Shares)
      → Change shares (cleanup_expired_shares instant now shares)

lacks-delete_share :
    (k sid : Text) (rows : Shares) → lacks k rows ≡ true → lacks k (delete_share sid rows) ≡ true
unfolding delete_share
lacks-delete_share k sid [] h = refl
lacks-delete_share k sid (r ∷ rs) h = ground (arith, h, lacks-delete_share k sid rs)

delete_share-lacks : (sid : Text) (rows : Shares) → lacks sid (delete_share sid rows) ≡ true
unfolding delete_share
delete_share-lacks sid [] = refl
delete_share-lacks sid (r ∷ rs) = ground (arith, delete_share-lacks sid rs)

delete_share-keyed :
    (sid : Text) (rows : Shares) → is_keyed rows ≡ true → is_keyed (delete_share sid rows) ≡ true
unfolding delete_share is_keyed
delete_share-keyed sid [] h = refl
delete_share-keyed sid (r ∷ rs) h =
    ground (arith, h, delete_share-keyed sid rs, lacks-delete_share r.id sid rs)

lacks-append :
    (k : Text) (rows : Shares) (r : ShareRow)
    → lacks k rows ≡ true
    → text_eqb r.id k ≡ false
    → lacks k (rows ++ r ∷ []) ≡ true
lacks-append k [] r h e = ground (arith, e)
lacks-append k (x ∷ xs) r h e = ground (arith, h, e, lacks-append k xs r)

text_eqb_sym : (a b : Text) → text_eqb a b ≡ false → text_eqb b a ≡ false
text_eqb_sym a b h = elim (Bool-cases (text_eqb b a)) [
  | inl same ↦ absurd (
      cc (h, sym (subst (λ t. text_eqb a t ≡ true) (sym (text_eqb→eq b a same)) (text_eqb_refl a))))
  | inr other ↦ other
]

-- A row with a new key goes last.
append-keyed :
    (rows : Shares) (r : ShareRow)
    → lacks r.id rows ≡ true
    → is_keyed rows ≡ true
    → is_keyed (rows ++ r ∷ []) ≡ true
unfolding is_keyed
append-keyed [] r new h = refl
append-keyed (x ∷ xs) r new h =
    ground (arith, new, h, append-keyed xs r, lacks-append x.id xs r, text_eqb_sym x.id r.id)

lacks-update_rows :
    (c : ShareChanges) (fresh_token sid k : Text) (rows : Shares)
    → lacks k (update_rows c fresh_token sid rows) ≡ lacks k rows
unfolding update_rows apply_changes
lacks-update_rows c fresh_token sid k [] = refl
lacks-update_rows c fresh_token sid k (r ∷ rs) =
    ground (arith, lacks-update_rows c fresh_token sid k rs)

update_rows-keyed :
    (c : ShareChanges) (fresh_token sid : Text) (rows : Shares)
    → is_keyed rows ≡ true
    → is_keyed (update_rows c fresh_token sid rows) ≡ true
unfolding update_rows apply_changes is_keyed
update_rows-keyed c fresh_token sid [] h = refl
update_rows-keyed c fresh_token sid (r ∷ rs) h =
    ground (
      arith,
      h,
      update_rows-keyed c fresh_token sid rs,
      lacks-update_rows c fresh_token sid r.id rs,
    )

lacks-cleanup :
    (instant : Text → Option ℕ) (now : ℕ) (k : Text) (rows : Shares)
    → lacks k rows ≡ true
    → lacks k (cleanup_expired_shares instant now rows) ≡ true
unfolding cleanup_expired_shares
lacks-cleanup instant now k [] h = refl
lacks-cleanup instant now k (r ∷ rs) h = ground (arith, h, lacks-cleanup instant now k rs)

cleanup-keyed :
    (instant : Text → Option ℕ) (now : ℕ) (rows : Shares)
    → is_keyed rows ≡ true
    → is_keyed (cleanup_expired_shares instant now rows) ≡ true
unfolding cleanup_expired_shares is_keyed
cleanup-keyed instant now [] h = refl
cleanup-keyed instant now (r ∷ rs) h =
    ground (arith, h, cleanup-keyed instant now rs, lacks-cleanup instant now r.id rs)

-- Every operation on the table keeps its keys distinct.
pub Change-keyed :
    (before after : Shares) → Change before after → is_keyed before ≡ true → is_keyed after ≡ true
unfolding insert_share row_of_new update_share
Change-keyed before after (insert n shares) h =
    append-keyed (delete_share n.id shares) (row_of_new n) (delete_share-lacks n.id shares)
      (delete_share-keyed n.id shares h)
Change-keyed before after (update c fresh_token sid shares) h =
    elim (Bool-cases (not (has_changes c))) [
      | inl none_given ↦
          subst (λ (p : Bool × Shares). is_keyed p.1 ≡ true) (sym (if_true _ _ none_given)) h
      | inr given ↦
          subst (λ (p : Bool × Shares). is_keyed p.1 ≡ true) (sym (if_false _ _ given))
            (update_rows-keyed c fresh_token sid shares h)
    ]
Change-keyed before after (delete sid shares) h = delete_share-keyed sid shares h
Change-keyed before after (cleanup instant now shares) h = cleanup-keyed instant now shares h

-- A share that has not expired.
unfoldable pub unexpired : (Text → Option ℕ) → ℕ → Option Share → Option Share
unexpired instant now none = none
unexpired instant now (some s) = if is_share_expired instant now s.expiry_date then none else some s

absent : (sid : Text) (rows : Shares) → lacks sid rows ≡ true → get_share_by_id sid rows ≡ none
unfolding get_share_by_id find_share
absent sid [] h = refl
absent sid (r ∷ rs) h = ground (arith, h, absent sid rs)

nothing_left : (instant : Text → Option ℕ) (now : ℕ) → none ≡ unexpired instant now none
unfolding unexpired
nothing_left instant now = refl

lacks_eq :
    (a b : Text) (rows : Shares) → text_eqb a b ≡ true → lacks a rows ≡ true → lacks b rows ≡ true
lacks_eq a b rows e h = subst (λ k. lacks k rows ≡ true) (text_eqb→eq a b e) h

get_share_by_id-cons :
    (sid : Text) (r : ShareRow) (rs : Shares)
    → get_share_by_id sid (r ∷ rs)
      ≡ (if text_eqb r.id sid then some (share_of_row r) else get_share_by_id sid rs)
unfolding get_share_by_id find_share
get_share_by_id-cons sid r rs = ground arith

unexpired-share_of_row :
    (instant : Text → Option ℕ) (now : ℕ) (r : ShareRow)
    → unexpired instant now (some (share_of_row r))
      ≡ (if is_share_expired instant now r.expiry_date then none else some (share_of_row r))
unfolding unexpired share_of_row
unexpired-share_of_row instant now r = refl

-- With distinct keys, after the cleanup a key gives what it gave before, unless that share has
-- expired.
pub get_share_by_id-cleanup_expired_shares :
    (instant : Text → Option ℕ) (now : ℕ) (sid : Text) (shares : Shares)
    → is_keyed shares ≡ true
    → get_share_by_id sid (cleanup_expired_shares instant now shares)
      ≡ unexpired instant now (get_share_by_id sid shares)
unfolding cleanup_expired_shares is_keyed
get_share_by_id-cleanup_expired_shares instant now sid [] h = no_share
  where
    no_share : get_share_by_id sid [] ≡ unexpired instant now (get_share_by_id sid [])
    no_share = rw (absent sid [] refl) (nothing_left instant now)
get_share_by_id-cleanup_expired_shares instant now sid (r ∷ rs) h =
    let ih : get_share_by_id sid (cleanup_expired_shares instant now rs)
        ≡ unexpired instant now (get_share_by_id sid rs) =
      get_share_by_id-cleanup_expired_shares instant now sid rs (ground (arith, h)) in
    elim (Bool-cases (is_share_expired instant now r.expiry_date)) [
      | inl gone ↦
          ap (get_share_by_id sid) (if_true _ _ gone)
          ∙ ih
          ∙ rest_expired gone (Bool-cases (text_eqb r.id sid))
      | inr kept ↦
          ap (get_share_by_id sid) (if_false _ _ kept)
          ∙ get_share_by_id-cons sid r (cleanup_expired_shares instant now rs)
          ∙ ap (λ rest. if text_eqb r.id sid then some (share_of_row r) else rest) ih
          ∙ rest_kept kept (Bool-cases (text_eqb r.id sid))
          ∙ ap (unexpired instant now) (sym (get_share_by_id-cons sid r rs))
    ]
  where
    rest_expired :
        is_share_expired instant now r.expiry_date ≡ true
        → (text_eqb r.id sid ≡ true) ⊎ (text_eqb r.id sid ≡ false)
        → unexpired instant now (get_share_by_id sid rs)
          ≡ unexpired instant now (get_share_by_id sid (r ∷ rs))
    rest_expired gone (inl same) =
        ap (unexpired instant now) (absent sid rs (lacks_eq r.id sid rs same (ground (arith, h))))
        ∙ sym (nothing_left instant now)
        ∙ sym (if_true _ _ gone)
        ∙ sym (unexpired-share_of_row instant now r)
        ∙ ap (unexpired instant now) (sym (get_share_by_id-cons sid r rs ∙ if_true _ _ same))
    rest_expired gone (inr other) =
        ap (unexpired instant now) (sym (get_share_by_id-cons sid r rs ∙ if_false _ _ other))

    rest_kept :
        is_share_expired instant now r.expiry_date ≡ false
        → (text_eqb r.id sid ≡ true) ⊎ (text_eqb r.id sid ≡ false)
        → (if text_eqb r.id sid
            then some (share_of_row r)
            else unexpired instant now (get_share_by_id sid rs))
          ≡ unexpired instant now
              (if text_eqb r.id sid then some (share_of_row r) else get_share_by_id sid rs)
    rest_kept kept (inl same) =
        if_true _ _ same
        ∙ sym (if_false _ _ kept)
        ∙ sym (unexpired-share_of_row instant now r)
        ∙ ap (unexpired instant now) (sym (if_true _ _ same))
    rest_kept kept (inr other) =
        if_false _ _ other ∙ ap (unexpired instant now) (sym (if_false _ _ other))
