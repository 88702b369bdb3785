-- ===== src/Shares/Serve/Laws.antt =====
-- What a page of a share takes to be given.
use aird.Base.{
  ◌≡◌, refl, sym, ◌∙◌, ap, subst, ◌⊎◌, ◌↔◌, inl, inr, Bool, true, false, not, ◌&&◌, Bool-cases,
  Option, Option-cases, none, some, arith, if_true, if_false,
}
use aird.Base.Text.{Text, text_eqb, text_eqb→eq}
use aird.Shares.Table.{Shares, Share, get_share_by_id, is_share_expired}
use aird.Shares.Access.{
  ShareRequest, Access, allowed, ask_token, refused, raised, check_share_access,
  is_user_allowed_for_modify,
}
use aird.Shares.Access.Laws.{Entitled, check_share_access-Entitled}
use aird.Shares.Paths.{with_slashes, lstrip_slashes, normpath}
use aird.Shares.Paths.Laws.{has_safe_comps, normpath-has_safe_comps}
use aird.Shares.Serve.{
  World, is_path_in_share, Page, status, to_verify, server_error, listing, file, after_access,
  admitted, with_share, get_shared_list, shared_file, get_shared_file,
}
use aird.Shares.Serve.Guards.{past_guard, present_file, holds_of_not, neither}

-- The share that is served, and why.
pub record Opens (w : World) (shares : Shares) (sid : Text) (r : ShareRequest) (share : Share)
    : Type 0 where
  found : get_share_by_id sid shares ≡ some share
  current : is_share_expired w.instant w.now share.expiry_date ≡ false
  entitled : Entitled share r

-- The file that is served, and why.
pub record Serves (w : World) (share : Share) (path norm : Text) : Type 0 where
  normal : norm ≡ normpath (lstrip_slashes (with_slashes path))
  safe : has_safe_comps norm ≡ true
  covered : is_path_in_share w share path ≡ true
  still_covered :
      (norm ≡ lstrip_slashes (with_slashes path)) ⊎ (is_path_in_share w share norm ≡ true)
  inside : w.within_root share norm ≡ true
  present : w.is_file share norm ≡ true

covered_either :
    (w : World) (share : Share) (norm rel : Text)
    → (not (text_eqb norm rel) && not (is_path_in_share w share norm)) ≡ false
    → (norm ≡ rel) ⊎ (is_path_in_share w share norm ≡ true)
covered_either w share norm rel h = elim (Bool-cases (text_eqb norm rel)) [
  | inl same ↦ inl (text_eqb→eq norm rel same)
  | inr other ↦ inr (ground (arith, h, other))
]

shared_file-Serves :
    (w : World) (share served : Share) (path norm : Text)
    → shared_file w share path ≡ file served norm
    → (share ≡ served) × Serves w share path norm
unfolding shared_file
shared_file-Serves w share served path norm h =
    let rel : Text = lstrip_slashes (with_slashes path) in
    let (covered, after_cover) = past_guard _ 403 _ served norm h in
    let (relative, after_up) = past_guard _ 403 _ served norm after_cover in
    let (again, after_again) = past_guard _ 403 _ served norm after_up in
    let (inside, after_inside) = past_guard _ 403 _ served norm after_again in
    let (present, same, name) = present_file _ share served (normpath rel) norm after_inside in
    (
      same,
      subst (λ t. Serves w share path t) name
          (record {
            normal = refl;
            safe = normpath-has_safe_comps rel (neither _ _ relative);
            covered = holds_of_not _ covered;
            still_covered = covered_either w share (normpath rel) rel again;
            inside = holds_of_not _ inside;
            present = present;
          }),
    )

after_access-page :
    (ask page : Page) (access : Access) (result : Page)
    → after_access ask access page ≡ result
    → ((access ≡ allowed) × (page ≡ result))
      ⊎ ((ask ≡ result) ⊎ ((status 403 ≡ result) ⊎ (server_error ≡ result)))
after_access-page ask page allowed result h = inl (refl, h)
after_access-page ask page ask_token result h = inr (inl h)
after_access-page ask page refused result h = inr (inr (inl h))
after_access-page ask page raised result h = inr (inr (inr h))

-- A file is answered only past the checks of expiry and access.
admitted-file :
    (w : World) (share : Share) (r : ShareRequest) (page : Page) (served : Share) (norm : Text)
    → admitted w share r (status 403) page ≡ file served norm
    → (is_share_expired w.instant w.now share.expiry_date ≡ false)
      × Entitled share r
      × (page ≡ file served norm)
unfolding admitted
admitted-file w share r page served norm h =
    let (current, after_expiry) = past_guard _ 410 _ served norm h in
    elim (after_access-page (status 403) page (check_share_access share r) (file served norm)
      after_expiry) [
        | inl (let_in, e) ↦ (current, (check_share_access-Entitled share r).0 let_in, e)
        | inr (inl e) ↦ absurd (cc e)
        | inr (inr (inl e)) ↦ absurd (cc e)
        | inr (inr (inr e)) ↦ absurd (cc e)
      ]

-- A file that the handler serves belongs to a share that stands in the table under the id asked
-- for, has not expired, and is open to the request; its path is the one asked for in normal form,
-- without a component that is `..` or empty; the share covers the path, and the normal form where
-- that differs; and it is a file below the root of the share.
pub get_shared_file-Serves :
    (w : World) (shares : Shares) (sid path norm : Text) (r : ShareRequest) (share : Share)
    → get_shared_file w shares sid path r ≡ file share norm
    → Opens w shares sid r share × Serves w share path norm
unfolding get_shared_file
get_shared_file-Serves w shares sid path norm r share h =
    elim (Option-cases (get_share_by_id sid shares)) [
      | inl e ↦ absurd (
          cc
            (ap (with_share (λ s. admitted w s r (status 403) (shared_file w s path))) (sym e) ∙ h))
      | inr (stored, e) ↦
          let (current, entitled, served) =
            admitted-file w stored r (shared_file w stored path) share norm (
              ap (with_share (λ s. admitted w s r (status 403) (shared_file w s path))) (sym e)
              ∙ h) in
          let (same, serves) = shared_file-Serves w stored share path norm served in
          (
            subst (Opens w shares sid r) same
                (record { found = e; current = current; entitled = entitled }),
            subst (λ s. Serves w s path norm) same serves,
          )
    ]

abbrev pub is_listing : Page → Bool
is_listing (listing files modify) = true
is_listing _ = false

admitted-listing :
    (w : World) (share : Share) (r : ShareRequest) (page : Page)
    → is_listing (admitted w share r to_verify page) ≡ true
    → (is_share_expired w.instant w.now share.expiry_date ≡ false) × Entitled share r
unfolding admitted
admitted-listing w share r page h =
    elim (Bool-cases (is_share_expired w.instant w.now share.expiry_date)) [
      | inl expired ↦ absurd (cc (ap is_listing (sym (if_true _ _ expired)) ∙ h))
      | inr current ↦ (
        current,
        let_in (check_share_access share r) refl (ap is_listing (sym (if_false _ _ current)) ∙ h),
      )
    ]
  where
    let_in :
        (access : Access)
        → check_share_access share r ≡ access
        → is_listing (after_access to_verify access page) ≡ true
        → Entitled share r
    let_in allowed e k = (check_share_access-Entitled share r).0 e
    let_in ask_token e k = absurd (cc k)
    let_in refused e k = absurd (cc k)
    let_in raised e k = absurd (cc k)

admitted-page :
    (w : World) (share : Share) (r : ShareRequest) (page : Page)
    → is_share_expired w.instant w.now share.expiry_date ≡ false
    → Entitled share r
    → admitted w share r to_verify page ≡ page
unfolding admitted
admitted-page w share r page current entitled =
    if_false _ _ current
    ∙ ap (λ access. after_access to_verify access page)
        ((check_share_access-Entitled share r).1 entitled)

list_of : World → ShareRequest → Share → Page
list_of w r share =
    admitted w share r to_verify
      (listing (w.file_list share) (is_user_allowed_for_modify share r.user))

get_shared_list-found :
    (w : World) (shares : Shares) (sid : Text) (r : ShareRequest) (found : Option Share)
    → get_share_by_id sid shares ≡ found
    → get_shared_list w shares sid r ≡ with_share (list_of w r) found
unfolding get_shared_list list_of
get_shared_list-found w shares sid r found e = ap (with_share (list_of w r)) e

list_of-listing :
    (w : World) (share : Share) (r : ShareRequest)
    → is_listing (list_of w r share) ≡ true
    → (is_share_expired w.instant w.now share.expiry_date ≡ false) × Entitled share r
unfolding list_of
list_of-listing w share r h = admitted-listing w share r _ h

list_of-page :
    (w : World) (share : Share) (r : ShareRequest)
    → is_share_expired w.instant w.now share.expiry_date ≡ false
    → Entitled share r
    → is_listing (list_of w r share) ≡ true
unfolding list_of
list_of-page w share r current entitled = ap is_listing (admitted-page w share r _ current entitled)

-- The files of a share are listed exactly where the table has the share, it has not expired, and
-- it is open to the request.
pub get_shared_list-Opens :
    (w : World) (shares : Shares) (sid : Text) (r : ShareRequest)
    → (is_listing (get_shared_list w shares sid r) ≡ true)
      ↔ ((share : Share) × Opens w shares sid r share)
get_shared_list-Opens w shares sid r = (opens, lists)
  where
    opens :
        is_listing (get_shared_list w shares sid r) ≡ true
        → (share : Share) × Opens w shares sid r share
    opens h = elim (Option-cases (get_share_by_id sid shares)) [
      | inl e ↦ absurd (cc (ap is_listing (sym (get_shared_list-found w shares sid r none e)) ∙ h))
      | inr (share, e) ↦
          let (current, entitled) =
            list_of-listing w share r
              (ap is_listing (sym (get_shared_list-found w shares sid r (some share) e)) ∙ h) in
          (share, record { found = e; current = current; entitled = entitled })
    ]

    lists :
        (share : Share) × Opens w shares sid r share
        → is_listing (get_shared_list w shares sid r) ≡ true
    lists (share, o) =
        ap is_listing (get_shared_list-found w shares sid r (some share) o.found)
        ∙ list_of-page w share r o.current o.entitled
