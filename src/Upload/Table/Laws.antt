-- ===== src/Upload/Table/Laws.antt =====
-- Reading the session table after each write.
use Prim.Native.String.{String}
use mathlib.Core.Option.{some-injective}
use text.Mathlib.Text.{◌==◌}
use text.Mathlib.TextEquality.{eq_iff}
use aird.Base.{
  ◌≡◌, ◌≢◌, refl, sym, ◌∙◌, ap, inl, inr, Bool, true, false, Bool-cases, Option, none, some, List,
  [], ◌∷◌, ◌++◌, All, arith, if◌then◌else◌, if_true, if_false,
}
use aird.Range.{ByteRange, IsRange, merge_ranges, ranges_to_json, ranges_from_json}
use aird.Range.Canonical.{ranges_from_json-ranges_to_json}
use aird.Upload.Table.{
  Row, Table, Session, find_row, session_of, session_of_found, insert_new, get_session,
  create_session, update_ranges, delete_session,
}

abbrev pub with_ranges : List ByteRange → Option Row → Option Row
with_ranges ranges none = none
with_ranges ranges (some r) = some (record r { ranges = ranges_to_json ranges })

find_row-update_ranges :
    (id j : String) (ranges : List ByteRange) (t : Table)
    → find_row j (update_ranges id ranges t)
      ≡ (if id == j then with_ranges ranges (find_row j t) else find_row j t)
unfolding find_row update_ranges
find_row-update_ranges id j ranges [] = ground arith
find_row-update_ranges id j ranges (r ∷ rs) =
    ground
      (arith, eq_iff id j, eq_iff r.id id, eq_iff r.id j, find_row-update_ranges id j ranges rs)

find_row-delete_session :
    (id j : String) (t : Table)
    → find_row j (delete_session id t) ≡ (if id == j then none else find_row j t)
unfolding find_row delete_session
find_row-delete_session id j [] = ground arith
find_row-delete_session id j (r ∷ rs) =
    ground (arith, eq_iff id j, eq_iff r.id id, eq_iff r.id j, find_row-delete_session id j rs)

find_row-append :
    (j : String) (row : Row) (t : Table)
    → find_row row.id t ≡ none
    → find_row j (t ++ row ∷ []) ≡ (if row.id == j then some row else find_row j t)
unfolding find_row
find_row-append j row [] h = refl
find_row-append j row (r ∷ rs) h =
    ground (arith, eq_iff r.id row.id, eq_iff row.id j, eq_iff r.id j, find_row-append j row rs)

pub find_row-id : (j : String) (t : Table) (r : Row) → find_row j t ≡ some r → r.id ≡ j
unfolding find_row
find_row-id j [] r h = cc
find_row-id j (x ∷ xs) r h = ground (arith, eq_iff x.id j, find_row-id j xs r)

if_found :
    (b : Bool) (o p : Option Row)
    → session_of_found (if b then o else p) ≡ (if b then session_of_found o else session_of_found p)
if_found true o p = refl
if_found false o p = refl

pub get_session-id : (j : String) (t : Table) (s : Session) → get_session t j ≡ some s → s.id ≡ j
unfolding get_session
get_session-id j t s h = go (find_row j t) refl h
  where
    go : (o : Option Row) → find_row j t ≡ o → session_of_found o ≡ some s → s.id ≡ j
    go none e h = cc
    go (some r) e h = ground (arith, find_row-id j t r e)

abbrev pub stored_ranges : List ByteRange → Option Session → Option Session
stored_ranges ranges none = none
stored_ranges ranges (some s) =
    some (record s { ranges = ranges_from_json (ranges_to_json ranges) })

session_of-with_ranges :
    (ranges : List ByteRange) (o : Option Row)
    → session_of_found (with_ranges ranges o) ≡ stored_ranges ranges (session_of_found o)
unfolding session_of_found session_of
session_of-with_ranges ranges none = refl
session_of-with_ranges ranges (some r) = refl

pub get_session-stored_ranges :
    (id j : String) (ranges : List ByteRange) (t : Table)
    → get_session (update_ranges id ranges t) j
      ≡ (if id == j then stored_ranges ranges (get_session t j) else get_session t j)
unfolding get_session
get_session-stored_ranges id j ranges t =
    ap session_of_found (find_row-update_ranges id j ranges t)
    ∙ if_found (id == j) (with_ranges ranges (find_row j t)) (find_row j t)
    ∙ ap (λ o. if id == j then o else session_of_found (find_row j t))
        (session_of-with_ranges ranges (find_row j t))

-- After `update_ranges` with ranges that are not empty ones, the named session, if it is there,
-- reads back with the merged new ranges and is otherwise as before; any other identifier gives
-- what it gave.
pub get_session-update_ranges :
    (id : String) (ranges : List ByteRange) (s : Session) (t : Table)
    → All IsRange ranges
    → get_session t id ≡ some s
    → (get_session (update_ranges id ranges t) id
        ≡ some (record s { ranges = merge_ranges ranges }))
      × ((j : String) → id ≢ j → get_session (update_ranges id ranges t) j ≡ get_session t j)
get_session-update_ranges id ranges s t valid here = (
  get_session-stored_ranges id id ranges t
      ∙ if_true _ _ ((eq_iff id id).1 refl)
      ∙ ap (stored_ranges ranges) here
      ∙ ap (λ l. some (record s { ranges = l })) (ranges_from_json-ranges_to_json ranges valid),
  λ j n. get_session-stored_ranges id j ranges t ∙ elim (Bool-cases (id == j)) [
    | inl same ↦ absurd (n ((eq_iff id j).0 same))
    | inr differ ↦ if_false _ _ differ
  ],
)

pub get_session-delete_session :
    (id j : String) (t : Table)
    → get_session (delete_session id t) j ≡ (if id == j then none else get_session t j)
unfolding get_session
get_session-delete_session id j t =
    ap session_of_found (find_row-delete_session id j t) ∙ if_found (id == j) none (find_row j t)

created :
    (row : Row) (j : String) (t u : Table) (o : Option Row)
    → find_row row.id t ≡ o
    → insert_new o (record row { ranges = [] }) t ≡ some u
    → (session_of_found (find_row row.id t) ≡ none)
      × (session_of_found (find_row j u) ≡ (
          if row.id == j
          then some (session_of (record row { ranges = [] }))
          else session_of_found (find_row j t)))
unfolding insert_new session_of_found
created row j t u none e h = (
  ap session_of_found e,
  ap (λ (v : Table). session_of_found (find_row j v)) (sym (some-injective _ _ h))
      ∙ ap session_of_found (find_row-append j (record row { ranges = [] }) t e)
      ∙ if_found (row.id == j) (some (record row { ranges = [] })) (find_row j t),
)
created row j t u (some r) e h = cc

-- A row that was created is found, with no ranges, and the other sessions are as before.
pub get_session-create_session :
    (row : Row) (j : String) (t u : Table)
    → create_session row t ≡ some u
    → (get_session t row.id ≡ none)
      × (get_session u j ≡ (
          if row.id == j then some (session_of (record row { ranges = [] })) else get_session t j))
unfolding create_session get_session
get_session-create_session row j t u h = created row j t u (find_row row.id t) refl h
