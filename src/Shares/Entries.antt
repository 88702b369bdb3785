-- ===== src/Shares/Entries.antt =====
-- The paths that a request names for a share, in aird/handlers/share_handlers.py.
use aird.Base.{ℕ, List, [], ◌∷◌, any, if◌then◌else◌}
use aird.Base.Text.{Text, text_eqb, strip, is_empty}

-- An entry of "paths": a text, or the path of a local item; an item in the cloud; anything else.
pub data PathEntry : Type 0 where
  local : Text → PathEntry
  cloud : ℕ → PathEntry
  other : PathEntry

-- What the cloud answers to a request for items.
pub data Download : Type 0 where
  downloaded : List Text → Download
  provider_error : Download
  download_failed : Download

-- `_parse_path_entries_for_update`.
unfoldable pub local_paths : List PathEntry → List Text
local_paths [] = []
local_paths (local t ∷ es) =
    let rest = local_paths es in if is_empty (strip t) then rest else strip t ∷ rest
local_paths (cloud i ∷ es) = local_paths es
local_paths (other ∷ es) = local_paths es

unfoldable pub remote_items : List PathEntry → List ℕ
remote_items [] = []
remote_items (cloud i ∷ es) = i ∷ remote_items es
remote_items (local t ∷ es) = remote_items es
remote_items (other ∷ es) = remote_items es

unfoldable pub dedupe_from : List Text → List Text → List Text
dedupe_from seen [] = []
dedupe_from seen (p ∷ ps) =
    let again = dedupe_from seen ps in
    let new = dedupe_from (p ∷ seen) ps in if any (λ q. text_eqb q p) seen then again else p ∷ new
