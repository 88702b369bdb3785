-- ===== src/Shares/Create/Laws.antt =====
-- A share that is made is there, and its maker can open it.
use aird.Base.{ℕ, ◌≡◌, ◌≢◌, ◌⊎◌, Bool, true, false, ◌||◌, some, List, eqb}
use aird.Base.Text.{Text, text_eqb}
use aird.Shares.Table.{Shares, Share, get_share_by_id}
use aird.Shares.Access.{ShareRequest, allowed, check_share_access}
use aird.Shares.Create.{
  CreateBody, too_long, request, CreateRequest, CreateSite, Resolved, final_paths, resolve_error,
  build_share_paths,
}

-- What a share that is made brings.
pub record Creates (site : CreateSite) (req : CreateRequest) (r : ShareRequest)
    (before after : Shares) : Type 0 where
  paths : List Text
  resolved : build_share_paths site req ≡ final_paths paths
  share : Share
  found : get_share_by_id site.new_id after ≡ some share
  has_paths : share.paths ≡ paths
  opens : check_share_access share r ≡ allowed
  others :
      (sid : Text)
      → text_eqb site.new_id sid ≡ false
      → get_share_by_id sid after ≡ get_share_by_id sid before

-- The statuses of a failed resolution.
is_failure : ℕ → Bool
is_failure n = eqb n 400 || eqb n 500

fails_well : Resolved → Bool
fails_well (final_paths ps) = true
fails_well (resolve_error n) = is_failure n

-- What a request to make a share comes to.
pub data Creation (site : CreateSite) (r : ShareRequest) (before : Shares)
    : CreateBody → ℕ × Shares → Type 0 where
  oversized : Creation site r before too_long (413, before)
  refused :
      (body : CreateBody) (n : ℕ)
      → body ≢ too_long
      → (n ≡ 400) ⊎ (n ≡ 500)
      → Creation site r before body (n, before)
  made :
      (req : CreateRequest) (after : Shares)
      → Creates site req r before after
      → Creation site r before (request req) (200, after)
