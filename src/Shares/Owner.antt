-- ===== src/Shares/Owner.antt =====
-- Who owns a share, and who may edit its paths: aird/handlers/base_handler.py.
use aird.Base.{Bool, false, not, ◌&&◌, ◌||◌, Option, none, some}
use aird.Base.Text.{Text, strip, is_empty}
use aird.Shares.Creator.{login_matches, or_empty_text}
use aird.Shares.Table.{Share, or_nil, lists_user}

-- The user of a request: whether an administrator, and the login name, if there is one.
pub record User : Type 0 where
  pub is_admin : Bool
  pub username : Option Text

abbrev pub named_in : Option Text → (Text → Bool) → Bool
named_in none test = false
named_in (some u) test = not (is_empty u) && test u

unfoldable pub is_share_owner : User → Share → Bool
is_share_owner user share =
    user.is_admin
    || named_in user.username (λ u.
      not (is_empty (strip (or_empty_text share.created_by))) && login_matches share.created_by u)

unfoldable pub can_edit_share_paths : User → Share → Bool
unfolding is_share_owner
can_edit_share_paths user share =
    is_share_owner user share
    || named_in user.username (λ u. lists_user u (or_nil share.modify_users))
