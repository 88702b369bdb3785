-- ===== src/Shares/Serve/Guards.antt =====
-- What a file answered past a guard says of the guard.
use aird.Base.{ℕ, ◌≡◌, refl, Bool, true, false, not, ◌||◌, arith, if◌then◌else◌}
use aird.Base.Text.{Text}
use aird.Shares.Table.{Share}
use aird.Shares.Serve.{Page, status, file}

-- A file is served past a guard only where the guard does not hold.
pub past_guard :
    (b : Bool) (n : ℕ) (page : Page) (share : Share) (norm : Text)
    → (if b then status n else page) ≡ file share norm
    → (b ≡ false) × (page ≡ file share norm)
past_guard true n page share norm h = absurd (cc h)
past_guard false n page share norm h = (refl, h)

pub present_file :
    (b : Bool) (share served : Share) (name norm : Text)
    → (if not b then status 404 else file share name) ≡ file served norm
    → (b ≡ true) × (share ≡ served) × (name ≡ norm)
present_file true share served name norm h = (refl, cc h, cc h)
present_file false share served name norm h = absurd (cc h)

pub holds_of_not : (b : Bool) → not b ≡ false → b ≡ true
holds_of_not b h = ground (arith, h)

pub neither : (b c : Bool) → (b || c) ≡ false → b ≡ false
neither b c h = ground (arith, h)
