-- ===== src/Upload/Handlers/Update.antt =====
-- Functions on texts, changed at one place.
use Prim.Native.String.{String}
use text.Mathlib.Text.{◌==◌}
use text.Mathlib.TextEquality.{eq_iff}
use aird.Base.{◌≡◌, ◌≢◌, refl, ◌⊎◌, inl, inr, Bool-cases}
use aird.Upload.Handlers.{update_at}

pub String-cases : (a b : String) → (a ≡ b) ⊎ (a ≢ b)
String-cases a b = elim (Bool-cases (a == b)) [
  | inl same ↦ inl ((eq_iff a b).0 same)
  | inr differ ↦ inr (λ e. cc (differ, (eq_iff a b).1 e))
]

pub update_at_self {ℓ} : {A : Type ℓ} (f : String → A) (k : String) (v : A) → update_at f k v k ≡ v
update_at_self f k v = rw ((eq_iff k k).1 refl)

pub update_at_ne {ℓ} :
    {A : Type ℓ} (f : String → A) (k j : String) (v : A) → k ≢ j → update_at f k v j ≡ f j
update_at_ne f k j v h = elim (Bool-cases (k == j)) [
  | inl same ↦ absurd (h ((eq_iff k j).0 same))
  | inr differ ↦ rw differ
]
