-- ===== src/Prelude/Funs.antt =====
-- C arrays and memory as functions from indices, written at one index.
use Prim.Native.Nat.{ℕ}
use mathlib.Core.Path.{◌≡◌, refl, ap, ◌∙◌}
use mathlib.Core.Logic.{◌≢◌, inl, inr}
use native.Mathlib.Omega.{arith}
use embedlab.Prelude.Tests.{◌==◌, if◌then◌else◌, Bool-cases}

-- `a[i] = v`
abbrev pub update {ℓ} : {A : Type ℓ} → (ℕ → A) → ℕ → A → ℕ → A
update f i v j = if i == j then v else f j

module _ {ℓ} {A : Type ℓ} (f : ℕ → A) (i : ℕ) (v : A) where
  pub update_self : update f i v i ≡ v
  update_self = ground arith

  pub update_ne : (j : ℕ) → i ≢ j → update f i v j ≡ f j
  update_ne j h = ground arith

-- What the new value has in common with the old one, the array keeps everywhere.
pub update-same {ℓ κ} :
    {A : Type ℓ} {B : Type κ} (f : A → B) (g : ℕ → A) (i : ℕ) (v : A)
    → f v ≡ f (g i)
    → (j : ℕ) → f (update g i v j) ≡ f (g j)
update-same f g i v same j = elim (Bool-cases (i == j)) [
  | inl e ↦ rw e (same ∙ ap (λ x. f (g x)) (let s : i ≡ j = ground (arith, e) in s))
  | inr e ↦ rw e refl
]
