-- ===== src/Prelude/Count.antt =====
-- How many of the first numbers pass a test.
use Prim.Native.Nat.{ℕ, zero, suc, ◌+◌, ◌<◌, ◌≤◌}
use mathlib.Core.Path.{◌≡◌, refl}
use mathlib.Core.Logic.{◌≢◌, inl, inr}
use mathlib.Core.Bool.{Bool, true, false}
use native.Mathlib.Omega.{arith}
use embedlab.Prelude.Tests.{◌==◌, if◌then◌else◌, Bool-cases}

unfoldable pub count : (ℕ → Bool) → ℕ → ℕ
count p zero = 0
count p (suc n) = count p n + (if p n then 1 else 0)

pub count-le : (p : ℕ → Bool) (n : ℕ) → count p n ≤ n
unfolding count
count-le p zero = omega arith
count-le p (suc n) = ground (arith, count-le p n)

pub count-same : (p q : ℕ → Bool) (n : ℕ) → ((j : ℕ) → j < n → q j ≡ p j) → count q n ≡ count p n
unfolding count
count-same p q zero same = refl
count-same p q (suc n) same =
    ground (arith, count-same p q n (λ j h. same j (omega (arith, h))), same n)

-- one number more passes
pub count-more :
    (p q : ℕ → Bool) (i n : ℕ)
    → i < n
    → p i ≡ false
    → q i ≡ true
    → ((j : ℕ) → i ≢ j → q j ≡ p j)
    → count q n ≡ count p n + 1
unfolding count
count-more p q i zero below off on same = absurd (omega (arith, below))
count-more p q i (suc n) below off on same = elim (Bool-cases (i == n)) [
  | inl last ↦
      let e : i ≡ n = ground (arith, last) in
      ground (arith, count-same p q n (λ j h. same j (omega (arith, h, e))), off, on, e)
  | inr earlier ↦
      ground (arith, count-more p q i n (ground (arith, below, earlier)) off on same, same n)
]

-- if none is counted, none passes
pub count-zero : (p : ℕ → Bool) (n : ℕ) → count p n ≡ 0 → (j : ℕ) → j < n → p j ≡ false
unfolding count
count-zero p zero none_counted j below = absurd (omega (arith, below))
count-zero p (suc n) none_counted j below = elim (Bool-cases (j == n)) [
  | inl last ↦ let e : j ≡ n = ground (arith, last) in rw e (ground (arith, none_counted))
  | inr earlier ↦ count-zero p n (ground (arith, none_counted)) j (ground (arith, below, earlier))
]

-- none is counted if none passes
pub zero-count : (p : ℕ → Bool) (n : ℕ) → ((j : ℕ) → j < n → p j ≡ false) → count p n ≡ 0
unfolding count
zero-count p zero off = refl
zero-count p (suc n) off = ground (arith, zero-count p n (λ j h. off j (omega (arith, h))), off n)
