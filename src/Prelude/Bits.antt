-- ===== src/Prelude/Bits.antt =====
-- Bits of bytes: `|` and `&` with one bit, by evaluation over every byte, and the lowest bit.
use Prim.Native.Nat.{ℕ, zero, suc, ◌-◌, ◌*◌, ◌/◌, ◌%◌, ◌^◌, ◌<◌, bit_and, bit_or}
use mathlib.Core.Path.{◌≡◌, refl}
use mathlib.Core.Bool.{Bool, true, false, ◌&&◌, ◌||◌, not}
use native.Mathlib.Omega.{arith}
use mathlib.Core.Logic.{inl, inr}
use embedlab.Prelude.Tests.{Bool-cases, ◌==◌, ==_iff}

abbrev pub u8 : ℕ → ℕ
u8 n = n % 2 ^ 8

abbrev pub u32 : ℕ → ℕ
u32 n = n % 2 ^ 32

-- `~x` of a 32-bit word
abbrev pub not32 : ℕ → ℕ
not32 x = 2 ^ 32 - 1 - x

-- whether bit `k` of `b` is set
abbrev pub test_bit : ℕ → ℕ → Bool
test_bit b k = b / 2 ^ k % 2 == 1

-- whether `test` holds of all numbers below the second argument
unfoldable pub every : (test : ℕ → Bool) → ℕ → Bool
every test zero = true
every test (suc m) = every test m && test m

pub every-at : (m : ℕ) (test : ℕ → Bool) → every test m ≡ true → (x : ℕ) → x < m → test x ≡ true
unfolding every
every-at zero test e x below = absurd (omega (arith, below))
every-at (suc m) test e x below = elim (Bool-cases (x == m)) [
  | inl last ↦ let same_number : x ≡ m = ground arith in rw same_number (ground (arith, e))
  | inr earlier ↦ every-at m test (ground (arith, e)) x (ground (arith, earlier))
]

-- `x << k` of a 32-bit word
abbrev pub shl : ℕ → ℕ → ℕ
shl x k = x * 2 ^ k % 2 ^ 32

-- equality of Booleans as a test
abbrev pub same : Bool → Bool → Bool
same true b = b
same false b = not b

pub same→eq : (a b : Bool) → same a b ≡ true → a ≡ b
same→eq true b h = ground arith
same→eq false true h = ground arith
same→eq false false h = refl

set_bit_table :
    every
      (λ b.
        every
          (λ x. every (λ k. same (test_bit (u8 (bit_or b (shl 1 x))) k) (x == k || test_bit b k)) 8)
          8)
      256
    ≡ true
unfolding every
set_bit_table = refl

clear_bit_table :
    every
      (λ b.
        every
          (λ x.
            every
              (λ k.
                same (test_bit (u8 (bit_and b (not32 (shl 1 x)))) k) (not (x == k) && test_bit b k))
              8)
          8)
      256
    ≡ true
unfolding every
clear_bit_table = refl

-- what a table over a byte and two bit numbers says at one entry
table-at :
    (test : ℕ → ℕ → ℕ → Bool) (b x k : ℕ)
    → b < 256
    → x < 8
    → k < 8
    → every (λ b. every (λ x. every (test b x) 8) 8) 256 ≡ true
    → test b x k ≡ true
table-at test b x k hb hx hk table =
    every-at 8 (test b x)
      (every-at 8 (λ x. every (test b x) 8)
        (every-at 256 (λ b. every (λ x. every (test b x) 8) 8) table b hb) x hx)
      k hk

module _ (b x k : ℕ) (hb : b < 256) (hx : x < 8) (hk : k < 8) where
  -- setting bit `x` changes that bit alone
  pub test_bit-set : test_bit (u8 (bit_or b (shl 1 x))) k ≡ (x == k || test_bit b k)
  test_bit-set = same→eq _ _ (
      table-at (λ b x k. same (test_bit (u8 (bit_or b (shl 1 x))) k) (x == k || test_bit b k)) b x k
        hb hx hk set_bit_table)

  -- clearing bit `x` changes that bit alone
  pub test_bit-clear :
      test_bit (u8 (bit_and b (not32 (shl 1 x)))) k ≡ (not (x == k) && test_bit b k)
  test_bit-clear = same→eq _ _ (
      table-at
        (λ b x k.
          same (test_bit (u8 (bit_and b (not32 (shl 1 x)))) k) (not (x == k) && test_bit b k))
        b x k hb hx hk clear_bit_table)

-- A byte with a bit set is not zero, and one that is not zero has a bit set.
zero_table : every (λ b. every (λ k. not (test_bit b k && b == 0)) 8) 256 ≡ true
unfolding every
zero_table = refl

pub zero-test_bit : (k : ℕ) → test_bit 0 k ≡ false
zero-test_bit k = ground arith

low_three_table : every (λ p. bit_and p 0x07 == p % 8) 256 ≡ true
unfolding every
low_three_table = refl

pub bit_and_seven : (p : ℕ) → p < 256 → bit_and p 0x07 ≡ p % 8
bit_and_seven p h = (==_iff _ _).0 (every-at 256 _ low_three_table p h)

zero_clear_table : every (λ x. u8 (bit_and 0 (not32 (shl 1 x))) == 0) 8 ≡ true
unfolding every
zero_clear_table = refl

pub zero-clear : (x : ℕ) → x < 8 → u8 (bit_and 0 (not32 (shl 1 x))) ≡ 0
zero-clear x h = (==_iff _ _).0 (every-at 8 _ zero_clear_table x h)
