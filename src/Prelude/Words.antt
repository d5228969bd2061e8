-- ===== src/Prelude/Words.antt =====
-- 32-bit words: negation and the sign of `int`, and the error numbers that system calls return.
use Prim.Native.Nat.{ℕ, ◌-◌, ◌%◌, ◌^◌}
use mathlib.Core.Bool.{Bool}
use embedlab.Prelude.Tests.{leb}

-- `-e` as a 32-bit word
abbrev pub neg32 : ℕ → ℕ
neg32 e = (2 ^ 32 - e) % 2 ^ 32

-- `x < 0` of an `int` with the bits of the word `x`
abbrev pub is_negative : ℕ → Bool
is_negative x = leb (2 ^ 31) x

abbrev pub eperm : ℕ
eperm = 1

abbrev pub ebadf : ℕ
ebadf = 9

abbrev pub enomem : ℕ
enomem = 12

abbrev pub efault : ℕ
efault = 14

abbrev pub einval : ℕ
einval = 22

abbrev pub edeadlock : ℕ
edeadlock = 58

abbrev pub eholdslock : ℕ
eholdslock = 59

abbrev pub esched : ℕ
esched = 100
