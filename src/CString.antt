-- ===== src/CString.antt =====
-- tasks/libc/string: the C library's functions on memory and strings. Memory is a function from
-- addresses to bytes; `char` is unsigned, as it is on ARM, and no object reaches past the end of the
-- address space, so addresses are numbers that do not wrap around, but in the second loop of
-- `strncpy`, which can go on past the end. A loop over a string runs on fuel, and `none` is out of
-- fuel.
pub mod Move
pub mod Moved
pub mod Compare
pub mod Search
pub mod Found
use embedlab.Prelude.{
  ℕ, zero, suc, ◌+◌, ◌-◌, ◌<◌, ◌≤◌, ◌≡◌, ◌≢◌, ◌⊎◌, inl, inr, Option, none, some, false, ◌==◌,
  if◌then◌else◌, update, update_ne, arith, refl, ap, subst, sym, ◌∙◌,
}
use mathlib.Core.Option

abbrev pub Mem : Type 0
Mem = ℕ → ℕ

-- At `s` stands a string of `n` characters.
abbrev pub IsString : Mem → ℕ → ℕ → Type 0
IsString mem s zero = mem s ≡ 0
IsString mem s (suc n) = (mem s ≢ 0) × IsString mem (s + 1) n

-- a store outside a string does not change it
pub IsString-update :
    (mem : Mem) (i v s n : ℕ)
    → (i < s) ⊎ (s + n < i)
    → IsString mem s n
    → IsString (update mem i v) s n
IsString-update mem i v s zero out t = ground arith
IsString-update mem i v s (suc n) out t =
    (ground arith, IsString-update mem i v (s + 1) n (ground arith) t.1)

-- what holds at `s`, and at each of the `i` addresses behind it, holds at the `i + 1` from `s` on
pub shifted :
    (P : ℕ → Type 0) (s i : ℕ)
    → P s
    → ((j : ℕ) → j < i → P (s + 1 + j))
    → (j : ℕ) → j < i + 1
    → P (s + j)
shifted P s i here later zero below = subst P (omega arith) here
shifted P s i here later (suc j) below = subst P (omega arith) (later j (omega (arith, below)))

-- `while (*string++)`
strlen_loop : ℕ → Mem → ℕ → Option ℕ
strlen_loop zero mem string = none
strlen_loop (suc fuel) mem string =
    let rest = strlen_loop fuel mem (string + 1) in
    if mem string == 0 then some (string + 1) else rest

pub strlen : ℕ → Mem → ℕ → Option ℕ
unfolding strlen_loop
strlen fuel mem string = Option.map (λ p. p - 1 - string) (strlen_loop fuel mem string)

strlen_loop_lem :
    (fuel : ℕ) (mem : Mem) (s n : ℕ)
    → IsString mem s n
    → n < fuel
    → strlen_loop fuel mem s ≡ some (s + n + 1)
unfolding strlen_loop
strlen_loop_lem zero mem s n t enough = absurd (omega (arith, enough))
strlen_loop_lem (suc fuel) mem s zero t enough = ground arith
strlen_loop_lem (suc fuel) mem s (suc n) t enough =
    let ne : (mem s == 0) ≡ false = ground arith in
    rw ne (strlen_loop_lem fuel mem (s + 1) n t.1 (omega (arith, enough)) ∙ ap some (omega arith))

-- `strlen` returns the number of characters before the terminator, with fuel for each of them and
-- the terminator.
pub strlen_lem :
    (fuel : ℕ) (mem : Mem) (s n : ℕ) → IsString mem s n → n < fuel → strlen fuel mem s ≡ some n
unfolding strlen
strlen_lem fuel mem s n t enough =
    rw (strlen_loop_lem fuel mem s n t enough) (ap some (omega arith))
