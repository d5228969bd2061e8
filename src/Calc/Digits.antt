-- ===== src/Calc/Digits.antt =====
-- The number that a run of digits stands for, and what the parsers return.
use native.Mathlib.Nat.{mul-le-mul_left}
use embedlab.Prelude.{
  ℕ, zero, suc, ◌+◌, ◌*◌, ◌%◌, ◌^◌, ◌<◌, ◌≤◌, ◌≡◌, ◌≢◌, Bool, false, none, some, List, [], ◌∷◌,
  length, ◌==◌, u32, arith, refl, ap, ◌∙◌,
}
use embedlab.CString.{Mem}
use embedlab.Calc.{
  digit, on_digit, digits, prefix, strtoul, strtoul_at, skip_space, isspace, strtol, strtol_at,
  sign, negate_if,
}

-- At `p` stand characters with the digit values `ds` in the base, and behind them one with none.
abbrev pub Numeral : Mem → (base p : ℕ) → List ℕ → Type 0
Numeral mem base p [] = digit base (mem p) ≡ none
Numeral mem base p (d ∷ ds) = (digit base (mem p) ≡ some d) × Numeral mem base (p + 1) ds

-- the number that the digits stand for, behind the number `v`
abbrev pub value : (base v : ℕ) → List ℕ → ℕ
value base v [] = v
value base v (d ∷ ds) = value base (v * base + d) ds

value-le : (base v : ℕ) (ds : List ℕ) → 0 < base → v ≤ value base v ds
value-le base v [] pos = omega arith
value-le base v (d ∷ ds) pos = omega (
  arith,
  value-le base (v * base + d) ds pos,
  mul-le-mul_left {m = 1} {n = base} v (omega (arith, pos)),
)

pub digits_lem :
    (fuel : ℕ) (mem : Mem) (base p v : ℕ) (ds : List ℕ)
    → 0 < base
    → Numeral mem base p ds
    → length ds < fuel
    → value base v ds < 2 ^ 32
    → digits fuel mem base p v ≡ some (value base v ds, p + length ds)
unfolding digits
digits_lem zero mem base p v ds pos n enough small = absurd (omega (arith, enough))
digits_lem (suc fuel) mem base p v [] pos n enough small =
    ap (λ o. on_digit o (λ d. digits fuel mem base (p + 1) (u32 (v * base + d))) (some (v, p))) n
    ∙ ap (λ q. some (v, q)) (omega arith)
digits_lem (suc fuel) mem base p v (d ∷ ds) pos n enough small =
    let fits : (v * base + d) % 2 ^ 32 ≡ v * base + d =
      omega (arith, value-le base (v * base + d) ds pos, small) in
    ap (λ o. on_digit o (λ d. digits fuel mem base (p + 1) (u32 (v * base + d))) (some (v, p))) n.0
    ∙ ap (λ w. digits fuel mem base (p + 1) w) fits
    ∙ (digits_lem fuel mem base (p + 1) (v * base + d) ds pos n.1 (omega (arith, enough)) small
        ∙ ap (λ q. some (value base (v * base + d) ds, q)) (omega arith))

prefix-given : (mem : Mem) (base p : ℕ) → base ≢ 0 → base ≢ 16 → prefix mem base p ≡ (base, p)
unfolding prefix
prefix-given mem base p nz n16 =
    let e1 : (base == 16) ≡ false = ground arith in
    let e2 : (base == 0) ≡ false = ground arith in ground arith

skip_space-none :
    (fuel : ℕ) (mem : Mem) (p : ℕ)
    → 0 < fuel
    → isspace (mem p) ≡ false
    → skip_space fuel mem p ≡ some p
unfolding skip_space
skip_space-none zero mem p pos e = absurd (omega (arith, pos))
skip_space-none (suc fuel) mem p pos e = rw e refl

-- In a base that is given and is not 16, `strtoul` of a run of digits returns the number they stand
-- for, if it fits a word, and the address behind them.
pub strtoul_lem :
    (fuel : ℕ) (mem : Mem) (base p : ℕ) (ds : List ℕ)
    → base ≢ 0
    → base ≢ 16
    → isspace (mem p) ≡ false
    → Numeral mem base p ds
    → length ds < fuel
    → value base 0 ds < 2 ^ 32
    → strtoul fuel mem p base ≡ some (value base 0 ds, p + length ds)
unfolding strtoul strtoul_at
strtoul_lem fuel mem base p ds nz n16 first n enough small =
    rw (skip_space-none fuel mem p (omega (arith, enough)) first, prefix-given mem base p nz n16)
      (digits_lem fuel mem base p 0 ds (omega (arith, nz)) n enough small)

module _ (fuel : ℕ) (mem : Mem) (p : ℕ) (plus : mem p ≡ 43) where
  sign-plus : sign mem p ≡ (false, p)
  unfolding sign
  sign-plus = let no : (mem p == 45) ≡ false = ground arith in rw no refl

  prefix-plus : (base : ℕ) → (prefix mem base p).1 ≡ p
  unfolding prefix
  prefix-plus base = ground arith

  digit-plus : (base : ℕ) → digit base (mem p) ≡ none
  unfolding digit
  digit-plus base = ground arith

  digits-plus : (base : ℕ) → digits (suc fuel) mem base p 0 ≡ some (0, p)
  unfolding digits
  digits-plus base =
      ap (λ o. on_digit o (λ d. digits fuel mem base (p + 1) (u32 (0 * base + d))) (some (0, p)))
        (digit-plus base)

  strtoul_at-plus : (base : ℕ) → strtoul_at (suc fuel) mem base (some p) ≡ some (0, p)
  unfolding strtoul_at
  strtoul_at-plus base =
      ap (λ q. digits (suc fuel) mem (prefix mem base p).0 q 0) (prefix-plus base)
      ∙ digits-plus (prefix mem base p).0

  not_space : isspace (mem p) ≡ false
  not_space = ground arith

  -- `strtol` of a text that starts with `+` returns 0, and the address of the sign, in any base.
  pub strtol_plus : (base : ℕ) → strtol (suc fuel) mem p base ≡ some (0, p)
  unfolding strtol strtol_at negate_if
  strtol_plus base =
      ap (strtol_at (suc fuel) mem base) (skip_space-none (suc fuel) mem p (omega arith) not_space)
      ∙ ap (λ (r : Bool × ℕ). negate_if r.0 (strtoul_at (suc fuel) mem base (some r.1))) sign-plus
      ∙ ap (negate_if false) (strtoul_at-plus base)
