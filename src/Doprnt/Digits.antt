-- ===== src/Doprnt/Digits.antt =====
-- The digits that `printnum` puts out stand for the number that it is given.
use native.Mathlib.Nat.{mul-le-mul_left, div-lt_iff_lt-mul, two-pow-succ}
use embedlab.Prelude.{
  ℕ, zero, suc, ◌+◌, ◌-◌, ◌*◌, ◌/◌, ◌%◌, ◌^◌, ◌<◌, ◌≤◌, ◌≡◌, refl, ap, sym, ◌∙◌, Bool, true, false,
  Bool-cases, inl, inr, Option, none, some, List, [], ◌∷◌, length, All, arith, ltb, ◌==◌,
  if◌then◌else◌, get_elem?, every, every-at,
}
use embedlab.Calc.{digit}
use embedlab.Calc.Digits.{value}
use embedlab.Doprnt.{◌>>=◌, digs, number_digits, printnum}

-- the character of a digit value
abbrev pub char_of : ℕ → ℕ
char_of d = if ltb d 10 then b'0' + d else b'a' + (d - 10)

abbrev pub chars_of : List ℕ → List ℕ
chars_of [] = []
chars_of (d ∷ ds) = char_of d ∷ chars_of ds

abbrev is_char : Option ℕ → ℕ → Bool
is_char none c = false
is_char (some d) c = d == c

digs_table : every (λ d. is_char (get_elem? digs d) (char_of d)) 16 ≡ true
unfolding every
digs_table = refl

is_char-some : (o : Option ℕ) (c : ℕ) → is_char o c ≡ true → o ≡ some c
is_char-some none c h = ground arith
is_char-some (some d) c h = ap some (ground arith)

get_elem?-digs : (d : ℕ) → d < 16 → get_elem? digs d ≡ some (char_of d)
get_elem?-digs d small =
    is_char-some (get_elem? digs d) (char_of d)
      (every-at 16 (λ d. is_char (get_elem? digs d) (char_of d)) digs_table d small)

-- a digit's character is read as the digit
pub digit-char_of : (base d : ℕ) → base ≤ 16 → d < base → digit base (char_of d) ≡ some d
unfolding digit
digit-char_of base d small below = ground arith

module _ (base : ℕ) (two : 2 ≤ base) (small : base ≤ 16) where
  rem-lt : (u : ℕ) → u % base < base
  rem-lt u = grind arith

  div_rem : (u : ℕ) → u / base * base + u % base ≡ u
  div_rem u = grind arith

  div-lt : (u n : ℕ) → u < 2 ^ suc n → u / base < 2 ^ n
  div-lt u n h =
      (div-lt_iff_lt-mul {k = base} {x = u} {y = 2 ^ n} (omega (arith, two))).1
        (omega (arith, h, two-pow-succ n, mul-le-mul_left {m = 2} {n = base} (2 ^ n) two))

  digits_step :
      (room u : ℕ) (buf : List ℕ)
      → number_digits (suc room) base u buf ≡ (
          if u / base == 0
          then some (char_of (u % base) ∷ buf)
          else number_digits room base (u / base) (char_of (u % base) ∷ buf))
  unfolding number_digits
  digits_step room u buf =
      ap
        (λ (o : Option ℕ). o >>= λ d.
          let rest = number_digits room base (u / base) (d ∷ buf) in
          if u / base == 0 then some (d ∷ buf) else rest)
        (get_elem?-digs (u % base) (omega (arith, rem-lt u, small)))

  some_room : (room u : ℕ) → u < 2 ^ suc room → (u / base == 0) ≡ false → 0 < room
  some_room zero u fits more = absurd (ground (arith, div-lt u 0 fits))
  some_room (suc room) u fits more = omega arith

  value_step : (u : ℕ) (ds : List ℕ) → value base (u / base) (u % base ∷ ds) ≡ value base u ds
  value_step u ds = ap (λ v. value base v ds) (div_rem u)

  -- The digits in the buffer and the number that is left stand for the same number all the time.
  pub number_digits_lem :
      (room u : ℕ) (ds : List ℕ)
      → u < 2 ^ room
      → 0 < room
      → All (λ d. d < base) ds
      → (es : List ℕ) × (number_digits room base u (chars_of ds) ≡ some (chars_of es))
        × (value base 0 es ≡ value base u ds)
        × All (λ d. d < base) es
        × (length es ≤ room + length ds)
        × (0 < length es)
  number_digits_lem zero u ds fits pos all = absurd (omega (arith, pos))
  number_digits_lem (suc room) u ds fits pos all = elim (Bool-cases (u / base == 0)) [
    | inl last ↦
        let whole : u / base ≡ 0 = ground (arith, last) in
        (
          u % base ∷ ds,
          digits_step room u (chars_of ds) ∙ rw last refl,
          ap (λ v. value base v (u % base ∷ ds)) (sym whole) ∙ value_step u ds,
          (rem-lt u, all),
          omega arith,
          omega arith,
        )
    | inr more ↦
        let room_left : 0 < room = some_room room u fits more in
        let (es, run, same_value, all_es, size, some_es) =
          number_digits_lem room (u / base) (u % base ∷ ds) (div-lt u room fits) room_left
            (rem-lt u, all) in
        (
          es,
          digits_step room u (chars_of ds) ∙ (rw more run),
          same_value ∙ value_step u ds,
          all_es,
          omega (arith, size),
          some_es,
        )
  ]

  -- In a base from 2 to 16, `printnum` puts out the digits of the number.
  pub printnum_lem :
      (u : ℕ)
      → u < 2 ^ 32
      → (es : List ℕ) × (printnum u base ≡ some (chars_of es))
        × (value base 0 es ≡ u)
        × All (λ d. d < base) es
        × (length es ≤ 32)
        × (0 < length es)
  unfolding printnum
  printnum_lem u word =
      let nz : (base == 0) ≡ false = ground (arith, two) in
      let (es, run, same_value, all, size, some_es) =
        number_digits_lem 32 u [] word (omega arith) tt in
      (es, rw nz run, same_value, all, size, some_es)
