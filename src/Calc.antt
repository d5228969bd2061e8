-- ===== src/Calc.antt =====
-- kernel/math.c, and tasks/libc/stdlib: rand.c, atoi.c and strtoul.c. A loop over a string runs on
-- fuel, and `none` is out of fuel.
pub mod Digits
use embedlab.Prelude.{
  ℕ, zero, suc, ◌+◌, ◌-◌, ◌*◌, ◌/◌, ◌%◌, ◌^◌, Bool, true, false, ◌&&◌, ◌||◌, Option, none, some,
  List, [], ◌∷◌, leb, ltb, ◌==◌, if◌then◌else◌, bit_and, bit_or, shl, u32,
}
use embedlab.CString.{Mem}

-- `sum_region`: the loop, with `rounds` rounds left
unfoldable pub sum_from : (rounds : ℕ) → (i : ℕ) → Mem → ℕ → ℕ
sum_from zero i buf result = result
sum_from (suc rounds) i buf result = sum_from rounds (i + 1) buf (u32 (result + buf i))

-- `buf` yields the words of the region.
unfoldable pub sum_region : Mem → (num_words : ℕ) → ℕ
sum_region buf num_words = sum_from num_words 0 buf 0

-- the loop of the debug version of `ilog2`
unfoldable pub ilog2_loop : ℕ → (x r : ℕ) → Option ℕ
ilog2_loop zero x r = none
ilog2_loop (suc fuel) x r =
    let shifted = x / 2 in
    let rest = ilog2_loop fuel shifted (r + 1) in if shifted == 0 then some r else rest

unfoldable pub ilog2_debug : ℕ → ℕ → Option ℕ
ilog2_debug fuel x = ilog2_loop fuel x 0

-- one round of the optimised version, with a mask and a shift
unfoldable pub ilog2_round : (b s : ℕ) → ℕ × ℕ → ℕ × ℕ
ilog2_round b s (v, r) = if bit_and v b == 0 then (v, r) else (v / 2 ^ s, bit_or r s)

unfoldable pub ilog2_optimised : ℕ → ℕ
ilog2_optimised v =
    (ilog2_round 0x2 1 (
      ilog2_round 0xC 2
        (ilog2_round 0xF0 4 (ilog2_round 0xFF00 8 (ilog2_round 0xFFFF0000 16 (v, 0)))))).1

-- the two words of `rand`
pub record Seed : Type 0 where
  pub first : ℕ
  pub second : ℕ

unfoldable pub rand : Seed → ℕ × Seed
rand s =
    let added = u32 (s.first + 0xa859c317) in
    let first = u32 (added + bit_or (shl s.second 13) (s.second / 2 ^ 19)) in
    (bit_and first 0x7FFFFFFF, record { first = first; second = u32 (s.second + first) })

unfoldable pub srand : ℕ → Seed
srand new_seed = record { first = new_seed; second = new_seed }

abbrev pub isdigit : ℕ → Bool
isdigit c = leb 48 c && leb c 57

-- the loop of `atol`; `long` as a word
unfoldable pub atol_loop : ℕ → Mem → (str n : ℕ) → Option ℕ
atol_loop zero mem str n = none
atol_loop (suc fuel) mem str n =
    let rest = atol_loop fuel mem (str + 1) (u32 (n * 10 + mem str - 48)) in
    if isdigit (mem str) then rest else some n

unfoldable pub atol : ℕ → Mem → ℕ → Option ℕ
atol fuel mem str = atol_loop fuel mem str 0

abbrev pub isspace : ℕ → Bool
isspace c = c == 32 || c == 12 || c == 10 || c == 13 || c == 9 || c == 11

-- `while (isspace(*p)) p++`
unfoldable pub skip_space : ℕ → Mem → ℕ → Option ℕ
skip_space zero mem p = none
skip_space (suc fuel) mem p =
    let rest = skip_space fuel mem (p + 1) in if isspace (mem p) then rest else some p

-- the value of a character as a digit, if it is one in the base
unfoldable pub digit : (base c : ℕ) → Option ℕ
digit base c =
    if leb 48 c && leb c 57 && ltb (c - 48) base
    then some (c - 48)
    else if leb 97 c && leb c 122 && ltb (c - 97 + 10) base
    then some (c - 97 + 10)
    else if leb 65 c && leb c 90 && ltb (c - 65 + 10) base
    then some (c - 65 + 10)
    else none

-- the branches of the loop: a digit goes on, and anything else is the `break`
abbrev pub on_digit : Option ℕ → (ℕ → Option (ℕ × ℕ)) → Option (ℕ × ℕ) → Option (ℕ × ℕ)
on_digit none go stop = stop
on_digit (some d) go stop = go d

-- the last loop of `strtol` and `strtoul`; the results are the value and the place it stops at
unfoldable pub digits : ℕ → Mem → (base p v : ℕ) → Option (ℕ × ℕ)
digits zero mem base p v = none
digits (suc fuel) mem base p v =
    on_digit (digit base (mem p)) (λ d. digits fuel mem base (p + 1) (u32 (v * base + d)))
      (some (v, p))

-- the prefix `0x`, and the base that the text chooses
unfoldable pub prefix : Mem → (base p : ℕ) → ℕ × ℕ
prefix mem base p =
    let hex =
      (base == 16 || base == 0) && mem p == 48 && (mem (p + 1) == 120 || mem (p + 1) == 88) in
    let base1 = if hex then 16 else base in
    let p1 = if hex then p + 2 else p in
    (if base1 == 0 then (if mem p1 == 48 then 8 else 10) else base1, p1)

unfoldable pub strtoul_at : ℕ → Mem → ℕ → Option ℕ → Option (ℕ × ℕ)
strtoul_at fuel mem base none = none
strtoul_at fuel mem base (some p) =
    let (base1, p1) = prefix mem base p in digits fuel mem base1 p1 0

-- The loops share the fuel.
unfoldable pub strtoul : ℕ → Mem → (p base : ℕ) → Option (ℕ × ℕ)
strtoul fuel mem p base = strtoul_at fuel mem base (skip_space fuel mem p)

-- the sign of `strtol`: a `-` is skipped, a `+` is not
unfoldable pub sign : Mem → ℕ → Bool × ℕ
sign mem p = if mem p == 45 then (true, p + 1) else (false, p)

unfoldable pub negate_if : Bool → Option (ℕ × ℕ) → Option (ℕ × ℕ)
negate_if neg none = none
negate_if neg (some (v, p)) = some (if neg then u32 (2 ^ 32 - v) else v, p)

unfoldable pub strtol_at : ℕ → Mem → ℕ → Option ℕ → Option (ℕ × ℕ)
strtol_at fuel mem base none = none
strtol_at fuel mem base (some p) =
    let (neg, p1) = sign mem p in negate_if neg (strtoul_at fuel mem base (some p1))

unfoldable pub strtol : ℕ → Mem → (p base : ℕ) → Option (ℕ × ℕ)
strtol fuel mem p base = strtol_at fuel mem base (skip_space fuel mem p)
