-- ===== src/Doprnt/Number.antt =====
-- The conversions of numbers in doprnt.c, from `print_signed` to the end of `print_num`.
use embedlab.Prelude.{
  ℕ, ◌+◌, ◌-◌, ◌%◌, ◌^◌, Bool, ◌&&◌, not, Option, some, List, [], ◌∷◌, ◌++◌, ltb, ◌==◌,
  if◌then◌else◌, length,
}
use embedlab.Doprnt.{◌>>=◌, Arg, next_number, repeat, printnum}

-- What the flags of a conversion say. `prec` is the bit pattern of an `int`.
pub record Spec : Type 0 where
  pub length : ℕ
  pub prec : ℕ
  pub ladjust : Bool
  pub padc : ℕ
  pub plus_sign : ℕ
  pub altfmt : Bool
  pub longopt : ℕ

-- the size of the number that `va_arg` reads
abbrev pub modulus : Spec → ℕ
modulus spec = if ltb 1 spec.longopt then 2 ^ 64 else 2 ^ 32

-- `print_signed`: the number and its sign character, 0 for none, of a bit pattern
unfoldable pub signed : Spec → ℕ → ℕ × ℕ
signed spec w = if ltb (w + w) (modulus spec) then (w, spec.plus_sign) else (modulus spec - w, b'-')

-- `u = (long)((int)(u))`, for an `unsigned long long`
unfoldable pub truncated : ℕ → ℕ
truncated u = let w = u % 2 ^ 32 in if ltb w (2 ^ 31) then w else 2 ^ 64 - 2 ^ 32 + w

unfoldable pub prefix_of : Spec → (u base : ℕ) → List ℕ
prefix_of spec u base =
    if not (u == 0) && spec.altfmt
    then (if base == 8 then b'0' ∷ [] else if base == 16 then b'0' ∷ b'x' ∷ [] else [])
    else []

abbrev pub sign_chars : ℕ → List ℕ
sign_chars c = if c == 0 then [] else c ∷ []

-- The output from the digits in the buffer on. Each of the three loops uses up what is left of the
-- width, so at most one of them puts characters out.
unfoldable pub lay_out : Spec → (sign prefix digits : List ℕ) → List ℕ
lay_out spec sign prefix digits =
    let pad = spec.length - (length digits + length sign + length prefix) in
    (if spec.padc == b' ' && not spec.ladjust then repeat b' ' pad else [])
    ++ (sign
        ++ (prefix
            ++ ((if spec.padc == b'0' then repeat b'0' pad else [])
                ++ (digits
                    ++ (if spec.ladjust && not (spec.padc == b'0') then repeat b' ' pad else [])))))

-- `print_num`
unfoldable pub print_num : Spec → (truncate : Bool) → (u sign_char base : ℕ) → Option (List ℕ)
print_num spec truncate u sign_char base =
    let v = if truncate then truncated u else u in
    printnum v base >>= λ digits.
    some (lay_out spec (sign_chars sign_char) (prefix_of spec v base) digits)

unfoldable pub print_signed : Spec → Bool → ℕ → List Arg → Option (List ℕ × List Arg)
print_signed spec truncate base args = next_number args >>= λ (w, left).
    let (u, sign_char) = signed spec w in
    print_num spec truncate u sign_char base >>= λ out. some (out, left)

unfoldable pub print_unsigned : Spec → Bool → ℕ → List Arg → Option (List ℕ × List Arg)
print_unsigned spec truncate base args =
    next_number args >>= λ (u, left). print_num spec truncate u 0 base >>= λ out. some (out, left)
