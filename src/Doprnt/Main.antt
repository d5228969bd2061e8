-- ===== src/Doprnt/Main.antt =====
-- The loop of `_doprnt` over the format.
use embedlab.Prelude.{
  ℕ, zero, suc, ◌+◌, Bool, false, ◌||◌, Option, none, some, List, [], ◌∷◌, ◌++◌, length, ◌==◌,
  if◌then◌else◌, u8,
}
use embedlab.Doprnt.{◌>>=◌, Arg, next_number, peek, skip}
use embedlab.Doprnt.Number.{Spec, print_signed, print_unsigned}
use embedlab.Doprnt.Register.{print_register}
use embedlab.Doprnt.Thread.{print_thread}
use embedlab.Doprnt.Format.{read_spec, print_string}

abbrev starts : List ℕ → Option (List ℕ × List Arg) → Option (List ℕ × List Arg)
starts out none = none
starts out (some (more, left)) = some (out ++ more, left)

abbrev one_of : ℕ → ℕ → ℕ → Bool
one_of c a b = c == a || c == b

-- The `switch`, for the letter `c`: what is put out, and the arguments that are left. `truncates` is
-- `_doprnt_truncates`; a lower-case letter obeys it.
unfoldable pub convert :
    (truncates : Bool) → (radix : ℕ) → (c : ℕ) → Spec → List Arg → Option (List ℕ × List Arg)
convert truncates radix c spec args =
    if one_of c b'b' b'B'
    then print_register args
    else if c == b'c'
    then (next_number args >>= λ (n, left). some (u8 n ∷ [], left))
    else if c == b't'
    then print_thread spec args
    else if c == b's'
    then print_string spec args
    else if c == b'o'
    then print_unsigned spec truncates 8 args
    else if c == b'O'
    then print_unsigned spec false 8 args
    else if c == b'd'
    then print_signed spec truncates 10 args
    else if c == b'D'
    then print_signed spec false 10 args
    else if c == b'u'
    then print_unsigned spec truncates 10 args
    else if c == b'U'
    then print_unsigned spec false 10 args
    else if c == b'p'
    then starts (b'0' ∷ b'x' ∷ [])
        (print_unsigned (record spec { padc = b'0'; length = 8 }) truncates 16 args)
    else if c == b'x'
    then print_unsigned spec truncates 16 args
    else if c == b'X'
    then print_unsigned spec false 16 args
    else if c == b'z'
    then print_signed spec truncates 16 args
    else if c == b'Z'
    then print_signed spec false 16 args
    else if c == b'r'
    then print_signed spec truncates radix args
    else if c == b'R'
    then print_signed spec false radix args
    else if c == b'n'
    then print_unsigned spec truncates radix args
    else if c == b'N'
    then print_unsigned spec false radix args
    else if c == 0
    then some ([], args)
    else some (c ∷ [], args)

-- what the loop has done: `none` is out of fuel, and `some none` is undefined
abbrev pub Formatting : Type 0
Formatting = Option (Option (List ℕ))

-- a step that may be undefined
abbrev pub defined : {A : Type 0} → Option A → (A → Formatting) → Formatting
defined none next = some none
defined (some a) next = next a

-- `out` is put out before the rest
abbrev pub before : List ℕ → Formatting → Formatting
before out none = none
before out (some none) = some none
before out (some (some more)) = some (some (out ++ more))

-- The `while`; each round takes a character of the format at least.
unfoldable pub format_from : (fuel : ℕ) → Bool → ℕ → List ℕ → List Arg → Formatting
format_from zero truncates radix fmt args = none
format_from (suc fuel) truncates radix [] args = some (some [])
format_from (suc fuel) truncates radix (c ∷ fmt) args =
    if c == b'%'
    then defined (read_spec fmt args) (λ p.
      defined (convert truncates radix (peek p.fmt) p.spec p.args)
        (λ (out, left). before out (format_from fuel truncates radix (skip p.fmt) left)))
    else before (c ∷ []) (format_from fuel truncates radix fmt args)

abbrev pub put_out : Formatting → Option (List ℕ)
put_out none = none
put_out (some o) = o

-- `none` is undefined: `doprnt-fuel` shows that the fuel suffices.
unfoldable pub doprnt : Bool → (fmt : List ℕ) → List Arg → (radix : ℕ) → Option (List ℕ)
doprnt truncates fmt args radix = put_out (format_from (length fmt + 1) truncates radix fmt args)
