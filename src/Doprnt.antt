-- ===== src/Doprnt.antt =====
-- tasks/libc/stdio/doprnt.c: the characters that `_doprnt` gives to its output function. The format
-- and string arguments are lists of the characters before the terminator; reading at the end of a
-- list yields the terminator. `none` is what C leaves undefined: an argument that is missing or of
-- another kind, a division by a base of 0, a buffer or a table that is too short. Field widths and
-- precisions in a format are small enough for an `int`.
pub mod Number
pub mod Register
pub mod Thread
pub mod Format
pub mod Main
pub mod Digits
pub mod Fuel
pub mod Width
use embedlab.Prelude.{
  ℕ, zero, suc, ◌+◌, ◌/◌, ◌%◌, Option, none, some, List, [], ◌∷◌, ◌==◌, if◌then◌else◌, get_elem?,
  bit_and,
}

-- a chain of results that may be missing
module _ {A B : Type 0} where
  infixl 5 ◌>>=◌
  abbrev pub ◌>>=◌ : Option A → (A → Option B) → Option B
  none >>= f = none
  some a >>= f = f a

-- an argument: the bit pattern of a number, or a pointer to a string that may be null
pub data Arg : Type 0 where
  number : ℕ → Arg
  string : Option (List ℕ) → Arg

-- `va_arg` of a number and of a pointer; the result is the value and the arguments that are left
abbrev pub next_number : List Arg → Option (ℕ × List Arg)
next_number (number n ∷ args) = some (n, args)
next_number _ = none

abbrev pub next_string : List Arg → Option (Option (List ℕ) × List Arg)
next_string (string s ∷ args) = some (s, args)
next_string _ = none

-- the character that a pointer into a string reads
abbrev pub peek : List ℕ → ℕ
peek [] = 0
peek (c ∷ cs) = c

-- `fmt++` over a character, if one is left
abbrev pub skip : List ℕ → List ℕ
skip [] = []
skip (c ∷ cs) = cs

-- what a loop that counts down from `n` gives to the output function
abbrev pub repeat : ℕ → ℕ → List ℕ
repeat c zero = []
repeat c (suc n) = c ∷ repeat c n

-- `MAXBUF`
abbrev pub max_buf : ℕ
max_buf = 32

-- "0123456789abcdef"
abbrev pub digs : List ℕ
digs = 48 ∷ 49 ∷ 50 ∷ 51 ∷ 52 ∷ 53 ∷ 54 ∷ 55 ∷ 56 ∷ 57 ∷ 97 ∷ 98 ∷ 99 ∷ 100 ∷ 101 ∷ 102 ∷ []

-- The `do` loop of `printnum`: a digit is put before those that stand in the buffer, of which `room`
-- bytes are free.
unfoldable pub number_digits : (room : ℕ) → (base u : ℕ) → List ℕ → Option (List ℕ)
number_digits zero base u buf = none
number_digits (suc room) base u buf = get_elem? digs (u % base) >>= λ d.
    let rest = number_digits room base (u / base) (d ∷ buf) in
    if u / base == 0 then some (d ∷ buf) else rest

unfoldable pub printnum : (u base : ℕ) → Option (List ℕ)
printnum u base = if base == 0 then none else number_digits max_buf base u []

-- the loop of `printnum_16`, with `rounds` rounds left
unfoldable pub hex_digits : (rounds : ℕ) → ℕ → List ℕ → Option (List ℕ)
hex_digits zero u buf = some buf
hex_digits (suc rounds) u buf =
    get_elem? digs (bit_and u 0x0f) >>= λ d. hex_digits rounds (u / 16) (d ∷ buf)

unfoldable pub printnum_16 : ℕ → Option (List ℕ)
printnum_16 u = hex_digits 8 u []
