-- ===== src/Printf.antt =====
-- tasks/libc/stdio/printf.c, puts.c and putchar.c: printing to the console through a buffer of 128
-- bytes. `chars` are the characters that `_doprnt` gives to `printf_char`, in order, and `out` is what
-- `write` is given.
pub mod Text
use embedlab.Prelude.{
  ℕ, ◌+◌, ◌-◌, ◌/◌, ◌^◌, ◌<◌, ◌≡◌, true, ◌||◌, Option, none, some, List, [], ◌∷◌, ◌++◌, leb, ◌==◌,
  if◌then◌else◌, update, u8, arith, refl, ◌∙◌,
}
use embedlab.Prelude.{Bool-cases, inl, inr, sym}
use embedlab.CString.{Mem, strlen}
use embedlab.Console.{put_all}

abbrev pub printf_bufmax : ℕ
printf_bufmax = 128

-- `struct printf_state`, and the output
pub record Printing : Type 0 where
  pub buf : Mem
  pub index : ℕ
  pub out : List ℕ

unfoldable pub flush : Printing → Printing
flush p =
    let ended = update p.buf p.index 0 in
    record { buf = ended; index = 0; out = p.out ++ put_all p.index ended 0 }

-- the four bytes of an `int`, the least first
unfoldable pub putchar : ℕ → List ℕ
putchar c = u8 c ∷ u8 (c / 2 ^ 8) ∷ u8 (c / 2 ^ 16) ∷ u8 (c / 2 ^ 24) ∷ []

-- `puts`, given the length of the string
unfoldable pub puts : Mem → Option ℕ → Option (List ℕ)
puts buf none = none
puts buf (some n) = some (put_all n buf 0 ++ (0x0a ∷ []))

abbrev put_line : Mem → List ℕ → Option (List ℕ) → Option Printing
put_line buf out none = none
put_line buf out (some text) = some (record { buf = buf; index = 0; out = out ++ text })

-- `none`: the string in the buffer does not end there
unfoldable pub printf_char : ℕ → Printing → Option Printing
printf_char c p =
    if c == 0x0a
    then (let ended = update p.buf p.index 0 in
        put_line ended p.out (puts ended (strlen printf_bufmax ended 0)))
    else if c == 0 || leb (printf_bufmax - 1) p.index
    then (let flushed = flush p in some (record flushed { out = flushed.out ++ putchar c }))
    else some (record p { buf = update p.buf p.index (u8 c); index = p.index + 1 })

-- what `_doprnt` does with the state
unfoldable pub print_all : List ℕ → Option Printing → Option Printing
print_all chars none = none
print_all [] (some p) = some p
print_all (c ∷ chars) (some p) = print_all chars (printf_char c p)

unfoldable pub end_print : Option Printing → Option (List ℕ)
end_print none = none
end_print (some p) = some (if p.index == 0 then p.out else (flush p).out)

-- `buf` is what the buffer on the stack holds at first.
unfoldable pub vprintf : Mem → List ℕ → Option (List ℕ)
vprintf buf chars = end_print (print_all chars (some (record { buf = buf; index = 0; out = [] })))

unfoldable pub printf : Mem → List ℕ → Option (List ℕ)
printf buf chars = vprintf buf chars

put_line-index :
    (buf : Mem) (out : List ℕ) (o : Option (List ℕ)) (q : Printing)
    → put_line buf out o ≡ some q
    → q.index ≡ 0
put_line-index buf out none q h = cc
put_line-index buf out (some text) q h = ground (arith, h)

newline-line :
    (c : ℕ) (p : Printing)
    → (c == 0x0a) ≡ true
    → printf_char c p ≡ (
        let ended = update p.buf p.index 0 in
        put_line ended p.out (puts ended (strlen 128 ended 0)))
unfolding printf_char
newline-line c p e = rw e refl

-- The index stays inside the buffer, so every store of `printf_char` and `flush` does.
pub printf_char-index :
    (c : ℕ) (p q : Printing) → p.index < 128 → printf_char c p ≡ some q → q.index < 128
unfolding printf_char flush
printf_char-index c p q inside h = elim (Bool-cases (c == 0x0a)) [
  | inl e ↦
      let ended = update p.buf p.index 0 in
      let z : q.index ≡ 0 =
        put_line-index ended p.out (puts ended (strlen 128 ended 0)) q
          (sym (newline-line c p e) ∙ h) in
      omega (arith, z)
  | inr e ↦ ground (arith, h)
]
