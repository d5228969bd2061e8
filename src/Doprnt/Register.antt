-- ===== src/Doprnt/Register.antt =====
-- The conversion `%b` of doprnt.c, which decodes a device register by a list of field names.
use embedlab.Prelude.{
  ℕ, zero, suc, ◌-◌, ◌*◌, ◌/◌, ◌^◌, Bool, true, false, ◌||◌, Option, none, some, List, [], ◌∷◌,
  ◌++◌, length, ltb, leb, ◌==◌, if◌then◌else◌, bit_and,
}
use embedlab.Doprnt.{◌>>=◌, Arg, next_number, next_string, peek, skip, printnum}

-- the characters of a name, up to a control character, and what follows them
unfoldable pub name_of : List ℕ → List ℕ × List ℕ
name_of [] = ([], [])
name_of (c ∷ cs) =
    let (name, left) = name_of cs in if ltb 32 c then (c ∷ name, left) else ([], c ∷ cs)

-- `,` between fields, and `<` before the first
abbrev pub opening : Bool → ℕ
opening any = if any then b',' else b'<'

-- `(u>>(j-1)) & ((2<<(i-j))-1)`; shifts by less than 0 are undefined
unfoldable pub field : (u i j : ℕ) → Option ℕ
field u i j =
    if j == 0 || ltb i j then none else some (bit_and (u / 2 ^ (j - 1)) (2 * 2 ^ (i - j) - 1))

-- A bit field: `p` is behind its last bit number, and starts with its first.
unfoldable pub bit_field : (u base i : ℕ) → Bool → List ℕ → Option (List ℕ × List ℕ)
bit_field u base i any [] = none
bit_field u base i any (j ∷ p) =
    let (name, left) = name_of p in
    field u i j >>= λ bits.
    printnum bits base >>= λ digits. some (opening any ∷ (name ++ digits), left)

-- The `while` over the arguments of the format; the result is what is put out, and `any`.
unfoldable pub fields : (fuel : ℕ) → (u base : ℕ) → Bool → List ℕ → Option (List ℕ × Bool)
fields zero u base any p = none
fields (suc fuel) u base any [] = some ([], any)
fields (suc fuel) u base any (i ∷ p) =
    if leb (peek p) 32
    then (bit_field u base i any p >>= λ (out, left).
        fields fuel u base true left >>= λ (more, found). some (out ++ more, found))
    else if i == 0
    then none
    else if bit_and u (2 ^ (i - 1)) == 0
    then fields fuel u base any (name_of p).1
    else (fields fuel u base true (name_of p).1 >>= λ (more, found).
        some (opening any ∷ ((name_of p).0 ++ more), found))

-- The first character of the string is the base. Each round of the loop takes a character at least.
unfoldable pub print_register : List Arg → Option (List ℕ × List Arg)
print_register args = next_number args >>= λ (u, args1). next_string args1 >>= λ (s, args2).
    s >>= λ text. printnum u (peek text) >>= λ digits.
    if u == 0
    then some (digits, args2)
    else (fields (length text) u (peek text) false (skip text) >>= λ (out, any).
        some (digits ++ (out ++ (if any then b'>' ∷ [] else [])), args2))
