-- ===== src/Doprnt/Format.antt =====
-- The flags, the width and the precision of a conversion, and `%s`, in doprnt.c.
use embedlab.Prelude.{
  ℕ, ◌+◌, ◌-◌, ◌*◌, ◌^◌, Bool, true, false, ◌&&◌, not, Option, none, some, List, [], ◌∷◌, ◌++◌,
  length, take, ltb, leb, ◌==◌, if◌then◌else◌, is_negative, neg32, min,
}
use embedlab.Doprnt.{◌>>=◌, Arg, next_number, next_string, repeat, peek, skip}
use embedlab.Doprnt.Number.{Spec}

abbrev pub is_digit : ℕ → Bool
is_digit c = leb b'0' c && leb c b'9'

-- what is set before the flags are read
abbrev pub no_flags : Spec
no_flags = record {
  length = 0;
  prec = 2 ^ 32 - 1;
  ladjust = false;
  padc = b' ';
  plus_sign = 0;
  altfmt = false;
  longopt = 0;
}

abbrev pub is_flag : ℕ → Bool
is_flag c =
    if c == b'#' then true else if c == b'-' then true else if c == b'+' then true else c == b' '

-- the body of the loop over the flags
unfoldable pub on_flag : ℕ → Spec → Spec
on_flag c spec =
    if c == b'#'
    then record spec { altfmt = true }
    else if c == b'-'
    then record spec { ladjust = true }
    else if c == b'+'
    then record spec { plus_sign = b'+' }
    else record spec { plus_sign = if spec.plus_sign == 0 then b' ' else spec.plus_sign }

unfoldable pub read_flags : List ℕ → Spec → Spec × List ℕ
read_flags [] spec = (spec, [])
read_flags (c ∷ fmt) spec =
    let rest = read_flags fmt (on_flag c spec) in if is_flag c then rest else (spec, c ∷ fmt)

-- `while(isdigit(*fmt)) n = 10 * n + Ctod(*fmt++)`
unfoldable pub read_number : ℕ → List ℕ → ℕ × List ℕ
read_number n [] = (n, [])
read_number n (c ∷ fmt) =
    let rest = read_number (10 * n + (c - b'0')) fmt in if is_digit c then rest else (n, c ∷ fmt)

-- one conversion's format and arguments as they are used up
pub record Parse : Type 0 where
  pub spec : Spec
  pub fmt : List ℕ
  pub args : List Arg

-- a width from the arguments; a negative one turns the adjustment around
abbrev pub starred_width : Parse → Option (ℕ × List Arg) → Option Parse
starred_width p none = none
starred_width p (some (w, left)) = some (record {
  spec =
      if is_negative w
      then record p.spec { ladjust = not p.spec.ladjust; length = neg32 w }
      else record p.spec { length = w };
  fmt = skip p.fmt;
  args = left;
})

unfoldable pub read_width : Parse → Option Parse
read_width p =
    if is_digit (peek p.fmt)
    then (let (n, left) = read_number 0 p.fmt in
        some (record p { spec = record p.spec { length = n }; fmt = left }))
    else if peek p.fmt == b'*'
    then starred_width p (next_number p.args)
    else some p

abbrev pub starred_prec : Parse → Option (ℕ × List Arg) → Option Parse
starred_prec p none = none
starred_prec p (some (w, left)) =
    some (record { spec = record p.spec { prec = w }; fmt = skip p.fmt; args = left })

-- behind the `.`
unfoldable pub read_dotted : Parse → Option Parse
read_dotted p =
    if is_digit (peek p.fmt)
    then (let (n, left) = read_number 0 p.fmt in
        some (record p { spec = record p.spec { prec = n }; fmt = left }))
    else if peek p.fmt == b'*'
    then starred_prec p (next_number p.args)
    else some p

unfoldable pub read_prec : Parse → Option Parse
read_prec p = if peek p.fmt == b'.' then read_dotted (record p { fmt = skip p.fmt }) else some p

-- `while (*fmt == 'l')`
unfoldable pub count_l : ℕ → List ℕ → ℕ × List ℕ
count_l n [] = (n, [])
count_l n (c ∷ fmt) = let rest = count_l (n + 1) fmt in if c == b'l' then rest else (n, c ∷ fmt)

unfoldable pub read_pad : Parse → Parse
read_pad p =
    if peek p.fmt == b'0'
    then record p { spec = record p.spec { padc = b'0' }; fmt = skip p.fmt }
    else p

unfoldable pub read_long : Parse → Parse
read_long p =
    let (n, left) = count_l 0 p.fmt in record p { spec = record p.spec { longopt = n }; fmt = left }

-- from the `%` up to the letter of the conversion
unfoldable pub read_spec : List ℕ → List Arg → Option Parse
read_spec fmt args =
    let (spec, left) = read_flags fmt no_flags in
    read_width (read_pad (record { spec = spec; fmt = left; args = args })) >>= λ p.
    read_prec p >>= λ q. some (read_long q)

-- the number of characters that the precision lets through
unfoldable pub limit : Spec → ℕ
limit spec =
    if spec.prec == 2 ^ 32 - 1 then 2 ^ 31 - 1 else if is_negative spec.prec then 0 else spec.prec

abbrev text_of : Option (List ℕ) → List ℕ
text_of none = []
text_of (some s) = s

-- `%s`: `++n > prec` counts one character more than it puts out when it stops the loop.
unfoldable pub lay_out_string : Spec → List ℕ → List ℕ
lay_out_string spec s =
    let shown = take (limit spec) s in
    let n = if ltb (limit spec) (length s) then limit spec + 1 else length s in
    (if ltb 0 spec.length && not spec.ladjust
      then repeat b' ' (spec.length - min (length s) (limit spec))
      else [])
    ++ (shown ++ (if spec.ladjust then repeat b' ' (spec.length - n) else []))

unfoldable pub print_string : Spec → List Arg → Option (List ℕ × List Arg)
print_string spec args =
    next_string args >>= λ (s, left). some (lay_out_string spec (text_of s), left)
