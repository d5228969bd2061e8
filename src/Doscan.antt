-- ===== src/Doscan.antt =====
-- tasks/libc/stdio/doscan.c and sscanf.c: reading numbers and words from a string. The string and
-- the variables that are stored to are one memory; the format is the list of its characters, and the
-- arguments are addresses. `none` is what C leaves undefined, a missing argument or a format that
-- ends behind a `%`, and a loop over the string that is out of fuel.
pub mod RoundTrip
use embedlab.Prelude.{
  ℕ, zero, suc, ◌+◌, ◌-◌, ◌/◌, ◌^◌, Bool, true, false, not, Option, none, some, List, [], ◌∷◌,
  length, ◌==◌, if◌then◌else◌, update, u8, u32,
}
use embedlab.CString.{Mem}
use embedlab.Calc.{digits, isspace, skip_space}

-- the state of a scan: where it reads, what is stored, the arguments left and the values counted
pub record Scan : Type 0 where
  pub pos : ℕ
  pub mem : Mem
  pub args : List ℕ
  pub vals : ℕ

-- `readchar`, which goes on past a terminator, and `unchar`
abbrev pub readchar : Scan → ℕ × Scan
readchar s = (s.mem s.pos, record s { pos = s.pos + 1 })

abbrev pub unchar : Scan → Scan
unchar s = record s { pos = s.pos - 1 }

-- the store of an `int`, the least byte first
unfoldable pub store_int : ℕ → ℕ → Mem → Mem
store_int p n mem =
    update
      (update (update (update mem p (u8 n)) (p + 1) (u8 (n / 2 ^ 8))) (p + 2) (u8 (n / 2 ^ 16)))
      (p + 3) (u8 (n / 2 ^ 24))

-- `*va_arg(vp, int *) = n`
unfoldable pub store_arg : (discard : Bool) → ℕ → Scan → Option Scan
store_arg true n s = some s
store_arg false n s = elim s.args [
  | [] ↦ none
  | p ∷ args ↦ some (record s { mem = store_int p n s.mem; args = args })
]

abbrev stored_number : Bool → (neg : Bool) → Scan → Option (ℕ × ℕ) → Option Scan
stored_number discard neg s none = none
stored_number discard neg s (some (n, q)) =
    store_arg discard (if neg then u32 (2 ^ 32 - n) else n) (record s { pos = q })

-- `%d` and `%x`: the loops over the digits are that of `strtol`, and stop before the character that
-- is given back.
unfoldable pub scan_number : (fuel : ℕ) → (base : ℕ) → (discard : Bool) → Scan → Option Scan
scan_number fuel base discard s =
    let neg = s.mem s.pos == b'-' in
    stored_number discard neg s (digits fuel s.mem base (if neg then s.pos + 1 else s.pos) 0)

-- The loop of `%s`: characters up to a blank are stored from `buf` on. A terminator is none.
unfoldable pub scan_word : (fuel : ℕ) → (discard : Bool) → (buf : ℕ) → Scan → Option (ℕ × Scan)
scan_word zero discard buf s = none
scan_word (suc fuel) discard buf s =
    let c = s.mem s.pos in
    let next : Scan = record s {
      pos = s.pos + 1;
      mem = if discard then s.mem else update s.mem buf c;
    } in
    let rest = scan_word fuel discard (buf + 1) next in if isspace c then some (buf, s) else rest

abbrev ended_word : Bool → Option (ℕ × Scan) → Option Scan
ended_word discard none = none
ended_word discard (some (buf, s)) =
    some (if discard then s else record s { mem = update s.mem buf 0 })

unfoldable pub scan_string : (fuel : ℕ) → (discard : Bool) → Scan → Option Scan
scan_string fuel true s = ended_word true (scan_word fuel true 0 s)
scan_string fuel false s = elim s.args [
  | [] ↦ none
  | p ∷ args ↦ ended_word false (scan_word fuel false p (record s { args = args }))
]

-- `if (!discard) vals++`
abbrev pub counted : Bool → Option Scan → Option Scan
counted discard none = none
counted discard (some s) = some (if discard then s else record s { vals = s.vals + 1 })

-- The `switch`, for the character `c`; a letter that is none of these reads nothing, and counts.
unfoldable pub scan_one : (fuel : ℕ) → ℕ → (discard : Bool) → Scan → Option Scan
scan_one fuel c discard s = counted discard (
    if c == b'd'
    then scan_number fuel 10 discard s
    else if c == b'x'
    then scan_number fuel 16 discard s
    else if c == b's'
    then scan_string fuel discard s
    else some s)

-- blanks of the format skip those of the string
abbrev at_pos : Scan → Option ℕ → Option Scan
at_pos s none = none
at_pos s (some q) = some (record s { pos = q })

-- Where the loop is in the format: at its start, or behind a `%`, with what `discard` is.
pub data Place : Type 0 where
  outside : Place
  behind_percent : (discard : Bool) → Place

-- What one character of the format does: the loop goes on, or it breaks off at a mismatch.
pub data Move : Type 0 where
  goes_on : Place → Scan → Move
  mismatch : Scan → Move

abbrev pub moved_to : Option Scan → Option Move
moved_to none = none
moved_to (some s) = some (goes_on outside s)

unfoldable pub scan_char : (fuel : ℕ) → Place → ℕ → Scan → Option Move
scan_char fuel outside c s =
    if c == b'%'
    then some (goes_on (behind_percent false) s)
    else if isspace c
    then moved_to (at_pos s (skip_space fuel s.mem s.pos))
    else (let (d, t) = readchar s in if c == d then some (goes_on outside t) else some (mismatch t))
scan_char fuel (behind_percent discard) c s =
    if c == b'*'
    then some (goes_on (behind_percent true) s)
    else moved_to (scan_one fuel c discard s)

abbrev pub follow : Option Move → (Place → Scan → Option Scan) → Option Scan
follow none go = none
follow (some (mismatch t)) go = some t
follow (some (goes_on next t)) go = go next t

-- the loop over the format
unfoldable pub scan_from : (fuel : ℕ) → Place → List ℕ → Scan → Option Scan
scan_from fuel outside [] s = some s
scan_from fuel (behind_percent discard) [] s = none
scan_from fuel place (c ∷ fmt) s =
    follow (scan_char fuel place c s) (λ next t. scan_from fuel next fmt t)

-- The results are the number of values and the memory.
abbrev pub result : Option Scan → Option (ℕ × Mem)
result none = none
result (some s) = some (s.vals, s.mem)

unfoldable pub vsscanf : (fuel : ℕ) → Mem → (s : ℕ) → (fmt args : List ℕ) → Option (ℕ × Mem)
vsscanf fuel mem s fmt args =
    result (scan_from fuel outside fmt (record { pos = s; mem = mem; args = args; vals = 0 }))

unfoldable pub sscanf : (fuel : ℕ) → Mem → (s : ℕ) → (fmt args : List ℕ) → Option (ℕ × Mem)
sscanf fuel mem s fmt args = vsscanf fuel mem s fmt args
