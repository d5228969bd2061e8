-- ===== src/Doscan/RoundTrip.antt =====
-- What `sprintf` prints of a number, `sscanf` reads back.
use embedlab.Prelude.{
  ℕ, ◌+◌, ◌-◌, ◌^◌, ◌<◌, ◌≤◌, ◌≡◌, refl, ap, ◌∙◌, true, false, Bool-cases, inl, inr, Option, some,
  List, [], ◌∷◌, ◌++◌, length, All, arith, ltb, ◌==◌, if◌then◌else◌, u8, u32, append-nil,
}
use embedlab.CString.{Mem}
use embedlab.Calc.{digit}
use embedlab.Calc.Digits.{value, Numeral, digits_lem}
use embedlab.Sprintf.{Holds, vsprintf, vsprintf-Holds}
use embedlab.Doprnt.{◌>>=◌, Arg, number, printnum}
use embedlab.Doprnt.Number.{
  signed, prefix_of, sign_chars, lay_out, print_num, print_signed, print_unsigned,
}
use embedlab.Doprnt.Format.{
  no_flags, read_flags, read_width, read_prec, count_l, read_pad, read_long, read_spec,
}
use embedlab.Doprnt.Main.{convert, defined, before, format_from, put_out, doprnt}
use embedlab.Doprnt.Digits.{char_of, chars_of, digit-char_of, printnum_lem}
use embedlab.Doscan.{
  Scan, follow, moved_to, counted, result, store_int, store_arg, scan_number, scan_one, scan_char,
  scan_from, vsscanf,
}

-- the characters of digits are bytes
char_of-byte : (d : ℕ) → d < 16 → u8 (char_of d) ≡ char_of d
char_of-byte d small = ground arith

-- a run of printed digits is a numeral
Holds-Numeral :
    (base : ℕ) (mem : Mem) (s : ℕ) (es : List ℕ)
    → base ≤ 16
    → All (λ d. d < base) es
    → Holds mem s (chars_of es)
    → Numeral mem base s es
unfolding digit
Holds-Numeral base mem s [] small all h = ap (digit base) h ∙ ground arith
Holds-Numeral base mem s (d ∷ es) small all h = (
  ap (digit base) (h.0 ∙ char_of-byte d (omega (arith, all.0, small)))
      ∙ digit-char_of base d small all.0,
  Holds-Numeral base mem (s + 1) es small all.1 h.1,
)

-- without flags, nothing is padded
lay_out-plain : (sign ds : List ℕ) → lay_out no_flags sign [] ds ≡ sign ++ ds
unfolding lay_out
lay_out-plain sign ds =
    let nothing : 0 - (length ds + length sign + 0) ≡ 0 = omega arith in
    rw (nothing, append-nil) refl

prefix-plain : (u base : ℕ) → prefix_of no_flags u base ≡ []
unfolding prefix_of
prefix-plain u base = elim (Bool-cases (u == 0)) [ inl z ↦ rw z refl | inr z ↦ rw z refl ]

pub print_num-plain :
    (u c base : ℕ) (ds : List ℕ)
    → printnum u base ≡ some ds
    → print_num no_flags false u c base ≡ some (sign_chars c ++ ds)
unfolding print_num
print_num-plain u c base ds run =
    ap
      (λ o.
        o >>= λ digits. some (lay_out no_flags (sign_chars c) (prefix_of no_flags u base) digits))
      run
    ∙ ap some (
        ap (λ p. lay_out no_flags (sign_chars c) p ds) (prefix-plain u base)
        ∙ lay_out-plain (sign_chars c) ds)

abbrev no_args : List Arg
no_args = []

abbrev print_signed_arg : Option (List ℕ) → Option (List ℕ)
print_signed_arg o =
    put_out
      (defined (o >>= λ out. some (out, no_args)) (λ (out, left). before out (some (some []))))

pub signed-plain :
    (w : ℕ) → signed no_flags w ≡ (if ltb (w + w) (2 ^ 32) then (w, 0) else (2 ^ 32 - w, b'-'))
unfolding signed
signed-plain w = refl

-- what `%d` puts out of a bit pattern
doprnt-d :
    (w u c : ℕ) (ds : List ℕ)
    → signed no_flags w ≡ (u, c)
    → printnum u 10 ≡ some ds
    → doprnt false (b'%' ∷ b'd' ∷ []) (number w ∷ []) 0 ≡ some (sign_chars c ++ ds)
unfolding doprnt format_from read_spec read_flags read_pad read_width read_prec read_long count_l
    convert print_signed
doprnt-d w u c ds sg run =
    ap (λ (r : ℕ × ℕ). print_signed_arg (print_num no_flags false r.0 r.1 10)) sg
    ∙ ap print_signed_arg (print_num-plain u c 10 ds run)
    ∙ ap some (append-nil _)

-- what `%x` puts out of a bit pattern
doprnt-x :
    (w : ℕ) (ds : List ℕ)
    → printnum w 16 ≡ some ds
    → doprnt false (b'%' ∷ b'x' ∷ []) (number w ∷ []) 0 ≡ some ds
unfolding doprnt format_from read_spec read_flags read_pad read_width read_prec read_long count_l
    convert print_unsigned
doprnt-x w ds run = ap print_signed_arg (print_num-plain w 0 16 ds run) ∙ ap some (append-nil _)

-- the states before and behind the only conversion
abbrev start : Mem → (s p : ℕ) → Scan
start mem s p = record { pos = s; mem = mem; args = p ∷ []; vals = 0 }

abbrev read_to : Mem → (p q n : ℕ) → Scan
read_to mem p q n = record { pos = q; mem = store_int p n mem; args = []; vals = 0 }

-- a numeral is read, and its number stored
module _ (fuel : ℕ) (mem : Mem) (s p base : ℕ) (es : List ℕ) (pos : 0 < base)
    (enough : length es < fuel) (small : value base 0 es < 2 ^ 32) where
  scan_number-pos :
      Numeral mem base s es
      → (mem s == b'-') ≡ false
      → scan_number fuel base false (start mem s p)
        ≡ some (read_to mem p (s + length es) (value base 0 es))
  unfolding scan_number store_arg
  scan_number-pos n plain = rw (plain, digits_lem fuel mem base s 0 es pos n enough small) refl

  scan_number-neg :
      Numeral mem base (s + 1) es
      → (mem s == b'-') ≡ true
      → scan_number fuel base false (start mem s p)
        ≡ some (read_to mem p (s + 1 + length es) (u32 (2 ^ 32 - value base 0 es)))
  unfolding scan_number store_arg
  scan_number-neg n minus =
      rw (minus, digits_lem fuel mem base (s + 1) 0 es pos n enough small) refl

module _ (fuel : ℕ) (mem : Mem) (s p n q : ℕ) where
  abbrev scanned : Option Scan → Option (ℕ × Mem)
  scanned o = result (follow (moved_to (counted false o)) (λ next t. scan_from fuel next [] t))

  vsscanf-d :
      scan_number fuel 10 false (start mem s p) ≡ some (read_to mem p q n)
      → vsscanf fuel mem s (b'%' ∷ b'd' ∷ []) (p ∷ []) ≡ some (1, store_int p n mem)
  unfolding vsscanf scan_from scan_char scan_one
  vsscanf-d run = ap scanned run

  vsscanf-x :
      scan_number fuel 16 false (start mem s p) ≡ some (read_to mem p q n)
      → vsscanf fuel mem s (b'%' ∷ b'x' ∷ []) (p ∷ []) ≡ some (1, store_int p n mem)
  unfolding vsscanf scan_from scan_char scan_one
  vsscanf-x run = ap scanned run

-- a digit is no minus sign
plain_start :
    (base : ℕ) (mem : Mem) (s : ℕ) (es : List ℕ)
    → base ≤ 16
    → All (λ d. d < base) es
    → 0 < length es
    → Holds mem s (chars_of es)
    → (mem s == b'-') ≡ false
plain_start base mem s [] small all some_es h = absurd (omega (arith, some_es))
plain_start base mem s (d ∷ es) small all some_es h =
    ap (λ c. c == b'-') (h.0 ∙ char_of-byte d (omega (arith, all.0, small))) ∙ ground (arith, all.0)

-- What `sprintf` prints of a word by `%x`, `sscanf` reads back by `%x`: it counts one value, and
-- stores the word. The fuel is more than the digits that there can be.
sscanf-sprintf_hex :
    (fuel w s p : ℕ) (mem : Mem)
    → w < 2 ^ 32
    → 32 < fuel
    → (out : List ℕ) × (doprnt false (b'%' ∷ b'x' ∷ []) (number w ∷ []) 0 ≡ some out)
      × (vsscanf fuel (vsprintf s out mem).1 s (b'%' ∷ b'x' ∷ []) (p ∷ [])
          ≡ some (1, store_int p w (vsprintf s out mem).1))
sscanf-sprintf_hex fuel w s p mem word enough =
    let (es, printed, same_value, all, size, some_es) =
      printnum_lem 16 (omega arith) (omega arith) w word in
    let held = vsprintf-Holds s (chars_of es) mem in
    let m = (vsprintf s (chars_of es) mem).1 in
    let read =
      scan_number-pos fuel m s p 16 es (omega arith) (omega (arith, size, enough))
        (omega (arith, same_value, word)) (Holds-Numeral 16 m s es (omega arith) all held)
        (plain_start 16 m s es (omega arith) all some_es held) in
    (
      chars_of es,
      doprnt-x w (chars_of es) printed,
      vsscanf-x fuel m s p w (s + length es)
          (read ∙ ap (λ n. some (read_to m p (s + length es) n)) same_value),
    )

-- What `sprintf` prints of an `int` by `%d`, negative or not, `sscanf` reads back by `%d`: it counts
-- one value, and stores the bit pattern.
pub sscanf-sprintf :
    (fuel w s p : ℕ) (mem : Mem)
    → w < 2 ^ 32
    → 32 < fuel
    → (out : List ℕ) × (doprnt false (b'%' ∷ b'd' ∷ []) (number w ∷ []) 0 ≡ some out)
      × (vsscanf fuel (vsprintf s out mem).1 s (b'%' ∷ b'd' ∷ []) (p ∷ [])
          ≡ some (1, store_int p w (vsprintf s out mem).1))
sscanf-sprintf fuel w s p mem word enough = elim (Bool-cases (ltb (w + w) (2 ^ 32))) [
  | inl plus ↦
      let (es, printed, same_value, all, size, some_es) =
        printnum_lem 10 (omega arith) (omega arith) w word in
      let held = vsprintf-Holds s (chars_of es) mem in
      let m = (vsprintf s (chars_of es) mem).1 in
      let read =
        scan_number-pos fuel m s p 10 es (omega arith) (omega (arith, size, enough))
          (omega (arith, same_value, word)) (Holds-Numeral 10 m s es (omega arith) all held)
          (plain_start 10 m s es (omega arith) all some_es held) in
      (
        chars_of es,
        doprnt-d w w 0 (chars_of es) (signed-plain w ∙ rw plus refl) printed,
        vsscanf-d fuel m s p w (s + length es)
            (read ∙ ap (λ n. some (read_to m p (s + length es) n)) same_value),
      )
  | inr minus ↦
      let u = 2 ^ 32 - w in
      let (es, printed, same_value, all, size, some_es) =
        printnum_lem 10 (omega arith) (omega arith) u (ground (arith, minus)) in
      let held = vsprintf-Holds s (b'-' ∷ chars_of es) mem in
      let m = (vsprintf s (b'-' ∷ chars_of es) mem).1 in
      let read =
        scan_number-neg fuel m s p 10 es (omega arith) (omega (arith, size, enough))
          (ground (arith, same_value, minus))
          (Holds-Numeral 10 m (s + 1) es (omega arith) all held.1) (ap (λ c. c == b'-') held.0) in
      (
        b'-' ∷ chars_of es,
        doprnt-d w u b'-' (chars_of es) (signed-plain w ∙ rw minus refl) printed,
        vsscanf-d fuel m s p w (s + 1 + length es) (
            read
            ∙ ap (λ n. some (read_to m p (s + 1 + length es) n))
                (ground (arith, same_value, minus, word))),
      )
]
