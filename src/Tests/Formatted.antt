-- ===== src/Tests/Formatted.antt =====
-- Conversions of `_doprnt` and `_doscan`, and the round trip of -17.
use embedlab.Prelude.{
  inl, true, length, ltb, max, min, if◌then◌else◌, ℕ, ◌+◌, ◌-◌, ◌^◌, ◌≡◌, refl, false, some, List,
  [], ◌∷◌, ◌*◌, arith,
}
use embedlab.CString.{Mem}
use embedlab.Sprintf.{vsprintf}
use embedlab.Doprnt.{number, string, number_digits, printnum}
use embedlab.Doprnt.Number.{print_unsigned, print_num, lay_out, prefix_of}
use embedlab.Doprnt.Register.{name_of, fields, print_register}
use embedlab.Doprnt.Thread.{short_thread, print_thread}
use embedlab.Doprnt.Format.{
  on_flag, read_flags, read_number, read_width, read_dotted, read_prec, count_l, read_pad,
  read_long, read_spec, limit, lay_out_string, print_string,
}
use embedlab.Doprnt.Main.{convert, format_from, doprnt}
use embedlab.Doprnt.Number.{Spec}
use embedlab.Doprnt.Format.{no_flags}
use embedlab.Doprnt.Width.{lay_out-length, lay_out_string-length}
use embedlab.Doscan.{store_int, vsscanf}
use embedlab.Doscan.RoundTrip.{sscanf-sprintf}

-- `%-5.2s|` of "abc": two blanks, where three fill the field
string_adjusted :
    doprnt false
      (b'%' ∷ b'-' ∷ b'5' ∷ b'.' ∷ b'2' ∷ b's' ∷ b'|' ∷ [])
      (string (some (b'a' ∷ b'b' ∷ b'c' ∷ [])) ∷ [])
      0
    ≡ some (b'a' ∷ b'b' ∷ b' ' ∷ b' ' ∷ b'|' ∷ [])
unfolding doprnt format_from read_spec read_flags on_flag read_number read_pad read_width read_prec
    read_dotted read_long count_l convert print_string lay_out_string limit
string_adjusted = refl

-- `%#6x` of 42
hex_prefixed :
    doprnt false (b'%' ∷ b'#' ∷ b'6' ∷ b'x' ∷ []) (number 42 ∷ []) 0
    ≡ some (b' ' ∷ b' ' ∷ b'0' ∷ b'x' ∷ b'2' ∷ b'a' ∷ [])
unfolding doprnt format_from read_spec read_flags on_flag read_number read_pad read_width read_prec
    read_long count_l convert print_unsigned print_num lay_out prefix_of printnum number_digits
hex_prefixed = refl

-- `%b` of 3 with the fields of a register, from the comment of doprnt.c
register_decoded :
    doprnt false
      (b'%' ∷ b'b' ∷ [])
      (number 3 ∷ string (some (8 ∷ 2 ∷ b'T' ∷ b'W' ∷ b'O' ∷ 1 ∷ b'O' ∷ b'N' ∷ b'E' ∷ [])) ∷ [])
      0
    ≡ some (b'3' ∷ b'<' ∷ b'T' ∷ b'W' ∷ b'O' ∷ b',' ∷ b'O' ∷ b'N' ∷ b'E' ∷ b'>' ∷ [])
unfolding doprnt format_from read_spec read_flags read_pad read_width read_prec read_long count_l
    convert print_register fields name_of printnum number_digits
register_decoded = refl

-- `%t` of the task 0x12 and the lthread 3
thread_id :
    doprnt false (b'%' ∷ b't' ∷ []) (number (18 * 2 ^ 17 + 3 * 2 ^ 10) ∷ []) 0
    ≡ some (b'1' ∷ b'2' ∷ b'.' ∷ b'3' ∷ [])
unfolding doprnt format_from read_spec read_flags read_pad read_width read_prec read_long count_l
    convert print_thread short_thread printnum number_digits
thread_id = refl

abbrev zeros : Mem
zeros a = 0

sscanf-sprintf_example :
    (out : List ℕ) × (doprnt false (b'%' ∷ b'd' ∷ []) (number (2 ^ 32 - 17) ∷ []) 0 ≡ some out)
    × (vsscanf 33 (vsprintf 100 out zeros).1 100 (b'%' ∷ b'd' ∷ []) (200 ∷ [])
        ≡ some (1, store_int 200 (2 ^ 32 - 17) (vsprintf 100 out zeros).1))
sscanf-sprintf_example = sscanf-sprintf 33 (2 ^ 32 - 17) 100 200 zeros (omega arith) (omega arith)

-- `%-5.2` of "abc"
abbrev narrow : Spec
narrow = record no_flags { length = 5; prec = 2; ladjust = true }

lay_out-length_example : length (lay_out narrow [] [] (b'7' ∷ [])) ≡ 5
lay_out-length_example = lay_out-length narrow [] [] (b'7' ∷ []) (inl refl)

lay_out_string-length_example :
    length (lay_out_string narrow (b'a' ∷ b'b' ∷ b'c' ∷ []))
    ≡ (if ltb (limit narrow) 3 then max (limit narrow) 4 else max 5 (min (limit narrow) 3))
lay_out_string-length_example = lay_out_string-length narrow (b'a' ∷ b'b' ∷ b'c' ∷ [])
