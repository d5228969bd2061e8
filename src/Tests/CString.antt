-- ===== src/Tests/CString.antt =====
-- The C library's string functions at concrete inputs.
use embedlab.Prelude.{
  ℕ, ◌+◌, ◌-◌, ◌<◌, ◌≡◌, inl, ◌&&◌, some, leb, ltb, ◌==◌, if◌then◌else◌, arith, refl,
}
use embedlab.CString.{Mem, IsString, strlen, strlen_lem}
use embedlab.CString.Move.{memmove, memset, strcat, strncpy}
use embedlab.CString.Moved.{memmove_lem, memset_lem, strcat_lem, strncpy_runs_on}
use embedlab.CString.Compare.{memcmp, memcmp_zero, equal_bytes}

-- "abac" at 10 and "ac" at 20
abbrev text : Mem
text a =
    if a == 10
    then 97
    else if a == 11
    then 98
    else if a == 12
    then 97
    else if a == 13
    then 99
    else if a == 20
    then 97
    else if a == 21
    then 99
    else 0

four_long : IsString text 10 4
four_long = (omega arith, (omega arith, (omega arith, (omega arith, refl))))

two_long : IsString text 20 2
two_long = (omega arith, (omega arith, refl))

text_bytes : (a : ℕ) → text a < 256
text_bytes a = ground arith

strlen_lem_example : strlen 5 text 10 ≡ some 4
strlen_lem_example = strlen_lem 5 text 10 4 four_long (omega arith)

memmove_lem_example : memmove 11 10 3 text 13 ≡ 97
memmove_lem_example = memmove_lem 11 10 3 text 13

memset_lem_example : memset 11 300 2 text 12 ≡ 44
memset_lem_example = memset_lem 11 300 2 text 12

strcat_lem_example :
    (mem' : Mem) × (strcat 5 10 20 text ≡ some mem')
    × ((a : ℕ) → mem' a ≡ (if leb 14 a && ltb a 17 then text (20 + (a - 14)) else text a))
strcat_lem_example =
    strcat_lem 5 10 20 4 2 text four_long two_long (omega arith) (omega arith) (inl (omega arith))

-- a byte of the copy itself is cleared
strncpy_runs_on_example : strncpy 2 5 10 text 5 ≡ 0
strncpy_runs_on_example =
    strncpy_runs_on 2 5 10 4 text 5 four_long (omega arith) (inl (omega arith)) (omega arith)
      (omega arith) (omega arith) (omega arith)

memcmp_zero_example : (memcmp 2 text 12 20 == 0) ≡ equal_bytes 2 text 12 20
memcmp_zero_example = memcmp_zero 2 text 12 20 text_bytes
