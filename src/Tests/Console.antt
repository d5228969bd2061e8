-- ===== src/Tests/Console.antt =====
-- The console's system calls at concrete inputs.
use embedlab.Prelude.{
  ℕ, ◌≡◌, some, List, [], ◌∷◌, ◌++◌, All, arith, length, get_elem?, u32, ◌+◌, ◌<◌,
}
use embedlab.CString.{Mem}
use embedlab.Console.{Reading, read_syscall, write_syscall}
use embedlab.Console.Laws.{IsPlain, stored, read_syscall_line, write_syscall_lem}

abbrev blank : Mem
blank a = 0

abbrev hi : List ℕ
hi = 104 ∷ 105 ∷ []

hi-IsPlain : All IsPlain hi
hi-IsPlain = (omega arith, (omega arith, tt))

read_syscall_line_example :
    (r : Reading) × (read_syscall 0 0xa0000000 8 blank (hi ++ (0x0a ∷ 33 ∷ []))
      ≡ some (2, r, 33 ∷ []))
    × (r.mem ≡ stored blank 0xa0000000 (hi ++ (0x0a ∷ [])))
    × (r.echo ≡ hi ++ (0x0a ∷ []))
read_syscall_line_example =
    read_syscall_line 0xa0000000 8 blank hi (33 ∷ []) hi-IsPlain (omega arith) (omega arith)
      (omega arith) (omega arith)

write_syscall_lem_example :
    (out : List ℕ) × (write_syscall 1 0xa0000000 0x60000001 blank ≡ (0x60000001, out))
    × (length out ≡ 0x60000001)
    × ((i : ℕ) → i < 0x60000001 → get_elem? out i ≡ some (blank (u32 (0xa0000000 + i))))
write_syscall_lem_example = write_syscall_lem 0xa0000000 0x60000001 blank (omega arith)
