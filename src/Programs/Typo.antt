-- ===== src/Programs/Typo.antt =====
-- tasks/typo/typo.c: a line is read, echoed, and followed by the time that it took.
pub mod Seconds
pub mod Echoes
use embedlab.Prelude.{
  ℕ, ◌+◌, ◌-◌, ◌/◌, ◌%◌, ◌^◌, Bool, false, Option, none, some, List, [], ◌∷◌, ◌++◌, if◌then◌else◌,
  u32, neg32, is_negative,
}
use embedlab.CString.{Mem}
use embedlab.Console.{Reading, read_syscall, write_syscall}
use embedlab.Doprnt.{number}
use embedlab.Doprnt.Main.{doprnt}
use embedlab.Printf.{printf}

abbrev pub block : ℕ
block = 100

-- `s / 1000` and `s % 1000` of an `int`
abbrev pub whole : ℕ → ℕ
whole s = if is_negative s then neg32 (neg32 s / 1000) else s / 1000

abbrev pub part : ℕ → ℕ
part s = if is_negative s then neg32 (neg32 s % 1000) else s % 1000

abbrev printed : Mem → Option (List ℕ) → Option (List ℕ)
printed stack none = none
printed stack (some chars) = printf stack chars

-- the line with the time; `stack` is what the buffer of `printf` holds at first
unfoldable pub seconds : (stack : Mem) → (systime : ℕ) → Option (List ℕ)
seconds stack systime = printed stack (
    doprnt false (b'%' ∷ b'd' ∷ b'.' ∷ b'%' ∷ b'd' ∷ b's' ∷ 10 ∷ [])
      (number (whole systime) ∷ number (part systime) ∷ []) 0)

-- what a completed round has put out, the memory, and the input that is left
pub record Round : Type 0 where
  pub out : List ℕ
  pub mem : Mem
  pub input : List ℕ

-- A round is completed, or waits in `read` for more input, or comes to a `printf` that is undefined;
-- the last two keep what `write` and the echo of a line that was read have put out by then.
pub data Typing : Type 0 where
  completed : Round → Typing
  waits : List ℕ → Typing
  undefined : List ℕ → Typing

abbrev pub put_time : Round → Option (List ℕ) → Typing
put_time r none = undefined r.out
put_time r (some text) = completed (record r { out = r.out ++ text })

abbrev pub with_line :
    (stack : Mem) → (buffer systime : ℕ) → List ℕ → Option (ℕ × Reading × List ℕ) → Typing
with_line stack buffer systime out none = waits out
with_line stack buffer systime out (some (n, r, input)) =
    put_time
      (record {
        out = out ++ r.echo ++ (write_syscall 1 buffer (u32 (n + 1)) r.mem).1;
        mem = r.mem;
        input = input;
      })
      (seconds stack systime)

-- A round of the `while`: `prompt2` and `buffer` are where the arrays stand, and the clock shows
-- `before` and `after`.
unfoldable pub round : (stack : Mem) → (prompt2 buffer before after : ℕ) → Mem → List ℕ → Typing
round stack prompt2 buffer before after mem input =
    with_line stack buffer (u32 (2 ^ 32 + after - before)) (write_syscall 1 prompt2 2 mem).1
      (read_syscall 0 buffer block mem input)
