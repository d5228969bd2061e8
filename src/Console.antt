-- ===== src/Console.antt =====
-- kernel/syscall/io.c: reading a line from the console, and writing to it. What `getc` returns is a
-- list of bytes, and what `puts` and `putc` are given is another.
pub mod Laws
use embedlab.Prelude.{
  ℕ, zero, suc, ◌+◌, ◌-◌, ◌^◌, Bool, true, false, ◌&&◌, ◌||◌, not, Option, none, some, List, [],
  ◌∷◌, ◌++◌, ltb, ◌==◌, if◌then◌else◌, update, u32, neg32, ebadf, efault,
}
use embedlab.CString.{Mem}

abbrev pub eot_char : ℕ
eot_char = 0x04

abbrev pub del_char : ℕ
del_char = 0x7f

abbrev pub sdram_start : ℕ
sdram_start = 0xa0000000

abbrev pub sdram_end : ℕ
sdram_end = 0xa3ffffff

abbrev pub rom_end : ℕ
rom_end = 0x00ffffff

-- the counter of `read_syscall`, the memory, and what has been echoed
pub record Reading : Type 0 where
  pub i : ℕ
  pub mem : Mem
  pub echo : List ℕ

-- what one character does: the loop goes on, or the call returns a count
pub data Step : Type 0 where
  goes_on : Reading → Step
  ends : ℕ → Reading → Step

-- the body of the loop and its `i++`; a counter that is decremented twice wraps around at 0
unfoldable pub on_char : (buf : ℕ) → ℕ → Reading → Step
on_char buf tmp r =
    if tmp == del_char || tmp == 0x08
    then (if ltb 0 r.i
        then goes_on (record {
          i = u32 (u32 (2 ^ 32 + r.i - 2) + 1);
          mem = update r.mem (buf + r.i) 0;
          echo = r.echo ++ (0x08 ∷ 0x20 ∷ 0x08 ∷ []);
        })
        else goes_on (record r { i = u32 (r.i + 1) }))
    else if tmp == eot_char
    then ends r.i r
    else if tmp == 0x0d || tmp == 0x0a
    then ends r.i (record r { mem = update r.mem (buf + r.i) 0x0a; echo = r.echo ++ (0x0a ∷ []) })
    else goes_on (record {
      i = u32 (r.i + 1);
      mem = update r.mem (buf + r.i) tmp;
      echo = r.echo ++ (tmp ∷ []);
    })

-- The loop; `none` waits for a character that has not been typed. The last result is the input that
-- is left.
unfoldable pub read_loop : (buf count : ℕ) → Reading → List ℕ → Option (ℕ × Reading × List ℕ)
read_loop buf count r [] = if ltb r.i count then none else some (count, r, [])
read_loop buf count r (c ∷ cs) =
    if ltb r.i count
    then elim (on_char buf c r) [
      | goes_on s ↦ read_loop buf count s cs
      | ends n s ↦ some (n, s, cs)
    ]
    else some (count, r, c ∷ cs)

unfoldable pub read_syscall : (fd buf count : ℕ) → Mem → List ℕ → Option (ℕ × Reading × List ℕ)
read_syscall fd buf count mem input =
    let r : Reading = record { i = 0; mem = mem; echo = [] } in
    if not (fd == 0)
    then some (neg32 ebadf, r, input)
    else if ltb (sdram_end - sdram_start) count || ltb buf sdram_start || ltb sdram_end buf
    then some (neg32 efault, r, input)
    else read_loop buf count r input

-- `for (i = 0; i < count; i++) putc(buffer[i])`
unfoldable pub put_all : (count : ℕ) → Mem → ℕ → List ℕ
put_all zero mem buffer = []
put_all (suc count) mem buffer = mem buffer ∷ put_all count mem (buffer + 1)

-- whether an address lies between the ROM and the SDRAM
abbrev pub in_gap : ℕ → Bool
in_gap a = ltb rom_end a && ltb a sdram_start

-- The results are the value returned and what is put to the console. The sum wraps around, and so
-- do the addresses that the loop reads.
unfoldable pub write_syscall : (fd buf count : ℕ) → Mem → ℕ × List ℕ
write_syscall fd buf count mem =
    if not (fd == 1)
    then (neg32 ebadf, [])
    else if (in_gap buf || ltb sdram_end buf || in_gap (u32 (buf + count)))
        || ltb sdram_end (u32 (buf + count))
    then (neg32 efault, [])
    else (count, put_all count (λ a. mem (u32 a)) buf)
