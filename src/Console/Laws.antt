-- ===== src/Console/Laws.antt =====
-- What a line that is typed leaves in the buffer, and which buffers are written.
use embedlab.Prelude.{
  ℕ, zero, suc, Bool, get_elem?, ◌+◌, ◌%◌, ◌^◌, ◌<◌, ◌≤◌, ◌≡◌, ◌≢◌, true, false, ◌&&◌, ◌||◌, some,
  List, [], ◌∷◌, ◌++◌, append_assoc, All, length, ltb, leb, ◌==◌, if◌then◌else◌, update, u32, neg32,
  efault, arith, refl, ap, ◌∙◌,
}
use embedlab.CString.{Mem}
use embedlab.Console.{
  Reading, goes_on, ends, on_char, read_loop, read_syscall, put_all, write_syscall,
}

-- a character that only goes to the buffer
abbrev pub IsPlain : ℕ → Type 0
IsPlain c = (c ≢ 0x7f) × (c ≢ 0x08) × (c ≢ 0x04) × (c ≢ 0x0d) × (c ≢ 0x0a)

-- the memory with the characters stored from `a` on
abbrev pub stored : Mem → ℕ → List ℕ → Mem
stored mem a [] = mem
stored mem a (x ∷ xs) = stored (update mem a x) (a + 1) xs

on_char-plain :
    (buf c : ℕ) (r : Reading)
    → IsPlain c
    → r.i + 1 < 2 ^ 32
    → on_char buf c r
      ≡ goes_on
          (record { i = r.i + 1; mem = update r.mem (buf + r.i) c; echo = r.echo ++ (c ∷ []) })
unfolding on_char
on_char-plain buf c r (a, b, d, e, f) word =
    let w : (r.i + 1) % 2 ^ 32 ≡ r.i + 1 = omega (arith, word) in
    let t1 : (c == 0x7f || c == 0x08) ≡ false = ground arith in
    let t2 : (c == 0x04) ≡ false = ground arith in
    let t3 : (c == 0x0d || c == 0x0a) ≡ false = ground arith in rw (t1, t2, t3, w) refl

on_char-newline :
    (buf : ℕ) (r : Reading)
    → on_char buf 0x0a r
      ≡ ends r.i (record r { mem = update r.mem (buf + r.i) 0x0a; echo = r.echo ++ (0x0a ∷ []) })
unfolding on_char
on_char-newline buf r = refl

-- the reading behind a plain character
abbrev typed : ℕ → ℕ → Reading → Reading
typed buf c r = record { i = r.i + 1; mem = update r.mem (buf + r.i) c; echo = r.echo ++ (c ∷ []) }

read_loop-plain :
    (buf count c : ℕ) (r : Reading) (cs : List ℕ)
    → IsPlain c
    → r.i < count
    → count < 2 ^ 32
    → read_loop buf count r (c ∷ cs) ≡ read_loop buf count (typed buf c r) cs
unfolding read_loop
read_loop-plain buf count c r cs plain room word =
    let more : ltb r.i count ≡ true = ground arith in
    rw (more, on_char-plain buf c r plain (omega (arith, room, word))) refl

read_loop-newline :
    (buf count : ℕ) (r : Reading) (cs : List ℕ)
    → r.i < count
    → read_loop buf count r (0x0a ∷ cs)
      ≡ some
          (r.i, record r { mem = update r.mem (buf + r.i) 0x0a; echo = r.echo ++ (0x0a ∷ []) }, cs)
unfolding read_loop
read_loop-newline buf count r cs room =
    let more : ltb r.i count ≡ true = ground arith in rw (more, on_char-newline buf r) refl

-- the reading behind a line
abbrev pub line : ℕ → List ℕ → Reading → Reading
line buf [] r = record r { mem = update r.mem (buf + r.i) 0x0a; echo = r.echo ++ (0x0a ∷ []) }
line buf (x ∷ xs) r = line buf xs (typed buf x r)

read_loop-line :
    (buf count : ℕ) (r : Reading) (xs rest : List ℕ)
    → All IsPlain xs
    → r.i + length xs < count
    → count < 2 ^ 32
    → read_loop buf count r (xs ++ (0x0a ∷ rest)) ≡ some ((line buf xs r).i, line buf xs r, rest)
read_loop-line buf count r [] rest plain room word =
    read_loop-newline buf count r rest (omega (arith, room))
read_loop-line buf count r (x ∷ xs) rest plain room word =
    read_loop-plain buf count x r (xs ++ (0x0a ∷ rest)) plain.0 (omega (arith, room)) word
    ∙ read_loop-line buf count (typed buf x r) xs rest plain.1 (omega (arith, room)) word

line-i : (buf : ℕ) (xs : List ℕ) (r : Reading) → (line buf xs r).i ≡ r.i + length xs
line-i buf [] r = omega arith
line-i buf (x ∷ xs) r = line-i buf xs (typed buf x r) ∙ omega arith

line-mem :
    (buf : ℕ) (xs : List ℕ) (r : Reading)
    → (line buf xs r).mem ≡ stored r.mem (buf + r.i) (xs ++ (0x0a ∷ []))
line-mem buf [] r = refl
line-mem buf (x ∷ xs) r =
    line-mem buf xs (typed buf x r)
    ∙ ap (λ a. stored (update r.mem (buf + r.i) x) a (xs ++ (0x0a ∷ []))) (omega arith)

line-echo :
    (buf : ℕ) (xs : List ℕ) (r : Reading) → (line buf xs r).echo ≡ r.echo ++ (xs ++ (0x0a ∷ []))
line-echo buf [] r = refl
line-echo buf (x ∷ xs) r = line-echo buf xs (typed buf x r) ∙ append_assoc r.echo (x ∷ []) _

read_loop-delete :
    (buf count : ℕ) (mem : Mem) (cs : List ℕ)
    → 0 < count
    → read_loop buf count (record { i = 0; mem = mem; echo = [] }) (0x7f ∷ cs)
      ≡ read_loop buf count (record { i = 1; mem = mem; echo = [] }) cs
unfolding read_loop on_char
read_loop-delete buf count mem cs pos = let more : ltb 0 count ≡ true = ground arith in rw more refl

module _ (buf count : ℕ) (mem : Mem) (xs rest : List ℕ) (plain : All IsPlain xs)
    (start : 0xa0000000 ≤ buf) (end : buf ≤ 0xa3ffffff) (small : count ≤ 0x3ffffff) where
  -- A line of plain characters that is shorter than the count is stored with its newline from the
  -- buffer's start on, and echoed; the call returns the number of characters, the newline not
  -- counted, and leaves the input behind the newline.
  pub read_syscall_line :
      length xs < count
      → (r : Reading) × (read_syscall 0 buf count mem (xs ++ (0x0a ∷ rest))
          ≡ some (length xs, r, rest))
        × (r.mem ≡ stored mem buf (xs ++ (0x0a ∷ [])))
        × (r.echo ≡ xs ++ (0x0a ∷ []))
  unfolding read_syscall
  read_syscall_line room =
      let r : Reading = record { i = 0; mem = mem; echo = [] } in
      let ok : (ltb 0x3ffffff count || ltb buf 0xa0000000 || ltb 0xa3ffffff buf) ≡ false =
        ground arith in
      (
        line buf xs r,
        rw ok (
            read_loop-line buf count r xs rest plain (omega (arith, room)) (omega (arith, small))
            ∙ ap (λ n. some (n, line buf xs r, rest)) (line-i buf xs r ∙ omega arith)),
        line-mem buf xs r ∙ ap (λ a. stored mem a (xs ++ (0x0a ∷ []))) (omega arith),
        line-echo buf xs r,
      )

  -- A delete typed before anything else makes the call skip the first byte of the buffer: a line
  -- behind it is stored one byte further on, and the count returned is one more than its length.
  pub read_syscall_delete :
      length xs + 1 < count
      → (r : Reading) × (read_syscall 0 buf count mem (0x7f ∷ (xs ++ (0x0a ∷ rest)))
          ≡ some (length xs + 1, r, rest))
        × (r.mem ≡ stored mem (buf + 1) (xs ++ (0x0a ∷ [])))
        × (r.echo ≡ xs ++ (0x0a ∷ []))
  unfolding read_syscall
  read_syscall_delete room =
      let r : Reading = record { i = 1; mem = mem; echo = [] } in
      let ok : (ltb 0x3ffffff count || ltb buf 0xa0000000 || ltb 0xa3ffffff buf) ≡ false =
        ground arith in
      (
        line buf xs r,
        rw ok (
            read_loop-delete buf count mem (xs ++ (0x0a ∷ rest)) (omega (arith, room))
            ∙ read_loop-line buf count r xs rest plain (omega (arith, room)) (omega (arith, small))
            ∙ ap (λ n. some (n, line buf xs r, rest)) (line-i buf xs r ∙ omega arith)),
        line-mem buf xs r,
        line-echo buf xs r,
      )

length-put_all : (count : ℕ) (mem : Mem) (buf : ℕ) → length (put_all count mem buf) ≡ count
unfolding put_all
length-put_all zero mem buf = refl
length-put_all (suc count) mem buf = omega (arith, length-put_all count mem (buf + 1))

get_elem?-put_all :
    (count : ℕ) (mem : Mem) (buf i : ℕ)
    → i < count
    → get_elem? (put_all count mem buf) i ≡ some (mem (buf + i))
unfolding put_all
get_elem?-put_all zero mem buf i below = absurd (omega (arith, below))
get_elem?-put_all (suc count) mem buf zero below = ap (λ a. some (mem a)) (omega arith)
get_elem?-put_all (suc count) mem buf (suc i) below =
    get_elem?-put_all count mem (buf + 1) i (omega (arith, below))
    ∙ ap (λ a. some (mem a)) (omega arith)

-- whether `write_syscall` refuses neither the start nor the end of the buffer
abbrev pub accepts : (buf count : ℕ) → Bool
accepts buf count =
    (leb buf 0xffffff || (leb 0xa0000000 buf && leb buf 0xa3ffffff))
    && (leb (u32 (buf + count)) 0xffffff
        || (leb 0xa0000000 (u32 (buf + count)) && leb (u32 (buf + count)) 0xa3ffffff))

pub write_syscall-accepts :
    (buf count : ℕ) (mem : Mem)
    → buf < 2 ^ 32
    → write_syscall 1 buf count mem ≡ (
        if accepts buf count
        then (count, put_all count (λ a. mem (u32 a)) buf)
        else (neg32 efault, []))
unfolding write_syscall
write_syscall-accepts buf count mem word = ground arith

-- `write_syscall` to the standard output accepts a buffer exactly if neither its start nor its end,
-- taken modulo 2 ^ 32, lies between the ROM and the SDRAM or behind the SDRAM. Then it returns the
-- count and puts out that many bytes, of which number `i` is the one `i` behind the buffer's start;
-- addresses wrap around. Else it returns `-EFAULT` and puts out nothing.
pub write_syscall_lem :
    (buf count : ℕ) (mem : Mem)
    → buf < 2 ^ 32
    → (out : List ℕ) × (write_syscall 1 buf count mem ≡ (
        if (leb buf 0xffffff || (leb 0xa0000000 buf && leb buf 0xa3ffffff))
          && (leb (u32 (buf + count)) 0xffffff
              || (leb 0xa0000000 (u32 (buf + count)) && leb (u32 (buf + count)) 0xa3ffffff))
        then (count, out)
        else (neg32 efault, [])))
      × (length out ≡ count)
      × ((i : ℕ) → i < count → get_elem? out i ≡ some (mem (u32 (buf + i))))
write_syscall_lem buf count mem word = (
  put_all count (λ a. mem (u32 a)) buf,
  write_syscall-accepts buf count mem word,
  length-put_all count (λ a. mem (u32 a)) buf,
  get_elem?-put_all count (λ a. mem (u32 a)) buf,
)
