-- ===== src/CString/Move.antt =====
-- tasks/libc/string: memmove.c, memset.c, strcpy.c, strcat.c, strncpy.c and strncat.c. The functions
-- return their first argument, which the models leave out; the result is the memory.
use embedlab.Prelude.{
  ℕ, zero, suc, ◌+◌, ◌-◌, ◌^◌, Option, none, some, ltb, ◌==◌, if◌then◌else◌, update, u32, u8,
}
use embedlab.CString.{Mem}

-- `for (i = 0; i != count; i++)`, with `rounds` rounds left
unfoldable pub copy_up : (rounds : ℕ) → (i : ℕ) → ℕ → ℕ → Mem → Mem
copy_up zero i d s mem = mem
copy_up (suc rounds) i d s mem = copy_up rounds (i + 1) d s (update mem (d + i) (mem (s + i)))

-- `for (i = count; i != 0; i--)`
unfoldable pub copy_down : (i : ℕ) → ℕ → ℕ → Mem → Mem
copy_down zero d s mem = mem
copy_down (suc i) d s mem = copy_down i d s (update mem (d + i) (mem (s + i)))

unfoldable pub memmove : ℕ → ℕ → ℕ → Mem → Mem
unfolding copy_up copy_down
memmove dest src count mem =
    if ltb dest src then copy_up count 0 dest src mem else copy_down count dest src mem

unfoldable pub memcpy : ℕ → ℕ → ℕ → Mem → Mem
unfolding memmove
memcpy dest src count mem = memmove dest src count mem

-- the store truncates `c` to a byte
unfoldable pub memset : ℕ → ℕ → ℕ → Mem → Mem
memset to c zero mem = mem
memset to c (suc len) mem = memset (to + 1) c len (update mem to (u8 c))

-- `while ((*to++ = *from++) != 0)`
unfoldable pub strcpy : ℕ → ℕ → ℕ → Mem → Option Mem
strcpy zero to from mem = none
strcpy (suc fuel) to from mem =
    let stored = update mem to (mem from) in
    let rest = strcpy fuel (to + 1) (from + 1) stored in if mem from == 0 then some stored else rest

-- `while (*s) s++`
unfoldable pub find_end : ℕ → Mem → ℕ → Option ℕ
find_end zero mem s = none
find_end (suc fuel) mem s =
    let rest = find_end fuel mem (s + 1) in if mem s == 0 then some s else rest

-- the second loop of `strcat` is that of `strcpy`
unfoldable pub copy_to : ℕ → ℕ → Mem → Option ℕ → Option Mem
unfolding strcpy
copy_to fuel add mem none = none
copy_to fuel add mem (some s) = strcpy fuel s add mem

unfoldable pub strcat : ℕ → ℕ → ℕ → Mem → Option Mem
unfolding find_end copy_to
strcat fuel s add mem = copy_to fuel add mem (find_end fuel mem s)

-- the second loop of `strncpy`: `count` more zero bytes, around the end of the address space
unfoldable pub pad : ℕ → ℕ → Mem → Mem
pad zero to mem = mem
pad (suc count) to mem = pad count (to + 1) (update mem (u32 to) 0)

-- The first loop decrements the counter before it tests the character. When the counter runs out
-- there, it wraps around to the greatest `size_t`, and the second loop stores as many zero bytes.
unfoldable pub strncpy : (count : ℕ) → ℕ → ℕ → Mem → Mem
unfolding pad
strncpy zero to from mem = pad (2 ^ 32 - 1) to mem
strncpy (suc count) to from mem =
    let stored = update mem to (mem from) in
    let rest = strncpy count (to + 1) (from + 1) stored in
    if mem from == 0 then pad count (to + 1) stored else rest

-- the `do` of `strncat`, and the store behind it
unfoldable pub append_from : (n : ℕ) → ℕ → ℕ → Mem → Mem
append_from zero d s mem = update mem d 0
append_from (suc n) d s mem =
    let stored = update mem d (mem s) in
    let rest = append_from n (d + 1) (s + 1) stored in
    if mem s == 0 then update stored d 0 else rest

unfoldable pub append_at : (n : ℕ) → ℕ → Mem → Option ℕ → Option Mem
append_at n src mem none = none
append_at n src mem (some d) = some (append_from n d src mem)

unfoldable pub strncat : ℕ → (dst src n : ℕ) → Mem → Option Mem
strncat fuel dst src n mem =
    if n == 0 then some mem else append_at n src mem (find_end fuel mem dst)
