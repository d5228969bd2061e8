-- ===== src/CString/Moved.antt =====
-- What the memory holds after a copy.
use embedlab.Prelude.{
  ℕ, zero, suc, ◌+◌, ◌-◌, ◌%◌, ◌^◌, ◌<◌, ◌≤◌, ◌≡◌, ◌≢◌, ◌⊎◌, inl, inr, ◌&&◌, ◌||◌, true, false,
  Bool-cases, some, ltb, leb, ◌==◌, if◌then◌else◌, update, u32, arith, refl, ap, ◌∙◌,
}
use embedlab.CString.{Mem, IsString, IsString-update}
use embedlab.CString.Move.{
  copy_up, copy_down, memmove, memset, strcpy, find_end, copy_to, strcat, pad, strncpy,
}

-- the memory with the `n` bytes from `s` on put at `d`
abbrev pub moved : ℕ → ℕ → ℕ → Mem → Mem
moved d s n mem a = if leb d a && ltb a (d + n) then mem (s + (a - d)) else mem a

copy_up_lem :
    (n i d s : ℕ) (mem : Mem) (a : ℕ)
    → d < s
    → copy_up n i d s mem a ≡ moved (d + i) (s + i) n mem a
unfolding copy_up
copy_up_lem zero i d s mem a lt = ground arith
copy_up_lem (suc n) i d s mem a lt = copy_up_lem n (i + 1) d s _ a lt ∙ ground arith

copy_down_lem : (n d s : ℕ) (mem : Mem) (a : ℕ) → s ≤ d → copy_down n d s mem a ≡ moved d s n mem a
unfolding copy_down
copy_down_lem zero d s mem a le = ground arith
copy_down_lem (suc n) d s mem a le = copy_down_lem n d s _ a le ∙ ground arith

-- `memmove` puts the `count` bytes that stood at `src` at `dest`, however the two overlap, and
-- changes no other byte.
pub memmove_lem :
    (dest src count : ℕ) (mem : Mem) (a : ℕ)
    → memmove dest src count mem a
      ≡ (if leb dest a && ltb a (dest + count) then mem (src + (a - dest)) else mem a)
unfolding memmove
memmove_lem dest src count mem a = elim (Bool-cases (ltb dest src)) [
  | inl lt ↦ rw lt (copy_up_lem count 0 dest src mem a (ground arith) ∙ ground arith)
  | inr ge ↦ rw ge (copy_down_lem count dest src mem a (ground arith))
]

-- `memset` stores the low byte of `c` in the `len` bytes from `to` on, and changes no other byte.
pub memset_lem :
    (to c len : ℕ) (mem : Mem) (a : ℕ)
    → memset to c len mem a ≡ (if leb to a && ltb a (to + len) then c % 2 ^ 8 else mem a)
unfolding memset
memset_lem to c zero mem a = ground arith
memset_lem to c (suc len) mem a =
    memset_lem (to + 1) c len (update mem to (c % 2 ^ 8)) a ∙ ground arith

-- With the target at or before the source, or behind its terminator, `strcpy` copies the string and
-- its terminator, and changes no other byte.
pub strcpy_lem :
    (fuel to from n : ℕ) (mem : Mem)
    → IsString mem from n
    → n < fuel
    → (to ≤ from) ⊎ (from + n < to)
    → (mem' : Mem) × (strcpy fuel to from mem ≡ some mem')
      × ((a : ℕ)
          → mem' a ≡ (if leb to a && ltb a (to + n + 1) then mem (from + (a - to)) else mem a))
unfolding strcpy
strcpy_lem zero to from n mem t enough apart = absurd (omega (arith, enough))
strcpy_lem (suc fuel) to from zero mem t enough apart = (
  update mem to (mem from),
  (let e : (mem from == 0) ≡ true = ground arith in rw e refl),
  λ a. ground arith,
)
strcpy_lem (suc fuel) to from (suc n) mem t enough apart =
    let ne : (mem from == 0) ≡ false = ground arith in
    let stored : Mem = update mem to (mem from) in
    let (mem', run, bytes) =
      strcpy_lem fuel (to + 1) (from + 1) n stored
        (IsString-update mem to (mem from) (from + 1) n (ground arith) t.1) (omega (arith, enough))
        (ground arith) in
    (mem', rw ne run, λ a. bytes a ∙ ground arith)

find_end_lem :
    (fuel s n : ℕ) (mem : Mem) → IsString mem s n → n < fuel → find_end fuel mem s ≡ some (s + n)
unfolding find_end
find_end_lem zero s n mem t enough = absurd (omega (arith, enough))
find_end_lem (suc fuel) s zero mem t enough = ground arith
find_end_lem (suc fuel) s (suc n) mem t enough =
    let ne : (mem s == 0) ≡ false = ground arith in
    rw ne (find_end_lem fuel (s + 1) n mem t.1 (omega (arith, enough)) ∙ ap some (omega arith))

-- `strcat` puts the string at `add` and its terminator where the terminator of the string at `s`
-- stood, and changes no other byte. The target must end before `add` or start behind it.
pub strcat_lem :
    (fuel s add n k : ℕ) (mem : Mem)
    → IsString mem s n
    → IsString mem add k
    → n < fuel
    → k < fuel
    → (s + n ≤ add) ⊎ (add + k < s + n)
    → (mem' : Mem) × (strcat fuel s add mem ≡ some mem')
      × ((a : ℕ)
          → mem' a
            ≡ (if leb (s + n) a && ltb a (s + n + k + 1) then mem (add + (a - (s + n))) else mem a))
unfolding strcat copy_to
strcat_lem fuel s add n k mem t u enough_s enough_add apart =
    let (mem', run, bytes) = strcpy_lem fuel (s + n) add k mem u enough_add apart in
    (mem', rw (find_end_lem fuel s n mem t enough_s) run, bytes)

-- the stores go on at address 0 behind the last address
pad_lem :
    (count to : ℕ) (mem : Mem) (a : ℕ)
    → a < 2 ^ 32
    → to + count ≤ 2 ^ 33
    → pad count to mem a ≡ (
        if (leb to a && ltb a (to + count))
          || (leb to (a + 2 ^ 32) && ltb (a + 2 ^ 32) (to + count))
        then 0
        else mem a)
unfolding pad
pad_lem zero to mem a word fits = ground arith
pad_lem (suc count) to mem a word fits =
    pad_lem count (to + 1) (update mem (u32 to) 0) a word (omega (arith, fits))
    ∙ elim (Bool-cases (ltb to (2 ^ 32))) [
      | inl low ↦
          let lt : to < 2 ^ 32 = ground arith in
          let bare : u32 to ≡ to = omega (arith, lt) in rw bare (ground arith)
      | inr high ↦
          let ge : 2 ^ 32 ≤ to = ground arith in
          let bare : u32 to ≡ to - 2 ^ 32 = omega (arith, ge, fits) in rw bare (ground arith)
    ]

-- A string with a terminator among the first `count` characters is copied by `strncpy` and filled up
-- with zero bytes to `count` of them; no other byte changes.
strncpy_short :
    (count to from n : ℕ) (mem : Mem) (a : ℕ)
    → IsString mem from n
    → n < count
    → (to ≤ from) ⊎ (from + n < to)
    → a < 2 ^ 32
    → to + count ≤ 2 ^ 32
    → strncpy count to from mem a ≡ (
        if leb to a && ltb a (to + count)
        then (if ltb a (to + n) then mem (from + (a - to)) else 0)
        else mem a)
unfolding strncpy
strncpy_short zero to from n mem a t enough apart word fits = absurd (omega (arith, enough))
strncpy_short (suc count) to from zero mem a t enough apart word fits =
    let e : (mem from == 0) ≡ true = ground arith in
    rw e (
      pad_lem count (to + 1) (update mem to (mem from)) a word (omega (arith, fits)) ∙ ground arith)
strncpy_short (suc count) to from (suc n) mem a t enough apart word fits =
    let ne : (mem from == 0) ≡ false = ground arith in
    rw ne (
      strncpy_short count (to + 1) (from + 1) n (update mem to (mem from)) a
        (IsString-update mem to (mem from) (from + 1) n (ground arith) t.1) (omega (arith, enough))
        (ground arith) word (omega (arith, fits))
      ∙ ground arith)

-- Without a terminator among the first `count` characters, `strncpy` stores 2 ^ 32 - 1 zero bytes
-- behind the copy, around the end of the address space: afterwards every byte of the memory but the
-- last one copied is 0, the rest of the copy included. The target must start at or before the
-- source or lie behind its terminator, and end at the end of the address space at the latest.
pub strncpy_runs_on :
    (count to from n : ℕ) (mem : Mem) (a : ℕ)
    → IsString mem from n
    → count ≤ n
    → (to ≤ from) ⊎ (from + n < to)
    → 0 < to + count
    → to + count ≤ 2 ^ 32
    → a < 2 ^ 32
    → a + 1 ≢ to + count
    → strncpy count to from mem a ≡ 0
unfolding strncpy
strncpy_runs_on zero to from n mem a t long apart above fits word other =
    pad_lem (2 ^ 32 - 1) to mem a word (omega (arith, fits)) ∙ ground (arith, fits, above, other)
strncpy_runs_on (suc count) to from zero mem a t long apart above fits word other =
    absurd (omega (arith, long))
strncpy_runs_on (suc count) to from (suc n) mem a t long apart above fits word other =
    let ne : (mem from == 0) ≡ false = ground arith in
    rw ne (
      strncpy_runs_on count (to + 1) (from + 1) n (update mem to (mem from)) a
        (IsString-update mem to (mem from) (from + 1) n (ground arith) t.1) (omega (arith, long))
        (ground arith) (omega arith) (omega (arith, fits)) word (ground (arith, other)))
