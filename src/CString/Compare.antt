-- ===== src/CString/Compare.antt =====
-- tasks/libc/string: strcmp.c, strncmp.c and memcmp.c. The results are words with the bits of an
-- `int`.
use embedlab.Prelude.{
  ℕ, zero, suc, ◌+◌, ◌-◌, ◌%◌, ◌^◌, ◌<◌, ◌≤◌, ◌≡◌, ◌≢◌, ◌⊎◌, inl, inr, Bool, true, Bool-cases, ◌&&◌,
  not, Option, none, some, ◌==◌, if◌then◌else◌, arith, refl, ap, ap₂, subst, ◌∙◌,
}
use embedlab.CString.{Mem, IsString}

-- `a - b` of 32-bit words
abbrev pub sub32 : ℕ → ℕ → ℕ
sub32 a b = (2 ^ 32 + a - b) % 2 ^ 32

unfoldable pub strcmp : ℕ → Mem → ℕ → ℕ → Option ℕ
strcmp zero mem s1 s2 = none
strcmp (suc fuel) mem s1 s2 =
    let a = mem s1 in
    let b = mem s2 in
    let rest = strcmp fuel mem (s1 + 1) (s2 + 1) in
    if not (a == 0) && not (b == 0)
    then (if not (a == b) then some (sub32 a b) else rest)
    else some (sub32 a b)

unfoldable pub strncmp : (n : ℕ) → Mem → ℕ → ℕ → ℕ
strncmp zero mem s1 s2 = 0
strncmp (suc n) mem s1 s2 =
    let rest = strncmp n mem (s1 + 1) (s2 + 1) in
    if not (mem s1 == mem s2) then sub32 (mem s1) (mem s2) else if mem s1 == 0 then 0 else rest

unfoldable pub memcmp : (size : ℕ) → Mem → ℕ → ℕ → ℕ
memcmp zero mem s1 s2 = 0
memcmp (suc size) mem s1 s2 =
    let rest = memcmp size mem (s1 + 1) (s2 + 1) in
    if not (mem s1 == mem s2) then sub32 (mem s1) (mem s2) else rest

-- the characters `i` of the two arguments are the first that differ, or the terminators of equal
-- strings
pub record IsDecided (mem : Mem) (s1 s2 i : ℕ) : Type 0 where
  pub equal_before : (j : ℕ) → j < i → mem (s1 + j) ≡ mem (s2 + j)
  pub decided : (mem (s1 + i) ≢ mem (s2 + i)) ⊎ ((mem (s1 + i) ≡ 0) × (mem (s2 + i) ≡ 0))

IsDecided-suc :
    (mem : Mem) (s1 s2 i : ℕ)
    → mem s1 ≡ mem s2
    → IsDecided mem (s1 + 1) (s2 + 1) i
    → IsDecided mem s1 s2 (i + 1)
IsDecided-suc mem s1 s2 i here d =
    let e1 : s1 + 1 + i ≡ s1 + (i + 1) = omega arith in
    let e2 : s2 + 1 + i ≡ s2 + (i + 1) = omega arith in
    record {
      equal_before = equal;
      decided =
          subst (λ x. (mem x ≢ mem (s2 + (i + 1))) ⊎ ((mem x ≡ 0) × (mem (s2 + (i + 1)) ≡ 0))) e1
            (subst (λ y. (mem (s1 + 1 + i) ≢ mem y) ⊎ ((mem (s1 + 1 + i) ≡ 0) × (mem y ≡ 0))) e2
              d.decided);
    }
  where
    equal : (j : ℕ) → j < i + 1 → mem (s1 + j) ≡ mem (s2 + j)
    equal zero h = ap mem (omega arith) ∙ here ∙ ap mem (omega arith)
    equal (suc j) h =
        ap mem (omega arith) ∙ d.equal_before j (omega (arith, h)) ∙ ap mem (omega arith)

-- With the lengths of both strings and fuel for the shorter one, `strcmp` returns the difference of
-- the first characters that differ, or of the terminators.
pub strcmp_lem :
    (fuel : ℕ) (mem : Mem) (s1 s2 n m : ℕ)
    → IsString mem s1 n
    → IsString mem s2 m
    → n < fuel
    → (i : ℕ) × (i ≤ n)
      × (i ≤ m)
      × IsDecided mem s1 s2 i
      × (strcmp fuel mem s1 s2 ≡ some (sub32 (mem (s1 + i)) (mem (s2 + i))))
unfolding strcmp
strcmp_lem zero mem s1 s2 n m t u enough = absurd (omega (arith, enough))
strcmp_lem (suc fuel) mem s1 s2 zero m t u enough = (
  0,
  omega arith,
  omega arith,
  record {
    equal_before = λ j h. absurd (omega (arith, h));
    decided = elim (Bool-cases (mem s2 == 0)) [
      | inl z ↦ inr (ground arith, ground arith)
      | inr nz ↦ inl (ground arith)
    ];
  },
  ground arith,
)
strcmp_lem (suc fuel) mem s1 s2 (suc n) zero t u enough = (
  0,
  omega arith,
  omega arith,
  record { equal_before = λ j h. absurd (omega (arith, h)); decided = inl (ground arith) },
  ground arith,
)
strcmp_lem (suc fuel) mem s1 s2 (suc n) (suc m) t u enough = elim (Bool-cases (mem s1 == mem s2)) [
  | inr differ ↦ (
    0,
    omega arith,
    omega arith,
    record { equal_before = λ j h. absurd (omega (arith, h)); decided = inl (ground arith) },
    ground arith,
  )
  | inl same_char ↦
      let (i, le_n, le_m, d, run) =
        strcmp_lem fuel mem (s1 + 1) (s2 + 1) n m t.1 u.1 (omega (arith, enough)) in
      let run_on : strcmp (suc fuel) mem s1 s2 ≡ strcmp fuel mem (s1 + 1) (s2 + 1) = ground arith in
      (
        i + 1,
        omega (arith, le_n),
        omega (arith, le_m),
        IsDecided-suc mem s1 s2 i (ground arith) d,
        run_on ∙ run ∙ ap₂ (λ x y. some (sub32 (mem x) (mem y))) (omega arith) (omega arith),
      )
]

-- `memcmp` is 0 exactly if the bytes are equal.
abbrev pub equal_bytes : ℕ → Mem → ℕ → ℕ → Bool
equal_bytes zero mem s1 s2 = true
equal_bytes (suc n) mem s1 s2 = (mem s1 == mem s2) && equal_bytes n mem (s1 + 1) (s2 + 1)

-- Of two blocks of bytes, `memcmp` returns 0 exactly if they are equal.
pub memcmp_zero :
    (size : ℕ) (mem : Mem) (s1 s2 : ℕ)
    → ((a : ℕ) → mem a < 256)
    → (memcmp size mem s1 s2 == 0) ≡ equal_bytes size mem s1 s2
unfolding memcmp
memcmp_zero zero mem s1 s2 bytes = refl
memcmp_zero (suc size) mem s1 s2 bytes = elim (Bool-cases (mem s1 == mem s2)) [
  | inl e ↦ rw e (memcmp_zero size mem (s1 + 1) (s2 + 1) bytes)
  | inr ne ↦ rw ne (ground (arith, bytes s1, bytes s2))
]
