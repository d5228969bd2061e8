-- ===== src/CString/Found.antt =====
-- What the searching functions of the C library find.
use embedlab.Prelude.{
  ℕ, zero, suc, ◌+◌, ◌-◌, ◌<◌, ◌≡◌, inl, inr, Bool, true, false, Bool-cases, ◌||◌, not, Option,
  none, some, ◌==◌, arith, refl, ap, subst, ◌∙◌,
}
use embedlab.CString.{Mem, IsString, shifted, strlen_lem}
use embedlab.CString.Compare.{memcmp_zero, equal_bytes}
use embedlab.CString.Search.{
  choose, strchr, in_set, span_from, strspn, in_set_or_end, cspan_from, strcspn, strstr_loop,
  strstr_in, strstr,
}

-- The pointer to the first of the `n` characters from `s` on that passes the test, if any.
pub data FirstOf (test : ℕ → Bool) (s n : ℕ) : Option ℕ → Type 0 where
  nowhere : ((j : ℕ) → j < n → test (s + j) ≡ false) → FirstOf test s n none
  at :
      (i : ℕ)
      → i < n
      → test (s + i) ≡ true
      → ((j : ℕ) → j < i → test (s + j) ≡ false)
      → FirstOf test s n (some (s + i))

module _ (test : ℕ → Bool) (s n : ℕ) where
  FirstOf-here : test s ≡ true → FirstOf test s (suc n) (some s)
  FirstOf-here yes_s =
      subst (λ p. FirstOf test s (suc n) (some p)) (omega arith)
        (at 0 (omega arith) (subst (λ p. test p ≡ true) (omega arith) yes_s)
          (λ j h. absurd (omega (arith, h))))

  FirstOf-later :
      {o : Option ℕ} → test s ≡ false → FirstOf test (s + 1) n o → FirstOf test s (suc n) o
  FirstOf-later no_s (nowhere f) =
      nowhere (λ j h. shifted (λ p. test p ≡ false) s n no_s f j (omega (arith, h)))
  FirstOf-later no_s (at i lt t f) =
      subst (λ p. FirstOf test s (suc n) (some p)) (omega arith)
        (at (i + 1) (omega (arith, lt)) (subst (λ p. test p ≡ true) (omega arith) t)
          (shifted (λ p. test p ≡ false) s i no_s f))

-- `strchr` finds the first occurrence of the character; the terminator counts as one.
strchr_lem :
    (fuel : ℕ) (mem : Mem) (s c n : ℕ)
    → IsString mem s n
    → n < fuel
    → (r : Option ℕ) × FirstOf (λ p. mem p == c) s (suc n) r × (strchr fuel mem s c ≡ some r)
unfolding strchr
strchr_lem zero mem s c n t enough = absurd (omega (arith, enough))
strchr_lem (suc fuel) mem s c zero t enough = elim (Bool-cases (mem s == c)) [
  | inl here ↦ (some s, FirstOf-here (λ p. mem p == c) s 0 here, rw here refl)
  | inr no_s ↦ (
    none,
    FirstOf-later (λ p. mem p == c) s 0 no_s (nowhere (λ j h. absurd (omega (arith, h)))),
    (let z : (mem s == 0) ≡ true = ground arith in rw (no_s, z) refl),
  )
]
strchr_lem (suc fuel) mem s c (suc n) t enough = elim (Bool-cases (mem s == c)) [
  | inl here ↦ (some s, FirstOf-here (λ p. mem p == c) s (suc n) here, rw here refl)
  | inr no_s ↦
      let (r, first, run) = strchr_lem fuel mem (s + 1) c n t.1 (omega (arith, enough)) in
      let nz : (mem s == 0) ≡ false = ground arith in
      (r, FirstOf-later (λ p. mem p == c) s (suc n) no_s first, rw (no_s, nz) run)
]

-- whether `c` is one of the `m` characters from `s` on
abbrev pub member : Mem → (s m c : ℕ) → Bool
member mem s zero c = false
member mem s (suc m) c = (mem s == c) || member mem (s + 1) m c

in_set_lem :
    (fuel : ℕ) (mem : Mem) (s c m : ℕ)
    → IsString mem s m
    → m < fuel
    → in_set fuel mem s c ≡ some (member mem s m c)
unfolding in_set
in_set_lem zero mem s c m t enough = absurd (omega (arith, enough))
in_set_lem (suc fuel) mem s c zero t enough = ground arith
in_set_lem (suc fuel) mem s c (suc m) t enough =
    let rest = in_set_lem fuel mem (s + 1) c m t.1 (omega (arith, enough)) in ground (arith, rest)

in_set_or_end_lem :
    (fuel : ℕ) (mem : Mem) (s c m : ℕ)
    → IsString mem s m
    → m < fuel
    → in_set_or_end fuel mem s c ≡ some (member mem s m c || (c == 0))
unfolding in_set_or_end
in_set_or_end_lem zero mem s c m t enough = absurd (omega (arith, enough))
in_set_or_end_lem (suc fuel) mem s c zero t enough = ground arith
in_set_or_end_lem (suc fuel) mem s c (suc m) t enough =
    let rest = in_set_or_end_lem fuel mem (s + 1) c m t.1 (omega (arith, enough)) in
    ground (arith, rest)

-- the terminator is no character of a string
member-terminator : (mem : Mem) (s m : ℕ) → IsString mem s m → member mem s m 0 ≡ false
member-terminator mem s zero t = refl
member-terminator mem s (suc m) t =
    let rest = member-terminator mem (s + 1) m t.1 in ground (arith, rest)

span_from-step :
    (f fuel : ℕ) (mem : Mem) (p s2 m : ℕ) (b : Bool)
    → IsString mem s2 m
    → m < fuel
    → member mem s2 m (mem p) ≡ b
    → span_from (suc f) fuel mem p s2 ≡ choose (some b) (span_from f fuel mem (p + 1) s2) (some p)
unfolding span_from
span_from-step f fuel mem p s2 m b u inner e =
    ap (λ o. choose o (span_from f fuel mem (p + 1) s2) (some p))
      (in_set_lem fuel mem s2 (mem p) m u inner ∙ ap some e)

cspan_from-step :
    (f fuel : ℕ) (mem : Mem) (p s2 m : ℕ) (b : Bool)
    → IsString mem s2 m
    → m < fuel
    → (member mem s2 m (mem p) || (mem p == 0)) ≡ b
    → cspan_from (suc f) fuel mem p s2 ≡ choose (some b) (some p) (cspan_from f fuel mem (p + 1) s2)
unfolding cspan_from
cspan_from-step f fuel mem p s2 m b u inner e =
    ap (λ o. choose o (some p) (cspan_from f fuel mem (p + 1) s2))
      (in_set_or_end_lem fuel mem s2 (mem p) m u inner ∙ ap some e)

abbrev pub outside : Mem → (s m : ℕ) → ℕ → Bool
outside mem s m p = not (member mem s m (mem p))

-- `strspn` returns the distance to the first character that is not in the set; the terminator of
-- `s1` is none of the set.
strspn_lem :
    (fuel : ℕ) (mem : Mem) (s1 s2 n m : ℕ)
    → IsString mem s1 n
    → IsString mem s2 m
    → n < fuel
    → m < fuel
    → (p : ℕ) × FirstOf (outside mem s2 m) s1 (suc n) (some p)
      × (strspn fuel mem s1 s2 ≡ some (p - s1))
unfolding strspn
strspn_lem fuel mem s1 s2 n m t u enough inner =
    let (p, first, run) = span fuel s1 n t enough in (p, first, rw run refl)
  where
    span :
        (f s n : ℕ)
        → IsString mem s n
        → n < f
        → (p : ℕ) × FirstOf (outside mem s2 m) s (suc n) (some p)
          × (span_from f fuel mem s s2 ≡ some p)
    span zero s n t h = absurd (omega (arith, h))
    span (suc f) s zero t h =
        let e : member mem s2 m (mem s) ≡ false =
          ap (member mem s2 m) t ∙ member-terminator mem s2 m u in
        (
          s,
          FirstOf-here (outside mem s2 m) s 0 (ap not e),
          span_from-step f fuel mem s s2 m false u inner e,
        )
    span (suc f) s (suc n) t h = elim (Bool-cases (member mem s2 m (mem s))) [
      | inr e ↦ (
        s,
        FirstOf-here (outside mem s2 m) s (suc n) (ap not e),
        span_from-step f fuel mem s s2 m false u inner e,
      )
      | inl e ↦
          let (p, first, run) = span f (s + 1) n t.1 (omega (arith, h)) in
          (
            p,
            FirstOf-later (outside mem s2 m) s (suc n) (ap not e) first,
            span_from-step f fuel mem s s2 m true u inner e ∙ run,
          )
    ]

abbrev pub ends_span : Mem → (s m : ℕ) → ℕ → Bool
ends_span mem s m p = member mem s m (mem p) || (mem p == 0)

-- `strcspn` returns the distance to the first character that is in the set, or to the terminator of
-- `s1` if there is none.
strcspn_lem :
    (fuel : ℕ) (mem : Mem) (s1 s2 n m : ℕ)
    → IsString mem s1 n
    → IsString mem s2 m
    → n < fuel
    → m < fuel
    → (p : ℕ) × FirstOf (ends_span mem s2 m) s1 (suc n) (some p)
      × (strcspn fuel mem s1 s2 ≡ some (p - s1))
unfolding strcspn
strcspn_lem fuel mem s1 s2 n m t u enough inner =
    let (p, first, run) = span fuel s1 n t enough in (p, first, rw run refl)
  where
    span :
        (f s n : ℕ)
        → IsString mem s n
        → n < f
        → (p : ℕ) × FirstOf (ends_span mem s2 m) s (suc n) (some p)
          × (cspan_from f fuel mem s s2 ≡ some p)
    span zero s n t h = absurd (omega (arith, h))
    span (suc f) s zero t h =
        let e : ends_span mem s2 m s ≡ true = ground arith in
        (
          s,
          FirstOf-here (ends_span mem s2 m) s 0 e,
          cspan_from-step f fuel mem s s2 m true u inner e,
        )
    span (suc f) s (suc n) t h = elim (Bool-cases (ends_span mem s2 m s)) [
      | inl e ↦ (
        s,
        FirstOf-here (ends_span mem s2 m) s (suc n) e,
        cspan_from-step f fuel mem s s2 m true u inner e,
      )
      | inr e ↦
          let (p, first, run) = span f (s + 1) n t.1 (omega (arith, h)) in
          (
            p,
            FirstOf-later (ends_span mem s2 m) s (suc n) e first,
            cspan_from-step f fuel mem s s2 m false u inner e ∙ run,
          )
    ]

-- `strstr` finds the first place in the haystack where all characters of the needle stand; with a
-- needle longer than the haystack it finds nothing.
pub strstr_lem :
    (fuel : ℕ) (mem : Mem) (s1 s2 n m : ℕ)
    → ((a : ℕ) → mem a < 256)
    → IsString mem s1 n
    → IsString mem s2 m
    → n < fuel
    → m < fuel
    → (r : Option ℕ) × FirstOf (λ p. equal_bytes m mem p s2) s1 (n + 1 - m) r
      × (strstr fuel mem s1 s2 ≡ some r)
unfolding strstr strstr_in
strstr_lem fuel mem s1 s2 n m bytes t u enough_n enough_m = (
  strstr_loop (n + 1 - m) mem s1 s2 m,
  search (n + 1 - m) s1,
  rw (strlen_lem fuel mem s1 n t enough_n, strlen_lem fuel mem s2 m u enough_m) refl,
)
  where
    search : (k s : ℕ) → FirstOf (λ p. equal_bytes m mem p s2) s k (strstr_loop k mem s s2 m)
    search zero s = unfold strstr_loop in nowhere (λ j h. absurd (omega (arith, h)))
    search (suc k) s = elim (Bool-cases (equal_bytes m mem s s2)) [
      | inl e ↦
          unfold strstr_loop in
          rw (memcmp_zero m mem s s2 bytes, e) (FirstOf-here (λ p. equal_bytes m mem p s2) s k e)
      | inr e ↦
          unfold strstr_loop in
          rw (memcmp_zero m mem s s2 bytes, e)
            (FirstOf-later (λ p. equal_bytes m mem p s2) s k e (search k (s + 1)))
    ]
