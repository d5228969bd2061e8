-- ===== src/Schedule/Test.antt =====
-- What the test of `assign_schedule` decides.
use embedlab.Prelude.{
  ℕ, zero, suc, ◌+◌, ◌*◌, ◌/◌, ◌%◌, ◌^◌, ◌<◌, ◌≤◌, ◌≡◌, refl, ◌∙◌, ap, true, false, some, ltb, leb,
  ◌==◌, ◌||◌, List, [], ◌∷◌, length, All, take, arith, Bool-cases, inl, inr,
}
use embedlab.Schedule.{Task, Float, bubble, passes, utilisation, assign_schedule}

-- the sum that the code compares, over whole numbers: each quotient is rounded down, and the last
-- task's blocking counts
abbrev pub total : ℕ → List Task → ℕ
total u [] = u
total u (x ∷ []) = u + x.c / x.t + x.b / x.t
total u (x ∷ y ∷ xs) = total (u + x.c / x.t) (y ∷ xs)

total-le : (u : ℕ) (xs : List Task) → u ≤ total u xs
total-le u [] = omega arith
total-le u (x ∷ []) = omega arith
total-le u (x ∷ y ∷ xs) = omega (arith, total-le (u + x.c / x.t) (y ∷ xs))

div-le-one : (a b : ℕ) → 0 < b → a ≤ b → a / b ≤ 1
div-le-one a b p h = grind arith

div-eq-zero : (a b : ℕ) → a < b → a / b ≡ 0
div-eq-zero a b h = grind arith

-- no period of the entries is 0
abbrev pub HavePeriods : List Task → Type 0
HavePeriods xs = All (λ (x : Task). 0 < x.t) xs

module _ (f : Float) where
  open f use {from_uint, add_exact, le_exact}

  utilisation-total :
      (u : ℕ) (xs : List Task)
      → HavePeriods xs
      → total u xs ≤ 2 ^ 24
      → utilisation f (from_uint u) xs ≡ some (from_uint (total u xs))
  unfolding utilisation
  utilisation-total u [] a h = refl
  utilisation-total u (x ∷ []) a h =
      let nz : (x.t == 0) ≡ false = ground (arith, a.0) in
      rw nz (
        ap (λ z. some (f.add z (from_uint (x.b / x.t)))) (add_exact u (x.c / x.t) (omega arith))
        ∙ ap some (add_exact (u + x.c / x.t) (x.b / x.t) h))
  utilisation-total u (x ∷ y ∷ xs) a h =
      let nz : (x.t == 0) ≡ false = ground (arith, a.0) in
      rw nz (
        ap (λ z. utilisation f z (y ∷ xs))
          (add_exact u (x.c / x.t) (omega (arith, total-le (u + x.c / x.t) (y ∷ xs))))
        ∙ utilisation-total (u + x.c / x.t) (y ∷ xs) a.1 h)

  -- For two tasks and more the entries are sorted, and the answer is whether the rounded sum over
  -- the first `n` of them is at most `n`, as long as the sum is exact in a float and no period in it
  -- is 0.
  pub assign_schedule_lem :
      (mem : List Task) (n : ℕ)
      → 1 < n
      → n ≤ 62
      → HavePeriods (take n (passes n n mem))
      → total 0 (take n (passes n n mem)) ≤ 2 ^ 24
      → assign_schedule f mem n ≡ (some (leb (total 0 (take n (passes n n mem))) n), passes n n mem)
  unfolding assign_schedule
  assign_schedule_lem mem n many few periods exact =
      let small : (n == 0 || n == 1) ≡ false = ground arith in
      let one : 1 / n ≡ 0 = div-eq-zero 1 n many in
      let bound : n * 1 % 2 ^ 32 ≡ n = omega arith in
      rw
        (
          small,
          utilisation-total 0 (take n (passes n n mem)) periods exact,
          one,
          bound,
          le_exact (total 0 (take n (passes n n mem))) n exact (omega arith),
        )
        refl

-- the entry has room for its computation in its period, and blocks for less than a period
abbrev pub Fits : Task → Type 0
Fits x = (0 < x.t) × (x.c ≤ x.t) × (x.b < x.t)

module _ (P : Task → Type 0) where
  bubble-All : (n : ℕ) (xs : List Task) → All P xs → All P (bubble n xs)
  unfolding bubble
  bubble-All zero xs a = a
  bubble-All (suc n) [] a = a
  bubble-All (suc n) (x ∷ []) a = a
  bubble-All (suc n) (x ∷ y ∷ xs) a = elim (Bool-cases (ltb y.t x.t)) [
    | inl swap ↦ rw swap (a.1.0, bubble-All n (x ∷ xs) (a.0, a.1.1))
    | inr keep ↦ rw keep (a.0, bubble-All n (y ∷ xs) a.1)
  ]

  passes-All : (count n : ℕ) (xs : List Task) → All P xs → All P (passes count n xs)
  unfolding passes
  passes-All zero n xs a = a
  passes-All (suc count) n xs a = passes-All count n (bubble n xs) (bubble-All n xs a)

  take-All : (n : ℕ) (xs : List Task) → All P xs → All P (take n xs)
  take-All zero xs a = tt
  take-All (suc n) [] a = tt
  take-All (suc n) (x ∷ xs) a = (a.0, take-All n xs a.1)

total_bound : (u : ℕ) (xs : List Task) → All Fits xs → total u xs ≤ u + length xs
total_bound u [] a = omega arith
total_bound u (x ∷ []) a = omega (arith, div-le-one x.c x.t a.0.0 a.0.1, div-eq-zero x.b x.t a.0.2)
total_bound u (x ∷ y ∷ xs) a =
    omega (arith, total_bound (u + x.c / x.t) (y ∷ xs) a.1, div-le-one x.c x.t a.0.0 a.0.1)

length-take-le : (n : ℕ) (xs : List Task) → length (take n xs) ≤ n
length-take-le zero xs = omega arith
length-take-le (suc n) [] = omega arith
length-take-le (suc n) (x ∷ xs) = omega (arith, length-take-le n xs)

Fits-HavePeriods : (xs : List Task) → All Fits xs → HavePeriods xs
Fits-HavePeriods [] a = tt
Fits-HavePeriods (x ∷ xs) a = (a.0.0, Fits-HavePeriods xs a.1)

-- A task set of 2 to 62 tasks passes, whatever its utilisation, if each entry of the memory that is
-- touched, that behind the set included, has a period above 0, a computation time of at most the
-- period, and a blocking time below it.
pub assign_schedule_vacuous :
    (f : Float) (mem : List Task) (n : ℕ)
    → 1 < n
    → n ≤ 62
    → All Fits mem
    → (assign_schedule f mem n).0 ≡ some true
assign_schedule_vacuous f mem n many few fit =
    let ts = take n (passes n n mem) in
    let fit_ts = take-All Fits n (passes n n mem) (passes-All Fits n n mem fit) in
    let small = total_bound 0 ts fit_ts in
    let short = length-take-le n (passes n n mem) in
    ap (λ r. r.0)
      (assign_schedule_lem f mem n many few (Fits-HavePeriods ts fit_ts)
        (omega (arith, small, short)))
    ∙ ap some (ground (arith, small, short))
