-- ===== src/Schedule.antt =====
-- kernel/sched/ub_test.c: ordering a task set by period, and the test of its utilisation.
-- `float` is a parameter: a type with the operations that the code uses.
pub mod Sorting
pub mod Test
use embedlab.Prelude.{
  ℕ, zero, suc, ◌+◌, ◌*◌, ◌-◌, ◌/◌, ◌^◌, ◌≤◌, ◌≡◌, Bool, true, false, Option, none, some, ◌||◌, ltb,
  leb, ◌==◌, if◌then◌else◌, List, [], ◌∷◌, u32, shl, take,
}

-- `struct task`; addresses are 32-bit words
pub record Task : Type 0 where
  pub lambda : ℕ
  pub arg : ℕ  -- `data`
  pub stack_pos : ℕ
  pub c : ℕ  -- `C`, the computation time
  pub t : ℕ  -- `T`, the period
  pub b : ℕ  -- `B`, the blocking time

-- Single precision: whole numbers up to 2 ^ 24 are exact, and so are their sums and comparisons.
pub record Float : Type 1 where
  pub F : Type 0
  pub from_uint : ℕ → F
  pub add : F → F → F
  pub le : F → F → Bool
  pub add_exact : (x y : ℕ) → x + y ≤ 2 ^ 24 → add (from_uint x) (from_uint y) ≡ from_uint (x + y)
  pub le_exact : (x y : ℕ) → x ≤ 2 ^ 24 → y ≤ 2 ^ 24 → le (from_uint x) (from_uint y) ≡ leb x y

-- The inner `for`, over `rounds` neighbours: the round with `j == num_tasks - 1` compares with, and
-- may swap in, the entry behind the task set.
unfoldable pub bubble : (rounds : ℕ) → List Task → List Task
bubble zero xs = xs
bubble (suc rounds) [] = []
bubble (suc rounds) (x ∷ []) = x ∷ []
bubble (suc rounds) (x ∷ y ∷ xs) =
    let swap = ltb y.t x.t in (if swap then y else x) ∷ bubble rounds ((if swap then x else y) ∷ xs)

-- the outer `for`
unfoldable pub passes : (count rounds : ℕ) → List Task → List Task
unfolding bubble
passes zero rounds xs = xs
passes (suc count) rounds xs = passes count rounds (bubble rounds xs)

module _ (f : Float) where
  open f use {F, from_uint, add, le}

  -- The sum over the tasks; both divisions are of `unsigned long`. `none` is a division by a period
  -- of 0, which an entry from behind the task set can have.
  unfoldable pub utilisation : F → List Task → Option F
  utilisation u [] = some u
  utilisation u (x ∷ []) =
      if x.t == 0 then none else some (add (add u (from_uint (x.c / x.t))) (from_uint (x.b / x.t)))
  utilisation u (x ∷ y ∷ xs) =
      let rest = utilisation (add u (from_uint (x.c / x.t))) (y ∷ xs) in
      if x.t == 0 then none else rest

  -- `num_tasks * ((2 << (1 / num_tasks)) - 1)`
  abbrev pub u_max : ℕ → ℕ
  u_max n = u32 (n * (shl 2 (1 / n) - 1))

  abbrev pub is_below : F → Option F → Option Bool
  is_below bound none = none
  is_below bound (some u) = some (le u bound)

  -- `mem` is the memory from the first task on, up to the entry behind the last one. The results
  -- are the answer, `none` if it divides by 0, and the memory afterwards.
  unfoldable pub assign_schedule : List Task → (num_tasks : ℕ) → Option Bool × List Task
  unfolding passes utilisation
  assign_schedule mem num_tasks =
      if num_tasks == 0 || num_tasks == 1
      then (some true, mem)
      else let sorted = passes num_tasks num_tasks mem in
        (
          is_below (from_uint (u_max num_tasks))
              (utilisation (from_uint 0) (take num_tasks sorted)),
          sorted,
        )
