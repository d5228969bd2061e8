-- ===== src/Proc/Checks.antt =====
-- What each check of `task_create` leads to, and what is left of the caller's array.
use mathlib.Core.List.{Perm}
use mathlib.Core.List.Perm
use embedlab.Schedule.Sorting.{passes-perm}
use embedlab.Prelude.{◌⊎◌, Bool, ◌||◌, not, Bool-cases}
use embedlab.Kernel.{and_then}
use embedlab.Mutex.{returned_inj}
use embedlab.Prelude.{
  ℕ, ◌≡◌, refl, ◌∙◌, sym, true, false, Option, none, some, List, arith, ◌==◌, ltb, if◌then◌else◌,
  take, neg32, einval, efault, esched, inl, inr,
}
use embedlab.Kernel.{Kernel, pure}
use embedlab.Mutex.{Exit, returned, suspended}
use embedlab.Schedule.{Task, Float, passes, assign_schedule}
use embedlab.Sched.{Addresses, allocate_tasks}
use embedlab.Proc.{on_schedule, task_create, tasks_left, stacks_valid, periods_valid}

nothing_back :
    (r : ℕ) (k' : Kernel) (o : Option (Exit × Kernel)) → o ≡ none → ¬ (o ≡ some (returned r, k'))
nothing_back r k' o e h = cc

answers : (o : Option Bool) → (o ≡ none) ⊎ ((o ≡ some true) ⊎ (o ≡ some false))
answers none = inl refl
answers (some true) = inr (inl refl)
answers (some false) = inr (inr refl)

suspends :
    (r : ℕ) (k' : Kernel) (o : Option (Unit {0} × Kernel))
    → ¬ (and_then o (λ _. pure suspended) ≡ some (returned r, k'))
suspends r k' none h = cc
suspends r k' (some (u, s)) h = cc

module _ (f : Float) (a : Addresses) (mem : List Task) (n : ℕ) (k : Kernel) where
  refused_many : ltb 62 n ≡ true → task_create f a mem n k ≡ some (returned (neg32 einval), k)
  unfolding task_create
  refused_many many = rw many refl

  refused_stack :
      ltb 62 n ≡ false
      → stacks_valid (take n mem) ≡ false
      → task_create f a mem n k ≡ some (returned (neg32 efault), k)
  unfolding task_create
  refused_stack few bad = rw (few, bad) refl

  refused_period :
      ltb 62 n ≡ false
      → stacks_valid (take n mem) ≡ true
      → periods_valid (take n mem) ≡ false
      → task_create f a mem n k ≡ some (returned (neg32 esched), k)
  unfolding task_create
  refused_period few ok bad = rw (few, ok, bad) refl

  refused_schedule :
      ltb 62 n ≡ false
      → stacks_valid (take n mem) ≡ true
      → periods_valid (take n mem) ≡ true
      → (assign_schedule f mem n).0 ≡ some false
      → task_create f a mem n k ≡ some (returned (neg32 esched), k)
  unfolding task_create on_schedule
  refused_schedule few ok okp bad = rw (few, ok, okp, bad) refl

  divides :
      ltb 62 n ≡ false
      → stacks_valid (take n mem) ≡ true
      → periods_valid (take n mem) ≡ true
      → (assign_schedule f mem n).0 ≡ none
      → task_create f a mem n k ≡ none
  unfolding task_create on_schedule
  divides few ok okp bad = rw (few, ok, okp, bad) refl

  switches :
      ltb 62 n ≡ false
      → stacks_valid (take n mem) ≡ true
      → periods_valid (take n mem) ≡ true
      → (assign_schedule f mem n).0 ≡ some true
      → task_create f a mem n k
        ≡ and_then
            (allocate_tasks a (take n (assign_schedule f mem n).1) n (record k { irq_on = false }))
            (λ _. pure suspended)
  unfolding task_create on_schedule
  switches few ok okp good = rw (few, ok, okp, good) refl

  -- a call that comes back to its caller
  pub comes_back :
      (r : ℕ) (k' : Kernel)
      → task_create f a mem n k ≡ some (returned r, k')
      → (k' ≡ k)
        × (r ≡ (
            if ltb 62 n
            then neg32 einval
            else if stacks_valid (take n mem)
            then neg32 esched
            else neg32 efault))
  comes_back r k' h = elim (Bool-cases (ltb 62 n)) [
    | inl many ↦
        let (state, code) = returned_inj r k' _ _ (sym (refused_many many) ∙ h) in
        (state, code ∙ rw many refl)
    | inr few ↦ elim (Bool-cases (stacks_valid (take n mem))) [
      | inr bad ↦
          let (state, code) = returned_inj r k' _ _ (sym (refused_stack few bad) ∙ h) in
          (state, code ∙ rw (few, bad) refl)
      | inl ok ↦ elim (Bool-cases (periods_valid (take n mem))) [
        | inr bad ↦
            let (state, code) = returned_inj r k' _ _ (sym (refused_period few ok bad) ∙ h) in
            (state, code ∙ rw (few, ok) refl)
        | inl okp ↦ elim (answers (assign_schedule f mem n).0) [
          | inl none_there ↦
              absurd (nothing_back r k' (task_create f a mem n k) (divides few ok okp none_there) h)
          | inr (inr bad) ↦
              let (state, code) =
                returned_inj r k' _ _ (sym (refused_schedule few ok okp bad) ∙ h) in
              (state, code ∙ rw (few, ok) refl)
          | inr (inl good) ↦ absurd (
              suspends r k'
                (allocate_tasks a (take n (assign_schedule f mem n).1) n
                  (record k { irq_on = false }))
                (sym (switches few ok okp good) ∙ h))
        ]
      ]
    ]
  ]

  pub tasks_left_lem :
      (tasks_left f mem n ≡ (
        if ltb 62 n
          || (not (stacks_valid (take n mem)) || not (periods_valid (take n mem)))
          || ltb n 2
        then mem
        else passes n n mem))
      × Perm (tasks_left f mem n) mem
  unfolding tasks_left assign_schedule
  tasks_left_lem =
      elim (Bool-cases
        (ltb 62 n || (not (stacks_valid (take n mem)) || not (periods_valid (take n mem))))) [
          | inl e ↦ (rw e refl, rw e (Perm.refl mem))
          | inr e ↦ elim (Bool-cases (n == 0 || n == 1)) [
            | inl few ↦
                let two : ltb n 2 ≡ true = ground (arith, few) in
                (rw (e, few, two) refl, rw (e, few) (Perm.refl mem))
            | inr more ↦
                let two : ltb n 2 ≡ false = ground (arith, more) in
                (rw (e, more, two) refl, rw (e, more) (passes-perm n n mem))
          ]
        ]
