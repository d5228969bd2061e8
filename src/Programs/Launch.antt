-- ===== src/Programs/Launch.antt =====
-- `task_create` of a program whose task set passes the checks, while no mutex is locked.
use embedlab.Prelude.{ℕ, ◌≤◌, ◌≡◌, ap, ◌∙◌, true, false, some, List, take, length}
use embedlab.Kernel.{Kernel}
use embedlab.Mutex.{suspended}
use embedlab.Schedule.{Task, Float, assign_schedule}
use embedlab.Sched.{Addresses, allocate_tasks}
use embedlab.Proc.{task_create, stacks_valid, periods_valid}
use embedlab.Proc.Laws.{starts_lem}
use embedlab.System.Invariant.{WellFormed}
use embedlab.System.Boot.{allocate_tasks-WellFormed}
use embedlab.Programs.Creates.{Table}

-- The set `ts` that the test puts into order starts, and the mutexes stay as they are.
pub launched :
    (f : Float) (a : Addresses) (mem sorted ts : List Task) (k : Kernel) (i : ℕ)
    → length ts ≤ 62
    → stacks_valid (take (length ts) mem) ≡ true
    → periods_valid (take (length ts) mem) ≡ true
    → assign_schedule f mem (length ts) ≡ (some true, sorted)
    → take (length ts) sorted ≡ ts
    → Table i k.gt_mutex
    → (k' : Kernel) × (task_create f a mem (length ts) k ≡ some (suspended, k'))
      × WellFormed (length ts) k'
      × (k'.gt_mutex ≡ k.gt_mutex)
launched f a mem sorted ts k i few stacks periods scheduled first t =
    let off : Kernel = record k { irq_on = false } in
    let n = length ts in
    let (k', run, w, same) = allocate_tasks-WellFormed a ts few off t.unlocked t.no_waiters in
    (
      k',
      starts_lem f a mem n k k' few stacks periods (ap (λ r. r.0) scheduled) (
          ap (λ r. allocate_tasks a (take n r.1) n off) scheduled
          ∙ (ap (λ xs. allocate_tasks a xs n off) first ∙ run)),
      w,
      same,
    )
