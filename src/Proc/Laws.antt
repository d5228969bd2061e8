-- ===== src/Proc/Laws.antt =====
-- What `task_create` and `event_wait` refuse, and what they let through.
use embedlab.Prelude.{is_some, has}
use embedlab.Kernel.{in_dev_wait}
use embedlab.RunQueue.Laws.{IsValid}
use embedlab.Dispatch.Laws.{switched, IsNext}
use embedlab.Device.Queue.{Sleepers, Joined, dev_wait_lem}
use embedlab.Prelude.{
  ℕ, ◌+◌, ◌<◌, ◌≤◌, ◌≡◌, refl, ◌∙◌, ap, sym, true, false, some, List, length, arith, ◌==◌, ltb,
  if◌then◌else◌, take, get_elem?,
}
use embedlab.Kernel.{Kernel}
use embedlab.Mutex.{suspended}
use embedlab.Device.{dev_wait}
use embedlab.Schedule.{Task, Float, assign_schedule}
use embedlab.Sched.{Addresses, task_tcb, allocate_tasks}
use embedlab.Sched.Laws.{allocate_tasks_lem}
use embedlab.Proc.{on_schedule, task_create, event_wait, stacks_valid, periods_valid}

module _ (f : Float) (a : Addresses) (mem : List Task) (n : ℕ) (k : Kernel) where
  pub starts_lem :
      (k' : Kernel)
      → (n ≤ 62)
      → stacks_valid (take n mem) ≡ true
      → periods_valid (take n mem) ≡ true
      → (assign_schedule f mem n).0 ≡ some true
      → allocate_tasks a (take n (assign_schedule f mem n).1) n (record k { irq_on = false })
        ≡ some (tt, k')
      → task_create f a mem n k ≡ some (suspended, k')
  unfolding task_create on_schedule
  starts_lem k' few ok okp fits alloc =
      let small : ltb 62 n ≡ false = ground arith in rw (small, ok, okp, fits, alloc) refl

  -- A task set that passes all checks, the test of the schedule without a division by 0, starts: the call does not return to its caller, the first
  -- task of the sorted set runs (the idle task if the set is empty), and task `i` of the sorted set
  -- has the TCB of priority `i + 1`.
  pub task_create_starts :
      n ≤ 62
      → stacks_valid (take n mem) ≡ true
      → periods_valid (take n mem) ≡ true
      → (assign_schedule f mem n).0 ≡ some true
      → length (take n (assign_schedule f mem n).1) ≡ n
      → (k' : Kernel) × (task_create f a mem n k ≡ some (suspended, k'))
        × (k'.cur_tcb ≡ some (if n == 0 then 63 else 1))
        × ((i : ℕ) (task : Task)
            → get_elem? (take n (assign_schedule f mem n).1) i ≡ some task
            → k'.system_tcb (i + 1) ≡ task_tcb a i task)
  task_create_starts few ok okp fits size =
      let ts = take n (assign_schedule f mem n).1 in
      let (k', run, cur, valid, slots, tcbs, _, _, _) =
        allocate_tasks_lem a ts (record k { irq_on = false }) (omega (arith, size)) in
      (
        k',
        starts_lem k' few ok okp fits
            (ap (λ m. allocate_tasks a ts m (record k { irq_on = false })) (sym size) ∙ run),
        cur ∙ ap (λ m. some (if m == 0 then 63 else 1)) size,
        tcbs,
      )

passes_on : (dev : ℕ) (k : Kernel) → dev ≤ 60 → event_wait dev k ≡ dev_wait dev k
unfolding event_wait
passes_on dev k small = ground arith

-- A task that holds no lock waits on any number up to 60, 60 included: it is appended to the
-- `sleep_q` of that entry of the table, behind all who wait there already, and the task of the
-- least taken slot of the run queue runs. The table has 60 entries, so number 60 is none of them.
pub event_wait_lem :
    (d c p : ℕ) (k : Kernel) (xs : List ℕ)
    → d ≤ 60
    → k.cur_tcb ≡ some c
    → (k.system_tcb c).holds_lock ≡ 0
    → Sleepers k d xs
    → has c xs ≡ false
    → IsValid k.run_queue
    → p < 64
    → is_some (k.run_queue.run_list p) ≡ true
    → (k1 : Kernel) × (n : ℕ) × Joined (record k { irq_on = false }) d c xs k1
      × IsNext k1.run_queue n
      × (event_wait d k ≡ some (suspended, switched k1.run_queue c in_dev_wait n k1))
event_wait_lem d c p k xs small cur free s out v below taken =
    let (k1, n, joined, is_next, run) = dev_wait_lem d c p k xs cur free s out v below taken in
    (k1, n, joined, is_next, passes_on d k small ∙ run)
