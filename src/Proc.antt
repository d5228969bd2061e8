-- ===== src/Proc.antt =====
-- kernel/syscall/proc.c: creating the task set, and waiting for a device.
pub mod Checks
pub mod Laws
use embedlab.Prelude.{
  ℕ, ◌-◌, Bool, true, false, Option, none, some, List, [], ◌∷◌, ◌||◌, ◌&&◌, not, ltb, leb, ◌==◌,
  if◌then◌else◌, take, neg32, einval, efault, esched,
}
use embedlab.RunQueue.{os_max_tasks}
use embedlab.Kernel.{K, ◌>>=◌, ◌>>◌, pure, modify, num_devices, disable_interrupts}
use embedlab.Mutex.{Exit, returned, suspended}
use embedlab.Device.{dev_wait}
use embedlab.Memcheck.{valid_addr}
use embedlab.Schedule.{Task, Float, assign_schedule}
use embedlab.Sched.{Addresses, allocate_tasks}

abbrev pub usr_start_addr : ℕ
usr_start_addr = 0xa0000000

abbrev pub usr_end_addr : ℕ
usr_end_addr = 0xa3000000

-- the first loop: every stack starts in the user's memory
unfoldable pub stacks_valid : List Task → Bool
stacks_valid [] = true
stacks_valid (x ∷ xs) = valid_addr x.stack_pos 0 usr_start_addr usr_end_addr && stacks_valid xs

-- the second loop: every period is positive and not below its computation time
unfoldable pub periods_valid : List Task → Bool
periods_valid [] = true
periods_valid (x ∷ xs) = not (ltb x.t x.c || x.t == 0) && periods_valid xs

module _ (f : Float) (a : Addresses) where
  -- behind the test of the schedule; a division by 0 raises a signal, and `raise` does not return
  unfoldable pub on_schedule : Option Bool → List Task → (num_tasks : ℕ) → K Exit
  unfolding disable_interrupts
  on_schedule none sorted num_tasks k = none
  on_schedule (some false) sorted num_tasks k = pure (returned (neg32 esched)) k
  on_schedule (some true) sorted num_tasks k =
      (do disable_interrupts; allocate_tasks a (take num_tasks sorted) num_tasks; pure suspended) k

  -- `mem` is the memory from the first task on. On success the call does not come back: the first
  -- task of the set runs. `tasks_left` is what a call leaves in that memory.
  unfoldable pub task_create : List Task → (num_tasks : ℕ) → K Exit
  task_create mem num_tasks =
      if ltb (os_max_tasks - 2) num_tasks
      then pure (returned (neg32 einval))
      else if not (stacks_valid (take num_tasks mem))
      then pure (returned (neg32 efault))
      else if not (periods_valid (take num_tasks mem))
      then pure (returned (neg32 esched))
      else let (fits, sorted) = assign_schedule f mem num_tasks in on_schedule fits sorted num_tasks

-- The caller's array behind a `task_create`, whatever its result: the test of the schedule, which
-- only comes behind the checks, has sorted it in place.
unfoldable pub tasks_left : Float → List Task → (num_tasks : ℕ) → List Task
tasks_left f mem num_tasks =
    if ltb (os_max_tasks - 2) num_tasks
      || (not (stacks_valid (take num_tasks mem)) || not (periods_valid (take num_tasks mem)))
    then mem
    else (assign_schedule f mem num_tasks).1

-- The bound is not excluded: device `num_devices` goes on to `dev_wait`.
unfoldable pub event_wait : ℕ → K Exit
event_wait dev = if ltb num_devices dev then pure (returned (neg32 einval)) else dev_wait dev
