-- ===== src/System.antt =====
-- kernel/C_SWI_Handler.c, and how the kernel's parts work together: the system calls and the timer's
-- interrupt as steps on the kernel's state, each with what the task that a dispatch chooses does until
-- it is back in user mode.
pub mod Invariant
pub mod Frame
pub mod Switch
pub mod Save
pub mod Locks
pub mod Frees
pub mod Waits
pub mod Wakes
pub mod Awoken
pub mod Ticks
pub mod Steps
pub mod Boot
pub mod Wakeup
use embedlab.Prelude.{
  ℕ, ◌+◌, Bool, true, false, ◌&&◌, ◌||◌, not, Option, none, some, List, [], ◌∷◌, ◌==◌,
  if◌then◌else◌, ltb, update,
}
use embedlab.Kernel.{
  idle_prio, Kernel, Resume, launch, in_mutex_lock, in_mutex_unlock, in_dev_wait, in_dev_update, K,
  ◌>>=◌, ◌>>◌, pure, get, deref, enable_interrupts,
}
use embedlab.CString.{Mem}
use embedlab.Mutex.{
  Exit, returned, suspended, mutex_create, mutex_lock, mutex_unlock, lock_tail, bad_mutex, ptr_eq,
}
use embedlab.Timer.{irq_handler, time_syscall, sleep_syscall}
use embedlab.Schedule.{Task, Float}
use embedlab.Sched.{Addresses}
use embedlab.Proc.{task_create, event_wait}
use embedlab.Console.{Reading, read_syscall, write_syscall}

-- The lines behind a dispatch, for task `cur`; `launch_task` enters user mode with interrupts on.
unfoldable pub resume_at : Resume → (cur : ℕ) → K (Unit {0})
unfolding enable_interrupts
resume_at launch cur = enable_interrupts
resume_at (in_mutex_lock mutex) cur = do lock_tail mutex cur; pure tt
resume_at in_mutex_unlock cur = enable_interrupts
resume_at in_dev_wait cur = enable_interrupts
resume_at in_dev_update cur = enable_interrupts

unfoldable pub resume_current : K (Unit {0})
resume_current = do k ← get; cur ← deref k.cur_tcb; resume_at (k.system_tcb cur).resume cur

-- the rest of a call: nothing if it has returned, and else what the next task does
unfoldable pub settle : Exit → K (Unit {0})
unfolding resume_current
settle (returned r) = pure tt
settle suspended = resume_current

abbrev pub swi_base : ℕ
swi_base = 0x900000

-- What user programs and the outside hand to a call: memory, typed characters, the task sets that
-- stand at addresses, the readings of the clock and how many of them there are.
pub record World : Type 0 where
  pub mem : Mem
  pub input : List ℕ
  pub tasks_at : ℕ → List Task
  pub clock : ℕ → ℕ
  pub readings : ℕ

-- what `C_SWI_Handler` has done: a call of the kernel, whose result goes to `regs[0]`, one that
-- reads or writes the console, a sleep that leaves the registers alone, or `invalid_syscall`
pub data Served : Type 0 where
  kernel_call : Option (Exit × Kernel) → Served
  console_read : Option (ℕ × Reading × List ℕ) → Served
  console_write : ℕ × List ℕ → Served
  slept : Option ℕ → Served
  invalid : ℕ → Served

-- a result that is always a number
abbrev pub returning : Option (ℕ × Kernel) → Option (Exit × Kernel)
returning none = none
returning (some (r, k)) = some (returned r, k)

module _ (f : Float) (a : Addresses) where
  unfoldable pub c_swi_handler : World → (num : ℕ) → (regs : ℕ → ℕ) → Kernel → Served
  c_swi_handler w num regs k =
      if num == swi_base + 3
      then console_read (read_syscall (regs 0) (regs 1) (regs 2) w.mem w.input)
      else if num == swi_base + 4
      then console_write (write_syscall (regs 0) (regs 1) (regs 2) w.mem)
      else if num == swi_base + 6
      then kernel_call (returning (time_syscall k))
      else if num == swi_base + 7
      then slept (sleep_syscall w.readings w.clock (regs 0))
      else if num == swi_base + 10
      then kernel_call (task_create f a (w.tasks_at (regs 0)) (regs 1) k)
      else if num == swi_base + 20
      then kernel_call (event_wait (regs 0) k)
      else if num == swi_base + 15
      then kernel_call (returning (mutex_create k))
      else if num == swi_base + 16
      then kernel_call (mutex_lock (regs 0) k)
      else if num == swi_base + 17
      then kernel_call (mutex_unlock (regs 0) k)
      else invalid num

-- What may happen to the kernel once a task set runs: a call of the current task, or the timer's
-- interrupt with the words that it reads.
pub data Event : Type 0 where
  creates : Event
  locks : (mutex : ℕ) → Event
  unlocks : (mutex : ℕ) → Event
  waits : (dev : ℕ) → Event
  ticks : (icpr oscr : ℕ) → Event

unfoldable pub handle : Event → K Exit
handle creates = do r ← mutex_create; pure (returned r)
handle (locks mutex) = mutex_lock mutex
handle (unlocks mutex) = mutex_unlock mutex
handle (waits dev) = event_wait dev
handle (ticks icpr oscr) = irq_handler icpr oscr

unfoldable pub step : Event → K (Unit {0})
unfolding handle settle
step event = do e ← handle event; settle e

-- The steps that the task set is asked for: no second unlock of a mutex that its last holder has
-- freed, no wait for the number behind the last device, and none by the idle task, which only loops.
abbrev pub allowed : Event → Kernel → Bool
allowed creates k = true
allowed (locks mutex) k = true
allowed (unlocks mutex) k =
    bad_mutex mutex
    || ((k.gt_mutex mutex).lock || not (ptr_eq k.cur_tcb (k.gt_mutex mutex).holding_tcb))
allowed (waits dev) k = not (dev == 60) && not (ptr_eq k.cur_tcb (some idle_prio))
allowed (ticks icpr oscr) k = true
