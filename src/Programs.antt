-- ===== src/Programs.antt =====
-- User programs of tasks/ as machines over the kernel: what the tasks of a set do next, one memory
-- access, print or system call at a time, and the timer's interrupt between any two of these.
pub mod Calls
pub mod Creates
pub mod Launch
pub mod Chaser
pub mod Waiters
pub mod Dagger
pub mod SysErr
pub mod SimpleMutex
pub mod Stress
pub mod Typo
use embedlab.Prelude.{
  ℕ, Bool, Option, none, some, List, [], ◌∷◌, ◌++◌, ◌==◌, if◌then◌else◌, update, neg32, is_negative,
}
use embedlab.Kernel.{Kernel, K, ◌>>=◌, ◌>>◌, pure, idle_prio}
use embedlab.RunQueue.{TcbPtr}
use embedlab.Mutex.{Exit, returned, suspended}
use embedlab.Timer.{time_syscall}
use embedlab.System.{Event, ticks, handle, settle, step}

-- What a call leaves in `r0`: `lock_tail`, `mutex_unlock` and `dev_wait` return 0 to a task that
-- another one has run in the meantime.
abbrev pub word : Exit → ℕ
word (returned r) = r
word suspended = 0

unfoldable pub call : Event → K ℕ
unfolding handle settle
call event = do e ← handle event; settle e; pure (word e)

-- the wrappers of libc/swi: a negative word becomes -1, and `errno` its absolute value, or else 0
unfoldable pub swi_result : ℕ → ℕ
swi_result r = if is_negative r then neg32 1 else r

unfoldable pub swi_errno : ℕ → ℕ
swi_errno r = if is_negative r then neg32 r else 0

-- What a task does next, with `S` for its own variables and its place in the code, `H` for the
-- memory that the tasks share, and `O` for what is printed.
pub data Act (S H O : Type 0) : Type 0 where
  computes : S → H → Act S H O
  prints : O → S → Act S H O
  calls : Event → (ℕ → S) → Act S H O
  asks_time : (ℕ → S) → Act S H O

pub record Machine (S H O : Type 0) : Type 0 where
  pub kernel : Kernel
  pub locals : ℕ → S
  pub shared : H
  pub output : List O

-- the current task goes on, or the timer interrupts it
pub data Move : Type 0 where
  runs : Move
  interrupted : (icpr oscr : ℕ) → Move

module _ {S H O : Type 0} where
  abbrev pub called : ℕ → (ℕ → S) → Machine S H O → Option (ℕ × Kernel) → Option (Machine S H O)
  called t f m none = none
  called t f m (some (r, k)) = some (record m { kernel = k; locals = update m.locals t (f r) })

  unfoldable pub perform : ℕ → Act S H O → Machine S H O → Option (Machine S H O)
  unfolding call
  perform t (computes l h) m = some (record m { locals = update m.locals t l; shared = h })
  perform t (prints o l) m =
      some (record m { locals = update m.locals t l; output = m.output ++ (o ∷ []) })
  perform t (calls event f) m = called t f m (call event m.kernel)
  perform t (asks_time f) m = called t f m (time_syscall m.kernel)

  abbrev pub ticked : Machine S H O → Option (Unit {0} × Kernel) → Option (Machine S H O)
  ticked m none = none
  ticked m (some (u, k)) = some (record m { kernel = k })

  abbrev pub and_run :
      Option (Machine S H O) → (Machine S H O → Option (Machine S H O)) → Option (Machine S H O)
  and_run none f = none
  and_run (some m) f = f m

  -- the idle task only loops
  module _ (act : ℕ → S → H → Act S H O) where
    unfoldable pub run_task : TcbPtr → Machine S H O → Option (Machine S H O)
    unfolding perform
    run_task none m = none
    run_task (some t) m =
        if t == idle_prio then some m else perform t (act t (m.locals t) m.shared) m

    unfoldable pub move : Move → Machine S H O → Option (Machine S H O)
    unfolding run_task step
    move runs m = run_task m.kernel.cur_tcb m
    move (interrupted icpr oscr) m = ticked m (step (ticks icpr oscr) m.kernel)

    unfoldable pub run : List Move → Machine S H O → Option (Machine S H O)
    unfolding move
    run [] m = some m
    run (x ∷ xs) m = and_run (move x m) (λ m'. run xs m')
