-- ===== src/Programs/SysErr/Checks.antt =====
-- `main` of sys_err and what any run behind it prints.
use embedlab.Prelude.{
  ℕ, ◌≡◌, refl, ap, ◌∙◌, true, false, some, List, [], ◌∷◌, ◌++◌, take, arith, neg32, einval, efault,
}
use embedlab.Kernel.{Kernel, Mutex, ◌>>◌}
use embedlab.Memcheck.{valid_addr}
use embedlab.Mutex.{returned, suspended, mutex_init, init_from}
use embedlab.Schedule.{Task, Float, assign_schedule}
use embedlab.Sched.{Addresses}
use embedlab.Proc.{task_create, stacks_valid, periods_valid}
use embedlab.System.Boot.{init_from-fresh}
use embedlab.Programs.{Move, run, swi_errno}
use embedlab.Programs.Creates.{init_from-Table}
use embedlab.Programs.Launch.{launched}
use embedlab.Programs.SysErr.{
  Line, SysErr, begins, success, check_return, if_returned, sys_err, the_task, main, started,
}
use embedlab.Programs.SysErr.Stage.{from3, remaining}
use embedlab.Programs.SysErr.Passes.{all_moves}

module _ (lambda : ℕ) (f : Float) (a : Addresses) (behind elsewhere : List Task)
    (bad : stacks_valid (take 30 elsewhere) ≡ false) (k : Kernel) (xs : List Move) where
  abbrev mem : List Task
  mem = the_task lambda ∷ behind

  abbrev ready : Kernel
  ready = record k { gt_mutex = init_from 32 k.gt_mutex }

  too_many : (s : Kernel) → task_create f a mem 65 s ≡ some (returned (neg32 einval), s)
  unfolding task_create
  too_many s = refl

  no_tasks : (s : Kernel) → task_create f a elsewhere 30 s ≡ some (returned (neg32 efault), s)
  unfolding task_create
  no_tasks s = rw bad refl

  stacks : stacks_valid (take 1 mem) ≡ true
  unfolding stacks_valid valid_addr
  stacks = refl

  periods : periods_valid (take 1 mem) ≡ true
  unfolding periods_valid
  periods = refl

  alone : assign_schedule f mem 1 ≡ (some true, mem)
  unfolding assign_schedule
  alone = refl

  abbrev pub so_far : List Line
  so_far = begins ∷ success 1 ∷ success 2 ∷ []

  starts :
      (k' : Kernel)
      → task_create f a mem 1 ready ≡ some (suspended, k')
      → (mutex_init >> main lambda f a behind elsewhere) k ≡ some ((suspended, so_far), k')
  unfolding main mutex_init swi_errno check_return if_returned
  starts k' run = rw (too_many ready, no_tasks ready, run) refl

  -- On any kernel, behind `mutex_init`, and with a stack outside the user's memory among the 30
  -- entries that stand at 0xdeadbeef, `main` reports success for its two checks and starts fun1. Every
  -- sequence of moves of the task and interrupts of the timer is then without a fault, and what is
  -- printed, with what is left to print at the place that fun1 has reached, is a success for each of the
  -- ten checks, in their order, and the last line.
  pub main-passes :
      (k' : Kernel) × (m' : SysErr) × ((mutex_init >> main lambda f a behind elsewhere) k
        ≡ some ((suspended, so_far), k'))
      × (run sys_err xs (started k' so_far) ≡ some m')
      × (m'.output ++ remaining (m'.locals 1) ≡ so_far ++ from3)
  main-passes =
      let t = init_from-Table k.gt_mutex in
      let (k', begun, w, same) =
        launched f a mem mem (the_task lambda ∷ []) ready 0 (omega arith) stacks periods alone refl
          t in
      let (m', ends, s) = all_moves (so_far ++ from3) xs (started k' so_far) (record {
        at = (
          omega arith,
          record {
            well_formed = w;
            table = record {
              available = λ j h. ap (λ g. (g j).available) same ∙ t.available j h;
              unlocked = λ j h. ap (λ g. (g j).lock) same ∙ t.unlocked j h;
              no_waiters = λ j h. ap (λ g. (g j).sleep_queue) same ∙ t.no_waiters j h;
            };
            never_held = λ j h.
                ap (λ g. (g j).holding_tcb) same
                ∙ ap (λ (v : Mutex). v.holding_tcb) (init_from-fresh 32 j k.gt_mutex h);
          },
        );
        printed = refl;
      }) in
      (k', m', starts k' begun, ends, s.printed)
