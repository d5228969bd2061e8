-- ===== src/Programs/Chaser/Main.antt =====
-- `main` of mutex_chaser.c: it creates the mutexes and starts the task set.
use embedlab.Prelude.{
  ℕ, zero, suc, ◌+◌, ◌-◌, Option, none, some, List, [], ◌∷◌, ◌++◌, ◌==◌, if◌then◌else◌, get_elem?,
  true, update, enomem,
}
use embedlab.Kernel.{Kernel, K, ◌>>=◌, pure}
use embedlab.Mutex.{Exit}
use embedlab.Schedule.{Task, Float}
use embedlab.Sched.{Addresses}
use embedlab.Proc.{task_create}
use embedlab.System.{creates}
use embedlab.Programs.{call, swi_errno}
use embedlab.Programs.Chaser.{
  Code, Line, Chase, starting, fun1, fun2, fun3, fun4, mutex_num, init_val, starting_up,
  error_number, create_failed, all_created, answer,
}

-- the loop, with `rounds` rounds left; the results are `mutex_val` and what is printed
unfoldable pub create_all : (rounds i : ℕ) → (ℕ → ℕ) → List Line → K ((ℕ → ℕ) × List Line)
unfolding swi_errno
create_all zero i vals out = pure (vals, out)
create_all (suc rounds) i vals out = do
  mutex ← call creates
  create_all rounds (i + 1) (update vals i init_val) (
      if swi_errno mutex == enomem
      then out ++ (error_number (swi_errno mutex) ∷ create_failed ∷ [])
      else out)

-- `lambdas` are the addresses of fun1 to fun4, which the linker chooses.
module _ (lambdas : ℕ → ℕ) where
  abbrev pub task1 : Task
  task1 = record { lambda = lambdas 1; arg = 49; stack_pos = 0xa2500000; c = 1; t = 50; b = 0 }

  abbrev pub task2 : Task
  task2 = record { lambda = lambdas 2; arg = 50; stack_pos = 0xa2000000; c = 1; t = 100; b = 0 }

  abbrev pub task3 : Task
  task3 = record { lambda = lambdas 3; arg = 51; stack_pos = 0xa1000000; c = 1; t = 200; b = 0 }

  abbrev pub task4 : Task
  task4 = record { lambda = lambdas 4; arg = 52; stack_pos = 0xa1500000; c = 1; t = 500; b = 0 }

  abbrev pub chase_tasks : List Task
  chase_tasks = task2 ∷ task3 ∷ task4 ∷ task1 ∷ []

  -- the task set by its periods
  abbrev pub by_period : List Task
  by_period = task1 ∷ task2 ∷ task3 ∷ task4 ∷ []

  -- `behind` is what stands behind `tasks` in memory.
  unfoldable pub main :
      Float → Addresses → (behind : Task) → (vals : ℕ → ℕ) → K (Exit × ((ℕ → ℕ) × List Line))
  unfolding create_all
  main f a behind vals = do
    made ← create_all mutex_num 0 vals (starting_up ∷ [])
    e ← task_create f a (chase_tasks ++ (behind ∷ [])) 4
    pure (e, (made.0, made.1 ++ (all_created ∷ answer true ∷ [])))

  -- the function at an address, with its argument
  abbrev pub code_at : Option Task → Code
  code_at none = fun4 0
  code_at (some task) =
      if task.lambda == lambdas 1
      then fun1 task.arg
      else if task.lambda == lambdas 2
      then fun2 task.arg
      else if task.lambda == lambdas 3
      then fun3 task.arg
      else fun4 task.arg

  -- the function of each task of a set that is sorted
  abbrev pub codes_of : List Task → ℕ → Code
  codes_of sorted t = code_at (get_elem? sorted (t - 1))

-- every function starts at its first line, with `cur_mutex` 1
abbrev pub started : Kernel → (vals : ℕ → ℕ) → List Line → Chase
started k vals out = record {
  kernel = k;
  locals = λ t. record { cur_mutex = 1; place = starting };
  shared = vals;
  output = out;
}
