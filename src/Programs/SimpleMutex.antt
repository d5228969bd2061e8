-- ===== src/Programs/SimpleMutex.antt =====
-- tasks/simple_mutex/simple_mutex.c: three tasks and one mutex, which two of them keep while they wait
-- for their devices.
pub mod Fails
use embedlab.Prelude.{
  ℕ, ◌+◌, ◌-◌, Bool, true, false, ◌&&◌, not, Option, none, some, List, [], ◌∷◌, ◌++◌, ◌==◌,
  if◌then◌else◌, get_elem?, u32, neg32, is_negative,
}
use embedlab.Kernel.{Kernel, K}
use embedlab.Mutex.{Exit}
use embedlab.Schedule.{Task, Float}
use embedlab.Sched.{Addresses}
use embedlab.Proc.{task_create}
use embedlab.System.{creates, locks, unlocks, waits}
use embedlab.Programs.{Act, computes, prints, calls, Machine, swi_result}

pub data Line : Type 0 where
  char : ℕ → Line
  dev_failed : ℕ → Line

-- the variables that the tasks share, as words
pub record Shared : Type 0 where
  pub even_t1 : ℕ
  pub once : ℕ
  pub even_t2 : ℕ
  pub even_t3 : ℕ
  pub mid : ℕ

abbrev pub initial : Shared
initial = record { even_t1 = 1; once = 0; even_t2 = 1; even_t3 = 1; mid = neg32 1 }

-- where a task is; the functions share their ends
pub data Place : Type 0 where
  creating : Place  -- fun1
  created : (r : ℕ) → Place
  testing1 : Place
  passing1 : Place
  marking1 : Place
  resetting1 : Place
  counting : Place
  inside1 : Place
  setting1 : Place
  unlocking1 : Place
  testing2 : Place  -- fun2
  clearing2 : Place
  inside2 : Place
  printing3 : Place  -- fun3
  testing3 : Place
  clearing3 : Place
  waiting : (dev : ℕ) → Place → Place  -- and where the loop goes on
  failing : (dev : ℕ) → Place
  panicked : Place

module _ (str : ℕ) where
  unfoldable pub next_act : Place → Shared → Act Place Shared Line
  unfolding swi_result
  next_act creating v = calls creates (λ r. created r)
  next_act (created r) v = computes testing1 (record v { mid = swi_result r })
  next_act testing1 v =
      if not (v.even_t1 == 0)
      then prints (char str) passing1
      else calls (locks v.mid) (λ r. inside1)
  next_act passing1 v =
      if not (v.once == 0) && not (is_negative v.once)
      then prints (char 33) counting
      else computes marking1 v
  next_act marking1 v = computes resetting1 (record v { once = 1 })
  next_act resetting1 v = computes (waiting 0 testing1) (record v { even_t1 = 0 })
  next_act counting v = computes counting (record v { mid = u32 (v.mid + 1) })
  next_act inside1 v = prints (char 101) setting1
  next_act setting1 v = computes unlocking1 (record v { even_t1 = 1 })
  next_act unlocking1 v = calls (unlocks v.mid) (λ r. waiting 0 testing1)
  next_act testing2 v =
      if not (v.even_t2 == 0)
      then prints (char str) clearing2
      else calls (locks v.mid) (λ r. inside2)
  next_act clearing2 v = computes (waiting 1 testing2) (record v { even_t2 = 0 })
  next_act inside2 v = prints (char 83) (waiting 1 testing2)
  next_act printing3 v = prints (char str) testing3
  next_act testing3 v =
      if not (v.even_t3 == 0)
      then calls (locks v.mid) (λ r. clearing3)
      else calls (unlocks v.mid) (λ r. waiting 2 printing3)
  next_act clearing3 v = computes (waiting 2 printing3) (record v { even_t3 = 0 })
  next_act (waiting dev next) v =
      calls (waits dev) (λ r. if is_negative (swi_result r) then failing dev else next)
  next_act (failing dev) v = prints (dev_failed dev) panicked
  next_act panicked v = computes panicked v

-- each task with its argument
unfoldable pub simple_mutex : (strs : ℕ → ℕ) → ℕ → Place → Shared → Act Place Shared Line
unfolding next_act
simple_mutex strs t place v = next_act (strs t) place v

abbrev pub Simple : Type 0
Simple = Machine Place Shared Line

-- `lambdas` are the addresses of fun1 to fun3, which the linker chooses.
module _ (lambdas : ℕ → ℕ) where
  abbrev pub tasks : List Task
  tasks =
      record { lambda = lambdas 1; arg = 115; stack_pos = 0xa2000000; c = 1; t = 100; b = 0 }
      ∷ record { lambda = lambdas 2; arg = 117; stack_pos = 0xa1000000; c = 1; t = 200; b = 0 }
      ∷ record { lambda = lambdas 3; arg = 99; stack_pos = 0xa1200000; c = 1; t = 500; b = 0 }
      ∷ []

  -- `main`, up to its message if `task_create` returns; `behind` is what stands behind `tasks`
  unfoldable pub main : Float → Addresses → (behind : Task) → K Exit
  main f a behind = task_create f a (tasks ++ (behind ∷ [])) 3
