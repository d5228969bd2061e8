-- ===== src/Programs/Dagger.antt =====
-- tasks/dagger/dagger.c: two tasks that print a character at every event of their device.
pub mod Safety
use embedlab.Prelude.{
  ℕ, ◌-◌, Bool, true, false, Option, none, some, List, [], ◌∷◌, ◌++◌, ◌==◌, if◌then◌else◌,
  get_elem?, is_negative,
}
use embedlab.Kernel.{K, Kernel}
use embedlab.Mutex.{Exit}
use embedlab.Schedule.{Task, Float}
use embedlab.Sched.{Addresses}
use embedlab.Proc.{task_create}
use embedlab.System.{waits}
use embedlab.Programs.{Act, computes, prints, calls, Machine, swi_result}

pub data Line : Type 0 where
  char : ℕ → Line
  dev_failed : ℕ → Line

pub record Code : Type 0 where
  pub str : ℕ
  pub dev : ℕ

-- fun1 and fun2
abbrev pub fun1 : ℕ → Code
fun1 str = record { str = str; dev = 0 }

abbrev pub fun2 : ℕ → Code
fun2 str = record { str = str; dev = 1 }

pub data Place : Type 0 where
  printing : Place
  waiting : Place
  failing : Place
  panicked : Place

-- the `while(1)` of a task, and `panic`
unfoldable pub next_act : Code → Place → Act Place (Unit {0}) Line
unfolding swi_result
next_act code printing = prints (char code.str) waiting
next_act code waiting =
    calls (waits code.dev) (λ r. if is_negative (swi_result r) then failing else printing)
next_act code failing = prints (dev_failed code.dev) panicked
next_act code panicked = computes panicked tt

unfoldable pub dagger : (ℕ → Code) → ℕ → Place → Unit {0} → Act Place (Unit {0}) Line
unfolding next_act
dagger codes t place shared = next_act (codes t) place

abbrev pub Dagger : Type 0
Dagger = Machine Place (Unit {0}) Line

-- `lambdas` are the addresses of fun1 and fun2, which the linker chooses.
module _ (lambdas : ℕ → ℕ) where
  abbrev pub tasks : List Task
  tasks =
      record { lambda = lambdas 1; arg = 64; stack_pos = 0xa2000000; c = 1; t = 100; b = 0 }
      ∷ record { lambda = lambdas 2; arg = 60; stack_pos = 0xa1000000; c = 1; t = 200; b = 0 }
      ∷ []

  -- `main`, up to its message if `task_create` returns; `behind` is what stands behind `tasks`
  unfoldable pub main : Float → Addresses → (behind : Task) → K Exit
  main f a behind = task_create f a (tasks ++ (behind ∷ [])) 2

  -- the function at an address, with its argument
  abbrev pub code_at : Option Task → Code
  code_at none = fun2 0
  code_at (some task) = if task.lambda == lambdas 1 then fun1 task.arg else fun2 task.arg

  abbrev pub codes_of : List Task → ℕ → Code
  codes_of sorted t = code_at (get_elem? sorted (t - 1))

abbrev pub started : Kernel → Dagger
started k = record { kernel = k; locals = λ t. printing; shared = tt; output = [] }
