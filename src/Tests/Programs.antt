-- ===== src/Tests/Programs.antt =====
-- The user programs on a kernel with other tasks, from their `main` on.
use embedlab.Prelude.{
  ℕ, ◌+◌, ◌*◌, ◌^◌, ◌≡◌, refl, arith, false, ◌&&◌, not, some, List, [], ◌∷◌, ◌++◌, take, has, ◌==◌,
  if◌then◌else◌,
}
use embedlab.Kernel.{Kernel, ◌>>◌}
use embedlab.Kernel.Chain.{Distinct}
use embedlab.Mutex.{suspended, mutex_init, ptr_eq}
use embedlab.Programs.{Move, runs, interrupted, run}
use embedlab.Programs.Chaser.{Chase, Code, chaser, init_val}
use embedlab.Programs.Chaser.Main.{main, by_period, codes_of, started}
use embedlab.Programs.Chaser.Sound.{critical, has_failed}
use embedlab.Programs.Chaser.Runs.{apply_turns, passed}
use embedlab.Programs.Chaser.Ledger.{turns}
use embedlab.Programs.Chaser.Safety.{greeting, main-goes_on, main-turns}
use embedlab.Memcheck.{valid_addr}
use embedlab.Proc.{stacks_valid}
use embedlab.Schedule.{Task}
use embedlab.Programs.SysErr
use embedlab.CString.{Mem}
use embedlab.Programs.Typo
use embedlab.Programs.Stress
use embedlab.Programs.Stress.Calm
use embedlab.Programs.SimpleMutex
use embedlab.Programs.SimpleMutex.Fails.{fun3-panics}
use embedlab.Programs.SysErr.Stage.{remaining, from3}
use embedlab.Programs.SysErr.Checks.{main-passes}
use embedlab.Tests.Sample.{sample}
use embedlab.Tests.Schedule.{addresses, task, exact}

-- the linker's addresses of the functions
abbrev lambdas : ℕ → ℕ
lambdas i = 0xa0000000 + 256 * i

abbrev zeros : ℕ → ℕ
zeros j = 0

-- fun1 takes mutex 1, changes its value and frees the mutex, with a tick in between
abbrev moves : List Move
moves =
    runs ∷ runs ∷ runs ∷ interrupted (2 ^ 26) 0 ∷ runs ∷ runs ∷ runs ∷ interrupted (2 ^ 26) 0 ∷ []

abbrev codes : ℕ → Code
codes = codes_of lambdas (by_period lambdas)

-- a task whose stack is in the kernel's memory
abbrev stray : List Task
stray = record { lambda = 0; arg = 0; stack_pos = 0; c = 1; t = 1; b = 0 } ∷ []

stray_bad : stacks_valid (take 30 stray) ≡ false
unfolding stacks_valid valid_addr
stray_bad = refl

abbrev so_far_now : List SysErr.Line
so_far_now = SysErr.begins ∷ SysErr.success 1 ∷ SysErr.success 2 ∷ []

main-goes_on_example :
    (k' : Kernel) × (vals' : ℕ → ℕ) × (m' : Chase) × ((mutex_init
          >> main lambdas exact addresses (task 1 600) zeros)
        sample
      ≡ some ((suspended, (vals', greeting)), k'))
    × (run (chaser codes) moves (started k' vals' greeting) ≡ some m')
    × ((t : ℕ) → has_failed (m'.locals t).place ≡ false)
    × ((t : ℕ) → (critical (m'.locals t).place && not (ptr_eq m'.kernel.cur_tcb (some t))) ≡ false)
main-goes_on_example =
    main-goes_on lambdas exact addresses (task 1 600) (omega arith) sample zeros moves

main-turns_example :
    (k' : Kernel) × (vals' : ℕ → ℕ) × (m' : Chase) × ((mutex_init
          >> main lambdas exact addresses (task 1 600) zeros)
        sample
      ≡ some ((suspended, (vals', greeting)), k'))
    × (run (chaser codes) moves (started k' vals' greeting) ≡ some m')
    × (m'.shared 1 ≡ apply_turns codes (turns codes 1 moves (started k' vals' greeting)) init_val)
    × Distinct (turns codes 1 moves (started k' vals' greeting))
    × ((t : ℕ) → has t (turns codes 1 moves (started k' vals' greeting)) ≡ passed 1 (m'.locals t))
main-turns_example =
    main-turns lambdas exact addresses (task 1 600) (omega arith) sample zeros moves 1 (omega arith)
      (omega arith)

main-passes_example :
    (k' : Kernel) × (m' : SysErr.SysErr) × ((mutex_init
          >> SysErr.main 0xa0000100 exact addresses [] stray)
        sample
      ≡ some ((suspended, so_far_now), k'))
    × (run SysErr.sys_err moves (SysErr.started k' so_far_now) ≡ some m')
    × (m'.output ++ remaining (m'.locals 1) ≡ so_far_now ++ from3)
main-passes_example = main-passes 0xa0000100 exact addresses [] stray stray_bad sample moves

-- task 5 is in fun3, on its way to mutex 1
abbrev before_lock : SimpleMutex.Simple
before_lock = record {
  kernel = sample;
  locals = λ t. SimpleMutex.testing3;
  shared = record SimpleMutex.initial { mid = 1 };
  output = [];
}

fun3-panics_example :
    (m' : SimpleMutex.Simple) × (run
        (SimpleMutex.simple_mutex zeros)
        (runs ∷ runs ∷ runs ∷ runs ∷ [])
        before_lock
      ≡ some m')
    × (m'.locals 5 ≡ SimpleMutex.panicked)
    × (m'.output ≡ SimpleMutex.dev_failed 2 ∷ [])
fun3-panics_example = fun3-panics zeros 5 refl before_lock refl refl (omega arith) refl refl

stress-goes_on_example :
    (k' : Kernel) × (m' : Stress.Stress) × ((mutex_init
          >> Stress.main lambdas zeros exact addresses (task 1 9000))
        sample
      ≡ some (suspended, k'))
    × (run Stress.stress moves (Stress.started k' zeros) ≡ some m')
    × ((t : ℕ) → Calm.has_failed (m'.locals t) ≡ false)
stress-goes_on_example =
    Calm.stress-goes_on lambdas zeros exact addresses (task 1 9000) (omega arith) (omega arith)
      sample zeros moves

-- a prompt in front of a buffer, and "hi" typed
abbrev prompted : Mem
prompted p = if p == 0xa1000000 then b'>' else 0

abbrev typed : List ℕ
typed = b'h' ∷ b'i' ∷ []
