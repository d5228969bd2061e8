-- ===== src/Programs/Stress.antt =====
-- tasks/stress/stress.c: 59 tasks that count their rounds, and one that compares the counts.
pub mod Calm
use embedlab.Prelude.{
  ℕ, zero, suc, ◌+◌, ◌-◌, ◌*◌, Bool, true, false, List, [], ◌∷◌, ◌++◌, ◌==◌, if◌then◌else◌, ltb,
  update, u32, is_negative,
}
use embedlab.Kernel.{Kernel, K, ◌>>=◌, ◌>>◌, pure}
use embedlab.Mutex.{Exit}
use embedlab.Schedule.{Task, Float}
use embedlab.Sched.{Addresses}
use embedlab.Proc.{task_create}
use embedlab.System.{waits}
use embedlab.Programs.{Act, computes, prints, calls, asks_time, Machine, swi_result}

abbrev pub num_task : ℕ
num_task = 60

abbrev pub end_time : ℕ
end_time = 9000

abbrev pub num_iter : ℕ
num_iter = 2

-- the failures of a check are two lines each
pub data Line : Type 0 where
  time_is : ℕ → Line
  once_more : Line
  rma_failed : ℕ → Line
  never_executed : ℕ → Line
  test_passed : Line
  dev_failed : Line

-- the variables that the tasks share, as words
pub record Shared : Type 0 where
  pub once : ℕ
  pub flag : ℕ
  pub score : ℕ → ℕ

pub data Place : Type 0 where
  testing : Place  -- fun1
  asking : Place
  telling : (time : ℕ) → Place
  loading : Place
  storing : (value : ℕ) → Place
  sleeping : Place
  choosing : Place  -- fun2
  raising : Place
  announcing : Place
  checking : (i : ℕ) → Place
  comparing : (i value : ℕ) → Place
  reporting_rma : (i : ℕ) → Place
  looking : (i : ℕ) → Place
  reporting_never : (i : ℕ) → Place
  passing : Place
  flagging : Place
  waiting : Place → Place  -- and where the loop goes on
  failing : Place
  panicked : Place

-- `a < b` of two `int`s
abbrev pub int_less : ℕ → ℕ → Bool
int_less a b =
    if is_negative a
    then (if is_negative b then ltb a b else true)
    else (if is_negative b then false else ltb a b)

-- `sleep` only reads the clock, so it is a place at which the timer may interrupt the task.
unfoldable pub next_act : (str : ℕ) → Place → Shared → Act Place Shared Line
unfolding swi_result
next_act str testing v = computes (if v.flag == 0 then asking else loading) v
next_act str asking v = asks_time (λ time. telling time)
next_act str (telling time) v = prints (time_is time) loading
next_act str loading v = computes (storing (v.score str)) v
next_act str (storing value) v =
    computes sleeping (record v { score = update v.score str (u32 (value + 1)) })
next_act str sleeping v = computes (waiting testing) v
next_act str choosing v = computes (if int_less v.once num_iter then raising else checking 0) v
next_act str raising v = computes announcing (record v { once = u32 (v.once + 1) })
next_act str announcing v = prints once_more (waiting choosing)
next_act str (checking i) v =
    computes (if ltb i (num_task - 2) then comparing i (v.score i) else passing) v
next_act str (comparing i value) v =
    computes (if int_less value (v.score (i + 1)) then reporting_rma i else looking i) v
next_act str (reporting_rma i) v = prints (rma_failed i) (looking i)
next_act str (looking i) v =
    computes (if v.score i == 0 then reporting_never i else checking (i + 1)) v
next_act str (reporting_never i) v = prints (never_executed i) (checking (i + 1))
next_act str passing v = prints test_passed flagging
next_act str flagging v = computes (waiting choosing) (record v { flag = 1 })
next_act str (waiting next) v =
    calls (waits str) (λ r. if is_negative (swi_result r) then failing else next)
next_act str failing v = prints dev_failed panicked
next_act str panicked v = computes panicked v

-- the argument of task `t` of the sorted set; there are no others
abbrev pub arg_of : ℕ → ℕ
arg_of t = if ltb (t - 1) num_task then t - 1 else 0

unfoldable pub stress : ℕ → Place → Shared → Act Place Shared Line
unfolding next_act
stress t place v = next_act (arg_of t) place v

abbrev pub Stress : Type 0
Stress = Machine Place Shared Line

-- `lambdas` are the addresses of fun1 and fun2, which the linker chooses, and `garbage` is what stood
-- in the fields `B`, which are never set.
module _ (lambdas garbage : ℕ → ℕ) where
  abbrev pub counter : ℕ → Task
  counter i = record {
    lambda = lambdas 1;
    arg = i;
    stack_pos = 0xa2000000 + 0x10000 * i;
    c = i + 1;
    t = (i + 1) * 100;
    b = garbage i;
  }

  abbrev pub judge : Task
  judge = record {
    lambda = lambdas 2;
    arg = 59;
    stack_pos = 0xa2000000 + 0x10000 * 59;
    c = 0;
    t = end_time;
    b = garbage 59;
  }

  -- the loop, with `rounds` rounds left
  abbrev pub counters : (rounds i : ℕ) → List Task
  counters zero i = []
  counters (suc rounds) i = counter i ∷ counters rounds (i + 1)

  abbrev pub tasks : List Task
  tasks = counters 59 0 ++ (judge ∷ [])

  -- `main`, up to its message if `task_create` returns; `behind` is what stands behind `tasks`
  unfoldable pub main : Float → Addresses → (behind : Task) → K Exit
  main f a behind = task_create f a (tasks ++ (behind ∷ [])) num_task

-- the loop clears the counts
abbrev pub cleared : (rounds : ℕ) → (ℕ → ℕ) → ℕ → ℕ
cleared zero score = score
cleared (suc rounds) score = update (cleared rounds score) rounds 0

-- task 60 runs fun2, and the others run fun1
abbrev pub started : Kernel → (score : ℕ → ℕ) → Stress
started k score = record {
  kernel = k;
  locals = λ t. if t == num_task then choosing else testing;
  shared = record { once = 0; flag = 0; score = cleared 59 score };
  output = [];
}
