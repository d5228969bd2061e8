-- ===== src/Programs/Chaser.antt =====
-- tasks/mutex_chaser/mutex_chaser.c: four tasks that each change the value beside every mutex, under
-- the mutex.
pub mod Main
pub mod Sound
pub mod Moves
pub mod Runs
pub mod Ledger
pub mod Safety
pub mod Starts
use embedlab.Prelude.{
  ℕ, zero, suc, ◌+◌, ◌*◌, Bool, true, false, ◌&&◌, Option, none, some, List, [], ◌∷◌, ◌++◌, ◌==◌,
  if◌then◌else◌, ltb, get_elem?, update, u32, neg32, is_negative, einval, eperm, enomem,
}
use embedlab.Kernel.{K, ◌>>=◌, ◌>>◌, pure}
use embedlab.Mutex.{Exit, mutex_create}
use embedlab.Schedule.{Task, Float}
use embedlab.Sched.{Addresses}
use embedlab.Proc.{task_create}
use embedlab.System.{locks, unlocks, waits}
use embedlab.Programs.{Act, computes, prints, calls, Machine, swi_result, swi_errno}

abbrev pub mutex_num : ℕ
mutex_num = 32

abbrev pub init_val : ℕ
init_val = 2

-- what is printed, by the call that prints it
pub data Line : Type 0 where
  char : ℕ → Line
  at_mutex : ℕ → Line
  final_value : (i m_val result_val : ℕ) → Line
  answer : Bool → Line
  test_done : Line
  error_name : ℕ → Line
  lock_failed : Line
  unlock_failed : Line
  dev_failed : Line
  starting_up : Line
  error_number : ℕ → Line
  create_failed : Line
  all_created : Line

-- what the four functions differ in: the argument, the change of a value, the device, the report of
-- fun4, and the name of the error that fun1 prints
pub record Code : Type 0 where
  pub str : ℕ
  pub op : ℕ → ℕ
  pub dev : ℕ
  pub reports : Bool
  pub names_error : Bool

abbrev pub fun1 : ℕ → Code
fun1 str = record { str = str; op = λ v. u32 (v + 3); dev = 3; reports = false; names_error = true }

abbrev pub fun2 : ℕ → Code
fun2 str = record {
  str = str;
  op = λ v. u32 (v * 11);
  dev = 0;
  reports = false;
  names_error = false;
}

abbrev pub fun3 : ℕ → Code
fun3 str = record {
  str = str;
  op = λ v. u32 (v + neg32 7);
  dev = 1;
  reports = false;
  names_error = false;
}

abbrev pub fun4 : ℕ → Code
fun4 str = record {
  str = str;
  op = λ v. u32 (v * 13);
  dev = 2;
  reports = true;
  names_error = false;
}

abbrev pub result_val : ℕ
result_val = (fun4 0).op ((fun3 0).op ((fun2 0).op ((fun1 0).op init_val)))

-- where a task is in its function
pub data Place : Type 0 where
  starting : Place  -- the test of the `while`
  naming : Place  -- behind `putchar`
  locking : Place
  loading : Place  -- behind `mutex_lock`
  storing : (value : ℕ) → Place  -- the value that was read
  unlocking : Place
  waiting : Place
  checking : (i : ℕ) → Place  -- the `for` of fun4
  showing : (i m_val : ℕ) → Place
  judging : (i m_val : ℕ) → Place
  ending : Place
  looping : Place  -- the `while(1)` at the end
  refused : (errno : ℕ) → Place  -- fun1, before it names the error
  failing : Line → Place
  panicked : Place

pub record Local : Type 0 where
  pub cur_mutex : ℕ
  pub place : Place

module _ (code : Code) where
  -- `if (event_wait(dev) < 0) panic(...)`
  abbrev wait_then : ℕ → Place → Act Local (ℕ → ℕ) Line
  wait_then cur next = calls (waits code.dev) (λ r. record {
    cur_mutex = cur;
    place = if is_negative (swi_result r) then failing dev_failed else next;
  })

  -- the four functions; `vals` is `mutex_val`
  unfoldable pub next_act : (cur : ℕ) → Place → (vals : ℕ → ℕ) → Act Local (ℕ → ℕ) Line
  unfolding swi_result swi_errno
  next_act cur starting vals =
      if ltb cur mutex_num
      then prints (char code.str) (record { cur_mutex = cur; place = naming })
      else computes
          (record { cur_mutex = cur; place = if code.reports then checking 0 else looping }) vals
  next_act cur naming vals = prints (at_mutex cur) (record { cur_mutex = cur; place = locking })
  next_act cur locking vals = calls (locks cur) (λ r. record {
    cur_mutex = cur;
    place = if swi_result r == 0 then loading else failing lock_failed;
  })
  next_act cur loading vals = computes (record { cur_mutex = cur; place = storing (vals cur) }) vals
  next_act cur (storing v) vals =
      computes (record { cur_mutex = cur; place = unlocking }) (update vals cur (code.op v))
  next_act cur unlocking vals = calls (unlocks cur) (λ r. record {
    cur_mutex = cur;
    place =
        if swi_result r == 0
        then waiting
        else if code.names_error
        then refused (swi_errno r)
        else failing unlock_failed;
  })
  next_act cur waiting vals = wait_then (cur + 1) starting
  next_act cur (checking i) vals =
      if ltb i mutex_num
      then computes (record { cur_mutex = cur; place = showing i (vals i) }) vals
      else computes (record { cur_mutex = cur; place = ending }) vals
  next_act cur (showing i m_val) vals =
      prints (final_value i m_val result_val) (record { cur_mutex = cur; place = judging i m_val })
  next_act cur (judging i m_val) vals =
      prints (answer (m_val == result_val)) (record { cur_mutex = cur; place = checking (i + 1) })
  next_act cur ending vals = prints test_done (record { cur_mutex = cur; place = looping })
  next_act cur looping vals = wait_then cur looping
  next_act cur (refused errno) vals =
      if errno == einval
      then prints (error_name einval) (record { cur_mutex = cur; place = failing unlock_failed })
      else if errno == eperm
      then prints (error_name eperm) (record { cur_mutex = cur; place = failing unlock_failed })
      else computes (record { cur_mutex = cur; place = failing unlock_failed }) vals
  next_act cur (failing line) vals = prints line (record { cur_mutex = cur; place = panicked })
  next_act cur panicked vals = computes (record { cur_mutex = cur; place = panicked }) vals

-- each task runs its own function
unfoldable pub chaser : (ℕ → Code) → ℕ → Local → (ℕ → ℕ) → Act Local (ℕ → ℕ) Line
unfolding next_act
chaser codes t l vals = next_act (codes t) l.cur_mutex l.place vals

abbrev pub Chase : Type 0
Chase = Machine Local (ℕ → ℕ) Line
