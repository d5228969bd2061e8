-- ===== src/Tests/Sample.antt =====
-- A kernel with three tasks: 5 runs, 9 and the idle task 63 are in the run queue.
use embedlab.Prelude.{
  ℕ, zero, suc, ◌≡◌, refl, true, false, none, some, arith, is_some, if◌then◌else◌, ◌==◌,
}
use embedlab.RunQueue.{RunQueue, runqueue_init, runqueue_add, TcbPtr}
use embedlab.RunQueue.Laws.{IsValid, runqueue_init-IsValid, runqueue_add-IsValid}
use embedlab.Kernel.{Kernel, Tcb, Mutex, Dev, Context, launch}

abbrev pub blank : Context
blank = record { r4 = 0; r5 = 0; r6 = 0; r7 = 0; r8 = 0; sp = 0; lr = 0 }

abbrev pub tcb : ℕ → ℕ → TcbPtr → Tcb
tcb prio locks link = record {
  native_prio = prio;
  cur_prio = prio;
  context = blank;
  holds_lock = locks;
  sleep_queue = link;
  pending = 0;
  mutex_sleep_queue = link;
  resume = launch;
}

abbrev pub queue : RunQueue
queue = runqueue_add 63 63 (runqueue_add 9 9 runqueue_init)

pub queue-IsValid : IsValid queue
queue-IsValid =
    runqueue_add-IsValid (runqueue_add 9 9 runqueue_init) 63 63
      (runqueue_add-IsValid runqueue_init 9 9 runqueue_init-IsValid (omega arith)) (omega arith)

pub idle_ready : is_some (queue.run_list 63) ≡ true
unfolding runqueue_add runqueue_init
idle_ready = refl

pub slot_five_free : queue.run_list 5 ≡ none
unfolding runqueue_add runqueue_init
slot_five_free = refl

-- Mutex 1 is created and held by nobody; mutex 2 is held by task 5; task 7 sleeps on mutex 3, which
-- task 5 holds as well; mutex 4 is held by task 8, and nobody waits.
abbrev pub mutexes : ℕ → Mutex
mutexes m =
    if m == 2
    then record { available = false; holding_tcb = some 5; lock = true; sleep_queue = none }
    else if m == 3
    then record { available = false; holding_tcb = some 5; lock = true; sleep_queue = some 7 }
    else if m == 4
    then record { available = false; holding_tcb = some 8; lock = true; sleep_queue = none }
    else record { available = m == 0; holding_tcb = none; lock = false; sleep_queue = none }

-- Task 6 sleeps on device 0, which is due at 100, and nobody on the others.
abbrev pub sleeping : ℕ → Dev
sleeping zero = record { sleep_q = some 6; next_match = 100 }
sleeping (suc d) = record { sleep_q = none; next_match = 200 }

abbrev pub sample : Kernel
sample = record {
  system_tcb = λ t. tcb t (if t == 5 then 2 else 0) none;
  run_queue = queue;
  cur_tcb = some 5;
  gt_mutex = mutexes;
  devices = sleeping;
  irq_on = true;
  system_time = 0;
  time_drift = 0;
}
