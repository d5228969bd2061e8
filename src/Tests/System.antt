-- ===== src/Tests/System.antt =====
-- Steps of a system of two tasks: task 2 runs, and task 1 sleeps on device 0, which is due at 100.
use embedlab.Prelude.{
  ℕ, ◌^◌, ◌≡◌, refl, sym, ◌∙◌, true, false, Bool-cases, inl, inr, ◌⊎◌, none, some, List, [], ◌∷◌,
  ◌==◌, if◌then◌else◌, leb, zero-count, arith,
}
use embedlab.RunQueue.{runqueue_init, runqueue_add}
use embedlab.RunQueue.Laws.{
  runqueue_init-IsValid, runqueue_add-IsValid, run_list-runqueue_add, run_list-runqueue_init,
}
use embedlab.Kernel.{Kernel}
use embedlab.Mutex.{fresh_mutex, mutex_lock, returned}
use embedlab.Device.Queue.{Sleepers}
use embedlab.Timer.{account}
use embedlab.System.{step, waits, ticks}
use embedlab.System.Invariant.{live, IsQueued, IsBest, Inv, WellFormed}
use embedlab.System.Steps.{Reachable, start, next, step-WellFormed, mutex_lock-returned}
use embedlab.System.Boot.{boot, boot-WellFormed, Reachable-WellFormed}
use embedlab.System.Wakeup.{ticks-wake}
use embedlab.Tests.Sample.{sample, tcb}
use embedlab.Tests.Schedule.{addresses, task}

abbrev napping : Kernel
napping = record {
  system_tcb = λ t. tcb t 0 none;
  run_queue = runqueue_add 63 63 runqueue_init;
  cur_tcb = some 2;
  gt_mutex = λ m. fresh_mutex;
  devices = λ d. record { sleep_q = if d == 0 then some 1 else none; next_match = 100 };
  irq_on = true;
  system_time = 100;
  time_drift = 0;
}

abbrev asleep : ℕ → List ℕ
asleep d = if d == 0 then 1 ∷ [] else []

slots : (p : ℕ) → napping.run_queue.run_list p ≡ (if 63 == p then some 63 else none)
slots p =
    run_list-runqueue_add runqueue_init 63 63 runqueue_init-IsValid (omega arith) p
    ∙ ground (arith, run_list-runqueue_init p, run_list-runqueue_init 63)

all_Sleepers : (d : ℕ) → Sleepers napping d (asleep d)
all_Sleepers d = elim (Bool-cases (d == 0)) [
  | inl e ↦ rw e (record { chain = (rw e refl, refl); distinct = (refl, tt); fits = omega arith })
  | inr e ↦ rw e (record { chain = rw e refl; distinct = tt; fits = omega arith })
]

placed : (t : ℕ) → live 2 t ≡ true → (2 ≡ t) ⊎ IsQueued napping.run_queue.run_list asleep t
placed t l = elim (Bool-cases (t == 63)) [
  | inl idle ↦ inr (inl (slots t ∙ ground (arith, idle)))
  | inr user ↦ elim (Bool-cases (t == 2)) [
    | inl e ↦ inl (ground (arith, e))
    | inr e ↦ inr (inr (0, omega arith, ground (arith, user, e, l)))
  ]
]

napping-Inv : Inv 2 2 asleep napping
napping-Inv = record {
  few = omega arith;
  cur = refl;
  cur_live = refl;
  valid = runqueue_add-IsValid runqueue_init 63 63 runqueue_init-IsValid (omega arith);
  queue = record {
    own = λ p t h. ground (arith, slots p, h);
    queued_live = λ p t h. ground (arith, slots p, h);
    cur_free = slots 2;
  };
  idle = λ ne. slots 63;
  tasks = λ t l. record { native = refl; awake = refl; resumes = refl };
  placed = placed;
  cur_prio = refl;
  others_prio = λ t l ne. refl;
  others_hold = λ t l ne. refl;
  held = sym (zero-count (λ m. false) 32 (λ m h. refl));
  holder = λ m h locked. cc;
  no_waiters = λ m h. refl;
  sleepers = λ d h. all_Sleepers d;
  sleepers_live = λ d t h l. ground (arith, l);
  sleeps_once = λ d e t h g l m. ground (arith, l, m);
  cur_awake = λ d h. ground arith;
  queued_awake = λ d p t h e. ground (arith, slots p, e);
}

napping-IsBest : IsBest 2 napping
napping-IsBest p h = slots p ∙ ground (arith, h)

abbrev napping-WellFormed : WellFormed 2 napping
napping-WellFormed = record {
  current = 2;
  sleeping = asleep;
  inv = napping-Inv;
  best = napping-IsBest;
}

step-WellFormed_example : (k' : Kernel) × (step (waits 1) napping ≡ some (tt, k')) × WellFormed 2 k'
step-WellFormed_example = step-WellFormed 2 (waits 1) napping napping-WellFormed refl

mutex_lock-returned_example : (k' : Kernel) × (mutex_lock 3 napping ≡ some (returned 0, k'))
mutex_lock-returned_example = mutex_lock-returned 2 3 napping napping-WellFormed

abbrev waited : (k' : Kernel) × (step (waits 1) napping ≡ some (tt, k')) × WellFormed 2 k'
waited = step-WellFormed 2 (waits 1) napping napping-WellFormed refl

waited-Reachable : Reachable napping waited.0
waited-Reachable = next napping napping waited.0 (waits 1) (start napping) refl waited.1

Reachable-WellFormed_example : WellFormed 2 waited.0
Reachable-WellFormed_example =
    Reachable-WellFormed 2 napping waited.0 napping-WellFormed waited-Reachable

boot-WellFormed_example :
    (k' : Kernel) × (boot addresses (task 90 100 ∷ []) sample ≡ some (tt, k')) × WellFormed 1 k'
boot-WellFormed_example = boot-WellFormed addresses (task 90 100 ∷ []) (omega arith) sample

due_now : leb 100 (account 0 (record { system_time = 100; time_drift = 0 })).system_time ≡ true
unfolding account
due_now = refl

ticks-wake_example :
    (k' : Kernel) × (step (ticks (2 ^ 26) 0) napping ≡ some (tt, k'))
    × ((k'.cur_tcb ≡ some 1) ⊎ (k'.run_queue.run_list 1 ≡ some 1))
ticks-wake_example =
    ticks-wake 2 0 1 (2 ^ 26) 0 napping napping-WellFormed (omega arith) refl refl due_now
