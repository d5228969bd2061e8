-- ===== src/System/Invariant.antt =====
-- What holds between two steps of the system, once a task set of `n` tasks runs.
use embedlab.Prelude.{
  ℕ, ◌<◌, ◌≤◌, ◌≡◌, ◌≢◌, ◌⊎◌, Bool, true, false, ◌&&◌, ◌||◌, none, some, List, has, ◌==◌,
  if◌then◌else◌, ltb, leb, count,
}
use embedlab.RunQueue.{TcbPtr}
use embedlab.RunQueue.Laws.{IsValid}
use embedlab.Kernel.{
  Kernel, Tcb, Resume, launch, in_mutex_lock, in_mutex_unlock, in_dev_wait, in_dev_update,
}
use embedlab.Device.Queue.{Sleepers}

-- the tasks that exist: those of the set, at the priorities 1 to `n`, and the idle task
abbrev pub live : ℕ → ℕ → Bool
live n t = (ltb 0 t && leb t n) || t == 63

-- a saved context is not in the middle of `mutex_lock`
abbrev pub past_lock : Resume → Bool
past_lock launch = true
past_lock (in_mutex_lock mutex) = false
past_lock in_mutex_unlock = true
past_lock in_dev_wait = true
past_lock in_dev_update = true

-- A task has its number as its native priority, waits for no mutex, and has stopped in no lock.
pub record IsTask (t : ℕ) (b : Tcb) : Type 0 where
  pub native : b.native_prio ≡ t
  pub awake : b.pending ≡ 0
  pub resumes : past_lock b.resume ≡ true

-- Every queued task stands in the slot of its number, and the slots of no task are empty.
pub record IsQueue (n c : ℕ) (run_list : ℕ → TcbPtr) : Type 0 where
  pub own : (p t : ℕ) → run_list p ≡ some t → t ≡ p
  pub queued_live : (p t : ℕ) → run_list p ≡ some t → live n p ≡ true
  pub cur_free : run_list c ≡ none

-- A task that exists runs, stands in its slot of the run queue, or sleeps on a device.
abbrev pub IsQueued : (run_list : ℕ → TcbPtr) → (ys : ℕ → List ℕ) → ℕ → Type 0
IsQueued run_list ys t = (run_list t ≡ some t) ⊎ ((d : ℕ) × (d < 60) × (has t (ys d) ≡ true))

-- Task `c` runs, and the lists `ys` sleep on the devices. Only the current task holds locks: as many
-- as are counted for it, and at priority 0 if there is one.
pub record Inv (n c : ℕ) (ys : ℕ → List ℕ) (k : Kernel) : Type 0 where
  pub few : n ≤ 62
  pub cur : k.cur_tcb ≡ some c
  pub cur_live : live n c ≡ true
  pub valid : IsValid k.run_queue
  pub queue : IsQueue n c k.run_queue.run_list
  pub idle : (c == 63) ≡ false → k.run_queue.run_list 63 ≡ some 63
  pub tasks : (t : ℕ) → live n t ≡ true → IsTask t (k.system_tcb t)
  pub placed : (t : ℕ) → live n t ≡ true → (c ≡ t) ⊎ IsQueued k.run_queue.run_list ys t
  pub cur_prio : (k.system_tcb c).cur_prio ≡ (if (k.system_tcb c).holds_lock == 0 then c else 0)
  pub others_prio : (t : ℕ) → live n t ≡ true → c ≢ t → (k.system_tcb t).cur_prio ≡ t
  pub others_hold : (t : ℕ) → live n t ≡ true → c ≢ t → (k.system_tcb t).holds_lock ≡ 0
  pub held : (k.system_tcb c).holds_lock ≡ count (λ m. (k.gt_mutex m).lock) 32
  pub holder : (m : ℕ) → m < 32 → (k.gt_mutex m).lock ≡ true → (k.gt_mutex m).holding_tcb ≡ some c
  pub no_waiters : (m : ℕ) → m < 32 → (k.gt_mutex m).sleep_queue ≡ none
  pub sleepers : (d : ℕ) → d < 60 → Sleepers k d (ys d)
  pub sleepers_live : (d t : ℕ) → d < 60 → has t (ys d) ≡ true → live n t ≡ true
  pub sleeps_once :
      (d e t : ℕ) → d < 60 → e < 60 → has t (ys d) ≡ true → has t (ys e) ≡ true → d ≡ e
  pub cur_awake : (d : ℕ) → d < 60 → has c (ys d) ≡ false
  pub queued_awake : (d p t : ℕ) → d < 60 → k.run_queue.run_list p ≡ some t → has t (ys d) ≡ false

-- No queued task has a higher priority than the current one.
abbrev pub IsBest : ℕ → Kernel → Type 0
IsBest c k = (p : ℕ) → p < (k.system_tcb c).cur_prio → k.run_queue.run_list p ≡ none

-- Some task set runs, and the current task is the best of those that could run.
pub record WellFormed (n : ℕ) (k : Kernel) : Type 0 where
  pub current : ℕ
  pub sleeping : ℕ → List ℕ
  pub inv : Inv n current sleeping k
  pub best : IsBest current k
