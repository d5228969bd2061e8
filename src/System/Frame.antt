-- ===== src/System/Frame.antt =====
-- What a step leaves alone, the invariant survives.
use embedlab.Prelude.{
  ℕ, ◌<◌, ◌≡◌, ◌≢◌, refl, ap, sym, subst, ◌∙◌, Bool, true, none, some, List, has, ◌==◌,
  if◌then◌else◌, count,
}
use embedlab.Kernel.{
  Kernel, Tcb, Mutex, Dev, Resume, launch, in_mutex_lock, in_mutex_unlock, in_dev_wait,
  in_dev_update, enable_interrupts, deref, and_then,
}
use embedlab.Kernel.Chain.{Chain, Chain-frame}
use embedlab.Device.Queue.{Sleepers, link}
use embedlab.System.{resume_at, resume_current}
use embedlab.System.Invariant.{live, past_lock, IsTask, Inv}

-- a sleep queue whose links stay
pub Sleepers-frame :
    (k k' : Kernel) (d : ℕ) (xs : List ℕ)
    → k'.devices d ≡ k.devices d
    → ((t : ℕ) → has t xs ≡ true → (k'.system_tcb t).sleep_queue ≡ (k.system_tcb t).sleep_queue)
    → Sleepers k d xs
    → Sleepers k' d xs
Sleepers-frame k k' d xs same links s = record {
  chain =
      Chain-frame (link k.system_tcb) (link k'.system_tcb) (k'.devices d).sleep_q xs
        (subst (λ (v : Dev). Chain (link k.system_tcb) v.sleep_q xs) (sym same) s.chain) links;
  distinct = s.distinct;
  fits = s.fits;
}

-- what new TCBs and mutexes must satisfy, with the same task running and the same tasks asleep
pub record Keeps (n c : ℕ) (k : Kernel) (tcb : ℕ → Tcb) (gm : ℕ → Mutex) : Type 0 where
  pub tasks : (t : ℕ) → live n t ≡ true → IsTask t (tcb t)
  pub cur_prio : (tcb c).cur_prio ≡ (if (tcb c).holds_lock == 0 then c else 0)
  pub others_prio : (t : ℕ) → live n t ≡ true → c ≢ t → (tcb t).cur_prio ≡ t
  pub others_hold : (t : ℕ) → live n t ≡ true → c ≢ t → (tcb t).holds_lock ≡ 0
  pub held : (tcb c).holds_lock ≡ count (λ m. (gm m).lock) 32
  pub holder : (m : ℕ) → m < 32 → (gm m).lock ≡ true → (gm m).holding_tcb ≡ some c
  pub no_waiters : (m : ℕ) → m < 32 → (gm m).sleep_queue ≡ none
  pub links : (t : ℕ) → (tcb t).sleep_queue ≡ (k.system_tcb t).sleep_queue

pub Inv-Keeps :
    {n c : ℕ} {ys : ℕ → List ℕ} (k : Kernel) (tcb : ℕ → Tcb) (gm : ℕ → Mutex) (b : Bool)
    → Inv n c ys k
    → Keeps n c k tcb gm
    → Inv n c ys (record k { system_tcb = tcb; gt_mutex = gm; irq_on = b })
Inv-Keeps k tcb gm b i w = record {
  few = i.few;
  cur = i.cur;
  cur_live = i.cur_live;
  valid = i.valid;
  queue = i.queue;
  idle = i.idle;
  placed = i.placed;
  tasks = w.tasks;
  cur_prio = w.cur_prio;
  others_prio = w.others_prio;
  others_hold = w.others_hold;
  held = w.held;
  holder = w.holder;
  no_waiters = w.no_waiters;
  sleepers = λ d h. Sleepers-frame k _ d _ refl (λ t _. w.links t) (i.sleepers d h);
  sleepers_live = i.sleepers_live;
  sleeps_once = i.sleeps_once;
  cur_awake = i.cur_awake;
  queued_awake = i.queued_awake;
}

-- The interrupt mask and the clock are no part of the invariant.
pub Inv-clock :
    {n c : ℕ} {ys : ℕ → List ℕ} (k : Kernel) (b : Bool) (time drift : ℕ)
    → Inv n c ys k
    → Inv n c ys (record k { irq_on = b; system_time = time; time_drift = drift })
Inv-clock k b time drift i = record {
  few = i.few;
  cur = i.cur;
  cur_live = i.cur_live;
  valid = i.valid;
  queue = i.queue;
  idle = i.idle;
  placed = i.placed;
  tasks = i.tasks;
  cur_prio = i.cur_prio;
  others_prio = i.others_prio;
  others_hold = i.others_hold;
  held = i.held;
  holder = i.holder;
  no_waiters = i.no_waiters;
  sleepers = λ d h. Sleepers-frame k _ d _ refl (λ t _. refl) (i.sleepers d h);
  sleepers_live = i.sleepers_live;
  sleeps_once = i.sleeps_once;
  cur_awake = i.cur_awake;
  queued_awake = i.queued_awake;
}

resume_at-past :
    (r : Resume) (c : ℕ) (k : Kernel)
    → past_lock r ≡ true
    → resume_at r c k ≡ some (tt, record k { irq_on = true })
unfolding resume_at enable_interrupts
resume_at-past launch c k past = refl
resume_at-past (in_mutex_lock m) c k past = cc
resume_at-past in_mutex_unlock c k past = refl
resume_at-past in_dev_wait c k past = refl
resume_at-past in_dev_update c k past = refl

-- the task that is chosen only enables interrupts
pub resume_current_lem :
    {n c : ℕ} {ys : ℕ → List ℕ} (k : Kernel)
    → Inv n c ys k
    → resume_current k ≡ some (tt, record k { irq_on = true })
unfolding resume_current
resume_current_lem {n} {c} k i =
    ap (λ p. and_then (deref p k) (λ cur s. resume_at (k.system_tcb cur).resume cur s)) i.cur
    ∙ resume_at-past (k.system_tcb c).resume c k (i.tasks c i.cur_live).resumes
