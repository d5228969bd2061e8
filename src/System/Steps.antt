-- ===== src/System/Steps.antt =====
-- The steps of the system keep its invariant and never fault, so every state that can be reached
-- from a well-formed one is well-formed.
use embedlab.Prelude.{ℕ, ◌≡◌, refl, ap, ◌∙◌, true, some, if◌then◌else◌, neg32, einval, edeadlock}
use embedlab.Kernel.{Kernel, and_then}
use embedlab.Mutex.{Exit, returned, suspended, mutex_lock, bad_mutex}
use embedlab.System.{Event, creates, locks, unlocks, waits, ticks, handle, step, settle, allowed}
use embedlab.System.Invariant.{WellFormed}
use embedlab.System.Frame.{resume_current_lem}
use embedlab.System.Locks.{Inv-irq, mutex_lock-Inv}
use embedlab.System.Frees.{Handled, creates_lem, unlocks_lem}
use embedlab.System.Waits.{waits_lem}
use embedlab.System.Ticks.{ticks_lem}

locks_lem : {n : ℕ} (m : ℕ) (k : Kernel) → WellFormed n k → Handled n (handle (locks m) k)
unfolding handle
locks_lem m k w =
    let (r, k', run, inv, best, _) = mutex_lock-Inv k w.inv m w.best in
    record {
      exit = returned r;
      state = k';
      runs = run;
      well_formed = record { current = w.current; sleeping = w.sleeping; inv = inv; best = best };
    }

handled :
    {n : ℕ} (event : Event) (k : Kernel)
    → WellFormed n k
    → allowed event k ≡ true
    → Handled n (handle event k)
handled creates k w fair = creates_lem k w.inv w.best
handled (locks m) k w fair = locks_lem m k w
handled (unlocks m) k w fair = unlocks_lem k w.inv w.best m fair
handled (waits d) k w fair = waits_lem k w.inv w.best d fair
handled (ticks icpr oscr) k w fair = ticks_lem k w.inv w.best icpr oscr

-- a call that has returned leaves the kernel; else the next task runs until it has
pub settled :
    {n : ℕ} (e : Exit) (k : Kernel)
    → WellFormed n k
    → (k' : Kernel) × (settle e k ≡ some (tt, k'))
      × WellFormed n k'
      × (k'.cur_tcb ≡ k.cur_tcb)
      × (k'.run_queue ≡ k.run_queue)
      × (k'.gt_mutex ≡ k.gt_mutex)
unfolding settle
settled (returned r) k w = (k, refl, w, refl, refl, refl)
settled suspended k w = (
  record k { irq_on = true },
  resume_current_lem k w.inv,
  record { current = w.current; sleeping = w.sleeping; inv = Inv-irq k true w.inv; best = w.best },
  refl,
  refl,
  refl,
)

-- Take a well-formed state and a step that is no second unlock of a mutex by the holder that has
-- freed it, no wait for number 60 and none by the idle task. The step is without a fault and leads to
-- a well-formed state: the run queue is valid, each task that exists runs, is queued in its own slot
-- or sleeps on exactly one device, only the current task holds locks, and no queued task has a higher
-- priority than it.
pub step-WellFormed :
    (n : ℕ) (event : Event) (k : Kernel)
    → WellFormed n k
    → allowed event k ≡ true
    → (k' : Kernel) × (step event k ≡ some (tt, k')) × WellFormed n k'
unfolding step
step-WellFormed n event k w fair =
    let h = handled event k w fair in
    let (k', run, w', _, _, _) = settled h.exit h.state h.well_formed in
    (k', ap (λ o. and_then o settle) h.runs ∙ run, w')

-- In a well-formed state, `mutex_lock` never makes its caller wait: the mutex is refused by its
-- number, or the caller has it already, or gets it.
pub mutex_lock-returned :
    (n m : ℕ) (k : Kernel)
    → WellFormed n k
    → (k' : Kernel) × (mutex_lock m k
        ≡ some (
          returned (
              if bad_mutex m
              then neg32 einval
              else if (k.gt_mutex m).lock
              then neg32 edeadlock
              else 0),
          k',
        ))
mutex_lock-returned n m k w =
    let (r, k', run, _, _, code) = mutex_lock-Inv k w.inv m w.best in
    (k', run ∙ ap (λ c. some (returned c, k')) code)

-- the states that a run reaches
pub data Reachable : Kernel → Kernel → Type 0 where
  start : (k : Kernel) → Reachable k k
  next :
      (k s t : Kernel) (event : Event)
      → Reachable k s
      → allowed event s ≡ true
      → step event s ≡ some (tt, t)
      → Reachable k t
