-- ===== src/System/Wakeup.antt =====
-- A tick lets nobody sleep on whose device is due.
use embedlab.Prelude.{
  ℕ, ◌<◌, ◌≡◌, ap, ◌∙◌, true, false, inl, inr, Bool-cases, ◌⊎◌, some, List, has, ◌==◌, arith,
  bit_and, shl,
}
use embedlab.RunQueue.{RunQueue, TcbPtr}
use embedlab.Kernel.{Kernel, and_then}
use embedlab.Device.Update.{due}
use embedlab.Timer.{account, clock_of, int_ostmr_0}
use embedlab.System.{step, settle, handle, ticks}
use embedlab.System.Invariant.{IsQueued, WellFormed}
use embedlab.System.Awoken.{asleep, still}
use embedlab.System.Ticks.{clock, ticked, ticked-Inv, ticks-update, ticks-Updated}
use embedlab.System.Steps.{settled}

module _ {n : ℕ} (d t icpr oscr : ℕ) (k : Kernel) (w : WellFormed n k) (dev : d < 60)
    (there : has t (w.sleeping d) ≡ true)
    (on : due k.devices (account oscr (clock_of k)).system_time d ≡ true) where
  abbrev time : ℕ
  time = (clock k w.inv w.best icpr oscr).system_time

  abbrev left : ℕ → List ℕ
  left = asleep (ticked k w.inv w.best icpr oscr) (ticked-Inv k w.inv w.best icpr oscr) time

  -- nobody who slept on the device is asleep any more
  awake : (e : ℕ) → e < 60 → has t (left e) ≡ false
  awake e h = elim (Bool-cases (has t (left e))) [
    | inr out ↦ out
    | inl within ↦
        let (off, was) =
          still (ticked k w.inv w.best icpr oscr) (ticked-Inv k w.inv w.best icpr oscr) time e t
            within in
        let same : d ≡ e = w.inv.sleeps_once d e t dev h there was in
        absurd (
          ground (
            arith,
            off,
            h,
            on,
            ap (λ x. due k.devices (account oscr (clock_of k)).system_time x) same,
          ))
  ]

  runs_or_waits : (c : ℕ) (q : ℕ → TcbPtr) → (c ≡ t) ⊎ IsQueued q left t → (c ≡ t) ⊎ (q t ≡ some t)
  runs_or_waits c q (inl e) = inl e
  runs_or_waits c q (inr (inl here)) = inr here
  runs_or_waits c q (inr (inr (e, h, asleep))) = absurd (ground (arith, awake e h, asleep))

-- When the timer has ticked and a device is due, whoever sleeps on it runs after the step, or stands
-- in the run queue in its own slot.
pub ticks-wake :
    (n d t icpr oscr : ℕ) (k : Kernel)
    → (w : WellFormed n k) → d < 60
    → has t (w.sleeping d) ≡ true
    → (bit_and icpr (shl 1 int_ostmr_0) == 0) ≡ false
    → due k.devices (account oscr (clock_of k)).system_time d ≡ true
    → (k' : Kernel) × (step (ticks icpr oscr) k ≡ some (tt, k'))
      × ((k'.cur_tcb ≡ some t) ⊎ (k'.run_queue.run_list t ≡ some t))
unfolding step handle
ticks-wake n d t icpr oscr k w dev there timer on =
    let u = ticks-Updated k w.inv w.best icpr oscr in
    let (k', run, _, cur, queue, _) =
      settled {n = n} u.exit u.state
        (record { current = u.current; sleeping = _; inv = u.inv; best = u.best }) in
    (
      k',
      ap (λ o. and_then o settle) (ticks-update k w.inv w.best icpr oscr timer ∙ u.runs) ∙ run,
      elim (runs_or_waits d t icpr oscr k w dev there on u.current u.state.run_queue.run_list
          (u.inv.placed t (w.inv.sleepers_live d t dev there))) [
            | inl e ↦ inl (cur ∙ (u.inv.cur ∙ ap some e))
            | inr here ↦ inr (ap (λ (q : RunQueue). q.run_list t) queue ∙ here)
          ],
    )
