-- ===== src/Mutex/Unlock.antt =====
-- What `mutex_unlock` does for the holder.
use embedlab.Prelude.{
  ℕ, ◌<◌, ◌≡◌, ◌≢◌, refl, ap, ◌∙◌, true, false, none, some, List, ◌∷◌, arith, ◌==◌, has, update,
  update_self, Bool-cases, inl, inr,
}
use embedlab.RunQueue.{runqueue_add}
use embedlab.RunQueue.Laws.{IsValid, runqueue_add-IsValid}
use embedlab.Kernel.{Kernel, Tcb, in_mutex_unlock, set_mutex, set_tcb}
use embedlab.Kernel.Chain.{Chain-frame}
use embedlab.Dispatch.{dispatch_save}
use embedlab.Dispatch.Laws.{switched, IsNext, dispatch_save_lem, with_current}
use embedlab.Mutex.{
  suspended, mutex_unlock, release, wake_first, wake_at, dropped, bad_mutex, ptr_eq,
}
use embedlab.Mutex.Queue.{link, Sleepers}

module _ (m c : ℕ) (k : Kernel) where
  -- the state at the dispatch, with no task in the sleep queue
  abbrev pub freed : Kernel
  freed = record k {
    system_tcb = update k.system_tcb c (dropped (k.system_tcb c));
    gt_mutex = update k.gt_mutex m (record (k.gt_mutex m) { lock = false });
    irq_on = false;
  }

  -- the state at the dispatch, with task `x` first in the sleep queue
  abbrev pub woken : ℕ → Tcb
  woken x = record (k.system_tcb x) {
    mutex_sleep_queue = none;
    pending = 0;
    cur_prio = (k.system_tcb x).native_prio;
  }

  abbrev pub handed : ℕ → Kernel
  handed x = record k {
    system_tcb =
        update (update k.system_tcb x (woken x)) c (dropped (update k.system_tcb x (woken x) c));
    gt_mutex = update k.gt_mutex m (record (k.gt_mutex m) { sleep_queue = link k x });
    run_queue = runqueue_add x (k.system_tcb x).native_prio k.run_queue;
    irq_on = false;
  }

  releases :
      (h : ℕ)
      → bad_mutex m ≡ false
      → (k.gt_mutex m).available ≡ false
      → (k.gt_mutex m).holding_tcb ≡ some h
      → ptr_eq k.cur_tcb (some h) ≡ true
      → mutex_unlock m k ≡ release m k.cur_tcb (record k { irq_on = false })
  unfolding mutex_unlock
  releases h good made held own = simp (good, made, held, own)

  release_lem :
      (k0 k1 k3 : Kernel)
      → wake_first m k0 ≡ some (tt, k1)
      → dispatch_save in_mutex_unlock (set_tcb c (dropped (k1.system_tcb c)) k1) ≡ some (tt, k3)
      → release m (some c) k0 ≡ some (suspended, k3)
  unfolding release
  release_lem k0 k1 k3 wakes switches = rw (wakes, switches) refl

  wake_none :
      (k.gt_mutex m).sleep_queue ≡ none
      → wake_first m (record k { irq_on = false })
        ≡ some
            (tt, set_mutex m (record (k.gt_mutex m) { lock = false }) (record k { irq_on = false }))
  unfolding wake_first
  wake_none e = ap (λ p. wake_at m p (record k { irq_on = false })) e

  abbrev given : ℕ → Kernel
  given x = record k {
    system_tcb = update k.system_tcb x (woken x);
    gt_mutex = update k.gt_mutex m (record (k.gt_mutex m) { sleep_queue = link k x });
    run_queue = runqueue_add x (k.system_tcb x).native_prio k.run_queue;
    irq_on = false;
  }

  wake_some :
      (x : ℕ)
      → (k.gt_mutex m).sleep_queue ≡ some x
      → wake_first m (record k { irq_on = false }) ≡ some (tt, given x)
  unfolding wake_first
  wake_some x e = ap (λ p. wake_at m p (record k { irq_on = false })) e

  link-handed :
      (x : ℕ) (xs : List ℕ)
      → has x xs ≡ false
      → (a : ℕ) → has a xs ≡ true
      → link (handed x) a ≡ link k a
  link-handed x xs out a h = elim (Bool-cases (x == a)) [
    | inl e ↦
        absurd (ground (arith, ap (λ z. has z xs) (let xa : x ≡ a = ground arith in xa), out, h))
    | inr e ↦ ground arith
  ]

  module _ (good : bad_mutex m ≡ false) (made : (k.gt_mutex m).available ≡ false)
      (held : (k.gt_mutex m).holding_tcb ≡ some c) (cur : k.cur_tcb ≡ some c)
      (v : IsValid k.run_queue) (awake : ((k.system_tcb c).pending == 1) ≡ false)
      (prio : ((k.system_tcb c).cur_prio < 64) × ((k.system_tcb c).native_prio < 64)) where
    own : ptr_eq k.cur_tcb (some c) ≡ true
    own = rw cur (ground arith)

    -- The holder's call with an empty sleep queue frees the lock, gives one count back and runs
    -- the best of the run queue and the caller. `pHolding_Tcb` still names the caller.
    pub mutex_unlock_frees :
        (k.gt_mutex m).sleep_queue ≡ none
        → (n : ℕ) × IsNext (with_current c freed) n
          × (mutex_unlock m k
              ≡ some (suspended, switched (with_current c freed) c in_mutex_unlock n freed))
    mutex_unlock_frees empty =
        let (n, is_next, run) =
          dispatch_save_lem freed in_mutex_unlock c cur v (ground (arith, prio))
            (ground (arith, awake)) in
        (
          n,
          is_next,
          releases c good made held own
              ∙ ap (λ p. release m p (record k { irq_on = false })) cur
              ∙ release_lem _ _ _ (wake_none empty) run,
        )

    -- The holder's call with sleepers hands the lock on, first come, first served: the first
    -- sleeper leaves the queue, is pending no more and is put to the run queue at its native
    -- priority, and the others keep their order. The lock stays taken.
    pub mutex_unlock_wakes :
        (x : ℕ) (xs : List ℕ)
        → Sleepers k m (x ∷ xs)
        → c ≢ x
        → (k.system_tcb x).native_prio < 64
        → (n : ℕ) × Sleepers (handed x) m xs
          × IsNext (with_current c (handed x)) n
          × (mutex_unlock m k
              ≡ some
                  (suspended, switched (with_current c (handed x)) c in_mutex_unlock n (handed x)))
    mutex_unlock_wakes x xs s other small =
        let (n, is_next, run) =
          dispatch_save_lem (handed x) in_mutex_unlock c cur
            (runqueue_add-IsValid k.run_queue x (k.system_tcb x).native_prio v small)
            (ground (arith, prio)) (ground (arith, awake)) in
        (
          n,
          record {
            chain =
                rw (update_self k.gt_mutex m (record (k.gt_mutex m) { sleep_queue = link k x })) (
                  Chain-frame (link k) (link (handed x)) (link k x) xs s.chain.1
                    (link-handed x xs s.distinct.0));
            distinct = s.distinct.1;
            fits = omega (arith, s.fits);
          },
          is_next,
          releases c good made held own
              ∙ ap (λ p. release m p (record k { irq_on = false })) cur
              ∙ release_lem _ _ _ (wake_some x s.chain.0) run,
        )

-- A free mutex still names its last holder, so a second unlock by the same task is not refused.
-- Take a task with two locks counted that unlocks mutex `m`, and the state at the dispatch of that
-- call with interrupts enabled again: a second unlock of `m` there reaches its dispatch with no
-- lock counted and the task back at its native priority, while any other mutex is as it was.
pub mutex_unlock_twice :
    (m j c : ℕ) (k : Kernel)
    → bad_mutex m ≡ false
    → m ≢ j
    → (k.gt_mutex m).available ≡ false
    → (k.gt_mutex m).holding_tcb ≡ some c
    → (k.gt_mutex m).sleep_queue ≡ none
    → k.cur_tcb ≡ some c
    → IsValid k.run_queue
    → ((k.system_tcb c).pending == 1) ≡ false
    → ((k.system_tcb c).cur_prio < 64) × ((k.system_tcb c).native_prio < 64)
    → (k.system_tcb c).holds_lock ≡ 2
    → let again = record (freed m c k) { irq_on = true } in
      let k2 = freed m c again in
      (n : ℕ) × (mutex_unlock m again
        ≡ some (suspended, switched (with_current c k2) c in_mutex_unlock n k2))
      × ((k2.system_tcb c).holds_lock ≡ 0)
      × ((k2.system_tcb c).cur_prio ≡ (k.system_tcb c).native_prio)
      × (k2.gt_mutex j ≡ k.gt_mutex j)
mutex_unlock_twice m j c k good apart made held empty cur v awake prio two =
    let again : Kernel = record (freed m c k) { irq_on = true } in
    let (n, is_next, run) =
      mutex_unlock_frees m c again good (ground arith) (ground arith) cur v (ground arith)
        (ground (arith, prio), ground (arith, prio)) (ground arith) in
    (n, run, ground arith, ground arith, ground arith)
