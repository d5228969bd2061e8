-- ===== src/Programs/SysErr/Refusals.antt =====
-- Calls that are refused: they return at once, and only enable interrupts.
use embedlab.Prelude.{
  ℕ, ◌≡◌, refl, ap, ◌∙◌, true, false, none, some, ltb, arith, neg32, einval, eperm, edeadlock,
}
use embedlab.Kernel.{Kernel}
use embedlab.Mutex.{returned, bad_mutex, ptr_eq}
use embedlab.Mutex.Lock.{lock_bad, lock_own}
use embedlab.Mutex.Refused.{no_right, unlock_bad, unlock_no_right}
use embedlab.Proc.{event_wait}
use embedlab.System.{Event, locks, unlocks, waits, handle, settle}
use embedlab.System.Invariant.{WellFormed}
use embedlab.System.Locks.{Inv-irq, holder_own}
use embedlab.Programs.{call}

abbrev pub enabled : Kernel → Kernel
enabled k = record k { irq_on = true }

pub enabled-WellFormed : {n : ℕ} (k : Kernel) → WellFormed n k → WellFormed n (enabled k)
enabled-WellFormed k w = record {
  current = w.current;
  sleeping = w.sleeping;
  inv = Inv-irq k true w.inv;
  best = w.best;
}

refused :
    (event : Event) (k k' : Kernel) (r : ℕ)
    → handle event k ≡ some (returned r, k')
    → call event k ≡ some (r, k')
unfolding call settle
refused event k k' r run = rw run refl

module _ (k : Kernel) (m : ℕ) where
  pub call-unlocks-bad : bad_mutex m ≡ true → call (unlocks m) k ≡ some (neg32 einval, enabled k)
  unfolding handle
  call-unlocks-bad bad = refused (unlocks m) k (enabled k) (neg32 einval) (unlock_bad m k bad)

  pub call-locks-bad : bad_mutex m ≡ true → call (locks m) k ≡ some (neg32 einval, enabled k)
  unfolding handle
  call-locks-bad bad = refused (locks m) k (enabled k) (neg32 einval) (lock_bad m k bad)

  -- nobody has ever held the mutex
  pub call-unlocks-fresh :
      (c : ℕ)
      → bad_mutex m ≡ false
      → k.cur_tcb ≡ some c
      → (k.gt_mutex m).holding_tcb ≡ none
      → call (unlocks m) k ≡ some (neg32 eperm, enabled k)
  unfolding handle no_right
  call-unlocks-fresh c good cur fresh =
      let other : ptr_eq k.cur_tcb (k.gt_mutex m).holding_tcb ≡ false =
        ap (λ p. ptr_eq p (k.gt_mutex m).holding_tcb) cur ∙ ap (ptr_eq (some c)) fresh in
      refused (unlocks m) k (enabled k) (neg32 eperm)
        (unlock_no_right m k good (ground (arith, other)))

  -- the caller holds the mutex already
  pub call-locks-own :
      {n : ℕ}
      → (w : WellFormed n k) → bad_mutex m ≡ false
      → (k.gt_mutex m).lock ≡ true
      → call (locks m) k ≡ some (neg32 edeadlock, enabled k)
  unfolding handle
  call-locks-own w good busy =
      refused (locks m) k (enabled k) (neg32 edeadlock)
        (lock_own m k good busy (holder_own k w.inv m good busy))

  pub call-waits-far : ltb 60 m ≡ true → call (waits m) k ≡ some (neg32 einval, k)
  unfolding handle event_wait
  call-waits-far far = refused (waits m) k k (neg32 einval) (rw far refl)
