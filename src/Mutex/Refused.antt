-- ===== src/Mutex/Refused.antt =====
-- The calls of `mutex_unlock` that return to their caller at once.
use embedlab.Prelude.{
  ℕ, ◌≡◌, refl, sym, ◌∙◌, true, false, Bool, Option, none, some, ◌||◌, not, arith, if◌then◌else◌,
  neg32, einval, eperm, is_some, Bool-cases, inl, inr,
}
use embedlab.RunQueue.{TcbPtr}
use embedlab.Kernel.{Kernel, in_mutex_unlock, pure, deref, and_then}
use embedlab.Dispatch.{dispatch_save}
use embedlab.Mutex.{
  Exit, returned, suspended, returned_inj, suspended-returned, mutex_unlock, release, wake_first,
  drop_count, bad_mutex, ptr_eq,
}

module _ (m : ℕ) (k : Kernel) where
  pub unlock_bad :
      bad_mutex m ≡ true
      → mutex_unlock m k ≡ some (returned (neg32 einval), record k { irq_on = true })
  unfolding mutex_unlock
  unlock_bad bad = rw bad refl

  unfoldable pub no_right : Bool
  no_right = (k.gt_mutex m).available || not (ptr_eq k.cur_tcb (k.gt_mutex m).holding_tcb)

  pub unlock_no_right :
      bad_mutex m ≡ false
      → no_right ≡ true
      → mutex_unlock m k ≡ some (returned (neg32 eperm), record k { irq_on = true })
  unfolding mutex_unlock no_right
  unlock_no_right good h = simp (good, h)

  unlock_idle :
      bad_mutex m ≡ false
      → no_right ≡ false
      → is_some (k.gt_mutex m).holding_tcb ≡ false
      → mutex_unlock m k ≡ some (returned 0, record k { irq_on = true })
  unfolding mutex_unlock no_right
  unlock_idle good right idle =
      let made : (k.gt_mutex m).available ≡ false = ground (arith, right) in
      let own : ptr_eq k.cur_tcb (k.gt_mutex m).holding_tcb ≡ true = ground (arith, right) in
      simp (good, made, own, idle)

  unlock_release :
      bad_mutex m ≡ false
      → no_right ≡ false
      → is_some (k.gt_mutex m).holding_tcb ≡ true
      → mutex_unlock m k ≡ release m k.cur_tcb (record k { irq_on = false })
  unfolding mutex_unlock no_right
  unlock_release good right held =
      let made : (k.gt_mutex m).available ≡ false = ground (arith, right) in
      let own : ptr_eq k.cur_tcb (k.gt_mutex m).holding_tcb ≡ true = ground (arith, right) in
      simp (good, made, own, held)

release-suspended :
    (m : ℕ) (p : TcbPtr) (k : Kernel) (e : Exit) (k' : Kernel)
    → release m p k ≡ some (e, k')
    → e ≡ suspended
unfolding release drop_count
release-suspended m p k e k' h = first (wake_first m k) h
  where
    last :
        (o : Option (Unit {0} × Kernel))
        → and_then o (λ _. pure suspended) ≡ some (e, k')
        → e ≡ suspended
    last none h = cc
    last (some (u, s)) h = ground arith

    switch :
        (q : TcbPtr) (s : Kernel)
        → and_then (deref q s) (λ cur s1.
          and_then
            (drop_count cur s1)
            (λ _ s2. and_then (dispatch_save in_mutex_unlock s2) (λ _. pure suspended)))
          ≡ some (e, k')
        → e ≡ suspended
    switch none s h = cc
    switch (some c) s h = last (dispatch_save in_mutex_unlock _) h

    first :
        (o : Option (Unit {0} × Kernel))
        → and_then o (λ _ s. and_then (deref p s) (λ cur s1.
          and_then
            (drop_count cur s1)
            (λ _ s2. and_then (dispatch_save in_mutex_unlock s2) (λ _. pure suspended))))
          ≡ some (e, k')
        → e ≡ suspended
    first none h = cc
    first (some (u, s)) h = switch p s h

-- A call that returns to its caller at once has changed nothing but the interrupt mask. Its result
-- is `-EINVAL` for an index out of range; else `-EPERM` for a mutex that was never created or whose
-- holder is not the caller; else 0.
pub mutex_unlock_error :
    (m r : ℕ) (k k' : Kernel)
    → mutex_unlock m k ≡ some (returned r, k')
    → (k' ≡ record k { irq_on = true })
      × (r ≡ (
          if bad_mutex m
          then neg32 einval
          else if (k.gt_mutex m).available || not (ptr_eq k.cur_tcb (k.gt_mutex m).holding_tcb)
          then neg32 eperm
          else 0))
unfolding no_right
mutex_unlock_error m r k k' h = elim (Bool-cases (bad_mutex m)) [
  | inl bad ↦
      let (state, code) = returned_inj r k' _ _ (sym (unlock_bad m k bad) ∙ h) in
      (state, code ∙ rw bad refl)
  | inr good ↦ elim (Bool-cases (no_right m k)) [
    | inl denied ↦
        let (state, code) = returned_inj r k' _ _ (sym (unlock_no_right m k good denied) ∙ h) in
        (state, code ∙ simp (good, denied))
    | inr right ↦ elim (Bool-cases (is_some (k.gt_mutex m).holding_tcb)) [
      | inr idle ↦
          let (state, code) = returned_inj r k' _ _ (sym (unlock_idle m k good right idle) ∙ h) in
          (state, code ∙ simp (good, right))
      | inl held ↦ absurd (
          suspended-returned r (
            release-suspended m k.cur_tcb (record k { irq_on = false }) (returned r) k'
              (sym (unlock_release m k good right held) ∙ h)))
    ]
  ]
]
