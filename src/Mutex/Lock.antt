-- ===== src/Mutex/Lock.antt =====
-- What `mutex_lock` does on each of its branches.
use embedlab.Prelude.{
  ℕ, ◌+◌, ◌<◌, ◌≡◌, ◌≢◌, refl, ap, sym, ◌∙◌, true, false, Option, none, some, List, arith,
  if◌then◌else◌, has, update, subst, neg32, einval, edeadlock, is_some, Bool-cases, inl, inr,
}
use embedlab.RunQueue.{TcbPtr}
use embedlab.RunQueue.Laws.{IsValid}
use embedlab.Kernel.{Kernel, in_mutex_lock, pure, and_then}
use embedlab.Dispatch.{dispatch_sleep}
use embedlab.Dispatch.Laws.{switched, IsNext, dispatch_sleep_lem}
use embedlab.Mutex.{
  Exit, returned, suspended, returned_inj, suspended-returned, mutex_lock, wait_for, join_queue,
  bad_mutex, ptr_eq,
}
use embedlab.Mutex.Queue.{Sleepers, Joined, join_queue_lem}

-- Task `c` holds mutex `m` in `k'`, and did not in `k`: one more lock is counted for it, it has the
-- highest priority, and nothing else differs but that interrupts are enabled.
pub record Acquired (k : Kernel) (m c : ℕ) (k' : Kernel) : Type 0 where
  pub mutex : k'.gt_mutex m ≡ record (k.gt_mutex m) { lock = true; holding_tcb = some c }
  pub others : (j : ℕ) → m ≢ j → k'.gt_mutex j ≡ k.gt_mutex j
  pub owner :
      k'.system_tcb c
      ≡ record (k.system_tcb c) { holds_lock = (k.system_tcb c).holds_lock + 1; cur_prio = 0 }
  pub tcbs : (t : ℕ) → c ≢ t → k'.system_tcb t ≡ k.system_tcb t
  pub rest : k' ≡ record k { system_tcb = k'.system_tcb; gt_mutex = k'.gt_mutex; irq_on = true }

-- the possible ends of a call that returns at once
module _ (m : ℕ) (k : Kernel) where
  pub lock_bad :
      bad_mutex m ≡ true
      → mutex_lock m k ≡ some (returned (neg32 einval), record k { irq_on = true })
  unfolding mutex_lock
  lock_bad bad = rw bad refl

  pub lock_own :
      bad_mutex m ≡ false
      → (k.gt_mutex m).lock ≡ true
      → ptr_eq k.cur_tcb (k.gt_mutex m).holding_tcb ≡ true
      → mutex_lock m k ≡ some (returned (neg32 edeadlock), record k { irq_on = true })
  unfolding mutex_lock
  lock_own good busy own = simp (good, busy, own)

-- A mutex that is not locked is taken at once, whether it has been created or not: the call
-- returns 0.
pub mutex_lock_free :
    (m c : ℕ) (k : Kernel)
    → bad_mutex m ≡ false
    → k.cur_tcb ≡ some c
    → (k.gt_mutex m).lock ≡ false
    → (k' : Kernel) × (mutex_lock m k ≡ some (returned 0, k')) × Acquired k m c k'
unfolding mutex_lock
mutex_lock_free m c k good cur free = (
  record k {
    system_tcb =
        update k.system_tcb c
          (record (k.system_tcb c) { holds_lock = (k.system_tcb c).holds_lock + 1; cur_prio = 0 });
    gt_mutex =
        update (update k.gt_mutex m (record (k.gt_mutex m) { lock = true })) m
          (record (update k.gt_mutex m (record (k.gt_mutex m) { lock = true }) m) {
            holding_tcb = some c;
          });
    irq_on = true;
  },
  simp (good, free, cur),
  record {
    mutex = ground arith;
    others = λ j ne. ground arith;
    owner = ground arith;
    tcbs = λ t ne. ground arith;
    rest = refl;
  },
)

wait_for_lem :
    (m c n : ℕ) (k k1 k2 : Kernel)
    → join_queue m c k ≡ some (tt, k1)
    → dispatch_sleep (in_mutex_lock m) k1 ≡ some (tt, k2)
    → wait_for m (some c) k ≡ some (suspended, k2)
unfolding wait_for
wait_for_lem m c n k k1 k2 joins sleeps = rw (joins, sleeps) refl

waits :
    (m : ℕ) (k : Kernel)
    → bad_mutex m ≡ false
    → (k.gt_mutex m).lock ≡ true
    → ptr_eq k.cur_tcb (k.gt_mutex m).holding_tcb ≡ false
    → mutex_lock m k ≡ wait_for m k.cur_tcb (record k { irq_on = false })
unfolding mutex_lock
waits m k good busy other = simp (good, busy, other)

-- A mutex that another task holds makes the caller wait: it is appended to the sleep queue, marked
-- as pending, and the task of the least taken slot of the run queue runs.
pub mutex_lock_busy :
    (m c p : ℕ) (k : Kernel) (xs : List ℕ)
    → bad_mutex m ≡ false
    → k.cur_tcb ≡ some c
    → (k.gt_mutex m).lock ≡ true
    → ptr_eq (some c) (k.gt_mutex m).holding_tcb ≡ false
    → Sleepers k m xs
    → has c xs ≡ false
    → IsValid k.run_queue
    → p < 64
    → is_some (k.run_queue.run_list p) ≡ true
    → (k1 : Kernel) × (n : ℕ) × Joined (record k { irq_on = false }) m c xs k1
      × IsNext k1.run_queue n
      × (mutex_lock m k ≡ some (suspended, switched k1.run_queue c (in_mutex_lock m) n k1))
mutex_lock_busy m c p k xs good cur busy other s out v small taken =
    let k0 : Kernel = record k { irq_on = false } in
    let s0 : Sleepers k0 m xs = record { chain = s.chain; distinct = s.distinct; fits = s.fits } in
    let (k1, joins, j) = join_queue_lem k0 m c xs s0 out in
    let (n, is_next, sleeps) =
      dispatch_sleep_lem k1 (in_mutex_lock m) c p (ap (λ (z : Kernel). z.cur_tcb) j.rest ∙ cur)
        (subst (λ (z : Kernel). IsValid z.run_queue) (sym j.rest) v) small
        (ap (λ (z : Kernel). is_some (z.run_queue.run_list p)) j.rest ∙ taken) in
    (
      k1,
      n,
      j,
      is_next,
      waits m k good busy (ap (λ q. ptr_eq q (k.gt_mutex m).holding_tcb) cur ∙ other)
          ∙ ap (λ q. wait_for m q k0) cur
          ∙ wait_for_lem m c n k0 k1 _ joins sleeps,
    )

wait_for-suspended :
    (m : ℕ) (p : TcbPtr) (k : Kernel) (e : Exit) (k' : Kernel)
    → wait_for m p k ≡ some (e, k')
    → e ≡ suspended
unfolding wait_for
wait_for-suspended m none k e k' h = cc
wait_for-suspended m (some c) k e k' h = go (join_queue m c k) h
  where
    go2 :
        (o : Option (Unit {0} × Kernel))
        → and_then o (λ _. pure suspended) ≡ some (e, k')
        → e ≡ suspended
    go2 none h = cc
    go2 (some (u, s)) h = ground arith

    go :
        (o : Option (Unit {0} × Kernel))
        → and_then o (λ _ s. and_then (dispatch_sleep (in_mutex_lock m) s) (λ _. pure suspended))
          ≡ some (e, k')
        → e ≡ suspended
    go none h = cc
    go (some (u, s)) h = go2 (dispatch_sleep (in_mutex_lock m) s) h

-- A call that returns anything but 0 has changed nothing but the interrupt mask, and its result is
-- `-EINVAL` for an index out of range and `-EDEADLOCK` otherwise: for a mutex that is locked and that
-- the caller holds.
pub mutex_lock_error :
    (m c r : ℕ) (k k' : Kernel)
    → k.cur_tcb ≡ some c
    → mutex_lock m k ≡ some (returned r, k')
    → r ≢ 0
    → (k' ≡ record k { irq_on = true })
      × (r ≡ (if bad_mutex m then neg32 einval else neg32 edeadlock))
mutex_lock_error m c r k k' cur h nz = elim (Bool-cases (bad_mutex m)) [
  | inl bad ↦
      let (same_state, code) = returned_inj r k' _ _ (sym (lock_bad m k bad) ∙ h) in
      (same_state, code ∙ rw bad refl)
  | inr good ↦ elim (Bool-cases (k.gt_mutex m).lock) [
    | inr free ↦
        let (s, e, _) = mutex_lock_free m c k good cur free in
        let (_, code) = returned_inj r k' _ _ (sym e ∙ h) in absurd (nz code)
    | inl busy ↦ elim (Bool-cases (ptr_eq k.cur_tcb (k.gt_mutex m).holding_tcb)) [
      | inl own ↦
          let (same_state, code) = returned_inj r k' _ _ (sym (lock_own m k good busy own) ∙ h) in
          (same_state, code ∙ rw good refl)
      | inr other ↦ absurd (
          suspended-returned r (
            wait_for-suspended m k.cur_tcb (record k { irq_on = false }) (returned r) k'
              (sym (waits m k good busy other) ∙ h)))
    ]
  ]
]
