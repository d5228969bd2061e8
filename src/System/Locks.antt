-- ===== src/System/Locks.antt =====
-- The calls on mutexes between two steps: `mutex_lock` never makes its caller wait, since only the
-- current task can hold a lock.
use embedlab.Prelude.{
  ℕ, ◌+◌, ◌<◌, ◌≡◌, ◌≢◌, refl, ap, sym, subst, ◌∙◌, Bool, true, false, Bool-cases, inl, inr, some,
  List, ◌==◌, if◌then◌else◌, count-more, arith, neg32, einval, edeadlock,
}
use embedlab.Kernel.{Kernel, Tcb, Mutex}
use embedlab.Mutex.{returned, mutex_lock, bad_mutex, ptr_eq}
use embedlab.Mutex.Lock.{Acquired, lock_bad, lock_own, mutex_lock_free}
use embedlab.System.Invariant.{IsTask, IsBest, Inv}
use embedlab.System.Frame.{Keeps, Inv-Keeps}

pub good-lt : (m : ℕ) → bad_mutex m ≡ false → m < 32
good-lt m good = ground (arith, good)

-- the result of a call that changes nothing else than the interrupt mask
pub Inv-irq :
    {n c : ℕ} {ys : ℕ → List ℕ} (k : Kernel) (b : Bool)
    → Inv n c ys k
    → Inv n c ys (record k { irq_on = b })
Inv-irq k b i = Inv-Keeps k k.system_tcb k.gt_mutex b i (record {
  tasks = i.tasks;
  cur_prio = i.cur_prio;
  others_prio = i.others_prio;
  others_hold = i.others_hold;
  held = i.held;
  holder = i.holder;
  no_waiters = i.no_waiters;
  links = λ t. refl;
})

module _ {n c : ℕ} {ys : ℕ → List ℕ} (k : Kernel) (i : Inv n c ys k) where
  -- the state behind a lock that was free
  module _ (m : ℕ) (good : bad_mutex m ≡ false) (free : (k.gt_mutex m).lock ≡ false) (k' : Kernel)
      (a : Acquired k m c k') where
    as_others : (t : ℕ) → c ≢ t → k'.system_tcb t ≡ k.system_tcb t
    as_others = a.tcbs

    locked_now : (j : ℕ) → (k'.gt_mutex j).lock ≡ (if m == j then true else (k.gt_mutex j).lock)
    locked_now j = elim (Bool-cases (m == j)) [
      | inl e ↦
          ap (λ x. (k'.gt_mutex x).lock) (let s : j ≡ m = ground (arith, e) in s)
          ∙ (ap (λ (v : Mutex). v.lock) a.mutex ∙ rw e refl)
      | inr e ↦ ap (λ (v : Mutex). v.lock) (a.others j (ground (arith, e))) ∙ rw e refl
    ]

    acquired-Keeps : Keeps n c k k'.system_tcb k'.gt_mutex
    acquired-Keeps = record {
      tasks = λ t l. elim (Bool-cases (c == t)) [
        | inl e ↦
            let s : c ≡ t = ground (arith, e) in
            let w = i.tasks c i.cur_live in
            subst (λ x. IsTask x (k'.system_tcb x)) s
              (subst (λ (b : Tcb). IsTask c b) (sym a.owner)
                (record { native = w.native; awake = w.awake; resumes = w.resumes }))
        | inr e ↦ subst (λ (b : Tcb). IsTask t b) (sym (a.tcbs t (ground (arith, e)))) (i.tasks t l)
      ];
      cur_prio =
          ap (λ (b : Tcb). b.cur_prio) a.owner
          ∙ ground (arith, ap (λ (b : Tcb). b.holds_lock) a.owner);
      others_prio = λ t l ne. ap (λ (b : Tcb). b.cur_prio) (a.tcbs t ne) ∙ i.others_prio t l ne;
      others_hold = λ t l ne. ap (λ (b : Tcb). b.holds_lock) (a.tcbs t ne) ∙ i.others_hold t l ne;
      held =
          ap (λ (b : Tcb). b.holds_lock) a.owner
          ∙ (ap (λ h. h + 1) i.held
              ∙ sym (
                  count-more (λ j. (k.gt_mutex j).lock) (λ j. (k'.gt_mutex j).lock) m 32
                    (good-lt m good) free (locked_now m ∙ ground arith)
                    (λ j ne. ap (λ (v : Mutex). v.lock) (a.others j ne))));
      holder = λ j h locked. elim (Bool-cases (m == j)) [
        | inl e ↦
            ap (λ x. (k'.gt_mutex x).holding_tcb) (let s : j ≡ m = ground (arith, e) in s)
            ∙ ap (λ (v : Mutex). v.holding_tcb) a.mutex
        | inr e ↦
            let same : k'.gt_mutex j ≡ k.gt_mutex j = a.others j (ground (arith, e)) in
            ap (λ (v : Mutex). v.holding_tcb) same
            ∙ i.holder j h (sym (ap (λ (v : Mutex). v.lock) same) ∙ locked)
      ];
      no_waiters = λ j h. elim (Bool-cases (m == j)) [
        | inl e ↦
            ap (λ x. (k'.gt_mutex x).sleep_queue) (let s : j ≡ m = ground (arith, e) in s)
            ∙ (ap (λ (v : Mutex). v.sleep_queue) a.mutex ∙ i.no_waiters m (good-lt m good))
        | inr e ↦
            ap (λ (v : Mutex). v.sleep_queue) (a.others j (ground (arith, e))) ∙ i.no_waiters j h
      ];
      links = λ t. elim (Bool-cases (c == t)) [
        | inl e ↦
            let s : t ≡ c = ground (arith, e) in
            ap (λ x. (k'.system_tcb x).sleep_queue) s
            ∙ (ap (λ (b : Tcb). b.sleep_queue) a.owner
                ∙ ap (λ x. (k.system_tcb x).sleep_queue) (sym s))
        | inr e ↦ ap (λ (b : Tcb). b.sleep_queue) (a.tcbs t (ground (arith, e)))
      ];
    }

    pub acquired-Inv : Inv n c ys k'
    acquired-Inv =
        subst (λ (s : Kernel). Inv n c ys s) (sym a.rest)
          (Inv-Keeps k k'.system_tcb k'.gt_mutex true i acquired-Keeps)

  pub Acquired-IsBest : (m : ℕ) (k' : Kernel) → Acquired k m c k' → IsBest c k'
  Acquired-IsBest m k' a p h = absurd (omega (arith, h, ap (λ (b : Tcb). b.cur_prio) a.owner))

  pub holder_own :
      (m : ℕ)
      → bad_mutex m ≡ false
      → (k.gt_mutex m).lock ≡ true
      → ptr_eq k.cur_tcb (k.gt_mutex m).holding_tcb ≡ true
  holder_own m good busy = rw (i.cur, i.holder m (good-lt m good) busy) (ground arith)

  -- `mutex_lock` returns to its caller.
  pub mutex_lock-Inv :
      (m : ℕ)
      → IsBest c k
      → (r : ℕ) × (k' : Kernel) × (mutex_lock m k ≡ some (returned r, k'))
        × Inv n c ys k'
        × IsBest c k'
        × (r ≡ (
            if bad_mutex m
            then neg32 einval
            else if (k.gt_mutex m).lock
            then neg32 edeadlock
            else 0))
  mutex_lock-Inv m best = elim (Bool-cases (bad_mutex m)) [
    | inl bad ↦ (
      neg32 einval,
      record k { irq_on = true },
      lock_bad m k bad,
      Inv-irq k true i,
      best,
      rw bad refl,
    )
    | inr good ↦ elim (Bool-cases (k.gt_mutex m).lock) [
      | inl busy ↦ (
        neg32 edeadlock,
        record k { irq_on = true },
        lock_own m k good busy (holder_own m good busy),
        Inv-irq k true i,
        best,
        rw (good, busy) refl,
      )
      | inr free ↦
          let (k', run, a) = mutex_lock_free m c k good i.cur free in
          (0, k', run, acquired-Inv m good free k' a, Acquired-IsBest m k' a, rw (good, free) refl)
    ]
  ]
