-- ===== src/System/Frees.antt =====
-- `mutex_create` and `mutex_unlock` between two steps.
use embedlab.Prelude.{
  update-same, ℕ, ◌+◌, ◌<◌, ◌≡◌, ◌≢◌, refl, ap, sym, subst, ◌∙◌, true, false, Bool-cases, inl, inr,
  Option, none, some, List, ◌==◌, if◌then◌else◌, ltb, count, count-more, count-same, arith, update,
  neg32, einval, enomem, eperm,
}
use embedlab.Kernel.{Kernel, Tcb, Mutex, and_then, in_mutex_unlock}
use embedlab.RunQueue.{TcbPtr}
use embedlab.Dispatch.Laws.{switched, with_current}
use embedlab.Mutex.{
  Exit, returned, suspended, mutex_create, mutex_unlock, bad_mutex, ptr_eq, dropped,
}
use embedlab.Mutex.Create.{mutex_create_lem}
use embedlab.Mutex.Refused.{no_right, unlock_bad, unlock_no_right}
use embedlab.Mutex.Unlock.{freed, mutex_unlock_frees}
use embedlab.System.{handle, creates, unlocks, allowed}
use embedlab.System.Invariant.{IsTask, IsBest, Inv, WellFormed}
use embedlab.System.Frame.{Keeps, Inv-Keeps}
use embedlab.System.Locks.{Inv-irq, good-lt}
use embedlab.System.Save.{live-lt, chosen-Inv, chosen-IsBest}

-- a handled event: what it has done to a state that keeps the invariant
pub record Handled (n : ℕ) (o : Option (Exit × Kernel)) : Type 0 where
  pub exit : Exit
  pub state : Kernel
  pub runs : o ≡ some (exit, state)
  pub well_formed : WellFormed n state

module _ {n c : ℕ} {ys : ℕ → List ℕ} (k : Kernel) (i : Inv n c ys k) (best : IsBest c k) where
  abbrev well : (s : Kernel) → Inv n c ys s → IsBest c s → WellFormed n s
  well s j b = record { current = c; sleeping = ys; inv = j; best = b }

  -- a mutex that only changes its flag
  pub created-Inv :
      (j : ℕ)
      → Inv n c ys (record k {
        irq_on = true;
        gt_mutex = update k.gt_mutex j (record (k.gt_mutex j) { available = false });
      })
  created-Inv j =
      Inv-Keeps k k.system_tcb (update k.gt_mutex j (record (k.gt_mutex j) { available = false }))
        true i
        (record {
          tasks = i.tasks;
          cur_prio = i.cur_prio;
          others_prio = i.others_prio;
          others_hold = i.others_hold;
          held = i.held ∙ sym (count-same (λ m. (k.gt_mutex m).lock) _ 32 (λ m h. same_lock m));
          holder = λ m h locked. same_holder m ∙ i.holder m h (sym (same_lock m) ∙ locked);
          no_waiters = λ m h. same_queue m ∙ i.no_waiters m h;
          links = λ t. refl;
        })
    where
      same_lock :
          (m : ℕ)
          → (update k.gt_mutex j (record (k.gt_mutex j) { available = false }) m).lock
            ≡ (k.gt_mutex m).lock
      same_lock =
          update-same (λ (v : Mutex). v.lock) k.gt_mutex j
            (record (k.gt_mutex j) { available = false }) refl

      same_holder :
          (m : ℕ)
          → (update k.gt_mutex j (record (k.gt_mutex j) { available = false }) m).holding_tcb
            ≡ (k.gt_mutex m).holding_tcb
      same_holder =
          update-same (λ (v : Mutex). v.holding_tcb) k.gt_mutex j
            (record (k.gt_mutex j) { available = false }) refl

      same_queue :
          (m : ℕ)
          → (update k.gt_mutex j (record (k.gt_mutex j) { available = false }) m).sleep_queue
            ≡ (k.gt_mutex m).sleep_queue
      same_queue =
          update-same (λ (v : Mutex). v.sleep_queue) k.gt_mutex j
            (record (k.gt_mutex j) { available = false }) refl

  abbrev marked : ℕ → Kernel
  marked j = record k {
    irq_on = true;
    gt_mutex = update k.gt_mutex j (record (k.gt_mutex j) { available = false });
  }

  abbrev outcome : ℕ → Option (ℕ × Kernel)
  outcome j =
      if j == 32 then some (neg32 enomem, record k { irq_on = true }) else some (j, marked j)

  full :
      (j : ℕ)
      → mutex_create k ≡ outcome j
      → (j == 32) ≡ true
      → mutex_create k ≡ some (neg32 enomem, record k { irq_on = true })
  full j run e = run ∙ rw e refl

  found :
      (j : ℕ) → mutex_create k ≡ outcome j → (j == 32) ≡ false → mutex_create k ≡ some (j, marked j)
  found j run e = run ∙ rw e refl

  pub creates_lem : Handled n (handle creates k)
  unfolding handle
  creates_lem =
      let (j, first, run) = mutex_create_lem k in
      elim (Bool-cases (j == 32)) [
        | inl e ↦ record {
          exit = returned (neg32 enomem);
          state = record k { irq_on = true };
          runs = ap (λ o. and_then o (λ r s. some (returned r, s))) (full j run e);
          well_formed = well _ (Inv-irq k true i) best;
        }
        | inr e ↦ record {
          exit = returned j;
          state = marked j;
          runs = ap (λ o. and_then o (λ r s. some (returned r, s))) (found j run e);
          well_formed = well _ (created-Inv j) best;
        }
      ]

  -- the state at the dispatch of an unlock
  module _ (m : ℕ) (good : bad_mutex m ≡ false) (locked : (k.gt_mutex m).lock ≡ true) where
    abbrev mutexes : ℕ → Mutex
    mutexes = (freed m c k).gt_mutex

    still : (j : ℕ) → m ≢ j → mutexes j ≡ k.gt_mutex j
    still j ne = ground (arith, ne)

    opened : mutexes m ≡ record (k.gt_mutex m) { lock = false }
    opened = ground arith

    one_less : (k.system_tcb c).holds_lock ≡ count (λ j. (mutexes j).lock) 32 + 1
    one_less =
        i.held
        ∙ count-more (λ j. (mutexes j).lock) (λ j. (k.gt_mutex j).lock) m 32 (good-lt m good)
            (ap (λ (v : Mutex). v.lock) opened) locked
            (λ j ne. sym (ap (λ (v : Mutex). v.lock) (still j ne)))

    released_tcb : (freed m c k).system_tcb c ≡ dropped (k.system_tcb c)
    released_tcb = ground arith

    dropped-IsTask : (t : ℕ) (b : Tcb) → IsTask t b → IsTask t (dropped b)
    dropped-IsTask t b w = elim (Bool-cases (ltb 1 b.holds_lock)) [
      | inl e ↦ rw e (record { native = w.native; awake = w.awake; resumes = w.resumes })
      | inr e ↦ rw e (record { native = w.native; awake = w.awake; resumes = w.resumes })
    ]

    untouched : (t : ℕ) → c ≢ t → (freed m c k).system_tcb t ≡ k.system_tcb t
    untouched t ne = ground (arith, ne)

    freed-Keeps : Keeps n c k (freed m c k).system_tcb mutexes
    freed-Keeps = record {
      tasks = λ t l. elim (Bool-cases (c == t)) [
        | inl e ↦
            let s : c ≡ t = ground (arith, e) in
            subst (λ x. IsTask x ((freed m c k).system_tcb x)) s
              (subst (λ (b : Tcb). IsTask c b) (sym released_tcb)
                (dropped-IsTask c _ (i.tasks c i.cur_live)))
        | inr e ↦
            subst (λ (b : Tcb). IsTask t b) (sym (untouched t (ground (arith, e)))) (i.tasks t l)
      ];
      cur_prio = ground (arith, released_tcb, i.cur_prio, one_less, (i.tasks c i.cur_live).native);
      others_prio = λ t l ne. ap (λ (b : Tcb). b.cur_prio) (untouched t ne) ∙ i.others_prio t l ne;
      others_hold =
          λ t l ne. ap (λ (b : Tcb). b.holds_lock) (untouched t ne) ∙ i.others_hold t l ne;
      held = ap (λ (b : Tcb). b.holds_lock) released_tcb ∙ ground (arith, one_less);
      holder = λ j h on. elim (Bool-cases (m == j)) [
        | inl e ↦ absurd (
            ground (
              arith,
              on,
              ap (λ (v : Mutex). v.lock) opened,
              ap (λ x. (mutexes x).lock) (let s : j ≡ m = ground (arith, e) in s),
            ))
        | inr e ↦
            let same : mutexes j ≡ k.gt_mutex j = still j (ground (arith, e)) in
            ap (λ (v : Mutex). v.holding_tcb) same
            ∙ i.holder j h (sym (ap (λ (v : Mutex). v.lock) same) ∙ on)
      ];
      no_waiters = λ j h. elim (Bool-cases (m == j)) [
        | inl e ↦
            ap (λ x. (mutexes x).sleep_queue) (let s : j ≡ m = ground (arith, e) in s)
            ∙ (ap (λ (v : Mutex). v.sleep_queue) opened ∙ i.no_waiters m (good-lt m good))
        | inr e ↦ ap (λ (v : Mutex). v.sleep_queue) (still j (ground (arith, e))) ∙ i.no_waiters j h
      ];
      links = λ t. elim (Bool-cases (c == t)) [
        | inl e ↦
            let s : t ≡ c = ground (arith, e) in
            ap (λ x. ((freed m c k).system_tcb x).sleep_queue) s
            ∙ (ap (λ (b : Tcb). b.sleep_queue) released_tcb
                ∙ (ground arith ∙ ap (λ x. (k.system_tcb x).sleep_queue) (sym s)))
        | inr e ↦ ap (λ (b : Tcb). b.sleep_queue) (untouched t (ground (arith, e)))
      ];
    }

    freed-Inv : Inv n c ys (freed m c k)
    freed-Inv = Inv-Keeps k (freed m c k).system_tcb mutexes false i freed-Keeps

  own_mutex : (p : TcbPtr) → ptr_eq k.cur_tcb p ≡ true → p ≡ some c
  own_mutex none e = absurd (ground (arith, e, ap (λ q. ptr_eq q none) i.cur))
  own_mutex (some h) e = ap some (ground (arith, e, ap (λ q. ptr_eq q (some h)) i.cur))

  -- the holder of a locked mutex frees it
  pub unlocks_runs :
      (m : ℕ)
      → bad_mutex m ≡ false
      → (k.gt_mutex m).available ≡ false
      → (k.gt_mutex m).holding_tcb ≡ some c
      → (k.gt_mutex m).lock ≡ true
      → (s : Kernel) × (mutex_unlock m k ≡ some (suspended, s))
        × WellFormed n s
        × (s.gt_mutex ≡ (freed m c k).gt_mutex)
  unlocks_runs m good made holder locked =
      let w = i.tasks c i.cur_live in
      let small : c < 64 = live-lt n c i.few i.cur_live in
      let (nx, next, run) =
        mutex_unlock_frees m c k good made holder i.cur i.valid (ground (arith, w.awake))
          (ground (arith, i.cur_prio, small), ground (arith, w.native, small))
          (i.no_waiters m (good-lt m good)) in
      (
        switched (with_current c (freed m c k)) c in_mutex_unlock nx (freed m c k),
        run,
        record {
          current = nx;
          sleeping = ys;
          inv = chosen-Inv (freed m c k) (freed-Inv m good locked) in_mutex_unlock nx refl next;
          best = chosen-IsBest (freed m c k) (freed-Inv m good locked) in_mutex_unlock nx refl next;
        },
        refl,
      )

  pub unlocks_lem : (m : ℕ) → allowed (unlocks m) k ≡ true → Handled n (handle (unlocks m) k)
  unfolding handle no_right
  unlocks_lem m fair = elim (Bool-cases (bad_mutex m)) [
    | inl bad ↦ record {
      exit = returned (neg32 einval);
      state = record k { irq_on = true };
      runs = unlock_bad m k bad;
      well_formed = well _ (Inv-irq k true i) best;
    }
    | inr good ↦ elim (Bool-cases (no_right m k)) [
      | inl denied ↦ record {
        exit = returned (neg32 eperm);
        state = record k { irq_on = true };
        runs = unlock_no_right m k good denied;
        well_formed = well _ (Inv-irq k true i) best;
      }
      | inr right ↦
          let own : ptr_eq k.cur_tcb (k.gt_mutex m).holding_tcb ≡ true = ground (arith, right) in
          let locked : (k.gt_mutex m).lock ≡ true = ground (arith, fair, good, own) in
          let (s, run, w, _) =
            unlocks_runs m good (ground (arith, right)) (own_mutex _ own) locked in
          record { exit = suspended; state = s; runs = run; well_formed = w }
    ]
  ]
