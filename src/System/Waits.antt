-- ===== src/System/Waits.antt =====
-- `event_wait` between two steps: the caller joins the sleepers of the device, and another task runs.
use embedlab.Prelude.{
  ℕ, ◌<◌, ◌≡◌, ◌≢◌, refl, ap, sym, subst, ◌∙◌, true, false, ◌||◌, Bool-cases, inl, inr, ◌⊎◌, some,
  is_some, List, [], ◌∷◌, ◌++◌, has, ◌==◌, ltb, count-zero, arith, update, neg32, einval,
}
use embedlab.Kernel.{Kernel, Tcb, in_dev_wait}
use embedlab.Kernel.Chain.{Distinct, Distinct-length}
use embedlab.RunQueue.{RunQueue}
use embedlab.RunQueue.Laws.{IsValid}
use embedlab.Device.{dev_wait}
use embedlab.Device.Queue.{Sleepers, Joined, dev_wait_lem, dev_wait_refused}
use embedlab.Dispatch.Laws.{switched}
use embedlab.Mutex.{returned, suspended, ptr_eq}
use embedlab.Proc.{event_wait}
use embedlab.System.{handle, waits, allowed}
use embedlab.System.Invariant.{live, IsTask, IsQueued, IsBest, Inv, WellFormed}
use embedlab.System.Frame.{Sleepers-frame}
use embedlab.System.Switch.{Poised, Poised-Inv, Poised-IsBest}
use embedlab.System.Save.{live-lt}
use embedlab.System.Locks.{Inv-irq}
use embedlab.System.Frees.{Handled}

has-snoc : (t c : ℕ) (xs : List ℕ) → has t (xs ++ (c ∷ [])) ≡ (has t xs || c == t)
has-snoc t c [] = ground arith
has-snoc t c (x ∷ xs) = ground (arith, has-snoc t c xs)

snoc-Distinct : (c : ℕ) (xs : List ℕ) → Distinct xs → has c xs ≡ false → Distinct (xs ++ (c ∷ []))
snoc-Distinct c [] d out = (refl, tt)
snoc-Distinct c (x ∷ xs) d out =
    (has-snoc x c xs ∙ ground (arith, d.0, out), snoc-Distinct c xs d.1 (ground (arith, out)))

module _ {n c : ℕ} {ys : ℕ → List ℕ} (k : Kernel) (i : Inv n c ys k) (d : ℕ) (dev : d < 60)
    (awake : (c == 63) ≡ false) (free : (k.system_tcb c).holds_lock ≡ 0) where
  -- the sleepers with the caller behind those of its device
  abbrev asleep : ℕ → List ℕ
  asleep = update ys d (ys d ++ (c ∷ []))

  asleep-cases : (e t : ℕ) → has t (asleep e) ≡ true → (has t (ys e) ≡ true) ⊎ ((c ≡ t) × (d ≡ e))
  asleep-cases e t h = elim (Bool-cases (d == e)) [
    | inl same ↦
        let s : d ≡ e = ground (arith, same) in
        let joined : has t (ys d ++ (c ∷ [])) ≡ true = sym (rw same refl) ∙ h in
        elim (Bool-cases (has t (ys d))) [
          | inl was ↦ inl (subst (λ x. has t (ys x) ≡ true) s was)
          | inr new ↦ inr (ground (arith, joined, has-snoc t c (ys d), new), s)
        ]
    | inr other ↦ inl (sym (rw other refl) ∙ h)
  ]

  module _ (k1 : Kernel) (j : Joined (record k { irq_on = false }) d c (ys d) k1) where
    same_queue : k1.run_queue ≡ k.run_queue
    same_queue = ap (λ (s : Kernel). s.run_queue) j.rest

    same_mutexes : k1.gt_mutex ≡ k.gt_mutex
    same_mutexes = ap (λ (s : Kernel). s.gt_mutex) j.rest

    slot : (p t : ℕ) → k1.run_queue.run_list p ≡ some t → k.run_queue.run_list p ≡ some t
    slot p t h = sym (ap (λ (q : RunQueue). q.run_list p) same_queue) ∙ h

    small : (t : ℕ) → has t (ys d ++ (c ∷ [])) ≡ true → t < 64
    small t l = elim (Bool-cases (has t (ys d))) [
      | inl was ↦ live-lt n t i.few (i.sleepers_live d t dev was)
      | inr new ↦
          subst (λ x. x < 64) (ground (arith, l, has-snoc t c (ys d), new))
            (live-lt n c i.few i.cur_live)
    ]

    not_cur : (e t : ℕ) → e < 60 → has t (ys e) ≡ true → t ≢ c
    not_cur e t h l same = absurd (ground (arith, i.cur_awake e h, l, ap (λ x. has x (ys e)) same))

    elsewhere : (e t : ℕ) → e < 60 → has t (ys e) ≡ true → (d == e) ≡ false → has t (ys d) ≡ false
    elsewhere e t h l other = elim (Bool-cases (has t (ys d))) [
      | inl both ↦ absurd (ground (arith, i.sleeps_once d e t dev h both l, other))
      | inr out ↦ out
    ]

    Sleepers-now : (e : ℕ) → e < 60 → Sleepers k1 e (asleep e)
    Sleepers-now e h = elim (Bool-cases (d == e)) [
      | inl same ↦
          let s : d ≡ e = ground (arith, same) in
          let old = i.sleepers d dev in
          let once : Distinct (ys d ++ (c ∷ [])) =
            snoc-Distinct c (ys d) old.distinct (i.cur_awake d dev) in
          rw same (
            subst (λ x. Sleepers k1 x (ys d ++ (c ∷ []))) s
              (record {
                chain = j.chain;
                distinct = once;
                fits = Distinct-length 64 (ys d ++ (c ∷ [])) once (λ t l. small t l);
              }))
      | inr other ↦ rw other (
          Sleepers-frame k k1 e (ys e) (j.others e (ground (arith, other)))
            (λ t l. j.links t (not_cur e t h l) (elsewhere e t h l other)) (i.sleepers e h))
    ]

    tcb_kept : (t : ℕ) → IsTask t (k.system_tcb t) → IsTask t (k1.system_tcb t)
    tcb_kept t w =
        subst (λ (b : Tcb). IsTask t b) (sym (j.tcbs t))
          (record { native = w.native; awake = w.awake; resumes = w.resumes })

    place_of :
        (t : ℕ)
        → (c ≡ t) ⊎ IsQueued k.run_queue.run_list ys t
        → IsQueued k1.run_queue.run_list asleep t
    place_of t (inl e) = inr (d, dev, ground (arith, has-snoc t c (ys d), e))
    place_of t (inr (inl here)) = inl (ap (λ (q : RunQueue). q.run_list t) same_queue ∙ here)
    place_of t (inr (inr (e, h, there))) = inr (
      e,
      h,
      (elim (Bool-cases (d == e)) [
        | inl same ↦
            let s : e ≡ d = ground (arith, same) in
            rw same (has-snoc t c (ys d) ∙ ground (arith, subst (λ x. has t (ys x) ≡ true) s there))
        | inr other ↦ rw other there
      ]),
    )

    prio_was : (t : ℕ) → live n t ≡ true → (k.system_tcb t).cur_prio ≡ t
    prio_was t l = elim (Bool-cases (c == t)) [
      | inl e ↦ ground (
        arith,
        i.cur_prio,
        free,
        ap (λ x. (k.system_tcb x).cur_prio) (let s : c ≡ t = ground (arith, e) in s),
      )
      | inr e ↦ i.others_prio t l (ground (arith, e))
    ]

    held_was : (t : ℕ) → live n t ≡ true → (k.system_tcb t).holds_lock ≡ 0
    held_was t l = elim (Bool-cases (c == t)) [
      | inl e ↦ ground (
        arith,
        free,
        ap (λ x. (k.system_tcb x).holds_lock) (let s : c ≡ t = ground (arith, e) in s),
      )
      | inr e ↦ i.others_hold t l (ground (arith, e))
    ]

    once :
        (e f t : ℕ)
        → e < 60
        → f < 60
        → (has t (ys e) ≡ true) ⊎ ((c ≡ t) × (d ≡ e))
        → (has t (ys f) ≡ true) ⊎ ((c ≡ t) × (d ≡ f))
        → e ≡ f
    once e f t h g (inl a) (inl b) = i.sleeps_once e f t h g a b
    once e f t h g (inl a) (inr (new, _)) =
        absurd (ground (arith, a, i.cur_awake e h, ap (λ x. has x (ys e)) new))
    once e f t h g (inr (new, _)) (inl b) =
        absurd (ground (arith, b, i.cur_awake f g, ap (λ x. has x (ys f)) new))
    once e f t h g (inr (_, s)) (inr (_, u)) = sym s ∙ u

    not_asleep : (e p t : ℕ) → e < 60 → k.run_queue.run_list p ≡ some t → has t (asleep e) ≡ false
    not_asleep e p t h taken = elim (Bool-cases (has t (asleep e))) [
      | inr out ↦ out
      | inl within ↦ elim (asleep-cases e t within) [
        | inl was ↦ absurd (ground (arith, was, i.queued_awake e p t h taken))
        | inr (new, _) ↦
            let at_own : c ≡ p = new ∙ i.queue.own p t taken in
            absurd
              (ground (arith, taken, i.queue.cur_free, ap (λ x. k.run_queue.run_list x) at_own))
      ]
    ]

    waiting-Poised : Poised n asleep k1.run_queue k1
    waiting-Poised = record {
      few = i.few;
      valid = subst IsValid (sym same_queue) i.valid;
      own = λ p t h. i.queue.own p t (slot p t h);
      queued_live = λ p t h. i.queue.queued_live p t (slot p t h);
      idle = ap (λ (q : RunQueue). q.run_list 63) same_queue ∙ i.idle awake;
      tasks = λ t l. tcb_kept t (i.tasks t l);
      placed = λ t l. place_of t (i.placed t l);
      prios = λ t l. ap (λ (b : Tcb). b.cur_prio) (j.tcbs t) ∙ prio_was t l;
      holds = λ t l. ap (λ (b : Tcb). b.holds_lock) (j.tcbs t) ∙ held_was t l;
      unlocked = λ m h.
          ap (λ f. (f m).lock) same_mutexes
          ∙ count-zero (λ m. (k.gt_mutex m).lock) 32 (sym i.held ∙ free) m h;
      no_waiters = λ m h. ap (λ f. (f m).sleep_queue) same_mutexes ∙ i.no_waiters m h;
      sleepers = Sleepers-now;
      sleepers_live = λ e t h l. elim (asleep-cases e t l) [
        | inl was ↦ i.sleepers_live e t h was
        | inr (new, _) ↦ subst (λ x. live n x ≡ true) new i.cur_live
      ];
      sleeps_once = λ e f t h g l m. once e f t h g (asleep-cases e t l) (asleep-cases f t m);
      queued_awake = λ e p t h taken. not_asleep e p t h (slot p t taken);
    }

module _ {n c : ℕ} {ys : ℕ → List ℕ} (k : Kernel) (i : Inv n c ys k) (best : IsBest c k)
    (d : ℕ) where
  waits_far : ltb 60 d ≡ true → event_wait d k ≡ some (returned (neg32 einval), k)
  unfolding event_wait
  waits_far far = rw far refl

  waits_near : ltb 60 d ≡ false → event_wait d k ≡ dev_wait d k
  unfolding event_wait
  waits_near near = rw near refl

  -- a task without locks leaves, and another one runs
  pub waits_runs :
      d < 60
      → (c == 63) ≡ false
      → (k.system_tcb c).holds_lock ≡ 0
      → (s : Kernel) × (event_wait d k ≡ some (suspended, s))
        × WellFormed n s
        × (s.gt_mutex ≡ k.gt_mutex)
  waits_runs dev awake free =
      let (k1, nx, j, next, run) =
        dev_wait_lem d c 63 k (ys d) i.cur free (i.sleepers d dev) (i.cur_awake d dev) i.valid
          (omega arith) (ap is_some (i.idle awake)) in
      (
        switched k1.run_queue c in_dev_wait nx k1,
        waits_near (ground (arith, dev)) ∙ run,
        record {
          current = nx;
          sleeping = asleep k i d dev awake free;
          inv =
              Poised-Inv k1.run_queue k1 (waiting-Poised k i d dev awake free k1 j) nx c in_dev_wait
                next refl;
          best =
              Poised-IsBest k1.run_queue k1 (waiting-Poised k i d dev awake free k1 j) nx c
                in_dev_wait next refl;
        },
        same_mutexes k i d dev awake free k1 j,
      )

  pub waits_lem : allowed (waits d) k ≡ true → Handled n (handle (waits d) k)
  unfolding handle
  waits_lem fair = elim (Bool-cases (ltb 60 d)) [
    | inl far ↦ record {
      exit = returned (neg32 einval);
      state = k;
      runs = waits_far far;
      well_formed = record { current = c; sleeping = ys; inv = i; best = best };
    }
    | inr near ↦ elim (Bool-cases ((k.system_tcb c).holds_lock == 0)) [
      | inr holding ↦ record {
        exit = _;
        state = record k { irq_on = false };
        runs = waits_near near ∙ dev_wait_refused d c k i.cur (ground (arith, holding));
        well_formed = record { current = c; sleeping = ys; inv = Inv-irq k false i; best = best };
      }
      | inl no_lock ↦
          let (s, run, w, _) =
            waits_runs (ground (arith, fair, near))
              (ground (arith, fair, ap (λ p. ptr_eq p (some 63)) i.cur))
              (ground (arith, no_lock)) in
          record { exit = suspended; state = s; runs = run; well_formed = w }
    ]
  ]
