-- ===== src/Programs/Chaser/Moves.antt =====
-- How a move of the current task keeps the invariant of the chase, place by place.
use embedlab.Prelude.{
  ℕ, ◌+◌, ◌<◌, ◌≡◌, refl, ap, sym, ◌∙◌, true, false, Bool-cases, inl, inr, Option, none, some, ◌&&◌,
  List, [], ◌∷◌, ◌++◌, ◌==◌, if◌then◌else◌, ltb, arith, update, is_negative,
}
use embedlab.Kernel.{Kernel}
use embedlab.System.{waits}
use embedlab.Programs.{called, call, perform, run, swi_result}
use embedlab.Programs.Calls.{is_held, Ready, call-locks, call-unlocks, call-waits}
use embedlab.Programs.Chaser.{
  Code, Place, Local, Line, Chase, starting, naming, locking, loading, storing, unlocking, waiting,
  checking, showing, judging, ending, looping, refused, failing, panicked, next_act, char,
  dev_failed,
}
use embedlab.Programs.Chaser.Sound.{
  holding, edge, stores, IsFine, Sound, moved-Sound, current, after,
}

module _ {n : ℕ} (code : Code) (dev : code.dev < 60) (m : Chase) (s : Sound n m)
    (user : (current m s == 63) ≡ false) where
  abbrev c : ℕ
  c = current m s

  holds :
      (p : Place) (cur : ℕ)
      → m.locals c ≡ record { cur_mutex = cur; place = p }
      → s.held ≡ holding cur p
  holds p cur at =
      sym (ap (λ (x : Local). holding x.cur_mutex x.place) (sym at) ∙ (s.owns c ∙ ground arith))

  -- a move of the program alone
  alone :
      (p q : Place) (cur next : ℕ) (vals : ℕ → ℕ) (out : List Line)
      → m.locals c ≡ record { cur_mutex = cur; place = p }
      → holding next q ≡ holding cur p
      → IsFine next q vals
      → Sound n (after m s m.kernel (record { cur_mutex = next; place = q }) vals out)
  alone p q cur next vals out at same ok =
      let mine : s.held ≡ holding next q = holds p cur at ∙ sym same in
      moved-Sound m s user m.kernel (record { cur_mutex = next; place = q }) vals out
        (record {
          well_formed = s.ready.well_formed;
          created = s.ready.created;
          locked = λ j h. s.ready.locked j h ∙ ap (λ o. is_held o j) mine;
        })
        (inl refl) ok

  -- behind a call that leaves its task without a mutex
  called_free :
      (k : Kernel) (next : ℕ) (q : Place)
      → holding next q ≡ none
      → Ready n none k
      → IsFine next q m.shared
      → Sound n (after m s k (record { cur_mutex = next; place = q }) m.shared m.output)
  called_free k next q free r ok =
      moved-Sound m s user k (record { cur_mutex = next; place = q }) m.shared m.output
        (record {
          well_formed = r.well_formed;
          created = r.created;
          locked = λ j h. r.locked j h ∙ ap (λ o. is_held o j) (sym free);
        })
        (inr free) ok

  abbrev ready_at :
      (p : Place) (cur : ℕ)
      → m.locals c ≡ record { cur_mutex = cur; place = p }
      → Ready n (holding cur p) m.kernel
  ready_at p cur at = record {
    well_formed = s.ready.well_formed;
    created = s.ready.created;
    locked = λ j h. s.ready.locked j h ∙ ap (λ o. is_held o j) (holds p cur at);
  }

  abbrev outcome : ℕ → Place → Option Chase
  outcome cur p = perform c (next_act code cur p m.shared) m

  -- what a move has done: the task's new variables, and the values
  pub record Went (cur : ℕ) (p : Place) : Type 0 where
    pub state : Chase
    pub runs_to : outcome cur p ≡ some state
    pub sound : Sound n state
    pub local : Local
    pub locals : state.locals ≡ update m.locals c local
    pub progress :
        (j : ℕ)
        → ltb j (edge local.cur_mutex local.place)
          ≡ (if stores p && cur == j then true else ltb j (edge cur p))
    pub stored :
        (j : ℕ)
        → state.shared j ≡ (if stores p && cur == j then code.op (m.shared j) else m.shared j)

  went :
      (p q : Place) (cur next : ℕ) (k : Kernel) (out : List Line)
      → stores p ≡ false
      → edge next q ≡ edge cur p
      → outcome cur p ≡ some (after m s k (record { cur_mutex = next; place = q }) m.shared out)
      → Sound n (after m s k (record { cur_mutex = next; place = q }) m.shared out)
      → Went cur p
  went p q cur next k out no_store same run sound = record {
    state = after m s k (record { cur_mutex = next; place = q }) m.shared out;
    runs_to = run;
    sound = sound;
    local = record { cur_mutex = next; place = q };
    locals = refl;
    progress = λ j. rw no_store (ap (λ e. ltb j e) same);
    stored = λ j. rw no_store refl;
  }

  -- the task prints or computes
  steps :
      (p q : Place) (cur : ℕ) (out : List Line)
      → m.locals c ≡ record { cur_mutex = cur; place = p }
      → stores p ≡ false
      → edge cur q ≡ edge cur p
      → holding cur q ≡ holding cur p
      → IsFine cur q m.shared
      → outcome cur p
        ≡ some (after m s m.kernel (record { cur_mutex = cur; place = q }) m.shared out)
      → Went cur p
  steps p q cur out at no_store same keeps ok run =
      went p q cur cur m.kernel out no_store same run (alone p q cur cur m.shared out at keeps ok)

  -- the change of a value
  changes :
      (v cur : ℕ)
      → m.locals c ≡ record { cur_mutex = cur; place = storing v }
      → IsFine cur (storing v) m.shared
      → Went cur (storing v)
  unfolding next_act perform
  changes v cur at f = record {
    state = _;
    runs_to = refl;
    sound =
        alone (storing v) unlocking cur cur (update m.shared cur (code.op v)) m.output at refl f.0;
    local = record { cur_mutex = cur; place = unlocking };
    locals = refl;
    progress = λ j. ground arith;
    stored = λ j. elim (Bool-cases (cur == j)) [
      | inl e ↦ rw e (ap code.op (f.1 ∙ ap m.shared (let s : cur ≡ j = ground (arith, e) in s)))
      | inr e ↦ rw e refl
    ];
  }

  -- waiting for the device
  rests :
      (p q : Place) (cur next : ℕ)
      → m.locals c ≡ record { cur_mutex = cur; place = p }
      → stores p ≡ false
      → edge next q ≡ edge cur p
      → holding cur p ≡ none
      → holding next q ≡ none
      → IsFine next q m.shared
      → ((k : Kernel)
          → called c
              (λ r. record {
                cur_mutex = next;
                place = if is_negative (swi_result r) then failing dev_failed else q;
              })
              m
              (some (0, k))
            ≡ some (after m s k (record { cur_mutex = next; place = q }) m.shared m.output))
      → outcome cur p
        ≡ called c
            (λ r. record {
              cur_mutex = next;
              place = if is_negative (swi_result r) then failing dev_failed else q;
            })
            m
            (call (waits code.dev) m.kernel)
      → Went cur p
  rests p q cur next at no_store same free freed ok ends run =
      let (k', waited, r') =
        call-waits m.kernel code.dev dev
          (record {
            well_formed = s.ready.well_formed;
            created = s.ready.created;
            locked = λ j h. s.ready.locked j h ∙ ap (λ o. is_held o j) (holds p cur at ∙ free);
          })
          user in
      went p q cur next k' m.output no_store same (run ∙ (ap (called c _ m) waited ∙ ends k'))
        (called_free k' next q freed r' ok)

  pub goes :
      (cur : ℕ) (p : Place)
      → m.locals c ≡ record { cur_mutex = cur; place = p }
      → IsFine cur p m.shared
      → Went cur p
  unfolding next_act perform
  goes cur starting at f = elim (Bool-cases (ltb cur 32)) [
    | inl e ↦
        steps starting naming cur (m.output ++ (char code.str ∷ [])) at refl refl refl
          (ground (arith, e)) (rw e refl)
    | inr e ↦ elim (Bool-cases code.reports) [
      | inl on ↦ steps starting (checking 0) cur m.output at refl refl refl tt (rw (e, on) refl)
      | inr off ↦ steps starting looping cur m.output at refl refl refl tt (rw (e, off) refl)
    ]
  ]
  goes cur naming at f = steps naming locking cur _ at refl refl refl f refl
  goes cur locking at f =
      let (k', run, r', same) = call-locks m.kernel cur f (ready_at locking cur at) in
      went locking loading cur cur k' m.output refl refl (ap (called c _ m) run) (
        moved-Sound m s user k' (record { cur_mutex = cur; place = loading }) m.shared m.output r'
          (inl (ground (arith, r'.well_formed.inv.cur, s.ready.well_formed.inv.cur, same))) f)
  goes cur loading at f =
      steps loading (storing (m.shared cur)) cur m.output at refl refl refl (f, refl) refl
  goes cur (storing v) at f = changes v cur at f
  goes cur unlocking at f =
      let (k', run, r') = call-unlocks m.kernel cur f (ready_at unlocking cur at) in
      went unlocking waiting cur cur k' m.output refl refl (ap (called c _ m) run)
        (called_free k' cur waiting refl r' tt)
  goes cur waiting at f =
      rests waiting starting cur (cur + 1) at refl refl refl refl tt (λ k. refl) refl
  goes cur (checking i) at f = elim (Bool-cases (ltb i 32)) [
    | inl e ↦
        steps (checking i) (showing i (m.shared i)) cur m.output at refl refl refl tt (rw e refl)
    | inr e ↦ steps (checking i) ending cur m.output at refl refl refl tt (rw e refl)
  ]
  goes cur (showing i v) at f = steps (showing i v) (judging i v) cur _ at refl refl refl tt refl
  goes cur (judging i v) at f =
      steps (judging i v) (checking (i + 1)) cur _ at refl refl refl tt refl
  goes cur ending at f = steps ending looping cur _ at refl refl refl tt refl
  goes cur looping at f = rests looping looping cur cur at refl refl refl refl tt (λ k. refl) refl
  goes cur (refused e) at f = absurd f
  goes cur (failing l) at f = absurd f
  goes cur panicked at f = absurd f
