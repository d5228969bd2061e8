-- ===== src/Programs/Waiters.antt =====
-- Programs whose tasks make no other calls than to wait for devices and to read the time.
use embedlab.Prelude.{
  ℕ, ◌<◌, ◌≡◌, refl, ap, subst, ◌∙◌, false, Bool-cases, inl, inr, some, List, [], ◌∷◌, ◌++◌, ◌==◌,
  update, arith,
}
use embedlab.Timer.{time_syscall}
use embedlab.System.{Event, creates, locks, unlocks, waits, ticks}
use embedlab.System.Invariant.{WellFormed}
use embedlab.Programs.{
  Act, computes, prints, calls, asks_time, Machine, Move, runs, interrupted, called, ticked,
  perform, run_task, move, run, and_run,
}
use embedlab.Programs.Calls.{waits_free, ticks_free}

module _ {S : Type 0} (P : ℕ → S → Type 0) where
  -- the call is a wait for a device, and behind it `P` holds
  abbrev IsWait : ℕ → Event → (ℕ → S) → Type 0
  IsWait t creates f = ⊥
  IsWait t (locks m) f = ⊥
  IsWait t (unlocks m) f = ⊥
  IsWait t (waits d) f = (d < 60) × P t (f 0)
  IsWait t (ticks icpr oscr) f = ⊥

module _ {S H O : Type 0} (P : ℕ → S → Type 0) (Q : H → Type 0) where
  -- the task keeps `P` of its variables and `Q` of the memory
  abbrev pub IsCalm : ℕ → Act S H O → Type 0
  IsCalm t (computes l h) = P t l × Q h
  IsCalm t (prints o l) = P t l
  IsCalm t (calls event f) = IsWait P t event f
  IsCalm t (asks_time f) = (time : ℕ) → P t (f time)

  -- No mutex is locked, and `P` and `Q` hold.
  pub record Calm (n : ℕ) (m : Machine S H O) : Type 0 where
    pub well_formed : WellFormed n m.kernel
    pub unlocked : (j : ℕ) → j < 32 → (m.kernel.gt_mutex j).lock ≡ false
    pub own : (t : ℕ) → P t (m.locals t)
    pub common : Q m.shared

  module _ {n : ℕ} (m : Machine S H O) (s : Calm n m) where
    abbrev c : ℕ
    c = s.well_formed.current

    own_now : (l : S) → P c l → (t : ℕ) → P t (update m.locals c l t)
    own_now l p t = elim (Bool-cases (c == t)) [
      | inl e ↦ rw e (subst (λ x. P x l) (let y : c ≡ t = ground (arith, e) in y) p)
      | inr e ↦ rw e (s.own t)
    ]

    -- an action of the current task
    performs :
        (act : Act S H O)
        → (c == 63) ≡ false
        → IsCalm c act
        → (m' : Machine S H O) × (perform c act m ≡ some m') × Calm n m'
    unfolding perform time_syscall
    performs (computes l h) user (p, q) = (
      record m { locals = update m.locals c l; shared = h },
      refl,
      record { well_formed = s.well_formed; unlocked = s.unlocked; own = own_now l p; common = q },
    )
    performs (prints o l) user p = (
      record m { locals = update m.locals c l; output = m.output ++ (o ∷ []) },
      refl,
      record {
        well_formed = s.well_formed;
        unlocked = s.unlocked;
        own = own_now l p;
        common = s.common;
      },
    )
    performs (calls creates f) user p = absurd p
    performs (calls (locks j) f) user p = absurd p
    performs (calls (unlocks j) f) user p = absurd p
    performs (calls (waits d) f) user (small, p) =
        let (k', run, w, same) = waits_free m.kernel d small s.well_formed s.unlocked user in
        (
          record m { kernel = k'; locals = update m.locals c (f 0) },
          ap (called c f m) run,
          record {
            well_formed = w;
            unlocked = λ j h. ap (λ g. (g j).lock) same ∙ s.unlocked j h;
            own = own_now (f 0) p;
            common = s.common;
          },
        )
    performs (calls (ticks icpr oscr) f) user p = absurd p
    performs (asks_time f) user p = (
      _,
      refl,
      record {
        well_formed = s.well_formed;
        unlocked = s.unlocked;
        own = own_now _ (p _);
        common = s.common;
      },
    )

  module _ {n : ℕ} (act : ℕ → S → H → Act S H O)
      (calm : (t : ℕ) (l : S) (h : H) → P t l → Q h → IsCalm t (act t l h)) where
    one :
        (x : Move) (m : Machine S H O)
        → Calm n m
        → (m' : Machine S H O) × (move act x m ≡ some m') × Calm n m'
    unfolding move run_task
    one runs m s =
        let t = s.well_formed.current in
        let cur = ap (λ p. run_task act p m) s.well_formed.inv.cur in
        elim (Bool-cases (t == 63)) [
          | inl idle ↦ (m, cur ∙ rw idle refl, s)
          | inr user ↦
              let (m', run, s') =
                performs m s (act t (m.locals t) m.shared) user
                  (calm t (m.locals t) m.shared (s.own t) s.common) in
              (m', cur ∙ (rw user refl ∙ run), s')
        ]
    one (interrupted icpr oscr) m s =
        let (k', run, w, same) = ticks_free m.kernel icpr oscr s.well_formed in
        (
          record m { kernel = k' },
          ap (ticked m) run,
          record {
            well_formed = w;
            unlocked = λ j h. ap (λ g. (g j).lock) same ∙ s.unlocked j h;
            own = s.own;
            common = s.common;
          },
        )

    -- Every sequence of moves is without a fault, and keeps `P` and `Q`.
    pub goes_on :
        (xs : List Move) (m : Machine S H O)
        → Calm n m
        → (m' : Machine S H O) × (run act xs m ≡ some m') × Calm n m'
    unfolding run
    goes_on [] m s = (m, refl, s)
    goes_on (x ∷ xs) m s =
        let (m1, first, s1) = one x m s in
        let (m', rest, s') = goes_on xs m1 s1 in
        (m', ap (λ o. and_run o (λ z. run act xs z)) first ∙ rest, s')
