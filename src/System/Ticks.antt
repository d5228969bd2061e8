-- ===== src/System/Ticks.antt =====
-- The timer's interrupt between two steps: the sleepers of every due device join the run queue, and
-- the best task runs.
use embedlab.Prelude.{
  ℕ, ◌+◌, ◌<◌, ◌≡◌, refl, ap, sym, subst, ◌∙◌, Bool, true, false, ◌&&◌, Bool-cases, inl, inr,
  Option, none, some, List, [], ◌∷◌, has, ◌==◌, if◌then◌else◌, ltb, arith, u32, bit_and, shl,
}
use embedlab.Kernel.{Kernel, Dev, in_dev_update, and_then, pure}
use embedlab.Dispatch.Laws.{switched, with_current}
use embedlab.Device.{dev_update, dispatch_update, freq}
use embedlab.Device.Update.{add_all, nonempty, due, woken, dev_update_lem}
use embedlab.Mutex.{Exit, returned, suspended}
use embedlab.Timer.{irq_handler, account, clock_of, Clock, int_ostmr_0}
use embedlab.System.{handle, ticks}
use embedlab.System.Invariant.{IsBest, Inv}
use embedlab.System.Frame.{Inv-clock}
use embedlab.System.Save.{dispatch_save-Inv}
use embedlab.System.Frees.{Handled}
use embedlab.System.Awoken
use embedlab.System.Wakes.{woken-due, due-woken}

module _ {n c : ℕ} {ys : ℕ → List ℕ} (k : Kernel) (i : Inv n c ys k) (millis : ℕ) where
  abbrev is_due : ℕ → Bool
  is_due = Awoken.is_due k i millis

  abbrev pub asleep : ℕ → List ℕ
  asleep = Awoken.asleep k i millis

  woken-is_due :
      (t : ℕ)
      → has t (woken k.devices millis ys 60 0) ≡ true
      → (d : ℕ) × (is_due d ≡ true) × (d < 60) × (has t (ys d) ≡ true)
  woken-is_due t h =
      let (d, _, small, on, there) = woken-due k.devices millis ys 60 0 t h in
      (d, ground (arith, small, on), omega (arith, small), there)

  is_due-woken :
      (d t : ℕ)
      → d < 60
      → is_due d ≡ true
      → has t (ys d) ≡ true
      → has t (woken k.devices millis ys 60 0) ≡ true
  is_due-woken d t h on there =
      due-woken k.devices millis ys 60 0 t d (omega arith) (omega (arith, h)) (ground (arith, on))
        there

  -- what is done once the sleepers are awake
  abbrev outcome : List ℕ → (ℕ → Dev) → Option (Exit × Kernel)
  outcome ws ds =
      if nonempty ws
      then dispatch_update (record k {
        devices = ds;
        run_queue = add_all k.system_tcb ws k.run_queue;
        irq_on = false;
      })
      else some (returned 0, record k { devices = ds; irq_on = true })

  -- what `dev_update` has done, and who still sleeps
  pub record Updated (o : Option (Exit × Kernel)) : Type 0 where
    pub exit : Exit
    pub state : Kernel
    pub runs : o ≡ some (exit, state)
    pub current : ℕ
    pub inv : Inv n current asleep state
    pub best : IsBest current state
    pub mutexes : state.gt_mutex ≡ k.gt_mutex

  -- both ends of `dev_update`, for the list of those who are woken
  updated :
      (ws : List ℕ)
      → IsBest c k
      → ((t : ℕ) → has t ws ≡ true → (d : ℕ) × (is_due d ≡ true) × (d < 60) × (has t (ys d) ≡ true))
      → ((d t : ℕ) → d < 60 → is_due d ≡ true → has t (ys d) ≡ true → has t ws ≡ true)
      → (ds : ℕ → Dev)
      → ((j : ℕ)
          → ds j ≡ (
              if ltb j 60 && due k.devices millis j
              then record { sleep_q = none; next_match = u32 ((k.devices j).next_match + freq j) }
              else k.devices j))
      → Updated (outcome ws ds)
  unfolding add_all dispatch_update
  updated [] best wakes all ds devs = record {
    exit = returned 0;
    state = record k { devices = ds; irq_on = true };
    runs = refl;
    current = c;
    inv = Awoken.after-Inv k i millis [] wakes all ds devs true;
    best = best;
    mutexes = refl;
  }
  updated (x ∷ xs) best wakes all ds devs =
      let s = Awoken.after k i millis (x ∷ xs) wakes all ds devs false in
      let (nx, _, run, inv, first) =
        dispatch_save-Inv s (Awoken.after-Inv k i millis (x ∷ xs) wakes all ds devs false)
          in_dev_update refl in
      record {
        exit = suspended;
        state = switched (with_current c s) c in_dev_update nx s;
        runs = ap (λ o. and_then o (λ _. pure suspended)) run;
        current = nx;
        inv = inv;
        best = first;
        mutexes = refl;
      }

  dev_update-Updated : IsBest c k → Updated (dev_update millis k)
  dev_update-Updated best =
      let (ds, devs, run) = dev_update_lem k millis ys i.sleepers in
      subst (λ o. Updated o) (sym run)
        (updated (woken k.devices millis ys 60 0) best woken-is_due is_due-woken ds devs)

module _ {n c : ℕ} {ys : ℕ → List ℕ} (k : Kernel) (i : Inv n c ys k) (best : IsBest c k)
    (icpr oscr : ℕ) where
  abbrev pub clock : Clock
  clock = account oscr (clock_of k)

  abbrev pub ticked : Kernel
  ticked = record k { system_time = clock.system_time; time_drift = clock.time_drift }

  ticks-quiet :
      (bit_and icpr (shl 1 int_ostmr_0) == 0) ≡ true
      → irq_handler icpr oscr k ≡ some (returned 0, k)
  unfolding irq_handler
  ticks-quiet other = rw other refl

  pub ticks-update :
      (bit_and icpr (shl 1 int_ostmr_0) == 0) ≡ false
      → irq_handler icpr oscr k ≡ dev_update clock.system_time ticked
  unfolding irq_handler
  ticks-update timer = rw timer refl

  abbrev pub ticked-Inv : Inv n c ys ticked
  ticked-Inv = Inv-clock k k.irq_on clock.system_time clock.time_drift i

  pub ticks-Updated :
      Updated ticked ticked-Inv clock.system_time (dev_update clock.system_time ticked)
  ticks-Updated = dev_update-Updated ticked ticked-Inv clock.system_time best

  -- a tick leaves the mutexes as they are
  pub ticks_runs : (h : Handled n (handle (ticks icpr oscr) k)) × (h.state.gt_mutex ≡ k.gt_mutex)
  unfolding handle
  ticks_runs = elim (Bool-cases (bit_and icpr (shl 1 int_ostmr_0) == 0)) [
    | inl other ↦ (
      record {
        exit = returned 0;
        state = k;
        runs = ticks-quiet other;
        well_formed = record { current = c; sleeping = ys; inv = i; best = best };
      },
      refl,
    )
    | inr timer ↦
        let u = ticks-Updated in
        (
          record {
            exit = u.exit;
            state = u.state;
            runs = ticks-update timer ∙ u.runs;
            well_formed = record { current = u.current; sleeping = _; inv = u.inv; best = u.best };
          },
          u.mutexes,
        )
  ]

  pub ticks_lem : Handled n (handle (ticks icpr oscr) k)
  ticks_lem = ticks_runs.0
