-- ===== src/Programs/Calls.antt =====
-- What the calls of a program that holds at most one mutex do.
use embedlab.Prelude.{
  ℕ, ◌<◌, ◌≡◌, refl, ap, sym, ◌∙◌, Bool, true, false, Bool-cases, inl, inr, Option, none, some,
  ◌==◌, zero-count, arith,
}
use embedlab.Kernel.{Kernel, Mutex, and_then}
use embedlab.Mutex.{Exit, returned, suspended, bad_mutex}
use embedlab.Mutex.Lock.{mutex_lock_free}
use embedlab.System.{Event, locks, unlocks, waits, ticks, handle, settle, step}
use embedlab.System.Invariant.{WellFormed}
use embedlab.System.Frees.{unlocks_runs}
use embedlab.System.Locks.{acquired-Inv, Acquired-IsBest}
use embedlab.System.Waits.{waits_runs}
use embedlab.System.Ticks.{ticks_runs}
use embedlab.System.Steps.{settled}
use embedlab.Programs.{call, word}

abbrev pub is_held : Option ℕ → ℕ → Bool
is_held none j = false
is_held (some m) j = m == j

-- A well-formed state in which all mutexes are created, and one of them is locked, or none.
pub record Ready (n : ℕ) (held : Option ℕ) (k : Kernel) : Type 0 where
  pub well_formed : WellFormed n k
  pub created : (j : ℕ) → j < 32 → (k.gt_mutex j).available ≡ false
  pub locked : (j : ℕ) → j < 32 → (k.gt_mutex j).lock ≡ is_held held j

good : (m : ℕ) → m < 32 → bad_mutex m ≡ false
good m small = ground (arith, small)

-- a handled event with what comes behind it
call_runs :
    (event : Event) (e : Exit) (k s k' : Kernel)
    → handle event k ≡ some (e, s)
    → settle e s ≡ some (tt, k')
    → call event k ≡ some (word e, k')
unfolding call
call_runs event e k s k' handles settles = rw (handles, settles) refl

pub Ready-same :
    {n : ℕ} (held : Option ℕ) (k k' : Kernel)
    → Ready n held k
    → WellFormed n k'
    → k'.gt_mutex ≡ k.gt_mutex
    → Ready n held k'
Ready-same held k k' r w same = record {
  well_formed = w;
  created = λ j h. ap (λ g. (g j).available) same ∙ r.created j h;
  locked = λ j h. ap (λ g. (g j).lock) same ∙ r.locked j h;
}

module _ {n : ℕ} (k : Kernel) where
  -- a mutex is free, and the caller gets it
  pub call-locks :
      (m : ℕ)
      → m < 32
      → Ready n none k
      → (k' : Kernel) × (call (locks m) k ≡ some (0, k'))
        × (r' : Ready n (some m) k') × (k'.cur_tcb ≡ k.cur_tcb)
  unfolding handle settle
  call-locks m small r =
      let w = r.well_formed in
      let free : (k.gt_mutex m).lock ≡ false = r.locked m small in
      let (k', run, a) = mutex_lock_free m w.current k (good m small) w.inv.cur free in
      (
        k',
        call_runs (locks m) (returned 0) k k' k' run refl,
        record {
          well_formed = record {
            current = w.current;
            sleeping = w.sleeping;
            inv = acquired-Inv k w.inv m (good m small) free k' a;
            best = Acquired-IsBest k w.inv m k' a;
          };
          created = λ j h. elim (Bool-cases (m == j)) [
            | inl e ↦
                ap (λ x. (k'.gt_mutex x).available) (let s : j ≡ m = ground (arith, e) in s)
                ∙ (ap (λ (v : Mutex). v.available) a.mutex ∙ r.created m small)
            | inr e ↦
                ap (λ (v : Mutex). v.available) (a.others j (ground (arith, e))) ∙ r.created j h
          ];
          locked = λ j h. elim (Bool-cases (m == j)) [
            | inl e ↦
                ap (λ x. (k'.gt_mutex x).lock) (let s : j ≡ m = ground (arith, e) in s)
                ∙ (ap (λ (v : Mutex). v.lock) a.mutex ∙ sym e)
            | inr e ↦
                ap (λ (v : Mutex). v.lock) (a.others j (ground (arith, e))) ∙ (r.locked j h ∙ sym e)
          ];
        },
        ap (λ (s : Kernel). s.cur_tcb) a.rest,
      )

  -- the caller gives its mutex back
  pub call-unlocks :
      (m : ℕ)
      → m < 32
      → Ready n (some m) k
      → (k' : Kernel) × (call (unlocks m) k ≡ some (0, k')) × Ready n none k'
  unfolding handle
  call-unlocks m small r =
      let w = r.well_formed in
      let taken : (k.gt_mutex m).lock ≡ true = r.locked m small ∙ ground arith in
      let (s, run, w1, same) =
        unlocks_runs k w.inv w.best m (good m small) (r.created m small)
          (w.inv.holder m small taken) taken in
      let (k', ends, w', _, _, kept) = settled suspended s w1 in
      (
        k',
        call_runs (unlocks m) suspended k s k' run ends,
        record {
          well_formed = w';
          created = λ j h.
              ap (λ g. (g j).available) (kept ∙ same)
              ∙ ground (arith, r.created j h, r.created m small);
          locked = λ j h. ap (λ g. (g j).lock) (kept ∙ same) ∙ ground (arith, r.locked j h);
        },
      )

  -- without a mutex, the caller may wait for any device
  pub waits_free :
      (d : ℕ)
      → d < 60
      → (w : WellFormed n k) → ((j : ℕ) → j < 32 → (k.gt_mutex j).lock ≡ false)
      → (w.current == 63) ≡ false
      → (k' : Kernel) × (call (waits d) k ≡ some (0, k'))
        × WellFormed n k'
        × (k'.gt_mutex ≡ k.gt_mutex)
  unfolding handle
  waits_free d small w unlocked awake =
      let free : (k.system_tcb w.current).holds_lock ≡ 0 =
        w.inv.held ∙ zero-count (λ m. (k.gt_mutex m).lock) 32 unlocked in
      let (s, run, w1, same) = waits_runs k w.inv w.best d small awake free in
      let (k', ends, w', _, _, kept) = settled suspended s w1 in
      (k', call_runs (waits d) suspended k s k' run ends, w', kept ∙ same)

  pub call-waits :
      (d : ℕ)
      → d < 60
      → (r : Ready n none k) → (r.well_formed.current == 63) ≡ false
      → (k' : Kernel) × (call (waits d) k ≡ some (0, k')) × Ready n none k'
  call-waits d small r awake =
      let (k', run, w', same) = waits_free d small r.well_formed r.locked awake in
      (k', run, Ready-same none k k' r w' same)

  pub ticks_free :
      (icpr oscr : ℕ)
      → (w : WellFormed n k)
      → (k' : Kernel) × (step (ticks icpr oscr) k ≡ some (tt, k'))
        × WellFormed n k'
        × (k'.gt_mutex ≡ k.gt_mutex)
  unfolding step
  ticks_free icpr oscr w =
      let (h, same) = ticks_runs k w.inv w.best icpr oscr in
      let (k', ends, w', _, _, kept) = settled h.exit h.state h.well_formed in
      (k', ap (λ o. and_then o settle) h.runs ∙ ends, w', kept ∙ same)

  -- a tick leaves the mutexes with whom has them
  pub call-ticks :
      (held : Option ℕ) (icpr oscr : ℕ)
      → (r : Ready n held k)
      → (k' : Kernel) × (step (ticks icpr oscr) k ≡ some (tt, k'))
        × (r' : Ready n held k') × ((m : ℕ)
            → m < 32
            → held ≡ some m
            → r'.well_formed.current ≡ r.well_formed.current)
  call-ticks held icpr oscr r =
      let w = r.well_formed in
      let (k', run, w', all) = ticks_free icpr oscr w in
      (
        k',
        run,
        Ready-same held k k' r w' all,
        λ m small e.
            let taken : (k.gt_mutex m).lock ≡ true =
              r.locked m small ∙ (ap (λ o. is_held o m) e ∙ ground arith) in
            let now : (k'.gt_mutex m).lock ≡ true = ap (λ g. (g m).lock) all ∙ taken in
            let before = w.inv.holder m small taken in
            let after = w'.inv.holder m small now in
            ground (arith, before, after, ap (λ g. (g m).holding_tcb) all),
      )
