-- ===== src/Programs/Stress/Calm.antt =====
-- No run of stress fails.
use embedlab.Prelude.{
  ℕ, zero, suc, ◌+◌, ◌/◌, ◌<◌, ◌≤◌, ◌≡◌, refl, ap, ◌∙◌, Bool, true, false, some, List, [], ◌∷◌,
  ◌++◌, ◌==◌, if◌then◌else◌, take, ltb, leb, arith,
}
use embedlab.Kernel.{Kernel, ◌>>◌}
use embedlab.Memcheck.{valid_addr}
use embedlab.Mutex.{suspended, mutex_init, init_from}
use embedlab.Schedule.{Task, Float, bubble, passes, assign_schedule}
use embedlab.Schedule.Test.{HavePeriods, assign_schedule_lem, total}
use embedlab.Sched.{Addresses}
use embedlab.Proc.{stacks_valid, periods_valid}
use embedlab.Programs.{Move, run}
use embedlab.Programs.Creates.{init_from-Table}
use embedlab.Programs.Launch.{launched}
use embedlab.Programs.Waiters.{IsCalm, goes_on}
use embedlab.Programs.Stress.{
  Place, Shared, Stress, testing, asking, telling, loading, storing, sleeping, choosing, raising,
  announcing, checking, comparing, reporting_rma, looking, reporting_never, passing, flagging,
  waiting, failing, panicked, next_act, stress, counters, judge, tasks, main, started, arg_of,
}

-- a task has failed, or will at the place where it goes on
abbrev pub has_failed : Place → Bool
has_failed testing = false
has_failed asking = false
has_failed (telling time) = false
has_failed loading = false
has_failed (storing value) = false
has_failed sleeping = false
has_failed choosing = false
has_failed raising = false
has_failed announcing = false
has_failed (checking i) = false
has_failed (comparing i value) = false
has_failed (reporting_rma i) = false
has_failed (looking i) = false
has_failed (reporting_never i) = false
has_failed passing = false
has_failed flagging = false
has_failed (waiting next) = has_failed next
has_failed failing = true
has_failed panicked = true

abbrev Goes : ℕ → Place → Type 0
Goes t p = has_failed p ≡ false

abbrev Any : Shared → Type 0
Any v = Unit

either :
    (b : Bool) (p q : Place)
    → has_failed p ≡ false
    → has_failed q ≡ false
    → has_failed (if b then p else q) ≡ false
either true p q hp hq = hp
either false p q hp hq = hq

arg-lt : (t : ℕ) → arg_of t < 60
arg-lt t = ground arith

calm : (t : ℕ) (p : Place) (v : Shared) → Goes t p → Any v → IsCalm Goes Any t (stress t p v)
unfolding stress next_act
calm t testing v fine any = (either _ asking loading refl refl, tt)
calm t asking v fine any = λ time. refl
calm t (telling time) v fine any = refl
calm t loading v fine any = (refl, tt)
calm t (storing value) v fine any = (refl, tt)
calm t sleeping v fine any = (refl, tt)
calm t choosing v fine any = (either _ raising (checking 0) refl refl, tt)
calm t raising v fine any = (refl, tt)
calm t announcing v fine any = refl
calm t (checking i) v fine any = (either _ (comparing i (v.score i)) passing refl refl, tt)
calm t (comparing i value) v fine any = (either _ (reporting_rma i) (looking i) refl refl, tt)
calm t (reporting_rma i) v fine any = refl
calm t (looking i) v fine any = (either _ (reporting_never i) (checking (i + 1)) refl refl, tt)
calm t (reporting_never i) v fine any = refl
calm t passing v fine any = refl
calm t flagging v fine any = (refl, tt)
calm t (waiting next) v fine any = (arg-lt t, fine)
calm t failing v fine any = cc
calm t panicked v fine any = cc

-- entries in the order of their periods
abbrev Ascending : List Task → Type 0
Ascending [] = Unit
Ascending (x ∷ []) = Unit
Ascending (x ∷ y ∷ ys) = (ltb y.t x.t ≡ false) × Ascending (y ∷ ys)

bubble-still : (rounds : ℕ) (xs : List Task) → Ascending xs → bubble rounds xs ≡ xs
unfolding bubble
bubble-still zero xs s = refl
bubble-still (suc rounds) [] s = refl
bubble-still (suc rounds) (x ∷ []) s = refl
bubble-still (suc rounds) (x ∷ y ∷ ys) s =
    rw s.0 (ap (λ r. x ∷ r) (bubble-still rounds (y ∷ ys) s.1))

passes-still : (count rounds : ℕ) (xs : List Task) → Ascending xs → passes count rounds xs ≡ xs
unfolding passes
passes-still zero rounds xs s = refl
passes-still (suc count) rounds xs s =
    ap (passes count rounds) (bubble-still rounds xs s) ∙ passes-still count rounds xs s

module _ (lambdas garbage : ℕ → ℕ) (behind : Task) (late : 9000 ≤ behind.t) where
  counters-Ascending :
      (rounds i : ℕ)
      → i + rounds ≡ 59
      → Ascending (counters lambdas garbage rounds i ++ (judge lambdas garbage ∷ behind ∷ []))
  counters-Ascending zero i e = (ground (arith, late), tt)
  counters-Ascending (suc zero) i e =
      (ground (arith, e), counters-Ascending zero (i + 1) (omega (arith, e)))
  counters-Ascending (suc (suc rounds)) i e =
      (ground arith, counters-Ascending (suc rounds) (i + 1) (omega (arith, e)))

module _ (lambdas garbage : ℕ → ℕ) (f : Float) (a : Addresses) (behind : Task)
    (late : 9000 ≤ behind.t) (lucky : garbage 59 / 9000 ≤ 60) (k : Kernel) (score : ℕ → ℕ)
    (xs : List Move) where
  abbrev ts : List Task
  ts = tasks lambdas garbage

  abbrev mem : List Task
  mem = ts ++ (behind ∷ [])

  in_order : passes 60 60 mem ≡ mem
  in_order = passes-still 60 60 mem (counters-Ascending lambdas garbage behind late 59 0 refl)

  load : total 0 (take 60 mem) ≡ garbage 59 / 9000
  load = omega arith

  have_periods : HavePeriods (take 60 mem)
  have_periods = omega arith

  scheduled : assign_schedule f mem 60 ≡ (some true, mem)
  scheduled =
      let small : total 0 (take 60 mem) ≤ 60 = omega (arith, load, lucky) in
      let fits : leb (total 0 (take 60 mem)) 60 ≡ true = ground (arith, small) in
      let same : total 0 (take 60 (passes 60 60 mem)) ≡ total 0 (take 60 mem) =
        ap (λ ys. total 0 (take 60 ys)) in_order in
      assign_schedule_lem f mem 60 (omega arith) (omega arith) (rw in_order have_periods)
        (omega (arith, same, small))
      ∙ ap (λ ys. (some (leb (total 0 (take 60 ys)) 60), ys)) in_order
      ∙ ap (λ b. (some b, mem)) fits

  stacks : stacks_valid (take 60 mem) ≡ true
  unfolding stacks_valid valid_addr
  stacks = refl

  periods : periods_valid (take 60 mem) ≡ true
  unfolding periods_valid
  periods = refl

  -- Behind `mutex_init`, on any kernel, with a period of at least 9000 behind `tasks` in memory, and
  -- with a value below 549000 in the field `B` of the last task, which is never set, `main` of stress
  -- starts its 60 tasks, and every sequence of moves of the tasks and interrupts of the timer is then
  -- without a fault, and without a task that panics.
  pub stress-goes_on :
      (k' : Kernel) × (m' : Stress) × ((mutex_init >> main lambdas garbage f a behind) k
        ≡ some (suspended, k'))
      × (run stress xs (started k' score) ≡ some m')
      × ((t : ℕ) → has_failed (m'.locals t) ≡ false)
  unfolding main mutex_init
  stress-goes_on =
      let t = init_from-Table k.gt_mutex in
      let (k', begun, w, same) =
        launched f a mem mem ts (record k { gt_mutex = init_from 32 k.gt_mutex }) 0 (omega arith)
          stacks periods scheduled refl t in
      let (m', ends, s) = goes_on Goes Any stress calm xs (started k' score) (record {
        well_formed = w;
        unlocked = λ j h. ap (λ g. (g j).lock) same ∙ t.unlocked j h;
        own = λ t. either (t == 60) choosing testing refl refl;
        common = tt;
      }) in
      (k', m', begun, ends, s.own)
