-- ===== src/Programs/Dagger/Safety.antt =====
-- No run of dagger fails.
use embedlab.Prelude.{
  ℕ, ◌-◌, ◌<◌, ◌≤◌, ◌≡◌, refl, ap, ◌∙◌, Bool, true, false, Bool-cases, inl, inr, Option, none, some,
  List, [], ◌∷◌, ◌++◌, ◌==◌, get_elem?, take, ltb, arith,
}
use embedlab.Kernel.{Kernel, ◌>>◌}
use embedlab.Memcheck.{valid_addr}
use embedlab.Mutex.{suspended, mutex_init, init_from}
use embedlab.Schedule.{Task, Float, bubble, passes, assign_schedule}
use embedlab.Schedule.Test.{assign_schedule_lem}
use embedlab.Sched.{Addresses}
use embedlab.Proc.{stacks_valid, periods_valid}
use embedlab.Programs.{Move, run}
use embedlab.Programs.Creates.{init_from-Table}
use embedlab.Programs.Launch.{launched}
use embedlab.Programs.Waiters.{IsCalm, goes_on}
use embedlab.Programs.Dagger.{
  Code, Place, Dagger, printing, waiting, failing, panicked, next_act, dagger, tasks, main, code_at,
  codes_of, started,
}

abbrev pub has_failed : Place → Bool
has_failed printing = false
has_failed waiting = false
has_failed failing = true
has_failed panicked = true

abbrev Goes : ℕ → Place → Type 0
Goes t p = has_failed p ≡ false

abbrev Any : Unit {0} → Type 0
Any h = Unit

calm :
    (codes : ℕ → Code)
    → ((t : ℕ) → (codes t).dev < 60)
    → (t : ℕ) (p : Place) (h : Unit {0}) → Goes t p
    → Any h
    → IsCalm Goes Any t (dagger codes t p h)
unfolding dagger next_act
calm codes devs t printing h fine any = refl
calm codes devs t waiting h fine any = (devs t, refl)
calm codes devs t failing h fine any = cc
calm codes devs t panicked h fine any = cc

code_at-dev : (lambdas : ℕ → ℕ) (o : Option Task) → (code_at lambdas o).dev < 60
code_at-dev lambdas none = omega arith
code_at-dev lambdas (some task) = elim (Bool-cases (task.lambda == lambdas 1)) [
  | inl e ↦ rw e (omega arith)
  | inr e ↦ rw e (omega arith)
]

module _ (lambdas : ℕ → ℕ) (f : Float) (a : Addresses) (behind : Task) (late : 200 ≤ behind.t)
    (k : Kernel) (xs : List Move) where
  abbrev mem : List Task
  mem = tasks lambdas ++ (behind ∷ [])

  -- the set is in order already
  sorted : bubble 2 mem ≡ mem
  unfolding bubble
  sorted = let o : ltb behind.t 200 ≡ false = ground (arith, late) in rw o refl

  in_order : passes 2 2 mem ≡ mem
  unfolding passes
  in_order = ap (bubble 2) sorted ∙ sorted

  scheduled : assign_schedule f mem 2 ≡ (some true, mem)
  scheduled =
      assign_schedule_lem f mem 2 (omega arith) (omega arith) (rw in_order (omega arith))
        (rw in_order (omega arith))
      ∙ rw in_order refl

  stacks : stacks_valid (take 2 mem) ≡ true
  unfolding stacks_valid valid_addr
  stacks = refl

  periods : periods_valid (take 2 mem) ≡ true
  unfolding periods_valid
  periods = refl

  abbrev codes : ℕ → Code
  codes = codes_of lambdas (tasks lambdas)

  -- Behind `mutex_init`, on any kernel, with a period of at least 200 behind `tasks` in memory,
  -- `main` of dagger starts its two tasks, and every sequence of moves of the tasks and interrupts of
  -- the timer is then without a fault, and without a task that panics.
  pub dagger-goes_on :
      (k' : Kernel) × (m' : Dagger) × ((mutex_init >> main lambdas f a behind) k
        ≡ some (suspended, k'))
      × (run (dagger codes) xs (started k') ≡ some m')
      × ((t : ℕ) → has_failed (m'.locals t) ≡ false)
  unfolding main mutex_init
  dagger-goes_on =
      let t = init_from-Table k.gt_mutex in
      let (k', begun, w, same) =
        launched f a mem mem (tasks lambdas) (record k { gt_mutex = init_from 32 k.gt_mutex }) 0
          (omega arith) stacks periods scheduled refl t in
      let (m', ends, s) =
        goes_on Goes Any (dagger codes)
          (calm codes (λ t. code_at-dev lambdas (get_elem? (tasks lambdas) (t - 1)))) xs
          (started k')
          (record {
            well_formed = w;
            unlocked = λ j h. ap (λ g. (g j).lock) same ∙ t.unlocked j h;
            own = λ t. refl;
            common = tt;
          }) in
      (k', m', begun, ends, s.own)
