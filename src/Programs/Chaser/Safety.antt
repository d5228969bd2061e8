-- ===== src/Programs/Chaser/Safety.antt =====
-- What every run of mutex_chaser shows, from its `main` on.
use embedlab.Prelude.{
  ℕ, ◌<◌, ◌≤◌, ◌≡◌, refl, ap, sym, ◌∙◌, true, false, ◌&&◌, not, Bool-cases, inl, inr, Option, none,
  some, is_some, List, [], ◌∷◌, has, ◌==◌, ltb, ◌-◌, get_elem?, arith,
}
use embedlab.Kernel.{Kernel, ◌>>◌}
use embedlab.Kernel.Chain.{Distinct}
use embedlab.Mutex.{suspended, mutex_init, ptr_eq}
use embedlab.Schedule.{Task, Float}
use embedlab.Sched.{Addresses}
use embedlab.Programs.{Move, run}
use embedlab.Programs.Chaser.{
  Chase, Line, Place, starting, naming, locking, loading, storing, unlocking, waiting, checking,
  showing, judging, ending, looping, refused, failing, panicked, Code, chaser, init_val,
  starting_up, all_created, answer,
}
use embedlab.Programs.Chaser.Main.{main, by_period, codes_of, code_at, started}
use embedlab.Programs.Chaser.Sound.{Sound, IsFine, holding, critical, has_failed}
use embedlab.Programs.Chaser.Runs.{apply_turns, passed}
use embedlab.Programs.Chaser.Ledger.{turns, ran}
use embedlab.Programs.Chaser.Starts.{main-Sound}

IsFine-has_failed : (cur : ℕ) (p : Place) (v : ℕ → ℕ) → IsFine cur p v → has_failed p ≡ false
IsFine-has_failed cur starting v f = refl
IsFine-has_failed cur naming v f = refl
IsFine-has_failed cur locking v f = refl
IsFine-has_failed cur loading v f = refl
IsFine-has_failed cur (storing x) v f = refl
IsFine-has_failed cur unlocking v f = refl
IsFine-has_failed cur waiting v f = refl
IsFine-has_failed cur (checking i) v f = refl
IsFine-has_failed cur (showing i x) v f = refl
IsFine-has_failed cur (judging i x) v f = refl
IsFine-has_failed cur ending v f = refl
IsFine-has_failed cur looping v f = refl
IsFine-has_failed cur (refused e) v f = absurd f
IsFine-has_failed cur (failing l) v f = absurd f
IsFine-has_failed cur panicked v f = absurd f

critical-holding : (cur : ℕ) (p : Place) → critical p ≡ true → is_some (holding cur p) ≡ true
critical-holding cur starting h = h
critical-holding cur naming h = h
critical-holding cur locking h = h
critical-holding cur loading h = refl
critical-holding cur (storing x) h = refl
critical-holding cur unlocking h = refl
critical-holding cur waiting h = h
critical-holding cur (checking i) h = h
critical-holding cur (showing i x) h = h
critical-holding cur (judging i x) h = h
critical-holding cur ending h = h
critical-holding cur looping h = h
critical-holding cur (refused e) h = h
critical-holding cur (failing l) h = h
critical-holding cur panicked h = h

abbrev pub greeting : List Line
greeting = starting_up ∷ all_created ∷ answer true ∷ []

-- what holds in every state of a chase
module _ {n : ℕ} (m : Chase) (s : Sound n m) where
  never_failed : (t : ℕ) → has_failed (m.locals t).place ≡ false
  never_failed t = IsFine-has_failed (m.locals t).cur_mutex (m.locals t).place m.shared (s.fine t)

  only_current :
      (t : ℕ) → (critical (m.locals t).place && not (ptr_eq m.kernel.cur_tcb (some t))) ≡ false
  only_current t = elim (Bool-cases (critical (m.locals t).place)) [
    | inr out ↦ rw out refl
    | inl within ↦
        let some_held = critical-holding (m.locals t).cur_mutex (m.locals t).place within in
        let own : (s.ready.well_formed.current == t) ≡ true =
          ground (arith, some_held, ap is_some (s.owns t)) in
        ap (λ p. critical (m.locals t).place && not (ptr_eq p (some t))) s.ready.well_formed.inv.cur
        ∙ rw (within, own) refl
  ]

not_yet : (j : ℕ) → 0 < j → ltb j 1 ≡ false
not_yet j above = ground (arith, above)

code_at-dev : (lambdas : ℕ → ℕ) (o : Option Task) → (code_at lambdas o).dev < 60
code_at-dev lambdas none = omega arith
code_at-dev lambdas (some task) = elim (Bool-cases (task.lambda == lambdas 1)) [
  | inl e ↦ rw e (omega arith)
  | inr e ↦ elim (Bool-cases (task.lambda == lambdas 2)) [
    | inl e2 ↦ rw (e, e2) (omega arith)
    | inr e2 ↦ elim (Bool-cases (task.lambda == lambdas 3)) [
      | inl e3 ↦ rw (e, e2, e3) (omega arith)
      | inr e3 ↦ rw (e, e2, e3) (omega arith)
    ]
  ]
]

module _ (lambdas : ℕ → ℕ) (f : Float) (a : Addresses) (behind : Task) (late : 500 ≤ behind.t)
    (k : Kernel) (vals : ℕ → ℕ) (xs : List Move) where
  abbrev codes : ℕ → Code
  codes = codes_of lambdas (by_period lambdas)

  devs : (t : ℕ) → (codes t).dev < 60
  devs t = code_at-dev lambdas (get_elem? (by_period lambdas) (t - 1))

  -- Behind `mutex_init`, on any kernel, with a period of at least 500 behind `tasks` in memory,
  -- `main` creates its mutexes and starts the task set, and every sequence of moves of the tasks and
  -- interrupts of the timer is then without a fault. At its end no call of a task has failed, so no
  -- task panics, and a task that is between its lock and its unlock is the current one.
  pub main-goes_on :
      (k' : Kernel) × (vals' : ℕ → ℕ) × (m' : Chase) × ((mutex_init >> main lambdas f a behind vals)
          k
        ≡ some ((suspended, (vals', greeting)), k'))
      × (run (chaser codes) xs (started k' vals' greeting) ≡ some m')
      × ((t : ℕ) → has_failed (m'.locals t).place ≡ false)
      × ((t : ℕ)
          → (critical (m'.locals t).place && not (ptr_eq m'.kernel.cur_tcb (some t))) ≡ false)
  main-goes_on =
      let (k', vals', begun, values, s) = main-Sound lambdas f a behind late k vals in
      let r = ran codes devs xs (started k' vals' greeting) s in
      (
        k',
        vals',
        r.state,
        begun,
        r.runs_to,
        never_failed r.state r.sound,
        only_current r.state r.sound,
      )

  -- Take any sequence of moves of the tasks and interrupts of the timer behind the start of the task
  -- set, with a period of at least 500 behind `tasks` in memory, and a mutex from 1 to 31. The value
  -- beside it is what the changes of some tasks make of 2, one after the other, none of them lost; no
  -- task is twice among them, and exactly those tasks are that have passed the mutex.
  pub main-turns :
      (j : ℕ)
      → 0 < j
      → j < 32
      → (k' : Kernel) × (vals' : ℕ → ℕ) × (m' : Chase) × ((mutex_init
              >> main lambdas f a behind vals)
            k
          ≡ some ((suspended, (vals', greeting)), k'))
        × (run (chaser codes) xs (started k' vals' greeting) ≡ some m')
        × (m'.shared j ≡ apply_turns codes (turns codes j xs (started k' vals' greeting)) init_val)
        × Distinct (turns codes j xs (started k' vals' greeting))
        × ((t : ℕ) → has t (turns codes j xs (started k' vals' greeting)) ≡ passed j (m'.locals t))
  main-turns j above below =
      let (k', vals', begun, values, s) = main-Sound lambdas f a behind late k vals in
      let start = started k' vals' greeting in
      let r = ran codes devs xs start s in
      (
        k',
        vals',
        r.state,
        begun,
        r.runs_to,
        r.stored j ∙ ap (apply_turns codes (turns codes j xs start)) (values j below),
        r.distinct j,
        λ t. elim (Bool-cases (has t (turns codes j xs start))) [
          | inl e ↦ e ∙ sym (r.progress t j ∙ rw e refl)
          | inr e ↦ e ∙ sym (r.progress t j ∙ rw e (not_yet j above))
        ],
      )
