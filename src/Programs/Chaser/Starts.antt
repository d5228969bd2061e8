-- ===== src/Programs/Chaser/Starts.antt =====
-- `main` starts the chase with its invariant.
use embedlab.Prelude.{
  ℕ, zero, suc, ◌+◌, ◌<◌, ◌≤◌, ◌≡◌, refl, ap, ◌∙◌, Bool, Option, true, false, ◌&&◌, none, some,
  List, [], ◌∷◌, ◌++◌, ◌==◌, if◌then◌else◌, ltb, leb, take, arith, update,
}
use embedlab.Kernel.{Kernel, ◌>>◌}
use embedlab.Mutex.{suspended, init_from, mutex_init}
use embedlab.Schedule.{Task, Float, bubble, passes, assign_schedule}
use embedlab.Schedule.Test.{assign_schedule_lem}
use embedlab.Sched.{Addresses}
use embedlab.Proc.{task_create, stacks_valid, periods_valid}
use embedlab.Memcheck.{valid_addr}
use embedlab.Programs.{swi_errno}
use embedlab.Programs.Calls.{Ready}
use embedlab.Programs.Launch.{launched}
use embedlab.Programs.Creates.{Table, init_from-Table, created, call-creates, created-Table}
use embedlab.Programs.Chaser.{Line, starting_up, all_created, answer, init_val}
use embedlab.Programs.Chaser.Main.{
  create_all, main, task1, task2, task3, task4, chase_tasks, by_period, started,
}
use embedlab.Programs.Chaser.Sound.{Sound}

pub no_errno : (r : ℕ) → r < 32 → swi_errno r ≡ 0
unfolding swi_errno
no_errno r small = ground (arith, small)

within : (j x y : ℕ) → j < 32 → (if leb 0 j && ltb j 32 then x else y) ≡ x
within j x y h = ground (arith, h)

nobody : (b : Bool) → ◌≡◌ {A = Option ℕ} none (if b then none else none)
nobody true = refl
nobody false = refl

-- the loop creates all mutexes that are left, without an error
create_all_lem :
    (rounds i : ℕ) (vals : ℕ → ℕ) (out : List Line) (k : Kernel)
    → i + rounds ≡ 32
    → Table i k.gt_mutex
    → (k' : Kernel) × (vals' : ℕ → ℕ) × (create_all rounds i vals out k ≡ some ((vals', out), k'))
      × Table 32 k'.gt_mutex
      × ((j : ℕ) → vals' j ≡ (if leb i j && ltb j 32 then 2 else vals j))
unfolding create_all
create_all_lem zero i vals out k e t = (k, vals, refl, ground (arith, e), λ j. ground (arith, e))
create_all_lem (suc rounds) i vals out k e t =
    let small : i < 32 = omega (arith, e) in
    let next = created i k t in
    let (k', vals', run, table, values) =
      create_all_lem rounds (i + 1) (update vals i init_val) out next (omega (arith, e))
        (created-Table i k t small) in
    (
      k',
      vals',
      rw (call-creates i k t small, no_errno i small) run,
      table,
      λ j. values j ∙ ground (arith, small),
    )

module _ (lambdas : ℕ → ℕ) (f : Float) (a : Addresses) (behind : Task) (late : 500 ≤ behind.t) where
  abbrev mem : List Task
  mem = chase_tasks lambdas ++ (behind ∷ [])

  abbrev p1 : Task
  p1 = task1 lambdas

  abbrev p2 : Task
  p2 = task2 lambdas

  abbrev p3 : Task
  p3 = task3 lambdas

  abbrev p4 : Task
  p4 = task4 lambdas

  last_pair : bubble 1 (p4 ∷ behind ∷ []) ≡ p4 ∷ behind ∷ []
  unfolding bubble
  last_pair = let o : ltb behind.t 500 ≡ false = ground (arith, late) in rw o refl

  -- the four rounds of the sort; the entry behind the set stays where it is
  round1 : bubble 4 mem ≡ p2 ∷ p3 ∷ p1 ∷ p4 ∷ behind ∷ []
  unfolding bubble
  round1 = ap (λ r. p2 ∷ p3 ∷ p1 ∷ r) last_pair

  round2 : bubble 4 (p2 ∷ p3 ∷ p1 ∷ p4 ∷ behind ∷ []) ≡ p2 ∷ p1 ∷ p3 ∷ p4 ∷ behind ∷ []
  unfolding bubble
  round2 = ap (λ r. p2 ∷ p1 ∷ p3 ∷ r) last_pair

  round3 : bubble 4 (p2 ∷ p1 ∷ p3 ∷ p4 ∷ behind ∷ []) ≡ by_period lambdas ++ (behind ∷ [])
  unfolding bubble
  round3 = ap (λ r. p1 ∷ p2 ∷ p3 ∷ r) last_pair

  round4 : bubble 4 (by_period lambdas ++ (behind ∷ [])) ≡ by_period lambdas ++ (behind ∷ [])
  unfolding bubble
  round4 = ap (λ r. p1 ∷ p2 ∷ p3 ∷ r) last_pair

  sorted : passes 4 4 mem ≡ by_period lambdas ++ (behind ∷ [])
  unfolding passes
  sorted =
      ap (λ x. bubble 4 (bubble 4 (bubble 4 x))) round1
      ∙ ap (λ x. bubble 4 (bubble 4 x)) round2
      ∙ ap (λ x. bubble 4 x) round3
      ∙ round4

  scheduled : assign_schedule f mem 4 ≡ (some true, by_period lambdas ++ (behind ∷ []))
  scheduled =
      assign_schedule_lem f mem 4 (omega arith) (omega arith) (rw sorted (omega arith))
        (rw sorted (omega arith))
      ∙ rw sorted refl

  stacks : stacks_valid (take 4 mem) ≡ true
  unfolding stacks_valid valid_addr
  stacks = refl

  periods : periods_valid (take 4 mem) ≡ true
  unfolding periods_valid
  periods = refl

  -- the task set starts, and the mutexes stay as they are
  starts :
      (k : Kernel)
      → Table 32 k.gt_mutex
      → (k' : Kernel) × (task_create f a mem 4 k ≡ some (suspended, k')) × Ready 4 none k'
  starts k t =
      let (k', run, w, same) =
        launched f a mem (by_period lambdas ++ (behind ∷ [])) (by_period lambdas) k 32 (omega arith)
          stacks periods scheduled refl t in
      (
        k',
        run,
        record {
          well_formed = w;
          created = λ j h. ap (λ g. (g j).available) same ∙ (t.available j h ∙ ground (arith, h));
          locked = λ j h. ap (λ g. (g j).lock) same ∙ t.unlocked j h;
        },
      )

  -- From any kernel, behind `mutex_init`, `main` creates all 32 mutexes, sets each value, prints no error and starts the task
  -- set; the state is the start of the chase, and its invariant holds. What stands behind `tasks` in
  -- memory must have a period of at least 500.
  pub main-Sound :
      (k : Kernel) (vals : ℕ → ℕ)
      → (k' : Kernel) × (vals' : ℕ → ℕ) × ((mutex_init >> main lambdas f a behind vals) k
          ≡ some ((suspended, (vals', starting_up ∷ all_created ∷ answer true ∷ [])), k'))
        × ((j : ℕ) → j < 32 → vals' j ≡ init_val)
        × Sound 4 (started k' vals' (starting_up ∷ all_created ∷ answer true ∷ []))
  unfolding main mutex_init
  main-Sound k vals =
      let (k1, vals', made, table, values) =
        create_all_lem 32 0 vals (starting_up ∷ [])
          (record k { gt_mutex = init_from 32 k.gt_mutex }) refl (init_from-Table k.gt_mutex) in
      let (k', run, ready) = starts k1 table in
      (
        k',
        vals',
        rw (made, run) refl,
        λ j h. values j ∙ within j 2 (vals j) h,
        record {
          held = none;
          ready = ready;
          owns = λ t. nobody (ready.well_formed.current == t);
          idle = refl;
          fine = λ t. tt;
        },
      )
