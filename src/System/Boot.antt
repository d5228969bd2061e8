-- ===== src/System/Boot.antt =====
-- How a task set starts: `mutex_init`, and then `allocate_tasks`, lead to a well-formed state.
use embedlab.Prelude.{
  ℕ, zero, suc, ◌+◌, ◌-◌, ◌<◌, ◌≤◌, ◌≡◌, refl, ap, sym, subst, ◌∙◌, true, false, Bool-cases, inl,
  inr, none, some, List, [], ◌∷◌, length, get_elem?, ◌==◌, if◌then◌else◌, zero-count, arith, u8,
}
use embedlab.Kernel.{Kernel, Tcb, Mutex, K, ◌>>◌}
use embedlab.Mutex.{mutex_init, init_from, fresh_mutex}
use embedlab.Schedule.{Task}
use embedlab.Sched.{Addresses, task_tcb, idle_tcb, allocate_tasks}
use embedlab.Sched.Laws.{allocate_tasks_lem}
use embedlab.System.Invariant.{live, IsTask, WellFormed}
use embedlab.System.Steps.{Reachable, start, next, step-WellFormed}

-- what a TCB is that `allocate_tasks` has written
record Fresh (t : ℕ) (b : Tcb) : Type 0 where
  own : IsTask t b
  prio : b.cur_prio ≡ t
  free : b.holds_lock ≡ 0

task_tcb-Fresh : (a : Addresses) (i : ℕ) (task : Task) → i < 62 → Fresh (i + 1) (task_tcb a i task)
unfolding task_tcb
task_tcb-Fresh a i task small =
    let byte : u8 (i + 1) ≡ i + 1 = omega (arith, small) in
    record {
      own = record { native = byte; awake = refl; resumes = refl };
      prio = byte;
      free = refl;
    }

idle_tcb-Fresh : (a : Addresses) (i : ℕ) → Fresh 63 (idle_tcb a i)
unfolding idle_tcb
idle_tcb-Fresh a i = record {
  own = record { native = refl; awake = refl; resumes = refl };
  prio = refl;
  free = refl;
}

get_elem?-below :
    (ts : List Task) (i : ℕ) → i < length ts → (task : Task) × (get_elem? ts i ≡ some task)
get_elem?-below [] i h = absurd (omega (arith, h))
get_elem?-below (t ∷ ts) zero h = (t, refl)
get_elem?-below (t ∷ ts) (suc i) h = get_elem?-below ts i (omega (arith, h))

pub init_from-fresh : (n j : ℕ) (m : ℕ → Mutex) → j < n → init_from n m j ≡ fresh_mutex
init_from-fresh zero j m below = absurd (omega (arith, below))
init_from-fresh (suc n) j m below = elim (Bool-cases (n == j)) [
  | inl last ↦ rw last refl
  | inr earlier ↦ rw earlier (init_from-fresh n j m (ground (arith, below, earlier)))
]

module _ (a : Addresses) (tasks : List Task) where
  -- `mutex_init` of main.c, and the start of a task set
  unfoldable pub boot : K (Unit {0})
  boot = do mutex_init; allocate_tasks a tasks (length tasks)

module _ (a : Addresses) (tasks : List Task) (few : length tasks ≤ 62) where
  abbrev nobody : ℕ → List ℕ
  nobody d = []

  abbrev first : ℕ
  first = if length tasks == 0 then 63 else 1

  -- every task that exists has a TCB of its own
  live-Fresh :
      (tcb : ℕ → Tcb)
      → ((i : ℕ) (task : Task) → get_elem? tasks i ≡ some task → tcb (i + 1) ≡ task_tcb a i task)
      → tcb 63 ≡ idle_tcb a (length tasks)
      → (t : ℕ) → live (length tasks) t ≡ true
      → Fresh t (tcb t)
  live-Fresh tcb tasks_at idle t l = elim (Bool-cases (t == 63)) [
    | inl e ↦
        let s : 63 ≡ t = ground (arith, e) in
        subst (λ x. Fresh x (tcb x)) s
          (subst (λ (b : Tcb). Fresh 63 b) (sym idle) (idle_tcb-Fresh a (length tasks)))
    | inr e ↦
        let s : t - 1 + 1 ≡ t = ground (arith, l, e) in
        let (task, found) = get_elem?-below tasks (t - 1) (ground (arith, l, e)) in
        subst (λ x. Fresh x (tcb x)) s
          (subst (λ (b : Tcb). Fresh (t - 1 + 1) b) (sym (tasks_at (t - 1) task found))
            (task_tcb-Fresh a (t - 1) task (ground (arith, l, e, few))))
  ]

  module _ (k : Kernel) (unlocked : (m : ℕ) → m < 32 → (k.gt_mutex m).lock ≡ false)
      (no_waiters : (m : ℕ) → m < 32 → (k.gt_mutex m).sleep_queue ≡ none) where
    -- A task set that is allocated while no mutex is locked starts in a well-formed state.
    pub allocate_tasks-WellFormed :
        (k' : Kernel) × (allocate_tasks a tasks (length tasks) k ≡ some (tt, k'))
        × WellFormed (length tasks) k'
        × (k'.gt_mutex ≡ k.gt_mutex)
    allocate_tasks-WellFormed =
        let (k', run, cur, valid, slots, tcbs, idle, devs, mutexes) =
          allocate_tasks_lem a tasks k few in
        let fresh = live-Fresh k'.system_tcb tcbs idle in
        let first_live : live (length tasks) first ≡ true = ground arith in
        let own = fresh first first_live in
        let no_lock : (m : ℕ) → m < 32 → (k'.gt_mutex m).lock ≡ false =
          λ m h. ap (λ f. (f m).lock) mutexes ∙ unlocked m h in
        (
          k',
          run,
          record {
            current = first;
            sleeping = nobody;
            best = λ p h. slots p ∙ ground (arith, h, own.prio);
            inv = record {
              few = few;
              cur = cur;
              cur_live = first_live;
              valid = valid;
              queue = record {
                own = λ p t h. ground (arith, slots p, h);
                queued_live = λ p t h. ground (arith, slots p, h);
                cur_free = slots first ∙ ground arith;
              };
              idle = λ ne. slots 63 ∙ ground (arith, ne);
              tasks = λ t l. (fresh t l).own;
              placed = λ t l. elim (Bool-cases (first == t)) [
                | inl e ↦ inl (ground (arith, e))
                | inr e ↦ inr (inl (slots t ∙ ground (arith, l, e)))
              ];
              cur_prio = own.prio ∙ ground (arith, own.free);
              others_prio = λ t l ne. (fresh t l).prio;
              others_hold = λ t l ne. (fresh t l).free;
              held = own.free ∙ sym (zero-count (λ m. (k'.gt_mutex m).lock) 32 no_lock);
              holder = λ m h locked. absurd (ground (arith, no_lock m h, locked));
              no_waiters = λ m h. ap (λ f. (f m).sleep_queue) mutexes ∙ no_waiters m h;
              sleepers = λ d h. record { chain = devs d h; distinct = tt; fits = omega arith };
              sleepers_live = λ d t h l. cc;
              sleeps_once = λ d e t h g l m. cc;
              cur_awake = λ d h. refl;
              queued_awake = λ d p t h e. refl;
            };
          },
          mutexes,
        )

  -- From any state, `mutex_init` and the allocation of at most 62 tasks lead without a fault to a
  -- well-formed state of that many tasks.
  pub boot-WellFormed :
      (k : Kernel) → (k' : Kernel) × (boot a tasks k ≡ some (tt, k')) × WellFormed (length tasks) k'
  unfolding boot mutex_init
  boot-WellFormed k =
      let (k', run, w, _) =
        allocate_tasks-WellFormed (record k { gt_mutex = init_from 32 k.gt_mutex })
          (λ m h. ap (λ (v : Mutex). v.lock) (init_from-fresh 32 m k.gt_mutex h))
          (λ m h. ap (λ (v : Mutex). v.sleep_queue) (init_from-fresh 32 m k.gt_mutex h)) in
      (k', run, w)

-- Every state is well-formed that allowed steps reach from a well-formed one: steps that are no second
-- unlock of a mutex by the holder that has freed it, no wait for number 60 and none by the idle task.
pub Reachable-WellFormed : (n : ℕ) (k s : Kernel) → WellFormed n k → Reachable k s → WellFormed n s
Reachable-WellFormed n k s w (start _) = w
Reachable-WellFormed n k t w (next _ s _ event r fair run) =
    let (t', run', w') = step-WellFormed n event s (Reachable-WellFormed n k s w r) fair in
    subst (λ (x : Kernel). WellFormed n x) (ground (arith, run, run')) w'
