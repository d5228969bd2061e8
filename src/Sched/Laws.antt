-- ===== src/Sched/Laws.antt =====
-- After `allocate_tasks`: who is in the run queue, and who runs first.
use embedlab.Prelude.{
  ℕ, zero, suc, ◌+◌, ◌<◌, ◌≤◌, ◌≡◌, refl, ◌∙◌, ap, sym, none, some, update_ne, update_self, ap₂,
  List, [], ◌∷◌, length, get_elem?, get_elem?-lt, arith, ◌==◌, ltb, leb, ◌&&◌, ◌||◌, not,
  if◌then◌else◌, update, u8, Bool-cases, inl, inr,
}
use mathlib.Core.Option.{some-injective}
use embedlab.RunQueue.{runqueue_add, runqueue_remove, highest_prio, runqueue_init}
use embedlab.RunQueue.Laws.{
  IsValid, runqueue_add-IsValid, run_list-runqueue_add, runqueue_init-IsValid,
  runqueue_remove-IsValid, runqueue_remove_lem, run_list-runqueue_init,
}
use embedlab.Kernel.{Kernel, Dev}
use embedlab.Schedule.{Task}
use embedlab.Sched.{Addresses, add_tasks, add_task, add_idle, task_tcb, idle_tcb, allocate_tasks}
use embedlab.Device.{init_from, dev_init}
use embedlab.Dispatch.{dispatch_nosave, take_next}
use embedlab.Dispatch.Laws.{IsNext, take_next_lem}

-- the state after `dev_init` and `runqueue_init`
abbrev cleared : Kernel → Kernel
cleared k = record k { devices = init_from 60 k.devices; run_queue = runqueue_init }

module _ (a : Addresses) where
  -- what the loop leaves in the run queue: one slot for each of the tasks from `i + 1` on
  record Added (i n : ℕ) (k k' : Kernel) : Type 0 where
    valid : IsValid k'.run_queue
    slots :
        (p : ℕ)
        → k'.run_queue.run_list p
          ≡ (if leb (i + 1) p && leb p (i + n) then some p else k.run_queue.run_list p)

  add_tasks-Added :
      (tasks : List Task) (i : ℕ) (k : Kernel)
      → i + length tasks ≤ 62
      → IsValid k.run_queue
      → ((p : ℕ) → i < p → k.run_queue.run_list p ≡ none)
      → Added i (length tasks) k (add_tasks a i tasks k)
  unfolding add_tasks
  add_tasks-Added [] i k few v empty = record { valid = v; slots = λ p. ground arith }
  add_tasks-Added (task ∷ tasks) i k few v empty =
      let byte : u8 (i + 1) ≡ i + 1 = omega arith in
      let q = runqueue_add (i + 1) (u8 (i + 1)) k.run_queue in
      let added = run_list-runqueue_add k.run_queue (i + 1) (u8 (i + 1)) v (omega arith) in
      let rest =
        add_tasks-Added tasks (i + 1) (add_task a i task k) (omega arith)
          (runqueue_add-IsValid k.run_queue (i + 1) (u8 (i + 1)) v (omega arith))
          (λ p h. added p ∙ ground (arith, empty p (omega arith), byte)) in
      record {
        valid = rest.valid;
        slots = λ p. rest.slots p ∙ ground (arith, added p, byte, empty p);
      }

  system_tcb-add_tasks_le :
      (tasks : List Task) (i p : ℕ) (k : Kernel)
      → p ≤ i
      → (add_tasks a i tasks k).system_tcb p ≡ k.system_tcb p
  unfolding add_tasks
  system_tcb-add_tasks_le [] i p k h = refl
  system_tcb-add_tasks_le (t ∷ ts) i p k h =
      system_tcb-add_tasks_le ts (i + 1) p (add_task a i t k) (omega arith)
      ∙ update_ne k.system_tcb (i + 1) (task_tcb a i t) p (omega arith)

  -- the TCBs that the loop writes
  system_tcb-add_tasks :
      (tasks : List Task) (i j n : ℕ) (k : Kernel) (task : Task)
      → get_elem? tasks j ≡ some task
      → i + j ≡ n
      → (add_tasks a i tasks k).system_tcb (n + 1) ≡ task_tcb a n task
  unfolding add_tasks
  system_tcb-add_tasks [] i j n k task e s = cc
  system_tcb-add_tasks (t ∷ ts) i zero n k task e s =
      let same : i ≡ n = omega arith in
      system_tcb-add_tasks_le ts (i + 1) (n + 1) (add_task a i t k) (omega arith)
      ∙ ap (λ m. update k.system_tcb (i + 1) (task_tcb a i t) (m + 1)) (sym same)
      ∙ update_self k.system_tcb (i + 1) (task_tcb a i t)
      ∙ ap₂ (task_tcb a) same (some-injective t task e)
  system_tcb-add_tasks (t ∷ ts) i (suc j) n k task e s =
      system_tcb-add_tasks ts (i + 1) j n (add_task a i t k) task e (omega arith)

  -- The loop writes neither to the devices nor to the mutexes.
  add_tasks_rest :
      (tasks : List Task) (i : ℕ) (k : Kernel)
      → ((add_tasks a i tasks k).devices ≡ k.devices)
        × ((add_tasks a i tasks k).gt_mutex ≡ k.gt_mutex)
  unfolding add_tasks
  add_tasks_rest [] i k = (refl, refl)
  add_tasks_rest (t ∷ ts) i k = add_tasks_rest ts (i + 1) (add_task a i t k)

  init_from-none : (n j : ℕ) (d : ℕ → Dev) → j < n → (init_from n d j).sleep_q ≡ none
  unfolding init_from
  init_from-none zero j d below = absurd (omega (arith, below))
  init_from-none (suc n) j d below = elim (Bool-cases (n == j)) [
    | inl last ↦ rw last refl
    | inr earlier ↦ rw earlier (init_from-none n j d (ground (arith, below, earlier)))
  ]

  -- the state that `allocate_tasks` dispatches from
  ready : List Task → Kernel → Kernel
  ready tasks k = add_idle a (length tasks) (add_tasks a 0 tasks (cleared k))

  module _ (tasks : List Task) (k : Kernel) (few : length tasks ≤ 62) where
    loop_done : Added 0 (length tasks) (cleared k) (add_tasks a 0 tasks (cleared k))
    loop_done =
        add_tasks-Added tasks 0 (cleared k) (omega arith) runqueue_init-IsValid
          (λ p h. run_list-runqueue_init p)

    ready-IsValid : IsValid (ready tasks k).run_queue
    unfolding ready add_idle
    ready-IsValid = runqueue_add-IsValid _ 63 63 loop_done.valid (omega arith)

    run_list-ready :
        (p : ℕ)
        → (ready tasks k).run_queue.run_list p
          ≡ (if (ltb 0 p && leb p (length tasks)) || p == 63 then some p else none)
    unfolding ready add_idle
    run_list-ready p =
        run_list-runqueue_add _ 63 63 loop_done.valid (omega arith) p
        ∙ ground (
          arith,
          loop_done.slots p,
          loop_done.slots 63,
          run_list-runqueue_init p,
          run_list-runqueue_init 63,
        )

    abbrev pub first_task : ℕ
    first_task = if length tasks == 0 then 63 else 1

    h : ℕ
    h = highest_prio (ready tasks k).run_queue

    first-eq : (n : ℕ) → IsNext (ready tasks k).run_queue n → (h ≡ first_task) × (n ≡ first_task)
    unfolding h
    first-eq n is_next = ground (
      arith,
      is_next.chosen,
      run_list-ready (highest_prio (ready tasks k).run_queue),
      is_next.least 1,
      run_list-ready 1,
    )

    starts : allocate_tasks a tasks (length tasks) k ≡ dispatch_nosave (ready tasks k)
    unfolding allocate_tasks dev_init ready
    starts = refl

    nosave :
        (s : Kernel) (n : ℕ) (s' : Kernel)
        → take_next s ≡ some (n, s')
        → dispatch_nosave s ≡ some (tt, s')
    unfolding dispatch_nosave
    nosave s n s' e = rw e refl

    tcbs :
        (i : ℕ) (task : Task)
        → get_elem? tasks i ≡ some task
        → (ready tasks k).system_tcb (i + 1) ≡ task_tcb a i task
    unfolding ready add_idle
    tcbs i task e =
        update_ne (add_tasks a 0 tasks (cleared k)).system_tcb 63 (idle_tcb a (length tasks))
          (i + 1) (omega (arith, get_elem?-lt tasks i task e))
        ∙ system_tcb-add_tasks tasks 0 i i (cleared k) task e (omega arith)

    idle-ready : (ready tasks k).system_tcb 63 ≡ idle_tcb a (length tasks)
    unfolding ready add_idle
    idle-ready = refl

    ready_rest :
        ((ready tasks k).devices ≡ init_from 60 k.devices) × ((ready tasks k).gt_mutex ≡ k.gt_mutex)
    unfolding ready add_idle
    ready_rest = add_tasks_rest tasks 0 (cleared k)

    -- `allocate_tasks` makes task `i` of the list runnable at priority `i + 1`, the idle task at 63,
    -- and nobody else, and runs the first task of the list, or the idle task if the list is empty.
    -- Each task's TCB starts it in `launch_task` with its own function, argument and stack. Nobody
    -- sleeps on a device, and the mutexes are as they were.
    pub allocate_tasks_lem :
        (k' : Kernel) × (allocate_tasks a tasks (length tasks) k ≡ some (tt, k'))
        × (k'.cur_tcb ≡ some first_task)
        × IsValid k'.run_queue
        × ((p : ℕ)
            → k'.run_queue.run_list p ≡ (
                if ((ltb 0 p && leb p (length tasks)) || p == 63) && not (p == first_task)
                then some p
                else none))
        × ((i : ℕ) (task : Task)
            → get_elem? tasks i ≡ some task
            → k'.system_tcb (i + 1) ≡ task_tcb a i task)
        × (k'.system_tcb 63 ≡ idle_tcb a (length tasks))
        × ((d : ℕ) → d < 60 → (k'.devices d).sleep_q ≡ none)
        × (k'.gt_mutex ≡ k.gt_mutex)
    unfolding h
    allocate_tasks_lem =
        let (n, is_next, next) =
          take_next_lem (ready tasks k) 63 ready-IsValid (omega arith)
            (ground (arith, run_list-ready 63)) in
        let (h_first, n_first) = first-eq n is_next in
        let (t, slots) =
          runqueue_remove_lem (ready tasks k).run_queue h ready-IsValid is_next.prio_lt in
        (
          record (ready tasks k) {
            run_queue = (runqueue_remove h (ready tasks k).run_queue).1;
            cur_tcb = some n;
          },
          starts ∙ nosave (ready tasks k) n _ next,
          ap some n_first,
          runqueue_remove-IsValid (ready tasks k).run_queue h ready-IsValid is_next.prio_lt,
          λ p. slots p ∙ ground (arith, run_list-ready p, h_first),
          λ i task e. tcbs i task e,
          idle-ready,
          λ d small.
              ap (λ (f : ℕ → Dev). (f d).sleep_q) (ready_rest.0)
              ∙ init_from-none 60 d k.devices small,
          ready_rest.1,
        )
