-- ===== src/Tests/Schedule.antt =====
-- Task sets at concrete inputs, with exact numbers for floats.
use mathlib.Core.List.{Perm}
use embedlab.Prelude.{
  ℕ, ◌+◌, ◌*◌, ◌^◌, ◌≡◌, ◌≤◌, ◌<◌, refl, true, not, none, some, arith, List, [], ◌∷◌, ◌==◌, ltb,
  leb, ◌&&◌, ◌||◌, if◌then◌else◌, take, length, get_elem?, neg32, esched,
}
use embedlab.RunQueue.Laws.{IsValid}
use embedlab.Kernel.{Kernel}
use embedlab.Mutex.{returned, suspended}
use embedlab.Memcheck.{valid_addr}
use embedlab.Schedule.{Task, Float, passes, assign_schedule, utilisation}
use embedlab.Schedule.Sorting.{IsSorted, passes-IsSorted}
use embedlab.Schedule.Test.{total, assign_schedule_vacuous}
use embedlab.Sched.{Addresses, task_tcb, idle_tcb, allocate_tasks}
use embedlab.Sched.Laws.{allocate_tasks_lem}
use embedlab.Proc.{on_schedule, task_create, tasks_left, stacks_valid, periods_valid}
use embedlab.Proc.Laws.{task_create_starts}
use embedlab.Tests.Sample.{sample}

abbrev pub exact : Float
exact = record {
  F = ℕ;
  from_uint = λ n. n;
  add = λ x y. x + y;
  le = leb;
  add_exact = λ x y h. refl;
  le_exact = λ x y hx hy. refl;
}

abbrev pub addresses : Addresses
addresses = record {
  kstack_high = λ i. 0xa0100000 + 4096 * i;
  launch_task = 0xa0001000;
  idle = 0xa0002000;
  idle_stack = 0xa0003000;
  global_data = 0xa0004000;
}

abbrev pub task : ℕ → ℕ → Task
task c t = record { lambda = 0xa0005000; arg = 0; stack_pos = 0xa1000000; c = c; t = t; b = 0 }

-- a task that blocks for longer than all of its periods
abbrev late_task : ℕ → ℕ → Task
late_task c t = record (task c t) { b = 3000 }

-- two tasks that together need more than the processor, and the entry behind them
abbrev memory : List Task
memory = task 90 100 ∷ task 45 50 ∷ task 1 200 ∷ []

passes-IsSorted_example : IsSorted (passes 2 2 memory) × Perm (passes 2 2 memory) memory
passes-IsSorted_example = passes-IsSorted 2 memory refl

memory_sorted : passes 2 2 memory ≡ task 45 50 ∷ task 90 100 ∷ task 1 200 ∷ []
unfolding passes
memory_sorted = refl

small_total : total 0 (take 2 (passes 2 2 memory)) ≤ 2 ^ 24
small_total = rw memory_sorted (omega arith)

memory_fits : (0 < 100) × (90 ≤ 100)
memory_fits = omega arith

assign_schedule_vacuous_example : (assign_schedule exact memory 2).0 ≡ some true
assign_schedule_vacuous_example =
    assign_schedule_vacuous exact memory 2 (omega arith) (omega arith) (omega arith)

sorted_memory : (assign_schedule exact memory 2).1 ≡ task 45 50 ∷ task 90 100 ∷ task 1 200 ∷ []
unfolding assign_schedule passes
sorted_memory = refl

stacks_ok : stacks_valid (take 2 memory) ≡ true
unfolding stacks_valid valid_addr
stacks_ok = refl

periods_ok : periods_valid (take 2 memory) ≡ true
unfolding periods_valid
periods_ok = refl

two_left : length (take 2 (assign_schedule exact memory 2).1) ≡ 2
unfolding assign_schedule passes
two_left = refl

allocate_tasks_lem_example :
    (k' : Kernel) × (allocate_tasks addresses (task 90 100 ∷ []) 1 sample ≡ some (tt, k'))
    × (k'.cur_tcb ≡ some 1)
    × IsValid k'.run_queue
    × ((p : ℕ)
        → k'.run_queue.run_list p
          ≡ (if ((ltb 0 p && leb p 1) || p == 63) && not (p == 1) then some p else none))
    × ((i : ℕ) (t : Task)
        → get_elem? (task 90 100 ∷ []) i ≡ some t
        → k'.system_tcb (i + 1) ≡ task_tcb addresses i t)
    × (k'.system_tcb 63 ≡ idle_tcb addresses 1)
    × ((d : ℕ) → d < 60 → (k'.devices d).sleep_q ≡ none)
    × (k'.gt_mutex ≡ sample.gt_mutex)
allocate_tasks_lem_example = allocate_tasks_lem addresses (task 90 100 ∷ []) sample (omega arith)

accepted : (assign_schedule exact memory 2).0 ≡ some true
unfolding assign_schedule passes utilisation
accepted = refl

task_create_starts_example :
    (k' : Kernel) × (task_create exact addresses memory 2 sample ≡ some (suspended, k'))
    × (k'.cur_tcb ≡ some 1)
    × ((i : ℕ) (t : Task)
        → get_elem? (take 2 (assign_schedule exact memory 2).1) i ≡ some t
        → k'.system_tcb (i + 1) ≡ task_tcb addresses i t)
task_create_starts_example =
    task_create_starts exact addresses memory 2 sample (omega arith) stacks_ok periods_ok accepted
      two_left

-- A set that is refused for its load has been sorted.
abbrev heavy : List Task
heavy = late_task 100 300 ∷ late_task 1 2 ∷ late_task 400 400 ∷ []

heavy_refused : task_create exact addresses heavy 2 sample ≡ some (returned (neg32 esched), sample)
unfolding task_create on_schedule stacks_valid valid_addr periods_valid assign_schedule passes
    utilisation
heavy_refused = refl

heavy_sorted : tasks_left exact heavy 2 ≡ late_task 1 2 ∷ late_task 100 300 ∷ late_task 400 400 ∷ []
unfolding tasks_left stacks_valid valid_addr periods_valid assign_schedule passes
heavy_sorted = refl

-- An entry of zeros behind the set sorts to its front, and its period is divided by.
empty_behind :
    task_create exact addresses (task 90 100 ∷ task 45 50 ∷ task 0 0 ∷ []) 2 sample ≡ none
unfolding task_create on_schedule stacks_valid valid_addr periods_valid assign_schedule passes
    utilisation
empty_behind = refl
