-- ===== src/Sched.antt =====
-- kernel/sched/sched.c: the TCBs of a task set, and the first dispatch. The addresses that the
-- linker chooses are parameters.
pub mod Laws
use embedlab.Prelude.{ℕ, zero, suc, ◌+◌, Option, none, some, List, [], ◌∷◌, update, u8}
use embedlab.RunQueue.{RunQueue, runqueue_add, runqueue_init}
use embedlab.Kernel.{
  Kernel, Tcb, Context, launch, K, ◌>>=◌, ◌>>◌, pure, get, modify, set_tcb, idle_prio,
}
use embedlab.Dispatch.{dispatch_nosave}
use embedlab.Device.{dev_init}
use embedlab.Schedule.{Task}

pub record Addresses : Type 0 where
  pub kstack_high : ℕ → ℕ  -- the end of the kernel stack in `system_tcb[i]`
  pub launch_task : ℕ
  pub idle : ℕ
  pub idle_stack : ℕ
  pub global_data : ℕ

module _ (a : Addresses) where
  -- the stores to `system_tcb[i+1]` in the loop of `allocate_tasks`
  unfoldable pub task_tcb : ℕ → Task → Tcb
  task_tcb i task = record {
    native_prio = u8 (i + 1);
    cur_prio = u8 (i + 1);
    context = record {
      r4 = task.lambda;
      r5 = task.arg;
      r6 = task.stack_pos;
      r7 = a.kstack_high (i + 1);
      r8 = a.global_data;
      sp = a.kstack_high (i + 1);
      lr = a.launch_task;
    };
    holds_lock = 0;
    sleep_queue = none;
    pending = 0;
    mutex_sleep_queue = none;
    resume = launch;
  }

  -- The stores to `system_tcb[IDLE_PRIO]`; `i` is what the loop counter ends with. The saved `sp`
  -- is that of `system_tcb[i+1]`; `launch_task` loads it anew from r7.
  unfoldable pub idle_tcb : ℕ → Tcb
  idle_tcb i = record {
    native_prio = idle_prio;
    cur_prio = idle_prio;
    context = record {
      r4 = a.idle;
      r5 = 0;
      r6 = a.idle_stack;
      r7 = a.kstack_high idle_prio;
      r8 = a.global_data;
      sp = a.kstack_high (i + 1);
      lr = a.launch_task;
    };
    holds_lock = 0;
    sleep_queue = none;
    pending = 0;
    mutex_sleep_queue = none;
    resume = launch;
  }

  -- one round of the loop
  unfoldable pub add_task : ℕ → Task → Kernel → Kernel
  unfolding task_tcb
  add_task i task k = record k {
    system_tcb = update k.system_tcb (i + 1) (task_tcb i task);
    run_queue = runqueue_add (i + 1) (u8 (i + 1)) k.run_queue;
  }

  -- the loop, over the tasks from the `i`-th on
  unfoldable pub add_tasks : ℕ → List Task → Kernel → Kernel
  unfolding add_task
  add_tasks i [] k = k
  add_tasks i (task ∷ tasks) k = add_tasks (i + 1) tasks (add_task i task k)

  unfoldable pub add_idle : ℕ → Kernel → Kernel
  unfolding idle_tcb
  add_idle i k = record k {
    system_tcb = update k.system_tcb idle_prio (idle_tcb i);
    run_queue = runqueue_add idle_prio idle_prio k.run_queue;
  }

  -- `tasks` holds the first `num_tasks` entries.
  pub allocate_tasks : List Task → (num_tasks : ℕ) → K (Unit {0})
  unfolding add_tasks add_idle
  allocate_tasks tasks num_tasks = do
    dev_init
    modify (λ k. record k { run_queue = runqueue_init })
    modify (add_tasks 0 tasks)
    modify (add_idle num_tasks)
    dispatch_nosave
