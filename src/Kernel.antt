-- ===== src/Kernel.antt =====
-- The kernel's shared state (kernel/include/task.h, lock.h; the static variables of
-- kernel/sched/*.c, kernel/lock/mutex.c, kernel/device.c, kernel/irqHandler_c.c), and its
-- interrupt mask. A `tcb_t*` is an index into `system_tcb`; `none` is the null pointer.
pub mod Chain
use embedlab.Prelude.{ℕ, Bool, true, false, Option, none, some, update, ◌==◌, if◌then◌else◌}
use embedlab.RunQueue.{RunQueue, TcbPtr}

abbrev pub idle_prio : ℕ
idle_prio = 63

abbrev pub os_num_mutex : ℕ
os_num_mutex = 32

abbrev pub num_devices : ℕ
num_devices = 60

-- `struct sched_context`, the registers that C code writes
pub record Context : Type 0 where
  pub r4 : ℕ
  pub r5 : ℕ
  pub r6 : ℕ
  pub r7 : ℕ
  pub r8 : ℕ
  pub sp : ℕ
  pub lr : ℕ

-- Where a saved context goes on when `ctx_switch_full` or `ctx_switch_half` loads it: what its `lr`
-- and kernel stack stand for.
pub data Resume : Type 0 where
  launch : Resume  -- `launch_task`, into user mode
  in_mutex_lock : (mutex : ℕ) → Resume  -- behind `dispatch_sleep` in `mutex_lock`
  in_mutex_unlock : Resume  -- behind `dispatch_save` in `mutex_unlock`
  in_dev_wait : Resume  -- behind `dispatch_sleep` in `dev_wait`
  in_dev_update : Resume  -- behind `dispatch_save` in `dev_update`

-- `struct tcb`
pub record Tcb : Type 0 where
  pub native_prio : ℕ
  pub cur_prio : ℕ
  pub context : Context
  pub holds_lock : ℕ  -- an `int` that the code keeps at 0 or above
  pub sleep_queue : TcbPtr
  pub pending : ℕ
  pub mutex_sleep_queue : TcbPtr
  pub resume : Resume

-- `struct mutex`
pub record Mutex : Type 0 where
  pub available : Bool
  pub holding_tcb : TcbPtr
  pub lock : Bool
  pub sleep_queue : TcbPtr

-- `struct dev`
pub record Dev : Type 0 where
  pub sleep_q : TcbPtr
  pub next_match : ℕ

pub record Kernel : Type 0 where
  pub system_tcb : ℕ → Tcb
  pub run_queue : RunQueue
  pub cur_tcb : TcbPtr
  pub gt_mutex : ℕ → Mutex
  pub devices : ℕ → Dev
  pub irq_on : Bool  -- the I and F bits of CPSR are clear
  pub system_time : ℕ
  pub time_drift : ℕ

-- `none` is a fault: a null pointer is followed, or a queue of more than `os_max_tasks` is walked.
abbrev pub K : Type 0 → Type 0
K A = Kernel → Option (A × Kernel)

module _ {A B : Type 0} where
  abbrev pub and_then : Option (A × Kernel) → (A → K B) → Option (B × Kernel)
  and_then none f = none
  and_then (some (a, k)) f = f a k

  infixl 5 ◌>>=◌ ◌>>◌
  abbrev pub ◌>>=◌ : K A → (A → K B) → K B
  m >>= f = λ k. and_then (m k) f

  abbrev pub ◌>>◌ : K A → K B → K B
  m >> n = m >>= λ _. n

abbrev pub pure : {A : Type 0} → A → K A
pure a k = some (a, k)

abbrev pub get : K Kernel
get k = some (k, k)

abbrev pub modify : (Kernel → Kernel) → K (Unit {0})
modify f k = some (tt, f k)

-- a pointer that is followed
abbrev pub deref : TcbPtr → K ℕ
deref none k = none
deref (some t) k = some (t, k)

abbrev pub set_tcb : ℕ → Tcb → Kernel → Kernel
set_tcb t b k = record k { system_tcb = update k.system_tcb t b }

abbrev pub set_mutex : ℕ → Mutex → Kernel → Kernel
set_mutex m b k = record k { gt_mutex = update k.gt_mutex m b }

unfoldable pub disable_interrupts : K (Unit {0})
disable_interrupts = modify (λ k. record k { irq_on = false })

unfoldable pub enable_interrupts : K (Unit {0})
enable_interrupts = modify (λ k. record k { irq_on = true })
