-- ===== src/Device.antt =====
-- kernel/device.c: simulated devices that wake their sleepers at multiples of a frequency.
pub mod Queue
pub mod Update
pub mod Woken
use embedlab.Prelude.{
  ℕ, zero, suc, ◌+◌, Bool, true, false, Option, none, some, ◌||◌, leb, ◌==◌, not, if◌then◌else◌,
  is_some, List, [], ◌∷◌, get_elem?, neg32, eholdslock, update, u32,
}
use mathlib.Core.Option
use embedlab.RunQueue.{TcbPtr, RunQueue, os_max_tasks, runqueue_add}
use embedlab.Kernel.{
  Kernel, Tcb, Dev, in_dev_wait, in_dev_update, K, ◌>>=◌, ◌>>◌, pure, get, modify, deref, set_tcb,
  num_devices, disable_interrupts, enable_interrupts,
}
use embedlab.Kernel.Chain.{walk_last}
use embedlab.Dispatch.{dispatch_sleep, dispatch_save, get_cur_tcb}
use embedlab.Mutex.{Exit, returned, suspended}

dev_freq : List ℕ
dev_freq =
    100 ∷ 200 ∷ 300 ∷ 400 ∷ 500 ∷ 600 ∷ 700 ∷ 800 ∷ 900 ∷ 1000 ∷ 1100 ∷ 1200 ∷ 1300 ∷ 1400 ∷ 1500
    ∷ 1600 ∷ 1700 ∷ 1800 ∷ 1900 ∷ 2000 ∷ 2100 ∷ 2200 ∷ 2300 ∷ 2400 ∷ 2500 ∷ 2600 ∷ 2700 ∷ 2800
    ∷ 2900 ∷ 3000 ∷ 3100 ∷ 3200 ∷ 3300 ∷ 3400 ∷ 3500 ∷ 3600 ∷ 3700 ∷ 3800 ∷ 3900 ∷ 4000 ∷ 4100
    ∷ 4200 ∷ 4300 ∷ 4400 ∷ 4500 ∷ 4600 ∷ 4700 ∷ 4800 ∷ 4900 ∷ 5000 ∷ 5100 ∷ 5200 ∷ 5300 ∷ 5400
    ∷ 5500 ∷ 5600 ∷ 5700 ∷ 5800 ∷ 5900 ∷ 9000 ∷ []

-- `dev_freq[i]`
pub freq : ℕ → ℕ
unfolding dev_freq
freq i = Option.get_or (get_elem? dev_freq i) 0

unfoldable pub init_from : ℕ → (ℕ → Dev) → ℕ → Dev
init_from zero d = d
init_from (suc n) d = update (init_from n d) n (record { sleep_q = none; next_match = freq n })

unfoldable pub dev_init : K (Unit {0})
dev_init = modify (λ k. record k { devices = init_from num_devices k.devices })

-- Number `num_devices`, past the end of the table, is modelled as one more entry: with which other
-- variable it shares its memory, and what a store to it does there, is not in the model.
abbrev pub set_dev : ℕ → Dev → Kernel → Kernel
set_dev d b k = record k { devices = update k.devices d b }

-- `sleep_queue->sleep_queue = cur_tcb`, and the null pointer behind it
unfoldable pub put_last : ℕ → Option ℕ → K (Unit {0})
put_last cur none k = none
put_last cur (some last) k =
    let linked = set_tcb last (record (k.system_tcb last) { sleep_queue = some cur }) k in
    some (tt, set_tcb cur (record (linked.system_tcb cur) { sleep_queue = none }) linked)

unfoldable pub put_behind : ℕ → ℕ → TcbPtr → K (Unit {0})
unfolding put_last
put_behind dev cur none k =
    let headed = set_dev dev (record (k.devices dev) { sleep_q = some cur }) k in
    some (tt, set_tcb cur (record (k.system_tcb cur) { sleep_queue = none }) headed)
put_behind dev cur (some first) k =
    put_last cur (walk_last os_max_tasks (λ t. (k.system_tcb t).sleep_queue) first) k

pub join_queue : ℕ → ℕ → K (Unit {0})
unfolding put_behind
join_queue dev cur = do k ← get; put_behind dev cur (k.devices dev).sleep_q

-- A task that holds a lock is sent back before interrupts are enabled again.
pub wait_as : ℕ → TcbPtr → K Exit
unfolding join_queue
wait_as dev cur_ptr = do
  cur ← deref cur_ptr
  k ← get
  if not ((k.system_tcb cur).holds_lock == 0)
      then pure (returned (neg32 eholdslock))
      else (do join_queue dev cur; dispatch_sleep in_dev_wait; pure suspended)

pub dev_wait : ℕ → K Exit
unfolding wait_as disable_interrupts get_cur_tcb
dev_wait dev = do disable_interrupts; cur_ptr ← get_cur_tcb; wait_as dev cur_ptr

-- the inner `while` of `dev_update`, with fuel
pub wake_chain : ℕ → (ℕ → Tcb) → TcbPtr → RunQueue → Option RunQueue
wake_chain fuel tcb none q = some q
wake_chain zero tcb (some t) q = none
wake_chain (suc fuel) tcb (some t) q =
    wake_chain fuel tcb (tcb t).sleep_queue (runqueue_add t (tcb t).native_prio q)

-- the store of the queue that the inner loop leaves, and `devices[i].sleep_q = 0`
abbrev pub finish_wake : ℕ → Option RunQueue → K Bool
finish_wake i none k = none
finish_wake i (some q) k =
    some (true, set_dev i (record (k.devices i) { sleep_q = none }) (record k { run_queue = q }))

-- the body of the `if (sleep_queue != 0)`; the result is whether it was entered
unfoldable pub wake_at : ℕ → TcbPtr → K Bool
unfolding wake_chain
wake_at i none k = pure false k
wake_at i (some first) k =
    finish_wake i (wake_chain os_max_tasks k.system_tcb (some first) k.run_queue) k

-- one round of the `for` of `dev_update`
pub signal : ℕ → ℕ → K Bool
unfolding wake_at
signal millis i = do
  k ← get
  if leb (k.devices i).next_match millis
      then (do
        modify (
            set_dev i
              (record (k.devices i) { next_match = u32 ((k.devices i).next_match + freq i) }))
        wake_at i (k.devices i).sleep_q)
      else pure false

-- the `for`, over the devices from `i` on; the result is `flag`
pub signal_from : ℕ → ℕ → ℕ → Bool → K Bool
unfolding signal
signal_from millis zero i flag = pure flag
signal_from millis (suc n) i flag =
    signal millis i >>= λ woken. signal_from millis n (i + 1) (flag || woken)

unfoldable pub dispatch_update : K Exit
dispatch_update = do dispatch_save in_dev_update; pure suspended

-- `suspended`: `dispatch_save` has switched; interrupts are enabled when the task goes on.
pub dev_update : ℕ → K Exit
unfolding dispatch_update disable_interrupts enable_interrupts
dev_update millis = do
  disable_interrupts
  flag ← signal_from millis num_devices 0 false
  if flag then dispatch_update else (do enable_interrupts; pure (returned 0))
