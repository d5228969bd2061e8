-- ===== src/Mutex.antt =====
-- kernel/lock/mutex.c. Each function runs with interrupts disabled from its first line, so up to a
-- dispatch it is one atomic step; `suspended` says that another task runs now, and `resume` holds
-- what is left of the call.
pub mod Create
pub mod Queue
pub mod Lock
pub mod Refused
pub mod Unlock
use embedlab.Prelude.{
  ℕ, zero, suc, ◌+◌, ◌-◌, ◌≡◌, ◌≢◌, arith, Bool, true, false, Option, none, some, ◌&&◌, ◌||◌, not,
  ltb, leb, ◌==◌, if◌then◌else◌, is_some, neg32, is_negative, eperm, enomem, einval, edeadlock,
  update,
}
use embedlab.RunQueue.{TcbPtr, os_max_tasks, runqueue_add}
use embedlab.Kernel.{
  Kernel, Tcb, Mutex, Resume, in_mutex_lock, in_mutex_unlock, K, ◌>>=◌, ◌>>◌, pure, get, modify,
  deref, set_tcb, set_mutex, os_num_mutex, disable_interrupts, enable_interrupts,
}
use embedlab.Kernel.Chain.{walk_last}
use embedlab.Dispatch.{dispatch_sleep, dispatch_save, get_cur_tcb}

-- What a system call has done when control leaves it: it returns a word to its caller, or the
-- caller stands in a queue and another task runs.
pub data Exit : Type 0 where
  returned : ℕ → Exit
  suspended : Exit

module _ (r : ℕ) (k : Kernel) where
  pub returned_inj :
      (v : ℕ) (s : Kernel)
      → ◌≡◌ {A = Option (Exit × Kernel)} (some (returned v, s)) (some (returned r, k))
      → (k ≡ s) × (r ≡ v)
  returned_inj v s h =
      let state : k ≡ s = ground (arith, h) in let code : r ≡ v = ground (arith, h) in (state, code)

pub suspended-returned : (r : ℕ) → returned r ≢ suspended
suspended-returned r h = cc

abbrev highest_priority : ℕ
highest_priority = 0

abbrev pub fresh_mutex : Mutex
fresh_mutex = record { available = true; holding_tcb = none; lock = false; sleep_queue = none }

-- the loop of `mutex_init`
abbrev pub init_from : ℕ → (ℕ → Mutex) → ℕ → Mutex
init_from zero m = m
init_from (suc n) m = update (init_from n m) n fresh_mutex

unfoldable pub mutex_init : K (Unit {0})
mutex_init = modify (λ k. record k { gt_mutex = init_from os_num_mutex k.gt_mutex })

-- The `while` of `mutex_create`: the flag is read before the index is tested, so the last round
-- reads `gtMutex[OS_NUM_MUTEX].bAvailable`, one past the end. `rounds` counts down to that round.
find_available : (rounds : ℕ) → (index : ℕ) → (ℕ → Mutex) → ℕ
find_available zero index m = index
find_available (suc rounds) index m =
    let next = find_available rounds (index + 1) m in
    if not (m index).available && ltb index os_num_mutex then next else index

pub mutex_create : K ℕ
unfolding find_available disable_interrupts enable_interrupts
mutex_create = do
  disable_interrupts
  k ← get
  let index = find_available (os_num_mutex + 1) 0 k.gt_mutex
  if index == os_num_mutex
      then (do enable_interrupts; enable_interrupts; pure (neg32 enomem))
      else (do
        modify (set_mutex index (record (k.gt_mutex index) { available = false }))
        enable_interrupts
        pure index)

-- `(mutex >= OS_NUM_MUTEX) || (mutex < 0)` of an `int`
abbrev pub bad_mutex : ℕ → Bool
bad_mutex m = leb os_num_mutex m || is_negative m

-- the lines behind `dispatch_sleep`, and behind the `else`, of `mutex_lock`
pub lock_tail : ℕ → ℕ → K ℕ
unfolding enable_interrupts
lock_tail mutex cur = do
  modify (λ k.
      let t = k.system_tcb cur in
      set_tcb cur (record t { holds_lock = t.holds_lock + 1; cur_prio = highest_priority }) k)
  modify (λ k. set_mutex mutex (record (k.gt_mutex mutex) { holding_tcb = some cur }) k)
  enable_interrupts
  pure 0

-- `temp_tcb->mutex_sleep_queue = cur_tcb`, behind the last task of the queue
unfoldable pub put_last : ℕ → Option ℕ → K (Unit {0})
put_last cur none k = none
put_last cur (some last) k =
    modify (set_tcb last (record (k.system_tcb last) { mutex_sleep_queue = some cur })) k

unfoldable pub put_behind : ℕ → ℕ → TcbPtr → K (Unit {0})
unfolding put_last
put_behind mutex cur none k =
    modify (set_mutex mutex (record (k.gt_mutex mutex) { sleep_queue = some cur })) k
put_behind mutex cur (some temp) k =
    put_last cur (walk_last os_max_tasks (λ t. (k.system_tcb t).mutex_sleep_queue) temp) k

-- the `else` branch that puts the task to the mutex's sleep queue
pub join_queue : ℕ → ℕ → K (Unit {0})
unfolding put_behind
join_queue mutex cur = do
  modify (λ k. set_tcb cur (record (k.system_tcb cur) { mutex_sleep_queue = none; pending = 1 }) k)
  k ← get
  put_behind mutex cur (k.gt_mutex mutex).sleep_queue

abbrev pub ptr_eq : TcbPtr → TcbPtr → Bool
ptr_eq none none = true
ptr_eq none (some _) = false
ptr_eq (some _) none = false
ptr_eq (some a) (some b) = a == b

-- the branch of `mutex_lock` that waits
pub wait_for : ℕ → TcbPtr → K Exit
unfolding join_queue
wait_for mutex cur_ptr = do
  cur ← deref cur_ptr
  join_queue mutex cur
  dispatch_sleep (in_mutex_lock mutex)
  pure suspended

-- `suspended`: `dispatch_sleep` has switched away; `lock_tail` is left for the task to do.
unfoldable pub mutex_lock : ℕ → K Exit
unfolding wait_for lock_tail disable_interrupts enable_interrupts get_cur_tcb
mutex_lock mutex = do
  disable_interrupts
  if bad_mutex mutex then (do enable_interrupts; pure (returned (neg32 einval))) else do
    cur_ptr ← get_cur_tcb
    k ← get
    if (k.gt_mutex mutex).lock
        then (if ptr_eq cur_ptr (k.gt_mutex mutex).holding_tcb
            then (do enable_interrupts; pure (returned (neg32 edeadlock)))
            else wait_for mutex cur_ptr)
        else (do
          modify (set_mutex mutex (record (k.gt_mutex mutex) { lock = true }))
          cur ← deref cur_ptr
          r ← lock_tail mutex cur
          pure (returned r))

-- The first task of the sleep queue becomes runnable at its native priority; the lock stays taken.
-- With an empty queue the lock is free. `pHolding_Tcb` stays as it is either way.
unfoldable pub wake_at : ℕ → TcbPtr → K (Unit {0})
wake_at mutex none = modify (λ k. set_mutex mutex (record (k.gt_mutex mutex) { lock = false }) k)
wake_at mutex (some first) = do
  k ← get
  let t = k.system_tcb first
  modify (set_mutex mutex (record (k.gt_mutex mutex) { sleep_queue = t.mutex_sleep_queue }))
  modify
      (set_tcb first (record t { mutex_sleep_queue = none; pending = 0; cur_prio = t.native_prio }))
  modify (λ s. record s { run_queue = runqueue_add first t.native_prio s.run_queue })

pub wake_first : ℕ → K (Unit {0})
unfolding wake_at
wake_first mutex = do k ← get; wake_at mutex (k.gt_mutex mutex).sleep_queue

abbrev pub dropped : Tcb → Tcb
dropped t =
    if ltb 1 t.holds_lock
    then record t { holds_lock = t.holds_lock - 1 }
    else record t { holds_lock = 0; cur_prio = t.native_prio }

pub drop_count : ℕ → K (Unit {0})
drop_count cur = modify (λ k. set_tcb cur (dropped (k.system_tcb cur)) k)

-- the lines of `mutex_unlock` behind its checks
pub release : ℕ → TcbPtr → K Exit
unfolding wake_first drop_count
release mutex cur_ptr = do
  wake_first mutex
  cur ← deref cur_ptr
  drop_count cur
  dispatch_save in_mutex_unlock
  pure suspended

unfoldable pub mutex_unlock : ℕ → K Exit
unfolding release disable_interrupts enable_interrupts get_cur_tcb
mutex_unlock mutex = do
  disable_interrupts
  if bad_mutex mutex then (do enable_interrupts; pure (returned (neg32 einval))) else do
    cur_ptr ← get_cur_tcb
    k ← get
    let m = k.gt_mutex mutex
    if m.available || not (ptr_eq cur_ptr m.holding_tcb)
        then (do enable_interrupts; pure (returned (neg32 eperm)))
        else (if not m.available && not (is_some m.holding_tcb)
            then (do enable_interrupts; pure (returned 0))
            else (if not (ptr_eq cur_ptr m.holding_tcb)
                then (do enable_interrupts; pure (returned 0))
                else release mutex cur_ptr))
