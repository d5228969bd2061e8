-- ===== src/Dispatch.antt =====
-- kernel/sched/ctx_switch.c: the current task and the switch to the next one. A switch stores
-- where the old task goes on (its saved `lr` and kernel stack) in its TCB.
pub mod Laws
use embedlab.Prelude.{ℕ, Option, none, some, ◌==◌, if◌then◌else◌}
use embedlab.RunQueue.{TcbPtr, runqueue_add, runqueue_remove, highest_prio}
use embedlab.Kernel.{Kernel, Tcb, Resume, K, ◌>>=◌, ◌>>◌, pure, get, modify, deref, set_tcb}

unfoldable pub dispatch_init : TcbPtr → K (Unit {0})
dispatch_init idle = modify (λ k. record k { cur_tcb = idle })

-- The store of `ctx_switch_full`: the registers of the task that calls it.
pub save_context : ℕ → Resume → K (Unit {0})
save_context t at = modify (λ k. set_tcb t (record (k.system_tcb t) { resume = at }) k)

-- `cur_tcb = runqueue_remove(highest_prio())`; the switch that follows reads `cur_tcb->context`.
pub take_next : K ℕ
take_next k =
    let (t, q) = runqueue_remove (highest_prio k.run_queue) k.run_queue in
    deref t (record k { run_queue = q; cur_tcb = t })

pub make_runnable : ℕ → K (Unit {0})
make_runnable last k =
    let t = k.system_tcb last in
    modify
      (λ s.
        if t.pending == 1
        then s
        else record s { run_queue = runqueue_add last t.cur_prio s.run_queue })
      k

pub dispatch_save : Resume → K (Unit {0})
unfolding save_context take_next make_runnable
dispatch_save at = do
  k ← get
  last ← deref k.cur_tcb
  make_runnable last
  next ← take_next
  save_context last at

unfoldable pub dispatch_nosave : K (Unit {0})
dispatch_nosave = do next ← take_next; pure tt

pub dispatch_sleep : Resume → K (Unit {0})
unfolding save_context take_next
dispatch_sleep at = do k ← get; last ← deref k.cur_tcb; next ← take_next; save_context last at

-- The value is a constant, not the priority of the current task.
unfoldable pub get_cur_prio : K ℕ
get_cur_prio = pure 1

unfoldable pub get_cur_tcb : K TcbPtr
get_cur_tcb k = some (k.cur_tcb, k)
