-- ===== src/Tests/Device.antt =====
-- Devices at concrete inputs.
use embedlab.Prelude.{
  ℕ, zero, suc, ◌+◌, ◌≡◌, ◌&&◌, ltb, refl, true, false, none, some, arith, List, [], ◌∷◌,
  if◌then◌else◌, u32,
}
use embedlab.Kernel.{Kernel, Dev, in_dev_wait}
use embedlab.Dispatch.Laws.{switched, IsNext}
use embedlab.Mutex.{returned, suspended}
use embedlab.Device.{dev_update, dispatch_update, freq}
use embedlab.Proc.{event_wait}
use embedlab.Proc.Laws.{event_wait_lem}
use embedlab.Device.Queue.{Sleepers, Joined}
use embedlab.Device.Update.{add_all, due, woken, nonempty, dev_update_lem}
use embedlab.Tests.Sample.{sample, queue, queue-IsValid, idle_ready, tcb}
use embedlab.RunQueue.{runqueue_init, runqueue_add}

abbrev lockless : Kernel
lockless = record sample { system_tcb = λ t. tcb t 0 none }

one_waits : Sleepers lockless 0 (6 ∷ [])
one_waits = record { chain = (refl, refl); distinct = (refl, tt); fits = omega arith }

abbrev sleepers_of : ℕ → List ℕ
sleepers_of zero = 6 ∷ []
sleepers_of (suc d) = []

all_Sleepers : (j : ℕ) → Sleepers sample j (sleepers_of j)
all_Sleepers zero = record { chain = (refl, refl); distinct = (refl, tt); fits = omega arith }
all_Sleepers (suc j) = record { chain = refl; distinct = tt; fits = omega arith }

dev_update_lem_example :
    (ds : ℕ → Dev) × ((j : ℕ)
      → ds j ≡ (
          if ltb j 60 && due sample.devices 150 j
          then record { sleep_q = none; next_match = u32 ((sample.devices j).next_match + freq j) }
          else sample.devices j))
    × (dev_update 150 sample ≡ (
        if nonempty (woken sample.devices 150 sleepers_of 60 0)
        then dispatch_update (record sample {
          devices = ds;
          run_queue = add_all sample.system_tcb (woken sample.devices 150 sleepers_of 60 0) queue;
          irq_on = false;
        })
        else some (returned 0, record sample { devices = ds; irq_on = true })))
dev_update_lem_example = dev_update_lem sample 150 sleepers_of (λ j h. all_Sleepers j)

slot_six_free : queue.run_list 6 ≡ none
unfolding runqueue_add runqueue_init
slot_six_free = refl

nobody_waits : Sleepers lockless 60 []
nobody_waits = record { chain = refl; distinct = tt; fits = omega arith }

event_wait_lem_example :
    (k1 : Kernel) × (n : ℕ) × Joined (record lockless { irq_on = false }) 60 5 [] k1
    × IsNext k1.run_queue n
    × (event_wait 60 lockless ≡ some (suspended, switched k1.run_queue 5 in_dev_wait n k1))
event_wait_lem_example =
    event_wait_lem 60 5 63 lockless [] (omega arith) refl refl nobody_waits refl queue-IsValid
      (omega arith) idle_ready
