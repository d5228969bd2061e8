-- ===== src/Tests/Mutex.antt =====
-- Mutexes at concrete inputs.
use embedlab.Prelude.{
  ℕ, ◌≡◌, refl, true, false, some, arith, [], ◌∷◌, ◌==◌, if◌then◌else◌, update, neg32, enomem,
  edeadlock, eperm,
}
use embedlab.Kernel.{Kernel, in_mutex_lock, in_mutex_unlock}
use embedlab.Dispatch.Laws.{switched, IsNext, with_current}
use embedlab.Mutex.{mutex_create, mutex_lock, mutex_unlock, returned, suspended}
use embedlab.Mutex.Create.{IsFirst, mutex_create_lem}
use embedlab.Mutex.Queue.{Sleepers, Joined}
use embedlab.Mutex.Lock.{Acquired, mutex_lock_free, mutex_lock_busy}
use embedlab.Mutex.Refused.{mutex_unlock_error}
use embedlab.Mutex.Unlock.{freed, handed, mutex_unlock_wakes, mutex_unlock_twice}
use embedlab.Tests.Sample.{sample, queue-IsValid, idle_ready}

mutex_create_lem_example :
    (i : ℕ) × IsFirst sample.gt_mutex i
    × (mutex_create sample ≡ (
        if i == 32
        then some (neg32 enomem, record sample { irq_on = true })
        else some (
          i,
          record sample {
            irq_on = true;
            gt_mutex = update sample.gt_mutex i (record (sample.gt_mutex i) { available = false });
          },
        )))
mutex_create_lem_example = mutex_create_lem sample

deadlock : mutex_lock 2 sample ≡ some (returned (neg32 edeadlock), sample)
unfolding mutex_lock
deadlock = refl

mutex_lock_free_example :
    (k' : Kernel) × (mutex_lock 1 sample ≡ some (returned 0, k')) × Acquired sample 1 5 k'
mutex_lock_free_example = mutex_lock_free 1 5 sample refl refl refl

no-Sleepers : Sleepers sample 4 []
no-Sleepers = record { chain = refl; distinct = tt; fits = omega arith }

mutex_lock_busy_example :
    (k1 : Kernel) × (n : ℕ) × Joined (record sample { irq_on = false }) 4 5 [] k1
    × IsNext k1.run_queue n
    × (mutex_lock 4 sample ≡ some (suspended, switched k1.run_queue 5 (in_mutex_lock 4) n k1))
mutex_lock_busy_example =
    mutex_lock_busy 4 5 63 sample [] refl refl refl refl no-Sleepers refl queue-IsValid
      (omega arith) idle_ready

not_mine : mutex_unlock 4 sample ≡ some (returned (neg32 eperm), sample)
unfolding mutex_unlock
not_mine = refl

mutex_unlock_error_example :
    (sample ≡ record sample { irq_on = true }) × (neg32 eperm ≡ neg32 eperm)
mutex_unlock_error_example = mutex_unlock_error 4 (neg32 eperm) sample sample not_mine

one-Sleepers : Sleepers sample 3 (7 ∷ [])
one-Sleepers = record { chain = (refl, refl); distinct = (refl, tt); fits = omega arith }

mutex_unlock_wakes_example :
    (n : ℕ) × Sleepers (handed 3 5 sample 7) 3 []
    × IsNext (with_current 5 (handed 3 5 sample 7)) n
    × (mutex_unlock 3 sample
        ≡ some (
          suspended,
          switched (with_current 5 (handed 3 5 sample 7)) 5 in_mutex_unlock n (handed 3 5 sample 7),
        ))
mutex_unlock_wakes_example =
    mutex_unlock_wakes 3 5 sample refl refl refl refl queue-IsValid refl (omega arith) 7 []
      one-Sleepers (omega arith) (omega arith)

mutex_unlock_twice_example :
    let again = record (freed 2 5 sample) { irq_on = true } in
    let k2 = freed 2 5 again in
    (n : ℕ) × (mutex_unlock 2 again
      ≡ some (suspended, switched (with_current 5 k2) 5 in_mutex_unlock n k2))
    × ((k2.system_tcb 5).holds_lock ≡ 0)
    × ((k2.system_tcb 5).cur_prio ≡ 5)
    × (k2.gt_mutex 3 ≡ sample.gt_mutex 3)
mutex_unlock_twice_example =
    mutex_unlock_twice 2 3 5 sample refl (omega arith) refl refl refl refl queue-IsValid refl
      (omega arith) refl
