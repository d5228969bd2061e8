-- ===== src/Tests/RunQueue.antt =====
-- The run queue at concrete inputs.
use embedlab.Prelude.{ℕ, ◌≡◌, ◌≢◌, ◌<◌, refl, false, none, some, arith, is_some, List, [], ◌∷◌, ◌⊎◌}
use embedlab.RunQueue.{runqueue_add, runqueue_remove, runqueue_init, highest_prio}
use embedlab.RunQueue.Laws.{IsValid, runqueue_init-IsValid, run_list-runqueue_init}
use embedlab.RunQueue.Spec
use embedlab.RunQueue.Spec.{Op, put, take_first}
use embedlab.RunQueue.Refine.{run_queue, run_queue_refines}
use embedlab.Kernel.{Kernel, in_dev_update}
use embedlab.Dispatch.{dispatch_save}
use embedlab.Dispatch.Laws.{dispatch_save_fair}
use embedlab.Tests.Sample.{queue, queue-IsValid, slot_five_free, sample}

abbrev script : List Op
script = put 3 9 ∷ put 4 2 ∷ put 5 2 ∷ take_first ∷ take_first ∷ take_first ∷ []

run_script : run_queue runqueue_init script ≡ some 4 ∷ some 3 ∷ none ∷ []
unfolding run_queue runqueue_init runqueue_add runqueue_remove highest_prio
run_script = refl

run_queue_refines_example : run_queue runqueue_init script ≡ Spec.run (λ p. none) script
run_queue_refines_example =
    run_queue_refines script runqueue_init (λ p. none) runqueue_init-IsValid
      (λ p h. run_list-runqueue_init p) (omega arith)

dispatch_save_fair_example :
    (k' : Kernel) × (n : ℕ) × (dispatch_save in_dev_update sample ≡ some (tt, k'))
    × (k'.cur_tcb ≡ some n)
    × IsValid k'.run_queue
    × (((n ≡ 5)
          × ((r : ℕ) → r < 5 → is_some (queue.run_list r) ≡ false)
          × ((p : ℕ) → k'.run_queue.run_list p ≡ queue.run_list p))
        ⊎ ((r : ℕ) × (r < 5)
            × (queue.run_list r ≡ some n)
            × (k'.run_queue.run_list 5 ≡ some 5)
            × (k'.run_queue.run_list r ≡ none)
            × ((p : ℕ) → p ≢ r → p ≢ 5 → k'.run_queue.run_list p ≡ queue.run_list p)))
dispatch_save_fair_example =
    dispatch_save_fair sample in_dev_update 5 refl queue-IsValid (omega arith) refl slot_five_free
