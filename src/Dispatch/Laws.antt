-- ===== src/Dispatch/Laws.antt =====
-- Which task a dispatch chooses, and what it leaves alone.
use embedlab.Prelude.{
  ℕ, ◌<◌, ◌≡◌, ◌≢◌, refl, true, false, none, some, arith, is_some, ◌==◌, if◌then◌else◌, not, ◌&&◌,
  Option-cases, inl, inr, ◌⊎◌, Bool-cases, ltb,
}
use embedlab.RunQueue.{RunQueue, runqueue_add, runqueue_remove, highest_prio}
use embedlab.RunQueue.Laws.{
  IsValid, runqueue_remove_lem, runqueue_remove-IsValid, runqueue_add-IsValid,
  run_list-runqueue_add,
}
use embedlab.RunQueue.Highest.{highest_prio_lem}
use embedlab.Kernel.{Kernel, Resume, set_tcb}
use embedlab.Dispatch.{take_next, make_runnable, save_context, dispatch_save, dispatch_sleep}

-- `k` after task `last` stopped at `at` and `next` became the current task, taken off `q`.
abbrev pub switched : RunQueue → ℕ → Resume → ℕ → Kernel → Kernel
switched q last at next k =
    set_tcb last (record (k.system_tcb last) { resume = at })
      (record k { run_queue = (runqueue_remove (highest_prio q) q).1; cur_tcb = some next })

-- `next` is the occupant of the least taken slot of `q`.
pub record IsNext (q : RunQueue) (next : ℕ) : Type 0 where
  pub prio_lt : highest_prio q < 64
  pub chosen : q.run_list (highest_prio q) ≡ some next
  pub least : (r : ℕ) → r < highest_prio q → is_some (q.run_list r) ≡ false

module _ (k : Kernel) (p : ℕ) (v : IsValid k.run_queue) (small : p < 64)
    (taken : is_some (k.run_queue.run_list p) ≡ true) where
  abbrev top : ℕ
  top = highest_prio k.run_queue

  occupant : (n : ℕ) × (k.run_queue.run_list top ≡ some n)
  occupant = elim (Option-cases (k.run_queue.run_list top)) [
    | inl e ↦ absurd (ground (arith, (highest_prio_lem k.run_queue p v small taken).1, e))
    | inr found ↦ found
  ]

  pub take_next_lem :
      (n : ℕ) × IsNext k.run_queue n
      × (take_next k
          ≡ some (
            n,
            record k {
              run_queue = (runqueue_remove (highest_prio k.run_queue) k.run_queue).1;
              cur_tcb = some n;
            },
          ))
  unfolding take_next
  take_next_lem =
      let (n, e) = occupant in
      let (lt, full, first) = highest_prio_lem k.run_queue p v small taken in
      (
        n,
        record { prio_lt = lt; chosen = e; least = first },
        rw ((runqueue_remove_lem k.run_queue top v lt).0, e) refl,
      )

-- `dispatch_sleep` runs the least taken slot of the run queue, and does not put the current task
-- back.
pub dispatch_sleep_lem :
    (k : Kernel) (at : Resume) (c p : ℕ)
    → k.cur_tcb ≡ some c
    → IsValid k.run_queue
    → p < 64
    → is_some (k.run_queue.run_list p) ≡ true
    → (n : ℕ) × IsNext k.run_queue n
      × (dispatch_sleep at k ≡ some (tt, switched k.run_queue c at n k))
unfolding dispatch_sleep save_context
dispatch_sleep_lem k at c p cur v small taken =
    let (n, is_next, next) = take_next_lem k p v small taken in (n, is_next, simp (cur, next))

-- the run queue after `dispatch_save` has put task `c` back
abbrev pub with_current : ℕ → Kernel → RunQueue
with_current c k = runqueue_add c (k.system_tcb c).cur_prio k.run_queue

-- `dispatch_save` puts the current task back at its current priority, and runs the least taken slot.
pub dispatch_save_lem :
    (k : Kernel) (at : Resume) (c : ℕ)
    → k.cur_tcb ≡ some c
    → IsValid k.run_queue
    → (k.system_tcb c).cur_prio < 64
    → ((k.system_tcb c).pending == 1) ≡ false
    → (n : ℕ) × IsNext (with_current c k) n
      × (dispatch_save at k ≡ some (tt, switched (with_current c k) c at n k))
unfolding dispatch_save save_context make_runnable
dispatch_save_lem k at c cur v small awake =
    let (n, is_next, next) =
      take_next_lem (record k { run_queue = with_current c k }) (k.system_tcb c).cur_prio
        (runqueue_add-IsValid k.run_queue c (k.system_tcb c).cur_prio v small) small
        (ground (
          arith,
          run_list-runqueue_add k.run_queue c (k.system_tcb c).cur_prio v small
              (k.system_tcb c).cur_prio,
        )) in
    (n, is_next, simp (cur, awake, next))

-- If the slot of the current task's priority is empty, `dispatch_save` loses no task: either it
-- goes on with the current task, and no slot above it is taken, or it runs the occupant of a higher
-- slot, and the current task waits in its own. Both levels of the bitmap still tell which slots are
-- taken, and each slot but these two holds what it held.
pub dispatch_save_fair :
    (k : Kernel) (at : Resume) (c : ℕ)
    → k.cur_tcb ≡ some c
    → IsValid k.run_queue
    → (k.system_tcb c).cur_prio < 64
    → ((k.system_tcb c).pending == 1) ≡ false
    → k.run_queue.run_list (k.system_tcb c).cur_prio ≡ none
    → (k' : Kernel) × (n : ℕ) × (dispatch_save at k ≡ some (tt, k'))
      × (k'.cur_tcb ≡ some n)
      × IsValid k'.run_queue
      × (((n ≡ c)
            × ((r : ℕ) → r < (k.system_tcb c).cur_prio → is_some (k.run_queue.run_list r) ≡ false)
            × ((p : ℕ) → k'.run_queue.run_list p ≡ k.run_queue.run_list p))
          ⊎ ((r : ℕ) × (r < (k.system_tcb c).cur_prio)
              × (k.run_queue.run_list r ≡ some n)
              × (k'.run_queue.run_list (k.system_tcb c).cur_prio ≡ some c)
              × (k'.run_queue.run_list r ≡ none)
              × ((p : ℕ)
                  → p ≢ r
                  → p ≢ (k.system_tcb c).cur_prio
                  → k'.run_queue.run_list p ≡ k.run_queue.run_list p)))
dispatch_save_fair k at c cur v small awake free =
    let (n, is_next, run) = dispatch_save_lem k at c cur v small awake in
    (
      switched (with_current c k) c at n k,
      n,
      run,
      refl,
      runqueue_remove-IsValid (with_current c k) (highest_prio (with_current c k))
          with_current-IsValid is_next.prio_lt,
      split n is_next,
    )
  where
    own : ℕ
    own = (k.system_tcb c).cur_prio

    added :
        (p : ℕ)
        → (with_current c k).run_list p ≡ (
            if own == p && not (is_some (k.run_queue.run_list own))
            then some c
            else k.run_queue.run_list p)
    added = run_list-runqueue_add k.run_queue c own v small

    with_current-IsValid : IsValid (with_current c k)
    with_current-IsValid = runqueue_add-IsValid k.run_queue c own v small

    removed :
        (n p : ℕ)
        → IsNext (with_current c k) n
        → (switched (with_current c k) c at n k).run_queue.run_list p
          ≡ (if highest_prio (with_current c k) == p then none else (with_current c k).run_list p)
    removed n p is_next =
        (runqueue_remove_lem (with_current c k) (highest_prio (with_current c k))
            with_current-IsValid is_next.prio_lt).1
          p

    split :
        (n : ℕ)
        → IsNext (with_current c k) n
        → ((n ≡ c)
            × ((r : ℕ) → r < own → is_some (k.run_queue.run_list r) ≡ false)
            × ((p : ℕ)
                → (switched (with_current c k) c at n k).run_queue.run_list p
                  ≡ k.run_queue.run_list p))
          ⊎ ((r : ℕ) × (r < own)
              × (k.run_queue.run_list r ≡ some n)
              × ((switched (with_current c k) c at n k).run_queue.run_list own ≡ some c)
              × ((switched (with_current c k) c at n k).run_queue.run_list r ≡ none)
              × ((p : ℕ)
                  → p ≢ r
                  → p ≢ own
                  → (switched (with_current c k) c at n k).run_queue.run_list p
                    ≡ k.run_queue.run_list p))
    split n is_next =
        let h = highest_prio (with_current c k) in
        elim (Bool-cases (ltb h own)) [
          | inl above ↦ inr (
            h,
            ground arith,
            ground (arith, added h, is_next.chosen),
            ground (arith, removed n own is_next, added own, free),
            ground (arith, removed n h is_next),
            λ p a b. ground (arith, removed n p is_next, added p, a, b),
          )
          | inr below ↦ inl (
            ground (arith, added h, is_next.chosen, is_next.least own, added own, free),
            λ r lt. ground (arith, added r, added own, free, is_next.least r, is_next.least own),
            λ p. ground (arith, removed n p is_next, added p, added own, free, is_next.least own),
          )
        ]
