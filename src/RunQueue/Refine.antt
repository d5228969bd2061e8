-- ===== src/RunQueue/Refine.antt =====
-- The bitmap of run_queue.c behaves as the table of 64 places, under any sequence of calls.
use embedlab.Prelude.{
  ℕ, ◌<◌, ◌≤◌, ◌≡◌, refl, ◌∙◌, ap, ap₂, true, false, Option, none, List, [], ◌∷◌, arith, ◌==◌,
  if◌then◌else◌, is_some,
}
use embedlab.RunQueue.{RunQueue, runqueue_add, runqueue_remove, highest_prio}
use embedlab.RunQueue.Laws.{
  IsValid, run_list-runqueue_add, runqueue_add-IsValid, runqueue_remove-IsValid,
  runqueue_remove_lem,
}
use embedlab.RunQueue.Highest.{highest_prio_lem, highest_prio_empty}
use embedlab.RunQueue.Spec
use embedlab.RunQueue.Spec.{
  Slots, Op, put, take_first, put_slot, take_slot, take_at, Found, nowhere, at, first_from-Found,
  first_from,
}

-- the calls of the scheduler: `runqueue_add`, and `runqueue_remove(highest_prio())`
unfoldable pub run_queue : RunQueue → List Op → List (Option ℕ)
run_queue q [] = []
run_queue q (put tcb prio ∷ ops) = run_queue (runqueue_add tcb prio q) ops
run_queue q (take_first ∷ ops) =
    let (t, q') = runqueue_remove (highest_prio q) q in t ∷ run_queue q' ops

-- every priority that is used is below 64
abbrev pub InRange : List Op → Type 0
InRange [] = Unit
InRange (put tcb prio ∷ ops) = (prio < 64) × InRange ops
InRange (take_first ∷ ops) = InRange ops

abbrev pub Agree : RunQueue → Slots → Type 0
Agree q s = (p : ℕ) → p < 64 → q.run_list p ≡ s p

module _ (q : RunQueue) (s : Slots) (v : IsValid q) (agree : Agree q s) where
  add-Agree : (tcb prio : ℕ) → prio < 64 → Agree (runqueue_add tcb prio q) (put_slot tcb prio s)
  unfolding put_slot
  add-Agree tcb prio small p h =
      ground (arith, run_list-runqueue_add q tcb prio v small p, agree p h, agree prio small)

  record Taken (t : Option ℕ) (s' : Slots) : Type 0 where
    value : (runqueue_remove (highest_prio q) q).0 ≡ t
    agrees : Agree (runqueue_remove (highest_prio q) q).1 s'
    valid : IsValid (runqueue_remove (highest_prio q) q).1

  module _ (h : ℕ) (below : h < 64) (taken : is_some (s h) ≡ true)
      (least : (r : ℕ) → 0 ≤ r → r < h → is_some (s r) ≡ false) where
    hp-eq : highest_prio q ≡ h
    hp-eq =
        let (lt, full, first) = highest_prio_lem q h v below (ap is_some (agree h below) ∙ taken) in
        ground (
          arith,
          lt,
          full,
          first h,
          agree h below,
          agree (highest_prio q) lt,
          least (highest_prio q) (omega arith),
        )

  take_at-Taken : {o : Option ℕ} → Found s 0 64 o → Taken (take_at s o).0 (take_at s o).1
  unfolding take_at
  take_at-Taken (nowhere empty) = record {
    value = value_eq ∙ (agree 0 (omega arith) ∙ none_at_zero);
    agrees =
        λ p h. ground (arith, rest p, agree p h, agree 0 (omega arith), none_at_zero, zero_prio);
    valid = runqueue_remove-IsValid q (highest_prio q) v (omega (arith, zero_prio));
  }
    where
      zero_prio : highest_prio q ≡ 0
      zero_prio = highest_prio_empty q v (λ p h. ap is_some (agree p h) ∙ empty p (omega arith) h)

      none_at_zero : s 0 ≡ none
      none_at_zero = ground (arith, empty 0 (omega arith) (omega arith))

      value_eq : (runqueue_remove (highest_prio q) q).0 ≡ q.run_list 0
      value_eq =
          (runqueue_remove_lem q (highest_prio q) v (omega (arith, zero_prio))).0
          ∙ ap q.run_list zero_prio

      rest :
          (p : ℕ)
          → (runqueue_remove (highest_prio q) q).1.run_list p
            ≡ (if highest_prio q == p then none else q.run_list p)
      rest = (runqueue_remove_lem q (highest_prio q) v (omega (arith, zero_prio))).1
  take_at-Taken (at h low below taken least) = record {
    value = value_eq ∙ agree h below;
    agrees = λ p b. ground (arith, rest p, agree p b, hp);
    valid = runqueue_remove-IsValid q (highest_prio q) v (omega (arith, hp));
  }
    where
      hp : highest_prio q ≡ h
      hp = hp-eq h below taken least

      value_eq : (runqueue_remove (highest_prio q) q).0 ≡ q.run_list h
      value_eq = (runqueue_remove_lem q (highest_prio q) v (omega (arith, hp))).0 ∙ ap q.run_list hp

      rest :
          (p : ℕ)
          → (runqueue_remove (highest_prio q) q).1.run_list p
            ≡ (if highest_prio q == p then none else q.run_list p)
      rest = (runqueue_remove_lem q (highest_prio q) v (omega (arith, hp))).1

  take-Taken : Taken (take_slot s).0 (take_slot s).1
  unfolding take_slot
  take-Taken = take_at-Taken (first_from-Found s 64 0 64 refl)

-- Under any sequence of calls with priorities below 64, the bitmap hands out what the table does.
pub run_queue_refines :
    (ops : List Op) (q : RunQueue) (s : Slots)
    → IsValid q
    → Agree q s
    → InRange ops
    → run_queue q ops ≡ Spec.run s ops
unfolding run_queue Spec.run
run_queue_refines [] q s v agree r = refl
run_queue_refines (put tcb prio ∷ ops) q s v agree r =
    run_queue_refines ops (runqueue_add tcb prio q) (put_slot tcb prio s)
      (runqueue_add-IsValid q tcb prio v r.0) (add-Agree q s v agree tcb prio r.0) r.1
run_queue_refines (take_first ∷ ops) q s v agree r =
    let t = take-Taken q s v agree in
    ap₂ ◌∷◌ t.value (
      run_queue_refines ops (runqueue_remove (highest_prio q) q).1 (take_slot s).1 t.valid t.agrees
        r)
