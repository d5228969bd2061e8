-- ===== src/Device/Woken.antt =====
-- Every task that a device event wakes is in the run queue, at its native priority.
use embedlab.Prelude.{
  ℕ, ◌<◌, ◌≡◌, ◌≢◌, ap, ◌∙◌, true, none, some, List, [], ◌∷◌, arith, has, Bool-cases, inl, inr,
}
use embedlab.RunQueue.{RunQueue, runqueue_add}
use embedlab.RunQueue.Laws.{IsValid, runqueue_add-IsValid, run_list-runqueue_add}
use embedlab.Kernel.{Tcb}
use embedlab.Device.Update.{add_all}

-- The native priorities of the tasks are in range and different, and their slots are empty.
abbrev pub Ready : (ℕ → Tcb) → RunQueue → List ℕ → Type 0
Ready tcb q [] = Unit
Ready tcb q (x ∷ xs) =
    ((tcb x).native_prio < 64)
    × (q.run_list (tcb x).native_prio ≡ none)
    × ((y : ℕ) → has y xs ≡ true → (tcb y).native_prio ≢ (tcb x).native_prio)
    × Ready tcb q xs

module _ (tcb : ℕ → Tcb) where
  Ready-add :
      (xs : List ℕ) (q : RunQueue) (x : ℕ)
      → IsValid q
      → (tcb x).native_prio < 64
      → ((y : ℕ) → has y xs ≡ true → (tcb y).native_prio ≢ (tcb x).native_prio)
      → Ready tcb q xs
      → Ready tcb (runqueue_add x (tcb x).native_prio q) xs
  Ready-add [] q x v small apart r = tt
  Ready-add (y ∷ ys) q x v small apart r = (
    r.0,
    run_list-runqueue_add q x (tcb x).native_prio v small (tcb y).native_prio
        ∙ ground (arith, apart y (ground arith), r.1),
    r.2,
    Ready-add ys q x v small (λ z h. apart z (ground (arith, h))) r.3,
  )

  -- Tasks with different native priorities whose slots are empty are all in the run queue after
  -- they have been woken, each in the slot of its native priority. The queue stays valid, and no
  -- slot that was taken changes.
  pub add_all_lem :
      (xs : List ℕ) (q : RunQueue)
      → IsValid q
      → Ready tcb q xs
      → IsValid (add_all tcb xs q)
        × ((t : ℕ) → has t xs ≡ true → (add_all tcb xs q).run_list (tcb t).native_prio ≡ some t)
        × ((p s : ℕ) → q.run_list p ≡ some s → (add_all tcb xs q).run_list p ≡ some s)
  unfolding add_all
  add_all_lem [] q v r = (v, λ t h. cc, λ p s e. e)
  add_all_lem (x ∷ xs) q v r =
      let q' = runqueue_add x (tcb x).native_prio q in
      let added = run_list-runqueue_add q x (tcb x).native_prio v r.0 in
      let (valid, all, kept) =
        add_all_lem xs q' (runqueue_add-IsValid q x (tcb x).native_prio v r.0)
          (Ready-add xs q x v r.0 r.2 r.3) in
      (
        valid,
        λ t h. elim (Bool-cases (has t xs)) [
          | inl later ↦ all t later
          | inr now ↦ kept (tcb t).native_prio t (
              let tx : x ≡ t = ground (arith, h) in
              ground (arith, added (tcb t).native_prio, r.1, ap (λ z. (tcb z).native_prio) tx))
        ],
        λ p s e. kept p s (added p ∙ ground (arith, r.1, e)),
      )
