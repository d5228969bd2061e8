-- ===== src/System/Wakes.antt =====
-- Whom a tick wakes: exactly the sleepers of the due devices, each into its own slot.
use embedlab.Prelude.{
  ℕ, zero, suc, ◌+◌, ◌<◌, ◌≤◌, ◌≡◌, refl, ap, sym, subst, ◌∙◌, true, ◌&&◌, not, Bool-cases, inl,
  inr, ◌⊎◌, some, is_some, List, [], ◌∷◌, ◌++◌, has, ◌==◌, if◌then◌else◌, arith,
}
use embedlab.Kernel.{Tcb, Dev}
use embedlab.RunQueue.{RunQueue, runqueue_add}
use embedlab.RunQueue.Laws.{IsValid, runqueue_add-IsValid, run_list-runqueue_add}
use embedlab.Device.Update.{add_all, due, woken}

-- tasks that have their numbers as native priorities fill their own slots, if these are empty
pub add_all-slots :
    (tcb : ℕ → Tcb) (ws : List ℕ) (q : RunQueue)
    → ((t : ℕ) → has t ws ≡ true → ((tcb t).native_prio ≡ t) × (t < 64))
    → IsValid q
    → IsValid (add_all tcb ws q)
      × ((p : ℕ)
          → (add_all tcb ws q).run_list p
            ≡ (if has p ws && not (is_some (q.run_list p)) then some p else q.run_list p))
unfolding add_all
add_all-slots tcb [] q own v = (v, λ p. refl)
add_all-slots tcb (x ∷ xs) q own v =
    let (native, small) = own x (ground arith) in
    let fits : (tcb x).native_prio < 64 = omega (arith, native, small) in
    let added = run_list-runqueue_add q x (tcb x).native_prio v fits in
    let (valid, slots) =
      add_all-slots tcb xs (runqueue_add x (tcb x).native_prio q) (λ t h. own t (ground (arith, h)))
        (runqueue_add-IsValid q x (tcb x).native_prio v fits) in
    (valid, λ p. slots p ∙ ground (arith, added p, native))

-- who is woken
pub woken-due :
    (ds : ℕ → Dev) (millis : ℕ) (ys : ℕ → List ℕ) (n i t : ℕ)
    → has t (woken ds millis ys n i) ≡ true
    → (d : ℕ) × (i ≤ d) × (d < i + n) × (due ds millis d ≡ true) × (has t (ys d) ≡ true)
unfolding woken
woken-due ds millis ys zero i t h = cc
woken-due ds millis ys (suc n) i t h = elim (Bool-cases (due ds millis i)) [
  | inl on ↦ elim (has-append t (ys i) (woken ds millis ys n (i + 1)) (sym (rw on refl) ∙ h)) [
    | inl first ↦ (i, omega arith, omega arith, on, first)
    | inr later ↦ next (woken-due ds millis ys n (i + 1) t later)
  ]
  | inr off ↦ next (woken-due ds millis ys n (i + 1) t (sym (rw off refl) ∙ h))
]
  where
    has-append :
        (t : ℕ) (xs zs : List ℕ) → has t (xs ++ zs) ≡ true → (has t xs ≡ true) ⊎ (has t zs ≡ true)
    has-append t [] zs h = inr h
    has-append t (x ∷ xs) zs h = elim (Bool-cases (x == t)) [
      | inl e ↦ inl (ground (arith, e))
      | inr e ↦ elim (has-append t xs zs (ground (arith, h, e))) [
        | inl a ↦ inl (ground (arith, a))
        | inr b ↦ inr b
      ]
    ]

    next :
        (d : ℕ) × (i + 1 ≤ d) × (d < i + 1 + n) × (due ds millis d ≡ true) × (has t (ys d) ≡ true)
        → (d : ℕ) × (i ≤ d) × (d < i + suc n) × (due ds millis d ≡ true) × (has t (ys d) ≡ true)
    next (d, low, high, on, asleep) = (d, omega (arith, low), omega (arith, high), on, asleep)

-- everybody who sleeps on a due device is woken
pub due-woken :
    (ds : ℕ → Dev) (millis : ℕ) (ys : ℕ → List ℕ) (n i t d : ℕ)
    → i ≤ d
    → d < i + n
    → due ds millis d ≡ true
    → has t (ys d) ≡ true
    → has t (woken ds millis ys n i) ≡ true
unfolding woken
due-woken ds millis ys zero i t d low high on h = absurd (omega (arith, low, high))
due-woken ds millis ys (suc n) i t d low high on h = elim (Bool-cases (i == d)) [
  | inl e ↦
      let s : d ≡ i = ground (arith, e) in
      rw (sym (ap (λ x. due ds millis x) s) ∙ on)
        (in_first t (ys i) _ (subst (λ x. has t (ys x) ≡ true) s h))
  | inr e ↦
      let rest =
        due-woken ds millis ys n (i + 1) t d (ground (arith, low, e)) (omega (arith, high)) on h in
      elim (Bool-cases (due ds millis i)) [
        | inl now ↦ rw now (in_second t (ys i) _ rest)
        | inr off ↦ rw off rest
      ]
]
  where
    in_first : (t : ℕ) (xs zs : List ℕ) → has t xs ≡ true → has t (xs ++ zs) ≡ true
    in_first t [] zs h = cc
    in_first t (x ∷ xs) zs h = elim (Bool-cases (x == t)) [
      | inl e ↦ ground (arith, e)
      | inr e ↦ ground (arith, in_first t xs zs (ground (arith, h, e)))
    ]

    in_second : (t : ℕ) (xs zs : List ℕ) → has t zs ≡ true → has t (xs ++ zs) ≡ true
    in_second t [] zs h = h
    in_second t (x ∷ xs) zs h = ground (arith, in_second t xs zs h)
