-- ===== src/Device/Update.antt =====
-- Which tasks `dev_update` makes runnable, and what it does to the devices.
use embedlab.Prelude.{
  ℕ, zero, suc, ◌+◌, ◌<◌, ◌≤◌, ◌≡◌, refl, ap, sym, subst, ◌∙◌, true, false, Bool, none, some, ◌||◌,
  List, [], ◌∷◌, ◌++◌, arith, leb, ◌==◌, if◌then◌else◌, length, update, Bool-cases, inl, inr, u32,
  ◌&&◌, ltb,
}
use mathlib.Core.Bool.{or-false, or_assoc}
use embedlab.RunQueue.{TcbPtr, RunQueue, runqueue_add}
use embedlab.Kernel.{Kernel, Dev, Tcb}
use embedlab.Kernel.Chain.{Chain}
use embedlab.Device.{
  wake_chain, finish_wake, wake_at, signal, signal_from, freq, dev_update, dispatch_update,
}
use embedlab.Mutex.{returned}
use embedlab.Device.Queue.{link, Sleepers}

-- each task of `xs` in turn is put to the run queue at its native priority
unfoldable pub add_all : (ℕ → Tcb) → List ℕ → RunQueue → RunQueue
add_all tcb [] q = q
add_all tcb (x ∷ xs) q = add_all tcb xs (runqueue_add x (tcb x).native_prio q)

wake_chain_lem :
    (xs : List ℕ) (fuel : ℕ) (tcb : ℕ → Tcb) (p : TcbPtr) (q : RunQueue)
    → Chain (link tcb) p xs
    → length xs ≤ fuel
    → wake_chain fuel tcb p q ≡ some (add_all tcb xs q)
unfolding wake_chain add_all
wake_chain_lem [] fuel tcb p q c h = wake_none fuel p c
  where
    wake_none : (f : ℕ) (p : TcbPtr) → p ≡ none → wake_chain f tcb p q ≡ some q
    wake_none zero p e = rw (e, wake_chain) refl
    wake_none (suc f) p e = rw (e, wake_chain) refl
wake_chain_lem (x ∷ xs) zero tcb p q c h = absurd (omega arith)
wake_chain_lem (x ∷ xs) (suc fuel) tcb p q c h =
    rw (c.0, wake_chain)
      (wake_chain_lem xs fuel tcb (tcb x).sleep_queue (runqueue_add x (tcb x).native_prio q) c.1
        (omega arith))

abbrev pub nonempty : List ℕ → Bool
nonempty [] = false
nonempty (_ ∷ _) = true

add_all-nil : (tcb : ℕ → Tcb) (q : RunQueue) → add_all tcb [] q ≡ q
unfolding add_all
add_all-nil tcb q = refl

add_all-append :
    (tcb : ℕ → Tcb) (xs ys : List ℕ) (q : RunQueue)
    → add_all tcb (xs ++ ys) q ≡ add_all tcb ys (add_all tcb xs q)
unfolding add_all
add_all-append tcb [] ys q = refl
add_all-append tcb (x ∷ xs) ys q = add_all-append tcb xs ys (runqueue_add x (tcb x).native_prio q)

nonempty-append : (xs ys : List ℕ) → nonempty (xs ++ ys) ≡ (nonempty xs || nonempty ys)
nonempty-append [] ys = refl
nonempty-append (x ∷ xs) ys = refl

-- whether the event of device `i` has come
abbrev pub due : (ℕ → Dev) → ℕ → ℕ → Bool
due ds millis i = leb (ds i).next_match millis

-- the tasks that sleep on the due ones of the `n` devices from `i` on, in order
unfoldable pub woken : (ℕ → Dev) → ℕ → (ℕ → List ℕ) → ℕ → ℕ → List ℕ
woken ds millis xs zero i = []
woken ds millis xs (suc n) i =
    let rest = woken ds millis xs n (i + 1) in if due ds millis i then xs i ++ rest else rest

-- Everything but the devices and the run queue is fixed.
module _ (base : Kernel) (millis : ℕ) where
  abbrev state : (ℕ → Dev) → RunQueue → Kernel
  state ds q = record base { devices = ds; run_queue = q }

  abbrev advance : ℕ → (ℕ → Dev) → ℕ → Dev
  advance i ds = update ds i (record (ds i) { next_match = u32 ((ds i).next_match + freq i) })

  -- the devices after device `i` was due, with `xs` asleep on it
  abbrev after : ℕ → List ℕ → (ℕ → Dev) → ℕ → Dev
  after i [] ds = advance i ds
  after i (x ∷ xs) ds = update (advance i ds) i (record (advance i ds i) { sleep_q = none })

  after_ne : (i : ℕ) (xs : List ℕ) (ds : ℕ → Dev) (j : ℕ) → i < j → after i xs ds j ≡ ds j
  after_ne i [] ds j h = ground arith
  after_ne i (x ∷ xs) ds j h = ground arith

  -- a due device gets its next match, and nobody sleeps on it any more
  after_lem :
      (i : ℕ) (xs : List ℕ) (ds : ℕ → Dev) (j : ℕ)
      → Chain (link base.system_tcb) (ds i).sleep_q xs
      → after i xs ds j ≡ (
          if i == j
          then record { sleep_q = none; next_match = u32 ((ds j).next_match + freq j) }
          else ds j)
  after_lem i [] ds j c = ground (arith, c)
  after_lem i (x ∷ xs) ds j c = ground arith

  signal_due :
      (i : ℕ) (xs : List ℕ) (ds : ℕ → Dev) (q : RunQueue)
      → leb (ds i).next_match millis ≡ true
      → Chain (link base.system_tcb) (ds i).sleep_q xs
      → length xs ≤ 64
      → signal millis i (state ds q)
        ≡ some (nonempty xs, state (after i xs ds) (add_all base.system_tcb xs q))
  unfolding signal
  signal_due i [] ds q due c h =
      rw due (ap (λ p. wake_at i p (state (advance i ds) q)) c ∙ (unfold add_all wake_at in refl))
  signal_due i (x ∷ xs) ds q due c h = rw due (
      ap (λ p. wake_at i p (state (advance i ds) q)) c.0
      ∙ (unfold wake_at in
          ap (λ r. finish_wake i r (state (advance i ds) q))
            (wake_chain_lem (x ∷ xs) 64 base.system_tcb (some x) q (refl, c.1) h)))

  signal_idle :
      (i : ℕ) (ds : ℕ → Dev) (q : RunQueue)
      → leb (ds i).next_match millis ≡ false
      → signal millis i (state ds q) ≡ some (false, state ds q)
  unfolding signal
  signal_idle i ds q idle = rw idle refl

  module _ (xs : ℕ → List ℕ) where
    devs : ℕ → ℕ → (ℕ → Dev) → ℕ → Dev
    devs zero i ds = ds
    devs (suc n) i ds = devs n (i + 1) (if due base.devices millis i then after i (xs i) ds else ds)

    module _ (asleep : (j : ℕ) → j < 60 → Sleepers base j (xs j)) where
      signal_from_lem :
          (n i : ℕ) (flag : Bool) (ds : ℕ → Dev) (q : RunQueue)
          → i + n ≤ 60
          → ((j : ℕ) → i ≤ j → ds j ≡ base.devices j)
          → signal_from millis n i flag (state ds q)
            ≡ some (
              flag || nonempty (woken base.devices millis xs n i),
              state (devs n i ds) (add_all base.system_tcb (woken base.devices millis xs n i) q),
            )
      unfolding signal_from woken devs
      signal_from_lem zero i flag ds q bound same =
          rw (or-false, add_all-nil base.system_tcb q) refl
      signal_from_lem (suc n) i flag ds q bound same =
          elim (Bool-cases (due base.devices millis i)) [
            | inl on ↦ rw on (
                rw
                  (signal_due i (xs i) ds q
                    (ap (λ (d : Dev). leb d.next_match millis) (same i (omega arith)) ∙ on)
                    (subst (λ (d : Dev). Chain (link base.system_tcb) d.sleep_q (xs i))
                      (sym (same i (omega arith))) (asleep i (omega (arith, bound))).chain)
                    (asleep i (omega (arith, bound))).fits)
                  (rw
                    (
                      add_all-append base.system_tcb (xs i) (woken base.devices millis xs n (i + 1))
                          q,
                      nonempty-append (xs i) (woken base.devices millis xs n (i + 1)),
                      ← or_assoc,
                    )
                    (signal_from_lem n (i + 1) (flag || nonempty (xs i)) (after i (xs i) ds)
                      (add_all base.system_tcb (xs i) q) (omega (arith, bound))
                      (λ j h. after_ne i (xs i) ds j (omega arith) ∙ same j (omega arith)))))
            | inr off ↦ rw off (
                rw
                  (signal_idle i ds q
                    (ap (λ (d : Dev). leb d.next_match millis) (same i (omega arith)) ∙ off))
                  (rw or-false (
                    signal_from_lem n (i + 1) flag ds q (omega (arith, bound))
                      (λ j h. same j (omega arith)))))
          ]

      -- the device `j` afterwards
      abbrev settled : ℕ → Dev
      settled j = record { sleep_q = none; next_match = u32 ((base.devices j).next_match + freq j) }

      devs_lem :
          (n i : ℕ) (ds : ℕ → Dev) (j : ℕ)
          → i + n ≤ 60
          → ((j : ℕ) → i ≤ j → ds j ≡ base.devices j)
          → devs n i ds j
            ≡ (if leb i j && (ltb j (i + n) && due base.devices millis j) then settled j else ds j)
      unfolding devs
      devs_lem zero i ds j bound same = ground arith
      devs_lem (suc n) i ds j bound same = elim (Bool-cases (due base.devices millis i)) [
        | inl on ↦ rw on (
            ground (
              arith,
              devs_lem n (i + 1) (after i (xs i) ds) j (omega (arith, bound))
                  (λ l h. after_ne i (xs i) ds l (omega arith) ∙ same l (omega arith)),
              step on,
            ))
        | inr off ↦ rw off (
            ground (
              arith,
              devs_lem n (i + 1) ds j (omega (arith, bound)) (λ l h. same l (omega arith)),
              off,
            ))
      ]
        where
          step :
              due base.devices millis i ≡ true
              → after i (xs i) ds j ≡ (if i == j then settled j else ds j)
          step on =
              after_lem i (xs i) ds j (
                subst (λ (d : Dev). Chain (link base.system_tcb) d.sleep_q (xs i))
                  (sym (same i (omega arith))) (asleep i (omega (arith, bound))).chain)
              ∙ ground (arith, same j)

update_lem :
    (k : Kernel) (millis : ℕ) (flag : Bool) (s : Kernel)
    → signal_from millis 60 0 false (record k { irq_on = false }) ≡ some (flag, s)
    → dev_update millis k
      ≡ (if flag then dispatch_update s else some (returned 0, record s { irq_on = true }))
unfolding dev_update
update_lem k millis true s e = rw e refl
update_lem k millis false s e = rw e refl

add_all_none :
    (tcb : ℕ → Tcb) (xs : List ℕ) (q : RunQueue) → nonempty xs ≡ false → add_all tcb xs q ≡ q
unfolding add_all
add_all_none tcb [] q e = refl
add_all_none tcb (x ∷ xs) q e = cc

quiet :
    (k : Kernel) (ds : ℕ → Dev) (ws : List ℕ) (b : Bool)
    → nonempty ws ≡ b
    → let q = add_all k.system_tcb ws k.run_queue in
      let woke = dispatch_update (record k { devices = ds; run_queue = q; irq_on = false }) in
      (if b
        then woke
        else some (returned 0, record k { devices = ds; run_queue = q; irq_on = true }))
      ≡ (if b then woke else some (returned 0, record k { devices = ds; irq_on = true }))
quiet k ds ws true e = refl
quiet k ds ws false e =
    ap (λ q. some (returned 0, record k { devices = ds; run_queue = q; irq_on = true }))
      (add_all_none k.system_tcb ws k.run_queue e)

-- `dev_update` settles each of the 60 devices whose match is not after `millis`: its next match
-- moves on by its frequency, and its sleepers are put to the run queue, device by device and in
-- the order in which they came. The other devices stay as they are. If a sleeper was woken, the
-- scheduler runs; if none was, the call returns, with the run queue as it was.
pub dev_update_lem :
    (k : Kernel) (millis : ℕ) (xs : ℕ → List ℕ)
    → ((j : ℕ) → j < 60 → Sleepers k j (xs j))
    → (ds : ℕ → Dev) × ((j : ℕ)
        → ds j ≡ (
            if ltb j 60 && due k.devices millis j
            then record { sleep_q = none; next_match = u32 ((k.devices j).next_match + freq j) }
            else k.devices j))
      × (dev_update millis k ≡ (
          if nonempty (woken k.devices millis xs 60 0)
          then dispatch_update (record k {
            devices = ds;
            run_queue = add_all k.system_tcb (woken k.devices millis xs 60 0) k.run_queue;
            irq_on = false;
          })
          else some (returned 0, record k { devices = ds; irq_on = true })))
dev_update_lem k millis xs asleep =
    let base : Kernel = record k { irq_on = false } in
    let asleep0 : (j : ℕ) → j < 60 → Sleepers base j (xs j) = λ j h. record {
      chain = (asleep j h).chain;
      distinct = (asleep j h).distinct;
      fits = (asleep j h).fits;
    } in
    (
      devs base millis xs 60 0 k.devices,
      λ j.
          devs_lem base millis xs asleep0 60 0 k.devices j (omega arith) (λ l h. refl)
          ∙ ground arith,
      update_lem k millis (nonempty (woken k.devices millis xs 60 0)) _ (
            signal_from_lem base millis xs asleep0 60 0 false k.devices k.run_queue (omega arith)
              (λ l h. refl))
          ∙ quiet k (devs base millis xs 60 0 k.devices) (woken k.devices millis xs 60 0) _ refl,
    )
