-- ===== src/Device/Queue.antt =====
-- The sleep queue of a device as a list: `dev_wait` appends to it.
use embedlab.Prelude.{
  ℕ, ◌<◌, ◌≤◌, ◌≡◌, ◌≢◌, refl, ap, sym, subst, ◌∙◌, true, false, none, some, List, [], ◌∷◌, ◌++◌,
  arith, ◌==◌, if◌then◌else◌, length, has, Bool-cases, inl, inr, is_some, neg32, eholdslock,
}
use embedlab.RunQueue.{TcbPtr}
use embedlab.RunQueue.Laws.{IsValid}
use embedlab.Kernel.{Kernel, Tcb, in_dev_wait, set_tcb}
use embedlab.Kernel.Chain.{
  walk_last, Chain, Distinct, last_of, walk_last-Chain, Chain-append, has-last_of,
}
use embedlab.Dispatch.{dispatch_sleep}
use embedlab.Dispatch.Laws.{switched, IsNext, dispatch_sleep_lem}
use embedlab.Mutex.{returned, suspended}
use embedlab.Device.{join_queue, put_behind, put_last, set_dev, dev_wait, wait_as}

abbrev pub link : (ℕ → Tcb) → ℕ → TcbPtr
link tcb t = (tcb t).sleep_queue

-- The tasks `xs` sleep on device `d`, in this order, each once.
pub record Sleepers (k : Kernel) (d : ℕ) (xs : List ℕ) : Type 0 where
  pub chain : Chain (link k.system_tcb) (k.devices d).sleep_q xs
  pub distinct : Distinct xs
  pub fits : length xs ≤ 64

-- what `join_queue` has done
pub record Joined (k : Kernel) (d c : ℕ) (xs : List ℕ) (k' : Kernel) : Type 0 where
  pub chain : Chain (link k'.system_tcb) (k'.devices d).sleep_q (xs ++ (c ∷ []))
  pub match : (k'.devices d).next_match ≡ (k.devices d).next_match
  pub others : (j : ℕ) → d ≢ j → k'.devices j ≡ k.devices j
  pub tcbs :
      (t : ℕ)
      → k'.system_tcb t ≡ record (k.system_tcb t) { sleep_queue = (k'.system_tcb t).sleep_queue }
  pub links :
      (t : ℕ)
      → t ≢ c
      → has t xs ≡ false
      → (k'.system_tcb t).sleep_queue ≡ (k.system_tcb t).sleep_queue
  pub rest : k' ≡ record k { system_tcb = k'.system_tcb; devices = k'.devices }

module _ (k : Kernel) (d c : ℕ) where
  abbrev alone : Kernel
  alone =
      set_tcb c (record (k.system_tcb c) { sleep_queue = none })
        (set_dev d (record (k.devices d) { sleep_q = some c }) k)

  abbrev linked : ℕ → Kernel
  linked last = set_tcb last (record (k.system_tcb last) { sleep_queue = some c }) k

  abbrev behind : ℕ → Kernel
  behind last = set_tcb c (record ((linked last).system_tcb c) { sleep_queue = none }) (linked last)

  join_queue-alone : (k.devices d).sleep_q ≡ none → join_queue d c k ≡ some (tt, alone)
  unfolding join_queue
  join_queue-alone e = ap (λ p. put_behind d c p k) e

  join_queue-behind :
      (x last : ℕ)
      → (k.devices d).sleep_q ≡ some x
      → walk_last 64 (link k.system_tcb) x ≡ some last
      → join_queue d c k ≡ some (tt, behind last)
  unfolding join_queue
  join_queue-behind x last e w = ap (λ p. put_behind d c p k) e ∙ ap (λ o. put_last c o k) w

  alone-Joined : Joined k d c [] alone
  alone-Joined = record {
    chain = (ground arith, ground arith);
    match = ground arith;
    others = λ j ne. ground arith;
    tcbs = λ t. ground arith;
    links = λ t ne out. ground arith;
    rest = refl;
  }

  module _ (x : ℕ) (xs : List ℕ) (s : Sleepers k d (x ∷ xs)) (out : has c (x ∷ xs) ≡ false) where
    abbrev last : ℕ
    last = last_of x xs

    c-ne-last : (c == last) ≡ false
    c-ne-last = elim (Bool-cases (c == last)) [
      | inl e ↦ absurd (
          ground (
            arith,
            has-last_of x xs,
            out,
            ap (λ z. has z (x ∷ xs)) (let ce : c ≡ last = ground arith in ce),
          ))
      | inr e ↦ e
    ]

    link-behind :
        (a : ℕ)
        → link (behind last).system_tcb a
          ≡ (if c == a then none else if last == a then some c else link k.system_tcb a)
    link-behind a = ground (arith, c-ne-last)

    behind-Chain : Chain (link (behind last).system_tcb) (k.devices d).sleep_q (x ∷ xs ++ (c ∷ []))
    behind-Chain = (
      s.chain.0,
      Chain-append (link k.system_tcb) (link (behind last).system_tcb) c x xs s.chain.1 s.distinct
          out (rw (link-behind c) (ground arith))
          (rw (link-behind last) (ground (arith, c-ne-last)))
          (λ a ac al. rw (link-behind a) (ground arith)),
    )

    last-ne : (t : ℕ) → has t (x ∷ xs) ≡ false → (last == t) ≡ false
    last-ne t other = elim (Bool-cases (last == t)) [
      | inl e ↦ absurd (
          ground (
            arith,
            has-last_of x xs,
            other,
            ap (λ z. has z (x ∷ xs)) (let lt : last ≡ t = ground arith in lt),
          ))
      | inr e ↦ e
    ]

    behind-Joined : Joined k d c (x ∷ xs) (behind last)
    behind-Joined = record {
      chain = behind-Chain;
      match = refl;
      others = λ j ne. refl;
      tcbs = λ t. ground arith;
      links = λ t ne other. link-behind t ∙ ground (arith, ne, last-ne t other);
      rest = refl;
    }

join_queue_lem :
    (k : Kernel) (d c : ℕ) (xs : List ℕ)
    → Sleepers k d xs
    → has c xs ≡ false
    → (k' : Kernel) × (join_queue d c k ≡ some (tt, k')) × Joined k d c xs k'
join_queue_lem k d c [] s out = (alone k d c, join_queue-alone k d c s.chain, alone-Joined k d c)
join_queue_lem k d c (x ∷ xs) s out = (
  behind k d c (last_of x xs),
  join_queue-behind k d c x (last_of x xs) s.chain.0
      (walk_last-Chain (link k.system_tcb) x xs 64 s.chain.1 (omega (arith, s.fits))),
  behind-Joined k d c x xs s out,
)

module _ (d c : ℕ) (k : Kernel) where
  wait_as_holding :
      ((k.system_tcb c).holds_lock == 0) ≡ false
      → wait_as d (some c) k ≡ some (returned (neg32 eholdslock), k)
  unfolding wait_as
  wait_as_holding holds = rw holds refl

  wait_as_joins :
      (k1 k2 : Kernel)
      → ((k.system_tcb c).holds_lock == 0) ≡ true
      → join_queue d c k ≡ some (tt, k1)
      → dispatch_sleep in_dev_wait k1 ≡ some (tt, k2)
      → wait_as d (some c) k ≡ some (suspended, k2)
  unfolding wait_as
  wait_as_joins k1 k2 holds joins sleeps = rw (holds, joins, sleeps) refl

  dev_wait-wait_as :
      k.cur_tcb ≡ some c → dev_wait d k ≡ wait_as d (some c) (record k { irq_on = false })
  unfolding dev_wait
  dev_wait-wait_as cur = ap (λ p. wait_as d p (record k { irq_on = false })) cur

-- A task that holds a lock is refused with `-EHOLDSLOCK`, and sleeps on no device. The function
-- leaves interrupts disabled on this way out.
pub dev_wait_refused :
    (d c : ℕ) (k : Kernel)
    → k.cur_tcb ≡ some c
    → (k.system_tcb c).holds_lock ≢ 0
    → dev_wait d k ≡ some (returned (neg32 eholdslock), record k { irq_on = false })
dev_wait_refused d c k cur holds =
    dev_wait-wait_as d c k cur ∙ wait_as_holding d c (record k { irq_on = false }) (ground arith)

-- A task that holds no lock is appended to the device's sleep queue, behind all who wait already,
-- and the task of the least taken slot of the run queue runs. No other queue changes.
pub dev_wait_lem :
    (d c p : ℕ) (k : Kernel) (xs : List ℕ)
    → k.cur_tcb ≡ some c
    → (k.system_tcb c).holds_lock ≡ 0
    → Sleepers k d xs
    → has c xs ≡ false
    → IsValid k.run_queue
    → p < 64
    → is_some (k.run_queue.run_list p) ≡ true
    → (k1 : Kernel) × (n : ℕ) × Joined (record k { irq_on = false }) d c xs k1
      × IsNext k1.run_queue n
      × (dev_wait d k ≡ some (suspended, switched k1.run_queue c in_dev_wait n k1))
dev_wait_lem d c p k xs cur free s out v small taken =
    let k0 : Kernel = record k { irq_on = false } in
    let s0 : Sleepers k0 d xs = record { chain = s.chain; distinct = s.distinct; fits = s.fits } in
    let (k1, joins, j) = join_queue_lem k0 d c xs s0 out in
    let (n, is_next, sleeps) =
      dispatch_sleep_lem k1 in_dev_wait c p (ap (λ (z : Kernel). z.cur_tcb) j.rest ∙ cur)
        (subst (λ (z : Kernel). IsValid z.run_queue) (sym j.rest) v) small
        (ap (λ (z : Kernel). is_some (z.run_queue.run_list p)) j.rest ∙ taken) in
    (
      k1,
      n,
      j,
      is_next,
      dev_wait-wait_as d c k cur ∙ wait_as_joins d c k0 k1 _ (ground arith) joins sleeps,
    )
