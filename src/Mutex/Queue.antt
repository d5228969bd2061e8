-- ===== src/Mutex/Queue.antt =====
-- The sleep queue of a mutex as a list: `mutex_lock` appends to it.
use embedlab.Prelude.{
  ℕ, ◌≤◌, ◌≡◌, ◌≢◌, refl, ap, ◌∙◌, false, none, some, List, [], ◌∷◌, ◌++◌, arith, ◌==◌,
  if◌then◌else◌, length, has, Bool-cases, inl, inr,
}
use embedlab.RunQueue.{TcbPtr}
use embedlab.Kernel.{Kernel, set_mutex, set_tcb}
use embedlab.Kernel.Chain.{
  walk_last, Chain, Distinct, last_of, walk_last-Chain, Chain-frame, Chain-append, has-last_of,
}
use embedlab.Mutex.{join_queue, put_behind, put_last}

abbrev pub link : Kernel → ℕ → TcbPtr
link k t = (k.system_tcb t).mutex_sleep_queue

-- The tasks `xs` sleep on mutex `m`, in this order, each once.
pub record Sleepers (k : Kernel) (m : ℕ) (xs : List ℕ) : Type 0 where
  pub chain : Chain (link k) (k.gt_mutex m).sleep_queue xs
  pub distinct : Distinct xs
  pub fits : length xs ≤ 64

-- what `join_queue` has done
pub record Joined (k : Kernel) (m c : ℕ) (xs : List ℕ) (k' : Kernel) : Type 0 where
  pub chain : Chain (link k') (k'.gt_mutex m).sleep_queue (xs ++ (c ∷ []))
  pub asleep : (k'.system_tcb c).pending ≡ 1
  pub mutex : k'.gt_mutex m ≡ record (k.gt_mutex m) { sleep_queue = (k'.gt_mutex m).sleep_queue }
  pub others : (j : ℕ) → m ≢ j → k'.gt_mutex j ≡ k.gt_mutex j
  pub tcbs :
      (t : ℕ)
      → k'.system_tcb t ≡ record (k.system_tcb t) {
        mutex_sleep_queue = (k'.system_tcb t).mutex_sleep_queue;
        pending = (k'.system_tcb t).pending;
      }
  pub rest : k' ≡ record k { system_tcb = k'.system_tcb; gt_mutex = k'.gt_mutex }

module _ (k : Kernel) (m c : ℕ) where
  abbrev first : Kernel
  first = set_tcb c (record (k.system_tcb c) { mutex_sleep_queue = none; pending = 1 }) k

  abbrev alone : Kernel
  alone = set_mutex m (record (k.gt_mutex m) { sleep_queue = some c }) first

  abbrev behind : ℕ → Kernel
  behind last = set_tcb last (record (first.system_tcb last) { mutex_sleep_queue = some c }) first

  join_queue-alone : (k.gt_mutex m).sleep_queue ≡ none → join_queue m c k ≡ some (tt, alone)
  unfolding join_queue
  join_queue-alone e = ap (λ p. put_behind m c p first) e

  join_queue-behind :
      (x last : ℕ)
      → (k.gt_mutex m).sleep_queue ≡ some x
      → walk_last 64 (link first) x ≡ some last
      → join_queue m c k ≡ some (tt, behind last)
  unfolding join_queue
  join_queue-behind x last e w = ap (λ p. put_behind m c p first) e ∙ ap (λ o. put_last c o first) w

  first-link :
      (xs : List ℕ) (p : TcbPtr) → Chain (link k) p xs → has c xs ≡ false → Chain (link first) p xs
  first-link xs p ch out = Chain-frame (link k) (link first) p xs ch (λ a h.
      elim (Bool-cases (c == a)) [
        | inl e ↦
            absurd
              (ground (arith, ap (λ z. has z xs) (let ce : c ≡ a = ground arith in ce), out, h))
        | inr e ↦ ground arith
      ])

  -- the queue is empty, so the task is the first one
  alone-Joined : Joined k m c [] alone
  alone-Joined = record {
    chain = (ground arith, ground arith);
    asleep = ground arith;
    mutex = ground arith;
    others = λ j ne. ground arith;
    tcbs = λ t. ground arith;
    rest = refl;
  }

  module _ (x : ℕ) (xs : List ℕ) (s : Sleepers k m (x ∷ xs)) (out : has c (x ∷ xs) ≡ false) where
    abbrev last : ℕ
    last = last_of x xs

    c-ne-last : (c == last) ≡ false
    c-ne-last = elim (Bool-cases (c == last)) [
      | inl e ↦ absurd (
          ground (
            arith,
            has-last_of x xs,
            out,
            ap (λ z. has z (x ∷ xs)) (let ce : c ≡ last = ground arith in ce),
          ))
      | inr e ↦ e
    ]

    link-behind : (a : ℕ) → link (behind last) a ≡ (if last == a then some c else link first a)
    link-behind a = elim (Bool-cases (last == a)) [ inl e ↦ ground arith | inr e ↦ ground arith ]

    behind-Chain : Chain (link (behind last)) (k.gt_mutex m).sleep_queue (x ∷ xs ++ (c ∷ []))
    behind-Chain =
        let ch = first-link (x ∷ xs) (k.gt_mutex m).sleep_queue s.chain out in
        (
          s.chain.0,
          Chain-append (link first) (link (behind last)) c x xs ch.1 s.distinct out
              (rw (link-behind c) (ground (arith, c-ne-last)))
              (rw (link-behind last) (ground arith)) (λ a ac al. rw (link-behind a) (ground arith)),
        )

    behind-Joined : Joined k m c (x ∷ xs) (behind last)
    behind-Joined = record {
      chain = behind-Chain;
      asleep = ground arith;
      mutex = refl;
      others = λ j ne. refl;
      tcbs = λ t. ground arith;
      rest = refl;
    }

-- A task that waits for a mutex is appended to its sleep queue and marked as pending; the order
-- of the tasks before it is kept, and no other mutex and no other field of a TCB changes.
pub join_queue_lem :
    (k : Kernel) (m c : ℕ) (xs : List ℕ)
    → Sleepers k m xs
    → has c xs ≡ false
    → (k' : Kernel) × (join_queue m c k ≡ some (tt, k')) × Joined k m c xs k'
join_queue_lem k m c [] s out = (alone k m c, join_queue-alone k m c s.chain, alone-Joined k m c)
join_queue_lem k m c (x ∷ xs) s out = (
  behind k m c (last_of x xs),
  join_queue-behind k m c x (last_of x xs) s.chain.0 (
      walk_last-Chain (link (first k m c)) x xs 64
        (first-link k m c (x ∷ xs) (k.gt_mutex m).sleep_queue s.chain out).1
        (omega (arith, s.fits))),
  behind-Joined k m c x xs s out,
)
