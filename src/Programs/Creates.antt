-- ===== src/Programs/Creates.antt =====
-- `mutex_create` of a program on a table of which the first mutexes are taken.
use embedlab.Prelude.{
  ℕ, ◌+◌, ◌<◌, ◌≤◌, ◌≡◌, refl, ap, ◌∙◌, true, false, Bool-cases, inl, inr, none, some, ◌==◌, ltb,
  leb, arith, update, neg32, enomem,
}
use embedlab.Kernel.{Kernel, Mutex}
use embedlab.Mutex.{mutex_create, init_from}
use embedlab.Mutex.Create.{IsFirst, mutex_create_lem}
use embedlab.System.{creates, handle, settle}
use embedlab.System.Boot.{init_from-fresh}
use embedlab.Programs.{call}

-- the first `i` mutexes are created, none is locked, and nobody waits for one
pub record Table (i : ℕ) (g : ℕ → Mutex) : Type 0 where
  pub available : (j : ℕ) → j < 32 → (g j).available ≡ leb i j
  pub unlocked : (j : ℕ) → j < 32 → (g j).lock ≡ false
  pub no_waiters : (j : ℕ) → j < 32 → (g j).sleep_queue ≡ none

pub init_from-Table : (g : ℕ → Mutex) → Table 0 (init_from 32 g)
init_from-Table g = record {
  available = λ j h. ap (λ (v : Mutex). v.available) (init_from-fresh 32 j g h) ∙ ground arith;
  unlocked = λ j h. ap (λ (v : Mutex). v.lock) (init_from-fresh 32 j g h);
  no_waiters = λ j h. ap (λ (v : Mutex). v.sleep_queue) (init_from-fresh 32 j g h);
}

module _ (i : ℕ) (k : Kernel) (t : Table i k.gt_mutex) where
  first-is : (f : ℕ) → IsFirst k.gt_mutex f → i ≤ 32 → f ≡ i
  first-is f first few = elim (Bool-cases (ltb f i)) [
    | inl low ↦
        let small : f < 32 = ground (arith, low, few) in
        absurd (ground (arith, low, t.available f small, first.free small))
    | inr e ↦ elim (Bool-cases (ltb i f)) [
      | inl high ↦
          let above : i < f = ground (arith, high) in
          let small : i < 32 = omega (arith, above, first.bound) in
          absurd (ground (arith, t.available i small, first.before i above))
      | inr f_is ↦ ground (arith, e, f_is)
    ]
  ]

  abbrev pub created : Kernel
  created = record k {
    irq_on = true;
    gt_mutex = update k.gt_mutex i (record (k.gt_mutex i) { available = false });
  }

  runs : (r : ℕ) (k' : Kernel) → mutex_create k ≡ some (r, k') → call creates k ≡ some (r, k')
  unfolding call handle settle
  runs r k' run = rw run refl

  -- the next mutex is created
  pub call-creates : i < 32 → call creates k ≡ some (i, created)
  call-creates small =
      let (f, first, run) = mutex_create_lem k in
      let same = first-is f first (omega (arith, small)) in
      runs i created
        (run ∙ rw same (rw (let o : (i == 32) ≡ false = ground (arith, small) in o) refl))

  pub created-Table : i < 32 → Table (i + 1) created.gt_mutex
  created-Table small = record {
    available = λ j h. ground (arith, t.available j h);
    unlocked = λ j h. ground (arith, t.unlocked j h, t.unlocked i small);
    no_waiters = λ j h. elim (Bool-cases (i == j)) [
      | inl e ↦ rw e (t.no_waiters i small)
      | inr e ↦ rw e (t.no_waiters j h)
    ];
  }

  -- no mutex is left
  pub creates_full : i ≡ 32 → call creates k ≡ some (neg32 enomem, record k { irq_on = true })
  creates_full full =
      let (f, first, run) = mutex_create_lem k in
      let same : f ≡ 32 = first-is f first (omega (arith, full)) ∙ full in
      runs (neg32 enomem) (record k { irq_on = true }) (run ∙ rw same refl)
