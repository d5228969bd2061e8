-- ===== src/Mutex/Create.antt =====
-- What `mutex_create` returns, whatever lies behind the table.
use embedlab.Prelude.{
  ℕ, zero, suc, ◌+◌, ◌<◌, ◌≤◌, ◌≡◌, refl, true, false, some, not, ◌&&◌, arith, ltb, ◌==◌,
  if◌then◌else◌, Bool-cases, inl, inr, neg32, enomem, update,
}
use embedlab.Kernel.{Kernel, Mutex}
use embedlab.Mutex.{mutex_create, find_available}

-- `i` is the first available mutex of the table, or 32 if none is available
pub record IsFirst (m : ℕ → Mutex) (i : ℕ) : Type 0 where
  pub bound : i ≤ 32
  pub before : (j : ℕ) → j < i → (m j).available ≡ false
  pub free : i < 32 → (m i).available ≡ true

find_available-IsFirst :
    (n i : ℕ) (m : ℕ → Mutex)
    → i + n ≡ 33
    → i ≤ 32
    → ((j : ℕ) → j < i → (m j).available ≡ false)
    → IsFirst m (find_available n i m)
unfolding find_available
find_available-IsFirst zero i m e b before = absurd (omega arith)
find_available-IsFirst (suc n) i m e b before =
    elim (Bool-cases (not (m i).available && ltb i 32)) [
      | inl more ↦ rw more (
          find_available-IsFirst n (i + 1) m (omega arith) (ground arith) (λ j lt.
            elim (Bool-cases (j == i)) [
              | inl eq ↦ ground arith
              | inr ne ↦ before j (ground arith)
            ]))
      | inr stop ↦ rw stop (record { bound = b; before = before; free = λ lt. ground arith })
    ]

-- `mutex_create` takes the first available mutex: it returns its index and marks it, and it
-- changes nothing else. With none available it returns `-ENOMEM`, and the table stays as it is.
-- What lies behind the table, at index 32, has no effect.
pub mutex_create_lem :
    (k : Kernel)
    → (i : ℕ) × IsFirst k.gt_mutex i
      × (mutex_create k ≡ (
          if i == 32
          then some (neg32 enomem, record k { irq_on = true })
          else some (
            i,
            record k {
              irq_on = true;
              gt_mutex = update k.gt_mutex i (record (k.gt_mutex i) { available = false });
            },
          )))
unfolding mutex_create
mutex_create_lem k =
    let i = find_available 33 0 k.gt_mutex in
    (
      i,
      find_available-IsFirst 33 0 k.gt_mutex refl (omega arith) (λ j h. absurd (omega arith)),
      elim (Bool-cases (i == 32)) [ inl e ↦ rw e refl | inr e ↦ rw e refl ],
    )
