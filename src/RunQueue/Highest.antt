-- ===== src/RunQueue/Highest.antt =====
-- What `highest_prio` finds in a well-formed run queue.
use embedlab.Prelude.{
  ℕ, ◌+◌, ◌*◌, ◌/◌, ◌%◌, ◌<◌, ◌≡◌, true, false, ◌≢◌, inl, inr, arith, ◌==◌, is_some, test_bit,
  Bool-cases, zero-test_bit, ap,
}
use embedlab.RunQueue.Bits.{unmap-zero, unmap-lt, test_bit-unmap, unmap_lowest}
use embedlab.RunQueue.{RunQueue, unmap, highest_prio}
use embedlab.RunQueue.Laws.{IsValid}

-- Where the highest priority stands in a queue that is not empty.
module _ (q : RunQueue) (p : ℕ) (v : IsValid q) (small : p < 64)
    (taken : is_some (q.run_list p) ≡ true) where
  group_ne_zero : q.group_run_bits ≢ 0
  group_ne_zero e = ground (
    arith,
    v.slots p small,
    v.groups (p / 8) (omega arith),
    zero-test_bit (p % 8),
    zero-test_bit (p / 8),
    ap (λ b. test_bit b (p / 8)) e,
  )

  top : ℕ
  top = unmap q.group_run_bits

  top-lt : top < 8
  unfolding top
  top-lt = unmap-lt q.group_run_bits v.group_byte group_ne_zero

  top_ne_zero : q.run_bits top ≢ 0
  unfolding top
  top_ne_zero =
      ground
        (arith, v.groups top top-lt, test_bit-unmap q.group_run_bits v.group_byte group_ne_zero)

  low : ℕ
  low = unmap (q.run_bits top)

  low-lt : low < 8
  unfolding low
  low-lt = unmap-lt (q.run_bits top) (v.bytes top) top_ne_zero

  highest_prio_parts : highest_prio q ≡ 8 * top + low
  unfolding highest_prio top low
  highest_prio_parts = omega (arith, top-lt, low-lt)

  pub highest_prio-lt : highest_prio q < 64
  highest_prio-lt = omega (arith, highest_prio_parts, top-lt, low-lt)

  pub highest_prio_taken : is_some (q.run_list (highest_prio q)) ≡ true
  unfolding low
  highest_prio_taken = ground (
    arith,
    highest_prio_parts,
    top-lt,
    low-lt,
    highest_prio-lt,
    v.slots (highest_prio q),
    test_bit-unmap (q.run_bits top) (v.bytes top) top_ne_zero,
  )

  pub highest_prio_least : (r : ℕ) → r < highest_prio q → is_some (q.run_list r) ≡ false
  unfolding low top
  highest_prio_least r h = ground (
    arith,
    highest_prio_parts,
    highest_prio-lt,
    top-lt,
    low-lt,
    v.slots r (omega (arith, highest_prio-lt)),
    v.groups (r / 8) (omega (arith, highest_prio-lt)),
    zero-test_bit (r % 8),
    unmap_lowest q.group_run_bits v.group_byte group_ne_zero (r / 8),
    unmap_lowest (q.run_bits top) (v.bytes top) top_ne_zero (r % 8),
  )

-- In a queue with a taken slot, `highest_prio` is a taken slot, and the least one.
pub highest_prio_lem :
    (q : RunQueue) (p : ℕ)
    → IsValid q
    → p < 64
    → is_some (q.run_list p) ≡ true
    → (highest_prio q < 64)
      × (is_some (q.run_list (highest_prio q)) ≡ true)
      × ((r : ℕ) → r < highest_prio q → is_some (q.run_list r) ≡ false)
highest_prio_lem q p v small taken = (
  highest_prio-lt q p v small taken,
  highest_prio_taken q p v small taken,
  highest_prio_least q p v small taken,
)

no_slot :
    (q : RunQueue)
    → IsValid q
    → ((p : ℕ) → p < 64 → is_some (q.run_list p) ≡ false)
    → (g : ℕ) → g < 8
    → q.run_bits g ≡ 0
no_slot q v empty g h = elim (Bool-cases (q.run_bits g == 0)) [
  | inl e ↦ ground arith
  | inr ne ↦
      let x = unmap (q.run_bits g) in
      let nz : q.run_bits g ≢ 0 = ground arith in
      let below = unmap-lt (q.run_bits g) (v.bytes g) nz in
      ground (
        arith,
        below,
        test_bit-unmap (q.run_bits g) (v.bytes g) nz,
        v.slots (g * 8 + x) (omega (arith, below)),
        empty (g * 8 + x) (omega (arith, below)),
      )
]

-- With every slot empty, `highest_prio` is 0, the highest priority, and not `IDLE_PRIO`.
pub highest_prio_empty :
    (q : RunQueue)
    → IsValid q
    → ((p : ℕ) → p < 64 → is_some (q.run_list p) ≡ false)
    → highest_prio q ≡ 0
unfolding highest_prio
highest_prio_empty q v empty = elim (Bool-cases (q.group_run_bits == 0)) [
  | inl e ↦
      let e0 : q.group_run_bits ≡ 0 = ground arith in
      rw (e0, unmap-zero, no_slot q v empty 0 (omega arith), unmap-zero)
  | inr ne ↦
      let nz : q.group_run_bits ≢ 0 = ground arith in
      let below = unmap-lt q.group_run_bits v.group_byte nz in
      ground (
        arith,
        below,
        test_bit-unmap q.group_run_bits v.group_byte nz,
        v.groups (unmap q.group_run_bits),
        no_slot q v empty (unmap q.group_run_bits) below,
      )
]
