-- ===== src/RunQueue/Laws.antt =====
-- The invariant of the run queue, and what each operation does to the slots.
use embedlab.Prelude.{
  ℕ, ◌/◌, ◌%◌, ◌<◌, ◌≡◌, refl, ◌&&◌, not, none, some, arith, ◌==◌, if◌then◌else◌, is_some, test_bit,
  bit_and_seven, test_bit-set, test_bit-clear, zero-test_bit, zero-clear,
}
use embedlab.RunQueue.{RunQueue, runqueue_init, runqueue_add, runqueue_remove}

-- A slot is taken exactly if its bit is set, and a group's bit is set exactly if its byte is not 0.
pub record IsValid (q : RunQueue) : Type 0 where
  pub bytes : (g : ℕ) → q.run_bits g < 256
  pub group_byte : q.group_run_bits < 256
  pub slots : (p : ℕ) → p < 64 → test_bit (q.run_bits (p / 8)) (p % 8) ≡ is_some (q.run_list p)
  pub groups : (g : ℕ) → g < 8 → test_bit q.group_run_bits g ≡ not (q.run_bits g == 0)

module _ (q : RunQueue) (tcb prio : ℕ) (v : IsValid q) (small : prio < 64) where
  -- one slot is filled if it was empty, and no other changes
  pub run_list-runqueue_add :
      (p : ℕ)
      → (runqueue_add tcb prio q).run_list p
        ≡ (if prio == p && not (is_some (q.run_list prio)) then some tcb else q.run_list p)
  unfolding runqueue_add
  run_list-runqueue_add p = ground arith

  add_slots :
      (p : ℕ)
      → p < 64
      → test_bit ((runqueue_add tcb prio q).run_bits (p / 8)) (p % 8)
        ≡ is_some ((runqueue_add tcb prio q).run_list p)
  unfolding runqueue_add
  add_slots p h = ground (
    arith,
    bit_and_seven prio (omega arith),
    v.slots p h,
    test_bit-set (q.run_bits (prio / 8)) (prio % 8) (p % 8) (v.bytes (prio / 8)) (omega arith)
        (omega arith),
  )

  add_groups :
      (g : ℕ)
      → g < 8
      → test_bit (runqueue_add tcb prio q).group_run_bits g
        ≡ not ((runqueue_add tcb prio q).run_bits g == 0)
  unfolding runqueue_add
  add_groups g h = ground (
    arith,
    bit_and_seven prio (omega arith),
    v.groups g h,
    zero-test_bit (prio % 8),
    test_bit-set q.group_run_bits (prio / 8) g v.group_byte (omega arith) h,
    test_bit-set (q.run_bits (prio / 8)) (prio % 8) (prio % 8) (v.bytes (prio / 8)) (omega arith)
        (omega arith),
  )

  pub runqueue_add-IsValid : IsValid (runqueue_add tcb prio q)
  runqueue_add-IsValid = record {
    bytes = add_bytes;
    group_byte = add_group_byte;
    slots = add_slots;
    groups = add_groups;
  }
    where
      add_bytes : (g : ℕ) → (runqueue_add tcb prio q).run_bits g < 256
      add_bytes g = unfold runqueue_add in ground (arith, v.bytes g)

      add_group_byte : (runqueue_add tcb prio q).group_run_bits < 256
      add_group_byte = unfold runqueue_add in omega arith

module _ (q : RunQueue) (prio : ℕ) (v : IsValid q) (small : prio < 64) where
  remove_slots :
      (p : ℕ)
      → p < 64
      → test_bit ((runqueue_remove prio q).1.run_bits (p / 8)) (p % 8)
        ≡ is_some ((runqueue_remove prio q).1.run_list p)
  unfolding runqueue_remove
  remove_slots p h = ground (
    arith,
    bit_and_seven prio (omega arith),
    v.slots p h,
    test_bit-clear (q.run_bits (prio / 8)) (prio % 8) (p % 8) (v.bytes (prio / 8)) (omega arith)
        (omega arith),
  )

  remove_groups :
      (g : ℕ)
      → g < 8
      → test_bit (runqueue_remove prio q).1.group_run_bits g
        ≡ not ((runqueue_remove prio q).1.run_bits g == 0)
  unfolding runqueue_remove
  remove_groups g h = ground (
    arith,
    bit_and_seven prio (omega arith),
    v.groups g h,
    zero-clear (prio % 8) (omega arith),
    test_bit-clear q.group_run_bits (prio / 8) g v.group_byte (omega arith) h,
  )

  pub runqueue_remove-IsValid : IsValid (runqueue_remove prio q).1
  runqueue_remove-IsValid = record {
    bytes = remove_bytes;
    group_byte = remove_group_byte;
    slots = remove_slots;
    groups = remove_groups;
  }
    where
      remove_bytes : (g : ℕ) → (runqueue_remove prio q).1.run_bits g < 256
      remove_bytes g = unfold runqueue_remove in ground (arith, v.bytes g)

      remove_group_byte : (runqueue_remove prio q).1.group_run_bits < 256
      remove_group_byte = unfold runqueue_remove in ground (arith, v.group_byte)

  -- the slot's occupant is returned, and the slot is empty afterwards; no other slot changes
  pub runqueue_remove_lem :
      ((runqueue_remove prio q).0 ≡ q.run_list prio)
      × ((p : ℕ)
          → (runqueue_remove prio q).1.run_list p ≡ (if prio == p then none else q.run_list p))
  unfolding runqueue_remove
  runqueue_remove_lem = (refl, λ p. refl)

pub runqueue_init-IsValid : IsValid runqueue_init
unfolding runqueue_init
runqueue_init-IsValid = record {
  bytes = λ g. omega arith;
  group_byte = omega arith;
  slots = λ p h. ground (arith, zero-test_bit (p % 8));
  groups = λ g h. ground (arith, zero-test_bit g);
}

pub run_list-runqueue_init : (p : ℕ) → runqueue_init.run_list p ≡ none
unfolding runqueue_init
run_list-runqueue_init p = refl
