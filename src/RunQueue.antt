-- ===== src/RunQueue.antt =====
-- kernel/sched/run_queue.c: the run queue as a two-level bitmap over 64 slots.
-- A `tcb_t*` is the index of the TCB in `system_tcb`, and `none` is the null pointer. The arrays
-- are functions from indices; what a caller reads or writes past their ends (a priority from
-- `os_max_tasks` on) is left to the caller, as in C.
mod Bits
pub mod Laws
pub mod Highest
pub mod Spec
pub mod Refine
use embedlab.Prelude.{
  ℕ, ◌+◌, ◌*◌, ◌/◌, ◌^◌, ◌%◌, Bool, Option, none, some, bit_and, bit_or, u8, not32, shl, update,
  ◌==◌, if◌then◌else◌, is_some, not, List, [], ◌∷◌, get_elem?,
}
use mathlib.Core.Option

abbrev pub os_max_tasks : ℕ
os_max_tasks = 64

-- a pointer to a TCB
abbrev pub TcbPtr : Type 0
TcbPtr = Option ℕ

-- the three static variables
pub record RunQueue : Type 0 where
  pub run_list : ℕ → TcbPtr
  pub run_bits : ℕ → ℕ
  pub group_run_bits : ℕ

abbrev prio_unmap_table : List ℕ
prio_unmap_table =
    0 ∷ 0 ∷ 1 ∷ 0 ∷ 2 ∷ 0 ∷ 1 ∷ 0 ∷ 3 ∷ 0 ∷ 1 ∷ 0 ∷ 2 ∷ 0 ∷ 1 ∷ 0 ∷ 4 ∷ 0 ∷ 1 ∷ 0 ∷ 2 ∷ 0 ∷ 1 ∷ 0
    ∷ 3 ∷ 0 ∷ 1 ∷ 0 ∷ 2 ∷ 0 ∷ 1 ∷ 0 ∷ 5 ∷ 0 ∷ 1 ∷ 0 ∷ 2 ∷ 0 ∷ 1 ∷ 0 ∷ 3 ∷ 0 ∷ 1 ∷ 0 ∷ 2 ∷ 0 ∷ 1 ∷ 0
    ∷ 4 ∷ 0 ∷ 1 ∷ 0 ∷ 2 ∷ 0 ∷ 1 ∷ 0 ∷ 3 ∷ 0 ∷ 1 ∷ 0 ∷ 2 ∷ 0 ∷ 1 ∷ 0 ∷ 6 ∷ 0 ∷ 1 ∷ 0 ∷ 2 ∷ 0 ∷ 1 ∷ 0
    ∷ 3 ∷ 0 ∷ 1 ∷ 0 ∷ 2 ∷ 0 ∷ 1 ∷ 0 ∷ 4 ∷ 0 ∷ 1 ∷ 0 ∷ 2 ∷ 0 ∷ 1 ∷ 0 ∷ 3 ∷ 0 ∷ 1 ∷ 0 ∷ 2 ∷ 0 ∷ 1 ∷ 0
    ∷ 5 ∷ 0 ∷ 1 ∷ 0 ∷ 2 ∷ 0 ∷ 1 ∷ 0 ∷ 3 ∷ 0 ∷ 1 ∷ 0 ∷ 2 ∷ 0 ∷ 1 ∷ 0 ∷ 4 ∷ 0 ∷ 1 ∷ 0 ∷ 2 ∷ 0 ∷ 1 ∷ 0
    ∷ 3 ∷ 0 ∷ 1 ∷ 0 ∷ 2 ∷ 0 ∷ 1 ∷ 0 ∷ 7 ∷ 0 ∷ 1 ∷ 0 ∷ 2 ∷ 0 ∷ 1 ∷ 0 ∷ 3 ∷ 0 ∷ 1 ∷ 0 ∷ 2 ∷ 0 ∷ 1 ∷ 0
    ∷ 4 ∷ 0 ∷ 1 ∷ 0 ∷ 2 ∷ 0 ∷ 1 ∷ 0 ∷ 3 ∷ 0 ∷ 1 ∷ 0 ∷ 2 ∷ 0 ∷ 1 ∷ 0 ∷ 5 ∷ 0 ∷ 1 ∷ 0 ∷ 2 ∷ 0 ∷ 1 ∷ 0
    ∷ 3 ∷ 0 ∷ 1 ∷ 0 ∷ 2 ∷ 0 ∷ 1 ∷ 0 ∷ 4 ∷ 0 ∷ 1 ∷ 0 ∷ 2 ∷ 0 ∷ 1 ∷ 0 ∷ 3 ∷ 0 ∷ 1 ∷ 0 ∷ 2 ∷ 0 ∷ 1 ∷ 0
    ∷ 6 ∷ 0 ∷ 1 ∷ 0 ∷ 2 ∷ 0 ∷ 1 ∷ 0 ∷ 3 ∷ 0 ∷ 1 ∷ 0 ∷ 2 ∷ 0 ∷ 1 ∷ 0 ∷ 4 ∷ 0 ∷ 1 ∷ 0 ∷ 2 ∷ 0 ∷ 1 ∷ 0
    ∷ 3 ∷ 0 ∷ 1 ∷ 0 ∷ 2 ∷ 0 ∷ 1 ∷ 0 ∷ 5 ∷ 0 ∷ 1 ∷ 0 ∷ 2 ∷ 0 ∷ 1 ∷ 0 ∷ 3 ∷ 0 ∷ 1 ∷ 0 ∷ 2 ∷ 0 ∷ 1 ∷ 0
    ∷ 4 ∷ 0 ∷ 1 ∷ 0 ∷ 2 ∷ 0 ∷ 1 ∷ 0 ∷ 3 ∷ 0 ∷ 1 ∷ 0 ∷ 2 ∷ 0 ∷ 1 ∷ 0 ∷ []

-- `prio_unmap_table[b]`, for a byte `b`
unfoldable pub unmap : ℕ → ℕ
unmap b = Option.get_or (get_elem? prio_unmap_table b) 0

-- `runqueue_init`: what the loops leave in the slots 0 to 63 and in the eight bytes; memory past
-- them is none of the queue's, and holds nothing here.
unfoldable pub runqueue_init : RunQueue
runqueue_init = record { run_list = λ _. none; run_bits = λ _. 0; group_run_bits = 0 }

-- The `uint8_t` operands are promoted to `int`, and the stores truncate to a byte.
unfoldable pub runqueue_add : ℕ → ℕ → RunQueue → RunQueue
runqueue_add tcb prio q =
    let y = prio / 2 ^ 3 in
    let x = bit_and prio 0x07 in
    record {
      run_list =
          if is_some (q.run_list prio) then q.run_list else update q.run_list prio (some tcb);
      run_bits = update q.run_bits y (u8 (bit_or (q.run_bits y) (shl 1 x)));
      group_run_bits = u8 (bit_or q.group_run_bits (shl 1 y));
    }

unfoldable pub runqueue_remove : ℕ → RunQueue → TcbPtr × RunQueue
runqueue_remove prio q =
    let y = prio / 2 ^ 3 in
    let x = bit_and prio 0x07 in
    let byte = u8 (bit_and (q.run_bits y) (not32 (shl 1 x))) in
    (
      q.run_list prio,
      record {
        run_list = update q.run_list prio none;
        run_bits = update q.run_bits y byte;
        group_run_bits =
            if byte == 0 then u8 (bit_and q.group_run_bits (not32 (shl 1 y))) else q.group_run_bits;
      },
    )

unfoldable pub highest_prio : RunQueue → ℕ
unfolding unmap
highest_prio q = let y = unmap q.group_run_bits in let x = unmap (q.run_bits y) in u8 (shl y 3 + x)
