-- ===== src/Memcheck.antt =====
-- kernel/memcheck.c: whether a buffer lies in a segment. Addresses are 32-bit words.
use embedlab.Prelude.{
  ℕ, ◌+◌, ◌^◌, ◌<◌, ◌≤◌, ◌≡◌, ◌↔◌, Bool, true, false, ◌||◌, ltb, leb, if◌then◌else◌, u32, arith,
}

unfoldable pub valid_addr : ℕ → ℕ → ℕ → ℕ → Bool
valid_addr start count base bound =
    let mem_start = start in
    let mem_end = u32 (start + count) in
    if ltb mem_start base || leb bound mem_start
    then false
    else if ltb mem_end mem_start || ltb bound mem_end
    then false
    else true

-- A buffer of `count` bytes is accepted exactly if it starts in the segment, its sum of start and
-- length does not wrap around, and it ends at `bound` or before.
pub valid_addr_iff :
    (start count base bound : ℕ)
    → start < 2 ^ 32
    → count < 2 ^ 32
    → (valid_addr start count base bound ≡ true)
      ↔ ((base ≤ start) × (start < bound) × (start + count < 2 ^ 32) × (start + count ≤ bound))
unfolding valid_addr
valid_addr_iff start count base bound hs hc = ground arith
