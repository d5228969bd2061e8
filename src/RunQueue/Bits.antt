-- ===== src/RunQueue/Bits.antt =====
-- The lookup table of run_queue.c finds the lowest bit of a byte.
use embedlab.Prelude.{
  ℕ, ◌<◌, ◌≡◌, refl, Bool, true, false, ◌≢◌, ◌&&◌, ◌||◌, not, arith, ltb, ◌==◌, test_bit, every,
  every-at,
}
use embedlab.RunQueue.{unmap}

lowest : ℕ → Bool
lowest b =
    b == 0
    || (ltb (unmap b) 8
        && (test_bit b (unmap b) && every (λ k. not (test_bit b k && ltb k (unmap b))) 8))

unmap_table : every lowest 256 ≡ true
unfolding every lowest unmap
unmap_table = refl

module _ (b : ℕ) (byte : b < 256) (ne : b ≢ 0) where
  lowest_of_byte : lowest b ≡ true
  lowest_of_byte = every-at 256 lowest unmap_table b byte

  pub unmap-lt : unmap b < 8
  unfolding lowest
  unmap-lt = ground (arith, lowest_of_byte)

  pub test_bit-unmap : test_bit b (unmap b) ≡ true
  unfolding lowest
  test_bit-unmap = ground (arith, lowest_of_byte)

  pub unmap_lowest : (k : ℕ) → k < 8 → k < unmap b → test_bit b k ≡ false
  unfolding lowest
  unmap_lowest k hk h =
      let all : every (λ k. not (test_bit b k && ltb k (unmap b))) 8 ≡ true =
        ground (arith, lowest_of_byte) in
      ground (arith, every-at 8 (λ k. not (test_bit b k && ltb k (unmap b))) all k hk)

pub unmap-zero : unmap 0 ≡ 0
unfolding unmap
unmap-zero = refl
