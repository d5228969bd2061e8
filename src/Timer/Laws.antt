-- ===== src/Timer/Laws.antt =====
-- The clock loses no cycle, and sleeping lasts as many ticks as asked for.
use embedlab.Prelude.{
  ℕ, zero, suc, ◌+◌, ◌*◌, ◌/◌, ◌^◌, ◌<◌, ◌≤◌, ◌≡◌, refl, true, false, some, ltb, ◌==◌, u32, arith,
  Bool-cases, inl, inr,
}
use embedlab.Timer.{Clock, account, ostmr_count, sleep_loop, sleep_syscall}

-- the cycles of the oscillator that the clock stands for
abbrev pub cycles : Clock → ℕ
cycles c = c.system_time * ostmr_count + c.time_drift

-- While the tick count does not overflow, an interrupt adds exactly the cycles that it read to the
-- clock, and leaves less than one tick as drift.
pub account_exact :
    (oscr : ℕ) (c : Clock)
    → c.time_drift < ostmr_count
    → oscr < 2 ^ 32
    → c.system_time + oscr / ostmr_count + 1 < 2 ^ 32
    → (cycles (account oscr c) ≡ cycles c + oscr) × ((account oscr c).time_drift < ostmr_count)
unfolding account
account_exact oscr c drift word room = ground arith

sleep_loop_lem :
    (fuel : ℕ) (clock : ℕ → ℕ) (end_time i n : ℕ)
    → i ≤ n
    → n < i + fuel
    → end_time ≤ clock n
    → (r : ℕ) × (sleep_loop fuel clock end_time i ≡ some (r + 1))
      × (i ≤ r)
      × (end_time ≤ clock r)
      × ((j : ℕ) → i ≤ j → j < r → clock j < end_time)
unfolding sleep_loop
sleep_loop_lem zero clock end_time i n a b late = absurd (omega arith)
sleep_loop_lem (suc fuel) clock end_time i n a b late = elim (Bool-cases (ltb (clock i) end_time)) [
  | inr done ↦ (i, rw done refl, omega arith, ground arith, λ j p q. absurd (omega arith))
  | inl early ↦
      let (r, e, low, over, under) =
        sleep_loop_lem fuel clock end_time (i + 1) n (ne early) (omega arith) late in
      (
        r,
        rw early e,
        omega arith,
        over,
        λ j p q. elim (Bool-cases (i == j)) [
          | inl same ↦ ground (arith, early)
          | inr other ↦ under j (ground arith) q
        ],
      )
]
  where
    ne : ltb (clock i) end_time ≡ true → i + 1 ≤ n
    ne early = elim (Bool-cases (i == n)) [
      | inl same ↦ ground (arith, early, late)
      | inr other ↦ ground arith
    ]

-- If the clock reaches the end time within the fuel, `sleep_syscall` returns, at the first reading
-- that is no earlier than `millis / 10` ticks after the start.
pub sleep_syscall_lem :
    (fuel : ℕ) (clock : ℕ → ℕ) (millis n : ℕ)
    → clock 0 + millis / 10 < 2 ^ 32
    → 0 < n
    → n ≤ fuel
    → clock 0 + millis / 10 ≤ clock n
    → (r : ℕ) × (sleep_syscall fuel clock millis ≡ some (r + 1))
      × (clock 0 + millis / 10 ≤ clock r)
      × ((j : ℕ) → 0 < j → j < r → clock j < clock 0 + millis / 10)
unfolding sleep_syscall
sleep_syscall_lem fuel clock millis n room pos enough late =
    let fits : u32 (clock 0 + millis / 10) ≡ clock 0 + millis / 10 = omega arith in
    let (r, e, low, over, under) =
      sleep_loop_lem fuel clock (clock 0 + millis / 10) 1 n pos (omega arith) late in
    (r, rw fits e, over, λ j p q. under j p q)

-- A sleep of less than 10 ms ends at the first reading, with no tick gone by.
pub sleep_syscall_short :
    (fuel : ℕ) (clock : ℕ → ℕ) (millis : ℕ)
    → millis < 10
    → 0 < fuel
    → clock 0 < 2 ^ 32
    → clock 0 ≤ clock 1
    → sleep_syscall fuel clock millis ≡ some 2
unfolding sleep_syscall sleep_loop
sleep_syscall_short zero clock millis short pos word mono = absurd (omega arith)
sleep_syscall_short (suc fuel) clock millis short pos word mono =
    let e : ltb (clock 1) (u32 (clock 0 + millis / 10)) ≡ false = ground arith in rw e refl
