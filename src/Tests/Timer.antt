-- ===== src/Tests/Timer.antt =====
-- The clock and the segment check at concrete inputs.
use embedlab.Prelude.{ℕ, ◌+◌, ◌≡◌, ◌≤◌, ◌<◌, some, arith}
use embedlab.Timer.{Clock, sleep_syscall}
use embedlab.Timer.Laws.{sleep_syscall_lem}

abbrev clock : Clock
clock = record { system_time = 7; time_drift = 30000 }

sleep_syscall_lem_example :
    (r : ℕ) × (sleep_syscall 20 (λ i. i) 35 ≡ some (r + 1))
    × (3 ≤ r)
    × ((j : ℕ) → 0 < j → j < r → j < 3)
sleep_syscall_lem_example =
    sleep_syscall_lem 20 (λ i. i) 35 5 (omega arith) (omega arith) (omega arith) (omega arith)
