-- ===== src/Timer.antt =====
-- kernel/irqHandler_c.c and kernel/syscall/time.c: the clock of 10 ms ticks, its system calls and
-- the interrupt that drives it. The device registers that the interrupt reads are arguments.
pub mod Laws
use embedlab.Prelude.{
  ℕ, zero, suc, ◌+◌, ◌*◌, ◌-◌, ◌/◌, ◌%◌, ◌^◌, Bool, true, false, Option, none, some, ltb, leb, ◌==◌,
  not, if◌then◌else◌, u32, bit_and, shl,
}
use embedlab.Kernel.{Kernel, K, ◌>>=◌, ◌>>◌, pure, get, modify}
use embedlab.Mutex.{Exit, returned}
use embedlab.Device.{dev_update}

abbrev pub ostmr_count : ℕ
ostmr_count = 32500

abbrev pub timer_resolution : ℕ
timer_resolution = 10

abbrev pub int_ostmr_0 : ℕ
int_ostmr_0 = 26

-- The clock: `system_time` and `time_drift`.
pub record Clock : Type 0 where
  pub system_time : ℕ
  pub time_drift : ℕ

-- the lines of `irqHandler` that account for `oscr` cycles of the timer; all are 32-bit sums
unfoldable pub account : ℕ → Clock → Clock
account oscr c =
    let time = u32 (c.system_time + oscr / ostmr_count) in
    let drift = u32 (c.time_drift + oscr % ostmr_count) in
    if leb ostmr_count drift
    then record { system_time = u32 (time + 1); time_drift = drift - ostmr_count }
    else record { system_time = time; time_drift = drift }

abbrev pub clock_of : Kernel → Clock
clock_of k = record { system_time = k.system_time; time_drift = k.time_drift }

-- `irqHandler`, given the words read from ICPR and OSCR. The writes that clear the count register
-- and acknowledge the match have no effect on the state here.
unfoldable pub irq_handler : (icpr oscr : ℕ) → K Exit
irq_handler icpr oscr k =
    if bit_and icpr (shl 1 int_ostmr_0) == 0
    then pure (returned 0) k
    else let c = account oscr (clock_of k) in
      dev_update c.system_time (record k { system_time = c.system_time; time_drift = c.time_drift })

unfoldable pub time_syscall : K ℕ
time_syscall k = some (u32 (k.system_time * timer_resolution), k)

-- The loop of `sleep_syscall`: `clock i` is the value of `system_time` at its `i`-th reading, which
-- interrupts change meanwhile. The result is the number of readings; `none` is out of fuel.
sleep_loop : ℕ → (ℕ → ℕ) → ℕ → ℕ → Option ℕ
sleep_loop zero clock end_time i = none
sleep_loop (suc fuel) clock end_time i =
    let rest = sleep_loop fuel clock end_time (i + 1) in
    if ltb (clock i) end_time then rest else some (i + 1)

pub sleep_syscall : ℕ → (ℕ → ℕ) → ℕ → Option ℕ
unfolding sleep_loop
sleep_syscall fuel clock millis =
    let end_time = u32 (clock 0 + millis / 10) in sleep_loop fuel clock end_time 1
