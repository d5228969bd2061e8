-- ===== src/Lib.antt =====
-- Verification library of the embedlab4 kernel, a preemptive real-time kernel for an ARM board, and of
-- parts of the C library that its user programs are linked with.
--
-- How the program is put together. `main.c` installs the handlers and starts the first task set.
-- System calls come through `C_SWI_Handler`; the timer's interrupt through `irqHandler`, which keeps
-- the clock and calls `dev_update`. The kernel keeps an array of TCBs (`system_tcb`), a run queue of
-- 64 priorities, the current task, 32 mutexes and 60 devices. All of its state but the run queue's
-- own is reached through them; a call that must wait puts its task to a sleep queue that runs through
-- the TCBs, and dispatches.
--
-- The modules and the code that each is about:
--
-- Prelude     Boolean tests, lists, memory as functions, bits of bytes, 32-bit words.
-- RunQueue    kernel/sched/run_queue.c. `Laws` has the invariant of the bitmaps, `Highest` what the
--             search finds, `Spec` a table of 64 slots without bitmaps, `Refine` the refinement
--             between the two.
-- Kernel      The kernel's state: kernel/include/task.h and lock.h and the static variables of the
--             files below; the monad `K` of its operations. `Chain` is about sleep queues as lists.
-- Dispatch    kernel/sched/ctx_switch.c: dispatch_init, dispatch_save, dispatch_nosave,
--             dispatch_sleep, get_cur_prio, get_cur_tcb.
-- Mutex       kernel/lock/mutex.c: mutex_init, mutex_create, mutex_lock, mutex_unlock.
-- Device      kernel/device.c: dev_init, dev_wait, dev_update.
-- Memcheck    kernel/memcheck.c: valid_addr.
-- Timer       kernel/irqHandler_c.c and kernel/syscall/time.c.
-- Schedule    kernel/sched/ub_test.c: assign_schedule.
-- Sched       kernel/sched/sched.c: allocate_tasks.
-- Proc        kernel/syscall/proc.c: task_create, event_wait. `Checks` goes through the checks one by one.
-- Console     kernel/syscall/io.c: read_syscall, write_syscall.
-- Startup     kernel/main.c, kernel/timerIrqSetup.c and app_startup of uboot/stubs.c: how the handlers
--             are wired in, up to the jump to the user program.
-- CString     tasks/libc/string/*.c, one function per function, over a memory of bytes.
-- Calc        kernel/math.c, and rand.c, atoi.c, strtol.c and strtoul.c of tasks/libc/stdlib.
-- Ctype       tasks/libc/include/ctype.h, the classes of characters.
-- Doprnt      tasks/libc/stdio/doprnt.c: `Number` the numeric conversions, `Register` and `Thread` the
--             conversions `%b` and `%t`, `Format` the flags, the width and the precision and `%s`,
--             `Main` the loop over the format, `Digits` what the digits stand for, `Fuel` that the loop
--             ends, `Width` how wide the fields are.
-- Doscan      tasks/libc/stdio/doscan.c and sscanf.c; `RoundTrip` joins it to Doprnt and Sprintf.
-- System      kernel/C_SWI_Handler.c, and the calls and the interrupt of the timer as steps: each runs
--             on, behind its dispatch, with what the chosen task does until it is in user mode.
--             `Invariant` has what holds between two steps, `Frame`, `Switch` and `Save` keep it over
--             what steps share, `Locks`, `Frees`, `Waits` and `Ticks` (with `Wakes` and `Awoken`) over
--             each step; `Steps` puts them together, `Boot` starts from main.c and sched.c, `Wakeup` is
--             about who wakes up.
-- Sprintf     tasks/libc/stdio/sprintf.c, given the characters that `_doprnt` emits.
-- Printf      tasks/libc/stdio/printf.c, puts.c and putchar.c, likewise; `Text` is about texts of short lines.
-- Programs    User programs as machines over the kernel; `Calls`, `Creates` and `Launch` are about what
--             their calls do, `Waiters` about programs that only wait for devices. `Chaser` is
--             tasks/mutex_chaser/mutex_chaser.c: `Main` its `main`, `Sound` its invariant, `Moves` and
--             `Runs` what a move does, `Ledger` what a run leaves beside a mutex, `Starts` the start and
--             `Safety` the results. `Dagger` is tasks/dagger/dagger.c. `SysErr` is tasks/sys_err/sys_err.c:
--             `Refusals` has the calls that must fail, `Stage` and `Stays` what holds at each place, `Passes`
--             the moves and `Checks` the result. `SimpleMutex` is tasks/simple_mutex/simple_mutex.c and
--             `Stress` tasks/stress/stress.c. `Typo` is a round of tasks/typo/typo.c, `Seconds` its
--             line with the time and `Echoes` the whole round.
-- Tests       Runs at concrete inputs.
--
-- How state is modelled. An operation of the kernel is a function `Kernel → Option (A × Kernel)`.
-- `none` is a fault: a null pointer is followed, a period of 0 is divided by, or a sleep queue of
-- more than 64 tasks is walked, which no queue is in which each TCB stands once. A pointer to a TCB
-- is its index. The functions of the kernel disable interrupts in their first lines, so each is one
-- atomic step up to its dispatch. A dispatch makes another task current and stores in the TCB of
-- the old one where it goes on (`Resume`); the result is then `suspended`. What `mutex_lock` has
-- left to do there is `lock_tail`; the other calls enable interrupts and return.
--
-- A user program is a machine of the kernel, each task's variables and place in the code, the memory
-- that the tasks share, and the lines that are printed. In a move, the current task does its next memory
-- access, print or system call, or the timer interrupts it; a run is any list of moves.
--
-- Bounds and fuel. Numbers are natural; a 32-bit word or a byte is reduced where the source stores
-- it. Priorities are below 64, task sets have at most 62 tasks. A walk along a sleep queue has fuel
-- 64. `sleep_syscall` takes as fuel the number of readings of the clock; a loop over a string takes
-- as fuel the number of its characters and one more, and the theorems say that this is enough;
-- `_doprnt` takes the length of its format and one more, since each round uses up a character of
-- it. Addresses do not wrap around, since no object does, but in the loops of `strncpy` and
-- `write_syscall`, which can run past the last address; sums that the source compares are reduced.
--
-- Parameters. `Float` is the arithmetic of `float` with its exactness for whole numbers up to 2 ^
-- 24. `Addresses` is what the linker chooses. The words read from device registers, the readings of
-- the clock in `sleep_syscall` and the bytes that `getc` returns are arguments, and so is where the
-- linker puts the functions of a program, and what stands in memory behind its array of tasks or in
-- a field of it that is never set.
--
-- `event_wait` lets number 60 pass, for which there is no device. What that entry past the table
-- shares its memory with is not modelled: it is a device of its own.
--
-- Not modelled: assembly (entry code, handlers, register transfers) and the registers it alone
-- uses; `idle`, an endless loop; `sched_init`, which is empty; `invalid_syscall`, `assert.c` and
-- `raise.c`, which stop the machine; hexdump.c in kernel and in tasks/libc/stdio; the boot loader's
-- other functions in uboot, and what stands in kmain behind the call of user_mode, which jumps to
-- the user program and keeps no way back; and the programs cyclone, splat and hello under tasks.
pub mod Prelude
pub mod RunQueue
pub mod Kernel
pub mod Dispatch
pub mod Mutex
pub mod Device
pub mod Memcheck
pub mod Timer
pub mod Schedule
pub mod Sched
pub mod Proc
pub mod CString
pub mod Console
pub mod Calc
pub mod Ctype
pub mod Doprnt
pub mod Doscan
pub mod System
pub mod Startup
pub mod Sprintf
pub mod Printf
pub mod Programs
mod Tests
