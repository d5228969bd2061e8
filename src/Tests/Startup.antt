-- ===== src/Tests/Startup.antt =====
-- `kmain` over a memory in which both vectors load from the words 24 bytes behind them.
use embedlab.Prelude.{ℕ, ◌<◌, ◌≤◌, ◌≡◌, ◌≢◌, ◌⊎◌, inl, refl, arith, none, some, ◌==◌, if◌then◌else◌}
use embedlab.Kernel.{Kernel}
use embedlab.Mutex.{mutex_init, init_from}
use embedlab.Startup.{
  Words, Image, enters, returns, locate, wire_in, app_startup, prepare, kmain, swi_vec, irq_vec,
  ldr_pc, badc0de,
}
use embedlab.Startup.Laws.{IsOutside, kmain_installs, kmain_error}
use embedlab.Tests.Sample.{sample}

-- the kernel's variables stand from 8000 on
abbrev image : Image
image = record {
  s_handler = 5000;
  irq_handler_asm = 6000;
  bss_start = 8000;
  bss_words = 3;
  global_data = 8000;
  irq_stack_top = 8008;
  irq_stack = 9000;
}

-- `ldr pc, [pc, #16]` at both vectors; the boot loader's handlers stand at 1000 and 2000
abbrev words : Words
words a =
    if a == 8
    then 0xe59ff010
    else if a == 24
    then 0xe59ff010
    else if a == 32
    then 1000
    else if a == 48
    then 2000
    else 7

swi_found : locate swi_vec (prepare image 77 words) ≡ some 32
unfolding locate prepare app_startup
swi_found = refl

at_swi : prepare image 77 words 32 ≡ 1000
unfolding prepare app_startup
at_swi = refl

irq_found : locate irq_vec (wire_in 1000 5000 (prepare image 77 words)) ≡ some 48
unfolding locate wire_in prepare app_startup
irq_found = refl

at_irq : wire_in 1000 5000 (prepare image 77 words) 48 ≡ 2000
unfolding wire_in prepare app_startup
at_irq = refl

abbrev ready : Kernel
ready = record sample { gt_mutex = init_from 32 sample.gt_mutex }

mutexes_ready : mutex_init sample ≡ some (tt, ready)
unfolding mutex_init
mutexes_ready = refl

kmain_installs_example :
    (m : Words) × (kmain image 77 words sample ≡ some (enters m, ready))
    × (m 1000 ≡ ldr_pc)
    × (m 1004 ≡ 5000)
    × (m 2000 ≡ ldr_pc)
    × (m 2004 ≡ 6000)
    × ((x : ℕ)
        → 1000 ≢ x
        → 1004 ≢ x
        → 2000 ≢ x
        → 2004 ≢ x
        → x ≢ 8000
        → x ≢ 8008
        → IsOutside 3 8000 x
        → (x < 0x40000000) ⊎ (0x41000000 ≤ x)
        → m x ≡ words x)
kmain_installs_example =
    kmain_installs image 77 words sample ready 32 48 1000 2000 swi_found at_swi irq_found at_irq
      (omega arith, omega arith, omega arith, inl (omega arith), inl (omega arith)) (omega arith)
      mutexes_ready

abbrev no_irq : Words
no_irq a = if a == 8 then 0xe59ff010 else if a == 32 then 1000 else 7

swi_found_again : locate swi_vec (prepare image 77 no_irq) ≡ some 32
unfolding locate prepare app_startup
swi_found_again = refl

at_swi_again : prepare image 77 no_irq 32 ≡ 1000
unfolding prepare app_startup
at_swi_again = refl

irq_unknown : locate irq_vec (wire_in 1000 5000 (prepare image 77 no_irq)) ≡ none
unfolding locate wire_in prepare app_startup
irq_unknown = refl

kmain_error_example :
    (m : Words) × (kmain image 77 no_irq sample ≡ some (returns badc0de m, sample))
    × (m 1000 ≡ ldr_pc)
    × (m 1004 ≡ 5000)
    × (m 8000 ≡ 77)
    × (m 8008 ≡ 13092)
    × ((x : ℕ) → 1000 ≢ x → 1004 ≢ x → x ≢ 8000 → x ≢ 8008 → IsOutside 3 8000 x → m x ≡ no_irq x)
kmain_error_example =
    kmain_error image 77 no_irq sample 32 1000 swi_found_again at_swi_again irq_unknown
      (omega arith) (omega arith, omega arith) (omega arith, omega arith)
