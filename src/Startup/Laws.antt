-- ===== src/Startup/Laws.antt =====
-- What `kmain` leaves in the memory.
use embedlab.Prelude.{
  ℕ, zero, suc, ◌+◌, ◌*◌, ◌<◌, ◌≤◌, ◌≡◌, ◌≢◌, ◌⊎◌, refl, ap, ◌∙◌, none, some, arith, update,
}
use embedlab.Kernel.{Kernel, and_then}
use embedlab.Mutex.{mutex_init}
use embedlab.Startup.{
  Words, Image, enters, returns, locate, wire_in, app_startup, prepare, wire_irq, wire_swi, kmain,
  timer_irq_setup, swi_vec, irq_vec, ldr_pc, badc0de,
}

-- `x` is not among the `words` words that start at `cp`
abbrev pub IsOutside : (words cp x : ℕ) → Type 0
IsOutside words cp x = (x < cp) ⊎ (cp + 4 * words ≤ x)

app_startup-outside :
    (words cp x : ℕ) (mem : Words) → IsOutside words cp x → app_startup words cp mem x ≡ mem x
unfolding app_startup
app_startup-outside zero cp x mem out = refl
app_startup-outside (suc words) cp x mem out =
    app_startup-outside words (cp + 4) x (update mem cp 0) (ground (arith, out))
    ∙ ground (arith, out)

-- The words that no device register is at are not changed.
timer_irq_setup-outside :
    (x : ℕ) (mem : Words) → (x < 0x40000000) ⊎ (0x41000000 ≤ x) → timer_irq_setup mem x ≡ mem x
unfolding timer_irq_setup
timer_irq_setup-outside x mem out = ground (arith, out)

module _ (h : Image) (table : ℕ) (mem : Words) where
  -- what `kmain` has stored before it looks at the handlers
  prepared :
      h.global_data ≢ h.irq_stack_top
      → (prepare h table mem h.global_data ≡ table)
        × (prepare h table mem h.irq_stack_top ≡ h.irq_stack + 4092)
        × ((x : ℕ)
            → IsOutside h.bss_words h.bss_start x
            → x ≢ h.global_data
            → x ≢ h.irq_stack_top
            → prepare h table mem x ≡ mem x)
  unfolding prepare
  prepared apart = (
    ground (arith, apart),
    ground arith,
    λ x out a b. ground (arith, a, b, app_startup-outside h.bss_words h.bss_start x mem out),
  )

module _ (h : Image) (table : ℕ) (mem : Words) (k : Kernel) (u p : ℕ)
    (swi : locate swi_vec (prepare h table mem) ≡ some u) (at_p : prepare h table mem u ≡ p) where
  abbrev with_swi : Words
  with_swi = wire_in p h.s_handler (prepare h table mem)

  swi_wired : kmain h table mem k ≡ wire_irq h with_swi (locate irq_vec with_swi) k
  unfolding kmain wire_swi
  swi_wired =
      ap (λ o. wire_swi h (prepare h table mem) o k) swi
      ∙ ap
          (λ a.
            wire_irq h (wire_in a h.s_handler (prepare h table mem))
              (locate irq_vec (wire_in a h.s_handler (prepare h table mem))) k)
          at_p

  swi_only :
      locate irq_vec with_swi ≡ none → kmain h table mem k ≡ some (returns badc0de with_swi, k)
  unfolding wire_irq
  swi_only refused = swi_wired ∙ ap (λ o. wire_irq h with_swi o k) refused

  both_wired :
      (v q : ℕ) (k1 : Kernel)
      → locate irq_vec with_swi ≡ some v
      → with_swi v ≡ q
      → mutex_init k ≡ some (tt, k1)
      → kmain h table mem k
        ≡ some (enters (timer_irq_setup (wire_in q h.irq_handler_asm with_swi)), k1)
  unfolding wire_irq
  both_wired v q k1 irq at_q init =
      swi_wired
      ∙ ap (λ o. wire_irq h with_swi o k) irq
      ∙ ap
          (λ a.
            and_then (mutex_init k)
              (λ _ s. some (enters (timer_irq_setup (wire_in a h.irq_handler_asm with_swi)), s)))
          at_q
      ∙ ap
          (λ o.
            and_then o
              (λ _ s. some (enters (timer_irq_setup (wire_in q h.irq_handler_asm with_swi)), s)))
          init

-- the two words of a handler at `p` are no device registers, and not among those at `q`
abbrev pub IsApart : ℕ → ℕ → Type 0
IsApart p q =
    (p ≢ q)
    × (p + 4 ≢ q)
    × (q + 4 ≢ p)
    × ((p + 4 < 0x40000000) ⊎ (0x41000000 ≤ p))
    × ((q + 4 < 0x40000000) ⊎ (0x41000000 ≤ q))

-- Take vectors that `kmain` recognises, that of interrupts with the handler of system calls wired
-- in, and handlers of the boot loader at `p` and `q` that overlap neither each other nor the device
-- registers. Then `kmain` enters user mode with the mutexes initialised; at `p` and `q` stand a jump
-- to the kernel's handlers of system calls and of interrupts, and each word that is no device
-- register, neither `global_data` nor `irqStackTop`, and not among the variables that are cleared is
-- as it was.
pub kmain_installs :
    (h : Image) (table : ℕ) (mem : Words) (k k1 : Kernel) (u v p q : ℕ)
    → locate swi_vec (prepare h table mem) ≡ some u
    → prepare h table mem u ≡ p
    → locate irq_vec (wire_in p h.s_handler (prepare h table mem)) ≡ some v
    → wire_in p h.s_handler (prepare h table mem) v ≡ q
    → IsApart p q
    → h.global_data ≢ h.irq_stack_top
    → mutex_init k ≡ some (tt, k1)
    → (m : Words) × (kmain h table mem k ≡ some (enters m, k1))
      × (m p ≡ ldr_pc)
      × (m (p + 4) ≡ h.s_handler)
      × (m q ≡ ldr_pc)
      × (m (q + 4) ≡ h.irq_handler_asm)
      × ((x : ℕ)
          → p ≢ x
          → p + 4 ≢ x
          → q ≢ x
          → q + 4 ≢ x
          → x ≢ h.global_data
          → x ≢ h.irq_stack_top
          → IsOutside h.bss_words h.bss_start x
          → (x < 0x40000000) ⊎ (0x41000000 ≤ x)
          → m x ≡ mem x)
unfolding wire_in
kmain_installs h table mem k k1 u v p q swi at_p irq at_q apart differ init =
    let wired : Words = wire_in q h.irq_handler_asm (wire_in p h.s_handler (prepare h table mem)) in
    let (_, _, others) = prepared h table mem differ in
    (
      timer_irq_setup wired,
      both_wired h table mem k u p swi at_p v q k1 irq at_q init,
      timer_irq_setup-outside p wired (ground (arith, apart)) ∙ ground (arith, apart),
      timer_irq_setup-outside (p + 4) wired (ground (arith, apart)) ∙ ground (arith, apart),
      timer_irq_setup-outside q wired (ground (arith, apart)) ∙ ground (arith, apart),
      timer_irq_setup-outside (q + 4) wired (ground (arith, apart)) ∙ ground (arith, apart),
      λ x a b c d e g out dev.
          timer_irq_setup-outside x wired dev ∙ ground (arith, a, b, c, d, others x out e g),
    )

-- With a vector of system calls that it recognises and one of interrupts that it does not, `kmain`
-- returns 0x0badc0de before the user program, the mutexes and the timer, and the handler of system
-- calls stays wired in. `global_data` holds the table and `irqStackTop` the last word of the stack
-- for interrupts, if the handler is neither of them; each other word that is not among the variables
-- that are cleared is as it was.
pub kmain_error :
    (h : Image) (table : ℕ) (mem : Words) (k : Kernel) (u p : ℕ)
    → locate swi_vec (prepare h table mem) ≡ some u
    → prepare h table mem u ≡ p
    → locate irq_vec (wire_in p h.s_handler (prepare h table mem)) ≡ none
    → h.global_data ≢ h.irq_stack_top
    → (p ≢ h.global_data) × (p + 4 ≢ h.global_data)
    → (p ≢ h.irq_stack_top) × (p + 4 ≢ h.irq_stack_top)
    → (m : Words) × (kmain h table mem k ≡ some (returns badc0de m, k))
      × (m p ≡ ldr_pc)
      × (m (p + 4) ≡ h.s_handler)
      × (m h.global_data ≡ table)
      × (m h.irq_stack_top ≡ h.irq_stack + 4092)
      × ((x : ℕ)
          → p ≢ x
          → p + 4 ≢ x
          → x ≢ h.global_data
          → x ≢ h.irq_stack_top
          → IsOutside h.bss_words h.bss_start x
          → m x ≡ mem x)
unfolding wire_in
kmain_error h table mem k u p swi at_p refused differ off_data off_top =
    let (data_word, top_word, others) = prepared h table mem differ in
    (
      with_swi h table mem k u p swi at_p,
      swi_only h table mem k u p swi at_p refused,
      ground arith,
      ground arith,
      ground (arith, off_data, data_word),
      ground (arith, off_top, top_word),
      λ x a b c d out. ground (arith, a, b, others x out c d),
    )
