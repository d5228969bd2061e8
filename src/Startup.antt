-- ===== src/Startup.antt =====
-- kernel/main.c, kernel/timerIrqSetup.c and app_startup of uboot/stubs.c: the installation of the
-- handlers, over a memory of 32-bit words, in which the device registers stand as well. `kmain` ends
-- where it enters user mode: the code of user_mode.S jumps to the user program and keeps no way back.
-- The variables of the kernel's other parts are in their own models.
pub mod Laws
use embedlab.Prelude.{
  ℕ, zero, suc, ◌+◌, ◌-◌, ◌*◌, ◌^◌, Option, none, some, bit_and, bit_or, not32, shl, u32, update,
  ◌==◌, if◌then◌else◌,
}
use embedlab.Kernel.{K, ◌>>=◌, ◌>>◌, pure}
use embedlab.Mutex.{mutex_init}
use embedlab.Timer.{ostmr_count, int_ostmr_0}

-- the words of the memory, by their addresses
abbrev pub Words : Type 0
Words = ℕ → ℕ

abbrev peripheral_base : ℕ
peripheral_base = 0x40000000

-- `reg_write`, `reg_set` and `reg_clear` of arm/reg.h
abbrev pub reg_write : ℕ → ℕ → Words → Words
reg_write addr value mem = update mem (peripheral_base + addr) value

abbrev pub reg_set : ℕ → ℕ → Words → Words
reg_set addr flags mem =
    update mem (peripheral_base + addr) (bit_or (mem (peripheral_base + addr)) flags)

abbrev pub reg_clear : ℕ → ℕ → Words → Words
reg_clear addr flags mem =
    update mem (peripheral_base + addr) (bit_and (mem (peripheral_base + addr)) (not32 flags))

abbrev int_icmr_addr : ℕ
int_icmr_addr = 0x00d00004

abbrev int_iclr_addr : ℕ
int_iclr_addr = 0x00d00008

abbrev ostmr_osmr_addr : ℕ → ℕ
ostmr_osmr_addr x = 0x00a00000 + x * 4

abbrev ostmr_oscr_addr : ℕ
ostmr_oscr_addr = 0x00a00010

abbrev ostmr_oier_addr : ℕ
ostmr_oier_addr = 0x00a0001c

abbrev ostmr_oier_e0 : ℕ
ostmr_oier_e0 = 1

unfoldable pub timer_irq_setup : Words → Words
timer_irq_setup mem =
    let level = reg_clear int_iclr_addr (shl 1 int_ostmr_0) mem in
    let mask = reg_write int_icmr_addr (shl 1 int_ostmr_0) level in
    let match0 = reg_write (ostmr_osmr_addr 0) ostmr_count mask in
    let enabled = reg_set ostmr_oier_addr ostmr_oier_e0 match0 in
    reg_clear ostmr_oscr_addr (2 ^ 32 - 1) enabled

-- `EX_SWI * 4` and `EX_IRQ * 4`
abbrev pub swi_vec : ℕ
swi_vec = 8

abbrev pub irq_vec : ℕ
irq_vec = 24

-- The word from which the instruction at a vector, `ldr pc, [pc, #offset]`, loads: `offset` is
-- `*vec - 0xe51FF000`, and its bit 23 tells a positive offset from a negative one.
unfoldable pub locate : ℕ → Words → Option ℕ
locate vec mem =
    let offset = u32 (mem vec + 2 ^ 32 - 0xe51ff000) in
    let high = bit_and offset 0xfffff000 in
    let low = bit_and offset 0xfff in
    if high == 0x800000
    then some (u32 (vec + low + 8))
    else if high == 0
    then some (u32 (vec + 2 ^ 32 - low + 8))
    else none

-- `ldr pc, [pc, #-4]`, and behind it the address that it loads
abbrev pub ldr_pc : ℕ
ldr_pc = 0xe51ff004

unfoldable pub wire_in : (addr handler : ℕ) → Words → Words
wire_in addr handler mem = update (update mem addr ldr_pc) (addr + 4) handler

abbrev pub badc0de : ℕ
badc0de = 0x0badc0de

-- what the linker and the compiler fix: `&S_Handler`, `&irqHandlerAsm`, the start of the variables
-- without an initial value and the number of their words, and the addresses of `global_data`,
-- `irqStackTop` and `irqStack`
pub record Image : Type 0 where
  pub s_handler : ℕ
  pub irq_handler_asm : ℕ
  pub bss_start : ℕ
  pub bss_words : ℕ
  pub global_data : ℕ
  pub irq_stack_top : ℕ
  pub irq_stack : ℕ

-- `app_startup`: the loop from `__bss_start` to `_end`
unfoldable pub app_startup : (words : ℕ) → (cp : ℕ) → Words → Words
app_startup zero cp mem = mem
app_startup (suc words) cp mem = app_startup words (cp + 4) (update mem cp 0)

-- How `kmain` ends: it enters user mode, from which nothing comes back to it, or it returns a number
-- behind its message. The memory is that at this point.
pub data Ending : Type 0 where
  enters : Words → Ending
  returns : ℕ → Words → Ending

module _ (h : Image) where
  -- from the second vector on
  unfoldable pub wire_irq : Words → Option ℕ → K Ending
  wire_irq mem none = pure (returns badc0de mem)
  wire_irq mem (some uboot_irq) = do
    let wired = wire_in (mem uboot_irq) h.irq_handler_asm mem
    mutex_init
    pure (enters (timer_irq_setup wired))

  unfoldable pub wire_swi : Words → Option ℕ → K Ending
  unfolding locate wire_irq wire_in
  wire_swi mem none = pure (returns badc0de mem)
  wire_swi mem (some uboot_swi) =
      let wired = wire_in (mem uboot_swi) h.s_handler mem in wire_irq wired (locate irq_vec wired)

  -- the stores before the handlers
  unfoldable pub prepare : (table : ℕ) → Words → Words
  unfolding app_startup
  prepare table mem =
      update (update (app_startup h.bss_words h.bss_start mem) h.global_data table) h.irq_stack_top
        (h.irq_stack + 4 * (1024 - 1))

  unfoldable pub kmain : (table : ℕ) → Words → K Ending
  unfolding wire_swi prepare
  kmain table mem = wire_swi (prepare table mem) (locate swi_vec (prepare table mem))
