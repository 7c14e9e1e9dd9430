-- ===== src/Interrupts/Gic.antt =====
-- `gic_init` of AetherWebOS/src/kernel/gic.c for BOARD_VIRT, a GICv3. The UART output is left out.
pub mod Delivery
use aether_webos.Prelude.{
  ℕ, zero, suc, ◌+◌, ◌-◌, ◌*◌, ◌%◌, ◌^◌, List, ◌∷◌, Option, none, some, true, false, ◌||◌, not,
  ◌==◌, bit_and, bit_or, u32, u64, ◌<<<◌, ◌>>>◌,
}
use aether_webos.Interrupts.{Register, Event, History, Board, load_word, read_register}
use aether_webos.Interrupts.Timer.{timer_irq_id}

abbrev pub gic_dist_base : ℕ
gic_dist_base = 0x08000000

-- `~` on 32 bits.
abbrev pub complement32 : ℕ → ℕ
complement32 m = 2 ^ 32 - 1 - m

-- `while (1)`, with the frames that it may look at; `none` if they do not suffice.
unfoldable pub find_frame : ℕ → Board → ℕ → ℕ → History → Option (ℕ × History)
find_frame zero b aff redist_base h = none
find_frame (suc fuel) b aff redist_base h =
    let (typer, h') = load_word 64 b (redist_base + 0x08) h in
    elim ((typer >>> 32 == aff) || not (bit_and typer (1 <<< 4) == 0)) [
      | true ↦ some (redist_base, h')
      | false ↦ find_frame fuel b aff (u64 (redist_base + 0x20000)) h'
    ]

-- `while (*GICR_WAKER & (1 << 2));`
unfoldable pub wait_awake : ℕ → Board → ℕ → History → Option History
wait_awake zero b waker h = none
wait_awake (suc fuel) b waker h =
    let (val, h') = load_word 32 b waker h in
    elim (bit_and val (1 <<< 2) == 0) [ true ↦ some h' | false ↦ wait_awake fuel b waker h' ]

-- The frame is woken: ProcessorSleep is cleared, and the children have to follow.
unfoldable pub wake : ℕ → Board → ℕ → History → Option History
wake fuel b redist_base h =
    let waker = redist_base + 0x14 in
    let (val, h') = load_word 32 b waker h in
    wait_awake fuel b waker (Event.store waker (bit_and val (complement32 (1 <<< 1))) ∷ h')

-- Steps 3 to 6: group, priority, trigger and enable bit of the timer's interrupt.
unfoldable pub configure : Board → ℕ → History → History
configure b sgi_base h =
    let (group, h1) = load_word 32 b (sgi_base + 0x080) h in
    let h2 = Event.store (sgi_base + 0x080) (bit_or group (1 <<< timer_irq_id)) ∷ h1 in
    let (modifier, h3) = load_word 32 b (sgi_base + 0x088) h2 in
    let h4 =
      Event.store (sgi_base + 0x088) (bit_and modifier (complement32 (1 <<< timer_irq_id))) ∷ h3 in
    let h5 = Event.store (sgi_base + 0x400 + timer_irq_id) 0xA0 ∷ h4 in
    let (trigger, h6) = load_word 32 b (sgi_base + 0xC04) h5 in
    let h7 = Event.store (sgi_base + 0xC04) (bit_or trigger (2 <<< (timer_irq_id % 16 * 2))) ∷ h6 in
    Event.store (sgi_base + 0x100) (1 <<< timer_irq_id) ∷ h7

-- The interface of the processor.
unfoldable pub open_interface : Board → History → History
open_interface b h =
    let (sre, h') = read_register b Register.icc_sre_el1 h in
    Event.msr Register.icc_igrpen1_el1 1
    ∷ Event.msr Register.icc_pmr_el1 0xFF
    ∷ Event.msr Register.icc_sre_el1 (bit_or sre 0x7)
    ∷ h'

unfoldable pub gic_init : ℕ → Board → History → Option (ℕ × History)
gic_init fuel b h =
    let enabled =
      Event.store gic_dist_base (bit_or (bit_or (bit_or (1 <<< 4) (1 <<< 5)) (1 <<< 0)) (1 <<< 1))
      ∷ h in
    let (mpidr, h1) = read_register b Register.mpidr_el1 enabled in
    let aff = bit_and mpidr 0xFFFFFF in
    elim (find_frame fuel b aff (gic_dist_base + 0xA0000) h1) [
      | none ↦ none
      | some (redist_base, h2) ↦ elim (wake fuel b redist_base h2) [
        | none ↦ none
        | some h3 ↦ some (redist_base, open_interface b (configure b (redist_base + 0x10000) h3))
      ]
    ]
