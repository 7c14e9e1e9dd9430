-- ===== src/Interrupts/Timer.antt =====
-- AetherWebOS/src/drivers/timer.c and `handle_irq_exception` of AetherWebOS/src/kernel/exception.c.
pub mod Ticks
use aether_webos.Prelude.{
  ℕ, zero, suc, ◌+◌, ◌/◌, ◌^◌, List, ◌∷◌, ◌==◌, if◌then◌else◌, bit_and, u32, u64,
}
use aether_webos.Interrupts.{Register, Event, History, Board, read_register}

abbrev pub timer_irq_id : ℕ
timer_irq_id = 30

-- The two static variables, and the events.
pub record Clock : Type 0 where
  pub timer_freq : ℕ
  pub uptime_ms : ℕ
  pub history : History

abbrev pub write_register : Register → ℕ → Clock → Clock
write_register r val c = record c { history = Event.msr r val ∷ c.history }

unfoldable pub timer_init : Board → Clock → Clock
timer_init b c =
    let (frq, h) = read_register b Register.cntfrq_el0 c.history in
    write_register Register.cntp_ctl_el0 1 (
      write_register Register.cntp_tval_el0 (frq / 100)
        (record c { timer_freq = frq; history = h }))

unfoldable pub handle_timer_irq : Board → Clock → Clock
handle_timer_irq b c =
    let (frq, h) = read_register b Register.cntfrq_el0 c.history in
    write_register Register.cntp_tval_el0 (frq / 100)
      (record c { uptime_ms = u64 (c.uptime_ms + 10); history = h })

unfoldable pub get_system_uptime_ms : Clock → ℕ
get_system_uptime_ms c = c.uptime_ms

-- The acknowledged interrupt is a number of 32 bits.
unfoldable pub handle_irq_exception : Board → Clock → Clock
handle_irq_exception b c =
    let (val, h) = read_register b Register.icc_iar1_el1 c.history in
    let iar = u32 val in
    let acknowledged = record c { history = h } in
    write_register Register.icc_eoir1_el1 iar
      (if bit_and iar 0x3FF == timer_irq_id then handle_timer_irq b acknowledged else acknowledged)

-- One interrupt after the other.
unfoldable pub interrupts : ℕ → Board → Clock → Clock
interrupts zero b c = c
interrupts (suc n) b c = interrupts n b (handle_irq_exception b c)
