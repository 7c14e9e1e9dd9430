-- ===== src/Interrupts/Timer/Ticks.antt =====
-- The uptime of AetherWebOS/src/drivers/timer.c after any number of interrupts.
use aether_webos.Prelude.{
  ℕ, zero, suc, ◌+◌, ◌*◌, ◌≡◌, refl, arith, ap, List, [], ◌∷◌, ◌==◌, if◌then◌else◌, length, bit_and,
  u32, u64, Bool-cases, inl, inr,
}
use aether_webos.Interrupts.{Register, Event, History, Board, read_register}
use aether_webos.Interrupts.Timer.{
  Clock, timer_irq_id, timer_init, handle_timer_irq, handle_irq_exception, interrupts,
}

-- What the processor acknowledged and what it ended, newest first.
abbrev pub acked : History → List ℕ
acked [] = []
acked (Event.mrs Register.icc_iar1_el1 val ∷ h) = u32 val ∷ acked h
acked (_ ∷ h) = acked h

abbrev pub ended : History → List ℕ
ended [] = []
ended (Event.msr Register.icc_eoir1_el1 val ∷ h) = val ∷ ended h
ended (_ ∷ h) = ended h

-- The countdowns that were started.
abbrev pub armed : History → List ℕ
armed [] = []
armed (Event.msr Register.cntp_tval_el0 val ∷ h) = val ∷ armed h
armed (_ ∷ h) = armed h

-- How many of them are the timer's.
abbrev pub ticks : List ℕ → ℕ
ticks [] = 0
ticks (iar ∷ rest) =
    let others = ticks rest in if bit_and iar 0x3FF == timer_irq_id then suc others else others

-- Between two interrupts.
pub record Steady (c : Clock) : Type 0 where
  pub all_ended : ended c.history ≡ acked c.history
  pub kept_time : c.uptime_ms ≡ u64 (10 * ticks (acked c.history))
  pub running : length (armed c.history) ≡ suc (ticks (acked c.history))

abbrev pub reset : Clock
reset = record { timer_freq = 0; uptime_ms = 0; history = [] }

init-Steady :
    (b : Board) → Steady (timer_init b reset) × (length (acked (timer_init b reset).history) ≡ 0)
unfolding timer_init read_register
init-Steady b = (record { all_ended = refl; kept_time = refl; running = refl }, refl)

irq-Steady :
    (b : Board) (c : Clock)
    → Steady c
    → Steady (handle_irq_exception b c)
      × (length (acked (handle_irq_exception b c).history) ≡ suc (length (acked c.history)))
unfolding handle_irq_exception handle_timer_irq read_register
irq-Steady b c s =
    let iar : ℕ = u32 (u64 (b.registers c.history Register.icc_iar1_el1)) in
    elim (Bool-cases (bit_and iar 0x3FF == timer_irq_id)) [
      | inl tick ↦
          rw (tick, handle_irq_exception, handle_timer_irq)
            (
              record {
                all_ended = ap (λ (l : List ℕ). iar ∷ l) s.all_ended;
                kept_time = rw tick (omega (arith, s.kept_time));
                running = rw tick (omega (arith, s.running));
              },
              refl,
            )
      | inr other ↦
          rw (other, handle_irq_exception)
            (
              record {
                all_ended = ap (λ (l : List ℕ). iar ∷ l) s.all_ended;
                kept_time = rw other s.kept_time;
                running = rw other s.running;
              },
              refl,
            )
    ]

irqs-Steady :
    (n : ℕ) (b : Board) (c : Clock)
    → Steady c
    → Steady (interrupts n b c)
      × (length (acked (interrupts n b c).history) ≡ n + length (acked c.history))
unfolding interrupts
irqs-Steady zero b c s = (s, omega arith)
irqs-Steady (suc n) b c s =
    let (steady, one) = irq-Steady b c s in
    let (after, count) = irqs-Steady n b (handle_irq_exception b c) steady in
    (after, omega (arith, one, count))

-- After `timer_init` and any number of interrupts, whatever the interrupt controller answers: as
-- many interrupts were acknowledged; each of them was ended, with the number that was acknowledged
-- and in the same order; the uptime is 10 ms for each of them that is the timer's; and the countdown
-- was started once for each of these and once before.
pub interrupts-Steady :
    (n : ℕ) (b : Board)
    → Steady (interrupts n b (timer_init b reset))
      × (length (acked (interrupts n b (timer_init b reset)).history) ≡ n)
interrupts-Steady n b =
    let (first, none_yet) = init-Steady b in
    let (after, count) = irqs-Steady n b (timer_init b reset) first in
    (after, omega (arith, none_yet, count))
