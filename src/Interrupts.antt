-- ===== src/Interrupts.antt =====
-- The timer and its interrupt: AetherWebOS/src/drivers/timer.c, AetherWebOS/src/kernel/gic.c and
-- `handle_irq_exception` of AetherWebOS/src/kernel/exception.c, for BOARD_VIRT. A board is what its
-- memory and its system registers answer after the events so far, which may be any function. The
-- events are kept with the newest first.
pub mod Timer
pub mod Gic
use aether_webos.Prelude.{ℕ, ◌%◌, ◌^◌, List, ◌∷◌, u64}

-- The system registers that the program names.
pub data Register : Type 0 where
  cntfrq_el0 : Register
  cntp_tval_el0 : Register
  cntp_ctl_el0 : Register
  mpidr_el1 : Register
  icc_sre_el1 : Register
  icc_pmr_el1 : Register
  icc_igrpen1_el1 : Register
  icc_iar1_el1 : Register
  icc_eoir1_el1 : Register

pub data Event : Type 0 where
  load : ℕ → ℕ → Event
  store : ℕ → ℕ → Event
  mrs : Register → ℕ → Event
  msr : Register → ℕ → Event

abbrev pub History : Type 0
History = List Event

pub record Board : Type 0 where
  pub memory : History → ℕ → ℕ
  pub registers : History → Register → ℕ

-- A load of `width` bits, and a read of a system register.
unfoldable pub load_word : ℕ → Board → ℕ → History → ℕ × History
load_word width b addr h = let val = b.memory h addr % 2 ^ width in (val, Event.load addr val ∷ h)

unfoldable pub read_register : Board → Register → History → ℕ × History
read_register b r h = let val = u64 (b.registers h r) in (val, Event.mrs r val ∷ h)
