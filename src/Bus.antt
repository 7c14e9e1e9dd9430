-- ===== src/Bus.antt =====
-- Devices behind addresses: AetherWebOS/include/common/io.h. A device is the function that says what
-- a read gives after the accesses so far, which may be any function. The accesses are kept with the
-- newest first.
pub mod Pcie
pub mod VirtioPci
pub mod VirtioNet
pub mod VirtioStart
pub mod Xhci
pub mod Drivers
use aether_webos.Prelude.{ℕ, List, ◌∷◌, u32}

pub data Access : Type 0 where
  read : ℕ → ℕ → Access
  write : ℕ → ℕ → Access

abbrev pub Trace : Type 0
Trace = List Access

abbrev pub Answers : Type 0
Answers = Trace → ℕ → ℕ

unfoldable pub mmio_read32 : Answers → ℕ → Trace → ℕ × Trace
mmio_read32 device addr t = let val = u32 (device t addr) in (val, Access.read addr val ∷ t)

unfoldable pub mmio_write32 : ℕ → ℕ → Trace → Trace
mmio_write32 addr val t = Access.write addr (u32 val) ∷ t
