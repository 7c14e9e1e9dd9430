-- ===== src/Kernel.antt =====
-- The kernel's own state machine: AetherWebOS/src/kernel.
pub mod Keys
pub mod Power
