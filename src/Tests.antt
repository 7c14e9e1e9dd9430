-- ===== src/Tests.antt =====
-- Runs of the theorems on concrete inputs.
mod Memory
mod Net
mod Tcp
mod Traffic
mod Packets
mod Kernel
mod Bus
mod Console
mod Earlier
mod Board
