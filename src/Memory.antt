-- ===== src/Memory.antt =====
-- AetherWebOS/src/kernel/memory.c and the page tables of AetherWebOS/arch/aarch64/mmu.c.
pub mod Heap
pub mod Paging
