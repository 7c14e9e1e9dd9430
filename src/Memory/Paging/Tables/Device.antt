-- ===== src/Memory/Paging/Tables/Device.antt =====
-- `ioremap` of AetherWebOS/src/kernel/memory.c behind the tables of `mmu_init`.
use aether_webos.Prelude.{ℕ, Option}
use aether_webos.Memory.Paging.{Pool}
use aether_webos.Memory.Paging.Tables.{mmu_init, walk}

-- What the processor reads at `va` when `mmu_init` has run and the level 3 tables are `pool`.
abbrev pub reached : ℕ → ℕ → Pool → ℕ → Option ℕ
reached kpt sctlr pool va =
    walk (mmu_init kpt sctlr).1 (record (mmu_init kpt sctlr).0 { l3_pool = pool }) va
