-- ===== src/Memory/Paging/Tables/Walk.antt =====
-- Where the tables of `mmu_init` of AetherWebOS/arch/aarch64/mmu.c lead each address.
use aether_webos.Prelude.{ℕ, ◌+◌, ◌*◌, ◌&&◌, Bool, ltb, leb}
use aether_webos.Memory.Paging.{Pool, vmalloc_start, vmalloc_max}
use aether_webos.Memory.Paging.Tables.{Tables}

-- The entry that leads to the table `k` pages behind `kpt`.
abbrev table_entry : ℕ → ℕ → ℕ
table_entry kpt k = kpt + k * 4096 + 3

-- The tables after mappings in the dynamic area.
abbrev pub with_pool : Pool → Tables → Tables
with_pool pool t = record t { l3_pool = pool }

-- The addresses behind the level 3 tables.
abbrev pub is_dynamic : ℕ → Bool
is_dynamic va = leb vmalloc_start va && ltb va vmalloc_max
