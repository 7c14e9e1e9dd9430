-- ===== src/Memory/Paging/Tables.antt =====
-- `mmu_init` of AetherWebOS/arch/aarch64/mmu.c, and the processor's walk through the tables that it
-- fills: 39-bit addresses, pages of 4 KiB, three levels.
pub mod Walk
pub mod Device
use aether_webos.Prelude.{
  ℕ, zero, suc, ◌+◌, ◌-◌, ◌*◌, ◌/◌, ◌%◌, ◌^◌, ◌<◌, ◌≡◌, List, [], ◌∷◌, Option, none, some, Bool,
  true, false, ◌==◌, ltb, if◌then◌else◌, bit_or, ◌<<<◌,
}
use aether_webos.Memory.Paging.{Pool, l2_periph, l2_ram}

-- `kernel_pt_t`: a table is the function from an index to its entry.
pub record Tables : Type 0 where
  pub l1 : ℕ → ℕ
  pub periph : ℕ → ℕ
  pub ram : ℕ → ℕ
  pub dynamic : ℕ → ℕ
  pub l3_pool : Pool

-- The system registers that `mmu_init` writes.
pub record Control : Type 0 where
  pub mair : ℕ
  pub tcr : ℕ
  pub ttbr0 : ℕ
  pub sctlr : ℕ

-- Where the tables of `kpt` stand: 4 KiB each, in the order of the fields.
abbrev pub periph_at : ℕ → ℕ
periph_at kpt = kpt + 4096

abbrev pub ram_at : ℕ → ℕ
ram_at kpt = kpt + 2 * 4096

abbrev pub dynamic_at : ℕ → ℕ
dynamic_at kpt = kpt + 3 * 4096

abbrev pub pool_at : ℕ → ℕ → ℕ
pool_at kpt i = kpt + (4 + i) * 4096

-- Step 1.
abbrev pub zeroed : Tables
zeroed = record { l1 = λ i. 0; periph = λ i. 0; ram = λ i. 0; dynamic = λ i. 0; l3_pool = λ i j. 0 }

unfoldable pub write_entry : (ℕ → ℕ) → ℕ → ℕ → ℕ → ℕ
write_entry table i e i' = if i == i' then e else table i'

-- `for (int i = 0; i < n; i++) table[i] = entry(i)`
unfoldable pub fill : ℕ → (ℕ → ℕ) → (ℕ → ℕ) → ℕ → ℕ
fill zero entry table = table
fill (suc n) entry table = write_entry (fill n entry table) n (entry n)

-- Step 3.
unfoldable pub link_tables : ℕ → (ℕ → ℕ) → ℕ → ℕ
link_tables kpt l1 =
    write_entry
      (write_entry (write_entry l1 0 (bit_or (periph_at kpt) 0x3)) 1 (bit_or (ram_at kpt) 0x3)) 2
      (bit_or (dynamic_at kpt) 0x3)

-- Steps 1 and 3 to 6, for the tables at the address `kpt`.
unfoldable pub init_tables : ℕ → Tables
init_tables kpt = record {
  l1 = link_tables kpt (zeroed.l1);
  periph = fill 512 l2_periph (zeroed.periph);
  ram = fill 512 l2_ram (zeroed.ram);
  dynamic = fill 4 (λ i. bit_or (pool_at kpt i) 0x3) (zeroed.dynamic);
  l3_pool = zeroed.l3_pool;
}

-- The tables and the registers; `sctlr` is what the register held before.
unfoldable pub mmu_init : ℕ → ℕ → Tables × Control
mmu_init kpt sctlr = (
  init_tables kpt,
  record {
    mair = 0xFF4400;
    tcr = bit_or (bit_or (bit_or (25 <<< 0) (3 <<< 10)) (3 <<< 12)) (2 <<< 32);
    ttbr0 = kpt;
    sctlr = bit_or sctlr 0x1001;
  },
)

-- The memory that the processor reads: the entry at index `i` of the table at address `table`.
unfoldable pub entry_at : ℕ → Tables → ℕ → ℕ → ℕ
entry_at kpt t table i =
    if table == kpt
    then t.l1 i
    else if table == periph_at kpt
    then t.periph i
    else if table == ram_at kpt
    then t.ram i
    else if table == dynamic_at kpt
    then t.dynamic i
    else t.l3_pool ((table - pool_at kpt 0) / 4096) i

-- Bits 47 to 12 of an entry.
abbrev pub next_table : ℕ → ℕ
next_table entry = entry / 2 ^ 12 % 2 ^ 36 * 2 ^ 12

-- Level 3: a page, or a fault.
unfoldable pub walk_page : ℕ → ℕ → Option ℕ
walk_page entry va = if entry % 4 == 3 then some (next_table entry + va % 2 ^ 12) else none

-- Level 2: a block of 2 MiB, a table, or a fault.
unfoldable pub walk_block : ℕ → Tables → ℕ → ℕ → Option ℕ
walk_block kpt t entry va =
    if entry % 4 == 1
    then some (entry / 2 ^ 21 % 2 ^ 27 * 2 ^ 21 + va % 2 ^ 21)
    else if entry % 4 == 3
    then walk_page (entry_at kpt t (next_table entry) (va / 2 ^ 12 % 512)) va
    else none

-- Level 1, the table in `ttbr0`: a block of 1 GiB, a table, or a fault. The address is below 2^39.
unfoldable pub walk : Control → Tables → ℕ → Option ℕ
walk c t va =
    let entry = entry_at c.ttbr0 t c.ttbr0 (va / 2 ^ 30 % 512) in
    if entry % 4 == 1
    then some (entry / 2 ^ 30 % 2 ^ 18 * 2 ^ 30 + va % 2 ^ 30)
    else if entry % 4 == 3
    then walk_block c.ttbr0 t (entry_at c.ttbr0 t (next_table entry) (va / 2 ^ 21 % 512)) va
    else none
