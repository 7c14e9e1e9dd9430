-- ===== src/Memory/Paging.antt =====
-- `vmalloc` and `ioremap` of AetherWebOS/src/kernel/memory.c, `mmu_map_region` and the tables that
-- `mmu_init` fills in AetherWebOS/arch/aarch64/mmu.c. A table is the function from an index to its
-- entry. Cache and TLB maintenance changes no entry and is left out, and so is the UART output.
pub mod Mapping
pub mod Translate
pub mod Ioremap
pub mod Blocks
pub mod Tables
pub mod Cache
use aether_webos.Prelude.{
  ℕ, zero, suc, ◌+◌, ◌-◌, ◌*◌, ◌/◌, ◌^◌, true, false, ◌&&◌, Option, none, some, ◌==◌, ltb, leb,
  if◌then◌else◌, bit_and, bit_or, u64, ◌<<<◌, ◌>>>◌,
}

abbrev pub page_size : ℕ
page_size = 4096

abbrev pub vmalloc_start : ℕ
vmalloc_start = 0x80000000

-- Four level 3 tables of 512 pages.
abbrev pub vmalloc_max : ℕ
vmalloc_max = vmalloc_start + 4 * 2 * 1024 * 1024

-- `~(PAGE_SIZE - 1)`, widened to 64 bits.
abbrev pub page_mask : ℕ
page_mask = 2 ^ 64 - 4096

-- `MM_TYPE_PAGE | MM_ATTR_DEVICE_INDEX | MM_ACCESS_FLAG`
abbrev pub prot_device_page : ℕ
prot_device_page = bit_or (bit_or 0x3 0) (2 ^ 10)

-- `kpt.l3_pool`: table, index, entry.
abbrev pub Pool : Type 0
Pool = ℕ → ℕ → ℕ

-- `vmalloc_ptr` and the tables that the mappings go to.
pub record Space : Type 0 where
  pub vmalloc_ptr : ℕ
  pub pool : Pool

unfoldable pub set_entry : Pool → ℕ → ℕ → ℕ → Pool
set_entry pool i j e i' j' = if (i == i') && (j == j') then e else pool i' j'

-- One round of the loop of `mmu_map_region`.
unfoldable pub map_page : ℕ → ℕ → ℕ → Pool → Pool
map_page v_addr p_addr flags pool =
    let l2_idx = bit_and (v_addr >>> 21) 0x1FF in
    let l3_idx = bit_and (v_addr >>> 12) 0x1FF in
    if ltb l2_idx 4
    then set_entry pool l2_idx l3_idx (bit_or (bit_or (bit_or p_addr flags) (1 <<< 10)) 0x3)
    else pool

-- `while (mapped < size)`; the fuel bounds the rounds.
unfoldable pub map_loop : ℕ → ℕ → ℕ → ℕ → ℕ → ℕ → Pool → Pool
map_loop zero mapped size v_addr p_addr flags pool = pool
map_loop (suc fuel) mapped size v_addr p_addr flags pool = elim (ltb mapped size) [
  | true ↦
      map_loop fuel (u64 (mapped + 4096)) size (u64 (v_addr + 4096)) (u64 (p_addr + 4096)) flags
        (map_page v_addr p_addr flags pool)
  | false ↦ pool
]

unfoldable pub mmu_map_region : ℕ → ℕ → ℕ → ℕ → Pool → Pool
mmu_map_region va pa size flags pool =
    map_loop (size / 4096 + 1) 0 size va (bit_and pa (2 ^ 64 - 4096)) flags pool

-- `none` is NULL.
unfoldable pub vmalloc : ℕ → Space → Space × Option ℕ
vmalloc request s =
    let size = bit_and (u64 (request + page_size - 1)) page_mask in
    if ltb vmalloc_max (u64 (s.vmalloc_ptr + size))
    then (s, none)
    else (record s { vmalloc_ptr = u64 (s.vmalloc_ptr + size) }, some s.vmalloc_ptr)

-- Steps 4 to 6 of `ioremap`, from the page, the offset and the size that it computes.
unfoldable pub ioremap_pages : ℕ → ℕ → ℕ → Space → Space × Option ℕ
ioremap_pages phys_page offset map_size s =
    let (s', virt_page) = vmalloc map_size s in
    elim virt_page [
      | none ↦ (s', none)
      | some v ↦ (
        record s' { pool = mmu_map_region v phys_page map_size prot_device_page s'.pool },
        some (u64 (v + offset)),
      )
    ]

unfoldable pub ioremap : ℕ → ℕ → Space → Space × Option ℕ
ioremap phys_addr size s =
    let phys_page = bit_and phys_addr page_mask in
    let offset = bit_and phys_addr (page_size - 1) in
    let map_size = bit_and (u64 (offset + size + page_size - 1)) page_mask in
    if size == 0 then (s, none) else ioremap_pages phys_page offset map_size s

-- The entries that `mmu_init` writes to the level 2 tables: 2 MiB blocks.
unfoldable pub l2_periph : ℕ → ℕ
l2_periph i = bit_or (bit_or (i <<< 21) 0x405) (0 <<< 2)

abbrev pub pcie_ext_cfg_data : ℕ
pcie_ext_cfg_data = 0x70000000

abbrev pub pcie_phys_base : ℕ
pcie_phys_base = 0x3f000000

unfoldable pub l2_ram : ℕ → ℕ
l2_ram i =
    let virtual_addr = 0x40000000 + (i <<< 21) in
    if leb pcie_ext_cfg_data virtual_addr && ltb virtual_addr (pcie_ext_cfg_data + 0x08000000)
    then (let phys_target = pcie_phys_base + (virtual_addr - pcie_ext_cfg_data) in
        bit_or (bit_or phys_target 0x405) (0 <<< 2))
    else bit_or (bit_or virtual_addr 0x401) (2 <<< 2)
