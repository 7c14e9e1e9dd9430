-- ===== src/Memory/Paging/Blocks.antt =====
-- The block mappings of `mmu_init` of AetherWebOS/arch/aarch64/mmu.c, below 2 GiB.
use aether_webos.Prelude.{
  ℕ, ◌+◌, ◌-◌, ◌*◌, ◌/◌, ◌%◌, ◌^◌, ◌<◌, ◌≡◌, arith, ◌&&◌, Bool, Option, none, some, ◌==◌, ltb, leb,
  if◌then◌else◌, bit_or, bit_or-zero, bit_or_disjoint, bit_or_low,
}
use aether_webos.Memory.Paging.{l2_periph, l2_ram, pcie_ext_cfg_data, pcie_phys_base}

-- The entry that the walk for an address below 2 GiB ends at: `l1[0]` leads to `l2_periph`, `l1[1]`
-- to `l2_ram`.
unfoldable pub block_entry : ℕ → ℕ
block_entry va = if ltb va (2 ^ 30) then l2_periph (va / 2 ^ 21) else l2_ram (va / 2 ^ 21 % 512)

-- A block entry has 1 in its low two bits and the block's address in bits 47 to 21.
unfoldable pub block_walk : ℕ → Option ℕ
block_walk va =
    let entry = block_entry va in
    if entry % 4 == 1 then some (entry / 2 ^ 21 % 2 ^ 27 * 2 ^ 21 + va % 2 ^ 21) else none

abbrev pub is_ecam : ℕ → Bool
is_ecam va = leb pcie_ext_cfg_data va && ltb va (pcie_ext_cfg_data + 0x08000000)

periph_sum : (i : ℕ) → l2_periph i ≡ i * 2097152 + 0x405
unfolding l2_periph
periph_sum i = ground (arith, bit_or_disjoint 21 i 0x405, bit_or-zero (i * 2097152 + 0x405))

device_sum : (q : ℕ) → bit_or (bit_or (q * 2097152) 0x405) 0 ≡ q * 2097152 + 0x405
device_sum q = ground (arith, bit_or_disjoint 21 q 0x405, bit_or-zero (q * 2097152 + 0x405))

normal_sum : (q : ℕ) → bit_or (bit_or (q * 2097152) 0x401) 8 ≡ q * 2097152 + 0x409
normal_sum q = ground (arith, bit_or_disjoint 21 q 0x401, bit_or_low 21 q 0x401 8)

ram_sum :
    (i : ℕ)
    → i < 512
    → l2_ram i ≡ (
        if leb 384 i && ltb i 448 then (120 + i) * 2097152 + 0x405 else (512 + i) * 2097152 + 0x409)
unfolding l2_ram
ram_sum i h = ground (arith, device_sum (120 + i), normal_sum (512 + i))

-- Every address below 2 GiB is mapped: one of the PCIe configuration window to the same offset in
-- the physical window at `PCIE_PHYS_BASE`, any other to itself.
pub block_walk-total :
    (va : ℕ)
    → va < 2 ^ 31
    → block_walk va ≡ some (if is_ecam va then pcie_phys_base + (va - pcie_ext_cfg_data) else va)
unfolding block_walk block_entry
block_walk-total va h = ground (arith, periph_sum (va / 2097152), ram_sum (va / 2097152 % 512))
