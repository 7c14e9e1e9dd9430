-- ===== src/Bus/Pcie.antt =====
-- AetherWebOS/src/drivers/pcie.c: configuration space and the search for devices. The UART output
-- is left out; the reads for it are not.
pub mod Address
pub mod Windows
pub mod Search
use aether_webos.Prelude.{
  ℕ, zero, suc, ◌+◌, ◌-◌, ◌*◌, ◌^◌, List, [], ◌∷◌, Option, none, some, Bool, true, false, not, ◌&&◌,
  ◌||◌, ◌==◌, if◌then◌else◌, bit_and, bit_or, u16, u32, ◌<<<◌, ◌>>>◌,
}
use aether_webos.Memory.Paging.{pcie_ext_cfg_data}
use aether_webos.Bus.{Trace, Answers, mmio_read32, mmio_write32}

-- The offset of a register's word in the configuration space.
unfoldable pub config_offset : ℕ → ℕ → ℕ → ℕ → ℕ
config_offset bus dev func reg =
    bit_or
      (bit_or (bit_or (bit_and bus 0xFF <<< 20) (bit_and dev 0x1F <<< 15))
        (bit_and func 0x07 <<< 12))
      (bit_and reg 0xFFC)

unfoldable pub pcie_read_config : Answers → ℕ → ℕ → ℕ → ℕ → Trace → ℕ × Trace
pcie_read_config device bus dev func reg t =
    let (val, t') = mmio_read32 device (pcie_ext_cfg_data + config_offset bus dev func reg) t in
    let byte_offset = bit_and reg 0x3 in
    (if byte_offset == 0 then val else (val >>> (byte_offset * 8)), t')

unfoldable pub pcie_write_config : ℕ → ℕ → ℕ → ℕ → ℕ → Trace → Trace
pcie_write_config bus dev func reg val t =
    mmio_write32 (pcie_ext_cfg_data + config_offset bus dev func reg) val t

-- `pcie_dump_header` reads four rows of four registers.
unfoldable pub dump_words : ℕ → Answers → ℕ → ℕ → ℕ → ℕ → Trace → Trace
dump_words zero device bus dev func reg t = t
dump_words (suc n) device bus dev func reg t =
    dump_words n device bus dev func (reg + 4) (pcie_read_config device bus dev func reg t).1

unfoldable pub dump_rows : ℕ → Answers → ℕ → ℕ → ℕ → ℕ → Trace → Trace
dump_rows zero device bus dev func reg t = t
dump_rows (suc n) device bus dev func reg t =
    dump_rows n device bus dev func (reg + 16) (dump_words 4 device bus dev func reg t)

unfoldable pub pcie_dump_header : Answers → ℕ → ℕ → ℕ → Trace → Trace
pcie_dump_header device bus dev func t = dump_rows 4 device bus dev func 0 t

-- The functions that the registry points to.
pub data InitFn : Type 0 where
  virtio_pci_init_fn : InitFn
  xhci_init_fn : InitFn

-- `struct pci_driver`, without the name.
pub record PciDriver : Type 0 where
  pub vendor_id : ℕ
  pub device_id : ℕ
  pub class_code : ℕ
  pub init : Option InitFn

-- `driver_registry`, up to the entry without a name that ends it.
abbrev pub driver_registry : List PciDriver
driver_registry =
    record {
      vendor_id = 0x1AF4;
      device_id = 0x1000;
      class_code = 0;
      init = some InitFn.virtio_pci_init_fn;
    }
    ∷ record {
      vendor_id = 0;
      device_id = 0;
      class_code = 0x0C0330;
      init = some InitFn.xhci_init_fn;
    }
    ∷ record { vendor_id = 0x1B36; device_id = 0x0001; class_code = 0; init = none }
    ∷ []

-- `next_pci_mem_addr`, `total_pci_devices`, the accesses, and what the drivers keep.
pub record Pci (S : Type 0) : Type 0 where
  pub next_pci_mem_addr : ℕ
  pub total_pci_devices : ℕ
  pub trace : Trace
  pub drivers : S

-- `~0xF`
abbrev pub bar_mask : ℕ
bar_mask = 2 ^ 32 - 16

-- How the driver of a device is started; `none` if it does not come back.
abbrev pub Start : Type 0 → Type 0
Start S = InitFn → ℕ → ℕ → ℕ → Trace → S → Option (Trace × S)

unfoldable pub driver_matches : ℕ → ℕ → PciDriver → Bool
driver_matches vendor class_code drv =
    (not (drv.vendor_id == 0) && (vendor == drv.vendor_id))
    || (not (drv.class_code == 0) && (class_code == drv.class_code))

module _ {S : Type 0} where
  -- One round of the loop over the BARs.
  unfoldable pub assign_bar : Answers → ℕ → ℕ → ℕ → ℕ → Pci S → Pci S
  assign_bar device bus dev func bar_idx p =
      let bar_offset = 0x10 + bar_idx * 4 in
      let (bar_val, t) = pcie_read_config device bus dev func bar_offset p.trace in
      if not (bar_val == 0) && (bit_and bar_val bar_mask == 0)
      then record p {
        trace = pcie_write_config bus dev func bar_offset p.next_pci_mem_addr t;
        next_pci_mem_addr = u32 (p.next_pci_mem_addr + 0x100000);
      }
      else record p { trace = t }

  -- The rounds that are left, and the next BAR.
  unfoldable pub assign_bars : ℕ → ℕ → Answers → ℕ → ℕ → ℕ → Pci S → Pci S
  assign_bars zero bar_idx device bus dev func p = p
  assign_bars (suc n) bar_idx device bus dev func p =
      assign_bars n (bar_idx + 1) device bus dev func (assign_bar device bus dev func bar_idx p)

  abbrev pub run_init : Start S → Option InitFn → ℕ → ℕ → ℕ → Trace → S → Option (Trace × S)
  run_init start none bus dev func t s = some (t, s)
  run_init start (some f) bus dev func t s = start f bus dev func t s

  -- What is done for the driver that matches.
  unfoldable pub bind_driver : Answers → Start S → ℕ → ℕ → ℕ → PciDriver → Pci S → Option (Pci S)
  bind_driver device start bus dev func drv p =
      let q = assign_bars 6 0 device bus dev func p in
      let (word, t) = pcie_read_config device bus dev func 0x04 q.trace in
      let cmd = bit_and word 0xFFFF in
      let t' = pcie_write_config bus dev func 0x04 (bit_or cmd 0x0006) t in
      elim (run_init start drv.init bus dev func t' q.drivers) [
        | none ↦ none
        | some (t'', s) ↦ some (record q { trace = t''; drivers = s })
      ]

  unfoldable pub match_loop :
      List PciDriver → Answers → Start S → ℕ → ℕ → ℕ → ℕ → ℕ → Pci S → Option (Pci S)
  match_loop [] device start bus dev func vendor class_code p = some p
  match_loop (drv ∷ drvs) device start bus dev func vendor class_code p =
      let rest = match_loop drvs device start bus dev func vendor class_code p in
      if driver_matches vendor class_code drv
      then bind_driver device start bus dev func drv p
      else rest

  unfoldable pub pcie_probe_device : Answers → Start S → ℕ → ℕ → ℕ → Pci S → Option (Pci S)
  pcie_probe_device device start bus dev func p =
      let (id_reg, t) = pcie_read_config device bus dev func 0x00 p.trace in
      let (class_reg, t') = pcie_read_config device bus dev func 0x08 t in
      match_loop driver_registry device start bus dev func (u16 (bit_and id_reg 0xFFFF))
        (bit_and (class_reg >>> 8) 0xFFFFFF)
        (record p { total_pci_devices = u32 (p.total_pci_devices + 1); trace = t' })

  -- One round of the scan, for the device `dev`.
  unfoldable pub scan_device : Answers → Start S → ℕ → Pci S → Option (Pci S)
  scan_device device start dev p =
      let (word, t) = pcie_read_config device 0 dev 0 0x00 p.trace in
      let vendor = bit_and word 0xFFFF in
      if (vendor == 0xFFFF) || (vendor == 0x0000)
      then some (record p { trace = t })
      else pcie_probe_device device start 0 dev 0
          (record p { trace = pcie_dump_header device 0 dev 0 t })

  -- The devices that are left, and the next one; `none` if a driver does not come back.
  unfoldable pub scan_loop : ℕ → ℕ → Answers → Start S → Pci S → Option (Pci S)
  scan_loop zero dev device start p = some p
  scan_loop (suc n) dev device start p = elim (scan_device device start dev p) [
    | none ↦ none
    | some q ↦ scan_loop n (dev + 1) device start q
  ]

  unfoldable pub pcie_init : Answers → Start S → Pci S → Option (Pci S)
  pcie_init device start p = scan_loop 32 0 device start (record p { total_pci_devices = 0 })

  unfoldable pub get_total_pci_devices : Pci S → ℕ
  get_total_pci_devices p = p.total_pci_devices
