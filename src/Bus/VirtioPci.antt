-- ===== src/Bus/VirtioPci.antt =====
-- AetherWebOS/src/drivers/virtio/virtio_pci.c: the search for the register areas of a VirtIO device.
-- The UART output is left out.
pub mod Walk
use aether_webos.Prelude.{
  ℕ, zero, suc, ◌+◌, ◌-◌, ◌*◌, ◌^◌, Option, none, some, Bool, true, false, not, ◌&&◌, ◌==◌, ltb,
  if◌then◌else◌, bit_and, bit_or, u8, u64, ◌<<<◌, ◌>>>◌,
}
use aether_webos.Memory.Paging.{Space, ioremap}
use aether_webos.Bus.{Trace, Answers}
use aether_webos.Bus.Pcie.{bar_mask, pcie_read_config}

-- `struct virtio_pci_device`, a null pointer as `none`, without the queues, together with the
-- accesses and the virtual memory that its initialisation changes.
pub record Transport : Type 0 where
  pub bus : ℕ
  pub dev : ℕ
  pub func : ℕ
  pub common : Option ℕ
  pub device_cfg : Option ℕ
  pub isr : Option ℕ
  pub notify_base : Option ℕ
  pub notify_off_multiplier : ℕ
  pub trace : Trace
  pub space : Space

-- The address in a BAR of 32 or of 64 bits, whose register is `reg`.
unfoldable pub bar_address : Answers → ℕ → ℕ → ℕ → ℕ → Trace → ℕ × Trace
bar_address device bus dev func reg t =
    let (bar_low, t') = pcie_read_config device bus dev func reg t in
    let phys_addr = bit_and bar_low bar_mask in
    let (bar_high, t'') = pcie_read_config device bus dev func (reg + 4) t' in
    if bit_and bar_low 0x6 == 0x4
    then (bit_or phys_addr (u64 (bar_high <<< 32)), t'')
    else (phys_addr, t')

-- The switch over the type of the capability.
unfoldable pub store_area : Answers → ℕ → ℕ → ℕ → Transport → Transport
store_area device type cap_ptr virt_addr v =
    if type == 1
    then record v { common = some virt_addr }
    else if type == 4
    then record v { device_cfg = some virt_addr }
    else if type == 3
    then record v { isr = some virt_addr }
    else if type == 2
    then (let (multiplier, t) = pcie_read_config device v.bus v.dev v.func (cap_ptr + 16) v.trace in
        record v { notify_base = some virt_addr; notify_off_multiplier = multiplier; trace = t })
    else v

unfoldable pub virtio_pci_map_capability : Answers → ℕ → ℕ → ℕ → ℕ → ℕ → Transport → Transport
virtio_pci_map_capability device type bar offset length cap_ptr v =
    let (phys_addr, t) = bar_address device v.bus v.dev v.func (0x10 + bar * 4) v.trace in
    let read = record v { trace = t } in
    let (space', virt_addr) = ioremap (u64 (phys_addr + offset)) length v.space in
    if phys_addr == 0 then read else elim virt_addr [
      | none ↦ record read { space = space' }
      | some a ↦ store_area device type cap_ptr a (record read { space = space' })
    ]

-- What one round of the loop does for the capability at `cap_ptr`, whose first word is `d0`.
unfoldable pub visit : Answers → ℕ → ℕ → Transport → Transport
visit device cap_ptr d0 v =
    let type = bit_and (d0 >>> 24) 0xFF in
    let (d1, t1) = pcie_read_config device v.bus v.dev v.func (cap_ptr + 4) v.trace in
    let bar = bit_and d1 0xFF in
    let (offset, t2) = pcie_read_config device v.bus v.dev v.func (cap_ptr + 8) t1 in
    let (length, t3) = pcie_read_config device v.bus v.dev v.func (cap_ptr + 12) t2 in
    if u8 (bit_and d0 0xFF) == 0x09
    then virtio_pci_map_capability device type bar offset length cap_ptr (record v { trace = t3 })
    else v

-- `while (cap_ptr != 0 && cap_ptr < 0xFF)`, with the rounds that it may take; `none` if they do not
-- suffice.
unfoldable pub cap_loop : ℕ → Answers → ℕ → Transport → Option Transport
cap_loop zero device cap_ptr v = none
cap_loop (suc fuel) device cap_ptr v =
    let (d0, t) = pcie_read_config device v.bus v.dev v.func cap_ptr v.trace in
    elim (not (cap_ptr == 0) && ltb cap_ptr 0xFF) [
      | true ↦
          cap_loop fuel device (u8 (bit_and (d0 >>> 8) 0xFF))
            (visit device cap_ptr d0 (record v { trace = t }))
      | false ↦ some v
    ]

unfoldable pub virtio_pci_cap_lookup : ℕ → Answers → Transport → Option Transport
virtio_pci_cap_lookup fuel device v =
    let (word, t) = pcie_read_config device v.bus v.dev v.func 0x34 v.trace in
    cap_loop fuel device (u8 (bit_and word 0xFF)) (record v { trace = t })

-- The device structure with which the search starts.
abbrev pub unmapped : ℕ → ℕ → ℕ → ℕ → Trace → Space → Transport
unmapped bus dev func multiplier t space = record {
  bus = bus;
  dev = dev;
  func = func;
  common = none;
  device_cfg = none;
  isr = none;
  notify_base = none;
  notify_off_multiplier = multiplier;
  trace = t;
  space = space;
}
