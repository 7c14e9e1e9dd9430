-- ===== src/Tests/Bus.antt =====
-- The devices of AetherWebOS/src/drivers on concrete inputs.
use aether_webos.Prelude.{
  ℕ, ◌+◌, ◌*◌, ◌%◌, ◌≤◌, ◌<◌, ◌≡◌, ◌↔◌, refl, arith, List, [], ◌∷◌, Option, none, some, true, false,
  ◌==◌, if◌then◌else◌, length, bit_and, u8,
}
use aether_webos.Net.Virtqueue.{QueueRegisters, virtqueue_init}
use aether_webos.Net.Virtqueue.Layout.{virtqueue_init-layout}
use aether_webos.Bus.{Access, Trace, Answers, mmio_read32, mmio_write32}
use aether_webos.Bus.Pcie.{
  Pci, config_offset, pcie_read_config, pcie_write_config, dump_words, dump_rows, pcie_dump_header,
  driver_matches, assign_bar, assign_bars, bind_driver, match_loop, pcie_probe_device, scan_device,
  scan_loop, pcie_init,
}
use aether_webos.Bus.Pcie.Windows.{Placed}
use aether_webos.Bus.Drivers.{Machine, start_driver, pcie_start}
use aether_webos.Bus.Drivers.Search.{pcie_start-windows}
use aether_webos.Bus.VirtioStart.{start_device, virtio_pci_init}
use aether_webos.Memory.Heap.{initial, kmalloc, reuse, bump, align8}
use aether_webos.Memory.Paging.Translate.{IsSpace}
use aether_webos.Bus.VirtioPci.{Transport, unmapped, virtio_pci_cap_lookup, cap_loop}
use aether_webos.Bus.VirtioPci.Walk.{word, Caps, visit_all, cap_lookup_iff}
use aether_webos.Bus.VirtioNet.{
  wait_zero, Handshake, finish_handshake, Queues, virtio_net_setup_queues, virtio_net_init,
}
use aether_webos.Bus.VirtioNet.Protocol.{Phase, observe}
use aether_webos.Bus.VirtioNet.Agreement.{virtio_net_init-obeys}
use aether_webos.Bus.Xhci.{timeout_start, wait_clear, reset_controller}
use aether_webos.Bus.Xhci.Wait.{Clears, reset_requested, reset_controller_iff}
use aether_webos.Tests.Traffic.{zeroed, stats}

-- A network controller in slot 0 with one BAR to assign, and nothing else.
abbrev one_card : Answers
one_card t a = if a == 0x70000000 then 0x10001AF4 else if a == 0x70000010 then 4 else 0

-- One capability of type 1 at 0x40, in BAR 4.
abbrev cfg : ℕ → ℕ
cfg a = if a == 0x70000034 then 0x40 else if a == 0x70000040 then 0x01000009 else 0

abbrev bare : Transport
bare = unmapped 0 0 0 0 [] (record { vmalloc_ptr = 0x80000000; pool = λ i j. 0 })

cap_lookup_iff_example :
    let head = u8 (bit_and (word cfg 0 0 0 0x34) 0xFF) in
    let start = record bare { trace = (pcie_read_config (λ t a. cfg a) 0 0 0 0x34 []).1 } in
    ((is : List ℕ) (fuel : ℕ)
      → Caps cfg 0 0 0 head is
      → length is < fuel
      → virtio_pci_cap_lookup fuel (λ t a. cfg a) bare ≡ some (visit_all (λ t a. cfg a) is start))
    × ((fuel : ℕ) (w : Transport)
        → virtio_pci_cap_lookup fuel (λ t a. cfg a) bare ≡ some w
        → (is : List ℕ) × (length is < fuel) × Caps cfg 0 0 0 head is)
cap_lookup_iff_example = cap_lookup_iff (λ t a. cfg a) cfg bare (λ t a. refl)

-- A device whose registers hold what was written last.
abbrev echo : Answers
echo [] a = 0x08000021
echo (Access.read b val ∷ t) a = echo t a
echo (Access.write b val ∷ t) a = if a == b then val else echo t a

abbrev no_queue : QueueRegisters
no_queue = record {
  queue_size = 0;
  queue_desc = 0;
  queue_avail = 0;
  queue_used = 0;
  queue_enable = 0;
}

abbrev idle_queues : Queues
idle_queues = record {
  rx_queue = zeroed;
  tx_queue = zeroed;
  rx_set = false;
  tx_set = false;
  device = record {
    queue_select = 0;
    queue = λ i. no_queue;
    notify_off = λ i. i;
    notify_base = 0x80003000;
    notify_off_multiplier = 4;
    doorbells = [];
  };
  stats = stats;
}

abbrev was_reset : Trace
was_reset = Access.read 0x80001014 0 ∷ Access.write 0x80001014 0 ∷ []

abbrev shaken : Handshake
shaken = finish_handshake echo 0x80001000 0x80002000 was_reset

abbrev queues_after : Queues
queues_after =
    if shaken.live
    then virtio_net_setup_queues (λ i. 2) 0x42000000 0x42004000 0x43000000 idle_queues
    else idle_queues

runs :
    virtio_net_init 2 echo
      (λ i. 2)
      0x42000000
      0x42004000
      0x43000000
      0x80001000
      0x80002000
      []
      idle_queues
    ≡ some (shaken, queues_after)
unfolding virtio_net_init wait_zero mmio_read32 mmio_write32
runs = refl

virtio_net_init-obeys_example :
    (observe 0x80001000 shaken.trace).phase ≡ (if shaken.live then Phase.live else Phase.refused)
virtio_net_init-obeys_example =
    virtio_net_init-obeys 2 echo (λ i. 2) 0x42000000 0x42004000 0x43000000 0x80001000 0x80002000 []
      idle_queues queues_after shaken runs

virtqueue_init-layout_example :
    let queue = virtqueue_init 256 0 0x42000000 zeroed in
    (queue.desc_at ≡ 0x42000000)
    × (queue.desc_at + 16 * 256 ≤ queue.avail_at)
    × (queue.avail_at + 6 + 2 * 256 ≤ queue.used_at)
    × (queue.used_at + 6 + 8 * 256 ≤ 0x42000000 + 4 * 4096)
    × (queue.desc_at % 16 ≡ 0)
    × (queue.avail_at % 2 ≡ 0)
    × (queue.used_at % 4 ≡ 0)
virtqueue_init-layout_example =
    virtqueue_init-layout 256 0 0x42000000 zeroed (omega arith) refl (omega arith)

-- A controller whose registers all read 0.
abbrev ready_now : Answers
ready_now t a = 0

reset_controller_iff_example :
    let requested = reset_requested ready_now 0x80000020 [] in
    let after = (wait_clear timeout_start ready_now (0x80000020 + 0x00) 2 requested).1 in
    ((reset_controller ready_now 0x80000020 []).0 ≡ true) ↔ (
      Clears timeout_start ready_now (0x80000020 + 0x00) 2 requested
      × Clears timeout_start ready_now (0x80000020 + 0x04) 0x800 after)
reset_controller_iff_example = reset_controller_iff ready_now 0x80000020 []

-- The network driver finds no capability on that card.
abbrev machine : Machine
machine = record {
  space = record { vmalloc_ptr = 0x80000000; pool = λ i j. 0 };
  started = record {
    heap = initial;
    global_vnet_dev = none;
    transport = none;
    handshake = none;
    queues = idle_queues;
  };
}

abbrev found : Option (Pci Machine)
found =
    pcie_start 1 one_card (λ i. 0) 0 0 0 0
      (record {
        next_pci_mem_addr = 0x10000000;
        total_pci_devices = 0;
        trace = [];
        drivers = machine;
      })

abbrev pci_or : Pci Machine → Option (Pci Machine) → Pci Machine
pci_or p none = p
pci_or p (some q) = q

abbrev searched : Pci Machine
searched =
    pci_or (record { next_pci_mem_addr = 0; total_pci_devices = 0; trace = []; drivers = machine })
      found

comes-back : found ≡ some searched
unfolding pcie_start pcie_init scan_loop scan_device pcie_probe_device match_loop bind_driver
    assign_bars assign_bar pcie_read_config pcie_write_config mmio_read32 mmio_write32 config_offset
    driver_matches pcie_dump_header dump_rows dump_words start_driver virtio_pci_init
    virtio_pci_cap_lookup cap_loop start_device kmalloc reuse bump align8 initial
comes-back = refl

machine-IsSpace : IsSpace machine.space
machine-IsSpace = omega arith

pcie_start-windows_example : Placed 192 searched × IsSpace searched.drivers.space
pcie_start-windows_example =
    pcie_start-windows 1 one_card (λ i. 0) 0 0 0 0 0 machine searched machine-IsSpace comes-back
