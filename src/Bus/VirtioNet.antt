-- ===== src/Bus/VirtioNet.antt =====
-- The initialisation in AetherWebOS/src/drivers/virtio/virtio_net.c: the handshake over the common
-- configuration area at `common`, and the set-up of both queues. The UART output is left out.
pub mod Protocol
pub mod Agreement
pub mod Ready
use aether_webos.Prelude.{
  ℕ, zero, suc, ◌+◌, ◌*◌, ◌^◌, List, [], ◌∷◌, Option, none, some, Bool, true, false, ◌==◌,
  if◌then◌else◌, bit_and, bit_or, u16, ◌>>>◌,
}
use aether_webos.Net.Virtqueue.{
  Virtqueue, Stats, Device, virtqueue_init, virtqueue_notify, virtio_pci_bind_queue,
}
use aether_webos.Net.Setup.{prefill}
use aether_webos.Bus.{Trace, Answers, mmio_read32, mmio_write32}

-- `while (mmio_read32(addr) != 0);`, with the reads that it may take; `none` if they do not suffice.
unfoldable pub wait_zero : ℕ → Answers → ℕ → Trace → Option Trace
wait_zero zero device addr t = none
wait_zero (suc fuel) device addr t =
    let (val, t') = mmio_read32 device addr t in
    elim (val == 0) [ true ↦ some t' | false ↦ wait_zero fuel device addr t' ]

-- MAC is bit 5, ANY_LAYOUT is bit 27.
unfoldable pub accept_low : ℕ → ℕ
accept_low f0 =
    let accept0 = if bit_and f0 0x20 == 0 then 0 else bit_or 0 0x20 in
    if bit_and f0 0x8000000 == 0 then accept0 else bit_or accept0 0x8000000

-- VERSION_1 is bit 0 of the upper half.
unfoldable pub accept_high : ℕ → ℕ
accept_high f1 = if bit_and f1 1 == 0 then 0 else bit_or 0 1

-- What the handshake comes to.
pub record Handshake : Type 0 where
  pub live : Bool
  pub mac : List ℕ
  pub trace : Trace

unfoldable pub read_mac : Answers → ℕ → Trace → List ℕ × Trace
read_mac device cfg t =
    let (mac_low, t') = mmio_read32 device cfg t in
    let (mac_high, t'') = mmio_read32 device (cfg + 4) t' in
    (
      bit_and (mac_low >>> 0) 0xFF
          ∷ bit_and (mac_low >>> 8) 0xFF
          ∷ bit_and (mac_low >>> 16) 0xFF
          ∷ bit_and (mac_low >>> 24) 0xFF
          ∷ bit_and (mac_high >>> 0) 0xFF
          ∷ bit_and (mac_high >>> 8) 0xFF
          ∷ [],
      t'',
    )

-- Steps 2 and 3, up to the check of FEATURES_OK: its result and the accesses.
unfoldable pub negotiate : Answers → ℕ → Trace → ℕ × Trace
negotiate device common t0 =
    let t1 = mmio_write32 (common + 0x14) 3 t0 in
    let t2 = mmio_write32 (common + 0x00) 0 t1 in
    let (f0, t3) = mmio_read32 device (common + 0x04) t2 in
    let t4 = mmio_write32 (common + 0x00) 1 t3 in
    let (f1, t5) = mmio_read32 device (common + 0x04) t4 in
    let t6 = mmio_write32 (common + 0x08) 0 t5 in
    let t7 = mmio_write32 (common + 0x0C) (accept_low f0) t6 in
    let t8 = mmio_write32 (common + 0x08) 1 t7 in
    let t9 = mmio_write32 (common + 0x0C) (accept_high f1) t8 in
    let t10 = mmio_write32 (common + 0x14) 11 t9 in mmio_read32 device (common + 0x14) t10

-- The handshake after the reset.
unfoldable pub finish_handshake : Answers → ℕ → ℕ → Trace → Handshake
finish_handshake device common cfg t0 =
    let (status, t) = negotiate device common t0 in
    let (mac, t') = read_mac device cfg (mmio_write32 (common + 0x14) 15 t) in
    if bit_and status 8 == 0
    then record { live = false; mac = []; trace = t }
    else record { live = true; mac = mac; trace = t' }

-- `rx_queue`, `tx_queue`, whether the device structure points to them, the queue registers, and the
-- counters.
pub record Queues : Type 0 where
  pub rx_queue : Virtqueue
  pub tx_queue : Virtqueue
  pub rx_set : Bool
  pub tx_set : Bool
  pub device : Device
  pub stats : Stats

unfoldable pub setup_tx_queue : (ℕ → ℕ) → ℕ → Queues → Queues
setup_tx_queue queue_sizes tx_ring_mem q =
    let selected = record q.device { queue_select = 1 } in
    let tx_size = u16 (queue_sizes 1) in
    let tx = virtqueue_init tx_size 1 tx_ring_mem q.tx_queue in
    if tx_size == 0 then record q { device = selected } else record q {
      tx_queue = tx;
      device = virtio_pci_bind_queue tx selected;
      rx_set = true;
      tx_set = true;
    }

-- `queue_sizes` is what the device answers for each queue that is selected.
unfoldable pub virtio_net_setup_queues : (ℕ → ℕ) → ℕ → ℕ → ℕ → Queues → Queues
virtio_net_setup_queues queue_sizes rx_ring_mem tx_ring_mem rx_buffers q =
    let selected = record q.device { queue_select = 0 } in
    let rx_size = u16 (queue_sizes 0) in
    let rx = virtqueue_init rx_size 0 rx_ring_mem q.rx_queue in
    let bound = virtio_pci_bind_queue rx selected in
    let (filled, stats') = prefill rx_size 0 rx_buffers rx q.stats in
    if rx_size == 0
    then record q { device = selected }
    else setup_tx_queue queue_sizes tx_ring_mem (record q {
      rx_queue = filled;
      rx_set = true;
      device = virtqueue_notify 0 bound;
      stats = stats';
    })

-- `fuel` bounds the wait for the reset.
unfoldable pub virtio_net_init :
    ℕ → Answers → (ℕ → ℕ) → ℕ → ℕ → ℕ → ℕ → ℕ → Trace → Queues → Option (Handshake × Queues)
virtio_net_init fuel device queue_sizes rx_ring_mem tx_ring_mem rx_buffers common cfg t q =
    elim (wait_zero fuel device (common + 0x14) (mmio_write32 (common + 0x14) 0 t)) [
      | none ↦ none
      | some t' ↦
          let h = finish_handshake device common cfg t' in
          some (
            h,
            if h.live
                then virtio_net_setup_queues queue_sizes rx_ring_mem tx_ring_mem rx_buffers q
                else q,
          )
    ]
