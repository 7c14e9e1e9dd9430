-- ===== src/Net/Virtqueue.antt =====
-- AetherWebOS/src/drivers/virtio/virtio_ring.c: the split virtqueue that the driver and the device
-- share. An array is the function from an index to its entry. Barriers order the accesses, which
-- are made here in the program's order, and are left out, and so is the UART output.
pub mod FreeList
pub mod Reclaim
pub mod Init
pub mod Layout
pub mod Traffic
use aether_webos.Prelude.{
  ℕ, zero, suc, ◌+◌, ◌-◌, ◌*◌, ◌/◌, ◌%◌, ◌^◌, List, [], ◌∷◌, Option, none, some, ◌==◌,
  if◌then◌else◌, bit_and, u16, u32, u64, ◌>>>◌,
}

-- `struct virtq_desc`
pub record Desc : Type 0 where
  pub addr : ℕ
  pub len : ℕ
  pub flags : ℕ
  pub next : ℕ

-- `struct virtq_used_elem`
pub record UsedElem : Type 0 where
  pub id : ℕ
  pub len : ℕ

-- `struct virtqueue` with the three shared areas that it points to.
pub record Virtqueue : Type 0 where
  pub size : ℕ
  pub queue_index : ℕ
  pub desc_at : ℕ
  pub avail_at : ℕ
  pub used_at : ℕ
  pub desc : ℕ → Desc
  pub avail_idx : ℕ
  pub avail_ring : ℕ → ℕ
  pub used_idx : ℕ
  pub used_ring : ℕ → UsedElem
  pub free_head : ℕ
  pub num_free : ℕ
  pub last_used_idx : ℕ

-- `net_stats_t`; the counters are 64 bits wide.
pub record Stats : Type 0 where
  pub rx_packets : ℕ
  pub tx_packets : ℕ
  pub dropped_packets : ℕ
  pub buffer_usage : ℕ
  pub tcp_active : ℕ
  pub retransmissions : ℕ
  pub checksum_errors : ℕ

-- The registers of `struct virtio_pci_common_cfg` that the device keeps for each queue; an address
-- register pair is one number of 64 bits.
pub record QueueRegisters : Type 0 where
  pub queue_size : ℕ
  pub queue_desc : ℕ
  pub queue_avail : ℕ
  pub queue_used : ℕ
  pub queue_enable : ℕ

-- The registers that the queues use, and the doorbell writes in order, newest first: address and
-- value. `notify_off` is the device's register for each queue.
pub record Device : Type 0 where
  pub queue_select : ℕ
  pub queue : ℕ → QueueRegisters
  pub notify_off : ℕ → ℕ
  pub notify_base : ℕ
  pub notify_off_multiplier : ℕ
  pub doorbells : List (ℕ × ℕ)

-- An array with one entry changed.
abbrev pub update {ℓ} : {A : Type ℓ} → (ℕ → A) → ℕ → A → ℕ → A
update f i v j = if i == j then v else f j

abbrev pub no_desc : ℕ
no_desc = 0xFFFF

unfoldable pub virtqueue_notify : ℕ → Device → Device
virtqueue_notify queue_index d =
    let notify_addr =
      u64 (d.notify_base + u32 (d.notify_off queue_index * d.notify_off_multiplier)) in
    record d { queue_select = queue_index; doorbells = (notify_addr, queue_index) ∷ d.doorbells }

-- `for (uint16_t i = 0; i < size - 1; i++) vq->desc[i].next = i + 1;`, with the rounds left.
unfoldable pub link_loop : ℕ → ℕ → (ℕ → Desc) → ℕ → Desc
link_loop zero i desc = desc
link_loop (suc n) i desc =
    link_loop n (u16 (i + 1)) (update desc i (record (desc i) { next = u16 (i + 1) }))

-- `(base + 3) & ~3`
unfoldable pub align4 : ℕ → ℕ
align4 base = bit_and (u64 (base + 3)) (2 ^ 64 - 4)

-- The available ring's index is not written: the ring's memory is zero at the start.
unfoldable pub virtqueue_init : ℕ → ℕ → ℕ → Virtqueue → Virtqueue
virtqueue_init size index p vq =
    let avail_at = p + 16 * size in
    let last = size - 1 in
    let linked = link_loop (size - 1) 0 vq.desc in
    record vq {
      size = size;
      queue_index = index;
      desc_at = p;
      avail_at = avail_at;
      used_at = align4 (avail_at + (2 + 2 + 2 * size + 2));
      desc = update linked last (record (linked last) { next = no_desc });
      free_head = 0;
      num_free = size;
      last_used_idx = 0;
    }

unfoldable pub virtqueue_add_descriptor : ℕ → ℕ → ℕ → Virtqueue → Stats → Virtqueue × Stats × ℕ
virtqueue_add_descriptor virt_addr len flags vq stats =
    let head = vq.free_head in
    if vq.num_free == 0 then (vq, stats, no_desc) else (
      record vq {
        desc =
            update vq.desc head (record { addr = virt_addr; len = len; flags = flags; next = 0 });
        free_head = (vq.desc head).next;
        num_free = u16 (vq.num_free - 1);
      },
      record stats { buffer_usage = u64 (stats.buffer_usage + 1) },
      head,
    )

-- The write of the head and the index, without the notification.
unfoldable pub publish : ℕ → Virtqueue → Virtqueue
publish desc_head vq = record vq {
  avail_ring = update vq.avail_ring (vq.avail_idx % vq.size) desc_head;
  avail_idx = u16 (vq.avail_idx + 1);
}

unfoldable pub virtqueue_push_available : ℕ → Virtqueue → Device → Virtqueue × Device
virtqueue_push_available desc_head vq d = (publish desc_head vq, virtqueue_notify vq.queue_index d)

-- The counters that `virtqueue_pop_used` changes; `buffer_usage--` wraps at 0.
unfoldable pub count_used : ℕ → Stats → Stats
count_used queue_index stats =
    let s = record stats { buffer_usage = u64 (stats.buffer_usage + (2 ^ 64 - 1)) } in
    if queue_index == 0
    then record s { rx_packets = u64 (s.rx_packets + 1) }
    else if queue_index == 1
    then record s { tx_packets = u64 (s.tx_packets + 1) }
    else s

-- The result is the -1 of the code, `none`, or the descriptor's index and the length.
unfoldable pub virtqueue_pop_used : Virtqueue → Stats → Virtqueue × Stats × Option (ℕ × ℕ)
virtqueue_pop_used vq stats =
    let receipt = vq.used_ring (vq.last_used_idx % vq.size) in
    let desc_id = u16 receipt.id in
    if vq.last_used_idx == vq.used_idx then (vq, stats, none) else (
      record vq {
        last_used_idx = u16 (vq.last_used_idx + 1);
        desc = update vq.desc desc_id (record (vq.desc desc_id) { next = vq.free_head });
        free_head = desc_id;
        num_free = u16 (vq.num_free + 1);
      },
      count_used vq.queue_index stats,
      some (desc_id, receipt.len),
    )

-- A register pair for an address, after its two writes.
abbrev pub in_halves : ℕ → ℕ
in_halves addr = bit_and addr 0xFFFFFFFF + u32 (addr >>> 32) * 2 ^ 32

-- `virtio_pci_bind_queue`; the registers written are those of the queue that is selected.
unfoldable pub virtio_pci_bind_queue : Virtqueue → Device → Device
virtio_pci_bind_queue vq d = record d {
  queue_select = vq.queue_index;
  queue = update d.queue vq.queue_index (record {
    queue_size = vq.size;
    queue_desc = in_halves vq.desc_at;
    queue_avail = in_halves vq.avail_at;
    queue_used = in_halves vq.used_at;
    queue_enable = 1;
  });
}
