-- ===== src/Net/Receive.antt =====
-- The receive path and the reclaiming of sent buffers: `ethernet_handle_packet` of
-- AetherWebOS/src/drivers/ethernet/ethernet.c, `virtio_net_poll` and `net_tx_reaper` of
-- AetherWebOS/src/drivers/virtio/virtio_net.c, AetherWebOS/src/kernel/health.c, and the network part
-- of the loop in AetherWebOS/src/kernel/kernel.c. An IPv6 packet is only printed.
pub mod Reaper
pub mod Round
use aether_webos.Prelude.{
  ℕ, zero, suc, ◌+◌, ◌-◌, ◌*◌, ◌^◌, List, [], ◌∷◌, Option, none, some, Bool, true, false, ◌==◌, ltb,
  if◌then◌else◌, length, drop, u16, u32, u64,
}
use aether_webos.Utils.ByteOrder.{htons, load16}
use aether_webos.Memory.Heap.{Heap, kfree}
use aether_webos.Net.Virtqueue.{
  UsedElem, Virtqueue, Stats, virtqueue_pop_used, virtqueue_add_descriptor,
  virtqueue_push_available,
}
use aether_webos.Net.Stack.{Tcb, Net, eth_type_ipv4}
use aether_webos.Net.Tcp.{is_established}
use aether_webos.Net.Arp.{arp_handle, eth_type_arp}
use aether_webos.Net.Ipv4.{ipv4_handle}

unfoldable pub ethernet_handle_packet : List ℕ → Net → Net
ethernet_handle_packet bytes net =
    let ethertype = htons (load16 bytes 12) in
    if ltb (length bytes) 14
    then net
    else if ethertype == eth_type_arp
    then arp_handle (drop 14 bytes) net
    else if ethertype == eth_type_ipv4
    then ipv4_handle (drop 14 bytes) net
    else net

abbrev pub rx_buf_size : ℕ
rx_buf_size = 2048

-- `n` bytes of memory from an offset on.
unfoldable pub read_bytes : ℕ → ℕ → (ℕ → ℕ) → List ℕ
read_bytes zero from memory = []
read_bytes (suc n) from memory = memory from ∷ read_bytes n (from + 1) memory

-- The frame of a used buffer: it starts 12 bytes in, and 10 bytes are taken from the length.
unfoldable pub received_frame : ℕ → ℕ → Net → List ℕ
received_frame id len net = read_bytes (len - 10) (id * rx_buf_size + 12) net.rx_buffers

-- The count of a packet and its handling; a buffer without data is not handled.
unfoldable pub deliver : List ℕ → Net → Net
deliver [] net = net
deliver (b ∷ bs) net = ethernet_handle_packet (b ∷ bs) (record net {
  net_stats = record (net.net_stats) { rx_packets = u64 (net.net_stats.rx_packets + 1) };
})

-- The buffer goes back to the device, flagged as writable.
unfoldable pub refill : ℕ → Net → Net
refill id net =
    let (vq, stats, head) =
      virtqueue_add_descriptor (net.rx_base + id * rx_buf_size) rx_buf_size 2 net.rx_queue
        net.net_stats in
    let (vq', device') = virtqueue_push_available head vq net.device in
    record net { rx_queue = vq'; net_stats = stats; device = device' }

unfoldable pub virtio_net_poll : Net → Net
virtio_net_poll net =
    let (vq, stats, used) = virtqueue_pop_used net.rx_queue net.net_stats in
    elim used [
      | none ↦ net
      | some (id, len) ↦
          let popped = record net { rx_queue = vq; net_stats = stats } in
          refill id (deliver (received_frame id len popped) popped)
    ]

-- The second change of the counters for a sent packet, after that of `virtqueue_pop_used`.
unfoldable pub count_sent : Stats → Stats
count_sent s = record s { buffer_usage = s.buffer_usage - 1; tx_packets = u64 (s.tx_packets + 1) }

-- One round of the loop of `net_tx_reaper`, when there is a used descriptor.
unfoldable pub reap_one : ℕ → Virtqueue → Stats → Net → Net
reap_one desc_id vq stats net =
    let buffer = (vq.desc desc_id).addr in
    record net {
      tx_queue = vq;
      net_stats = count_sent stats;
      heap = if buffer == 0 then net.heap else kfree (some buffer) net.heap;
    }

unfoldable pub reap_loop : ℕ → Net → Net
reap_loop zero net = net
reap_loop (suc fuel) net =
    let (vq, stats, used) = virtqueue_pop_used net.tx_queue net.net_stats in
    elim used [ none ↦ net | some (desc_id, len) ↦ reap_loop fuel (reap_one desc_id vq stats net) ]

-- The used entries that are not taken yet; their number is kept modulo 2^16.
unfoldable pub pending : Virtqueue → ℕ
pending vq = u16 (vq.used_idx + (2 ^ 16 - vq.last_used_idx))

-- What the device has written to the used ring of the transmit queue when a round reads it.
pub record Receipts : Type 0 where
  pub idx : ℕ
  pub ring : ℕ → UsedElem

abbrev pub receive : Receipts → Net → Net
receive w net = record net {
  tx_queue = record (net.tx_queue) { used_idx = w.idx; used_ring = w.ring };
}

-- The loop reads the index again in each round. The rounds that the device writes before come first,
-- with what they find; after them it writes nothing more while the loop runs.
unfoldable pub net_tx_reaper : List Receipts → Net → Net
net_tx_reaper [] net = reap_loop (pending net.tx_queue) net
net_tx_reaper (w ∷ ws) net =
    let (vq, stats, used) = virtqueue_pop_used (receive w net).tx_queue net.net_stats in
    elim used [
      | none ↦ receive w net
      | some (desc_id, len) ↦ net_tx_reaper ws (reap_one desc_id vq stats (receive w net))
    ]

unfoldable pub count_established : List Tcb → ℕ → ℕ
count_established [] n = n
count_established (t ∷ ts) n =
    count_established ts (if is_established t.state then u32 (n + 1) else n)

unfoldable pub health_update_tcp_stats : Net → Net
health_update_tcp_stats net = record net {
  net_stats = record (net.net_stats) { tcp_active = count_established net.tcp_tcb_list 0 };
}

-- The network part of a round of the kernel's loop, with what the device writes during the reaping.
unfoldable pub network_round : List Receipts → Net → Net
network_round ws net =
    health_update_tcp_stats (if net.present then net_tx_reaper ws (virtio_net_poll net) else net)
