-- ===== src/Tests/Net.antt =====
-- AetherWebOS/src/drivers/virtio and AetherWebOS/src/drivers/ethernet on concrete inputs.
use aether_webos.Prelude.{ℕ, ◌≡◌, ◌≢◌, ◌%◌, refl, arith, List, [], ◌∷◌, none, some, true, inl}
use aether_webos.Memory.Heap.{initial}
use aether_webos.Net.Checksum.{ip_proto_tcp}
use aether_webos.Net.Virtqueue.{
  QueueRegisters, Virtqueue, Stats, virtqueue_init, virtqueue_add_descriptor, virtqueue_pop_used,
}
use aether_webos.Net.Virtqueue.FreeList.{Owns, remove, add_descriptor-Owns}
use aether_webos.Net.Virtqueue.Reclaim.{pop_used-Owns}
use aether_webos.Net.Virtqueue.Init.{init-Owns}
use aether_webos.Net.Stack.{Net, ipv4_packet}
use aether_webos.Net.Tcp.Input.{tcp_input_process}
use aether_webos.Net.Ipv4.{ipv4_handle}
use aether_webos.Net.Ipv4.Accept.{ipv4_handle-packet}
use aether_webos.Net.Receive.{Receipts, net_tx_reaper}
use aether_webos.Net.Receive.Reaper.{net_tx_reaper-done}

abbrev no_stats : Stats
no_stats = record {
  rx_packets = 0;
  tx_packets = 0;
  dropped_packets = 0;
  buffer_usage = 0;
  tcp_active = 0;
  retransmissions = 0;
  checksum_errors = 0;
}

abbrev blank : Virtqueue
blank = record {
  size = 0;
  queue_index = 0;
  desc_at = 0;
  avail_at = 0;
  used_at = 0;
  desc = λ i. record { addr = 0; len = 0; flags = 0; next = 0 };
  avail_idx = 0;
  avail_ring = λ i. 0;
  used_idx = 0;
  used_ring = λ i. record { id = 0; len = 60 };
  free_head = 0;
  num_free = 0;
  last_used_idx = 0;
}

abbrev pub two_free : Virtqueue
two_free = virtqueue_init 2 1 0x42000000 blank

pub two_free-Owns : Owns two_free (0 ∷ 1 ∷ []) []
two_free-Owns = init-Owns 2 1 0x42000000 blank (omega arith) (omega arith)

abbrev one_busy : Virtqueue
one_busy = (virtqueue_add_descriptor 0x41000018 60 0 two_free no_stats).0

add_descriptor-Owns_example :
    Owns one_busy (1 ∷ []) (0 ∷ [])
    × ((virtqueue_add_descriptor 0x41000018 60 0 two_free no_stats).2 ≡ 0)
    × (one_busy.desc 0 ≡ record { addr = 0x41000018; len = 60; flags = 0; next = 0 })
    × ((j : ℕ) → 0 ≢ j → one_busy.desc j ≡ two_free.desc j)
add_descriptor-Owns_example =
    add_descriptor-Owns 0x41000018 60 0 0 (1 ∷ []) [] two_free no_stats two_free-Owns

one_busy-Owns : Owns one_busy (1 ∷ []) (0 ∷ [])
one_busy-Owns =
    (add_descriptor-Owns 0x41000018 60 0 0 (1 ∷ []) [] two_free no_stats two_free-Owns).0

abbrev all_busy : Virtqueue
all_busy = (virtqueue_add_descriptor 0x41000100 60 0 one_busy no_stats).0

all_busy-Owns : Owns all_busy [] (1 ∷ 0 ∷ [])
all_busy-Owns =
    (add_descriptor-Owns 0x41000100 60 0 1 [] (0 ∷ []) one_busy no_stats one_busy-Owns).0

-- The device gives descriptor 0 back.
abbrev one_used : Virtqueue
one_used = record {
  size = 2;
  queue_index = 1;
  desc_at = 0;
  avail_at = 0;
  used_at = 0;
  desc = λ i. record { addr = 0x41000018; len = 60; flags = 0; next = 0 };
  avail_idx = 1;
  avail_ring = λ i. 0;
  used_idx = 1;
  used_ring = λ i. record { id = 0; len = 60 };
  free_head = 1;
  num_free = 1;
  last_used_idx = 0;
}

one_used-Owns : Owns one_used (1 ∷ []) (0 ∷ [])
one_used-Owns = record {
  chain = (refl, tt);
  counted = refl;
  whole = refl;
  free_in_range = omega arith;
  busy_in_range = omega arith;
  free_distinct = (tt, tt);
  busy_distinct = (tt, tt);
  apart = (((λ e. absurd (omega arith)), tt), tt);
  size_small = omega arith;
}

pop_used-Owns_example :
    let (vq', stats', used) = virtqueue_pop_used one_used no_stats in
    Owns vq' (0 ∷ 1 ∷ []) (remove 0 (0 ∷ []))
    × (used ≡ some (0, 60))
    × ((j : ℕ) → (vq'.desc j).addr ≡ (one_used.desc j).addr)
pop_used-Owns_example =
    pop_used-Owns 0 (1 ∷ []) (0 ∷ []) one_used no_stats one_used-Owns (λ e. absurd (omega arith))
      refl (inl refl)

-- 10.0.2.15, and its gateway
abbrev pub our_ip : ℕ
our_ip = 0x0A00020F

abbrev pub gateway_ip : ℕ
gateway_ip = 0x0A000202

-- The registers of a queue that is not set up.
abbrev pub no_queue : QueueRegisters
no_queue = record {
  queue_size = 0;
  queue_desc = 0;
  queue_avail = 0;
  queue_used = 0;
  queue_enable = 0;
}

abbrev pub quiet : Net
quiet = record {
  heap = initial;
  memory = λ a. [];
  present = true;
  tx_ready = true;
  rx_queue = one_used;
  tx_queue = one_used;
  rx_base = 0x43000000;
  rx_buffers = λ i. i % 256;
  device = record {
    queue_select = 0;
    queue = λ i. no_queue;
    notify_off = λ i. i;
    notify_base = 0x10003000;
    notify_off_multiplier = 4;
    doorbells = [];
  };
  net_stats = no_stats;
  arp_cache = [];
  tcp_tcb_list = [];
  tcp_global_isn = 1000;
  aether_ip = our_ip;
  aether_mac = 0x52 ∷ 0x54 ∷ 0 ∷ 0 ∷ 0 ∷ 1 ∷ [];
}

-- The device gives one descriptor back before the first round, and another one before the second.
abbrev two_writes : List Receipts
two_writes =
    record { idx = 1; ring = λ i. record { id = 0; len = 60 } }
    ∷ record { idx = 2; ring = λ i. record { id = i; len = 60 } }
    ∷ []

net_tx_reaper-done_example :
    (virtqueue_pop_used (net_tx_reaper two_writes quiet).tx_queue no_stats
      ≡ ((net_tx_reaper two_writes quiet).tx_queue, no_stats, none))
    × ((net_tx_reaper two_writes quiet).tcp_tcb_list ≡ [])
net_tx_reaper-done_example =
    net_tx_reaper-done two_writes quiet no_stats (omega arith) (omega arith, (omega arith, tt))

ipv4_handle-packet_example :
    ipv4_handle (ipv4_packet our_ip ip_proto_tcp (1 ∷ 2 ∷ 3 ∷ []) gateway_ip) quiet
    ≡ tcp_input_process (1 ∷ 2 ∷ 3 ∷ []) gateway_ip our_ip quiet
ipv4_handle-packet_example =
    ipv4_handle-packet gateway_ip our_ip (1 ∷ 2 ∷ 3 ∷ []) quiet refl (omega arith) (omega arith)
      (omega arith)
