-- ===== src/Net/Stack.antt =====
-- The state of the network stack, and how a packet leaves it: `ethernet_send` of
-- AetherWebOS/src/drivers/ethernet/ethernet.c and `ipv4_send` of
-- AetherWebOS/src/drivers/ethernet/ipv4.c. Cache maintenance and UART output are left out.
use aether_webos.Prelude.{
  ℕ, ◌+◌, List, [], ◌∷◌, ◌++◌, none, some, Bool, ◌&&◌, if◌then◌else◌, length, replicate, u16, u32,
}
use aether_webos.Utils.ByteOrder.{htons, htonl, store16, store32}
use aether_webos.Memory.Heap.{Heap, kmalloc, kfree}
use aether_webos.Net.Checksum.{ipv4_checksum}
use aether_webos.Net.Virtqueue.{
  Virtqueue, Stats, Device, update, virtqueue_add_descriptor, virtqueue_push_available,
}

-- `tcp_state_t`
pub data TcpState : Type 0 where
  closed : TcpState
  listen : TcpState
  syn_received : TcpState
  established : TcpState
  close_wait : TcpState
  last_ack : TcpState
  time_wait : TcpState

-- `tcp_tcb_t`, with its own address; `next` is the place in the list.
pub record Tcb : Type 0 where
  pub at : ℕ
  pub local_ip : ℕ
  pub remote_ip : ℕ
  pub local_port : ℕ
  pub remote_port : ℕ
  pub state : TcpState
  pub snd_una : ℕ
  pub snd_nxt : ℕ
  pub rcv_nxt : ℕ
  pub rcv_wnd : ℕ
  pub snd_wnd : ℕ

-- `struct arp_entry`
pub record ArpEntry : Type 0 where
  pub ip : ℕ
  pub mac : List ℕ

-- The variables of the stack. `present` is `global_vnet_dev != NULL` and `tx_ready` is
-- `tx_vq != NULL`; `memory` holds the bytes written to an allocated buffer, by its address;
-- `rx_buffers` is the receive memory at `rx_base`, byte by byte.
pub record Net : Type 0 where
  pub heap : Heap
  pub memory : ℕ → List ℕ
  pub present : Bool
  pub tx_ready : Bool
  pub rx_queue : Virtqueue
  pub tx_queue : Virtqueue
  pub rx_base : ℕ
  pub rx_buffers : ℕ → ℕ
  pub device : Device
  pub net_stats : Stats
  pub arp_cache : List ArpEntry
  pub tcp_tcb_list : List Tcb
  pub tcp_global_isn : ℕ
  pub aether_ip : ℕ
  pub aether_mac : List ℕ

-- `struct virtio_net_hdr` of zeros, `struct eth_header` and the payload.
unfoldable pub frame : List ℕ → List ℕ → ℕ → List ℕ → List ℕ
frame dest_mac src_mac ethertype payload =
    replicate 10 0 ++ (dest_mac ++ (src_mac ++ (store16 (htons ethertype) ++ payload)))

-- The buffer at `buffer` is filled, added to the transmit queue and published. The head is
-- published as it comes, also when the queue is full.
unfoldable pub enqueue : ℕ → List ℕ → Net → Net
enqueue buffer bytes net =
    let (vq, stats, head) =
      virtqueue_add_descriptor buffer (u32 (length bytes)) 0 net.tx_queue net.net_stats in
    let (vq', device') = virtqueue_push_available head vq net.device in
    record net {
      memory = update net.memory buffer bytes;
      tx_queue = vq';
      net_stats = stats;
      device = device';
    }

unfoldable pub ethernet_send : List ℕ → ℕ → List ℕ → Net → Net
ethernet_send dest_mac ethertype payload net =
    let bytes = frame dest_mac net.aether_mac ethertype payload in
    let (heap', allocated) = kmalloc (u32 (length bytes)) net.heap in
    if net.present && net.tx_ready
    then elim allocated [
      | none ↦ record net { heap = heap' }
      | some buffer ↦ enqueue buffer bytes (record net { heap = heap' })
    ]
    else net

-- `struct ipv4_header` with 20 bytes, the given checksum field in memory order.
unfoldable pub ipv4_header : ℕ → ℕ → ℕ → ℕ → ℕ → List ℕ
ipv4_header total_len protocol checksum src_ip dest_ip =
    0x45 ∷ 0 ∷ store16 (htons (u16 total_len))
    ++ (store16 (htons 1)
        ++ (store16 (htons 0)
            ++ (64 ∷ protocol ∷ store16 checksum
                ++ (store32 (htonl src_ip) ++ store32 (htonl dest_ip)))))

unfoldable pub ipv4_packet : ℕ → ℕ → List ℕ → ℕ → List ℕ
ipv4_packet dst_ip protocol payload src_ip =
    let total_len = u32 (20 + length payload) in
    let checksum = ipv4_checksum (ipv4_header total_len protocol 0 src_ip dst_ip) in
    ipv4_header total_len protocol checksum src_ip dst_ip ++ payload

abbrev pub eth_type_ipv4 : ℕ
eth_type_ipv4 = 0x0800

abbrev pub gateway_mac : List ℕ
gateway_mac = 0x52 ∷ 0x54 ∷ 0x00 ∷ 0x12 ∷ 0x34 ∷ 0x56 ∷ []

-- The packet is freed when `ethernet_send` has copied it.
unfoldable pub ipv4_send : ℕ → ℕ → List ℕ → Net → Net
ipv4_send dst_ip protocol payload net =
    let bytes = ipv4_packet dst_ip protocol payload net.aether_ip in
    let (heap', allocated) = kmalloc (u32 (20 + length payload)) net.heap in
    if net.present
    then elim allocated [
      | none ↦ record net { heap = heap' }
      | some pkt ↦
          let built = record net { heap = heap'; memory = update net.memory pkt bytes } in
          let sent = ethernet_send gateway_mac eth_type_ipv4 bytes built in
          record sent { heap = kfree (some pkt) sent.heap }
    ]
    else net
