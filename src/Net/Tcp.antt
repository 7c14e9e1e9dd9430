-- ===== src/Net/Tcp.antt =====
-- AetherWebOS/src/drivers/ethernet/tcp: tcp.c, tcp_output.c and the dispatch of socket.c. A pointer
-- to a connection is its address, and what it points to is the first entry of the list with that
-- address. UART output is left out.
pub mod Http
pub mod Input
pub mod Lists
pub mod Keys
pub mod Others
pub mod Places
pub mod Sent
use aether_webos.Prelude.{
  ℕ, ◌+◌, ◌^◌, List, [], ◌∷◌, ◌++◌, Option, none, some, Bool, true, false, ◌&&◌, ◌||◌, ◌==◌,
  if◌then◌else◌, length, take, bit_and, u16, u32,
}
use aether_webos.Utils.ByteOrder.{htons, htonl, store16, store32}
use aether_webos.Memory.Heap.{kmalloc, kfree}
use aether_webos.Net.Checksum.{tcp_compute_checksum, ip_proto_tcp}
use aether_webos.Net.Virtqueue.{update}
use aether_webos.Net.Stack.{TcpState, Tcb, Net, ipv4_send}
use aether_webos.Net.Tcp.Http.{http_response}

abbrev pub flag_fin : ℕ
flag_fin = 0x01

abbrev pub flag_syn : ℕ
flag_syn = 0x02

abbrev pub flag_rst : ℕ
flag_rst = 0x04

abbrev pub flag_psh : ℕ
flag_psh = 0x08

abbrev pub flag_ack : ℕ
flag_ack = 0x10

abbrev pub default_window : ℕ
default_window = 8192

-- `sizeof(tcp_tcb_t)`
abbrev pub tcb_size : ℕ
tcb_size = 40

abbrev pub has : ℕ → ℕ → Bool
has flags mask = if bit_and flags mask == 0 then false else true

-- What the address points to.
unfoldable pub tcb_at : ℕ → List Tcb → Option Tcb
tcb_at p [] = none
tcb_at p (t ∷ ts) = if t.at == p then some t else tcb_at p ts

unfoldable pub modify : ℕ → (Tcb → Tcb) → List Tcb → List Tcb
modify p f [] = []
modify p f (t ∷ ts) = if t.at == p then f t ∷ ts else t ∷ modify p f ts

abbrev pub on_tcb : ℕ → (Tcb → Tcb) → Net → Net
on_tcb p f net = record net { tcp_tcb_list = modify p f net.tcp_tcb_list }

-- The zeroed connection with the fields that `tcp_allocate_tcb` sets.
abbrev pub new_tcb : ℕ → ℕ → Tcb
new_tcb p ip = record {
  at = p;
  local_ip = ip;
  remote_ip = 0;
  local_port = 0;
  remote_port = 0;
  state = TcpState.closed;
  snd_una = 0;
  snd_nxt = 0;
  rcv_nxt = 0;
  rcv_wnd = default_window;
  snd_wnd = default_window;
}

unfoldable pub tcp_allocate_tcb : Net → Net × Option ℕ
tcp_allocate_tcb net =
    let (heap', allocated) = kmalloc tcb_size net.heap in
    elim allocated [
      | none ↦ (record net { heap = heap' }, none)
      | some p ↦ (
        record net { heap = heap'; tcp_tcb_list = new_tcb p net.aether_ip ∷ net.tcp_tcb_list },
        some p,
      )
    ]

-- The list without the first entry at the address.
unfoldable pub unlink : ℕ → List Tcb → List Tcb
unlink p [] = []
unlink p (t ∷ ts) = if t.at == p then ts else t ∷ unlink p ts

unfoldable pub tcp_remove_tcb : ℕ → Net → Net
tcp_remove_tcb p net = elim (tcb_at p net.tcp_tcb_list) [
  | none ↦ net
  | some t ↦ record net { tcp_tcb_list = unlink p net.tcp_tcb_list; heap = kfree (some p) net.heap }
]

-- The test of `tcp_find_tcb`
unfoldable pub matches : ℕ → ℕ → ℕ → ℕ → Tcb → Bool
matches src_ip src_port dst_ip dst_port t =
    (t.remote_ip == src_ip)
    && (t.remote_port == src_port)
    && (t.local_ip == dst_ip)
    && (t.local_port == dst_port)

unfoldable pub tcp_find_tcb : ℕ → ℕ → ℕ → ℕ → List Tcb → Option Tcb
tcp_find_tcb src_ip src_port dst_ip dst_port [] = none
tcp_find_tcb src_ip src_port dst_ip dst_port (t ∷ ts) =
    if matches src_ip src_port dst_ip dst_port t
    then some t
    else tcp_find_tcb src_ip src_port dst_ip dst_port ts

-- `tcp_hdr_t` up to the checksum field, as it lies in memory.
unfoldable pub header_start : ℕ → ℕ → ℕ → ℕ → ℕ → ℕ → List ℕ
header_start src_port dst_port seq ack flags window =
    store16 (htons src_port)
    ++ (store16 (htons dst_port)
        ++ (store32 (htonl seq)
            ++ (store32 (htonl ack) ++ (0x50 ∷ flags ∷ store16 (htons window)))))

-- The bytes of a segment with its checksum; `urgent_ptr` is 0.
unfoldable pub segment_bytes : ℕ → ℕ → List ℕ → List ℕ → List ℕ
segment_bytes src_ip dst_ip start payload =
    let total_len = u16 (20 + length payload) in
    let checksum =
      tcp_compute_checksum src_ip dst_ip (take total_len (start ++ (0 ∷ 0 ∷ 0 ∷ 0 ∷ payload))) in
    take total_len (start ++ (store16 checksum ++ (0 ∷ 0 ∷ payload)))

-- What SYN or FIN take in the sequence space.
abbrev pub flag_units : ℕ → ℕ
flag_units flags = if bit_and flags 0x03 == 0 then 0 else 1

abbrev pub advance : ℕ → ℕ → Tcb → Tcb
advance flags len t = record t { snd_nxt = u32 (t.snd_nxt + flag_units flags + len) }

-- The buffer is not freed.
unfoldable pub send_from : Tcb → ℕ → List ℕ → Net → Net
send_from t flags payload net =
    let start = header_start t.local_port t.remote_port t.snd_nxt t.rcv_nxt flags t.rcv_wnd in
    let bytes = segment_bytes t.local_ip t.remote_ip start payload in
    let (heap', allocated) = kmalloc (u16 (20 + length payload)) net.heap in
    elim allocated [
      | none ↦ record net { heap = heap' }
      | some buffer ↦ on_tcb t.at (advance flags (length payload)) (
          ipv4_send t.remote_ip ip_proto_tcp bytes
            (record net { heap = heap'; memory = update net.memory buffer bytes }))
    ]

unfoldable pub tcp_send_segment : ℕ → ℕ → List ℕ → Net → Net
tcp_send_segment p flags payload net = elim (tcb_at p net.tcp_tcb_list) [
  | none ↦ net
  | some t ↦ send_from t flags payload net
]

unfoldable pub tcp_send_ack : ℕ → Net → Net
tcp_send_ack p net = tcp_send_segment p flag_ack [] net

-- `TCP_FLAG_SYN | TCP_FLAG_ACK`
unfoldable pub tcp_send_synack : ℕ → Net → Net
tcp_send_synack p net = tcp_send_segment p (flag_syn + flag_ack) [] net

unfoldable pub tcp_send_fin : ℕ → Net → Net
tcp_send_fin p net = tcp_send_segment p (flag_fin + flag_ack) [] net

unfoldable pub tcp_send_rst : ℕ → ℕ → ℕ → ℕ → ℕ → ℕ → Net → Net
tcp_send_rst src_ip dst_ip src_port dst_port seq ack net =
    let start = header_start src_port dst_port seq ack (flag_rst + flag_ack) 0 in
    ipv4_send dst_ip ip_proto_tcp (segment_bytes src_ip dst_ip start []) net

abbrev pub is_established : TcpState → Bool
is_established TcpState.established = true
is_established _ = false

unfoldable pub tcp_send_data : ℕ → List ℕ → Net → Net
tcp_send_data p data_bytes net = elim (tcb_at p net.tcp_tcb_list) [
  | none ↦ net
  | some t ↦
      if is_established t.state
      then tcp_send_segment p (flag_psh + flag_ack) data_bytes net
      else net
]

abbrev pub set_state : TcpState → Tcb → Tcb
set_state s t = record t { state = s }

-- Whether `tcp_close` acts in the state.
abbrev pub closes : TcpState → Bool
closes TcpState.established = true
closes TcpState.close_wait = true
closes _ = false

unfoldable pub tcp_close : ℕ → Net → Net
tcp_close p net = elim (tcb_at p net.tcp_tcb_list) [
  | none ↦ net
  | some t ↦
      if closes t.state then tcp_send_fin p (on_tcb p (set_state TcpState.last_ack) net) else net
]

-- `socket_dispatch`; the payload is only printed.
unfoldable pub socket_dispatch : ℕ → Net → Net
socket_dispatch p net = tcp_close p (tcp_send_data p http_response net)
