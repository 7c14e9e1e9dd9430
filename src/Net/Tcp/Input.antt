-- ===== src/Net/Tcp/Input.antt =====
-- AetherWebOS/src/drivers/ethernet/tcp/tcp_input.c
pub mod Open
pub mod Machine
pub mod Protocol
pub mod Steps
pub mod States
pub mod Unique
pub mod Isolation
use aether_webos.Prelude.{
  ℕ, ◌+◌, ◌-◌, ◌*◌, ◌^◌, List, [], ◌∷◌, Option, none, some, Bool, true, false, ◌&&◌, ◌||◌, ◌==◌,
  ltb, if◌then◌else◌, length, get_or, drop, bit_and, u8, u16, u32, ◌>>>◌,
}
use aether_webos.Utils.ByteOrder.{ntohs, ntohl, load16, load32}
use aether_webos.Net.Checksum.{tcp_validate_checksum}
use aether_webos.Net.Stack.{TcpState, Tcb, Net}
use aether_webos.Net.Tcp.{
  flag_fin, flag_syn, flag_rst, flag_ack, has, on_tcb, set_state, tcp_allocate_tcb, tcp_remove_tcb,
  tcp_find_tcb, tcp_send_ack, tcp_send_synack, tcp_send_rst, tcp_close, socket_dispatch,
}

-- The fields that are extracted from the header, in host order.
pub record Segment : Type 0 where
  pub src_ip : ℕ
  pub dst_ip : ℕ
  pub src_port : ℕ
  pub dst_port : ℕ
  pub seg_seq : ℕ
  pub seg_ack : ℕ
  pub flags : ℕ
  pub payload : List ℕ

unfoldable pub data_offset : List ℕ → ℕ
data_offset segment = u8 ((get_or segment 12 0 >>> 4) * 4)

unfoldable pub parse : List ℕ → ℕ → ℕ → Segment
parse segment src_ip dst_ip = record {
  src_ip = src_ip;
  dst_ip = dst_ip;
  src_port = ntohs (load16 segment 0);
  dst_port = ntohs (load16 segment 2);
  seg_seq = ntohl (load32 segment 4);
  seg_ack = ntohl (load32 segment 8);
  flags = get_or segment 13 0;
  payload = drop (data_offset segment) segment;
}

-- The fields that a new connection gets.
abbrev pub opened : Segment → ℕ → Tcb → Tcb
opened s isn t = record t {
  remote_ip = s.src_ip;
  remote_port = s.src_port;
  local_port = s.dst_port;
  local_ip = s.dst_ip;
  rcv_nxt = u32 (s.seg_seq + 1);
  snd_una = isn;
  snd_nxt = isn;
  state = TcpState.syn_received;
}

-- A segment that belongs to no connection.
unfoldable pub passive_open : Segment → Net → Net
passive_open s net =
    let (allocated, p) = tcp_allocate_tcb net in
    if has s.flags flag_syn && (s.dst_port == 80)
    then elim p [
      | none ↦ allocated
      | some tcb ↦
          let isn = allocated.tcp_global_isn in
          tcp_send_synack tcb
            (on_tcb tcb (opened s isn) (record allocated { tcp_global_isn = u32 (isn + 1000) }))
    ]
    else tcp_send_rst s.dst_ip s.src_ip s.dst_port s.src_port s.seg_ack 0 net

abbrev pub acknowledged : ℕ → Tcb → Tcb
acknowledged seg_ack t = record t { snd_una = seg_ack; state = TcpState.established }

abbrev pub received : ℕ → Tcb → Tcb
received len t = record t { rcv_nxt = u32 (t.rcv_nxt + len) }

abbrev pub expects : ℕ → Tcb → Tcb
expects seq t = record t { rcv_nxt = u32 seq }

-- The data of a segment in ESTABLISHED; the old `t` is read before any change.
unfoldable pub take_data : Tcb → Segment → Net → Net
take_data t s net =
    if ltb 0 (length s.payload) && (s.seg_seq == t.rcv_nxt)
    then tcp_send_ack t.at (socket_dispatch t.at (on_tcb t.at (received (length s.payload)) net))
    else net

unfoldable pub remote_close : ℕ → Segment → Net → Net
remote_close p s net = tcp_close p (
    on_tcb p (set_state TcpState.close_wait)
      (tcp_send_ack p (on_tcb p (expects (s.seg_seq + 1)) net)))

-- The state machine for a segment of the connection `t`, whose state is the first argument.
unfoldable pub in_state : TcpState → Tcb → Segment → Net → Net
in_state TcpState.syn_received t s net =
    if has s.flags flag_ack then on_tcb t.at (acknowledged s.seg_ack) net else net
in_state TcpState.established t s net =
    let after = take_data t s net in
    if has s.flags flag_fin then remote_close t.at s after else after
in_state TcpState.last_ack t s net =
    if has s.flags flag_ack
    then tcp_remove_tcb t.at (on_tcb t.at (set_state TcpState.closed) net)
    else net
in_state _ t s net = if has s.flags flag_rst then tcp_remove_tcb t.at net else net

-- The segment is dropped before it reaches a connection.
unfoldable pub dropped : List ℕ → ℕ → ℕ → Bool
dropped segment src_ip dst_ip =
    ltb (length segment) 20
    || ltb (data_offset segment) 20
    || ltb (length segment) (data_offset segment)
    || (if tcp_validate_checksum src_ip dst_ip segment then false else true)

unfoldable pub dispatch : Segment → Net → Net
dispatch s net = elim (tcp_find_tcb s.src_ip s.src_port s.dst_ip s.dst_port net.tcp_tcb_list) [
  | none ↦ passive_open s net
  | some t ↦ in_state t.state t s net
]

unfoldable pub tcp_input_process : List ℕ → ℕ → ℕ → Net → Net
tcp_input_process segment src_ip dst_ip net =
    if dropped segment src_ip dst_ip then net else dispatch (parse segment src_ip dst_ip) net
