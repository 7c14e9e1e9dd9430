-- ===== src/Earlier/Tcp.antt =====
-- AetherWebOS/backups/src/tcp.c and AetherWebOS/backups/src/socket.c. The calls of `ipv4_send` are kept, newest
-- first, what it does by itself is left out, and the UART output is left out.
pub mod AfterFin
pub mod Endpoints
pub mod Kept
pub mod Runs
pub mod LastAck
pub mod Sending
use aether_webos.Prelude.{
  ℕ, zero, suc, ◌+◌, ◌-◌, ◌*◌, ◌^◌, List, [], ◌∷◌, ◌++◌, Option, none, some, Bool, true, false, not,
  ◌&&◌, ◌==◌, ltb, leb, if◌then◌else◌, length, get_or, take, drop, bit_and, u16, u32, ◌>>>◌,
}
use aether_webos.Utils.ByteOrder.{htons, ntohs, htonl, ntohl, store16, store32, load16, load32}
use aether_webos.Utils.Text.{str_contains}
use aether_webos.Utils.Format.{Arg, ksnprintf}
use aether_webos.Memory.Heap.{Heap, kmalloc, kfree}
use aether_webos.Net.Tcp.{has, flag_fin, flag_syn, flag_rst, flag_psh, flag_ack}
use aether_webos.Earlier.Table.{
  State, Slot, is_established, is_syn_rcvd, slot_at, on_slot, tcp_allocate_tcb, tcp_find_tcb,
}
use aether_webos.Earlier.Checksum.{tcp_checksum, tcp_validate_checksum}

-- The handlers that a listener can have.
pub data Handler : Type 0 where
  portal_socket_wrapper_fn : Handler

-- The table, the listeners, the clock, the page, our address, the heap, and what was sent: the
-- address and the segment.
pub record Stack : Type 0 where
  pub tcb_table : List Slot
  pub listeners : List (ℕ × Handler)
  pub uptime_ms : ℕ
  pub aether_index_html : List ℕ
  pub aether_ip : ℕ
  pub heap : Heap
  pub sent : List (ℕ × List ℕ)

abbrev pub on_tcb : ℕ → (Slot → Slot) → Stack → Stack
on_tcb i f s = record s { tcb_table = on_slot i f s.tcb_table }

abbrev pub touched : ℕ → Slot → Slot
touched now t = record t { last_activity = now }

abbrev pub sent_on : ℕ → ℕ → Slot → Slot
sent_on now len t = record t { snd_nxt = u32 (t.snd_nxt + len); last_activity = now }

abbrev pub set_state : State → Slot → Slot
set_state state t = record t { state = state }

abbrev pub received : ℕ → Slot → Slot
received len t = record t { rcv_nxt = u32 (t.rcv_nxt + len) }

-- The header up to the checksum.
unfoldable pub header_start : ℕ → ℕ → Slot → ℕ → List ℕ
header_start src_port dest_port t flags =
    store16 (htons src_port)
    ++ (store16 (htons dest_port)
        ++ (store32 (htonl t.snd_nxt)
            ++ (store32 (htonl t.rcv_nxt) ++ (0x50 ∷ flags ∷ store16 (htons t.rcv_wnd)))))

-- The segment with its checksum; `dst_ip` goes into the pseudo header.
unfoldable pub segment_bytes : ℕ → ℕ → List ℕ → List ℕ → List ℕ
segment_bytes src_ip dst_ip start payload =
    let checksum =
      tcp_checksum (htonl src_ip) (htonl dst_ip) (start ++ (0 ∷ 0 ∷ 0 ∷ 0 ∷ [])) payload in
    start ++ (store16 checksum ++ (0 ∷ 0 ∷ payload))

abbrev pub ipv4_sends : ℕ → List ℕ → Stack → Stack
ipv4_sends dst_ip bytes s = record s { sent = (dst_ip, bytes) ∷ s.sent }

-- A header without data from the connection `t` is sent from one port to the other.
unfoldable pub send_header : ℕ → ℕ → ℕ → ℕ → Slot → Stack → Stack
send_header dst_ip dst_port src_port flags t s =
    ipv4_sends dst_ip (segment_bytes s.aether_ip dst_ip (header_start src_port dst_port t flags) [])
      s

unfoldable pub tcp_send_synack : ℕ → Stack → Stack
tcp_send_synack i s = elim (slot_at i s.tcb_table) [
  | none ↦ s
  | some t ↦
      on_tcb i (sent_on s.uptime_ms 1)
        (send_header t.remote_ip t.remote_port t.local_port (flag_syn + flag_ack) t s)
]

unfoldable pub tcp_send_ack : ℕ → Stack → Stack
tcp_send_ack i s = elim (slot_at i s.tcb_table) [
  | none ↦ s
  | some t ↦
      on_tcb i (touched s.uptime_ms)
        (send_header t.remote_ip t.remote_port t.local_port flag_ack t s)
]

-- The connection that an address and a port lead to, if it is in ESTABLISHED.
unfoldable pub open_slot : ℕ → ℕ → List Slot → Option (ℕ × Slot)
open_slot dst_ip dst_port table = elim (tcp_find_tcb dst_ip dst_port table) [
  | none ↦ none
  | some i ↦ elim (slot_at i table) [
    | none ↦ none
    | some t ↦ if is_established t.state then some (i, t) else none
  ]
]

unfoldable pub tcp_send_data : ℕ → ℕ → ℕ → List ℕ → Stack → Stack
tcp_send_data dst_ip dst_port src_port bytes s = elim (open_slot dst_ip dst_port s.tcb_table) [
  | none ↦ s
  | some (i, t) ↦
      let (heap', allocated) = kmalloc (20 + length bytes) s.heap in
      let start = header_start src_port dst_port t (flag_ack + flag_psh) in
      elim allocated [
        | none ↦ record s { heap = heap' }
        | some p ↦ on_tcb i (sent_on s.uptime_ms (length bytes)) (
            ipv4_sends dst_ip (segment_bytes s.aether_ip dst_ip start bytes)
              (record s { heap = kfree (some p) heap' }))
      ]
]

-- What the sending of a FIN does to the connection.
abbrev pub finished : ℕ → Slot → Slot
finished now t = record t {
  snd_nxt = u32 (t.snd_nxt + 1);
  state = State.last_ack;
  last_activity = now;
}

unfoldable pub tcp_send_fin : ℕ → ℕ → ℕ → Stack → Stack
tcp_send_fin dst_ip dst_port src_port s = elim (open_slot dst_ip dst_port s.tcb_table) [
  | none ↦ s
  | some (i, t) ↦
      on_tcb i (finished s.uptime_ms)
        (send_header dst_ip dst_port src_port (flag_fin + flag_ack) t s)
]

-- "GET "
abbrev get_text : List ℕ
get_text = 71 ∷ 69 ∷ 84 ∷ 32 ∷ []

-- The format of the header.
abbrev header_text : List ℕ
header_text =
    72 ∷ 84 ∷ 84 ∷ 80 ∷ 47 ∷ 49 ∷ 46 ∷ 48 ∷ 32 ∷ 50 ∷ 48 ∷ 48 ∷ 32 ∷ 79 ∷ 75 ∷ 13 ∷ 10 ∷ 67 ∷ 111
    ∷ 110 ∷ 116 ∷ 101 ∷ 110 ∷ 116 ∷ 45 ∷ 76 ∷ 101 ∷ 110 ∷ 103 ∷ 116 ∷ 104 ∷ 58 ∷ 32 ∷ 37 ∷ 117 ∷ 13
    ∷ 10 ∷ 67 ∷ 111 ∷ 110 ∷ 110 ∷ 101 ∷ 99 ∷ 116 ∷ 105 ∷ 111 ∷ 110 ∷ 58 ∷ 32 ∷ 99 ∷ 108 ∷ 111 ∷ 115
    ∷ 101 ∷ 13 ∷ 10 ∷ 67 ∷ 111 ∷ 110 ∷ 116 ∷ 101 ∷ 110 ∷ 116 ∷ 45 ∷ 84 ∷ 121 ∷ 112 ∷ 101 ∷ 58 ∷ 32
    ∷ 116 ∷ 101 ∷ 120 ∷ 116 ∷ 47 ∷ 104 ∷ 116 ∷ 109 ∷ 108 ∷ 13 ∷ 10 ∷ 13 ∷ 10 ∷ []

-- The page in answer to a payload that contains "GET ". The payload is taken to be followed by a
-- NUL, which C does not guarantee.
unfoldable pub portal_socket_wrapper : List ℕ → ℕ → ℕ → Stack → Stack
portal_socket_wrapper bytes src_ip src_port s =
    if length bytes == 0
    then s
    else elim (str_contains (some (bytes ++ 0 ∷ [])) (some (get_text ++ 0 ∷ []))) [
      | some true ↦ elim (ksnprintf 256 header_text (Arg.uint (length s.aether_index_html) ∷ [])) [
        | none ↦ s
        | some header ↦ tcp_send_fin src_ip src_port 80 (
            tcp_send_data src_ip src_port 80 s.aether_index_html
              (tcp_send_data src_ip src_port 80 header s))
      ]
      | _ ↦ s
    ]

unfoldable pub socket_lookup : ℕ → List (ℕ × Handler) → Option Handler
socket_lookup port [] = none
socket_lookup port ((p, h) ∷ rest) =
    let found = socket_lookup port rest in if p == port then some h else found

-- The result is whether there was room for the listener.
unfoldable pub socket_register : ℕ → Handler → List (ℕ × Handler) → List (ℕ × Handler) × Bool
socket_register port handler listeners =
    if leb 16 (length listeners)
    then (listeners, false)
    else (listeners ++ (port, handler) ∷ [], true)

unfoldable pub socket_init : List (ℕ × Handler)
socket_init = (socket_register 80 Handler.portal_socket_wrapper_fn []).0

unfoldable pub socket_handle_packet : ℕ → List ℕ → ℕ → ℕ → Stack → Stack
socket_handle_packet dst_port bytes src_ip src_port s = elim (socket_lookup dst_port s.listeners) [
  | none ↦ s
  | some portal_socket_wrapper_fn ↦ portal_socket_wrapper bytes src_ip src_port s
]

-- The fields of a segment that `tcp_handle` extracts.
pub record Segment : Type 0 where
  pub src_port : ℕ
  pub dest_port : ℕ
  pub seq : ℕ
  pub ack : ℕ
  pub flags : ℕ
  pub payload : List ℕ

unfoldable pub header_len : List ℕ → ℕ
header_len segment = (get_or segment 12 0 >>> 4) * 4

unfoldable pub parse : List ℕ → Segment
parse segment = record {
  src_port = ntohs (load16 segment 0);
  dest_port = ntohs (load16 segment 2);
  seq = ntohl (load32 segment 4);
  ack = ntohl (load32 segment 8);
  flags = get_or segment 13 0;
  payload = drop (header_len segment) segment;
}

-- The fields of a new connection.
abbrev pub opened : ℕ → Segment → ℕ → Slot → Slot
opened src_ip g now t = record t {
  remote_ip = src_ip;
  remote_port = g.src_port;
  local_port = g.dest_port;
  snd_nxt = 0;
  rcv_nxt = u32 (g.seq + 1);
  rcv_wnd = 8192;
  state = State.syn_rcvd;
  last_activity = now;
}

-- A segment that belongs to no connection.
unfoldable pub open_connection : ℕ → Segment → Stack → Stack
open_connection src_ip g s =
    let (table, slot) = tcp_allocate_tcb s.uptime_ms s.tcb_table in
    if has g.flags flag_syn && not (has g.flags flag_ack) && (g.dest_port == 80)
    then elim slot [
      | none ↦ s
      | some i ↦
          tcp_send_synack i
            (on_tcb i (opened src_ip g s.uptime_ms) (record s { tcb_table = table }))
    ]
    else s

-- Data in ESTABLISHED.
unfoldable pub take_payload : ℕ → ℕ → Segment → Slot → Stack → Stack
take_payload i src_ip g t s =
    if g.seq == t.rcv_nxt
    then socket_handle_packet g.dest_port g.payload src_ip g.src_port
        (tcp_send_ack i (on_tcb i (received (length g.payload)) s))
    else s

-- What `tcp_handle` does for the connection `i`, which is `t` and was just touched.
unfoldable pub on_segment : ℕ → ℕ → Segment → Slot → Stack → Stack
on_segment i src_ip g t s =
    if is_syn_rcvd t.state
      && has g.flags flag_ack
      && not (has g.flags flag_syn)
      && (g.ack == t.snd_nxt)
    then on_tcb i (set_state State.established) s
    else if is_established t.state && ltb 0 (length g.payload)
    then take_payload i src_ip g t s
    else if has g.flags flag_fin && is_established t.state
    then on_tcb i (set_state State.close_wait) (tcp_send_ack i (on_tcb i (received 1) s))
    else if has g.flags flag_rst
    then on_tcb i (set_state State.closed) s
    else s

unfoldable pub deliver : ℕ → Segment → Stack → Stack
deliver src_ip g s = elim (tcp_find_tcb src_ip g.src_port s.tcb_table) [
  | none ↦ open_connection src_ip g s
  | some i ↦ elim (slot_at i s.tcb_table) [
    | none ↦ s
    | some t ↦ on_segment i src_ip g (touched s.uptime_ms t) (on_tcb i (touched s.uptime_ms) s)
  ]
]

unfoldable pub tcp_handle : List ℕ → ℕ → ℕ → Stack → Stack
tcp_handle segment src_ip dest_ip s =
    let payload = drop (header_len segment) segment in
    if ltb (length segment) 20
    then s
    else if ltb (length segment) (header_len segment)
    then s
    else if tcp_validate_checksum (htonl src_ip) (htonl dest_ip) (take 20 segment) payload
    then deliver src_ip (parse segment) s
    else s
