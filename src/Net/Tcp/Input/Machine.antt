-- ===== src/Net/Tcp/Input/Machine.antt =====
-- The state machine of one connection in AetherWebOS/src/drivers/ethernet/tcp/tcp_input.c, as a
-- relation.
use mathlib.Core.Option
use aether_webos.Prelude.{
  ℕ, ◌≡◌, ◌+◌, Option, none, some, Bool, true, false, length, u32, ◌==◌, ltb, ◌&&◌,
}
use aether_webos.Memory.Heap.{kmalloc}
use aether_webos.Net.Stack.{TcpState, Tcb, Net}
use aether_webos.Net.Tcp.{has, flag_ack, flag_fin, flag_syn, tcb_size, tcp_find_tcb}
use aether_webos.Net.Tcp.Input.{Segment}

-- The state, the next number that is expected, and the last one that the peer acknowledged.
pub record Connection : Type 0 where
  pub state : TcpState
  pub expected : ℕ
  pub acked : ℕ

abbrev pub connection : Tcb → Connection
connection t = record { state = t.state; expected = t.rcv_nxt; acked = t.snd_una }

abbrev pub at_state : TcpState → ℕ → ℕ → Connection
at_state st expected acked = record { state = st; expected = expected; acked = acked }

-- The segment carries data, and starts at the number that is expected.
abbrev pub in_order : Segment → ℕ → Bool
in_order s expected = ltb 0 (length s.payload) && (s.seg_seq == expected)

-- A SYN to the port of the server
abbrev pub wants : Segment → Bool
wants s = has s.flags flag_syn && (s.dst_port == 80)

-- What the segment makes of the connection of its 4-tuple, where `none` is that there is none.
-- `offer` is the number that a new connection starts at, when there is memory for one. The answer
-- to the data of the peer closes the connection from this side, so that LAST_ACK follows
-- ESTABLISHED.
pub data Step (s : Segment) (offer : Option ℕ)
    : Option Connection → Option Connection → Type 0 where
  turns_away : wants s ≡ false → Step s offer none none
  lacks_memory : wants s ≡ true → offer ≡ none → Step s offer none none
  accepts :
      {isn : ℕ}
      → wants s ≡ true
      → offer ≡ some isn
      → Step s offer none (some (at_state TcpState.syn_received (u32 (s.seg_seq + 1)) isn))
  unacknowledged :
      {n a : ℕ}
      → has s.flags flag_ack ≡ false
      → Step s offer
          (some (at_state TcpState.syn_received n a))
          (some (at_state TcpState.syn_received n a))
  opens :
      {n a : ℕ}
      → has s.flags flag_ack ≡ true
      → Step s offer
          (some (at_state TcpState.syn_received n a))
          (some (at_state TcpState.established n s.seg_ack))
  idles :
      {n a : ℕ}
      → in_order s n ≡ false
      → has s.flags flag_fin ≡ false
      → Step s offer
          (some (at_state TcpState.established n a))
          (some (at_state TcpState.established n a))
  answers :
      {n a : ℕ}
      → in_order s n ≡ true
      → has s.flags flag_fin ≡ false
      → Step s offer
          (some (at_state TcpState.established n a))
          (some (at_state TcpState.last_ack (u32 (n + length s.payload)) a))
  finishes :
      {n a : ℕ}
      → has s.flags flag_fin ≡ true
      → Step s offer
          (some (at_state TcpState.established n a))
          (some (at_state TcpState.last_ack (u32 (s.seg_seq + 1)) a))
  lingers :
      {n a : ℕ}
      → has s.flags flag_ack ≡ false
      → Step s offer (some (at_state TcpState.last_ack n a)) (some (at_state TcpState.last_ack n a))
  ends :
      {n a : ℕ}
      → has s.flags flag_ack ≡ true
      → Step s offer (some (at_state TcpState.last_ack n a)) none

-- The connection of the segment's 4-tuple
abbrev pub talk : Segment → Net → Option Connection
talk s net =
    Option.map connection (tcp_find_tcb s.src_ip s.src_port s.dst_ip s.dst_port net.tcp_tcb_list)

-- The initial sequence number, when `kmalloc` has memory for a connection.
abbrev pub offer : Net → Option ℕ
offer net = Option.map (λ (p : ℕ). net.tcp_global_isn) (kmalloc tcb_size net.heap).1
