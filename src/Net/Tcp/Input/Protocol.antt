-- ===== src/Net/Tcp/Input/Protocol.antt =====
-- One connection of AetherWebOS/src/drivers/ethernet/tcp, as its peer sees it, and what an operation
-- on it makes of that.
use aether_webos.Prelude.{
  ℕ, ◌≡◌, refl, arith, ap, ◌∙◌, List, [], ◌∷◌, Option, none, some, Bool-cases, inl, inr,
  Option-cases, ◌+◌, length, u16, u32, ◌==◌, true, false, if◌then◌else◌,
}
use mathlib.Core.Option
use aether_webos.Memory.Heap.{kmalloc}
use aether_webos.Net.Stack.{TcpState, Tcb, Net}
use aether_webos.Net.Tcp.{
  tcb_at, modify, unlink, on_tcb, set_state, advance, send_from, closes, is_established,
  tcp_send_segment, tcp_send_ack, tcp_send_fin, tcp_send_data, tcp_close, socket_dispatch,
}
use aether_webos.Net.Tcp.Http.{http_response}
use aether_webos.Net.Tcp.Lists.{ipv4_send-tcp_tcb_list, tcb_at-modify, tcb_at-modify-none}
use aether_webos.Net.Tcp.Others.{tcb_at-at}
use aether_webos.Net.Tcp.Input.{Segment, received, expects, take_data, remote_close}
use aether_webos.Net.Tcp.Input.Machine.{Connection, connection, at_state, in_order}

-- The connection at the address, if there is one.
abbrev pub seen : ℕ → Net → Option Connection
seen p net = Option.map connection (tcb_at p net.tcp_tcb_list)

abbrev pub shut : Connection → Connection
shut c = if closes c.state then record c { state = TcpState.last_ack } else c

pub seen-modify :
    (p : ℕ) (f : Tcb → Tcb) (g : Connection → Connection) (net : Net)
    → ((u : Tcb) → (f u).at ≡ u.at)
    → ((u : Tcb) → connection (f u) ≡ g (connection u))
    → seen p (on_tcb p f net) ≡ Option.map g (seen p net)
seen-modify p f g net k h = elim (Option-cases (tcb_at p net.tcp_tcb_list)) [
  | inl e ↦ rw (tcb_at-modify-none p f net.tcp_tcb_list e, e) refl
  | inr (t, e) ↦ rw (tcb_at-modify p f t net.tcp_tcb_list k e, e) (ap some (h t))
]

pub seen-segment :
    (p flags : ℕ) (payload : List ℕ) (net : Net)
    → seen p (tcp_send_segment p flags payload net) ≡ seen p net
unfolding tcp_send_segment send_from
seen-segment p flags payload net = elim (Option-cases (tcb_at p net.tcp_tcb_list)) [
  | inl e ↦ rw (e, tcp_send_segment, e) refl
  | inr (t, e) ↦ elim (Option-cases (kmalloc (u16 (20 + length payload)) net.heap).1) [
    | inl k ↦ rw (e, tcp_send_segment, k, send_from, e) refl
    | inr (b, k) ↦
        rw
          (
            e,
            tcp_send_segment,
            k,
            send_from,
            ipv4_send-tcp_tcb_list,
            tcb_at-at p t net.tcp_tcb_list e,
            tcb_at-modify p (advance flags (length payload)) t net.tcp_tcb_list (λ u. refl) e,
          )
          refl
  ]
]

pub seen-close : (p : ℕ) (net : Net) → seen p (tcp_close p net) ≡ Option.map shut (seen p net)
unfolding tcp_close tcp_send_fin
seen-close p net = elim (Option-cases (tcb_at p net.tcp_tcb_list)) [
  | inl e ↦ rw (e, tcp_close, e) refl
  | inr (t, e) ↦ elim (Bool-cases (closes t.state)) [
    | inl c ↦
        rw (e, tcp_close, c)
          (seen-segment p 17 [] (on_tcb p (set_state TcpState.last_ack) net)
            ∙ seen-modify p (set_state TcpState.last_ack)
                (λ (d : Connection). record d { state = TcpState.last_ack }) net (λ u. refl)
                (λ u. refl)
            ∙ rw (e) refl)
    | inr c ↦ rw (e, tcp_close, c, e) refl
  ]
]

seen-data : (p : ℕ) (bytes : List ℕ) (net : Net) → seen p (tcp_send_data p bytes net) ≡ seen p net
unfolding tcp_send_data
seen-data p bytes net = elim (Option-cases (tcb_at p net.tcp_tcb_list)) [
  | inl e ↦ rw (e, tcp_send_data, e) refl
  | inr (t, e) ↦ elim (Bool-cases (is_established t.state)) [
    | inl c ↦ rw (e, tcp_send_data, c) (seen-segment p 24 bytes net ∙ rw (e) refl)
    | inr c ↦ rw (e, tcp_send_data, c, e) refl
  ]
]

pub seen-socket :
    (p : ℕ) (net : Net) → seen p (socket_dispatch p net) ≡ Option.map shut (seen p net)
unfolding socket_dispatch
seen-socket p net =
    seen-close p (tcp_send_data p http_response net)
    ∙ ap (Option.map shut) (seen-data p http_response net)

-- A change before the removal leaves nothing else at the address.
pub unlink-modify :
    (p : ℕ) (f : Tcb → Tcb) (ts : List Tcb)
    → ((u : Tcb) → (f u).at ≡ u.at)
    → unlink p (modify p f ts) ≡ unlink p ts
unfolding unlink modify
unlink-modify p f [] k = refl
unlink-modify p f (t ∷ ts) k = elim (Bool-cases (t.at == p)) [
  | inl e ↦
      let e' : ((f t).at == p) ≡ true = ground (arith, k t, e) in rw (e, modify, unlink, e') refl
  | inr e ↦ rw (e, modify, unlink, e) (ap (λ us. t ∷ us) (unlink-modify p f ts k))
]

abbrev counted : ℕ → Connection → Connection
counted len c = record c { expected = u32 (c.expected + len) }

pub seen-taken :
    (t : Tcb) (s : Segment) (net : Net)
    → in_order s t.rcv_nxt ≡ true
    → seen t.at (take_data t s net)
      ≡ Option.map shut (Option.map (counted (length s.payload)) (seen t.at net))
unfolding take_data tcp_send_ack
seen-taken t s net e =
    let stored : Net = on_tcb t.at (received (length s.payload)) net in
    rw (e, take_data)
      (seen-segment t.at 16 [] (socket_dispatch t.at stored)
        ∙ seen-socket t.at stored
        ∙ ap (Option.map shut) (
            seen-modify t.at (received (length s.payload)) (counted (length s.payload)) net
              (λ u. refl) (λ u. refl)))

pub untaken :
    (t : Tcb) (s : Segment) (net : Net) → in_order s t.rcv_nxt ≡ false → take_data t s net ≡ net
unfolding take_data
untaken t s net d = rw (d, take_data) refl

pub seen-remote_close :
    (p : ℕ) (s : Segment) (net : Net)
    → seen p (remote_close p s net)
      ≡ Option.map
          (λ (c : Connection). at_state TcpState.last_ack (u32 (s.seg_seq + 1)) c.acked)
          (seen p net)
unfolding remote_close tcp_send_ack
seen-remote_close p s net =
    let expecting : Net = on_tcb p (expects (s.seg_seq + 1)) net in
    let half : Connection → Connection = λ c. record c { state = TcpState.close_wait } in
    let next : Connection → Connection = λ c. record c { expected = u32 (s.seg_seq + 1) } in
    let acked : Net = tcp_send_segment p 16 [] expecting in
    seen-close p (on_tcb p (set_state TcpState.close_wait) acked)
    ∙ ap (Option.map shut)
        (seen-modify p (set_state TcpState.close_wait) half acked (λ u. refl) (λ u. refl))
    ∙ ap (λ o. Option.map shut (Option.map half o))
        (seen-segment p 16 [] expecting
          ∙ seen-modify p (expects (s.seg_seq + 1)) next net (λ u. refl) (λ u. refl))
    ∙ last (seen p net)
  where
    last :
        (o : Option Connection)
        → Option.map shut (
            Option.map
              (λ (c : Connection). record c { state = TcpState.close_wait })
              (Option.map (λ (c : Connection). record c { expected = u32 (s.seg_seq + 1) }) o))
          ≡ Option.map
              (λ (c : Connection). at_state TcpState.last_ack (u32 (s.seg_seq + 1)) c.acked)
              o
    last none = refl
    last (some c) = refl
