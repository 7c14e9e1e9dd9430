-- ===== src/Net/Tcp/Input/States.antt =====
-- The states of the connections between two calls of `tcp_input_process`
-- (AetherWebOS/src/drivers/ethernet/tcp/tcp_input.c).
use aether_webos.Prelude.{
  ℕ, ◌≡◌, refl, List, [], Bool-cases, inl, inr, All, Option-cases, ◌+◌, length, Bool, ◌&&◌, ◌==◌,
  true, false, if◌then◌else◌, ltb,
}
use aether_webos.Memory.Heap.{kmalloc}
use aether_webos.Net.Stack.{TcpState, Tcb, Net}
use aether_webos.Net.Tcp.{
  tcb_at, modify, on_tcb, set_state, has, flag_ack, flag_fin, flag_syn, flag_rst, tcb_size, closes,
  is_established, tcp_send_segment, tcp_send_ack, tcp_send_synack, tcp_send_fin, tcp_send_data,
  tcp_close, tcp_send_rst, socket_dispatch, tcp_remove_tcb, tcp_find_tcb,
}
use aether_webos.Net.Tcp.Http.{http_response}
use aether_webos.Net.Tcp.Lists.{
  All-modify, All-modify_twice, All-unlink_modified, All-unlink, All-send_from, tcb_at-modify,
  tcb_at-modify-none, ipv4_send-tcp_tcb_list,
}
use aether_webos.Net.Tcp.Input.Open.{with_opened, passive_open-none, passive_open_lem}
use aether_webos.Net.Tcp.Input.{
  Segment, passive_open, acknowledged, received, expects, take_data, remote_close, in_state,
  dispatch, dropped, parse, tcp_input_process,
}

-- The states in which a connection waits for its next segment.
abbrev pub IsWaiting : TcpState → Type 0
IsWaiting TcpState.syn_received = Unit
IsWaiting TcpState.established = Unit
IsWaiting TcpState.last_ack = Unit
IsWaiting _ = ⊥

abbrev pub Waiting : Net → Type 0
Waiting net = All (λ (t : Tcb). IsWaiting t.state) net.tcp_tcb_list

abbrev Waits : Tcb → Type 0
Waits t = IsWaiting t.state

send-Waiting :
    (p flags : ℕ) (payload : List ℕ) (net : Net)
    → Waiting net
    → Waiting (tcp_send_segment p flags payload net)
unfolding tcp_send_segment
send-Waiting p flags payload net w = elim (Option-cases (tcb_at p net.tcp_tcb_list)) [
  | inl e ↦ rw (e, tcp_send_segment) w
  | inr (t, e) ↦ rw (e, tcp_send_segment) (All-send_from Waits t flags payload net (λ u h. h) w)
]

-- Closing is done for a connection in any state, as long as what it sets is a waiting one.
close-Waiting : (p : ℕ) (net : Net) → Waiting net → Waiting (tcp_close p net)
unfolding tcp_close tcp_send_fin
close-Waiting p net w = elim (Option-cases (tcb_at p net.tcp_tcb_list)) [
  | inl e ↦ rw (e, tcp_close) w
  | inr (t, e) ↦ elim (Bool-cases (closes t.state)) [
    | inl c ↦
        rw (e, tcp_close, c)
          (send-Waiting p 17 [] (on_tcb p (set_state TcpState.last_ack) net)
            (All-modify Waits p (set_state TcpState.last_ack) net.tcp_tcb_list (λ u h. tt) w))
    | inr c ↦ rw (e, tcp_close, c) w
  ]
]

data-Waiting :
    (p : ℕ) (bytes : List ℕ) (net : Net) → Waiting net → Waiting (tcp_send_data p bytes net)
unfolding tcp_send_data
data-Waiting p bytes net w = elim (Option-cases (tcb_at p net.tcp_tcb_list)) [
  | inl e ↦ rw (e, tcp_send_data) w
  | inr (t, e) ↦ elim (Bool-cases (is_established t.state)) [
    | inl c ↦ rw (e, tcp_send_data, c) (send-Waiting p 24 bytes net w)
    | inr c ↦ rw (e, tcp_send_data, c) w
  ]
]

take_data-Waiting : (t : Tcb) (s : Segment) (net : Net) → Waiting net → Waiting (take_data t s net)
unfolding take_data tcp_send_ack socket_dispatch
take_data-Waiting t s net w =
    elim (Bool-cases (ltb 0 (length s.payload) && (s.seg_seq == t.rcv_nxt))) [
      | inl e ↦
          rw (e, take_data)
            (send-Waiting t.at 16 [] (socket_dispatch t.at stored) (
              close-Waiting t.at (tcp_send_data t.at http_response stored) (
                data-Waiting t.at http_response stored (
                  All-modify Waits t.at (received (length s.payload)) net.tcp_tcb_list (λ u h. h)
                    w))))
      | inr e ↦ rw (e, take_data) w
    ]
  where
    stored : Net
    stored = on_tcb t.at (received (length s.payload)) net

-- CLOSE_WAIT is left at once.
half_closed-Waiting :
    (p : ℕ) (net : Net)
    → Waiting net
    → Waiting (tcp_close p (on_tcb p (set_state TcpState.close_wait) net))
unfolding tcp_close tcp_send_fin
half_closed-Waiting p net w =
    let half : Tcb → Tcb = set_state TcpState.close_wait in
    elim (Option-cases (tcb_at p net.tcp_tcb_list)) [
      | inl e ↦
          let kept : modify p half net.tcp_tcb_list ≡ net.tcp_tcb_list =
            tcb_at-modify-none p half net.tcp_tcb_list e in
          rw (kept, e, tcp_close, kept) w
      | inr (t, e) ↦
          rw (tcb_at-modify p half t net.tcp_tcb_list (λ u. refl) e, tcp_close)
            (send-Waiting p 17 [] (on_tcb p (set_state TcpState.last_ack) (on_tcb p half net)) (
              All-modify_twice Waits p half (set_state TcpState.last_ack) net.tcp_tcb_list
                (λ u. refl) (λ u h. tt) w))
    ]

remote_close-Waiting :
    (p : ℕ) (s : Segment) (net : Net) → Waiting net → Waiting (remote_close p s net)
unfolding remote_close tcp_send_ack
remote_close-Waiting p s net w =
    half_closed-Waiting p (tcp_send_segment p 16 [] (on_tcb p (expects (s.seg_seq + 1)) net)) (
      send-Waiting p 16 [] (on_tcb p (expects (s.seg_seq + 1)) net)
        (All-modify Waits p (expects (s.seg_seq + 1)) net.tcp_tcb_list (λ u h. h) w))

removed-Waiting :
    (p : ℕ) (net : Net)
    → Waiting net
    → Waiting (tcp_remove_tcb p (on_tcb p (set_state TcpState.closed) net))
unfolding tcp_remove_tcb
removed-Waiting p net w =
    let shut : Tcb → Tcb = set_state TcpState.closed in
    elim (Option-cases (tcb_at p net.tcp_tcb_list)) [
      | inl e ↦
          let kept : modify p shut net.tcp_tcb_list ≡ net.tcp_tcb_list =
            tcb_at-modify-none p shut net.tcp_tcb_list e in
          rw (kept, e, tcp_remove_tcb, kept) w
      | inr (t, e) ↦
          rw (tcb_at-modify p shut t net.tcp_tcb_list (λ u. refl) e, tcp_remove_tcb)
            (All-unlink_modified Waits p shut net.tcp_tcb_list (λ u. refl) w)
    ]

remove-Waiting : (p : ℕ) (net : Net) → Waiting net → Waiting (tcp_remove_tcb p net)
unfolding tcp_remove_tcb
remove-Waiting p net w = elim (Option-cases (tcb_at p net.tcp_tcb_list)) [
  | inl e ↦ rw (e, tcp_remove_tcb) w
  | inr (t, e) ↦ rw (e, tcp_remove_tcb) (All-unlink Waits p net.tcp_tcb_list w)
]

reset-Waiting :
    (b : Bool) (p : ℕ) (net : Net) → Waiting net → Waiting (if b then tcp_remove_tcb p net else net)
reset-Waiting true p net w = remove-Waiting p net w
reset-Waiting false p net w = w

step-Waiting :
    (st : TcpState) (t : Tcb) (s : Segment) (net : Net)
    → Waiting net
    → Waiting (in_state st t s net)
unfolding in_state
step-Waiting TcpState.syn_received t s net w = elim (Bool-cases (has s.flags flag_ack)) [
  | inl e ↦
      rw (e, in_state)
        (All-modify Waits t.at (acknowledged s.seg_ack) net.tcp_tcb_list (λ u h. tt) w)
  | inr e ↦ rw (e, in_state) w
]
step-Waiting TcpState.established t s net w = elim (Bool-cases (has s.flags flag_fin)) [
  | inl e ↦
      rw (e, in_state)
        (remote_close-Waiting t.at s (take_data t s net) (take_data-Waiting t s net w))
  | inr e ↦ rw (e, in_state) (take_data-Waiting t s net w)
]
step-Waiting TcpState.last_ack t s net w = elim (Bool-cases (has s.flags flag_ack)) [
  | inl e ↦ rw (e, in_state) (removed-Waiting t.at net w)
  | inr e ↦ rw (e, in_state) w
]
step-Waiting TcpState.closed t s net w = reset-Waiting (has s.flags flag_rst) t.at net w
step-Waiting TcpState.listen t s net w = reset-Waiting (has s.flags flag_rst) t.at net w
step-Waiting TcpState.close_wait t s net w = reset-Waiting (has s.flags flag_rst) t.at net w
step-Waiting TcpState.time_wait t s net w = reset-Waiting (has s.flags flag_rst) t.at net w

passive-Waiting : (s : Segment) (net : Net) → Waiting net → Waiting (passive_open s net)
unfolding passive_open tcp_send_rst tcp_send_synack
passive-Waiting s net w = elim (Bool-cases (has s.flags flag_syn && (s.dst_port == 80))) [
  | inl syn ↦ elim (Option-cases (kmalloc tcb_size net.heap).1) [
    | inl e ↦ rw (passive_open-none s net syn e) w
    | inr (p, e) ↦
        rw (passive_open_lem s net p syn e) (send-Waiting p 18 [] (with_opened s net p) (tt, w))
  ]
  | inr other ↦ rw (other, passive_open, ipv4_send-tcp_tcb_list) w
]

-- Between two calls of `tcp_input_process` each connection is in SYN_RECEIVED, ESTABLISHED or
-- LAST_ACK.
pub tcp_input_process-Waiting :
    (segment : List ℕ) (src_ip dst_ip : ℕ) (net : Net)
    → Waiting net
    → Waiting (tcp_input_process segment src_ip dst_ip net)
unfolding tcp_input_process dispatch
tcp_input_process-Waiting segment src_ip dst_ip net w =
    elim (Bool-cases (dropped segment src_ip dst_ip)) [
      | inl e ↦ rw (e, tcp_input_process) w
      | inr e ↦
          let s : Segment = parse segment src_ip dst_ip in
          elim (Option-cases
            (tcp_find_tcb s.src_ip s.src_port s.dst_ip s.dst_port net.tcp_tcb_list)) [
              | inl missing ↦ rw (e, tcp_input_process, missing, dispatch) (passive-Waiting s net w)
              | inr (t, found) ↦
                  rw (e, tcp_input_process, found, dispatch) (step-Waiting t.state t s net w)
            ]
    ]
