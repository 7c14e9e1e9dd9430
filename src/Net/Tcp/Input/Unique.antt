-- ===== src/Net/Tcp/Input/Unique.antt =====
-- The 4-tuples of the connections stay different from each other
-- (AetherWebOS/src/drivers/ethernet/tcp/tcp_input.c).
use aether_webos.Prelude.{
  ℕ, ◌≡◌, refl, ◌∙◌, List, [], none, Bool, Bool-cases, inl, inr, Option-cases, ◌+◌, length, ◌&&◌,
  map, u32, true, false, ◌==◌, ltb, if◌then◌else◌,
}
use aether_webos.Memory.Heap.{kmalloc}
use aether_webos.Net.Stack.{TcpState, Tcb, Net}
use aether_webos.Net.Tcp.{
  tcb_at, on_tcb, set_state, has, flag_ack, flag_fin, flag_syn, flag_rst, tcb_size,
  tcp_send_segment, tcp_send_ack, tcp_send_synack, tcp_send_rst, socket_dispatch, tcp_find_tcb,
  tcp_remove_tcb,
}
use aether_webos.Net.Tcp.Lists.{ipv4_send-tcp_tcb_list}
use aether_webos.Net.Tcp.Keys.{
  Keeps, key, keys, Distinct, key-Keeps, views-modify, segment-views, close-views, socket-views,
  find-none, Distinct-unlink,
}
use aether_webos.Net.Tcp.Input.Open.{with_opened, passive_open-none, passive_open_lem}
use aether_webos.Net.Tcp.Input.{
  Segment, passive_open, acknowledged, received, expects, take_data, remote_close, in_state,
  dispatch, dropped, parse, tcp_input_process,
}

-- No two connections have the same 4-tuple.
abbrev pub Unique : Net → Type 0
Unique net = Distinct (keys net.tcp_tcb_list)

module _ {ℓ} {X : Type ℓ} (view : Tcb → X) (keeps : Keeps view) where
  pub take_data-views :
      (t : Tcb) (s : Segment) (net : Net)
      → map view (take_data t s net).tcp_tcb_list ≡ map view net.tcp_tcb_list
  unfolding take_data tcp_send_ack
  take_data-views t s net =
      let stored : Net = on_tcb t.at (received (length s.payload)) net in
      elim (Bool-cases (ltb 0 (length s.payload) && (s.seg_seq == t.rcv_nxt))) [
        | inl e ↦
            rw (e, take_data)
              (segment-views view keeps t.at 16 [] (socket_dispatch t.at stored)
                ∙ socket-views view keeps t.at stored
                ∙ views-modify view t.at (received (length s.payload)) net.tcp_tcb_list
                    (λ u. keeps.on_expected (u32 (u.rcv_nxt + length s.payload)) u))
        | inr e ↦ rw (e, take_data) refl
      ]

  pub remote_close-views :
      (p : ℕ) (s : Segment) (net : Net)
      → map view (remote_close p s net).tcp_tcb_list ≡ map view net.tcp_tcb_list
  unfolding remote_close tcp_send_ack
  remote_close-views p s net =
      let acked : Net = tcp_send_segment p 16 [] (on_tcb p (expects (s.seg_seq + 1)) net) in
      close-views view keeps p (on_tcb p (set_state TcpState.close_wait) acked)
      ∙ views-modify view p (set_state TcpState.close_wait) acked.tcp_tcb_list
          (keeps.on_state TcpState.close_wait)
      ∙ segment-views view keeps p 16 [] (on_tcb p (expects (s.seg_seq + 1)) net)
      ∙ views-modify view p (expects (s.seg_seq + 1)) net.tcp_tcb_list
          (keeps.on_expected (u32 (s.seg_seq + 1)))

remove-Unique : (p : ℕ) (net : Net) → Unique net → Unique (tcp_remove_tcb p net)
unfolding tcp_remove_tcb
remove-Unique p net w = elim (Option-cases (tcb_at p net.tcp_tcb_list)) [
  | inl e ↦ rw (e, tcp_remove_tcb) w
  | inr (t, e) ↦ rw (e, tcp_remove_tcb) (Distinct-unlink p net.tcp_tcb_list w)
]

same-Unique :
    (before after : Net)
    → keys after.tcp_tcb_list ≡ keys before.tcp_tcb_list
    → Unique before
    → Unique after
same-Unique before after e u = rw e u

modified-Unique :
    (p : ℕ) (f : Tcb → Tcb) (net : Net)
    → ((t : Tcb) → key (f t) ≡ key t)
    → Unique net
    → Unique (on_tcb p f net)
modified-Unique p f net h =
    same-Unique net (on_tcb p f net) (views-modify key p f net.tcp_tcb_list h)

reset-Unique :
    (b : Bool) (p : ℕ) (net : Net) → Unique net → Unique (if b then tcp_remove_tcb p net else net)
reset-Unique true p net w = remove-Unique p net w
reset-Unique false p net w = w

step-Unique :
    (st : TcpState) (t : Tcb) (s : Segment) (net : Net) → Unique net → Unique (in_state st t s net)
unfolding in_state
step-Unique TcpState.syn_received t s net w = elim (Bool-cases (has s.flags flag_ack)) [
  | inl e ↦ rw (e, in_state) (modified-Unique t.at (acknowledged s.seg_ack) net (λ u. refl) w)
  | inr e ↦ rw (e, in_state) w
]
step-Unique TcpState.established t s net w =
    let taken : Unique (take_data t s net) =
      same-Unique net (take_data t s net) (take_data-views key key-Keeps t s net) w in
    elim (Bool-cases (has s.flags flag_fin)) [
      | inl e ↦
          rw (e, in_state)
            (same-Unique (take_data t s net) (remote_close t.at s (take_data t s net))
              (remote_close-views key key-Keeps t.at s (take_data t s net)) taken)
      | inr e ↦ rw (e, in_state) taken
    ]
step-Unique TcpState.last_ack t s net w = elim (Bool-cases (has s.flags flag_ack)) [
  | inl e ↦
      rw (e, in_state)
        (remove-Unique t.at (on_tcb t.at (set_state TcpState.closed) net)
          (modified-Unique t.at (set_state TcpState.closed) net (λ u. refl) w))
  | inr e ↦ rw (e, in_state) w
]
step-Unique TcpState.closed t s net w = reset-Unique (has s.flags flag_rst) t.at net w
step-Unique TcpState.listen t s net w = reset-Unique (has s.flags flag_rst) t.at net w
step-Unique TcpState.close_wait t s net w = reset-Unique (has s.flags flag_rst) t.at net w
step-Unique TcpState.time_wait t s net w = reset-Unique (has s.flags flag_rst) t.at net w

passive-Unique :
    (s : Segment) (net : Net)
    → tcp_find_tcb s.src_ip s.src_port s.dst_ip s.dst_port net.tcp_tcb_list ≡ none
    → Unique net
    → Unique (passive_open s net)
unfolding passive_open tcp_send_rst tcp_send_synack
passive-Unique s net missing w = elim (Bool-cases (has s.flags flag_syn && (s.dst_port == 80))) [
  | inl syn ↦ elim (Option-cases (kmalloc tcb_size net.heap).1) [
    | inl e ↦ rw (passive_open-none s net syn e) w
    | inr (p, e) ↦ rw (passive_open_lem s net p syn e) (
        same-Unique (with_opened s net p) (tcp_send_segment p 18 [] (with_opened s net p))
          (segment-views key key-Keeps p 18 [] (with_opened s net p))
          (find-none s.src_ip s.src_port s.dst_ip s.dst_port net.tcp_tcb_list missing, w))
  ]
  | inr other ↦ rw (other, passive_open, ipv4_send-tcp_tcb_list) w
]

-- `tcp_input_process` keeps the 4-tuples of the connections different from each other, for every
-- segment.
pub tcp_input_process-Unique :
    (segment : List ℕ) (src_ip dst_ip : ℕ) (net : Net)
    → Unique net
    → Unique (tcp_input_process segment src_ip dst_ip net)
unfolding tcp_input_process dispatch
tcp_input_process-Unique segment src_ip dst_ip net w =
    elim (Bool-cases (dropped segment src_ip dst_ip)) [
      | inl e ↦ rw (e, tcp_input_process) w
      | inr e ↦
          let s : Segment = parse segment src_ip dst_ip in
          elim (Option-cases
            (tcp_find_tcb s.src_ip s.src_port s.dst_ip s.dst_port net.tcp_tcb_list)) [
              | inl missing ↦
                  rw (e, tcp_input_process, missing, dispatch) (passive-Unique s net missing w)
              | inr (t, found) ↦
                  rw (e, tcp_input_process, found, dispatch) (step-Unique t.state t s net w)
            ]
    ]
