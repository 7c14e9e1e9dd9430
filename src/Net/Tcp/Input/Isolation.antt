-- ===== src/Net/Tcp/Input/Isolation.antt =====
-- A segment changes no connection but its own (AetherWebOS/src/drivers/ethernet/tcp/tcp_input.c).
use aether_webos.Prelude.{
  ℕ, ◌≡◌, ◌≢◌, refl, arith, ◌∙◌, ◌+◌, ◌<◌, List, [], ◌∷◌, some, Bool, Bool-cases, inl, inr,
  Option-cases, length, ◌&&◌, ◌==◌, ltb, if◌then◌else◌, true, false, All,
}
use aether_webos.Memory.Heap.{kmalloc}
use aether_webos.Memory.Heap.Invariant.{IsValid}
use aether_webos.Memory.Heap.Live.{live, Disjoint, kmalloc-IsFresh}
use aether_webos.Memory.Heap.Release.{Held}
use aether_webos.Net.Stack.{TcpState, Tcb, Net}
use aether_webos.Net.Tcp.{
  tcb_at, on_tcb, set_state, has, flag_ack, flag_fin, flag_syn, flag_rst, tcb_size,
  tcp_send_segment, tcp_send_ack, tcp_send_synack, tcp_send_rst, socket_dispatch, tcp_find_tcb,
  tcp_remove_tcb, new_tcb,
}
use aether_webos.Net.Tcp.Lists.{ipv4_send-tcp_tcb_list}
use aether_webos.Net.Tcp.Others.{
  others-modify, others-segment, others-close, others-socket, others-remove,
}
use aether_webos.Net.Tcp.Input.Open.{with_opened, passive_open-none, passive_open_lem}
use aether_webos.Net.Tcp.Input.{
  Segment, opened, passive_open, acknowledged, received, expects, take_data, remote_close, in_state,
  dispatch, dropped, parse, tcp_input_process,
}

-- What `q` points to is the same.
abbrev Same : ℕ → Net → Net → Type 0
Same q before after = tcb_at q after.tcp_tcb_list ≡ tcb_at q before.tcp_tcb_list

module _ (q : ℕ) (t : Tcb) (other : t.at ≢ q) where
  take_data-Same : (s : Segment) (net : Net) → Same q net (take_data t s net)
  unfolding take_data tcp_send_ack
  take_data-Same s net =
      let stored : Net = on_tcb t.at (received (length s.payload)) net in
      elim (Bool-cases (ltb 0 (length s.payload) && (s.seg_seq == t.rcv_nxt))) [
        | inl e ↦
            rw (e, take_data)
              (others-segment t.at q other 16 [] (socket_dispatch t.at stored)
                ∙ others-socket t.at q other stored
                ∙ others-modify t.at q other (received (length s.payload)) net.tcp_tcb_list
                    (λ u. refl))
        | inr e ↦ rw (e, take_data) refl
      ]

  remote_close-Same : (s : Segment) (net : Net) → Same q net (remote_close t.at s net)
  unfolding remote_close tcp_send_ack
  remote_close-Same s net =
      let expecting : Net = on_tcb t.at (expects (s.seg_seq + 1)) net in
      let acked : Net = tcp_send_segment t.at 16 [] expecting in
      others-close t.at q other (on_tcb t.at (set_state TcpState.close_wait) acked)
      ∙ others-modify t.at q other (set_state TcpState.close_wait) acked.tcp_tcb_list (λ u. refl)
      ∙ others-segment t.at q other 16 [] expecting
      ∙ others-modify t.at q other (expects (s.seg_seq + 1)) net.tcp_tcb_list (λ u. refl)

  reset-Same : (b : Bool) (net : Net) → Same q net (if b then tcp_remove_tcb t.at net else net)
  reset-Same true net = others-remove t.at q other net
  reset-Same false net = refl

  step-Same : (st : TcpState) (s : Segment) (net : Net) → Same q net (in_state st t s net)
  unfolding in_state
  step-Same TcpState.syn_received s net = elim (Bool-cases (has s.flags flag_ack)) [
    | inl e ↦
        rw (e, in_state)
          (others-modify t.at q other (acknowledged s.seg_ack) net.tcp_tcb_list (λ u. refl))
    | inr e ↦ rw (e, in_state) refl
  ]
  step-Same TcpState.established s net = elim (Bool-cases (has s.flags flag_fin)) [
    | inl e ↦ rw (e, in_state) (remote_close-Same s (take_data t s net) ∙ take_data-Same s net)
    | inr e ↦ rw (e, in_state) (take_data-Same s net)
  ]
  step-Same TcpState.last_ack s net = elim (Bool-cases (has s.flags flag_ack)) [
    | inl e ↦
        rw (e, in_state)
          (others-remove t.at q other (on_tcb t.at (set_state TcpState.closed) net)
            ∙ others-modify t.at q other (set_state TcpState.closed) net.tcp_tcb_list (λ u. refl))
    | inr e ↦ rw (e, in_state) refl
  ]
  step-Same TcpState.closed s net = reset-Same (has s.flags flag_rst) net
  step-Same TcpState.listen s net = reset-Same (has s.flags flag_rst) net
  step-Same TcpState.close_wait s net = reset-Same (has s.flags flag_rst) net
  step-Same TcpState.time_wait s net = reset-Same (has s.flags flag_rst) net

Disjoint-ne :
    (p n q m : ℕ) (xs : List (ℕ × ℕ))
    → 0 < n
    → 0 < m
    → All (Disjoint (p, n)) xs
    → Held (q, m) xs
    → p ≢ q
Disjoint-ne p n q m [] hn hm all held = absurd held
Disjoint-ne p n q m ((a, k) ∷ xs) hn hm all (inl e) = λ same. ground (arith, e, all.0)
Disjoint-ne p n q m ((a, k) ∷ xs) hn hm all (inr held) = Disjoint-ne p n q m xs hn hm all.1 held

tcb_at-ne : (q : ℕ) (t : Tcb) (ts : List Tcb) → t.at ≢ q → tcb_at q (t ∷ ts) ≡ tcb_at q ts
unfolding tcb_at
tcb_at-ne q t ts ne = ground arith

passive-Same :
    (q m : ℕ) (s : Segment) (net : Net)
    → IsValid net.heap
    → 0 < m
    → Held (q, m) (live net.heap.blocks)
    → Same q net (passive_open s net)
unfolding passive_open tcp_send_rst tcp_send_synack
passive-Same q m s net v pos held = elim (Bool-cases (has s.flags flag_syn && (s.dst_port == 80))) [
  | inl syn ↦ elim (Option-cases (kmalloc tcb_size net.heap).1) [
    | inl e ↦ rw (passive_open-none s net syn e) refl
    | inr (p, e) ↦
        let fresh = kmalloc-IsFresh tcb_size net.heap p v (omega arith) e in
        let ne : p ≢ q =
          Disjoint-ne p fresh.n q m (live net.heap.blocks) (omega (arith, fresh.enough)) pos
            fresh.apart held in
        rw (passive_open_lem s net p syn e) (
          others-segment p q ne 18 [] (with_opened s net p)
          ∙ tcb_at-ne q (opened s net.tcp_global_isn (new_tcb p net.aether_ip)) net.tcp_tcb_list ne)
  ]
  | inr no_syn ↦ rw (no_syn, passive_open, ipv4_send-tcp_tcb_list) refl
]

-- A segment leaves every connection as it is but the one that it belongs to: what any other pointer
-- `q` points to stays the same, also when a new connection is made, if `q` points to memory in
-- use on a heap in order.
pub tcp_input_process-Same :
    (segment : List ℕ) (src_ip dst_ip q m : ℕ) (net : Net)
    → IsValid net.heap
    → 0 < m
    → Held (q, m) (live net.heap.blocks)
    → let s = parse segment src_ip dst_ip in
      ((t : Tcb)
        → tcp_find_tcb s.src_ip s.src_port s.dst_ip s.dst_port net.tcp_tcb_list ≡ some t
        → t.at ≢ q)
      → tcb_at q (tcp_input_process segment src_ip dst_ip net).tcp_tcb_list
        ≡ tcb_at q net.tcp_tcb_list
unfolding tcp_input_process dispatch
tcp_input_process-Same segment src_ip dst_ip q m net v pos held other =
    elim (Bool-cases (dropped segment src_ip dst_ip)) [
      | inl e ↦ rw (e, tcp_input_process) refl
      | inr e ↦
          let s : Segment = parse segment src_ip dst_ip in
          elim (Option-cases
            (tcp_find_tcb s.src_ip s.src_port s.dst_ip s.dst_port net.tcp_tcb_list)) [
              | inl missing ↦
                  rw (e, tcp_input_process, missing, dispatch) (passive-Same q m s net v pos held)
              | inr (t, found) ↦
                  rw (e, tcp_input_process, found, dispatch)
                    (step-Same q t (other t found) t.state s net)
            ]
    ]
