-- ===== src/Net/Tcp/Input/Steps.antt =====
-- `tcp_input_process` (AetherWebOS/src/drivers/ethernet/tcp/tcp_input.c) follows the state machine of
-- one connection.
use mathlib.Core.Option
use aether_webos.Prelude.{
  ℕ, ◌≡◌, refl, arith, ap, ◌∙◌, List, [], ◌∷◌, none, some, Bool-cases, inl, inr, false, map,
  Option-cases,
}
use aether_webos.Memory.Heap.{kmalloc}
use aether_webos.Net.Stack.{TcpState, Tcb, Net}
use aether_webos.Net.Tcp.{
  tcb_at, on_tcb, set_state, has, flag_ack, flag_fin, tcb_size, new_tcb, tcp_send_segment,
  tcp_send_synack, tcp_send_rst, tcp_find_tcb, matches, tcp_remove_tcb,
}
use aether_webos.Net.Tcp.Input.{
  Segment, opened, passive_open, acknowledged, take_data, remote_close, in_state, dispatch, dropped,
  parse, tcp_input_process,
}
use aether_webos.Net.Tcp.Lists.{tcb_at-modify, ipv4_send-tcp_tcb_list}
use aether_webos.Net.Tcp.Keys.{views-modify, segment-views}
use aether_webos.Net.Tcp.Places.{place, place-Keeps, find-places, find-unlink, All-find}
use aether_webos.Net.Tcp.Input.Open.{with_opened, passive_open-none, passive_open_lem}
use aether_webos.Net.Tcp.Input.States.{IsWaiting, Waiting}
use aether_webos.Net.Tcp.Input.Unique.{Unique, take_data-views, remote_close-views}
use aether_webos.Net.Tcp.Input.Machine.{connection, at_state, in_order, wants, Step, talk, offer}
use aether_webos.Net.Tcp.Input.Protocol.{
  seen, seen-modify, seen-segment, unlink-modify, seen-taken, untaken, seen-remote_close,
}

-- `t` is the connection that the segment finds, and the first at its address.
module _ (t : Tcb) (s : Segment) (net : Net)
    (found : tcp_find_tcb s.src_ip s.src_port s.dst_ip s.dst_port net.tcp_tcb_list ≡ some t)
    (here : tcb_at t.at net.tcp_tcb_list ≡ some t) where
  talk-seen :
      (after : Net)
      → map place after.tcp_tcb_list ≡ map place net.tcp_tcb_list
      → talk s after ≡ seen t.at after
  talk-seen after same = ap (Option.map connection) (
      find-places s.src_ip s.src_port s.dst_ip s.dst_port t.at t net.tcp_tcb_list after.tcp_tcb_list
        same found here)

  opened-Step :
      t.state ≡ TcpState.syn_received
      → Step s (offer net) (talk s net) (talk s (in_state TcpState.syn_received t s net))
  unfolding in_state
  opened-Step h = elim (Bool-cases (has s.flags flag_ack)) [
    | inl e ↦
        rw
          (
            e,
            in_state,
            talk-seen (on_tcb t.at (acknowledged s.seg_ack) net)
                (views-modify place t.at (acknowledged s.seg_ack) net.tcp_tcb_list (λ u. refl)),
            seen-modify t.at (acknowledged s.seg_ack)
                (λ c. at_state TcpState.established c.expected s.seg_ack) net (λ u. refl)
                (λ u. refl),
            found,
            here,
            h,
          )
          (Step.opens e)
    | inr e ↦ rw (e, in_state, found, h) (Step.unacknowledged e)
  ]

  established-Step :
      t.state ≡ TcpState.established
      → Step s (offer net) (talk s net) (talk s (in_state TcpState.established t s net))
  unfolding in_state
  established-Step h =
      let view : map place (take_data t s net).tcp_tcb_list ≡ map place net.tcp_tcb_list =
        take_data-views place place-Keeps t s net in
      let closed =
        talk-seen (remote_close t.at s (take_data t s net))
          (remote_close-views place place-Keeps t.at s (take_data t s net) ∙ view) in
      let taken = talk-seen (take_data t s net) view in
      elim (Bool-cases (in_order s t.rcv_nxt)) [
        | inl d ↦ elim (Bool-cases (has s.flags flag_fin)) [
          | inl e ↦
              rw (e, in_state, closed, seen-remote_close, seen-taken t s net d, found, here, h)
                (Step.finishes e)
          | inr e ↦ rw (e, in_state, taken, seen-taken t s net d, found, here, h) (Step.answers d e)
        ]
        | inr d ↦ elim (Bool-cases (has s.flags flag_fin)) [
          | inl e ↦
              rw (e, in_state, closed, seen-remote_close, untaken t s net d, found, here, h)
                (Step.finishes e)
          | inr e ↦ rw (e, in_state, untaken t s net d, found, h) (Step.idles d e)
        ]
      ]

  last_ack-Step :
      Unique net
      → t.state ≡ TcpState.last_ack
      → Step s (offer net) (talk s net) (talk s (in_state TcpState.last_ack t s net))
  unfolding in_state tcp_remove_tcb
  last_ack-Step unique h = elim (Bool-cases (has s.flags flag_ack)) [
    | inl e ↦ rw (e, in_state, removed, found, h) (Step.ends e)
    | inr e ↦ rw (e, in_state, found, h) (Step.lingers e)
  ]
    where
      closing : Net
      closing = on_tcb t.at (set_state TcpState.closed) net

      removed : talk s (tcp_remove_tcb t.at closing) ≡ none
      removed =
          let there : tcb_at t.at closing.tcp_tcb_list ≡ some (set_state TcpState.closed t) =
            tcb_at-modify t.at (set_state TcpState.closed) t net.tcp_tcb_list (λ u. refl) here in
          rw
            (
              there,
              tcp_remove_tcb,
              unlink-modify t.at (set_state TcpState.closed) net.tcp_tcb_list (λ u. refl),
              find-unlink s.src_ip s.src_port s.dst_ip s.dst_port t.at t net.tcp_tcb_list unique
                  found here,
            )
            refl

  waiting-Step :
      (st : TcpState)
      → t.state ≡ st
      → IsWaiting st
      → Unique net
      → Step s (offer net) (talk s net) (talk s (in_state st t s net))
  waiting-Step TcpState.syn_received h w u = opened-Step h
  waiting-Step TcpState.established h w u = established-Step h
  waiting-Step TcpState.last_ack h w u = last_ack-Step u h
  waiting-Step TcpState.closed h w u = absurd w
  waiting-Step TcpState.listen h w u = absurd w
  waiting-Step TcpState.close_wait h w u = absurd w
  waiting-Step TcpState.time_wait h w u = absurd w

head_found :
    (s : Segment) (isn : ℕ) (t : Tcb) (ts : List Tcb)
    → tcp_find_tcb s.src_ip s.src_port s.dst_ip s.dst_port (opened s isn t ∷ ts)
      ≡ some (opened s isn t)
unfolding tcp_find_tcb matches
head_found s isn t ts = ground arith

head_at : (t : Tcb) (ts : List Tcb) → tcb_at t.at (t ∷ ts) ≡ some t
unfolding tcb_at
head_at t ts = ground arith

passive-Step :
    (s : Segment) (net : Net)
    → tcp_find_tcb s.src_ip s.src_port s.dst_ip s.dst_port net.tcp_tcb_list ≡ none
    → Step s (offer net) (talk s net) (talk s (passive_open s net))
unfolding passive_open tcp_send_rst tcp_send_synack
passive-Step s net missing = elim (Bool-cases (wants s)) [
  | inl syn ↦ elim (Option-cases (kmalloc tcb_size net.heap).1) [
    | inl e ↦ rw (passive_open-none s net syn e, missing, e) (Step.lacks_memory syn refl)
    | inr (p, e) ↦
        let new : Tcb = opened s net.tcp_global_isn (new_tcb p net.aether_ip) in
        let found = head_found s net.tcp_global_isn (new_tcb p net.aether_ip) net.tcp_tcb_list in
        let here = head_at new net.tcp_tcb_list in
        let sent : Net = tcp_send_segment p 18 [] (with_opened s net p) in
        rw
          (
            passive_open_lem s net p syn e,
            talk-seen new s (with_opened s net p) found here sent
                (segment-views place place-Keeps p 18 [] (with_opened s net p)),
            seen-segment p 18 [] (with_opened s net p),
            here,
            missing,
            e,
          )
          (Step.accepts syn refl)
  ]
  | inr other ↦ rw (other, passive_open, ipv4_send-tcp_tcb_list, missing) (Step.turns_away other)
]

dispatch-none :
    (s : Segment) (net : Net)
    → tcp_find_tcb s.src_ip s.src_port s.dst_ip s.dst_port net.tcp_tcb_list ≡ none
    → dispatch s net ≡ passive_open s net
unfolding dispatch
dispatch-none s net e = rw (e, dispatch) refl

dispatch-some :
    (t : Tcb) (s : Segment) (net : Net)
    → tcp_find_tcb s.src_ip s.src_port s.dst_ip s.dst_port net.tcp_tcb_list ≡ some t
    → dispatch s net ≡ in_state t.state t s net
unfolding dispatch
dispatch-some t s net e = rw (e, dispatch) refl

-- A segment that passes the tests of its header and its checksum moves the connection of its
-- 4-tuple along a step of the state machine of one connection, from none over SYN_RECEIVED,
-- ESTABLISHED and LAST_ACK to none again. Before, each connection is in one of these states, no two
-- have the same 4-tuple, and the one that is found is the first at its address.
pub tcp_input_process-Step :
    (segment : List ℕ) (src_ip dst_ip : ℕ) (net : Net)
    → let s = parse segment src_ip dst_ip in
      dropped segment src_ip dst_ip ≡ false
      → Waiting net
      → Unique net
      → ((t : Tcb)
          → tcp_find_tcb s.src_ip s.src_port s.dst_ip s.dst_port net.tcp_tcb_list ≡ some t
          → tcb_at t.at net.tcp_tcb_list ≡ some t)
      → Step s (offer net) (talk s net) (talk s (tcp_input_process segment src_ip dst_ip net))
unfolding tcp_input_process
tcp_input_process-Step segment src_ip dst_ip net kept waiting unique first =
    let s : Segment = parse segment src_ip dst_ip in
    elim (Option-cases (tcp_find_tcb s.src_ip s.src_port s.dst_ip s.dst_port net.tcp_tcb_list)) [
      | inl missing ↦
          rw (kept, tcp_input_process, dispatch-none s net missing) (passive-Step s net missing)
      | inr (t, found) ↦
          rw (kept, tcp_input_process, dispatch-some t s net found)
            (waiting-Step t s net found (first t found) t.state refl
              (All-find (λ (u : Tcb). IsWaiting u.state) s.src_ip s.src_port s.dst_ip s.dst_port t
                net.tcp_tcb_list found waiting)
              unique)
    ]
