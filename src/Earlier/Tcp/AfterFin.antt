-- ===== src/Earlier/Tcp/AfterFin.antt =====
-- A connection of AetherWebOS/backups/src/tcp.c after its FIN.
use aether_webos.Prelude.{
  ℕ, zero, suc, ◌+◌, ◌≡◌, refl, arith, List, [], ◌∷◌, ◌++◌, some, true, false, not, ◌&&◌, ◌==◌, ltb,
  length, drop, take, Bool-cases, Option-cases, inl, inr,
}
use aether_webos.Utils.ByteOrder.{htonl}
use aether_webos.Utils.Text.{str_contains}
use aether_webos.Utils.Format.{Arg, ksnprintf}
use aether_webos.Memory.Heap.{kmalloc}
use aether_webos.Net.Tcp.{has, flag_fin, flag_syn, flag_rst, flag_ack}
use aether_webos.Earlier.Checksum.{tcp_validate_checksum}
use aether_webos.Earlier.Table.{
  State, Slot, is_established, is_syn_rcvd, slot_at, on_slot, free_from, allocated,
  tcp_allocate_tcb, tcp_find_tcb, reap_slot, tcp_reap_syn_timeouts,
}
use aether_webos.Earlier.Tcp.{
  Stack, Handler, Segment, on_tcb, touched, sent_on, finished, received, opened, send_header,
  tcp_send_synack, tcp_send_ack, open_slot, tcp_send_data, tcp_send_fin, get_text, header_text,
  portal_socket_wrapper, socket_lookup, socket_handle_packet, header_len, parse, open_connection,
  take_payload, on_segment, deliver, tcp_handle,
}
use aether_webos.Earlier.Tcp.Endpoints.{slot_at-on_slot}
use aether_webos.Earlier.Tcp.Sending.{slot_at-ack}
use aether_webos.Earlier.Tcp.Kept.{on_slot-on_slot}
use aether_webos.Earlier.Tcp.LastAck.{
  lingers, Lingers, syn_rcvd-moves, established-moves, not_syn_rcvd, on_slot-Lingers, same-Lingers,
  state-Lingers, free_from-closed, closed-Lingers,
}

synack-Lingers :
    (n i : ℕ) (s : Stack) → Lingers n s.tcb_table → Lingers n (tcp_send_synack i s).tcb_table
unfolding tcp_send_synack send_header
synack-Lingers n i s h = elim (Option-cases (slot_at i s.tcb_table)) [
  | inl e ↦ rw (e, tcp_send_synack) h
  | inr (t, e) ↦
      rw (e, tcp_send_synack) (same-Lingers n (sent_on s.uptime_ms 1) (λ u. refl) i s.tcb_table h)
]

ack-Lingers : (n i : ℕ) (s : Stack) → Lingers n s.tcb_table → Lingers n (tcp_send_ack i s).tcb_table
unfolding tcp_send_ack send_header
ack-Lingers n i s h = elim (Option-cases (slot_at i s.tcb_table)) [
  | inl e ↦ rw (e, tcp_send_ack) h
  | inr (t, e) ↦
      rw (e, tcp_send_ack) (same-Lingers n (touched s.uptime_ms) (λ u. refl) i s.tcb_table h)
]

data-Lingers :
    (n : ℕ) (dst_ip dst_port src_port : ℕ) (bytes : List ℕ) (s : Stack)
    → Lingers n s.tcb_table
    → Lingers n (tcp_send_data dst_ip dst_port src_port bytes s).tcb_table
unfolding tcp_send_data
data-Lingers n dst_ip dst_port src_port bytes s h =
    elim (Option-cases (open_slot dst_ip dst_port s.tcb_table)) [
      | inl e ↦ rw (e, tcp_send_data) h
      | inr ((i, t), e) ↦ elim (Option-cases (kmalloc (20 + length bytes) s.heap).1) [
        | inl k ↦ rw (e, tcp_send_data, k) h
        | inr (p, k) ↦
            rw (e, tcp_send_data, k)
              (same-Lingers n (sent_on s.uptime_ms (length bytes)) (λ u. refl) i s.tcb_table h)
      ]
    ]

fin-Lingers :
    (n : ℕ) (dst_ip dst_port src_port : ℕ) (s : Stack)
    → Lingers n s.tcb_table
    → Lingers n (tcp_send_fin dst_ip dst_port src_port s).tcb_table
unfolding tcp_send_fin send_header
fin-Lingers n dst_ip dst_port src_port s h =
    elim (Option-cases (open_slot dst_ip dst_port s.tcb_table)) [
      | inl e ↦ rw (e, tcp_send_fin) h
      | inr ((i, t), e) ↦
          rw (e, tcp_send_fin)
            (on_slot-Lingers n i (finished s.uptime_ms) s.tcb_table (λ u here k. refl) h)
    ]

wrapper-Lingers :
    (n : ℕ) (bytes : List ℕ) (src_ip src_port : ℕ) (s : Stack)
    → Lingers n s.tcb_table
    → Lingers n (portal_socket_wrapper bytes src_ip src_port s).tcb_table
unfolding portal_socket_wrapper
wrapper-Lingers n bytes src_ip src_port s h = elim (Bool-cases (length bytes == 0)) [
  | inl k ↦ rw (k, portal_socket_wrapper) h
  | inr nonempty ↦
      elim (Option-cases (str_contains (some (bytes ++ 0 ∷ [])) (some (get_text ++ 0 ∷ [])))) [
        | inl e ↦ rw (nonempty, portal_socket_wrapper, e) h
        | inr (true, e) ↦
            elim (Option-cases
              (ksnprintf 256 header_text (Arg.uint (length s.aether_index_html) ∷ []))) [
                | inl k ↦ rw (nonempty, portal_socket_wrapper, e, k) h
                | inr (header, k) ↦
                    let first : Stack = tcp_send_data src_ip src_port 80 header s in
                    let second : Stack =
                      tcp_send_data src_ip src_port 80 s.aether_index_html first in
                    rw (nonempty, portal_socket_wrapper, e, k)
                      (fin-Lingers n src_ip src_port 80 second (
                        data-Lingers n src_ip src_port 80 s.aether_index_html first
                          (data-Lingers n src_ip src_port 80 header s h)))
              ]
        | inr (false, e) ↦ rw (nonempty, portal_socket_wrapper, e) h
      ]
]

packet-Lingers :
    (n : ℕ) (dst_port : ℕ) (bytes : List ℕ) (src_ip src_port : ℕ) (s : Stack)
    → Lingers n s.tcb_table
    → Lingers n (socket_handle_packet dst_port bytes src_ip src_port s).tcb_table
unfolding socket_handle_packet
packet-Lingers n dst_port bytes src_ip src_port s h =
    elim (Option-cases (socket_lookup dst_port s.listeners)) [
      | inl e ↦ rw (e, socket_handle_packet) h
      | inr (Handler.portal_socket_wrapper_fn, e) ↦
          rw (e, socket_handle_packet) (wrapper-Lingers n bytes src_ip src_port s h)
    ]

open-Lingers :
    (n src_ip : ℕ) (g : Segment) (s : Stack)
    → Lingers n s.tcb_table
    → Lingers n (open_connection src_ip g s).tcb_table
unfolding open_connection tcp_allocate_tcb
open-Lingers n src_ip g s h =
    elim (Bool-cases (has g.flags flag_syn && not (has g.flags flag_ack) && (g.dest_port == 80))) [
      | inl syn ↦ elim (Option-cases (free_from 0 s.tcb_table)) [
        | inl e ↦ rw (syn, e) h
        | inr (i, e) ↦
            let fresh : Stack = record s {
              tcb_table = on_slot i (allocated s.uptime_ms) s.tcb_table;
            } in
            rw (syn, e, tcp_allocate_tcb, e)
              (synack-Lingers n i (on_tcb i (opened src_ip g s.uptime_ms) fresh) (
                rw
                  (on_slot-on_slot i (allocated s.uptime_ms) (opened src_ip g s.uptime_ms)
                    s.tcb_table)
                  (closed-Lingers n i (λ t. opened src_ip g s.uptime_ms (allocated s.uptime_ms t))
                    s.tcb_table (free_from-closed i s.tcb_table e) h)))
      ]
      | inr other ↦ rw other h
    ]

payload-Lingers :
    (n : ℕ) (i src_ip : ℕ) (g : Segment) (t : Slot) (s : Stack)
    → Lingers n s.tcb_table
    → Lingers n (take_payload i src_ip g t s).tcb_table
unfolding take_payload
payload-Lingers n i src_ip g t s h = elim (Bool-cases (g.seq == t.rcv_nxt)) [
  | inl e ↦
      let stored : Stack = on_tcb i (received (length g.payload)) s in
      rw (e, take_payload)
        (packet-Lingers n g.dest_port g.payload src_ip g.src_port (tcp_send_ack i stored) (
          ack-Lingers n i stored
            (same-Lingers n (received (length g.payload)) (λ u. refl) i s.tcb_table h)))
  | inr e ↦ rw (e, take_payload) h
]

segment-Lingers :
    (n i src_ip : ℕ) (g : Segment) (t : Slot) (s : Stack)
    → slot_at i s.tcb_table ≡ some t
    → has g.flags flag_rst ≡ false
    → Lingers n s.tcb_table
    → Lingers n (on_segment i src_ip g t s).tcb_table
unfolding on_segment
segment-Lingers n i src_ip g t s there no_reset h =
    elim (Bool-cases (
      is_syn_rcvd t.state
      && has g.flags flag_ack
      && not (has g.flags flag_syn)
      && (g.ack == t.snd_nxt))) [
        | inl shaken ↦
            rw (shaken, on_segment)
              (state-Lingers n i State.established t s there
                (syn_rcvd-moves t.state (ground (arith, shaken))) h)
        | inr a ↦ elim (Bool-cases (is_established t.state && ltb 0 (length g.payload))) [
          | inl some_data ↦ rw (a, some_data, on_segment) (payload-Lingers n i src_ip g t s h)
          | inr b ↦ elim (Bool-cases (has g.flags flag_fin && is_established t.state)) [
            | inl fin ↦
                let stored : Stack = on_tcb i (received 1) s in
                rw (a, b, fin, on_segment)
                  (state-Lingers n i State.close_wait (touched s.uptime_ms (received 1 t))
                    (tcp_send_ack i stored)
                    (slot_at-ack i (received 1 t) stored
                      (slot_at-on_slot i (received 1) t s.tcb_table there))
                    (established-moves t.state (ground (arith, fin)))
                    (ack-Lingers n i stored
                      (same-Lingers n (received 1) (λ u. refl) i s.tcb_table h)))
            | inr c ↦ rw (a, b, c, no_reset, on_segment) h
          ]
        ]
      ]

deliver-Lingers :
    (n src_ip : ℕ) (g : Segment) (s : Stack)
    → has g.flags flag_rst ≡ false
    → Lingers n s.tcb_table
    → Lingers n (deliver src_ip g s).tcb_table
unfolding deliver
deliver-Lingers n src_ip g s no_reset h =
    elim (Option-cases (tcp_find_tcb src_ip g.src_port s.tcb_table)) [
      | inl missing ↦ rw (missing, deliver) (open-Lingers n src_ip g s h)
      | inr (i, found) ↦ elim (Option-cases (slot_at i s.tcb_table)) [
        | inl nothing ↦ rw (found, deliver, nothing) h
        | inr (t, there) ↦
            rw (found, deliver, there)
              (segment-Lingers n i src_ip g (touched s.uptime_ms t)
                (on_tcb i (touched s.uptime_ms) s)
                (slot_at-on_slot i (touched s.uptime_ms) t s.tcb_table there) no_reset
                (same-Lingers n (touched s.uptime_ms) (λ u. refl) i s.tcb_table h))
      ]
    ]

reaped-Lingers :
    (n timeout_ms now : ℕ) (ts : List Slot)
    → Lingers n ts
    → Lingers n (tcp_reap_syn_timeouts timeout_ms now ts)
unfolding lingers tcp_reap_syn_timeouts reap_slot
reaped-Lingers n timeout_ms now [] h = h
reaped-Lingers zero timeout_ms now (t ∷ ts) h = rw (not_syn_rcvd t.state h) h
reaped-Lingers (suc n) timeout_ms now (t ∷ ts) h = reaped-Lingers n timeout_ms now ts h

-- In the earlier stack, a slot of the table that is in LAST_ACK stays in it, whatever segment
-- without the RST flag arrives, the acknowledgement of the FIN included, and whatever the watchdog
-- reaps.
pub tcp_handle-Lingers :
    (n : ℕ) (segment : List ℕ) (src_ip dest_ip timeout_ms now : ℕ) (s : Stack)
    → has (parse segment).flags flag_rst ≡ false
    → Lingers n s.tcb_table
    → Lingers n (tcp_handle segment src_ip dest_ip s).tcb_table
      × Lingers n (tcp_reap_syn_timeouts timeout_ms now s.tcb_table)
unfolding tcp_handle
tcp_handle-Lingers n segment src_ip dest_ip timeout_ms now s no_reset h =
    let payload = drop (header_len segment) segment in
    let reaped = reaped-Lingers n timeout_ms now s.tcb_table h in
    elim (Bool-cases (ltb (length segment) 20)) [
      | inl short ↦ rw short (h, reaped)
      | inr a ↦ elim (Bool-cases (ltb (length segment) (header_len segment))) [
        | inl short ↦ rw (a, short) (h, reaped)
        | inr b ↦
            elim (Bool-cases
              (tcp_validate_checksum (htonl src_ip) (htonl dest_ip) (take 20 segment) payload)) [
                | inl valid ↦
                    rw (a, b, valid) (deliver-Lingers n src_ip (parse segment) s no_reset h, reaped)
                | inr wrong ↦ rw (a, b, wrong) (h, reaped)
              ]
      ]
    ]
