-- ===== src/Earlier/Tcp/Kept.antt =====
-- `tcp_handle` of AetherWebOS/backups/src/tcp.c keeps the remote ends apart.
use aether_webos.Prelude.{
  ℕ, zero, suc, ◌≡◌, refl, arith, ap, List, [], ◌∷◌, ◌++◌, none, some, true, false, not, ◌&&◌, ◌==◌,
  ltb, length, drop, take, Bool-cases, Option-cases, inl, inr,
}
use aether_webos.Utils.ByteOrder.{htonl}
use aether_webos.Utils.Text.{str_contains}
use aether_webos.Utils.Format.{Arg, ksnprintf}
use aether_webos.Net.Tcp.{has, flag_fin, flag_syn, flag_rst, flag_ack}
use aether_webos.Earlier.Checksum.{tcp_validate_checksum}
use aether_webos.Earlier.Table.{
  State, Slot, zeroed, is_closed, is_established, is_syn_rcvd, slot_at, on_slot, free_from,
  allocated, tcp_allocate_tcb, tcp_find_tcb,
}
use aether_webos.Earlier.Tcp.{
  Stack, Handler, Segment, on_tcb, touched, set_state, received, opened, tcp_send_ack,
  tcp_send_data, get_text, header_text, portal_socket_wrapper, socket_lookup, socket_handle_packet,
  header_len, parse, open_connection, take_payload, on_segment, deliver, tcp_handle,
}
use aether_webos.Earlier.Tcp.Endpoints.{
  Unclashed, on_slot-Unclashed, slot_at-on_slot, find-NoMatch, put-Unclashed,
}
use aether_webos.Earlier.Tcp.Sending.{
  same-Keeps, synack-Unclashed, ack-Unclashed, slot_at-ack, established-open, syn_rcvd-open,
  open-Keeps, closed-same, data-Unclashed, fin-Unclashed,
}

wrapper-Unclashed :
    (bytes : List ℕ) (src_ip src_port : ℕ) (s : Stack)
    → Unclashed s.tcb_table
    → Unclashed (portal_socket_wrapper bytes src_ip src_port s).tcb_table
unfolding portal_socket_wrapper
wrapper-Unclashed bytes src_ip src_port s h = elim (Bool-cases (length bytes == 0)) [
  | inl k ↦ rw (k, portal_socket_wrapper) h
  | inr nonempty ↦
      elim (Option-cases (str_contains (some (bytes ++ 0 ∷ [])) (some (get_text ++ 0 ∷ [])))) [
        | inl e ↦ rw (nonempty, portal_socket_wrapper, e) h
        | inr (true, e) ↦
            elim (Option-cases
              (ksnprintf 256 header_text (Arg.uint (length s.aether_index_html) ∷ []))) [
                | inl k ↦ rw (nonempty, portal_socket_wrapper, e, k) h
                | inr (header, k) ↦
                    let first : Stack = tcp_send_data src_ip src_port 80 header s in
                    let second : Stack =
                      tcp_send_data src_ip src_port 80 s.aether_index_html first in
                    rw (nonempty, portal_socket_wrapper, e, k)
                      (fin-Unclashed src_ip src_port 80 second (
                        data-Unclashed src_ip src_port 80 s.aether_index_html first
                          (data-Unclashed src_ip src_port 80 header s h)))
              ]
        | inr (false, e) ↦ rw (nonempty, portal_socket_wrapper, e) h
      ]
]

packet-Unclashed :
    (dst_port : ℕ) (bytes : List ℕ) (src_ip src_port : ℕ) (s : Stack)
    → Unclashed s.tcb_table
    → Unclashed (socket_handle_packet dst_port bytes src_ip src_port s).tcb_table
unfolding socket_handle_packet
packet-Unclashed dst_port bytes src_ip src_port s h =
    elim (Option-cases (socket_lookup dst_port s.listeners)) [
      | inl e ↦ rw (e, socket_handle_packet) h
      | inr (Handler.portal_socket_wrapper_fn, e) ↦
          rw (e, socket_handle_packet) (wrapper-Unclashed bytes src_ip src_port s h)
    ]

pub on_slot-on_slot :
    (i : ℕ) (f g : Slot → Slot) (ts : List Slot)
    → on_slot i g (on_slot i f ts) ≡ on_slot i (λ t. g (f t)) ts
unfolding on_slot
on_slot-on_slot i f g [] = refl
on_slot-on_slot zero f g (t ∷ ts) = refl
on_slot-on_slot (suc i) f g (t ∷ ts) = ap (λ us. t ∷ us) (on_slot-on_slot i f g ts)

open-Unclashed :
    (src_ip : ℕ) (g : Segment) (s : Stack)
    → tcp_find_tcb src_ip g.src_port s.tcb_table ≡ none
    → Unclashed s.tcb_table
    → Unclashed (open_connection src_ip g s).tcb_table
unfolding open_connection tcp_allocate_tcb tcp_find_tcb
open-Unclashed src_ip g s missing h =
    elim (Bool-cases (has g.flags flag_syn && not (has g.flags flag_ack) && (g.dest_port == 80))) [
      | inl syn ↦ elim (Option-cases (free_from 0 s.tcb_table)) [
        | inl e ↦ rw (syn, e) h
        | inr (i, e) ↦
            let fresh : Stack = record s {
              tcb_table = on_slot i (allocated s.uptime_ms) s.tcb_table;
            } in
            rw (syn, e, tcp_allocate_tcb, e)
              (synack-Unclashed i (on_tcb i (opened src_ip g s.uptime_ms) fresh) (
                rw
                  (on_slot-on_slot i (allocated s.uptime_ms) (opened src_ip g s.uptime_ms)
                    s.tcb_table)
                  (put-Unclashed src_ip g.src_port
                    (opened src_ip g s.uptime_ms (allocated s.uptime_ms zeroed)) (refl, refl) i
                    s.tcb_table (find-NoMatch src_ip g.src_port 0 s.tcb_table missing) h)))
      ]
      | inr other ↦ rw other h
    ]

-- A change of the state of the connection `i`, which is open.
state-Unclashed :
    (i : ℕ) (state : State) (t : Slot) (s : Stack)
    → slot_at i s.tcb_table ≡ some t
    → is_closed t.state ≡ false
    → Unclashed s.tcb_table
    → Unclashed (on_tcb i (set_state state) s).tcb_table
state-Unclashed i state t s there c h =
    on_slot-Unclashed i (set_state state) s.tcb_table
      (λ u here.
        open-Keeps u (set_state state u) (closed-same i t u s.tcb_table there here c) refl refl)
      h

payload-Unclashed :
    (i src_ip : ℕ) (g : Segment) (t : Slot) (s : Stack)
    → Unclashed s.tcb_table
    → Unclashed (take_payload i src_ip g t s).tcb_table
unfolding take_payload
payload-Unclashed i src_ip g t s h = elim (Bool-cases (g.seq == t.rcv_nxt)) [
  | inl e ↦
      let stored : Stack = on_tcb i (received (length g.payload)) s in
      rw (e, take_payload)
        (packet-Unclashed g.dest_port g.payload src_ip g.src_port (tcp_send_ack i stored) (
          ack-Unclashed i stored (
            same-Keeps (received (length g.payload)) (λ u. inr (refl, refl, λ c. c)) i s.tcb_table
              h)))
  | inr e ↦ rw (e, take_payload) h
]

segment-Unclashed :
    (i src_ip : ℕ) (g : Segment) (t : Slot) (s : Stack)
    → slot_at i s.tcb_table ≡ some t
    → Unclashed s.tcb_table
    → Unclashed (on_segment i src_ip g t s).tcb_table
unfolding on_segment
segment-Unclashed i src_ip g t s there h =
    elim (Bool-cases (
      is_syn_rcvd t.state
      && has g.flags flag_ack
      && not (has g.flags flag_syn)
      && (g.ack == t.snd_nxt))) [
        | inl shaken ↦
            rw (shaken, on_segment)
              (state-Unclashed i State.established t s there
                (syn_rcvd-open t.state (ground (arith, shaken))) h)
        | inr a ↦ elim (Bool-cases (is_established t.state && ltb 0 (length g.payload))) [
          | inl some_data ↦ rw (a, some_data, on_segment) (payload-Unclashed i src_ip g t s h)
          | inr b ↦ elim (Bool-cases (has g.flags flag_fin && is_established t.state)) [
            | inl fin ↦
                let stored : Stack = on_tcb i (received 1) s in
                rw (a, b, fin, on_segment)
                  (state-Unclashed i State.close_wait (touched s.uptime_ms (received 1 t))
                    (tcp_send_ack i stored)
                    (slot_at-ack i (received 1 t) stored
                      (slot_at-on_slot i (received 1) t s.tcb_table there))
                    (established-open t.state (ground (arith, fin)))
                    (ack-Unclashed i stored
                      (same-Keeps (received 1) (λ u. inr (refl, refl, λ c. c)) i s.tcb_table h)))
            | inr c ↦ elim (Bool-cases (has g.flags flag_rst)) [
              | inl rst ↦
                  rw (a, b, c, rst, on_segment)
                    (same-Keeps (set_state State.closed) (λ u. inl refl) i s.tcb_table h)
              | inr d ↦ rw (a, b, c, d, on_segment) h
            ]
          ]
        ]
      ]

deliver-Unclashed :
    (src_ip : ℕ) (g : Segment) (s : Stack)
    → Unclashed s.tcb_table
    → Unclashed (deliver src_ip g s).tcb_table
unfolding deliver
deliver-Unclashed src_ip g s h = elim (Option-cases (tcp_find_tcb src_ip g.src_port s.tcb_table)) [
  | inl missing ↦ rw (missing, deliver) (open-Unclashed src_ip g s missing h)
  | inr (i, found) ↦ elim (Option-cases (slot_at i s.tcb_table)) [
    | inl nothing ↦ rw (found, deliver, nothing) h
    | inr (t, there) ↦
        rw (found, deliver, there)
          (segment-Unclashed i src_ip g (touched s.uptime_ms t) (on_tcb i (touched s.uptime_ms) s)
            (slot_at-on_slot i (touched s.uptime_ms) t s.tcb_table there)
            (same-Keeps (touched s.uptime_ms) (λ u. inr (refl, refl, λ c. c)) i s.tcb_table h))
  ]
]

-- In the earlier stack, whatever segment arrives, no two slots of the table ever hold open
-- connections to the same remote address and port.
pub tcp_handle-Unclashed :
    (segment : List ℕ) (src_ip dest_ip : ℕ) (s : Stack)
    → Unclashed s.tcb_table
    → Unclashed (tcp_handle segment src_ip dest_ip s).tcb_table
unfolding tcp_handle
tcp_handle-Unclashed segment src_ip dest_ip s h =
    let payload = drop (header_len segment) segment in
    elim (Bool-cases (ltb (length segment) 20)) [
      | inl short ↦ rw short h
      | inr a ↦ elim (Bool-cases (ltb (length segment) (header_len segment))) [
        | inl short ↦ rw (a, short) h
        | inr b ↦
            elim (Bool-cases
              (tcp_validate_checksum (htonl src_ip) (htonl dest_ip) (take 20 segment) payload)) [
                | inl valid ↦ rw (a, b, valid) (deliver-Unclashed src_ip (parse segment) s h)
                | inr wrong ↦ rw (a, b, wrong) h
              ]
      ]
    ]
