-- ===== src/Earlier/Tcp/Sending.antt =====
-- The functions of AetherWebOS/backups/src/tcp.c that send a segment keep the remote ends apart.
use aether_webos.Prelude.{
  ℕ, ◌+◌, ◌≡◌, refl, arith, sym, ap, ◌∙◌, List, Option, none, some, true, false, length, Bool-cases,
  Option-cases, inl, inr,
}
use aether_webos.Memory.Heap.{kmalloc}
use aether_webos.Earlier.Table.{
  State, Slot, is_closed, is_established, is_syn_rcvd, slot_at, on_slot, tcp_find_tcb,
}
use aether_webos.Earlier.Tcp.{
  Stack, touched, sent_on, finished, opened, send_header, tcp_send_synack, tcp_send_ack, open_slot,
  tcp_send_data, tcp_send_fin,
}
use aether_webos.Earlier.Tcp.Endpoints.{Unclashed, Keeps, on_slot-Unclashed, slot_at-on_slot}

-- A change that leaves the remote end and the state.
pub same-Keeps :
    (f : Slot → Slot)
    → ((t : Slot) → Keeps t (f t))
    → (i : ℕ) (ts : List Slot) → Unclashed ts
    → Unclashed (on_slot i f ts)
same-Keeps f k i ts h = on_slot-Unclashed i f ts (λ t at. k t) h

pub synack-Unclashed :
    (i : ℕ) (s : Stack) → Unclashed s.tcb_table → Unclashed (tcp_send_synack i s).tcb_table
unfolding tcp_send_synack send_header
synack-Unclashed i s h = elim (Option-cases (slot_at i s.tcb_table)) [
  | inl e ↦ rw (e, tcp_send_synack) h
  | inr (t, e) ↦
      rw (e, tcp_send_synack)
        (same-Keeps (sent_on s.uptime_ms 1) (λ u. inr (refl, refl, λ c. c)) i s.tcb_table h)
]

pub ack-Unclashed :
    (i : ℕ) (s : Stack) → Unclashed s.tcb_table → Unclashed (tcp_send_ack i s).tcb_table
unfolding tcp_send_ack send_header
ack-Unclashed i s h = elim (Option-cases (slot_at i s.tcb_table)) [
  | inl e ↦ rw (e, tcp_send_ack) h
  | inr (t, e) ↦
      rw (e, tcp_send_ack)
        (same-Keeps (touched s.uptime_ms) (λ u. inr (refl, refl, λ c. c)) i s.tcb_table h)
]

-- Where an acknowledgement leaves the connection.
pub slot_at-ack :
    (i : ℕ) (t : Slot) (s : Stack)
    → slot_at i s.tcb_table ≡ some t
    → slot_at i (tcp_send_ack i s).tcb_table ≡ some (touched s.uptime_ms t)
unfolding tcp_send_ack send_header
slot_at-ack i t s e = rw (e, tcp_send_ack) (slot_at-on_slot i (touched s.uptime_ms) t s.tcb_table e)

pub established-open : (st : State) → is_established st ≡ true → is_closed st ≡ false
established-open State.established h = refl
established-open State.closed h = absurd (ground (arith, h))
established-open State.listen h = refl
established-open State.syn_rcvd h = refl
established-open State.fin_wait_1 h = refl
established-open State.fin_wait_2 h = refl
established-open State.close_wait h = refl
established-open State.last_ack h = refl
established-open State.time_wait h = refl

pub syn_rcvd-open : (st : State) → is_syn_rcvd st ≡ true → is_closed st ≡ false
syn_rcvd-open State.syn_rcvd h = refl
syn_rcvd-open State.closed h = absurd (ground (arith, h))
syn_rcvd-open State.listen h = refl
syn_rcvd-open State.established h = refl
syn_rcvd-open State.fin_wait_1 h = refl
syn_rcvd-open State.fin_wait_2 h = refl
syn_rcvd-open State.close_wait h = refl
syn_rcvd-open State.last_ack h = refl
syn_rcvd-open State.time_wait h = refl

-- A change of an open connection.
pub open-Keeps :
    (t u : Slot)
    → is_closed t.state ≡ false
    → u.remote_ip ≡ t.remote_ip
    → u.remote_port ≡ t.remote_port
    → Keeps t u
open-Keeps t u opened ip port = inr (ip, port, λ c. absurd (ground (arith, sym c ∙ opened)))

-- The connection that was found is in the table, and open.
abbrev Opened : List Slot → Option (ℕ × Slot) → Type 0
Opened ts none = Unit
Opened ts (some (i, t)) = (slot_at i ts ≡ some t) × (is_established t.state ≡ true)

open_slot-Opened : (ip port : ℕ) (ts : List Slot) → Opened ts (open_slot ip port ts)
unfolding open_slot
open_slot-Opened ip port ts = elim (Option-cases (tcp_find_tcb ip port ts)) [
  | inl missing ↦ rw (missing, open_slot) tt
  | inr (j, found) ↦ elim (Option-cases (slot_at j ts)) [
    | inl nothing ↦ rw (found, nothing, open_slot) tt
    | inr (u, there) ↦ elim (Bool-cases (is_established u.state)) [
      | inl live ↦ rw (found, there, live, open_slot) (there, live)
      | inr other ↦ rw (found, there, other, open_slot) tt
    ]
  ]
]

-- A pointer leads to one connection.
pub closed-same :
    (i : ℕ) (t u : Slot) (ts : List Slot)
    → slot_at i ts ≡ some t
    → slot_at i ts ≡ some u
    → is_closed t.state ≡ false
    → is_closed u.state ≡ false
closed-same i t u ts e e' c =
    ap (λ (o : Option Slot). elim o [ none ↦ true | some v ↦ is_closed v.state ]) (sym e' ∙ e) ∙ c

pub data-Unclashed :
    (dst_ip dst_port src_port : ℕ) (bytes : List ℕ) (s : Stack)
    → Unclashed s.tcb_table
    → Unclashed (tcp_send_data dst_ip dst_port src_port bytes s).tcb_table
unfolding tcp_send_data
data-Unclashed dst_ip dst_port src_port bytes s h =
    elim (Option-cases (open_slot dst_ip dst_port s.tcb_table)) [
      | inl e ↦ rw (e, tcp_send_data) h
      | inr ((i, t), e) ↦ elim (Option-cases (kmalloc (20 + length bytes) s.heap).1) [
        | inl k ↦ rw (e, tcp_send_data, k) h
        | inr (p, k) ↦
            rw (e, tcp_send_data, k)
              (same-Keeps (sent_on s.uptime_ms (length bytes)) (λ u. inr (refl, refl, λ c. c)) i
                s.tcb_table h)
      ]
    ]

pub fin-Unclashed :
    (dst_ip dst_port src_port : ℕ) (s : Stack)
    → Unclashed s.tcb_table
    → Unclashed (tcp_send_fin dst_ip dst_port src_port s).tcb_table
unfolding tcp_send_fin send_header
fin-Unclashed dst_ip dst_port src_port s h =
    elim (Option-cases (open_slot dst_ip dst_port s.tcb_table)) [
      | inl e ↦ rw (e, tcp_send_fin) h
      | inr ((i, t), e) ↦
          let (there, live) = rw e at (open_slot-Opened dst_ip dst_port s.tcb_table) in
          rw (e, tcp_send_fin)
            (on_slot-Unclashed i (finished s.uptime_ms) s.tcb_table
              (λ u here.
                open-Keeps u (finished s.uptime_ms u)
                  (closed-same i t u s.tcb_table there here (established-open t.state live)) refl
                  refl)
              h)
    ]
