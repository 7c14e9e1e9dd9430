-- ===== src/Earlier/Table.antt =====
-- AetherWebOS/backups/src/tcp_state.c. A pointer to a connection is its index in the table.
use aether_webos.Prelude.{
  ℕ, zero, suc, ◌+◌, ◌-◌, ◌^◌, List, [], ◌∷◌, Option, none, some, Bool, true, false, not, ◌&&◌,
  ◌==◌, ltb, if◌then◌else◌, replicate, u64,
}

pub data State : Type 0 where
  closed : State
  listen : State
  syn_rcvd : State
  established : State
  fin_wait_1 : State
  fin_wait_2 : State
  close_wait : State
  last_ack : State
  time_wait : State

-- `struct tcp_control_block`, without the callback, which nothing sets.
pub record Slot : Type 0 where
  pub remote_ip : ℕ
  pub remote_port : ℕ
  pub local_port : ℕ
  pub state : State
  pub snd_una : ℕ
  pub snd_nxt : ℕ
  pub rcv_nxt : ℕ
  pub snd_wnd : ℕ
  pub rcv_wnd : ℕ
  pub last_activity : ℕ

-- After `memset`.
abbrev pub zeroed : Slot
zeroed = record {
  remote_ip = 0;
  remote_port = 0;
  local_port = 0;
  state = State.closed;
  snd_una = 0;
  snd_nxt = 0;
  rcv_nxt = 0;
  snd_wnd = 0;
  rcv_wnd = 0;
  last_activity = 0;
}

abbrev pub max_tcp_conn : ℕ
max_tcp_conn = 8

unfoldable pub tcp_init_stack : List Slot
tcp_init_stack = replicate max_tcp_conn zeroed

abbrev pub is_closed : State → Bool
is_closed State.closed = true
is_closed _ = false

abbrev pub is_established : State → Bool
is_established State.established = true
is_established _ = false

abbrev pub is_syn_rcvd : State → Bool
is_syn_rcvd State.syn_rcvd = true
is_syn_rcvd _ = false

-- What the pointer leads to, and a change there.
unfoldable pub slot_at : ℕ → List Slot → Option Slot
slot_at i [] = none
slot_at zero (t ∷ ts) = some t
slot_at (suc i) (t ∷ ts) = slot_at i ts

unfoldable pub on_slot : ℕ → (Slot → Slot) → List Slot → List Slot
on_slot i f [] = []
on_slot zero f (t ∷ ts) = f t ∷ ts
on_slot (suc i) f (t ∷ ts) = t ∷ on_slot i f ts

-- The first closed slot, from index `i` on.
unfoldable pub free_from : ℕ → List Slot → Option ℕ
free_from i [] = none
free_from i (t ∷ ts) = let rest = free_from (i + 1) ts in if is_closed t.state then some i else rest

-- The slot when it has been allocated.
abbrev pub allocated : ℕ → Slot → Slot
allocated now t = record zeroed { rcv_wnd = 8192; last_activity = now }

unfoldable pub tcp_allocate_tcb : ℕ → List Slot → List Slot × Option ℕ
tcp_allocate_tcb now table = elim (free_from 0 table) [
  | none ↦ (table, none)
  | some i ↦ (on_slot i (allocated now) table, some i)
]

abbrev pub matches : ℕ → ℕ → Slot → Bool
matches remote_ip remote_port t =
    not (is_closed t.state) && (t.remote_ip == remote_ip) && (t.remote_port == remote_port)

-- The first slot that matches, from index `i` on.
unfoldable pub find_from : ℕ → ℕ → ℕ → List Slot → Option ℕ
find_from remote_ip remote_port i [] = none
find_from remote_ip remote_port i (t ∷ ts) =
    let rest = find_from remote_ip remote_port (i + 1) ts in
    if matches remote_ip remote_port t then some i else rest

unfoldable pub tcp_find_tcb : ℕ → ℕ → List Slot → Option ℕ
tcp_find_tcb remote_ip remote_port table = find_from remote_ip remote_port 0 table

unfoldable pub tcp_free_tcb : Option ℕ → List Slot → List Slot
tcp_free_tcb none table = table
tcp_free_tcb (some i) table = on_slot i (λ t. zeroed) table

unfoldable pub tcp_get_active_count : List Slot → ℕ
tcp_get_active_count [] = 0
tcp_get_active_count (t ∷ ts) =
    let rest = tcp_get_active_count ts in if is_established t.state then suc rest else rest

-- One round of the loop of the watchdog.
unfoldable pub reap_slot : ℕ → ℕ → Slot → Slot
reap_slot timeout_ms now t =
    if is_syn_rcvd t.state && ltb timeout_ms (u64 (now + (2 ^ 64 - t.last_activity)))
    then zeroed
    else t

unfoldable pub tcp_reap_syn_timeouts : ℕ → ℕ → List Slot → List Slot
tcp_reap_syn_timeouts timeout_ms now [] = []
tcp_reap_syn_timeouts timeout_ms now (t ∷ ts) =
    reap_slot timeout_ms now t ∷ tcp_reap_syn_timeouts timeout_ms now ts
