-- ===== src/Earlier/Tcp/Runs.antt =====
-- Any sequence of segments and of runs of the watchdog in the earlier TCP stack
-- (AetherWebOS/backups/src/tcp.c and AetherWebOS/backups/src/tcp_state.c), from its start.
use aether_webos.Prelude.{
  ℕ, zero, suc, ◌^◌, ◌+◌, ◌-◌, ◌≡◌, refl, List, [], ◌∷◌, ◌&&◌, ltb, u64, Bool-cases, inl, inr,
  replicate,
}
use aether_webos.Earlier.Table.{
  Slot, zeroed, is_syn_rcvd, reap_slot, tcp_reap_syn_timeouts, tcp_init_stack, max_tcp_conn,
}
use aether_webos.Earlier.Tcp.{Stack, tcp_handle}
use aether_webos.Earlier.Tcp.Endpoints.{Apart, Unclashed, Keeps, Keeps-right, Apart-left}
use aether_webos.Earlier.Tcp.Kept.{tcp_handle-Unclashed}

pub data Event : Type 0 where
  segment : List ℕ → ℕ → ℕ → Event
  watchdog : ℕ → ℕ → Event

abbrev pub react : Event → Stack → Stack
react (Event.segment bytes src_ip dest_ip) s = tcp_handle bytes src_ip dest_ip s
react (Event.watchdog timeout_ms now) s = record s {
  tcb_table = tcp_reap_syn_timeouts timeout_ms now s.tcb_table;
}

abbrev pub run : List Event → Stack → Stack
run [] s = s
run (e ∷ es) s = run es (react e s)

module _ (timeout_ms now : ℕ) where
  reap_slot-Keeps : (t : Slot) → Keeps t (reap_slot timeout_ms now t)
  unfolding reap_slot
  reap_slot-Keeps t =
      elim (Bool-cases
        (is_syn_rcvd t.state && ltb timeout_ms (u64 (now + (2 ^ 64 - t.last_activity))))) [
          | inl e ↦ rw (e, reap_slot) (inl refl)
          | inr e ↦ rw (e, reap_slot) (inr (refl, refl, λ c. c))
        ]

  reap-Apart :
      (x : Slot) (ts : List Slot) → Apart x ts → Apart x (tcp_reap_syn_timeouts timeout_ms now ts)
  unfolding tcp_reap_syn_timeouts
  reap-Apart x [] a = tt
  reap-Apart x (t ∷ ts) a =
      (Keeps-right t (reap_slot timeout_ms now t) x (reap_slot-Keeps t) a.0, reap-Apart x ts a.1)

  reap-Unclashed :
      (ts : List Slot) → Unclashed ts → Unclashed (tcp_reap_syn_timeouts timeout_ms now ts)
  unfolding tcp_reap_syn_timeouts
  reap-Unclashed [] h = tt
  reap-Unclashed (t ∷ ts) h =
      let rest : List Slot = tcp_reap_syn_timeouts timeout_ms now ts in
      (
        Apart-left t (reap_slot timeout_ms now t) rest (reap_slot-Keeps t) (reap-Apart t ts h.0),
        reap-Unclashed ts h.1,
      )

zeroed-Apart : (n : ℕ) → Apart zeroed (replicate n zeroed)
zeroed-Apart zero = tt
zeroed-Apart (suc n) = (refl, zeroed-Apart n)

zeroed-Unclashed : (n : ℕ) → Unclashed (replicate n zeroed)
zeroed-Unclashed zero = tt
zeroed-Unclashed (suc n) = (zeroed-Apart n, zeroed-Unclashed n)

run-kept : (es : List Event) (s : Stack) → Unclashed s.tcb_table → Unclashed (run es s).tcb_table
run-kept [] s h = h
run-kept (Event.segment bytes src_ip dest_ip ∷ es) s h =
    run-kept es (tcp_handle bytes src_ip dest_ip s) (tcp_handle-Unclashed bytes src_ip dest_ip s h)
run-kept (Event.watchdog timeout_ms now ∷ es) s h =
    run-kept es (react (Event.watchdog timeout_ms now) s)
      (reap-Unclashed timeout_ms now s.tcb_table h)

-- In the earlier stack, from the table that `tcp_init_stack` leaves, whatever segments arrive and
-- whenever the watchdog runs: no two slots of the table hold open connections to the same remote
-- address and port.
pub run-Unclashed :
    (es : List Event) (s : Stack) → s.tcb_table ≡ tcp_init_stack → Unclashed (run es s).tcb_table
unfolding tcp_init_stack
run-Unclashed es s fresh = run-kept es s (rw fresh (zeroed-Unclashed max_tcp_conn))
