-- ===== src/Tests/Earlier.antt =====
-- The earlier stack of AetherWebOS/backups/src on a concrete input.
use aether_webos.Prelude.{ℕ, ◌≡◌, refl, List, [], ◌∷◌, true, false}
use aether_webos.Memory.Heap.{initial}
use aether_webos.Earlier.Table.{State, Slot, zeroed, tcp_init_stack, tcp_reap_syn_timeouts}
use aether_webos.Earlier.Tcp.{Stack, socket_init, tcp_handle, parse}
use aether_webos.Earlier.Checksum.{calculate_sum, tcp_validate_checksum}
use aether_webos.Net.Checksum.{sum_be, fold_loop}
use aether_webos.Utils.ByteOrder.{htonl}
use aether_webos.Earlier.Tcp.Endpoints.{Unclashed}
use aether_webos.Net.Tcp.{has, flag_rst}
use aether_webos.Earlier.Tcp.LastAck.{lingers, Lingers}
use aether_webos.Earlier.Tcp.AfterFin.{tcp_handle-Lingers}
use aether_webos.Earlier.Tcp.Runs.{Event, run, run-Unclashed}

-- One connection from 10.0.2.2, and seven free slots.
abbrev one_open : List Slot
one_open =
    record zeroed {
      remote_ip = 0x0A000202;
      remote_port = 5000;
      local_port = 80;
      state = State.established;
    }
    ∷ zeroed
    ∷ zeroed
    ∷ zeroed
    ∷ zeroed
    ∷ zeroed
    ∷ zeroed
    ∷ zeroed
    ∷ []

abbrev stack : Stack
stack = record {
  tcb_table = one_open;
  listeners = socket_init;
  uptime_ms = 1000;
  aether_index_html = b'h' ∷ b'i' ∷ [];
  aether_ip = 0x0A00020F;
  heap = initial;
  sent = [];
}

-- A FIN of that connection.
abbrev fin : List ℕ
fin =
    0x13 ∷ 0x88 ∷ 0 ∷ 80 ∷ 0 ∷ 0 ∷ 0 ∷ 0 ∷ 0 ∷ 0 ∷ 0 ∷ 0 ∷ 0x50 ∷ 0x11 ∷ 0x20 ∷ 0 ∷ 106 ∷ 228 ∷ 0
    ∷ 0 ∷ []

-- The receiver takes it.
fin-valid : tcp_validate_checksum (htonl 0x0A000202) (htonl 0x0A00020F) fin [] ≡ true
unfolding tcp_validate_checksum calculate_sum sum_be fold_loop htonl
fin-valid = refl

abbrev fresh : Stack
fresh = record stack { tcb_table = tcp_init_stack }

abbrev fin_then_watchdog : List Event
fin_then_watchdog = Event.segment fin 0x0A000202 0x0A00020F ∷ Event.watchdog 5000 90000 ∷ []

run-Unclashed_example : Unclashed (run fin_then_watchdog fresh).tcb_table
run-Unclashed_example = run-Unclashed fin_then_watchdog fresh refl

-- A connection that was answered.
abbrev answered : Stack
answered = record stack {
  tcb_table =
      record zeroed {
        remote_ip = 0x0A000202;
        remote_port = 5000;
        local_port = 80;
        state = State.last_ack;
      }
      ∷ zeroed
      ∷ [];
}

answered-Lingers : Lingers 0 answered.tcb_table
unfolding lingers
answered-Lingers = refl

fin-no_reset : has (parse fin).flags flag_rst ≡ false
unfolding parse
fin-no_reset = refl

tcp_handle-Lingers_example :
    Lingers 0 (tcp_handle fin 0x0A000202 0x0A00020F answered).tcb_table
    × Lingers 0 (tcp_reap_syn_timeouts 5000 90000 answered.tcb_table)
tcp_handle-Lingers_example =
    tcp_handle-Lingers 0 fin 0x0A000202 0x0A00020F 5000 90000 answered fin-no_reset answered-Lingers
