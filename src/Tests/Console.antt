-- ===== src/Tests/Console.antt =====
-- The console output of AetherWebOS on concrete inputs.
use aether_webos.Prelude.{ℕ, ◌≤◌, ◌≡◌, arith, List, [], ◌∷◌, none, some, true, drop}
use aether_webos.Net.Stack.{TcpState, Tcb}
use aether_webos.Net.Tcp.{new_tcb}
use aether_webos.Net.Receive.{count_established}
use aether_webos.Console.Ipv6.{zeros, search}
use aether_webos.Console.Ipv6.Longest.{search-longest}
use aether_webos.Console.Portal.{PortalState, state_number, connection_loop}
use aether_webos.Console.Portal.Connections.{lines, connection_loop-shown}

-- fe80::5254:ff:fe12:3456
abbrev link_local : List ℕ
link_local = 0xFE80 ∷ 0 ∷ 0 ∷ 0 ∷ 0x5254 ∷ 0xFF ∷ 0xFE12 ∷ 0x3456 ∷ []

search-longest_example :
    let r = search 8 0 link_local (record { best_start = none; best_len = 0 }) in
    ((p : ℕ) → zeros (drop p link_local) ≤ r.best_len)
    × ((s : ℕ) → r.best_start ≡ some s → zeros (drop s link_local) ≡ r.best_len)
    × (r.best_start ≡ none → r.best_len ≡ 0)
search-longest_example = search-longest link_local (omega arith)

abbrev two_connections : List Tcb
two_connections =
    record (new_tcb 0x41000018 0) { state = TcpState.established } ∷ new_tcb 0x41000100 0 ∷ []

connection_loop-shown_example :
    connection_loop 77 two_connections 0
    ≡ (lines (0 ∷ 77 ∷ []), count_established two_connections 0)
unfolding state_number
connection_loop-shown_example = connection_loop-shown 77 two_connections 0

abbrev plain_state : PortalState
plain_state = record {
  uptime_ms = 0;
  heap_usage_kb = 0;
  device_count = 1;
  packets_rx = 0;
  packets_tx = 0;
  link_status = true;
  mac = [];
}
