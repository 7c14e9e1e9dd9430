-- ===== src/Console/Portal/Connections.antt =====
-- The connections on the dashboard of AetherWebOS/src/kernel/portal.c.
use aether_webos.Prelude.{ℕ, ◌≡◌, refl, List, [], ◌∷◌, ◌++◌, map, ap, u32, if◌then◌else◌, ◌+◌}
use aether_webos.Net.Stack.{Tcb}
use aether_webos.Net.Tcp.{is_established}
use aether_webos.Net.Receive.{count_established}
use aether_webos.Console.Portal.{counter_line, state_number, state_at, connection_loop}
use aether_webos.Console.Portal.Texts.{debug_text}

-- The states that are shown: those of all connections but the first, and what stands at the null
-- pointer; nothing without a connection.
abbrev pub shown : ℕ → List Tcb → List ℕ
shown null_state [] = []
shown null_state (t ∷ ts) = map (λ (u : Tcb). state_number u.state) ts ++ null_state ∷ []

abbrev pub lines : List ℕ → List ℕ
lines [] = []
lines (s ∷ ss) = counter_line debug_text s ++ lines ss

-- The dashboard counts the connections in ESTABLISHED as `health_update_tcp_stats` does, but the
-- states that it prints are those of all connections but the first, and after them whatever memory
-- holds where the state of a null pointer would stand.
pub connection_loop-shown :
    (null_state : ℕ) (tcbs : List Tcb) (active : ℕ)
    → connection_loop null_state tcbs active
      ≡ (lines (shown null_state tcbs), count_established tcbs active)
unfolding connection_loop count_established state_at
connection_loop-shown null_state [] active = refl
connection_loop-shown null_state (t ∷ []) active = refl
connection_loop-shown null_state (t ∷ u ∷ ts) active =
    ap (λ (r : List ℕ × ℕ). (counter_line debug_text (state_number u.state) ++ r.0, r.1))
      (connection_loop-shown null_state (u ∷ ts)
        (if is_established t.state then u32 (active + 1) else active))
