-- ===== src/Net/Receive/Round.antt =====
-- The connections over a round of the loop in AetherWebOS/src/kernel/kernel.c.
use aether_webos.Net.Stack.{Net}
use aether_webos.Net.Tcp.Input.States.{Waiting}
use aether_webos.Net.Tcp.Input.Unique.{Unique}

-- Every connection waits for a segment, and no two have the same 4-tuple.
abbrev pub Sound : Net → Type 0
Sound net = Waiting net × Unique net
