-- ===== src/Net/Arp/Reply.antt =====
-- The answer of AetherWebOS/src/drivers/ethernet/arp.c to a request, byte by byte.
use aether_webos.Prelude.{ℕ, List, ◌∷◌, ◌++◌, take, drop}
use aether_webos.Utils.ByteOrder.{wire32}
use aether_webos.Net.Virtqueue.{Virtqueue}
use aether_webos.Net.Stack.{Net, frame}
use aether_webos.Net.Arp.{eth_type_arp}

laid : List ℕ → List ℕ → List ℕ → List ℕ → List ℕ
laid mac a b c = 0 ∷ 1 ∷ 8 ∷ 0 ∷ 6 ∷ 4 ∷ 0 ∷ 2 ∷ (mac ++ (a ++ (b ++ c)))

-- The reply, byte by byte, and its frame
abbrev pub reply : List ℕ → Net → List ℕ
reply packet net =
    0
    ∷ 1
    ∷ 8
    ∷ 0
    ∷ 6
    ∷ 4
    ∷ 0
    ∷ 2
    ∷ (net.aether_mac
        ++ (wire32 net.aether_ip ++ (take 6 (drop 8 packet) ++ take 4 (drop 14 packet))))

abbrev pub answer : List ℕ → Net → List ℕ
answer packet net = frame (take 6 (drop 8 packet)) net.aether_mac eth_type_arp (reply packet net)
