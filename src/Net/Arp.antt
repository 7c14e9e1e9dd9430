-- ===== src/Net/Arp.antt =====
-- AetherWebOS/src/drivers/ethernet/arp.c. UART output is left out.
pub mod Cache
pub mod Reply
use aether_webos.Prelude.{
  ℕ, List, [], ◌∷◌, ◌++◌, Bool, true, false, ◌&&◌, ◌||◌, ◌==◌, ltb, if◌then◌else◌, length, take,
  drop,
}
use aether_webos.Utils.ByteOrder.{htons, htonl, store16, store32, load16, load32}
use aether_webos.Net.Stack.{ArpEntry, Net, ethernet_send}

abbrev pub eth_type_arp : ℕ
eth_type_arp = 0x0806

-- The cache with the entry written to the first place that is free or has the address; a full cache
-- stays as it is.
unfoldable pub arp_cache_insert : ℕ → List ℕ → List ArpEntry → List ArpEntry
arp_cache_insert ip mac [] = []
arp_cache_insert ip mac (e ∷ es) =
    let rest = arp_cache_insert ip mac es in
    if (e.ip == 0) || (e.ip == ip) then record { ip = ip; mac = mac } ∷ es else e ∷ rest

-- The fields of `struct arp_packet` that are read, and the reply.
unfoldable pub sender_ip : List ℕ → ℕ
sender_ip packet = htonl (load32 packet 14)

unfoldable pub target_ip : List ℕ → ℕ
target_ip packet = htonl (load32 packet 24)

unfoldable pub sender_mac : List ℕ → List ℕ
sender_mac packet = take 6 (drop 8 packet)

unfoldable pub arp_reply : List ℕ → ℕ → List ℕ → List ℕ
arp_reply aether_mac aether_ip packet =
    store16 (htons 0x0001)
    ++ (store16 (htons 0x0800)
        ++ (6
            ∷ 4
            ∷ (store16 (htons 2)
                ++ (aether_mac
                    ++ (store32 (htonl aether_ip)
                        ++ (sender_mac packet ++ store32 (load32 packet 14)))))))

-- The first three tests of `arp_handle`, with which the sender is learnt.
unfoldable pub is_arp : List ℕ → Bool
is_arp packet =
    (if ltb (length packet) 28 then false else true)
    && (htons (load16 packet 0) == 0x0001)
    && (htons (load16 packet 2) == 0x0800)

-- A request for our own address.
unfoldable pub asks_us : List ℕ → Net → Bool
asks_us packet net = (htons (load16 packet 6) == 1) && (target_ip packet == net.aether_ip)

unfoldable pub arp_handle : List ℕ → Net → Net
arp_handle packet net =
    let learnt = record net {
      arp_cache = arp_cache_insert (sender_ip packet) (sender_mac packet) net.arp_cache;
    } in
    if is_arp packet
    then (if asks_us packet net
        then ethernet_send (sender_mac packet) eth_type_arp
            (arp_reply net.aether_mac net.aether_ip packet) learnt
        else learnt)
    else net
