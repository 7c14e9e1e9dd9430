-- ===== src/Net/Arp/Cache.antt =====
-- `arp_cache_insert` of AetherWebOS/src/drivers/ethernet/arp.c against a lookup.
use aether_webos.Prelude.{
  ℕ, ◌≡◌, ◌≢◌, arith, List, [], ◌∷◌, Option, none, some, Bool, false, ◌&&◌, ◌||◌, ◌==◌,
  if◌then◌else◌, length, refl, Bool-cases, inl, inr,
}
use aether_webos.Net.Stack.{ArpEntry, Net, enqueue, ethernet_send}
use aether_webos.Net.Arp.{arp_cache_insert, sender_ip, sender_mac, is_arp, asks_us, arp_handle}

-- The hardware address of the first entry for `ip`.
unfoldable pub lookup : ℕ → List ArpEntry → Option (List ℕ)
lookup ip [] = none
lookup ip (e ∷ es) = if e.ip == ip then some e.mac else lookup ip es

-- Whether an entry is free or has the address.
unfoldable pub has_place : ℕ → List ArpEntry → Bool
has_place ip [] = false
has_place ip (e ∷ es) = (e.ip == 0) || (e.ip == ip) || has_place ip es

-- After `arp_cache_insert ip mac`, looking up an address `j` other than 0 finds `mac` when `j` is
-- `ip` and there was a place, and otherwise what it found before; the cache keeps its size.
pub lookup-arp_cache_insert :
    (j ip : ℕ) (mac : List ℕ) (cache : List ArpEntry)
    → j ≢ 0
    → (lookup j (arp_cache_insert ip mac cache)
        ≡ (if (ip == j) && has_place ip cache then some mac else lookup j cache))
      × (length (arp_cache_insert ip mac cache) ≡ length cache)
unfolding lookup arp_cache_insert has_place
lookup-arp_cache_insert j ip mac [] ne = ground arith
lookup-arp_cache_insert j ip mac (e ∷ es) ne =
    ground (arith, lookup-arp_cache_insert j ip mac es ne)

enqueue-arp_cache :
    (buffer : ℕ) (bytes : List ℕ) (net : Net) → (enqueue buffer bytes net).arp_cache ≡ net.arp_cache
unfolding enqueue
enqueue-arp_cache buffer bytes net = refl

ethernet_send-arp_cache :
    (mac : List ℕ) (ethertype : ℕ) (payload : List ℕ) (net : Net)
    → (ethernet_send mac ethertype payload net).arp_cache ≡ net.arp_cache
unfolding ethernet_send
ethernet_send-arp_cache mac ethertype payload net = grind (arith, enqueue-arp_cache)

-- After `arp_handle` of any packet, looking up an address `j` other than 0 finds the hardware
-- address of the sender when the packet is an ARP packet from `j` and the cache has an entry that
-- is free or is for `j`, and otherwise what it found before. This holds for requests, whether they are
-- answered or not, and for replies; the cache keeps its size.
pub lookup-arp_handle :
    (j : ℕ) (packet : List ℕ) (net : Net)
    → j ≢ 0
    → (lookup j (arp_handle packet net).arp_cache ≡ (
        if is_arp packet && (sender_ip packet == j) && has_place (sender_ip packet) net.arp_cache
        then some (sender_mac packet)
        else lookup j net.arp_cache))
      × (length (arp_handle packet net).arp_cache ≡ length net.arp_cache)
unfolding arp_handle
lookup-arp_handle j packet net ne =
    let learnt =
      lookup-arp_cache_insert j (sender_ip packet) (sender_mac packet) net.arp_cache ne in
    elim (Bool-cases (is_arp packet)) [
      | inl a ↦ elim (Bool-cases (asks_us packet net)) [
        | inl b ↦ rw (a, arp_handle, b, ethernet_send-arp_cache) learnt
        | inr b ↦ rw (a, arp_handle, b) learnt
      ]
      | inr a ↦ rw (a, arp_handle) (refl, refl)
    ]
