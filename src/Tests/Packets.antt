-- ===== src/Tests/Packets.antt =====
-- The checksums of AetherWebOS/src/drivers/ethernet/tcp/tcp_checksum.c and
-- AetherWebOS/src/drivers/ethernet/arp.c on concrete inputs.
use aether_webos.Prelude.{ℕ, ◌+◌, ◌≡◌, ◌⊎◌, ◌*◌, refl, arith, List, [], ◌∷◌, true}
use aether_webos.Utils.ByteOrder.{htons}
use aether_webos.Net.Checksum.{
  fold_loop, accumulate_from, checksum_accumulate, checksum_finalize, pseudo_sum,
  tcp_compute_checksum, tcp_validate_checksum,
}
use aether_webos.Net.Checksum.Laws.{tcp_validate-detects}
use aether_webos.Net.Stack.{Net}
use aether_webos.Tests.Net.{quiet, two_free}

first_valid : tcp_validate_checksum 0 0 (0 ∷ 0 ∷ 0xFF ∷ 0xF5 ∷ []) ≡ true
unfolding tcp_validate_checksum tcp_compute_checksum checksum_finalize checksum_accumulate
    accumulate_from fold_loop pseudo_sum htons
first_valid = refl

second_valid : tcp_validate_checksum 0 0 (0xFF ∷ 0xFF ∷ 0xFF ∷ 0xF5 ∷ []) ≡ true
unfolding tcp_validate_checksum tcp_compute_checksum checksum_finalize checksum_accumulate
    accumulate_from fold_loop pseudo_sum htons
second_valid = refl

tcp_validate-detects_example :
    ((◌≡◌ {A = ℕ} 0 0xFF) × (◌≡◌ {A = ℕ} 0 0xFF))
    ⊎ (((◌≡◌ {A = ℕ} (0 + 0 * 256) 0) × (◌≡◌ {A = ℕ} (0xFF + 0xFF * 256) 65535))
        ⊎ ((◌≡◌ {A = ℕ} (0 + 0 * 256) 65535) × (◌≡◌ {A = ℕ} (0xFF + 0xFF * 256) 0)))
tcp_validate-detects_example =
    tcp_validate-detects 0 0 0 0 0 0xFF 0xFF [] (0xFF ∷ 0xF5 ∷ []) (omega arith) (omega arith) refl
      (omega arith) tt (omega arith) (omega arith) first_valid second_valid

-- The gateway asks for our address.
abbrev request : List ℕ
request =
    0 ∷ 1 ∷ 8 ∷ 0 ∷ 6 ∷ 4 ∷ 0 ∷ 1 ∷ 0x52 ∷ 0x55 ∷ 10 ∷ 0 ∷ 2 ∷ 2 ∷ 10 ∷ 0 ∷ 2 ∷ 2 ∷ 0 ∷ 0 ∷ 0 ∷ 0
    ∷ 0 ∷ 0 ∷ 10 ∷ 0 ∷ 2 ∷ 15 ∷ []

-- The stack with one free entry in the cache, and both transmit descriptors free.
abbrev listening : Net
listening = record quiet { arp_cache = record { ip = 0; mac = [] } ∷ []; tx_queue = two_free }
