-- ===== src/Earlier/Checksum.antt =====
-- AetherWebOS/backups/src/tcp_chk.c. The pseudo header holds the addresses as `htonl` leaves them.
use aether_webos.Prelude.{ℕ, ◌+◌, List, Bool, ◌==◌, length, bit_and, u16, ◌>>>◌}
use aether_webos.Utils.ByteOrder.{htons}
use aether_webos.Net.Checksum.{sum_be, fold_loop, fold_fuel, complement16}

-- The words are read highest byte first, as in `ipv4_checksum`.
unfoldable pub calculate_sum : List ℕ → ℕ → ℕ
calculate_sum bytes initial_sum = sum_be bytes initial_sum

abbrev address_sum : ℕ → ℕ → ℕ
address_sum src_ip dest_ip =
    bit_and (src_ip >>> 16) 0xFFFF
    + bit_and src_ip 0xFFFF
    + bit_and (dest_ip >>> 16) 0xFFFF
    + bit_and dest_ip 0xFFFF

-- `header` is the header with a checksum field of zero. An empty payload adds nothing.
unfoldable pub tcp_checksum : ℕ → ℕ → List ℕ → List ℕ → ℕ
tcp_checksum src_ip dest_ip header payload =
    let tcp_len = u16 (20 + length payload) in
    let sum = address_sum src_ip dest_ip + 0x0006 + htons tcp_len in
    complement16 (fold_loop fold_fuel (calculate_sum payload (calculate_sum header sum)))

unfoldable pub tcp_validate_checksum : ℕ → ℕ → List ℕ → List ℕ → Bool
tcp_validate_checksum src_ip dest_ip header payload =
    let tcp_len = u16 (20 + length payload) in
    let sum = address_sum src_ip dest_ip + 0x0006 + tcp_len in
    fold_loop fold_fuel (calculate_sum payload (calculate_sum header sum)) == 0xFFFF
