-- ===== src/Net/Checksum.antt =====
-- The Internet checksums: `ipv4_checksum` of AetherWebOS/src/drivers/ethernet/ipv4.c, which reads
-- the words highest byte first, and AetherWebOS/src/drivers/ethernet/tcp/tcp_checksum.c, which reads
-- them as the processor loads them, lowest byte first.
pub mod Laws
use aether_webos.Prelude.{
  ℕ, zero, suc, ◌+◌, ◌-◌, ◌*◌, ◌^◌, List, [], ◌∷◌, Bool, true, false, ◌==◌, bit_and, bit_or, u16,
  u32, ◌<<<◌, ◌>>>◌, length,
}
use aether_webos.Utils.ByteOrder.{htons}

-- `while (sum >> 16) sum = (sum & 0xFFFF) + (sum >> 16);` Two rounds are enough.
abbrev pub fold_fuel : ℕ
fold_fuel = 3

unfoldable pub fold_loop : ℕ → ℕ → ℕ
fold_loop zero sum = sum
fold_loop (suc fuel) sum = elim (sum >>> 16 == 0) [
  | true ↦ sum
  | false ↦ fold_loop fuel (u32 (bit_and sum 0xFFFF + (sum >>> 16)))
]

-- `(uint16_t)~sum` of a `uint32_t`.
abbrev pub complement16 : ℕ → ℕ
complement16 sum = u16 (2 ^ 32 - 1 - sum)

-- The word loop of `ipv4_checksum` and the odd byte behind it.
unfoldable pub sum_be : List ℕ → ℕ → ℕ
sum_be [] sum = sum
sum_be (a ∷ []) sum = u32 (sum + (a <<< 8))
sum_be (a ∷ b ∷ rest) sum = sum_be rest (u32 (sum + bit_or (u16 (a <<< 8)) b))

unfoldable pub ipv4_checksum : List ℕ → ℕ
ipv4_checksum bytes = complement16 (fold_loop fold_fuel (sum_be bytes 0))

-- `checksum_accumulate`, from the sum `sum` on.
unfoldable pub accumulate_from : List ℕ → ℕ → ℕ
accumulate_from [] sum = sum
accumulate_from (a ∷ []) sum = u32 (sum + a)
accumulate_from (a ∷ b ∷ rest) sum = accumulate_from rest (u32 (sum + (a + b * 256)))

unfoldable pub checksum_accumulate : List ℕ → ℕ
checksum_accumulate bytes = accumulate_from bytes 0

unfoldable pub checksum_finalize : ℕ → ℕ
checksum_finalize sum = complement16 (fold_loop fold_fuel sum)

abbrev pub ip_proto_tcp : ℕ
ip_proto_tcp = 6

-- The words of the pseudo header.
unfoldable pub pseudo_sum : ℕ → ℕ → ℕ → ℕ
pseudo_sum src_ip dst_ip tcp_len =
    bit_and src_ip 0xFFFF
    + (src_ip >>> 16)
    + bit_and dst_ip 0xFFFF
    + (dst_ip >>> 16)
    + htons ip_proto_tcp
    + htons tcp_len

-- The length argument is the length of the segment that the pointer leads to.
unfoldable pub tcp_compute_checksum : ℕ → ℕ → List ℕ → ℕ
tcp_compute_checksum src_ip dst_ip segment =
    checksum_finalize
      (u32 (u32 (pseudo_sum src_ip dst_ip (u16 (length segment))) + checksum_accumulate segment))

unfoldable pub tcp_validate_checksum : ℕ → ℕ → List ℕ → Bool
tcp_validate_checksum src_ip dst_ip segment = tcp_compute_checksum src_ip dst_ip segment == 0
