-- ===== src/Net/Ipv4.antt =====
-- The receiving half of AetherWebOS/src/drivers/ethernet/ipv4.c.
pub mod Accept
use aether_webos.Prelude.{
  ℕ, ◌+◌, ◌-◌, ◌*◌, ◌^◌, List, Bool, true, false, ◌||◌, not, ◌==◌, ltb, if◌then◌else◌, length,
  get_or, set, take, drop, bit_and, u64, ◌>>>◌,
}
use aether_webos.Utils.ByteOrder.{ntohs, ntohl, load16, load32}
use aether_webos.Net.Checksum.{ipv4_checksum, ip_proto_tcp}
use aether_webos.Net.Stack.{Net}
use aether_webos.Net.Virtqueue.{Stats}
use aether_webos.Net.Tcp.Input.{tcp_input_process}

unfoldable pub header_len : List ℕ → ℕ
header_len packet = bit_and (get_or packet 0 0) 0x0F * 4

-- The tests on version and lengths before the checksum.
unfoldable pub malformed : List ℕ → Bool
malformed packet =
    ltb (length packet) 20
    || not (get_or packet 0 0 >>> 4 == 4)
    || ltb (bit_and (get_or packet 0 0) 0x0F) 5
    || ltb (length packet) (header_len packet)

-- The checksum of the header with its own field at 0.
unfoldable pub computed_checksum : List ℕ → ℕ
computed_checksum packet = ipv4_checksum (take (header_len packet) (set (set packet 10 0) 11 0))

-- The tests after the checksum: the length, and the address.
unfoldable pub not_for_us : List ℕ → ℕ → Bool
not_for_us packet aether_ip =
    let total_len = ntohs (load16 packet 2) in
    ltb total_len (header_len packet)
    || ltb (length packet) total_len
    || not (ntohl (load32 packet 16) == aether_ip)

-- `health_report_checksum_error`
unfoldable pub health_report_checksum_error : Stats → Stats
health_report_checksum_error s = record s {
  checksum_errors = u64 (s.checksum_errors + 1);
  dropped_packets = u64 (s.dropped_packets + 1);
}

-- The bytes between the header and the total length.
unfoldable pub ip_payload : List ℕ → List ℕ
ip_payload packet =
    take (ntohs (load16 packet 2) - header_len packet) (drop (header_len packet) packet)

-- UDP, ICMP and the other protocols are only reported.
unfoldable pub ipv4_handle : List ℕ → Net → Net
ipv4_handle packet net =
    if malformed packet
    then net
    else if not (computed_checksum packet == load16 packet 10)
    then record net { net_stats = health_report_checksum_error net.net_stats }
    else if not_for_us packet net.aether_ip
    then net
    else if get_or packet 9 0 == ip_proto_tcp
    then tcp_input_process (ip_payload packet) (ntohl (load32 packet 12)) (ntohl (load32 packet 16))
        net
    else net
