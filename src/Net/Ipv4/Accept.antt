-- ===== src/Net/Ipv4/Accept.antt =====
-- A packet that AetherWebOS/src/drivers/ethernet/ipv4.c builds passes the tests of its own receiving
-- half.
use aether_webos.Prelude.{
  ℕ, ◌+◌, ◌-◌, ◌*◌, ◌/◌, ◌%◌, ◌^◌, ◌<◌, ◌≡◌, refl, arith, ◌∙◌, sym, List, ◌++◌, false, length,
  get_or, take_all, u16, u32,
}
use aether_webos.Utils.ByteOrder.{htons, htonl, ntohs, ntohl, load16, load32}
use aether_webos.Utils.ByteOrder.Laws.{ntohs-htons, ntohl-htonl, htons-lt, htonl-lt}
use aether_webos.Net.Checksum.{ipv4_checksum, ip_proto_tcp}
use aether_webos.Net.Stack.{Net, ipv4_header, ipv4_packet}
use aether_webos.Net.Tcp.Input.{tcp_input_process}
use aether_webos.Net.Ipv4.{
  header_len, malformed, computed_checksum, not_for_us, ip_payload, ipv4_handle,
}

ipv4_checksum-lt : (bytes : List ℕ) → ipv4_checksum bytes < 2 ^ 16
unfolding ipv4_checksum
ipv4_checksum-lt bytes = omega arith

load-store16 : (x : ℕ) → x < 2 ^ 16 → x % 256 + 256 * (x / 256 % 256) ≡ x
load-store16 x h = omega arith

load-store32 :
    (x : ℕ)
    → x < 2 ^ 32
    → x % 256 + 256 * (x / 256 % 256) + 65536 * (x / 65536 % 256 + 256 * (x / 16777216 % 256)) ≡ x
load-store32 x h = omega arith

-- The fields of a header with any checksum, as the receiver reads them.
module _ (len proto check src dst : ℕ) (payload : List ℕ) where
  whole : List ℕ
  whole = ipv4_header len proto check src dst ++ payload

  read-checksum : check < 2 ^ 16 → load16 whole 10 ≡ check
  unfolding whole ipv4_header
  read-checksum h = load-store16 check h

  read-len : len < 2 ^ 16 → ntohs (load16 whole 2) ≡ len
  unfolding whole ipv4_header
  read-len h =
      let e : u16 len ≡ len = omega arith in
      rw (e, load-store16 (htons len) (htons-lt len h)) (ntohs-htons len h)

  read-src : src < 2 ^ 32 → ntohl (load32 whole 12) ≡ src
  unfolding whole ipv4_header
  read-src h = rw (load-store32 (htonl src) (htonl-lt src h)) (ntohl-htonl src h)

  read-dst : dst < 2 ^ 32 → ntohl (load32 whole 16) ≡ dst
  unfolding whole ipv4_header
  read-dst h = rw (load-store32 (htonl dst) (htonl-lt dst h)) (ntohl-htonl dst h)

  read-computed : computed_checksum whole ≡ ipv4_checksum (ipv4_header len proto 0 src dst)
  unfolding computed_checksum header_len whole ipv4_header
  read-computed = refl

  read-proto : get_or whole 9 0 ≡ proto
  unfolding whole ipv4_header
  read-proto = refl

  read-length : length whole ≡ 20 + length payload
  unfolding whole ipv4_header
  read-length = omega arith

  read-payload : len ≡ 20 + length payload → len < 2 ^ 16 → ip_payload whole ≡ payload
  unfolding ip_payload header_len whole ipv4_header
  read-payload e h = rw (read-len h) (take_all (len - 20) payload (omega arith))

ihl_lem :
    (len proto check src dst : ℕ) (payload : List ℕ)
    → len ≡ 20 + length payload
    → len < 2 ^ 16
    → dst < 2 ^ 32
    → (malformed (whole len proto check src dst payload) ≡ false)
      × (not_for_us (whole len proto check src dst payload) dst ≡ false)
unfolding malformed not_for_us header_len whole ipv4_header
ihl_lem len proto check src dst payload e small h = (
  ground (arith, read-length len proto check src dst payload),
  ground (
    arith,
    read-length len proto check src dst payload,
    read-len len proto check src dst payload small,
    read-dst len proto check src dst payload h,
  ),
)

accepted :
    (packet payload : List ℕ) (src dst : ℕ) (net : Net)
    → malformed packet ≡ false
    → computed_checksum packet ≡ load16 packet 10
    → not_for_us packet net.aether_ip ≡ false
    → get_or packet 9 0 ≡ ip_proto_tcp
    → ip_payload packet ≡ payload
    → ntohl (load32 packet 12) ≡ src
    → ntohl (load32 packet 16) ≡ dst
    → ipv4_handle packet net ≡ tcp_input_process payload src dst net
unfolding ipv4_handle
accepted packet payload src dst net a b c d e f g = ground (arith, a, b, c, d, e, f, g)

packet-whole :
    (src dst : ℕ) (payload : List ℕ)
    → 20 + length payload < 2 ^ 16
    → ipv4_packet dst ip_proto_tcp payload src
      ≡ whole
          (20 + length payload)
          ip_proto_tcp
          (ipv4_checksum (ipv4_header (20 + length payload) ip_proto_tcp 0 src dst))
          src
          dst
          payload
unfolding ipv4_packet whole
packet-whole src dst payload small =
    let e : u32 (20 + length payload) ≡ 20 + length payload = omega arith in
    rw (e, ipv4_packet) refl

-- A TCP packet that `ipv4_send` builds for a host reaches TCP on that host, with the payload and
-- both addresses unchanged, when the packet fits in 16 bits and the addresses in 32.
pub ipv4_handle-packet :
    (src dst : ℕ) (payload : List ℕ) (net : Net)
    → net.aether_ip ≡ dst
    → 20 + length payload < 2 ^ 16
    → src < 2 ^ 32
    → dst < 2 ^ 32
    → ipv4_handle (ipv4_packet dst ip_proto_tcp payload src) net
      ≡ tcp_input_process payload src dst net
ipv4_handle-packet src dst payload net here small hs hd =
    let len : ℕ = 20 + length payload in
    let check : ℕ = ipv4_checksum (ipv4_header len ip_proto_tcp 0 src dst) in
    let check_small : check < 2 ^ 16 = ipv4_checksum-lt (ipv4_header len ip_proto_tcp 0 src dst) in
    let tests = ihl_lem len ip_proto_tcp check src dst payload refl small hd in
    let ours : not_for_us (whole len ip_proto_tcp check src dst payload) net.aether_ip ≡ false =
      rw here tests.1 in
    rw (packet-whole src dst payload small) (
      accepted (whole len ip_proto_tcp check src dst payload) payload src dst net tests.0
        (read-computed len ip_proto_tcp check src dst payload
          ∙ sym (read-checksum len ip_proto_tcp check src dst payload check_small))
        ours (read-proto len ip_proto_tcp check src dst payload)
        (read-payload len ip_proto_tcp check src dst payload refl small)
        (read-src len ip_proto_tcp check src dst payload hs)
        (read-dst len ip_proto_tcp check src dst payload hd))
