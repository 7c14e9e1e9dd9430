-- ===== src/Net/Tcp/Sent.antt =====
-- The segments of AetherWebOS/src/drivers/ethernet/tcp/tcp_output.c pass the validation of
-- tcp_checksum.c.
use aether_webos.Prelude.{
  ℕ, ◌+◌, ◌/◌, ◌%◌, ◌^◌, ◌<◌, ◌≡◌, refl, arith, ap, List, ◌∷◌, ◌++◌, All, IsByte, length, take,
  take_all, true, u16, length-append, All-append,
}
use aether_webos.Net.Checksum.{tcp_compute_checksum, tcp_validate_checksum}
use aether_webos.Net.Checksum.Laws.{with_checksum, tcp_validate-compute, tcp_compute_checksum_lem}
use aether_webos.Net.Tcp.{header_start, segment_bytes}

compute-lt :
    (src dst : ℕ) (bytes : List ℕ)
    → src < 2 ^ 32
    → dst < 2 ^ 32
    → length bytes < 2 ^ 16
    → All IsByte bytes
    → tcp_compute_checksum src dst bytes < 2 ^ 16
compute-lt src dst bytes hs hd hl hb =
    omega (arith, tcp_compute_checksum_lem src dst bytes hs hd hl hb)

take-whole :
    (a b : ℕ) (start payload : List ℕ)
    → length start ≡ 16
    → 20 + length payload < 2 ^ 16
    → take (u16 (20 + length payload)) (start ++ (a ∷ b ∷ 0 ∷ 0 ∷ payload))
      ≡ start ++ (a ∷ b ∷ 0 ∷ 0 ∷ payload)
take-whole a b start payload hl small =
    take_all (u16 (20 + length payload)) (start ++ (a ∷ b ∷ 0 ∷ 0 ∷ payload))
      (omega (arith, length-append start (a ∷ b ∷ 0 ∷ 0 ∷ payload)))

segment-form :
    (src dst : ℕ) (start payload : List ℕ)
    → src < 2 ^ 32
    → dst < 2 ^ 32
    → length start ≡ 16
    → 20 + length payload < 2 ^ 16
    → All IsByte start
    → All IsByte payload
    → segment_bytes src dst start payload
      ≡ with_checksum start
          (tcp_compute_checksum src dst (with_checksum start 0 (0 ∷ 0 ∷ payload)))
          (0 ∷ 0 ∷ payload)
unfolding segment_bytes
segment-form src dst start payload hs hd hl small bs bp =
    let zeroed : List ℕ = with_checksum start 0 (0 ∷ 0 ∷ payload) in
    let c : ℕ = tcp_compute_checksum src dst zeroed in
    let all : All IsByte zeroed =
      All-append IsByte start (0 ∷ 0 ∷ 0 ∷ 0 ∷ payload) bs
        (omega arith, (omega arith, (omega arith, (omega arith, bp)))) in
    let bound : c < 2 ^ 16 =
      compute-lt src dst zeroed hs hd (omega (arith, length-append start (0 ∷ 0 ∷ 0 ∷ 0 ∷ payload)))
        all in
    let high : c / 256 % 256 ≡ c / 256 = omega arith in
    rw
      (
        take-whole 0 0 start payload hl small,
        segment_bytes,
        take-whole (c % 256) (c / 256 % 256) start payload hl small,
      )
      (ap (λ h. start ++ (c % 256 ∷ h ∷ 0 ∷ 0 ∷ payload)) high)

header_start-bytes :
    (src_port dst_port seq ack flags window : ℕ)
    → flags < 2 ^ 8
    → All IsByte (header_start src_port dst_port seq ack flags window)
      × (length (header_start src_port dst_port seq ack flags window) ≡ 16)
unfolding header_start
header_start-bytes src_port dst_port seq ack flags window small = (omega (arith, small), refl)

-- Every segment that the stack builds, with any ports, numbers, flags, window and payload of bytes
-- that fits in 16 bits with its header, is valid for `tcp_validate_checksum`.
pub tcp_validate-segment :
    (src dst src_port dst_port seq ack flags window : ℕ) (payload : List ℕ)
    → src < 2 ^ 32
    → dst < 2 ^ 32
    → flags < 2 ^ 8
    → 20 + length payload < 2 ^ 16
    → All IsByte payload
    → tcp_validate_checksum src dst
        (segment_bytes src dst (header_start src_port dst_port seq ack flags window) payload)
      ≡ true
tcp_validate-segment src dst src_port dst_port seq ack flags window payload hs hd hf small bp =
    let start : List ℕ = header_start src_port dst_port seq ack flags window in
    let head = header_start-bytes src_port dst_port seq ack flags window hf in
    rw (segment-form src dst start payload hs hd head.1 small head.0 bp) (
      tcp_validate-compute src dst start (0 ∷ 0 ∷ payload) hs hd head.1 (omega arith) head.0
        (omega arith, (omega arith, bp)))
