-- ===== src/Utils/ByteOrder/Laws.antt =====
-- What the byte swaps of AetherWebOS/src/common/utils.c do to a word and to its bytes in memory.
use aether_webos.Prelude.{ℕ, ◌+◌, ◌*◌, ◌%◌, ◌/◌, ◌^◌, ◌<◌, ◌≡◌, arith}
use aether_webos.Prelude.{bit_and_low, bit_and_field, bit_or_sum, bit_or_bytes}
use aether_webos.Utils.ByteOrder.{htons, ntohs, htonl, ntohl, store16, store32, wire16, wire32}

pub htons_sum : (x : ℕ) → x < 2 ^ 16 → htons x ≡ x % 256 * 256 + x / 256
unfolding htons
htons_sum x h =
    ground (
      arith,
      bit_and_low 8 x,
      bit_and_field 8 8 x,
      bit_or_sum 8 (x % 256) (x % 256 * 256) (x / 256),
    )

pub htonl_sum :
    (x : ℕ)
    → x < 2 ^ 32
    → htonl x ≡ x % 256 * 16777216 + x / 256 % 256 * 65536 + x / 65536 % 256 * 256 + x / 16777216
unfolding htonl
htonl_sum x h = ground (
  arith,
  bit_and_low 8 x,
  bit_and_field 8 8 x,
  bit_and_field 16 8 x,
  bit_and_field 24 8 x,
  bit_or_bytes (x % 256) (x / 256 % 256) (x / 65536 % 256) (x / 16777216),
)

pub htons-lt : (x : ℕ) → x < 2 ^ 16 → htons x < 2 ^ 16
htons-lt x h = omega (arith, htons_sum x h)

pub htonl-lt : (x : ℕ) → x < 2 ^ 32 → htonl x < 2 ^ 32
htonl-lt x h = omega (arith, htonl_sum x h)

pub ntohs-htons : (x : ℕ) → x < 2 ^ 16 → ntohs (htons x) ≡ x
unfolding ntohs
ntohs-htons x h = omega (arith, htons_sum x h, htons_sum (htons x) (htons-lt x h))

pub ntohl-htonl : (x : ℕ) → x < 2 ^ 32 → ntohl (htonl x) ≡ x
unfolding ntohl
ntohl-htonl x h = omega (arith, htonl_sum x h, htonl_sum (htonl x) (htonl-lt x h))

-- A 16-bit and a 32-bit word converted by `htons` and `htonl` and stored by the little-endian
-- processor stand in memory highest byte first, and `ntohs` and `ntohl` give the word back.
pub hton_wire :
    (x y : ℕ)
    → x < 2 ^ 16
    → y < 2 ^ 32
    → (store16 (htons x) ≡ wire16 x)
      × (store32 (htonl y) ≡ wire32 y)
      × (ntohs (htons x) ≡ x)
      × (ntohl (htonl y) ≡ y)
hton_wire x y hx hy = (
  ground (arith, htons_sum x hx),
  ground (arith, htonl_sum y hy),
  ntohs-htons x hx,
  ntohl-htonl y hy,
)
