-- ===== src/Utils/ByteOrder.antt =====
-- The byte swaps at the end of AetherWebOS/src/common/utils.c. The shifted fields are words of 16
-- and 32 bits, so the only bits that a shift could lose are cut by the mask before it.
pub mod Laws
use aether_webos.Prelude.{
  ℕ, ◌+◌, ◌*◌, get_or, ◌%◌, ◌/◌, List, [], ◌∷◌, bit_and, bit_or, ◌<<<◌, ◌>>>◌, u16, u32,
}

unfoldable pub htons : ℕ → ℕ
htons x = u16 (bit_or (bit_and x 0x00FF <<< 8) (bit_and x 0xFF00 >>> 8))

unfoldable pub ntohs : ℕ → ℕ
unfolding htons
ntohs x = htons x

unfoldable pub htonl : ℕ → ℕ
htonl x =
    bit_or
      (bit_or (bit_or (u32 (bit_and x 0x000000FF <<< 24)) (u32 (bit_and x 0x0000FF00 <<< 8)))
        (bit_and x 0x00FF0000 >>> 8))
      (bit_and x 0xFF000000 >>> 24)

unfoldable pub ntohl : ℕ → ℕ
unfolding htonl
ntohl x = htonl x

-- The bytes of a word as the processor stores it, lowest first.
abbrev pub store16 : ℕ → List ℕ
store16 x = x % 256 ∷ x / 256 % 256 ∷ []

abbrev pub store32 : ℕ → List ℕ
store32 x = x % 256 ∷ x / 256 % 256 ∷ x / 65536 % 256 ∷ x / 16777216 % 256 ∷ []

-- The bytes of a word as they travel, highest first.
abbrev pub wire16 : ℕ → List ℕ
wire16 x = x / 256 % 256 ∷ x % 256 ∷ []

abbrev pub wire32 : ℕ → List ℕ
wire32 x = x / 16777216 % 256 ∷ x / 65536 % 256 ∷ x / 256 % 256 ∷ x % 256 ∷ []

-- A little-endian load of two or four bytes.
abbrev pub load16 : List ℕ → ℕ → ℕ
load16 bytes i = get_or bytes i 0 + 256 * get_or bytes (i + 1) 0

abbrev pub load32 : List ℕ → ℕ → ℕ
load32 bytes i = load16 bytes i + 65536 * load16 bytes (i + 2)
