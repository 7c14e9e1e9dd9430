-- ===== src/Bus/Pcie/Address.antt =====
-- Where a configuration register lies (AetherWebOS/src/drivers/pcie.c).
use aether_webos.Prelude.{
  ℕ, ◌+◌, ◌*◌, ◌/◌, ◌%◌, ◌^◌, ◌<◌, ◌≡◌, refl, arith, bit_and_low, bit_and_field, bit_or_sum,
}
use aether_webos.Bus.Pcie.{config_offset}

-- The four fields of the offset, added up.
pub config_offset_sum :
    (bus dev func reg : ℕ)
    → config_offset bus dev func reg
      ≡ bus % 2 ^ 8 * 2 ^ 20 + dev % 2 ^ 5 * 2 ^ 15 + func % 2 ^ 3 * 2 ^ 12 + reg / 4 % 2 ^ 10 * 4
unfolding config_offset
config_offset_sum bus dev func reg =
    let b : ℕ = bus % 256 in
    let d : ℕ = dev % 32 in
    let f : ℕ = func % 8 in
    let r : ℕ = reg / 4 % 1024 in
    rw
      (
        bit_and_low 8 bus,
        bit_and_low 5 dev,
        bit_and_low 3 func,
        bit_and_field 2 10 reg,
        bit_or_sum 20 b (b * 1048576) (d * 32768) refl (omega arith),
        bit_or_sum 15 (b * 32 + d) (b * 1048576 + d * 32768) (f * 4096) (omega arith) (omega arith),
      )
      (bit_or_sum 12 (b * 256 + d * 8 + f) (b * 1048576 + d * 32768 + f * 4096) (r * 4)
        (omega arith) (omega arith))

-- Two registers of functions on the bus share a word of the configuration space only if the
-- functions are the same and the registers lie in the same word of four bytes.
pub config_offset-injective :
    (bus dev func reg bus' dev' func' reg' : ℕ)
    → bus < 256
    → bus' < 256
    → dev < 32
    → dev' < 32
    → func < 8
    → func' < 8
    → reg < 4096
    → reg' < 4096
    → config_offset bus dev func reg ≡ config_offset bus' dev' func' reg'
    → (bus ≡ bus') × (dev ≡ dev') × (func ≡ func') × (reg / 4 ≡ reg' / 4)
config_offset-injective bus dev func reg bus' dev' func' reg' b b' d d' f f' r r' e =
    let s = config_offset_sum bus dev func reg in
    let s' = config_offset_sum bus' dev' func' reg' in
    (omega arith, omega arith, omega arith, omega arith)
