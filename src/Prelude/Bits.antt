-- ===== src/Prelude/Bits.antt =====
-- `&` with a mask of adjacent ones and `|` of disjoint fields, as division and multiplication.
use Prim.Native.Nat.{ℕ, zero, suc, ◌+◌, ◌-◌, ◌*◌, ◌/◌, ◌%◌, ◌^◌, ◌≤◌, ◌<◌, min, max}
use Prim.Native.Nat.{bit_and, bit_or, digits, bitwise, bit_and-bitwise, bit_or-bitwise}
use mathlib.Core.Path.{◌≡◌, refl, sym, ap, ◌∙◌}
use native.Mathlib.Nat.{
  pow-suc, pow-succ', one-le-pow, le_refl, mul-add-mod_self_left, mod-eq_of_lt,
}
use native.Mathlib.Nat.{mod-lt, div-add-mod, div-div-eq-div-mul}
use native.Mathlib.Omega.{arith}

-- The operations are recursions on binary digits with a count of digits to go. A larger count
-- gives the same number, so the lowest digit can be split off.
module _ (ends : ℕ → ℕ) (digit : ℕ → ℕ → ℕ) where
  digits-count : (n m a b : ℕ) → a ≤ n → a ≤ m → digits ends digit n a b ≡ digits ends digit m a b
  digits-count zero zero a b p q = refl
  digits-count zero (suc m) zero b p q = refl
  digits-count zero (suc m) (suc a) b p q = absurd (omega arith)
  digits-count (suc n) zero zero b p q = refl
  digits-count (suc n) zero (suc a) b p q = absurd (omega arith)
  digits-count (suc n) (suc m) zero b p q = refl
  digits-count (suc n) (suc m) (suc a) b p q =
      ap (λ (t : ℕ). t * 2 + digit (suc a % 2) (b % 2))
        (digits-count n m (suc a / 2) (b / 2) (omega arith) (omega arith))

  lowest_digit :
      (a b : ℕ)
      → bitwise ends digit (suc a) b
        ≡ bitwise ends digit (suc a / 2) (b / 2) * 2 + digit (suc a % 2) (b % 2)
  lowest_digit a b =
      ap (λ (t : ℕ). t * 2 + digit (suc a % 2) (b % 2))
        (digits-count a (suc a / 2) (suc a / 2) (b / 2) (omega arith) (le_refl _))

or_digit : (a b : ℕ) → bit_or a b ≡ bit_or (a / 2) (b / 2) * 2 + max (a % 2) (b % 2)
or_digit zero b = simp bit_or-bitwise (omega arith)
or_digit (suc a) b = simp bit_or-bitwise (lowest_digit (λ y. y) max a b)

pub and_digit : (a b : ℕ) → bit_and a b ≡ bit_and (a / 2) (b / 2) * 2 + min (a % 2) (b % 2)
and_digit zero b = simp bit_and-bitwise (omega arith)
and_digit (suc a) b = simp bit_and-bitwise (lowest_digit (λ y. 0) min a b)

or-zero_upto : (n a : ℕ) → a ≤ n → bit_or a 0 ≡ a
or-zero_upto zero zero h = refl
or-zero_upto zero (suc a) h = absurd (omega arith)
or-zero_upto (suc n) zero h = refl
or-zero_upto (suc n) (suc a) h =
    omega (arith, or_digit (suc a) 0, or-zero_upto n (suc a / 2) (omega arith))

and-zero_upto : (n a : ℕ) → a ≤ n → bit_and a 0 ≡ 0
and-zero_upto zero zero h = refl
and-zero_upto zero (suc a) h = absurd (omega arith)
and-zero_upto (suc n) zero h = refl
and-zero_upto (suc n) (suc a) h =
    omega (arith, and_digit (suc a) 0, and-zero_upto n (suc a / 2) (omega arith))

pub bit_or-zero : (a : ℕ) → bit_or a 0 ≡ a
bit_or-zero a = or-zero_upto a a (le_refl _)

pub bit_and-zero : (a : ℕ) → bit_and a 0 ≡ 0
bit_and-zero a = and-zero_upto a a (le_refl _)

pub zero-bit_or : (a : ℕ) → bit_or 0 a ≡ a
zero-bit_or a = bit_or-bitwise 0 a

scale : (q k : ℕ) → q * 2 ^ suc k ≡ 2 * (q * 2 ^ k)
scale q k = omega (arith, ap (λ (t : ℕ). q * t) (pow-suc 2 k))

-- `q << k | r` is a sum when `r` fits `k` bits.
pub bit_or_disjoint : (k q r : ℕ) → r < 2 ^ k → bit_or (q * 2 ^ k) r ≡ q * 2 ^ k + r
bit_or_disjoint zero q r fits = ground (arith, bit_or-zero q)
bit_or_disjoint (suc k) q r fits = ground (
  arith,
  or_digit (q * 2 ^ suc k) r,
  scale q k,
  bit_or_disjoint k q (r / 2) (omega (arith, pow-suc 2 k)),
)

-- Halving under a doubled modulus.
mod-double : (m a : ℕ) → 0 < m → a % (2 * m) ≡ a / 2 % m * 2 + a % 2
mod-double m a pos =
    ap (λ (t : ℕ). t % (2 * m)) split
    ∙ mul-add-mod_self_left (2 * m) (a / 2 / m) (a / 2 % m * 2 + a % 2)
    ∙ mod-eq_of_lt (omega (arith, mod-lt (a / 2) pos))
  where
    split : a ≡ 2 * m * (a / 2 / m) + (a / 2 % m * 2 + a % 2)
    split = omega (arith, div-add-mod (a / 2) m)

-- A mask of `k` low bits is the remainder by `2 ^ k`.
pub bit_and_low : (k a : ℕ) → bit_and a (2 ^ k - 1) ≡ a % 2 ^ k
bit_and_low zero a = rw bit_and-zero (omega arith)
bit_and_low (suc k) a = ground (
  arith,
  and_digit a (2 ^ suc k - 1),
  pow-succ' 2 k,
  one-le-pow k 2,
  mod-double (2 ^ k) a,
  bit_and_low k (a / 2),
)

-- A mask with `k` zeros below it leaves the low `k` bits out.
pub bit_and_high : (k m a : ℕ) → bit_and a (m * 2 ^ k) ≡ bit_and (a / 2 ^ k) m * 2 ^ k
bit_and_high zero m a = ground arith
bit_and_high (suc k) m a = omega (
  arith,
  and_digit a (m * 2 ^ suc k),
  scale m k,
  scale (bit_and (a / 2 ^ suc k) m) k,
  bit_and_high k m (a / 2),
  ap (λ (t : ℕ). bit_and (a / 2) t) halved,
  ap (λ (t : ℕ). bit_and t m * 2 ^ k) (div-div-eq-div-mul a 2 (2 ^ k)),
  ap (λ (t : ℕ). bit_and (a / t) m * 2 ^ k) (pow-succ' 2 k),
)
  where
    halved : m * 2 ^ suc k / 2 ≡ m * 2 ^ k
    halved = omega (arith, scale m k)

-- A field of `w` bits from bit `k` on, left where it stands.
pub bit_and_field : (k w a : ℕ) → bit_and a ((2 ^ w - 1) * 2 ^ k) ≡ a / 2 ^ k % 2 ^ w * 2 ^ k
bit_and_field k w a =
    bit_and_high k (2 ^ w - 1) a ∙ ap (λ (t : ℕ). t * 2 ^ k) (bit_and_low w (a / 2 ^ k))

-- `|` adds a low part to a multiple of `2 ^ k`.
pub bit_or_sum : (k q p r : ℕ) → p ≡ q * 2 ^ k → r < 2 ^ k → bit_or p r ≡ p + r
bit_or_sum k q p r e h =
    ap (λ (t : ℕ). bit_or t r) e ∙ bit_or_disjoint k q r h ∙ ap (λ (t : ℕ). t + r) (sym e)

-- `|` of four adjacent bytes.
pub bit_or_bytes :
    (a b c d : ℕ)
    → b < 256
    → c < 256
    → d < 256
    → bit_or (bit_or (bit_or (a * 16777216) (b * 65536)) (c * 256)) d
      ≡ a * 16777216 + b * 65536 + c * 256 + d
bit_or_bytes a b c d hb hc hd =
    rw
      (
        bit_or_sum 24 a (a * 16777216) (b * 65536) refl (omega arith),
        bit_or_sum 16 (a * 256 + b) (a * 16777216 + b * 65536) (c * 256) (omega arith)
            (omega arith),
      )
      (bit_or_sum 8 (a * 65536 + b * 256 + c) (a * 16777216 + b * 65536 + c * 256) d (omega arith)
        (omega arith))

-- `|` with a low part works on the low bits alone.
pub bit_or_low :
    (k q a b : ℕ) → a < 2 ^ k → b < 2 ^ k → bit_or (q * 2 ^ k + a) b ≡ q * 2 ^ k + bit_or a b
bit_or_low zero q a b ha hb = ground (arith, bit_or-zero q, bit_or-zero 0)
bit_or_low (suc k) q a b ha hb = ground (
  arith,
  or_digit (q * 2 ^ suc k + a) b,
  or_digit a b,
  scale q k,
  pow-suc 2 k,
  bit_or_low k q (a / 2) (b / 2),
)

-- Bit `k` of a number.
abbrev pub bit_at : ℕ → ℕ → ℕ
bit_at k a = a / 2 ^ k % 2

bit_at-half : (k a : ℕ) → bit_at (suc k) a ≡ bit_at k (a / 2)
bit_at-half k a =
    ap (λ (t : ℕ). a / t % 2) (pow-succ' 2 k)
    ∙ ap (λ (t : ℕ). t % 2) (sym (div-div-eq-div-mul a 2 (2 ^ k)))

-- A set bit stays set, and a bit that is masked out is clear.
pub bit_at-or : (k a m : ℕ) → bit_at k m ≡ 1 → bit_at k (bit_or a m) ≡ 1
bit_at-or zero a m h = omega (arith, or_digit a m)
bit_at-or (suc k) a m h =
    let halved : bit_or a m / 2 ≡ bit_or (a / 2) (m / 2) = omega (arith, or_digit a m) in
    bit_at-half k (bit_or a m)
    ∙ ap (λ (t : ℕ). bit_at k t) halved
    ∙ bit_at-or k (a / 2) (m / 2) (sym (bit_at-half k m) ∙ h)

pub bit_at-and : (k a m : ℕ) → bit_at k m ≡ 0 → bit_at k (bit_and a m) ≡ 0
bit_at-and zero a m h = omega (arith, and_digit a m)
bit_at-and (suc k) a m h =
    let halved : bit_and a m / 2 ≡ bit_and (a / 2) (m / 2) = omega (arith, and_digit a m) in
    bit_at-half k (bit_and a m)
    ∙ ap (λ (t : ℕ). bit_at k t) halved
    ∙ bit_at-and k (a / 2) (m / 2) (sym (bit_at-half k m) ∙ h)
