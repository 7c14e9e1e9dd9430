-- ===== src/Utils/Decimal/Laws.antt =====
-- The decimal conversions print the number: reading the digits back gives it.
use mathlib.Core.List.{reverse, reverse-append}
use native.Mathlib.Nat.{pow-suc}
use aether_webos.Prelude.{
  ℕ, zero, suc, ◌+◌, ◌*◌, ◌-◌, ◌%◌, ◌/◌, ◌^◌, ◌≤◌, ◌<◌, ◌≡◌, refl, arith, List, [], ◌∷◌, ◌++◌,
  length, length-append, All, All-append, ◌==◌, ◌∙◌, ap, Bool-cases, ==_iff, false, inl, inr,
}
use aether_webos.Utils.Decimal.{digit_fuel, rev_digits, utoa_dec, ltoa_back, ltoa, uart_put_int}

abbrev pub IsDigit : ℕ → Type 0
IsDigit c = (b'0' ≤ c) × (c ≤ b'9')

-- The number that a text of digits stands for.
abbrev pub value_from : ℕ → List ℕ → ℕ
value_from acc [] = acc
value_from acc (c ∷ cs) = value_from (acc * 10 + (c - b'0')) cs

abbrev pub decimal_value : List ℕ → ℕ
decimal_value cs = value_from 0 cs

abbrev rev_value : List ℕ → ℕ
rev_value [] = 0
rev_value (c ∷ cs) = rev_value cs * 10 + (c - b'0')

value_from-append :
    (acc : ℕ) (xs ys : List ℕ) → value_from acc (xs ++ ys) ≡ value_from (value_from acc xs) ys
value_from-append acc [] ys = refl
value_from-append acc (x ∷ xs) ys = value_from-append (acc * 10 + (x - b'0')) xs ys

value_reverse : (xs : List ℕ) → decimal_value (reverse xs) ≡ rev_value xs
value_reverse [] = refl
value_reverse (x ∷ xs) =
    ap decimal_value (reverse-append (x ∷ []) xs)
    ∙ value_from-append 0 (reverse xs) (x ∷ [])
    ∙ ap (λ (t : ℕ). t * 10 + (x - b'0')) (value_reverse xs)

rev_digits-zero : (f : ℕ) → rev_digits f 0 ≡ []
unfolding rev_digits
rev_digits-zero zero = refl
rev_digits-zero (suc f) = refl

rev_digits-value : (f n : ℕ) → n < 10 ^ f → rev_value (rev_digits f n) ≡ n
unfolding rev_digits
rev_digits-value zero n h = omega arith
rev_digits-value (suc f) n h =
    ground (arith, pow-suc 10 f, rev_digits-value f (n / 10) (omega (arith, pow-suc 10 f)))

rev_digits-IsDigit : (f n : ℕ) → All IsDigit (rev_digits f n)
unfolding rev_digits
rev_digits-IsDigit zero n = tt
rev_digits-IsDigit (suc f) n = elim (Bool-cases (n == 0)) [
  | inl e ↦ rw e tt
  | inr e ↦ rw e (omega arith, rev_digits-IsDigit f (n / 10))
]

length-rev_digits : (f g n : ℕ) → n < 10 ^ g → length (rev_digits f n) ≤ g
unfolding rev_digits
length-rev_digits zero g n h = omega arith
length-rev_digits (suc f) zero n h = ground arith
length-rev_digits (suc f) (suc g) n h =
    ground (arith, length-rev_digits f g (n / 10) (omega (arith, pow-suc 10 g)))

All-reverse : (xs : List ℕ) → All IsDigit xs → All IsDigit (reverse xs)
All-reverse [] h = tt
All-reverse (x ∷ xs) h =
    rw (reverse-append (x ∷ []) xs)
      (All-append IsDigit (reverse xs) (x ∷ []) (All-reverse xs h.1) (h.0, tt))

length-reverse : (xs : List ℕ) → length (reverse xs) ≡ length xs
length-reverse [] = refl
length-reverse (x ∷ xs) = omega (
  arith,
  ap (length {0}) (reverse-append (x ∷ []) xs),
  length-append (reverse xs) (x ∷ []),
  length-reverse xs,
)

ltoa_back-reverse : (f n : ℕ) → 0 < n → ltoa_back (suc f) n ≡ reverse (rev_digits (suc f) n)
unfolding ltoa_back rev_digits
ltoa_back-reverse zero n h = ground (arith, reverse-append ((48 + n % 10) ∷ []) [])
ltoa_back-reverse (suc f) n h = ground (
  arith,
  ltoa_back-reverse f (n / 10),
  rev_digits-zero (suc f),
  reverse-append ((48 + n % 10) ∷ []) (rev_digits (suc f) (n / 10)),
)

ltoa-zero : ltoa 0 ≡ b'0' ∷ []
unfolding ltoa ltoa_back
ltoa-zero = refl

-- For every number the text that `ltoa` stores is the text of `utoa_dec`, and `uart_put_int`
-- sends the same digits.
pub ltoa-eq-utoa_dec : (n : ℕ) → (ltoa n ≡ utoa_dec n) × (uart_put_int n ≡ utoa_dec n)
unfolding utoa_dec uart_put_int
ltoa-eq-utoa_dec n = elim (Bool-cases (n == 0)) [
  | inl e ↦ (rw e (ap ltoa ((==_iff n 0).0 e) ∙ ltoa-zero), refl)
  | inr e ↦ (rw e (unfold ltoa in ltoa_back-reverse 19 n (ground arith)), refl)
]

-- For every number below `2 ^ 64`, `utoa_dec` writes digits only, and their decimal value is the
-- number.
pub utoa_dec-value :
    (n : ℕ) → n < 2 ^ 64 → (decimal_value (utoa_dec n) ≡ n) × All IsDigit (utoa_dec n)
unfolding utoa_dec
utoa_dec-value n h = elim (Bool-cases (n == 0)) [
  | inl e ↦ rw e (ground arith, ground arith)
  | inr e ↦ rw e (
    value_reverse (rev_digits digit_fuel n) ∙ rev_digits-value digit_fuel n (omega arith),
    All-reverse (rev_digits digit_fuel n) (rev_digits-IsDigit digit_fuel n),
  )
]

one_digit : (n : ℕ) → (n == 0) ≡ false → 1 ≤ length (reverse (rev_digits digit_fuel n))
unfolding rev_digits
one_digit n e = omega (arith, length-reverse (rev_digits digit_fuel n), nonempty)
  where
    nonempty : 1 ≤ length (rev_digits digit_fuel n)
    nonempty = ground arith

-- A number below `10 ^ g` takes at most `g` characters, one at least.
pub length-utoa_dec :
    (g n : ℕ) → 0 < g → n < 10 ^ g → (1 ≤ length (utoa_dec n)) × (length (utoa_dec n) ≤ g)
unfolding utoa_dec
length-utoa_dec g n pos h = elim (Bool-cases (n == 0)) [
  | inl e ↦ rw e (omega arith)
  | inr e ↦ rw e (
    one_digit n e,
    omega (arith, length-reverse (rev_digits digit_fuel n), length-rev_digits digit_fuel g n h),
  )
]
