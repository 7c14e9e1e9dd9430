-- ===== src/Console/Uart/Laws.antt =====
-- What AetherWebOS/src/drivers/uart.c prints can be read back.
use native.Mathlib.Nat.{div-div-eq-div-mul, pow-suc}
use aether_webos.Prelude.{
  ℕ, zero, suc, ◌+◌, ◌-◌, ◌*◌, ◌/◌, ◌^◌, ◌<◌, ◌≡◌, refl, arith, sym, ap, ◌∙◌, List, [], ◌∷◌, ◌++◌,
  All, ◌==◌, if◌then◌else◌, leb, false, append-nil, get_or, drop, bit_and, bit_and_low, ◌>>>◌,
}
use aether_webos.Utils.Decimal.{utoa_dec, uart_put_int}
use aether_webos.Utils.Decimal.Laws.{IsDigit, value_from, utoa_dec-value, ltoa-eq-utoa_dec}
use aether_webos.Console.Uart.{
  uart_puts, hextab, hex, hex_loop, uart_put_hex, uart_print_hex16, uart_print_ip,
}

-- The value of a hexadecimal digit of either case.
abbrev pub digit_value : ℕ → ℕ
digit_value c = if leb c b'9' then c - b'0' else if leb c b'F' then c - 55 else c - 87

-- The number that hexadecimal digits stand for, read on from `acc`.
abbrev pub hex_value_from : ℕ → List ℕ → ℕ
hex_value_from acc [] = acc
hex_value_from acc (c ∷ cs) = hex_value_from (acc * 16 + digit_value c) cs

pub hextab-digit : (d : ℕ) → d < 16 → digit_value (get_or hextab d 0) ≡ d
hextab-digit zero h = refl
hextab-digit (suc zero) h = refl
hextab-digit (suc (suc zero)) h = refl
hextab-digit (suc (suc (suc zero))) h = refl
hextab-digit (suc (suc (suc (suc zero)))) h = refl
hextab-digit (suc (suc (suc (suc (suc zero))))) h = refl
hextab-digit (suc (suc (suc (suc (suc (suc zero)))))) h = refl
hextab-digit (suc (suc (suc (suc (suc (suc (suc zero))))))) h = refl
hextab-digit (suc (suc (suc (suc (suc (suc (suc (suc zero)))))))) h = refl
hextab-digit (suc (suc (suc (suc (suc (suc (suc (suc (suc zero))))))))) h = refl
hextab-digit (suc (suc (suc (suc (suc (suc (suc (suc (suc (suc zero)))))))))) h = refl
hextab-digit (suc (suc (suc (suc (suc (suc (suc (suc (suc (suc (suc zero))))))))))) h = refl
hextab-digit (suc (suc (suc (suc (suc (suc (suc (suc (suc (suc (suc (suc zero)))))))))))) h = refl
hextab-digit (suc (suc (suc (suc (suc (suc (suc (suc (suc (suc (suc (suc (suc zero))))))))))))) h =
    refl
hextab-digit
      (suc (suc (suc (suc (suc (suc (suc (suc (suc (suc (suc (suc (suc (suc zero)))))))))))))) h =
    refl
hextab-digit
      (suc (suc (suc (suc (suc (suc (suc (suc (suc (suc (suc (suc (suc (suc (suc zero)))))))))))))))
      h =
    refl
hextab-digit
      (suc
        (suc (suc (suc (suc (suc (suc (suc (suc (suc (suc (suc (suc (suc (suc (suc d))))))))))))))))
      h =
    absurd (omega arith)

hex-digit : (d : ℕ) → d < 16 → digit_value (get_or hex d 0) ≡ d
hex-digit zero h = refl
hex-digit (suc zero) h = refl
hex-digit (suc (suc zero)) h = refl
hex-digit (suc (suc (suc zero))) h = refl
hex-digit (suc (suc (suc (suc zero)))) h = refl
hex-digit (suc (suc (suc (suc (suc zero))))) h = refl
hex-digit (suc (suc (suc (suc (suc (suc zero)))))) h = refl
hex-digit (suc (suc (suc (suc (suc (suc (suc zero))))))) h = refl
hex-digit (suc (suc (suc (suc (suc (suc (suc (suc zero)))))))) h = refl
hex-digit (suc (suc (suc (suc (suc (suc (suc (suc (suc zero))))))))) h = refl
hex-digit (suc (suc (suc (suc (suc (suc (suc (suc (suc (suc zero)))))))))) h = refl
hex-digit (suc (suc (suc (suc (suc (suc (suc (suc (suc (suc (suc zero))))))))))) h = refl
hex-digit (suc (suc (suc (suc (suc (suc (suc (suc (suc (suc (suc (suc zero)))))))))))) h = refl
hex-digit (suc (suc (suc (suc (suc (suc (suc (suc (suc (suc (suc (suc (suc zero))))))))))))) h =
    refl
hex-digit (suc (suc (suc (suc (suc (suc (suc (suc (suc (suc (suc (suc (suc (suc zero))))))))))))))
      h =
    refl
hex-digit
      (suc (suc (suc (suc (suc (suc (suc (suc (suc (suc (suc (suc (suc (suc (suc zero)))))))))))))))
      h =
    refl
hex-digit
      (suc
        (suc (suc (suc (suc (suc (suc (suc (suc (suc (suc (suc (suc (suc (suc (suc d))))))))))))))))
      h =
    absurd (omega arith)

wider : (n : ℕ) → 2 ^ (suc n * 4) ≡ 2 ^ (n * 4) * 16
wider n =
    let more : suc n * 4 ≡ suc (suc (suc (suc (n * 4)))) = omega arith in
    ap (λ (k : ℕ). 2 ^ k) more
    ∙ omega (
      arith,
      pow-suc 2 (n * 4),
      pow-suc 2 (suc (n * 4)),
      pow-suc 2 (suc (suc (n * 4))),
      pow-suc 2 (suc (suc (suc (n * 4)))),
    )

shift_step :
    (n val : ℕ) → val >>> (n * 4) ≡ (val >>> (suc n * 4)) * 16 + bit_and (val >>> (n * 4)) 0xF
shift_step n val =
    let q : ℕ = val / 2 ^ (n * 4) in
    let moved : val / 2 ^ (suc n * 4) ≡ q / 16 =
      ap (λ (t : ℕ). val / t) (wider n) ∙ sym (div-div-eq-div-mul val (2 ^ (n * 4)) 16) in
    omega (arith, moved, bit_and_low 4 q)

hex_loop-value :
    (tab : List ℕ) (n val : ℕ)
    → ((d : ℕ) → d < 16 → digit_value (get_or tab d 0) ≡ d)
    → hex_value_from (val >>> (n * 4)) (hex_loop tab n val) ≡ val
unfolding hex_loop
hex_loop-value tab zero val digits = omega arith
hex_loop-value tab (suc n) val digits =
    let d : ℕ = bit_and (val >>> (n * 4)) 0xF in
    let read : digit_value (get_or tab d 0) ≡ d =
      digits d (omega (arith, bit_and_low 4 (val >>> (n * 4)))) in
    let step : (val >>> (suc n * 4)) * 16 + digit_value (get_or tab d 0) ≡ val >>> (n * 4) =
      omega (arith, read, shift_step n val) in
    ap (λ (acc : ℕ). hex_value_from acc (hex_loop tab n val)) step ∙ hex_loop-value tab n val digits

-- The hexadecimal digits that `uart_put_hex` sends behind "0x" stand for the number, for every
-- number below 2^64.
pub uart_put_hex-value : (n : ℕ) → n < 2 ^ 64 → hex_value_from 0 (drop 2 (uart_put_hex n)) ≡ n
unfolding uart_put_hex uart_puts
uart_put_hex-value n h =
    let start : n >>> (16 * 4) ≡ 0 = omega arith in
    sym (ap (λ (acc : ℕ). hex_value_from acc (hex_loop hextab 16 n)) start)
    ∙ hex_loop-value hextab 16 n hextab-digit

-- The four digits of `uart_print_hex16` stand for the number, for every number of 16 bits.
pub uart_print_hex16-value : (n : ℕ) → n < 2 ^ 16 → hex_value_from 0 (uart_print_hex16 n) ≡ n
unfolding uart_print_hex16
uart_print_hex16-value n h =
    let start : n >>> (4 * 4) ≡ 0 = omega arith in
    sym (ap (λ (acc : ℕ). hex_value_from acc (hex_loop hex 4 n)) start)
    ∙ hex_loop-value hex 4 n hex-digit

-- Reading an address: the number so far, the part so far, and the text.
abbrev pub read_ip : ℕ → ℕ → List ℕ → ℕ
read_ip acc part [] = acc * 256 + part
read_ip acc part (c ∷ cs) =
    if c == b'.' then read_ip (acc * 256 + part) 0 cs else read_ip acc (part * 10 + (c - b'0')) cs

read_ip-digits :
    (acc part : ℕ) (ds cs : List ℕ)
    → All IsDigit ds
    → read_ip acc part (ds ++ cs) ≡ read_ip acc (value_from part ds) cs
read_ip-digits acc part [] cs h = refl
read_ip-digits acc part (d ∷ ds) cs h =
    let no_dot : (d == b'.') ≡ false = ground (arith, h.0) in
    rw no_dot (read_ip-digits acc (part * 10 + (d - b'0')) ds cs h.1)

read_ip-part :
    (acc n : ℕ) (cs : List ℕ) → n < 2 ^ 64 → read_ip acc 0 (uart_put_int n ++ cs) ≡ read_ip acc n cs
read_ip-part acc n cs h =
    let (value, digits) = utoa_dec-value n h in
    rw ((ltoa-eq-utoa_dec n).1)
      (read_ip-digits acc 0 (utoa_dec n) cs digits ∙ ap (λ (t : ℕ). read_ip acc t cs) value)

read_ip-last : (acc n : ℕ) → n < 2 ^ 64 → read_ip acc 0 (uart_put_int n) ≡ acc * 256 + n
read_ip-last acc n h =
    ap (λ (t : List ℕ). read_ip acc 0 t) (sym (append-nil (uart_put_int n)))
    ∙ read_ip-part acc n [] h

-- The text of `uart_print_ip` reads as the address in host order, for every address.
pub uart_print_ip-read : (ip : ℕ) → ip < 2 ^ 32 → read_ip 0 0 (uart_print_ip ip) ≡ ip
unfolding uart_print_ip
uart_print_ip-read ip h =
    let a = bit_and_low 8 (ip >>> 24) in
    let b = bit_and_low 8 (ip >>> 16) in
    let c = bit_and_low 8 (ip >>> 8) in
    let d = bit_and_low 8 ip in
    read_ip-part 0 (bit_and (ip >>> 24) 0xFF) _ (omega arith)
    ∙ read_ip-part (0 * 256 + bit_and (ip >>> 24) 0xFF) (bit_and (ip >>> 16) 0xFF) _ (omega arith)
    ∙ read_ip-part ((0 * 256 + bit_and (ip >>> 24) 0xFF) * 256 + bit_and (ip >>> 16) 0xFF)
        (bit_and (ip >>> 8) 0xFF) _ (omega arith)
    ∙ read_ip-last
        (((0 * 256 + bit_and (ip >>> 24) 0xFF) * 256 + bit_and (ip >>> 16) 0xFF) * 256
          + bit_and (ip >>> 8) 0xFF)
        (bit_and ip 0xFF) (omega arith)
    ∙ omega (arith, a, b, c, d)
