-- ===== src/Console/Panic/Dump.antt =====
-- The numbers in what `handle_sync_exception` of AetherWebOS/src/kernel/exception.c prints.
use aether_webos.Prelude.{
  ℕ, zero, suc, ◌+◌, ◌*◌, ◌/◌, ◌%◌, ◌^◌, ◌<◌, ◌≡◌, refl, arith, ap, ◌∙◌, List, [], ◌∷◌, ◌++◌,
  append_assoc, ◌==◌, ltb, if◌then◌else◌, Bool-cases, inl, inr, length, get_or, All, bit_and,
  bit_and_low, false,
}
use aether_webos.Utils.Decimal.{utoa_dec, uart_put_int}
use aether_webos.Utils.Decimal.Laws.{IsDigit, utoa_dec-value, ltoa-eq-utoa_dec}
use aether_webos.Console.Uart.{uart_puts, hextab, hex_loop, uart_put_hex}
use aether_webos.Console.Uart.Laws.{digit_value, hex_value_from, uart_put_hex-value}
use aether_webos.Console.Panic.{
  class_of, iss_of, fault_text, class_text, register_name, column_end, register_loop,
  handle_sync_exception,
}

-- A reader of the numbers that are written as "0x" and 16 digits: it looks for the "0", has just
-- passed it, or has so many digits left behind the next one.
pub data Mode : Type 0 where
  seeking : Mode
  zero_seen : Mode
  digits : ℕ → Mode

abbrev pub read_mode : Mode → ℕ → List ℕ → List ℕ
read_mode m acc [] = []
read_mode seeking acc (c ∷ cs) =
    let here = read_mode zero_seen 0 cs in
    let on = read_mode seeking 0 cs in if c == b'0' then here else on
read_mode zero_seen acc (c ∷ cs) =
    let start = read_mode (digits 15) 0 cs in
    let here = read_mode zero_seen 0 cs in
    let on = read_mode seeking 0 cs in if c == b'x' then start else if c == b'0' then here else on
read_mode (digits zero) acc (c ∷ cs) = (acc * 16 + digit_value c) ∷ read_mode seeking 0 cs
read_mode (digits (suc k)) acc (c ∷ cs) = read_mode (digits k) (acc * 16 + digit_value c) cs

-- The numbers of a text, in order.
abbrev pub numbers : List ℕ → List ℕ
numbers text = read_mode seeking 0 text

digits-read :
    (tab : List ℕ) (k n acc : ℕ) (rest : List ℕ)
    → read_mode (digits k) acc (hex_loop tab (suc k) n ++ rest)
      ≡ hex_value_from acc (hex_loop tab (suc k) n) ∷ numbers rest
unfolding hex_loop
digits-read tab zero n acc rest = refl
digits-read tab (suc k) n acc rest = digits-read tab k n _ rest

hex-numbers :
    (n : ℕ) (rest : List ℕ) → n < 2 ^ 64 → numbers (uart_put_hex n ++ rest) ≡ n ∷ numbers rest
unfolding uart_put_hex uart_puts
hex-numbers n rest h =
    digits-read hextab 15 n 0 rest ∙ ap (λ (v : ℕ). v ∷ numbers rest) (uart_put_hex-value n h)

-- A text without such numbers, in front of others.
abbrev Silent : List ℕ → Type 0
Silent text = (rest : List ℕ) → numbers (text ++ rest) ≡ numbers rest

append-Silent : (xs ys : List ℕ) → Silent xs → Silent ys → Silent (xs ++ ys)
append-Silent xs ys h k rest = ap numbers (append_assoc xs ys rest) ∙ h (ys ++ rest) ∙ k rest

fault-Silent : (iss : ℕ) → Silent (fault_text iss)
unfolding fault_text uart_puts
fault-Silent iss rest = elim (Bool-cases (bit_and iss 0x3F == 0x05)) [
  | inl one ↦ elim (Bool-cases (bit_and iss 0x3F == 0x06)) [
    | inl two ↦ absurd (ground (arith, one, two))
    | inr a ↦ elim (Bool-cases (bit_and iss 0x3F == 0x0F)) [
      | inl three ↦ absurd (ground (arith, one, three))
      | inr c ↦ rw (one, a, c) refl
    ]
  ]
  | inr a ↦ elim (Bool-cases (bit_and iss 0x3F == 0x06)) [
    | inl two ↦ elim (Bool-cases (bit_and iss 0x3F == 0x0F)) [
      | inl three ↦ absurd (ground (arith, two, three))
      | inr c ↦ rw (a, two, c) refl
    ]
    | inr c ↦ elim (Bool-cases (bit_and iss 0x3F == 0x0F)) [
      | inl three ↦ rw (a, c, three) refl
      | inr d ↦ rw (a, c, d) refl
    ]
  ]
]

-- The class is printed as a number if it is none of the four.
abbrev pub class_numbers : ℕ → List ℕ
class_numbers ec =
    if ec == 0x00
    then []
    else if ec == 0x21
    then []
    else if ec == 0x25
    then []
    else if ec == 0x3C
    then []
    else ec ∷ []

class-numbers :
    (ec iss : ℕ) (rest : List ℕ)
    → ec < 2 ^ 64
    → numbers (class_text ec iss ++ rest) ≡ class_numbers ec ++ numbers rest
unfolding class_text uart_puts
class-numbers ec iss rest h = elim (Bool-cases (ec == 0x00)) [
  | inl e ↦ rw e refl
  | inr a ↦ elim (Bool-cases (ec == 0x21)) [
    | inl e ↦ rw (a, e) refl
    | inr b ↦ elim (Bool-cases (ec == 0x25)) [
      | inl e ↦ rw (a, b, e) (fault-Silent iss rest)
      | inr c ↦ elim (Bool-cases (ec == 0x3C)) [
        | inl e ↦ rw (a, b, c, e) refl
        | inr d ↦ rw (a, b, c, d) (hex-numbers ec rest h)
      ]
    ]
  ]
]

-- Decimal digits, from either mode, in front of a colon.
decimal-skipped :
    (ds rest : List ℕ)
    → All IsDigit ds
    → (numbers (ds ++ b':' ∷ rest) ≡ numbers rest)
      × (read_mode Mode.zero_seen 0 (ds ++ b':' ∷ rest) ≡ numbers rest)
decimal-skipped [] rest h = (refl, refl)
decimal-skipped (d ∷ ds) rest h =
    let (from, zero_from) = decimal-skipped ds rest h.1 in
    let no_x : (d == b'x') ≡ false = ground (arith, h.0) in
    elim (Bool-cases (d == b'0')) [
      | inl e ↦ (rw e zero_from, rw (no_x, e) zero_from)
      | inr e ↦ (rw e from, rw (no_x, e) from)
    ]

int-skipped :
    (i : ℕ) (rest : List ℕ)
    → i < 2 ^ 64
    → (numbers (uart_put_int i ++ b':' ∷ rest) ≡ numbers rest)
      × (read_mode Mode.zero_seen 0 (uart_put_int i ++ b':' ∷ rest) ≡ numbers rest)
int-skipped i rest h =
    let (value, all) = utoa_dec-value i h in
    rw ((ltoa-eq-utoa_dec i).1) (decimal-skipped (utoa_dec i) rest all)

name-Silent : (i : ℕ) → i < 2 ^ 64 → Silent (register_name i)
unfolding register_name uart_puts
name-Silent i h rest =
    let (from, zero_from) = int-skipped i (b' ' ∷ rest) h in
    let colon : (uart_put_int i ++ b':' ∷ b' ' ∷ []) ++ rest
        ≡ uart_put_int i ++ b':' ∷ b' ' ∷ rest =
      append_assoc (uart_put_int i) (b':' ∷ b' ' ∷ []) rest in
    elim (Bool-cases (ltb i 10)) [
      | inl small ↦ rw (small, colon) zero_from
      | inr large ↦ rw (large, colon) from
    ]

column-Silent : (i : ℕ) → Silent (column_end i)
unfolding column_end uart_puts
column-Silent i rest = elim (Bool-cases ((i + 1) % 2 == 0)) [
  | inl e ↦ rw e refl
  | inr e ↦ rw e refl
]

loop-numbers :
    (i : ℕ) (xs rest : List ℕ)
    → All (λ x. x < 2 ^ 64) xs
    → i + length xs < 2 ^ 64
    → numbers (register_loop i xs ++ rest) ≡ xs ++ numbers rest
unfolding register_loop
loop-numbers i [] rest h small = refl
loop-numbers i (x ∷ xs) rest h small =
    let later : List ℕ = register_loop (suc i) xs in
    ap numbers (append_assoc (register_name i) (uart_put_hex x ++ (column_end i ++ later)) rest)
    ∙ name-Silent i (omega arith) ((uart_put_hex x ++ (column_end i ++ later)) ++ rest)
    ∙ ap numbers (append_assoc (uart_put_hex x) (column_end i ++ later) rest)
    ∙ hex-numbers x ((column_end i ++ later) ++ rest) h.0
    ∙ ap (λ (ns : List ℕ). x ∷ ns)
        (ap numbers (append_assoc (column_end i) later rest)
          ∙ column-Silent i (later ++ rest)
          ∙ loop-numbers (suc i) xs rest h.1 (omega arith))

bits-class : (esr : ℕ) → class_of esr < 2 ^ 64
bits-class esr = omega (arith, bit_and_low 6 (esr / 2 ^ 26 % 2 ^ 32))

get_or-small : (i : ℕ) (xs : List ℕ) → All (λ x. x < 2 ^ 64) xs → get_or xs i 0 < 2 ^ 64
get_or-small i [] h = omega arith
get_or-small zero (x ∷ xs) h = h.0
get_or-small (suc i) (x ∷ xs) h = get_or-small i xs h.1

-- What the panic screen prints loses nothing: reading its numbers back gives the exception's class if
-- it is none of the four that have a name, then the syndrome, the address of the fault and the
-- address of the instruction, then every general register in order, and register 30 once more.
pub handle_sync_exception-numbers :
    (esr elr far : ℕ) (frame : List ℕ)
    → esr < 2 ^ 64
    → elr < 2 ^ 64
    → far < 2 ^ 64
    → length frame ≡ 31
    → All (λ x. x < 2 ^ 64) frame
    → numbers (handle_sync_exception esr elr far frame)
      ≡ class_numbers (class_of esr) ++ (esr ∷ far ∷ elr ∷ (frame ++ (get_or frame 30 0 ∷ [])))
unfolding handle_sync_exception uart_puts
handle_sync_exception-numbers esr elr far frame he hl hf count h =
    class-numbers (class_of esr) (iss_of esr) _ (bits-class esr)
    ∙ ap (λ (ns : List ℕ). class_numbers (class_of esr) ++ ns)
        (hex-numbers esr _ he
          ∙ ap (λ (ns : List ℕ). esr ∷ ns)
              (hex-numbers far _ hf
                ∙ ap (λ (ns : List ℕ). far ∷ ns)
                    (hex-numbers elr _ hl
                      ∙ ap (λ (ns : List ℕ). elr ∷ ns)
                          (loop-numbers 0 frame _ h (omega arith)
                            ∙ ap (λ (ns : List ℕ). frame ++ ns)
                                (hex-numbers (get_or frame 30 0) _ (get_or-small 30 frame h))))))
