-- ===== src/Utils/Decimal.antt =====
-- Decimal conversion in AetherWebOS/src/common/utils.c (`utoa_dec`, `ltoa`, `str_append_kv_int`,
-- `mini_sprintf_telemetry`) and in AetherWebOS/src/drivers/uart.c (`uart_put_int`).
-- A buffer that is filled from its start is the list of the bytes written so far.
pub mod Laws
use mathlib.Core.List.{reverse}
use aether_webos.Prelude.{ℕ, zero, suc, ◌+◌, ◌%◌, ◌/◌, List, [], ◌∷◌, ◌++◌, ◌==◌, if◌then◌else◌}

-- The rounds given to each loop: 64 bits hold at most 20 decimal digits.
abbrev pub digit_fuel : ℕ
digit_fuel = 20

-- `while (value > 0) { tmp[i++] = '0' + value % 10; value /= 10; }`
unfoldable pub rev_digits : ℕ → ℕ → List ℕ
rev_digits zero value = []
rev_digits (suc fuel) value =
    let rest = rev_digits fuel (value / 10) in if value == 0 then [] else (b'0' + value % 10) ∷ rest

-- The copy loop reads `tmp` from its last entry back.
unfoldable pub utoa_dec : ℕ → List ℕ
utoa_dec value = if value == 0 then b'0' ∷ [] else reverse (rev_digits digit_fuel value)

-- `uart_put_int` sends `buf[--i]` down to `buf[0]`: the bytes in the order in which they are sent.
unfoldable pub uart_put_int : ℕ → List ℕ
uart_put_int n = if n == 0 then b'0' ∷ [] else reverse (rev_digits digit_fuel n)

-- The two do-while loops of `ltoa`: the first counts the digits, the second stores them from the
-- last place back, so the lowest digit stands last.
unfoldable pub ltoa_back : ℕ → ℕ → List ℕ
ltoa_back zero num = []
ltoa_back (suc fuel) num =
    let rest = ltoa_back fuel (num / 10) in
    if num / 10 == 0 then (num % 10 + b'0') ∷ [] else rest ++ (num % 10 + b'0') ∷ []

unfoldable pub ltoa : ℕ → List ℕ
ltoa num = ltoa_back digit_fuel num

-- The text `"key":value,` that `str_append_kv_int` appends.
unfoldable pub kv_int : List ℕ → ℕ → List ℕ
kv_int key value =
    let digits = if value == 0 then b'0' ∷ [] else reverse (rev_digits digit_fuel value) in
    b'"' ∷ (key ++ (b'"' ∷ b':' ∷ (digits ++ (b',' ∷ []))))
