-- ===== src/Console/Uart.antt =====
-- The output functions of AetherWebOS/src/drivers/uart.c. Waiting for room in the transmitter is left out.
pub mod Laws
use aether_webos.Prelude.{
  ℕ, zero, suc, ◌+◌, ◌*◌, ◌/◌, ◌^◌, List, [], ◌∷◌, ◌++◌, ◌==◌, if◌then◌else◌, get_or, bit_and,
  ◌>>>◌,
}
use aether_webos.Utils.Decimal.{uart_put_int}
use aether_webos.Kernel.Keys.{KernelMode}

-- A text is the list of its characters, without the NUL.
unfoldable pub uart_puts : List ℕ → List ℕ
uart_puts [] = []
uart_puts (c ∷ cs) = let rest = uart_puts cs in if c == b'\n' then b'\r' ∷ c ∷ rest else c ∷ rest

-- "0123456789ABCDEF"
abbrev pub hextab : List ℕ
hextab =
    b'0' ∷ b'1' ∷ b'2' ∷ b'3' ∷ b'4' ∷ b'5' ∷ b'6' ∷ b'7' ∷ b'8' ∷ b'9' ∷ b'A' ∷ b'B' ∷ b'C' ∷ b'D'
    ∷ b'E' ∷ b'F' ∷ []

-- "0123456789abcdef"
abbrev pub hex : List ℕ
hex =
    b'0' ∷ b'1' ∷ b'2' ∷ b'3' ∷ b'4' ∷ b'5' ∷ b'6' ∷ b'7' ∷ b'8' ∷ b'9' ∷ b'a' ∷ b'b' ∷ b'c' ∷ b'd'
    ∷ b'e' ∷ b'f' ∷ []

-- `for (int i = 4 * (n - 1); i >= 0; i -= 4)`
unfoldable pub hex_loop : List ℕ → ℕ → ℕ → List ℕ
hex_loop tab zero val = []
hex_loop tab (suc n) val = get_or tab (bit_and (val >>> (n * 4)) 0xF) 0 ∷ hex_loop tab n val

unfoldable pub uart_put_hex : ℕ → List ℕ
uart_put_hex n = uart_puts (b'0' ∷ b'x' ∷ []) ++ hex_loop hextab 16 n

unfoldable pub uart_print_hex16 : ℕ → List ℕ
uart_print_hex16 val = hex_loop hex 4 val

unfoldable pub uart_print_ip : ℕ → List ℕ
uart_print_ip ip =
    uart_put_int (bit_and (ip >>> 24) 0xFF)
    ++ (b'.'
        ∷ (uart_put_int (bit_and (ip >>> 16) 0xFF)
            ++ (b'.'
                ∷ (uart_put_int (bit_and (ip >>> 8) 0xFF)
                    ++ (b'.' ∷ uart_put_int (bit_and ip 0xFF))))))

unfoldable pub uart_put_hex_byte : ℕ → List ℕ
uart_put_hex_byte byte =
    get_or hextab (bit_and (byte >>> 4) 0xF) 0 ∷ get_or hextab (bit_and byte 0xF) 0 ∷ []

unfoldable pub uart_debugps : KernelMode → List ℕ → List ℕ
uart_debugps KernelMode.mode_debug str = uart_puts str
uart_debugps _ str = []

unfoldable pub uart_debugpc : KernelMode → ℕ → List ℕ
uart_debugpc KernelMode.mode_debug c = c ∷ []
uart_debugpc _ c = []
