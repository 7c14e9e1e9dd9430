-- ===== src/Console/Ipv6.antt =====
-- `print_ipv6` and `ipv6_handle` of AetherWebOS/src/drivers/ethernet/ipv6.c.
pub mod Longest
use aether_webos.Prelude.{
  ℕ, zero, suc, ◌+◌, ◌-◌, ◌*◌, ◌/◌, ◌%◌, ◌^◌, List, [], ◌∷◌, ◌++◌, Option, none, some, Bool, true,
  false, not, ◌&&◌, ◌==◌, ltb, if◌then◌else◌, get_or, take, drop, bit_and, bit_or, u16, ◌<<<◌,
  ◌>>>◌,
}
use aether_webos.Utils.ByteOrder.{load32}
use aether_webos.Console.Uart.{uart_puts, uart_print_hex16}

-- The words of an address, from its bytes.
unfoldable pub address_words : List ℕ → List ℕ
address_words (a ∷ b ∷ rest) = bit_or (u16 (a <<< 8)) b ∷ address_words rest
address_words _ = []

-- `while (j < 8 && words[j] == 0) j++;`: how far it goes.
unfoldable pub zeros : List ℕ → ℕ
zeros [] = 0
zeros (w ∷ ws) = let more = zeros ws in if w == 0 then suc more else 0

-- `best_start`, `none` for -1, and `best_len`.
pub record Run : Type 0 where
  pub best_start : Option ℕ
  pub best_len : ℕ

-- The search from word `i` on, with the words that are left; each round uses up one of them.
unfoldable pub search : ℕ → ℕ → List ℕ → Run → Run
search zero i ws best = best
search (suc n) i [] best = best
search (suc n) i (w ∷ ws) best =
    let len = zeros (w ∷ ws) in
    let longer : Run = record { best_start = some i; best_len = len } in
    let after =
      search n (i + len) (drop len (w ∷ ws)) (if ltb best.best_len len then longer else best) in
    let next = search n (i + 1) ws best in if w == 0 then after else next

abbrev pub at_start : Option ℕ → ℕ → Bool
at_start none i = false
at_start (some s) i = i == s

-- The loop that prints, from word `i` on.
unfoldable pub print_loop : ℕ → ℕ → List ℕ → Option ℕ → ℕ → List ℕ
print_loop zero i ws best_start best_len = []
print_loop (suc n) i [] best_start best_len = []
print_loop (suc n) i (w ∷ ws) best_start best_len =
    let rest = print_loop n (i + 1) ws best_start best_len in
    let behind = print_loop n (i + best_len) (drop best_len (w ∷ ws)) best_start best_len in
    let colon = if not (i == 7) && not (at_start best_start (i + 1)) then b':' ∷ rest else rest in
    if at_start best_start i
    then uart_puts (b':' ∷ b':' ∷ []) ++ behind
    else uart_print_hex16 w ++ colon

unfoldable pub print_ipv6 : List ℕ → List ℕ
print_ipv6 addr =
    let words = address_words addr in
    let best = search 8 0 words (record { best_start = none; best_len = 0 }) in
    let best_start = if ltb best.best_len 2 then none else best.best_start in
    print_loop 8 0 words best_start best.best_len

-- `__builtin_bswap32`
unfoldable pub bswap32 : ℕ → ℕ
bswap32 x =
    x % 256 * 2 ^ 24 + x / 2 ^ 8 % 256 * 2 ^ 16 + x / 2 ^ 16 % 256 * 2 ^ 8 + x / 2 ^ 24 % 256

-- "[IPv6] src: "
abbrev source_text : List ℕ
source_text = 91 ∷ 73 ∷ 80 ∷ 118 ∷ 54 ∷ 93 ∷ 32 ∷ 115 ∷ 114 ∷ 99 ∷ 58 ∷ 32 ∷ []

-- " -> "
abbrev arrow_text : List ℕ
arrow_text = 32 ∷ 45 ∷ 62 ∷ 32 ∷ []

-- "ICMPv6\r\n"
abbrev icmpv6_text : List ℕ
icmpv6_text = 73 ∷ 67 ∷ 77 ∷ 80 ∷ 118 ∷ 54 ∷ 13 ∷ 10 ∷ []

-- "TCP\r\n"
abbrev tcp_text : List ℕ
tcp_text = 84 ∷ 67 ∷ 80 ∷ 13 ∷ 10 ∷ []

-- "Unknown Proto\r\n"
abbrev unknown_text : List ℕ
unknown_text =
    85 ∷ 110 ∷ 107 ∷ 110 ∷ 111 ∷ 119 ∷ 110 ∷ 32 ∷ 80 ∷ 114 ∷ 111 ∷ 116 ∷ 111 ∷ 13 ∷ 10 ∷ []

unfoldable pub protocol_text : ℕ → List ℕ
protocol_text next_header =
    if next_header == 58 then icmpv6_text else if next_header == 6 then tcp_text else unknown_text

-- What the handler prints for a packet.
unfoldable pub ipv6_handle : List ℕ → ℕ → List ℕ
ipv6_handle packet len =
    let version = bit_and (bswap32 (load32 packet 0) >>> 28) 0xF in
    if ltb len 40
    then []
    else if not (version == 6)
    then []
    else uart_puts source_text
      ++ (print_ipv6 (take 16 (drop 8 packet))
          ++ (uart_puts arrow_text ++ uart_puts (protocol_text (get_or packet 6 0))))
