-- ===== src/Console/Pl011.antt =====
-- The registers of the UART in AetherWebOS/src/drivers/uart.c: its initialisation, the wait for room
-- in the transmitter, and reception. The board is BOARD_VIRT.
pub mod Pacing
use aether_webos.Prelude.{
  ℕ, zero, suc, ◌+◌, ◌^◌, List, [], ◌∷◌, Option, none, some, Bool, true, false, ◌==◌, if◌then◌else◌,
  bit_and, bit_or, u8, u32, ◌<<<◌,
}
use aether_webos.Bus.{Access, Trace, Answers}

abbrev pub uart0_base : ℕ
uart0_base = 0x09000000

abbrev pub uart0_dr : ℕ
uart0_dr = uart0_base

abbrev pub uart0_fr : ℕ
uart0_fr = uart0_base + 0x18

-- A read and a write of a register.
abbrev pub peek : Answers → ℕ → Trace → ℕ × Trace
peek device addr t = let val = u32 (device t addr) in (val, Access.read addr val ∷ t)

unfoldable pub uart_init : Trace → Trace
uart_init t =
    Access.write (uart0_base + 0x30) (bit_or (bit_or (1 <<< 9) (1 <<< 8)) 1)
    ∷ Access.write (uart0_base + 0x2C) (bit_or (1 <<< 4) (3 <<< 5))
    ∷ Access.write (uart0_base + 0x28) 3
    ∷ Access.write (uart0_base + 0x24) 26
    ∷ Access.write (uart0_base + 0x44) 0x7FF
    ∷ Access.write (uart0_base + 0x38) 0
    ∷ Access.write (uart0_base + 0x30) 0
    ∷ t

-- Bit 5 of the flag register: the transmitter is full.
unfoldable pub uart_is_writable : Answers → Trace → Bool × Trace
uart_is_writable device t = let (fr, t') = peek device uart0_fr t in (bit_and fr (1 <<< 5) == 0, t')

-- `while (!uart_is_writable());` with the reads that it may take; `none` if they do not suffice.
unfoldable pub uart_putc : ℕ → Answers → ℕ → Trace → Option Trace
uart_putc zero device c t = none
uart_putc (suc fuel) device c t =
    let (room, t') = uart_is_writable device t in
    elim room [
      | true ↦ some (Access.write uart0_dr (u8 c) ∷ t')
      | false ↦ uart_putc fuel device c t'
    ]

-- The bytes one after the other: what an output function sends, through `uart_putc`.
unfoldable pub send : ℕ → Answers → List ℕ → Trace → Option Trace
send fuel device [] t = some t
send fuel device (c ∷ cs) t = elim (uart_putc fuel device c t) [
  | none ↦ none
  | some t' ↦ send fuel device cs t'
]

-- Bit 4 of the flag register: nothing was received.
unfoldable pub uart_is_empty : Answers → Trace → Bool × Trace
uart_is_empty device t =
    let (fr, t') = peek device uart0_fr t in (if bit_and fr (1 <<< 4) == 0 then false else true, t')

unfoldable pub uart_getc : ℕ → Answers → Trace → Option (ℕ × Trace)
uart_getc zero device t = none
uart_getc (suc fuel) device t =
    let (empty, t') = uart_is_empty device t in
    let (dr, t'') = peek device uart0_dr t' in
    elim empty [ true ↦ uart_getc fuel device t' | false ↦ some (u8 (bit_and dr 0xFF), t'') ]

-- The input part of the loop in AetherWebOS/src/kernel/kernel.c: a byte, if one was received.
unfoldable pub read_key : ℕ → Answers → Trace → Option (Option ℕ × Trace)
read_key fuel device t =
    let (fr, t') = peek device uart0_fr t in
    elim (bit_and fr (1 <<< 4) == 0) [
      | false ↦ some (none, t')
      | true ↦ elim (uart_getc fuel device t') [ none ↦ none | some (c, t'') ↦ some (some c, t'') ]
    ]
