-- ===== src/Kernel/Keys.antt =====
-- The input handling of the loop in AetherWebOS/src/kernel/kernel.c: one byte from the UART.
pub mod Sequence
use aether_webos.Prelude.{
  ℕ, ◌+◌, ◌-◌, ◌*◌, ◌^◌, List, [], ◌∷◌, Bool, true, false, ◌&&◌, ◌==◌, leb, ltb, if◌then◌else◌,
}

-- `kernel_mode_t`
pub data KernelMode : Type 0 where
  mode_portal : KernelMode
  mode_confirm_shutdown : KernelMode
  mode_net_stats : KernelMode
  mode_debug : KernelMode

-- `num` is a static variable of type `int`, and starts at 0. `overflown` tells that its value has
-- left the type; from then on C says nothing of the program.
pub record Console : Type 0 where
  pub esc_state : ℕ
  pub num : ℕ
  pub overflown : Bool
  pub current_mode : KernelMode

abbrev pub esc : ℕ
esc = 0x1B

-- The mode that the number of a function key selects.
unfoldable pub select_mode : ℕ → KernelMode → KernelMode
select_mode num mode =
    if num == 18
    then KernelMode.mode_confirm_shutdown
    else if num == 21
    then KernelMode.mode_net_stats
    else mode

-- `num = num * 10 + (c - '0')`, on an `int` of 32 bits.
unfoldable pub with_digit : ℕ → Console → Console
with_digit c s =
    let n = s.num * 10 + (c - b'0') in
    record s { num = n; overflown = if ltb n (2 ^ 31) then s.overflown else true }

-- `esc_state == 2`: the digits, the closing `~`, or any other byte. The flag says that the rest of
-- the round is skipped by `continue`.
unfoldable pub in_number : ℕ → Console → Console × Bool
in_number c s =
    if leb b'0' c && leb c b'9'
    then (with_digit c s, true)
    else if c == b'~'
    then (
      record s { esc_state = 0; num = 0; current_mode = select_mode s.num s.current_mode },
      true,
    )
    else (record s { esc_state = 0 }, false)

-- `esc_state == 20`
unfoldable pub in_function : ℕ → Console → Console × Bool
in_function c s =
    if c == b'P'
    then (record s { esc_state = 0; current_mode = KernelMode.mode_debug }, true)
    else (record s { esc_state = 0 }, true)

-- `esc_state == 1`
unfoldable pub after_escape : ℕ → Console → Console × Bool
after_escape c s =
    if c == b'['
    then (record s { esc_state = 2 }, true)
    else if c == b'O'
    then (record s { esc_state = 20 }, true)
    else (record s { esc_state = 0 }, false)

unfoldable pub key_step : ℕ → Console → Console × Bool
key_step c s =
    if c == esc
    then (record s { esc_state = 1 }, true)
    else if s.esc_state == 1
    then after_escape c s
    else if s.esc_state == 20
    then in_function c s
    else if s.esc_state == 2
    then in_number c s
    else (record s { esc_state = 0 }, false)

-- The bytes of several rounds, in order.
unfoldable pub type_keys : List ℕ → Console → Console
type_keys [] s = s
type_keys (c ∷ cs) s = type_keys cs (key_step c s).0
