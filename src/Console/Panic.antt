-- ===== src/Console/Panic.antt =====
-- `handle_sync_exception` of AetherWebOS/src/kernel/exception.c: what it prints before it stops for ever.
pub mod Dump
use aether_webos.Prelude.{
  ℕ, suc, ◌+◌, ◌%◌, ◌^◌, List, [], ◌∷◌, ◌++◌, ◌==◌, ltb, if◌then◌else◌, get_or, bit_and, u32, ◌>>>◌,
}
use aether_webos.Utils.Decimal.{uart_put_int}
use aether_webos.Console.Uart.{uart_puts, uart_put_hex}

-- "\r\n--- [!!!] KERNEL PANIC: SYNCHRONOUS ABORT [!!!] ---\r\n"
abbrev pub banner_text : List ℕ
banner_text =
    13 ∷ 10 ∷ 45 ∷ 45 ∷ 45 ∷ 32 ∷ 91 ∷ 33 ∷ 33 ∷ 33 ∷ 93 ∷ 32 ∷ 75 ∷ 69 ∷ 82 ∷ 78 ∷ 69 ∷ 76 ∷ 32
    ∷ 80 ∷ 65 ∷ 78 ∷ 73 ∷ 67 ∷ 58 ∷ 32 ∷ 83 ∷ 89 ∷ 78 ∷ 67 ∷ 72 ∷ 82 ∷ 79 ∷ 78 ∷ 79 ∷ 85 ∷ 83 ∷ 32
    ∷ 65 ∷ 66 ∷ 79 ∷ 82 ∷ 84 ∷ 32 ∷ 91 ∷ 33 ∷ 33 ∷ 33 ∷ 93 ∷ 32 ∷ 45 ∷ 45 ∷ 45 ∷ 13 ∷ 10 ∷ []

-- "Condition: "
abbrev pub condition_text : List ℕ
condition_text = 67 ∷ 111 ∷ 110 ∷ 100 ∷ 105 ∷ 116 ∷ 105 ∷ 111 ∷ 110 ∷ 58 ∷ 32 ∷ []

-- "Unknown/Undefined Instruction"
abbrev pub undefined_text : List ℕ
undefined_text =
    85 ∷ 110 ∷ 107 ∷ 110 ∷ 111 ∷ 119 ∷ 110 ∷ 47 ∷ 85 ∷ 110 ∷ 100 ∷ 101 ∷ 102 ∷ 105 ∷ 110 ∷ 101 ∷ 100
    ∷ 32 ∷ 73 ∷ 110 ∷ 115 ∷ 116 ∷ 114 ∷ 117 ∷ 99 ∷ 116 ∷ 105 ∷ 111 ∷ 110 ∷ []

-- "Instruction Abort (Lower EL)"
abbrev pub instruction_text : List ℕ
instruction_text =
    73 ∷ 110 ∷ 115 ∷ 116 ∷ 114 ∷ 117 ∷ 99 ∷ 116 ∷ 105 ∷ 111 ∷ 110 ∷ 32 ∷ 65 ∷ 98 ∷ 111 ∷ 114 ∷ 116
    ∷ 32 ∷ 40 ∷ 76 ∷ 111 ∷ 119 ∷ 101 ∷ 114 ∷ 32 ∷ 69 ∷ 76 ∷ 41 ∷ []

-- "Data Abort (EL1)"
abbrev pub abort_text : List ℕ
abort_text = 68 ∷ 97 ∷ 116 ∷ 97 ∷ 32 ∷ 65 ∷ 98 ∷ 111 ∷ 114 ∷ 116 ∷ 32 ∷ 40 ∷ 69 ∷ 76 ∷ 49 ∷ 41 ∷ []

-- " [Translation Fault Level 1]"
abbrev pub level_1_text : List ℕ
level_1_text =
    32 ∷ 91 ∷ 84 ∷ 114 ∷ 97 ∷ 110 ∷ 115 ∷ 108 ∷ 97 ∷ 116 ∷ 105 ∷ 111 ∷ 110 ∷ 32 ∷ 70 ∷ 97 ∷ 117
    ∷ 108 ∷ 116 ∷ 32 ∷ 76 ∷ 101 ∷ 118 ∷ 101 ∷ 108 ∷ 32 ∷ 49 ∷ 93 ∷ []

-- " [Translation Fault Level 2]"
abbrev pub level_2_text : List ℕ
level_2_text =
    32 ∷ 91 ∷ 84 ∷ 114 ∷ 97 ∷ 110 ∷ 115 ∷ 108 ∷ 97 ∷ 116 ∷ 105 ∷ 111 ∷ 110 ∷ 32 ∷ 70 ∷ 97 ∷ 117
    ∷ 108 ∷ 116 ∷ 32 ∷ 76 ∷ 101 ∷ 118 ∷ 101 ∷ 108 ∷ 32 ∷ 50 ∷ 93 ∷ []

-- " [Permission Fault Level 3]"
abbrev pub permission_text : List ℕ
permission_text =
    32 ∷ 91 ∷ 80 ∷ 101 ∷ 114 ∷ 109 ∷ 105 ∷ 115 ∷ 115 ∷ 105 ∷ 111 ∷ 110 ∷ 32 ∷ 70 ∷ 97 ∷ 117 ∷ 108
    ∷ 116 ∷ 32 ∷ 76 ∷ 101 ∷ 118 ∷ 101 ∷ 108 ∷ 32 ∷ 51 ∷ 93 ∷ []

-- "Breakpoint"
abbrev pub breakpoint_text : List ℕ
breakpoint_text = 66 ∷ 114 ∷ 101 ∷ 97 ∷ 107 ∷ 112 ∷ 111 ∷ 105 ∷ 110 ∷ 116 ∷ []

-- "Other Syndrome: "
abbrev pub other_text : List ℕ
other_text =
    79 ∷ 116 ∷ 104 ∷ 101 ∷ 114 ∷ 32 ∷ 83 ∷ 121 ∷ 110 ∷ 100 ∷ 114 ∷ 111 ∷ 109 ∷ 101 ∷ 58 ∷ 32 ∷ []

-- "\r\nESR_EL1: "
abbrev pub esr_text : List ℕ
esr_text = 13 ∷ 10 ∷ 69 ∷ 83 ∷ 82 ∷ 95 ∷ 69 ∷ 76 ∷ 49 ∷ 58 ∷ 32 ∷ []

-- "\r\nFAR_EL1: "
abbrev pub far_text : List ℕ
far_text = 13 ∷ 10 ∷ 70 ∷ 65 ∷ 82 ∷ 95 ∷ 69 ∷ 76 ∷ 49 ∷ 58 ∷ 32 ∷ []

-- "\r\nELR_EL1: "
abbrev pub elr_text : List ℕ
elr_text = 13 ∷ 10 ∷ 69 ∷ 76 ∷ 82 ∷ 95 ∷ 69 ∷ 76 ∷ 49 ∷ 58 ∷ 32 ∷ []

-- "\r\n"
abbrev pub line_end : List ℕ
line_end = 13 ∷ 10 ∷ []

-- "\r\n--- General Purpose Registers ---\r\n"
abbrev pub registers_title : List ℕ
registers_title =
    13 ∷ 10 ∷ 45 ∷ 45 ∷ 45 ∷ 32 ∷ 71 ∷ 101 ∷ 110 ∷ 101 ∷ 114 ∷ 97 ∷ 108 ∷ 32 ∷ 80 ∷ 117 ∷ 114 ∷ 112
    ∷ 111 ∷ 115 ∷ 101 ∷ 32 ∷ 82 ∷ 101 ∷ 103 ∷ 105 ∷ 115 ∷ 116 ∷ 101 ∷ 114 ∷ 115 ∷ 32 ∷ 45 ∷ 45 ∷ 45
    ∷ 13 ∷ 10 ∷ []

-- "\r\n\r\nLR (x30): "
abbrev pub lr_text : List ℕ
lr_text = 13 ∷ 10 ∷ 13 ∷ 10 ∷ 76 ∷ 82 ∷ 32 ∷ 40 ∷ 120 ∷ 51 ∷ 48 ∷ 41 ∷ 58 ∷ 32 ∷ []

-- "\r\n--------------------------------------------------\r\n"
abbrev pub rule_text : List ℕ
rule_text =
    13 ∷ 10 ∷ 45 ∷ 45 ∷ 45 ∷ 45 ∷ 45 ∷ 45 ∷ 45 ∷ 45 ∷ 45 ∷ 45 ∷ 45 ∷ 45 ∷ 45 ∷ 45 ∷ 45 ∷ 45 ∷ 45
    ∷ 45 ∷ 45 ∷ 45 ∷ 45 ∷ 45 ∷ 45 ∷ 45 ∷ 45 ∷ 45 ∷ 45 ∷ 45 ∷ 45 ∷ 45 ∷ 45 ∷ 45 ∷ 45 ∷ 45 ∷ 45 ∷ 45
    ∷ 45 ∷ 45 ∷ 45 ∷ 45 ∷ 45 ∷ 45 ∷ 45 ∷ 45 ∷ 45 ∷ 45 ∷ 45 ∷ 45 ∷ 45 ∷ 45 ∷ 13 ∷ 10 ∷ []

-- Exception class and syndrome.
abbrev pub class_of : ℕ → ℕ
class_of esr = bit_and (u32 (esr >>> 26)) 0x3F

abbrev pub iss_of : ℕ → ℕ
iss_of esr = bit_and (u32 esr) 0xFFFFFF

-- What is added for a data abort.
unfoldable pub fault_text : ℕ → List ℕ
fault_text iss =
    (if bit_and iss 0x3F == 0x05 then uart_puts level_1_text else [])
    ++ ((if bit_and iss 0x3F == 0x06 then uart_puts level_2_text else [])
        ++ (if bit_and iss 0x3F == 0x0F then uart_puts permission_text else []))

-- `switch(ec)`
unfoldable pub class_text : ℕ → ℕ → List ℕ
class_text ec iss =
    if ec == 0x00
    then uart_puts undefined_text
    else if ec == 0x21
    then uart_puts instruction_text
    else if ec == 0x25
    then uart_puts abort_text ++ fault_text iss
    else if ec == 0x3C
    then uart_puts breakpoint_text
    else uart_puts other_text ++ uart_put_hex ec

-- The number of a register, and what stands behind its value.
unfoldable pub register_name : ℕ → List ℕ
register_name i =
    uart_puts (b'x' ∷ [])
    ++ ((if ltb i 10 then uart_puts (b'0' ∷ []) else [])
        ++ (uart_put_int i ++ uart_puts (b':' ∷ b' ' ∷ [])))

unfoldable pub column_end : ℕ → List ℕ
column_end i =
    if (i + 1) % 2 == 0 then uart_puts line_end else uart_puts (b' ' ∷ b' ' ∷ b' ' ∷ b' ' ∷ [])

-- The loop over the registers from number `i` on.
unfoldable pub register_loop : ℕ → List ℕ → List ℕ
register_loop i [] = []
register_loop i (x ∷ xs) =
    register_name i ++ (uart_put_hex x ++ (column_end i ++ register_loop (suc i) xs))

-- `frame` holds the 31 registers.
unfoldable pub handle_sync_exception : ℕ → ℕ → ℕ → List ℕ → List ℕ
handle_sync_exception esr elr far frame =
    uart_puts banner_text
    ++ (uart_puts condition_text
        ++ (class_text (class_of esr) (iss_of esr)
            ++ (uart_puts esr_text
                ++ (uart_put_hex esr
                    ++ (uart_puts far_text
                        ++ (uart_put_hex far
                            ++ (uart_puts elr_text
                                ++ (uart_put_hex elr
                                    ++ (uart_puts line_end
                                        ++ (uart_puts registers_title
                                            ++ (register_loop 0 frame
                                                ++ (uart_puts lr_text
                                                    ++ (uart_put_hex (get_or frame 30 0)
                                                        ++ uart_puts rule_text)))))))))))))
