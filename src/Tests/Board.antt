-- ===== src/Tests/Board.antt =====
-- The UART, the interrupts, the panic screen and the telemetry on concrete inputs.
use aether_webos.Prelude.{
  ℕ, ◌^◌, ◌<◌, ◌≡◌, refl, arith, true, List, [], ◌∷◌, ◌++◌, map, Option, none, some, replicate,
  get_or, length, All, u8, ◌≤◌,
}
use aether_webos.Bus.{Access, Trace, Answers}
use aether_webos.Console.Pl011.{uart0_dr, uart0_fr, uart_is_writable, uart_putc, send}
use aether_webos.Console.Pl011.Pacing.{Paced, written, Drains, send-Paced, send-returns}
use aether_webos.Interrupts.{History, Board, load_word, read_register}
use aether_webos.Interrupts.Timer.{timer_init, interrupts}
use aether_webos.Interrupts.Timer.Ticks.{Steady, acked, reset, interrupts-Steady}
use aether_webos.Interrupts.Gic.{find_frame, wait_awake, wake, gic_init}
use aether_webos.Interrupts.Gic.Delivery.{Delivers, gic_init-Delivers}
use aether_webos.Console.Panic.{class_of, handle_sync_exception}
use aether_webos.Console.Panic.Dump.{numbers, class_numbers, handle_sync_exception-numbers}
use aether_webos.Bus.VirtioStart.{reset_loop, virtio_pci_reset}
use aether_webos.Kernel.Power.{
  Power, Command, psci_system_off_id, psci_call, psci_system_off, kernel_shutdown, Quiesced,
  kernel_shutdown-Quiesced,
}
use aether_webos.Net.Virtqueue.{Stats}
use aether_webos.Net.Telemetry.{net_get_telemetry_json, read_values, net_get_telemetry_json-read}

-- A UART that always has room.
abbrev idle : Answers
idle t addr = 0

abbrev hi : List ℕ
hi = b'h' ∷ b'i' ∷ []

abbrev hi_sent : Trace
hi_sent =
    Access.write uart0_dr b'i'
    ∷ Access.read uart0_fr 0
    ∷ Access.write uart0_dr b'h'
    ∷ Access.read uart0_fr 0
    ∷ []

hi-sent : send 1 idle hi [] ≡ some hi_sent
unfolding send uart_putc uart_is_writable
hi-sent = refl

send-Paced_example : Paced hi_sent × (written hi_sent [] ≡ written [] (map u8 hi ++ []))
send-Paced_example = send-Paced 1 idle hi [] hi_sent [] tt hi-sent

idle-Drains : Drains 1 idle
idle-Drains t = (0, omega arith, refl)

send-returns_example : (t' : Trace) × (send 1 idle hi [] ≡ some t')
send-returns_example = send-returns 1 idle hi [] idle-Drains

-- A board whose registers hold 30, so that each interrupt is the timer's.
abbrev ticking : Board
ticking = record { memory = λ h addr. 0; registers = λ h r. 30 }

interrupts-Steady_example :
    Steady (interrupts 3 ticking (timer_init ticking reset))
    × (length (acked (interrupts 3 ticking (timer_init ticking reset)).history) ≡ 3)
interrupts-Steady_example = interrupts-Steady 3 ticking

-- The first frame belongs to processor 0, and is awake.
abbrev single : Board
single = record { memory = λ h addr. 0; registers = λ h r. 0 }

abbrev history_of : Option (ℕ × History) → History
history_of none = []
history_of (some (base, h)) = h

single-returns : gic_init 1 single [] ≡ some (0x080A0000, history_of (gic_init 1 single []))
unfolding gic_init find_frame wake wait_awake load_word read_register
single-returns = refl

gic_init-Delivers_example : Delivers 0x080A0000 (history_of (gic_init 1 single []))
gic_init-Delivers_example =
    gic_init-Delivers 1 single [] 0x080A0000 (history_of (gic_init 1 single [])) single-returns

abbrev registers : List ℕ
registers = replicate 31 7

registers-small : All (λ x. x < 2 ^ 64) registers
registers-small = ground arith

-- A data abort.
handle_sync_exception-numbers_example :
    numbers (handle_sync_exception 0x96000045 0x40080000 0x10 registers)
    ≡ class_numbers (class_of 0x96000045)
      ++ (0x96000045 ∷ 0x10 ∷ 0x40080000 ∷ (registers ++ (get_or registers 30 0 ∷ [])))
handle_sync_exception-numbers_example =
    handle_sync_exception-numbers 0x96000045 0x40080000 0x10 registers (omega arith) (omega arith)
      (omega arith) refl registers-small

abbrev counted : Stats
counted = record {
  rx_packets = 12;
  tx_packets = 9;
  dropped_packets = 1;
  buffer_usage = 3;
  tcp_active = 2;
  retransmissions = 0;
  checksum_errors = 1;
}

net_get_telemetry_json-read_example :
    (read_values none (net_get_telemetry_json counted) ≡ 12 ∷ 9 ∷ 1 ∷ 3 ∷ 2 ∷ 0 ∷ 1 ∷ [])
    × (length (net_get_telemetry_json counted) ≤ 217)
net_get_telemetry_json-read_example =
    net_get_telemetry_json-read counted (omega arith) (omega arith) (omega arith) (omega arith)
      (omega arith) (omega arith) (omega arith)

abbrev awake : Power
awake = record { commands = []; trace = [] }

abbrev off : Power
off = record {
  commands =
      Command.hvc psci_system_off_id (Access.read 0x14 0 ∷ Access.write 0x14 0 ∷ [])
      ∷ Command.mask_interrupts []
      ∷ [];
  trace = Access.read 0x14 0 ∷ Access.write 0x14 0 ∷ [];
}

goes-off : kernel_shutdown true 1 idle (some 0) awake ≡ some off
unfolding kernel_shutdown psci_system_off psci_call virtio_pci_reset reset_loop
goes-off = refl

kernel_shutdown-Quiesced_example :
    (off.commands ≡ Command.hvc psci_system_off_id off.trace ∷ Command.mask_interrupts [] ∷ [])
    × Quiesced true (some 0) [] off.trace
kernel_shutdown-Quiesced_example = kernel_shutdown-Quiesced true 1 idle (some 0) awake off goes-off
