-- ===== src/Console/Portal.antt =====
-- AetherWebOS/src/kernel/portal.c: the three screens, and the part of the loop in
-- AetherWebOS/src/kernel/kernel.c that draws them.
pub mod Texts
pub mod Connections
pub mod Refresh
use aether_webos.Prelude.{
  ℕ, ◌+◌, ◌-◌, ◌*◌, ◌/◌, ◌^◌, List, [], ◌∷◌, ◌++◌, Option, none, some, Bool, true, false, ◌==◌, ltb,
  if◌then◌else◌, get_or, take, u32, u64,
}
use aether_webos.Utils.Decimal.{uart_put_int}
use aether_webos.Net.Virtqueue.{Stats}
use aether_webos.Net.Stack.{TcpState, Tcb}
use aether_webos.Net.Tcp.{is_established}
use aether_webos.Kernel.Keys.{KernelMode}
use aether_webos.Console.Uart.{uart_puts, uart_put_hex_byte, uart_print_ip}
use aether_webos.Console.Ipv6.{print_ipv6}
use aether_webos.Console.Portal.Texts.{
  clear_text, home_text, frame_text, title_text, frame_end_text, link_text, interface_text,
  status_text, up_text, down_text, mac_label, network_text, ipv4_label, ipv6_label, traffic_text,
  rx_label, tx_label, drop_label, buffer_label, transport_text, listener_text, debug_text,
  active_label, rule_text, keys_text, double_text, portal_text, online_text, memory_label, kb_text,
  link_label, dashes_text, ready_text, hash_text, confirm_text, choice_text,
}

-- `current_state`, without the fields that nothing writes.
pub record PortalState : Type 0 where
  pub uptime_ms : ℕ
  pub heap_usage_kb : ℕ
  pub device_count : ℕ
  pub packets_rx : ℕ
  pub packets_tx : ℕ
  pub link_status : Bool
  pub mac : List ℕ

-- What the functions that the refresh calls answer: the clock, the heap's use, the number of
-- devices; and the bytes of the device's area, if there is a device with one.
unfoldable pub portal_refresh_state :
    ℕ → ℕ → ℕ → Option (List ℕ) → Stats → PortalState → PortalState
portal_refresh_state uptime heap_usage devices vnet_mac stats s =
    let base = record s {
      uptime_ms = uptime;
      heap_usage_kb = u32 (heap_usage / 1024);
      device_count = devices;
      packets_rx = u32 stats.rx_packets;
      packets_tx = u32 stats.tx_packets;
    } in
    elim vnet_mac [
      | some bytes ↦ record base { link_status = true; mac = take 6 bytes }
      | none ↦ record base { link_status = false }
    ]

-- Whether the portal is active, and the bytes sent.
unfoldable pub portal_start : Bool × List ℕ
portal_start = (true, uart_puts clear_text)

-- The bytes of the address with colons between.
unfoldable pub mac_text : List ℕ → List ℕ
mac_text [] = []
mac_text (b ∷ []) = uart_put_hex_byte b
mac_text (b ∷ c ∷ bs) = uart_put_hex_byte b ++ (b':' ∷ mac_text (c ∷ bs))

unfoldable pub up_down : Bool → List ℕ
up_down link_status = uart_puts (if link_status then up_text else down_text)

-- A counter of 64 bits is passed as one of 32.
unfoldable pub counter_line : List ℕ → ℕ → List ℕ
counter_line label n = uart_puts label ++ (uart_put_int (u32 n) ++ uart_puts (b'\n' ∷ []))

-- `tcp_state_t` as a number.
unfoldable pub state_number : TcpState → ℕ
state_number TcpState.closed = 0
state_number TcpState.listen = 1
state_number TcpState.syn_received = 2
state_number TcpState.established = 3
state_number TcpState.close_wait = 4
state_number TcpState.last_ack = 5
state_number TcpState.time_wait = 6

-- `cur->state` after `cur = cur->next`: behind the last connection the pointer is null, and
-- `null_state` is what memory holds there.
unfoldable pub state_at : ℕ → List Tcb → ℕ
state_at null_state [] = null_state
state_at null_state (t ∷ ts) = state_number t.state

-- `while (cur)`: the bytes sent, and the number of connections in ESTABLISHED.
unfoldable pub connection_loop : ℕ → List Tcb → ℕ → List ℕ × ℕ
connection_loop null_state [] active = ([], active)
connection_loop null_state (t ∷ ts) active =
    let counted = if is_established t.state then u32 (active + 1) else active in
    let (text, total) = connection_loop null_state ts counted in
    (counter_line debug_text (state_at null_state ts) ++ text, total)

unfoldable pub link_section : PortalState → List ℕ
link_section s =
    uart_puts link_text
    ++ (uart_puts interface_text
        ++ (uart_puts status_text
            ++ (up_down s.link_status
                ++ (uart_puts mac_label ++ (mac_text s.mac ++ uart_puts (b'\n' ∷ b'\n' ∷ []))))))

unfoldable pub network_section : ℕ → List ℕ → List ℕ
network_section aether_ip local_ipv6 =
    uart_puts network_text
    ++ (uart_puts ipv4_label
        ++ (uart_print_ip aether_ip
            ++ (uart_puts (b'\n' ∷ [])
                ++ (uart_puts ipv6_label
                    ++ (print_ipv6 local_ipv6 ++ uart_puts (b'\n' ∷ b'\n' ∷ []))))))

unfoldable pub traffic_section : Stats → List ℕ
traffic_section stats =
    uart_puts traffic_text
    ++ (counter_line rx_label stats.rx_packets
        ++ (counter_line tx_label stats.tx_packets
            ++ (counter_line drop_label stats.dropped_packets
                ++ (uart_puts buffer_label
                    ++ (uart_put_int (u32 stats.buffer_usage) ++ uart_puts (b'\n' ∷ b'\n' ∷ []))))))

unfoldable pub transport_section : ℕ → List Tcb → List ℕ
transport_section null_state tcbs =
    let (text, active) = connection_loop null_state tcbs 0 in
    uart_puts transport_text
    ++ (uart_puts listener_text
        ++ (text
            ++ (counter_line active_label active ++ (uart_puts rule_text ++ uart_puts keys_text))))

unfoldable pub portal_render_net_dashboard :
    Bool → PortalState → ℕ → List ℕ → Stats → ℕ → List Tcb → List ℕ
portal_render_net_dashboard portal_active s aether_ip local_ipv6 stats null_state tcbs =
    if portal_active
    then (uart_puts home_text
        ++ (uart_puts frame_text
            ++ (uart_puts title_text
                ++ (uart_puts frame_end_text
                    ++ (link_section s
                        ++ (network_section aether_ip local_ipv6
                            ++ (traffic_section stats ++ transport_section null_state tcbs)))))))
    else []

unfoldable pub portal_render_terminal : Bool → PortalState → List ℕ
portal_render_terminal portal_active s =
    if portal_active
    then (uart_puts clear_text
        ++ (uart_puts double_text
            ++ (uart_puts portal_text
                ++ (uart_puts double_text
                    ++ (uart_puts online_text
                        ++ (uart_puts memory_label
                            ++ (uart_put_int s.heap_usage_kb
                                ++ (uart_puts kb_text
                                    ++ (uart_puts link_label
                                        ++ (up_down s.link_status
                                            ++ (uart_puts dashes_text
                                                ++ uart_puts ready_text)))))))))))
    else []

unfoldable pub portal_render_confirm_prompt : List ℕ
portal_render_confirm_prompt =
    uart_puts clear_text
    ++ (uart_puts hash_text
        ++ (uart_puts confirm_text ++ (uart_puts choice_text ++ uart_puts hash_text)))

-- `last_refresh`, `last_mode`, which is `none` for -1, and `current_state`.
pub record Screen : Type 0 where
  pub last_refresh : ℕ
  pub last_mode : Option KernelMode
  pub current_state : PortalState

-- What is drawn.
pub data Draw : Type 0 where
  confirm_prompt : Draw
  net_dashboard : Draw
  debug_banner : Draw
  terminal : Draw
  unchanged : Draw

-- The switch after a change of the mode.
unfoldable pub draw_new : KernelMode → Draw
draw_new KernelMode.mode_confirm_shutdown = Draw.confirm_prompt
draw_new KernelMode.mode_net_stats = Draw.net_dashboard
draw_new KernelMode.mode_debug = Draw.debug_banner
draw_new KernelMode.mode_portal = Draw.terminal

-- The switch while the mode stays.
unfoldable pub draw_again : KernelMode → Draw
draw_again KernelMode.mode_net_stats = Draw.net_dashboard
draw_again _ = Draw.unchanged

unfoldable pub same_mode : KernelMode → Option KernelMode → Bool
same_mode KernelMode.mode_portal (some KernelMode.mode_portal) = true
same_mode KernelMode.mode_confirm_shutdown (some KernelMode.mode_confirm_shutdown) = true
same_mode KernelMode.mode_net_stats (some KernelMode.mode_net_stats) = true
same_mode KernelMode.mode_debug (some KernelMode.mode_debug) = true
same_mode _ _ = false

-- The part of a round under "UI REFRESH"; `refreshed` is the state that `portal_refresh_state`
-- leaves. The result is the screen and, if a refresh is due, whether the display is cleared and what
-- is drawn.
unfoldable pub ui_refresh : ℕ → KernelMode → PortalState → Screen → Screen × Option (Bool × Draw)
ui_refresh current_time current_mode refreshed s =
    let after : Screen = record {
      last_refresh = current_time;
      last_mode = some current_mode;
      current_state = refreshed;
    } in
    if ltb (u64 (current_time + (2 ^ 64 - s.last_refresh))) 100 then (s, none) else (
      after,
      some (
          if same_mode current_mode s.last_mode
          then (false, draw_again current_mode)
          else (true, draw_new current_mode)),
    )
