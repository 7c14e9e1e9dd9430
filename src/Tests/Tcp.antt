-- ===== src/Tests/Tcp.antt =====
-- AetherWebOS/src/drivers/ethernet/tcp on concrete inputs.
use aether_webos.Prelude.{ℕ, ◌≡◌, ◌≢◌, refl, arith, ap, List, [], ◌∷◌, some, true, false, inl}
use aether_webos.Memory.Heap.{Heap, initial, align8, reuse, bump, kmalloc}
use aether_webos.Memory.Heap.Invariant.{IsValid, initial-IsValid, kmalloc-IsValid}
use aether_webos.Memory.Heap.Live.{live}
use aether_webos.Memory.Heap.Release.{Held}
use aether_webos.Net.Checksum.{tcp_validate_checksum}
use aether_webos.Net.Stack.{TcpState, Tcb, Net}
use aether_webos.Net.Tcp.{header_start, segment_bytes, new_tcb, tcb_at, tcp_find_tcb, matches}
use aether_webos.Net.Tcp.Keys.{Key}
use aether_webos.Net.Tcp.Sent.{tcp_validate-segment}
use aether_webos.Utils.ByteOrder.{htons, htonl}
use aether_webos.Net.Tcp.Input.{parse, data_offset, dropped, tcp_input_process}
use aether_webos.Net.Tcp.Input.Unique.{Unique, tcp_input_process-Unique}
use aether_webos.Net.Tcp.Input.Machine.{Step, talk, offer}
use aether_webos.Net.Tcp.Input.Steps.{tcp_input_process-Step}
use aether_webos.Net.Tcp.Input.Isolation.{tcp_input_process-Same}
use aether_webos.Tests.Net.{our_ip, gateway_ip, quiet}

-- A SYN to port 80
abbrev syn : List ℕ
syn = segment_bytes gateway_ip our_ip (header_start 5000 80 7 0 2 1000) []

tcp_input_process-Unique_example : Unique (tcp_input_process syn gateway_ip our_ip quiet)
tcp_input_process-Unique_example = tcp_input_process-Unique syn gateway_ip our_ip quiet tt

tcp_validate-segment_example : tcp_validate_checksum gateway_ip our_ip syn ≡ true
tcp_validate-segment_example =
    tcp_validate-segment gateway_ip our_ip 5000 80 7 0 2 1000 [] (omega arith) (omega arith)
      (omega arith) (omega arith) tt

-- A heap with one connection in use, and the stack with it.
abbrev one_block : Heap
one_block = (kmalloc 40 initial).0

abbrev other_tcb : Tcb
other_tcb = record (new_tcb 0x41000018 our_ip) {
  remote_ip = 0x0A000203;
  remote_port = 6000;
  state = TcpState.established;
}

abbrev connected : Net
connected = record quiet { heap = one_block; tcp_tcb_list = other_tcb ∷ [] }

one_block-Held : Held (0x41000018, 40) (live one_block.blocks)
unfolding kmalloc reuse bump align8 initial
one_block-Held = inl refl

one_block-IsValid : IsValid one_block
one_block-IsValid = kmalloc-IsValid 40 initial initial-IsValid (omega arith)

not_this :
    (t : Tcb)
    → tcp_find_tcb
        (parse syn gateway_ip our_ip).src_ip
        (parse syn gateway_ip our_ip).src_port
        (parse syn gateway_ip our_ip).dst_ip
        (parse syn gateway_ip our_ip).dst_port
        connected.tcp_tcb_list
      ≡ some t
    → t.at ≢ 0x41000018
unfolding tcp_find_tcb matches parse
not_this t found = absurd (ground arith)

tcp_input_process-Same_example :
    tcb_at 0x41000018 (tcp_input_process syn gateway_ip our_ip connected).tcp_tcb_list
    ≡ tcb_at 0x41000018 connected.tcp_tcb_list
tcp_input_process-Same_example =
    tcp_input_process-Same syn gateway_ip our_ip 0x41000018 40 connected one_block-IsValid
      (omega arith) one_block-Held not_this

-- A connection that waits for byte 7 of its peer, and the segment with that byte.
abbrev peer_tcb : Tcb
peer_tcb = record (new_tcb 0x41000018 our_ip) {
  remote_ip = gateway_ip;
  remote_port = 5000;
  local_port = 80;
  rcv_nxt = 7;
  state = TcpState.established;
}

abbrev talking : Net
talking = record quiet { heap = one_block; tcp_tcb_list = peer_tcb ∷ other_tcb ∷ [] }

abbrev request : List ℕ
request = segment_bytes gateway_ip our_ip (header_start 5000 80 7 1001 24 1000) (71 ∷ [])

request-kept : dropped request gateway_ip our_ip ≡ false
unfolding dropped data_offset segment_bytes header_start htons htonl
request-kept =
    rw
      (tcp_validate-segment gateway_ip our_ip 5000 80 7 1001 24 1000 (71 ∷ []) (omega arith)
        (omega arith) (omega arith) (omega arith) (omega arith, tt))
      refl

talking-Unique : Unique talking
talking-Unique =
    (((λ same. absurd (ground (arith, ap (λ (k : Key). k.remote_port) same))), tt), (tt, tt))

talking-first :
    (t : Tcb)
    → tcp_find_tcb
        (parse request gateway_ip our_ip).src_ip
        (parse request gateway_ip our_ip).src_port
        (parse request gateway_ip our_ip).dst_ip
        (parse request gateway_ip our_ip).dst_port
        talking.tcp_tcb_list
      ≡ some t
    → tcb_at t.at talking.tcp_tcb_list ≡ some t
unfolding tcp_find_tcb matches parse segment_bytes header_start htons htonl tcb_at
talking-first t found = let is_peer : t ≡ peer_tcb = ground (arith, found) in rw (is_peer) refl

tcp_input_process-Step_example :
    Step
      (parse request gateway_ip our_ip)
      (offer talking)
      (talk (parse request gateway_ip our_ip) talking)
      (talk (parse request gateway_ip our_ip) (tcp_input_process request gateway_ip our_ip talking))
tcp_input_process-Step_example =
    tcp_input_process-Step request gateway_ip our_ip talking request-kept (tt, (tt, tt))
      talking-Unique talking-first
