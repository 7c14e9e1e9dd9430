-- ===== src/Lib.antt =====
-- Aether WebOS: a bare-metal AArch64 kernel with a heap, paging, VirtIO networking and a TCP stack that
-- serves one page.
--
-- The parts, and where they are:
-- - Utils: AetherWebOS/src/common/utils.c. Utils/Text has the strings (`str_len`, `str_append`,
--   `str_contains`), Utils/Decimal the conversions (`utoa_dec`, `ltoa`, and `uart_put_int` of
--   AetherWebOS/src/drivers/uart.c), Utils/Format `ksnprintf`, Utils/ByteOrder `htons` and its kin. A
--   string is the list of its bytes with the NUL; a read past the end is `none`.
-- - Memory: Memory/Heap has `kmalloc` and `kfree` of AetherWebOS/src/kernel/memory.c, with the blocks
--   newest first as they stand on `free_list` and the stores of `kfree` that meet no block, and Memory/Heap/Calls any sequence of calls;
--   Memory/Paging has `vmalloc`, `ioremap` and
--   `mmu_map_region` of AetherWebOS/arch/aarch64/mmu.c, Memory/Paging/Tables `mmu_init` with the
--   processor's walk through its tables, and Memory/Paging/Cache `clean_cache_range`.
-- - Net: Net/Checksum has the checksums of tcp_checksum.c and ipv4.c in AetherWebOS/src/drivers/ethernet,
--   Net/Virtqueue AetherWebOS/src/drivers/virtio/virtio_ring.c, Net/Setup the receive queue's set-up,
--   Net/Stack the state of the stack and
--   the way out (`ethernet_send`, `ipv4_send`), Net/Tcp the connections and socket.c, Net/Tcp/Input
--   tcp_input.c, with the state machine of one connection in Net/Tcp/Input/Machine, Net/Arp arp.c, Net/Ipv4 `ipv4_handle`, and Net/Receive the way in
--   (`virtio_net_poll`, `ethernet_handle_packet`), `net_tx_reaper`, health.c (its text is in
--   Net/Telemetry) and the network part of
--   the kernel's loop.
-- - Net/Virtqueue/Traffic puts a device at the other end of a queue: a step of the system is a step of the
--   driver's functions or of the device, in any order, and the queue's memory represents a pipe of
--   descriptors (Traffic/Pipe). The driver posts there only while a descriptor is free.
-- - Bus: devices behind addresses. Bus/Pcie is AetherWebOS/src/drivers/pcie.c, Bus/VirtioPci and
--   Bus/VirtioStart are AetherWebOS/src/drivers/virtio/virtio_pci.c, Bus/VirtioNet the initialisation in
--   virtio_net.c, with the rules of the specification that its handshake is held against in
--   Bus/VirtioNet/Protocol, and Bus/Xhci AetherWebOS/src/drivers/usb/xhci.c. The search of pcie.c is over any drivers, and Bus/Drivers puts
--   those of its registry in.
-- - Interrupts: Interrupts/Timer is AetherWebOS/src/drivers/timer.c with `handle_irq_exception` of
--   AetherWebOS/src/kernel/exception.c, Interrupts/Gic AetherWebOS/src/kernel/gic.c.
-- - Console: what is sent to the UART: Console/Uart has the output functions of
--   AetherWebOS/src/drivers/uart.c, Console/Pl011 its registers, Console/Panic the screen of
--   AetherWebOS/src/kernel/exception.c, Console/Ipv6 the
--   printer of AetherWebOS/src/drivers/ethernet/ipv6.c, and Console/Portal
--   AetherWebOS/src/kernel/portal.c, with the screen's part of the loop in kernel.c.
-- - Earlier: the earlier TCP stack under AetherWebOS/backups, which the build leaves out: Earlier/Table is
--   src/tcp_state.c, Earlier/Checksum src/tcp_chk.c, and Earlier/Tcp src/tcp.c and src/socket.c, with the
--   record `Stack` as their state.
-- - Kernel: Kernel/Keys has the input handling of AetherWebOS/src/kernel/kernel.c, Kernel/Power
--   `kernel_shutdown` and AetherWebOS/src/drivers/psci.c.
-- - Tests: the theorems at concrete inputs.
--
-- State is passed explicitly: the record `Net` holds the heap, the queues, the ARP cache, the list of
-- connections and the counters, and each function takes it last and returns it. A pointer to a
-- connection is its address; a NULL is `none`. Words of 16, 32 and 64 bits are natural numbers with
-- their wrap-around written out. An array that the device shares is a function from the index.
-- A device behind registers, and a board with its memory and its system registers, is a function from
-- the accesses so far to what a read gives; the accesses are recorded, so that a theorem can speak of all
-- that a function wrote, whatever the device answers.
--
-- Bounds: a fold of a 32-bit sum ends within 3 rounds, 20 decimal digits hold 64 bits, the loop of
-- `mmu_map_region` makes one round for each page, and `net_tx_reaper` makes one round for each used
-- entry, of which there are fewer than 2^16, after the rounds in which the device still writes entries.
-- The walk over a capability list, the search for a redistributor, and the waits for a device are on
-- fuel, since a device can keep them going for ever; the theorems say when they end, or what holds when
-- they do. The timeouts of xhci.c are its own. The theorems on these functions rest on these bounds
-- being enough.
--
-- The set-up of the queues acts on a record of the device's queue registers and is not among the
-- recorded accesses; what it overwrites for a queue larger than its memory is not described.
--
-- Not modelled: UART output where a function also changes state, barriers and the invalidation of the
-- TLB, the start-up in assembly and the sequence of calls that begins `kernel_main`, and the branches for
-- BOARD_RPI4.
-- `tcp_global_isn`, which the tree declares without a definition, is a field of the state.
pub mod Prelude
pub mod Utils
pub mod Bus
pub mod Console
pub mod Earlier
pub mod Interrupts
pub mod Memory
pub mod Net
pub mod Kernel
pub mod Tests
