-- ===== src/Console.antt =====
-- What the program writes to its console: AetherWebOS/src/drivers/uart.c, the printer of
-- AetherWebOS/src/drivers/ethernet/ipv6.c, and AetherWebOS/src/kernel/portal.c. The output is the list of
-- the bytes sent, in order.
pub mod Uart
pub mod Pl011
pub mod Panic
pub mod Ipv6
pub mod Portal
