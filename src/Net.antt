-- ===== src/Net.antt =====
-- The network stack: AetherWebOS/src/drivers/virtio and AetherWebOS/src/drivers/ethernet.
pub mod Checksum
pub mod Virtqueue
pub mod Stack
pub mod Tcp
pub mod Arp
pub mod Ipv4
pub mod Receive
pub mod Telemetry
pub mod Setup
