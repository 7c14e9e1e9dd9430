-- ===== src/Earlier.antt =====
-- The earlier TCP stack under AetherWebOS/backups/src, with a table of connections in place of a list.
pub mod Table
pub mod Checksum
pub mod Tcp
