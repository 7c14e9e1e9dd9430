-- ===== src/Utils.antt =====
-- AetherWebOS/src/common/utils.c: byte order, C strings, decimal numbers, formatted output.
pub mod ByteOrder
pub mod Text
pub mod Decimal
pub mod Format
