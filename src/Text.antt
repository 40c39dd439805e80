-- ===== src/Text.antt =====
-- The text formats that the program prints and parses itself.
pub mod Decimal
pub mod Hex
pub mod Number
