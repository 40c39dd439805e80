-- ===== src/Util.antt =====
-- The identifiers of src/util/snowflake.cpp, and the proofs on them.
mod Bits
pub mod Snowflake
mod Readings
pub mod Increasing
pub mod Issued
mod Tests
