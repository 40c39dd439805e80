-- ===== src/Register.antt =====
-- Registration of src/storage/mysqlhandler.cpp, `namespace mysql_registration`: a request takes an
-- account out of a pool, which is refilled.
pub mod Data
pub mod Once
pub mod Refill
mod Claims
pub mod Keeps
mod Extends
pub mod Reach
pub mod Answers
pub mod Joined
pub mod Given
mod Again
mod Tests
