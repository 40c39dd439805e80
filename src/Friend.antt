-- ===== src/Friend.antt =====
-- Friends: `mutate` of src/storage/mysqlhandler.cpp, which applies for, accepts and ends friendships.
pub mod Data
pub mod Mutate
mod Symmetric
mod Tests
