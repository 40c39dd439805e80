-- ===== src/Group/Invariant.antt =====
-- Every operation keeps what Sound.antt states.
pub mod Groups
mod Members
mod Messages
pub mod Opened
mod Create
mod Perform
pub mod Execute
