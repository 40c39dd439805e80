-- ===== src/Conversation.antt =====
-- The single-chat conversations of src/storage/mysqlhandler.cpp: one row for each participant, and
-- the numbers of the messages that its owner has not read.
pub mod Data
pub mod Record
pub mod Owner
pub mod Query
mod Sound
mod Keeps
mod Changes
mod Reach
mod Redelivery
mod Lasting
mod Repeated
mod Totals
mod Tests
