-- ===== src/Outbox.antt =====
-- The outbox of src/storage/mysqlhandler.cpp: the tasks that carry a single-chat message, its
-- acknowledgement and the removal of a chat through the other stores, under a lease.
pub mod Data
pub mod Queue
pub mod Lease
pub mod Process
mod Exclusive
mod Cancel
mod Dedupe
mod Backoff
pub mod Worker
mod Released
mod Phases
mod Turns
mod Tests
