-- ===== src/Queue.antt =====
-- The consumer of src/messagequeue: its lanes, and the proofs on order and on the queues' size.
pub mod Consumer
pub mod Ordered
pub mod Reach
pub mod Bounded
mod Tests
