-- ===== src/Push.antt =====
-- The push service of src/services/push_service: a message that the queue hands over is checked
-- again and sent to the gateway of its receiver.
pub mod Visible
pub mod Service
pub mod Agree
pub mod Deliver
pub mod Handled
pub mod Acknowledged
mod Tests
