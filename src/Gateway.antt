-- ===== src/Gateway.antt =====
-- The gateway: src/gateway/ws_session_manager.cpp and src/gateway/ws_session.cpp.
pub mod Sessions
pub mod Session
pub mod Enter
pub mod Answers
pub mod Serve
pub mod Offline
pub mod Deliver
pub mod Flow
pub mod Listed
pub mod Steps
pub mod Scanned
pub mod Ascending
pub mod Settled
pub mod Asks
pub mod Owned
pub mod Entered
pub mod Trusted
mod SessionTests
pub mod Refine
pub mod Gauge
