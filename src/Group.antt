-- ===== src/Group.antt =====
-- Group chats: `namespace group_storage` of src/storage/mysqlhandler.cpp.
pub mod Data
pub mod Store
pub mod Manage
pub mod Talk
pub mod Perform
pub mod Execute
pub mod Sound
pub mod Delivery
mod Invariant
mod Frame
mod Answered
mod Retry
mod Reach
mod Access
mod Send
mod Window
mod Delivered
mod Numbers
mod Pending
mod DeliveryTests
mod Tests
