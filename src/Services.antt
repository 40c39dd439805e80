-- ===== src/Services.antt =====
-- The services of src/services.
pub mod Redis
pub mod Timed
pub mod Backbon
pub mod Auth
