-- ===== src/Delivery.antt =====
-- delivery-run.js: the delivery run, its validation and the operations on it.
pub mod Types
pub mod Fields
pub mod Evidence
pub mod Validate
pub mod Run
pub mod Create
pub mod Mission
pub mod Verify
pub mod Close
pub mod Steps
pub mod Lifecycle
