-- ===== src/Commons.antt =====
-- agent-commons.js: the message board of the agents.
pub mod Types
pub mod Fields
pub mod Lifecycle
pub mod Validate
pub mod Consistent
pub mod Changes
pub mod Repository
pub mod Inbox
pub mod Help
