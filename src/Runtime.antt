-- ===== src/Runtime.antt =====
-- The small modules of the server's runtime: snapshot-events.js and runtime-retention.js.
pub mod Snapshot
pub mod Patch
pub mod Retention
pub mod Active
pub mod Stream
