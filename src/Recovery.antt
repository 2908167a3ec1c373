-- ===== src/Recovery.antt =====
-- agent-recovery.js: the store of recovery slots and the choice of sessions to recover.
pub mod Slots
pub mod Store
pub mod Candidates
pub mod Kept
