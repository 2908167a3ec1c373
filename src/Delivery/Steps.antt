-- ===== src/Delivery/Steps.antt =====
-- What a successful operation on a run has done: one record for each operation, and the lemma that
-- takes the call apart.
pub mod Parts
pub mod Missions
pub mod Capture
pub mod Checked
pub mod Aborts
pub mod Verification
pub mod Closing
