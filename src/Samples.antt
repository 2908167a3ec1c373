-- ===== src/Samples.antt =====
-- Concrete inputs, and the theorems applied to them.
pub mod Runs
pub mod Witnesses
pub mod Others
pub mod Styles
pub mod Schedules
pub mod Plans
pub mod PlanWitnesses
pub mod Board
pub mod BoardWitnesses
