-- ===== src/Plan.antt =====
-- delivery-plan.js: delivery plans, their approval and their phases.
pub mod Types
pub mod Canonical
pub mod Normal
pub mod Checks
pub mod Shape
pub mod Discovery
pub mod Ready
pub mod Definition
pub mod Approval
pub mod Update
pub mod Legal
pub mod Transition
pub mod Envelope
pub mod Phases
pub mod Valid
pub mod Stages
pub mod History
pub mod Errors
pub mod Outcomes
pub mod Effects
