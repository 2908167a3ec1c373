-- ===== src/Plan/Approval.antt =====
-- The approval of a plan, its withdrawal, and the checks on the phase of a plan: delivery-plan.js,
-- lines 402 to 425 and 586 to 622.
use pane_fleet.Base.{
  ◌+◌, Bool, true, false, not, ◌&&◌, none, [], Text, text_eq, is_empty, Result, ok, ◌>>=◌, ◌>>◌,
  guard, if◌then◌else◌,
}
use pane_fleet.Plan.Types.{
  PlanHost, PlanError, phase_not_ready, approval_not_current, implementation_evidence_required,
  qa_pass_required, release_verification_required, terminal, Phase, Plan, Approval, Gates,
}
use pane_fleet.Plan.Normal.{normalize_delivery_plan, normalized_timestamp}
use pane_fleet.Plan.Shape.{validate_shape}
use pane_fleet.Plan.Ready.{lint_normalized_readiness}
use pane_fleet.Plan.Definition.{delivery_plan_digest}

pub data ApprovalStatus : Type 0 where
  missing current stale : ApprovalStatus

unfoldable pub approval_status_unchecked : PlanHost → Plan → Result PlanError ApprovalStatus
approval_status_unchecked host plan =
    if is_empty plan.approval.digest
    then ok missing
    else delivery_plan_digest host plan >>= λ digest.
        ok (if text_eq plan.approval.digest digest then current else stale)

unfoldable pub delivery_plan_approval_status : PlanHost → Plan → Result PlanError ApprovalStatus
delivery_plan_approval_status host value = do
  plan ← validate_shape host (normalize_delivery_plan host value host.now)
  approval_status_unchecked host plan

abbrev pub is_current : ApprovalStatus → Bool
is_current current = true
is_current _ = false

-- APPROVAL_PHASES
abbrev pub is_approval_phase : Phase → Bool
is_approval_phase Phase.approved = true
is_approval_phase Phase.executing = true
is_approval_phase Phase.verifying = true
is_approval_phase Phase.ready_to_release = true
is_approval_phase Phase.done = true
is_approval_phase _ = false

-- ['ready_for_approval', ...APPROVAL_PHASES]
abbrev pub needs_readiness : Phase → Bool
needs_readiness Phase.ready_for_approval = true
needs_readiness phase = is_approval_phase phase

-- ['verifying', 'ready_to_release', 'done']
abbrev pub needs_implementation : Phase → Bool
needs_implementation Phase.verifying = true
needs_implementation Phase.ready_to_release = true
needs_implementation Phase.done = true
needs_implementation _ = false

abbrev pub needs_qa : Phase → Bool
needs_qa Phase.ready_to_release = true
needs_qa Phase.done = true
needs_qa _ = false

abbrev pub is_done : Phase → Bool
is_done Phase.done = true
is_done _ = false

-- TERMINAL_PHASES
abbrev pub is_terminal : Phase → Bool
is_terminal Phase.done = true
is_terminal Phase.canceled = true
is_terminal _ = false

-- A test that calls the digest only when it is needed.
unfoldable pub require_current : PlanHost → Plan → Result PlanError (Unit {0})
require_current host plan =
    approval_status_unchecked host plan >>= λ status. guard (is_current status) approval_not_current

-- Lines 402 to 419.
unfoldable pub validate_phase : PlanHost → Plan → Result PlanError (Unit {0})
validate_phase host plan = do
  guard (not (needs_readiness plan.phase && not (lint_normalized_readiness host plan).ready))
      phase_not_ready
  if is_approval_phase plan.phase then require_current host plan else ok tt
  guard (not (needs_implementation plan.phase && not plan.gates.implementation_captured))
      implementation_evidence_required
  guard (not (needs_qa plan.phase && not plan.gates.qa_passed)) qa_pass_required
  guard
      (not
        (is_done plan.phase && plan.roles.qa.release_required && not plan.gates.release_verified))
      release_verification_required

unfoldable pub validate_delivery_plan : PlanHost → Plan → Result PlanError Plan
validate_delivery_plan host value = do
  plan ← validate_shape host (normalize_delivery_plan host value host.now)
  validate_phase host plan
  ok plan

abbrev pub empty_approval : Approval
empty_approval = record { digest = []; approved_at = none; plan_revision = none }

abbrev pub empty_gates : Gates
empty_gates = record {
  implementation_captured = false;
  qa_passed = false;
  release_verified = false;
}

unfoldable pub readiness_phase : PlanHost → Plan → Phase
readiness_phase host plan =
    if (lint_normalized_readiness host plan).ready then Phase.ready_for_approval else Phase.planning

unfoldable pub invalidated : PlanHost → Plan → Text → Plan
invalidated host plan at = record plan {
  revision = plan.revision + 1;
  phase = readiness_phase host plan;
  approval = empty_approval;
  gates = empty_gates;
  blocker = [];
  updated_at = normalized_timestamp host at [];
}

unfoldable pub invalidate_delivery_plan_approval : PlanHost → Plan → Text → Result PlanError Plan
invalidate_delivery_plan_approval host value at = do
  plan ← validate_shape host (normalize_delivery_plan host value host.now)
  guard (not (is_terminal plan.phase)) terminal
  if is_empty plan.approval.digest && not (needs_readiness plan.phase)
      then ok plan
      else validate_delivery_plan host (invalidated host plan at)
