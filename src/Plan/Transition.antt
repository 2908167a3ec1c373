-- ===== src/Plan/Transition.antt =====
-- transitionDeliveryPlan of delivery-plan.js, lines 670 to 746.
use pane_fleet.Base.{
  ℕ, ◌+◌, ◌==◌, Bool, true, false, not, ◌||◌, Option, none, some, [], Text, codes, text_eq,
  is_empty, Result, ok, ◌>>=◌, ◌>>◌, guard, or_throw, if◌then◌else◌,
}
use pane_fleet.Delivery.Fields.{text}
use pane_fleet.Plan.Types.{
  PlanHost, PlanError, execution_locked, transition_invalid, revision_conflict,
  cancellation_confirmation_required, blocker_required, not_ready, approval_confirmation_required,
  replan_confirmation_required, workspace_write_not_approved, baseline_changed, workspace_locked,
  task_graph_required, execution_confirmation_required, remediation_confirmation_required,
  remediation_approval_required, implementation_evidence_required, qa_pass_required,
  completion_confirmation_required, release_verification_required, Phase, Plan, Approval, Gates,
}
use pane_fleet.Plan.Normal.{normalized_lower, normalized_timestamp}
use pane_fleet.Plan.Ready.{lint_normalized_readiness}
use pane_fleet.Plan.Definition.{delivery_plan_digest}
use pane_fleet.Plan.Approval.{validate_delivery_plan, require_current, empty_approval, empty_gates}
use pane_fleet.Plan.Legal.{is_execution_locked, is_legal, needs_replan, phase_of}

pub record Conditions : Type 0 where
  pub expected_revision : Option ℕ
  pub confirmation : Text
  pub reason : Text
  pub delivery_run_aborted : Bool
  pub baseline_current : Bool
  pub workspace_available : Bool
  pub task_graph_ready : Bool
  pub remediation_approved : Bool
  pub implementation_result_captured : Bool
  pub qa_passed : Bool
  pub release_verified : Bool

unfoldable pub is_expected : Option ℕ → ℕ → Bool
is_expected none revision = true
is_expected (some expected) revision = expected == revision

-- Lines 711 to 715.
unfoldable pub require_start : Phase → Conditions → Result PlanError (Unit {0})
require_start Phase.approved conditions =
    guard (text_eq conditions.confirmation (codes "start-execution"))
      execution_confirmation_required
require_start Phase.verifying conditions =
    guard (text_eq conditions.confirmation (codes "resume-execution"))
      remediation_confirmation_required
    >> guard conditions.remediation_approved remediation_approval_required
require_start _ conditions = ok tt

-- Lines 702 to 716.
unfoldable pub require_execution : PlanHost → Plan → Conditions → Result PlanError (Unit {0})
require_execution host plan conditions = do
  require_current host plan
  guard plan.authority.workspace_write workspace_write_not_approved
  guard conditions.baseline_current baseline_changed
  guard conditions.workspace_available workspace_locked
  guard conditions.task_graph_ready task_graph_required
  require_start plan.phase conditions

unfoldable pub require_completion : Plan → Conditions → Result PlanError (Unit {0})
require_completion plan conditions = do
  guard (text_eq conditions.confirmation (codes "complete-plan")) completion_confirmation_required
  guard plan.gates.qa_passed qa_pass_required
  guard (not plan.roles.qa.release_required || conditions.release_verified)
      release_verification_required

-- What the target asks for: lines 690 to 723, of which one target meets one part.
unfoldable pub require_target : PlanHost → Plan → Phase → Conditions → Result PlanError (Unit {0})
require_target host plan Phase.canceled conditions =
    guard (text_eq conditions.confirmation (codes "cancel-plan")) cancellation_confirmation_required
require_target host plan Phase.needs_decision conditions =
    guard (not (is_empty (text conditions.reason))) blocker_required
require_target host plan Phase.blocked conditions =
    guard (not (is_empty (text conditions.reason))) blocker_required
require_target host plan Phase.ready_for_approval conditions =
    guard (lint_normalized_readiness host plan).ready not_ready
require_target host plan Phase.approved conditions =
    guard (text_eq conditions.confirmation (codes "approve-plan")) approval_confirmation_required
    >> guard (lint_normalized_readiness host plan).ready not_ready
require_target host plan Phase.planning conditions =
    guard (not (needs_replan plan.phase) || text_eq conditions.confirmation (codes "replan"))
      replan_confirmation_required
require_target host plan Phase.executing conditions = require_execution host plan conditions
require_target host plan Phase.verifying conditions =
    guard conditions.implementation_result_captured implementation_evidence_required
require_target host plan Phase.ready_to_release conditions =
    guard conditions.qa_passed qa_pass_required
require_target host plan Phase.done conditions = require_completion plan conditions
require_target host plan Phase.draft conditions = ok tt

unfoldable pub next_blocker : Phase → Text → Text
next_blocker Phase.needs_decision reason = text reason
next_blocker Phase.blocked reason = text reason
next_blocker _ reason = []

abbrev pub reset_gates : Gates → Gates
reset_gates gates = record gates {
  implementation_captured = false;
  qa_passed = false;
  release_verified = false;
}

unfoldable pub replanned_gates : Plan → Gates
replanned_gates plan = if is_empty plan.approval.digest then plan.gates else empty_gates

-- Lines 735 to 744: the gates that the target sets.
unfoldable pub next_gates : Plan → Phase → Gates
next_gates plan Phase.planning = replanned_gates plan
next_gates plan Phase.executing = elim plan.phase [
  | Phase.verifying ↦ reset_gates plan.gates
  | _ ↦ plan.gates
]
next_gates plan Phase.verifying = record plan.gates {
  implementation_captured = true;
  qa_passed = false;
  release_verified = false;
}
next_gates plan Phase.ready_to_release = record plan.gates {
  qa_passed = true;
  release_verified = false;
}
next_gates plan Phase.done =
    if plan.roles.qa.release_required
    then record plan.gates { release_verified = true }
    else plan.gates
next_gates plan _ = plan.gates

unfoldable pub new_approval : PlanHost → Plan → Text → Result PlanError Approval
new_approval host plan updated_at = do
  digest ← delivery_plan_digest host plan
  ok (record {
    digest = digest;
    approved_at = some updated_at;
    plan_revision = some (plan.revision + 1);
  })

-- Lines 732 to 738: the approval that the target sets.
unfoldable pub next_approval : PlanHost → Plan → Phase → Text → Result PlanError Approval
next_approval host plan Phase.approved updated_at = new_approval host plan updated_at
next_approval host plan Phase.planning updated_at =
    ok (if is_empty plan.approval.digest then plan.approval else empty_approval)
next_approval host plan _ updated_at = ok plan.approval

unfoldable pub moved : Plan → Phase → Conditions → Text → Approval → Plan
moved plan target conditions updated_at approval = record plan {
  revision = plan.revision + 1;
  phase = target;
  blocker = next_blocker target conditions.reason;
  updated_at = updated_at;
  approval = approval;
  gates = next_gates plan target;
}

-- Lines 677 to 723.
unfoldable pub check_transition : PlanHost → Plan → Phase → Conditions → Result PlanError (Unit {0})
check_transition host plan target conditions = do
  guard (is_legal plan.phase target) transition_invalid
  guard (not (is_execution_locked plan.phase target conditions.delivery_run_aborted))
      execution_locked
  guard (is_expected conditions.expected_revision plan.revision) revision_conflict
  require_target host plan target conditions

unfoldable pub transition_delivery_plan :
    PlanHost → Plan → Text → Conditions → Text → Result PlanError Plan
transition_delivery_plan host value to conditions at =
    let updated_at = normalized_timestamp host at [] in
    do
      plan ← validate_delivery_plan host value
      target ← or_throw (phase_of (normalized_lower host to)) transition_invalid
      check_transition host plan target conditions
      approval ← next_approval host plan target updated_at
      validate_delivery_plan host (moved plan target conditions updated_at approval)
