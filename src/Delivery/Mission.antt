-- ===== src/Delivery/Mission.antt =====
-- linkDeliveryRunMission, markDeliveryRunMissionReconcileRequired and
-- captureDeliveryRunImplementation of delivery-run.js. A name that ends in `_next` is the state
-- that the operation hands to the closing validation.
use pane_fleet.Base.{
  Bool, true, false, not, ◌&&◌, some, List, [], Text, text_eq, Result, ◌>>=◌, ◌>>◌, guard,
}
use pane_fleet.Delivery.Types.{
  RunError, mission_link_state_invalid, mission_binding_conflict, mission_id_invalid,
  mission_reconcile_state_invalid, mission_reconcile_error_invalid, implementation_state_invalid,
  implementation_unchanged, implementation_baseline_identity_changed, Condition, TaskState,
  OutboxState, Baseline, Evidence, Task, Run, Platform,
}
use pane_fleet.Delivery.Fields.{inline, assert_text, timestamp, mission_id_pattern}
use pane_fleet.Delivery.Evidence.{append_evidence}
use pane_fleet.Delivery.Validate.{validate_delivery_run, awaits_mission}
use pane_fleet.Delivery.Validate.Tasks.{same_identity}
use pane_fleet.Delivery.Validate.Records.{same_mission}
use pane_fleet.Delivery.Run.{
  current_task, outbox_for_task, update_task, update_outbox, next_revision, refresh_delivery,
  assert_work_mutable,
}

pub record LinkInput : Type 0 where
  pub step_id : Text
  pub binding_key : Text
  pub mission_id : Text

-- ['pending', 'reconcile_required'].includes(task.state)
abbrev pub is_linkable : TaskState → Bool
is_linkable TaskState.pending = true
is_linkable TaskState.reconcile_required = true
is_linkable _ = false

abbrev pub is_pending : TaskState → Bool
is_pending TaskState.pending = true
is_pending _ = false

abbrev pub outbox_pending : OutboxState → Bool
outbox_pending OutboxState.pending = true
outbox_pending _ = false

abbrev pub is_linked : TaskState → Bool
is_linked TaskState.mission_linked = true
is_linked _ = false

unfoldable pub link_next : Platform → Run → Task → Text → Text → Result RunError Run
link_next p run task mission_id at = do
  linked ←
      update_task p run task.step_id
        (λ t. record t { state = TaskState.mission_linked; mission_id = some mission_id })
  next_task ← current_task p linked task.step_id
  updated_at ← timestamp p at
  applied ← update_outbox linked next_task (λ item. record item {
    state = OutboxState.applied;
    mission_id = some mission_id;
    error = [];
    updated_at = updated_at;
  })
  next_revision p (record applied { condition = Condition.active; blocker = [] }) at

unfoldable pub link_delivery_run_mission : Platform → Run → LinkInput → Text → Result RunError Run
link_delivery_run_mission p value input at = do
  run ← validate_delivery_run p value
  assert_work_mutable run mission_link_state_invalid
  task ← current_task p run input.step_id
  item ← outbox_for_task run task
  guard (awaits_mission item.state && is_linkable task.state) mission_link_state_invalid
  guard (text_eq input.binding_key task.mission_binding_key) mission_binding_conflict
  guard (mission_id_pattern (p.to_lower_case (inline input.mission_id))) mission_id_invalid
  next ← link_next p run task (p.to_lower_case (inline input.mission_id)) at
  validate_delivery_run p next

pub record ReconcileInput : Type 0 where
  pub step_id : Text
  pub binding_key : Text
  pub error : Text

unfoldable pub reconcile_next : Platform → Run → Task → Text → Text → Result RunError Run
reconcile_next p run task error at = do
  marked ← update_task p run task.step_id (λ t. record t { state = TaskState.reconcile_required })
  next_task ← current_task p marked task.step_id
  updated_at ← timestamp p at
  changed ← update_outbox marked next_task (λ item. record item {
    state = OutboxState.reconcile_required;
    error = error;
    updated_at = updated_at;
  })
  next_revision p (record changed { condition = Condition.reconcile_required; blocker = error }) at

unfoldable pub mark_delivery_run_mission_reconcile_required :
    Platform → Run → ReconcileInput → Text → Result RunError Run
mark_delivery_run_mission_reconcile_required p value input at = do
  run ← validate_delivery_run p value
  assert_work_mutable run mission_reconcile_state_invalid
  task ← current_task p run input.step_id
  item ← outbox_for_task run task
  guard (outbox_pending item.state && is_pending task.state) mission_reconcile_state_invalid
  guard (text_eq input.binding_key task.mission_binding_key) mission_binding_conflict
  assert_text (inline input.error) mission_reconcile_error_invalid true 500
  next ← reconcile_next p run task (inline input.error) at
  validate_delivery_run p next

pub record CaptureInput : Type 0 where
  pub step_id : Text
  pub mission_id : Text
  pub baseline : Baseline
  pub evidence : List Evidence

unfoldable pub capture_next :
    Platform → Run → Task → Baseline → List Evidence → Text → Result RunError Run
capture_next p run task baseline evidence at = do
  (indexed, evidence_ids) ← append_evidence p run evidence
  captured ← update_task p indexed task.step_id (λ t. record t {
    state = TaskState.implementation_captured;
    implementation = record {
      baseline = some baseline;
      evidence_ids = evidence_ids;
      captured_at = some baseline.captured_at;
    };
  })
  refreshed ←
      refresh_delivery p
        (record captured { condition = Condition.awaiting_verification; blocker = [] }) evidence_ids
        at
  next_revision p refreshed at

unfoldable pub capture_delivery_run_implementation :
    Platform → Run → CaptureInput → Text → Result RunError Run
capture_delivery_run_implementation p value input at = do
  run ← validate_delivery_run p value
  assert_work_mutable run implementation_state_invalid
  task ← current_task p run input.step_id
  guard (is_linked task.state && same_mission task.mission_id input.mission_id)
      implementation_state_invalid
  baseline ← p.create_workspace_baseline input.baseline
  guard (same_identity baseline run.start_baseline) implementation_baseline_identity_changed
  guard (not (text_eq baseline.digest task.expected_baseline_digest)) implementation_unchanged
  next ← capture_next p run task baseline input.evidence at
  validate_delivery_run p next
