-- ===== src/Delivery/Close.antt =====
-- abortDeliveryRun and markDeliveryRunOffCourse of delivery-run.js.
use pane_fleet.Base.{
  Bool, true, false, not, none, some, List, [], ◌∷◌, map, if◌then◌else◌, some_of, find, modify,
  Text, take, Result, ok, ◌>>=◌, ◌>>◌, guard, or_throw,
}
use pane_fleet.Delivery.Types.{
  RunError, abort_state_invalid, abort_confirmation_required, abort_reason_invalid,
  abort_evidence_required, abort_operator_evidence_required, off_course_state_invalid,
  off_course_reason_invalid, outbox_invalid, Condition, TaskState, OutboxState, Evidence, Task,
  OutboxItem, Run, Platform,
}
use pane_fleet.Delivery.Fields.{text, assert_text, timestamp}
use pane_fleet.Delivery.Evidence.{append_evidence}
use pane_fleet.Delivery.Validate.{validate_delivery_run, is_verified}
use pane_fleet.Delivery.Validate.Tasks.{is_nil}
use pane_fleet.Delivery.Validate.Records.{is_abortable, is_operator_review, evidence_by_id}
use pane_fleet.Delivery.Run.{
  is_for, current_task, outbox_for_task, update_task, update_outbox, next_revision,
  refresh_delivery,
}

pub record AbortInput : Type 0 where
  pub operator_confirmed : Bool
  pub reason : Text
  pub evidence : List Evidence

unfoldable pub abort_task : Task → Task
abort_task task = if is_verified task then task else record task { state = TaskState.aborted }

-- A write to an outbox item whose mission was not linked.
unfoldable pub cancel_item : Text → Text → OutboxItem → OutboxItem
cancel_item reason aborted_at item = elim item.state [
  | OutboxState.applied ↦ item
  | _ ↦ record item {
    state = OutboxState.canceled;
    mission_id = none;
    error = take 500 reason;
    updated_at = aborted_at;
  }
]

unfoldable pub abort_outbox :
    Text → Text → Task → List OutboxItem → Result RunError (List OutboxItem)
abort_outbox reason aborted_at task outbox = if is_verified task then ok outbox else do
  item ← or_throw (find (is_for task.step_id) outbox) outbox_invalid
  ok (modify (is_for task.step_id) (cancel_item reason aborted_at) outbox)

-- The loop of lines 1305 to 1315, on the outbox.
unfoldable pub abort_outboxes :
    Text → Text → List Task → List OutboxItem → Result RunError (List OutboxItem)
abort_outboxes reason aborted_at [] outbox = ok outbox
abort_outboxes reason aborted_at (task ∷ tasks) outbox = do
  changed ← abort_outbox reason aborted_at task outbox
  abort_outboxes reason aborted_at tasks changed

unfoldable pub abort_next : Platform → Run → Run → Text → List Text → Text → Result RunError Run
abort_next p run indexed reason evidence_ids aborted_at = do
  outbox ← abort_outboxes reason aborted_at indexed.tasks indexed.outbox
  refreshed ←
      refresh_delivery p
        (record indexed {
          tasks = map abort_task indexed.tasks;
          outbox = outbox;
          condition = Condition.aborted;
          abort = some (record {
            operator_confirmed = true;
            from_condition = run.condition;
            reason = reason;
            evidence_ids = evidence_ids;
            aborted_at = aborted_at;
          });
          blocker = reason;
        })
        evidence_ids aborted_at
  next_revision p refreshed aborted_at

unfoldable pub abort_delivery_run : Platform → Run → AbortInput → Text → Result RunError Run
abort_delivery_run p value input at = do
  run ← validate_delivery_run p value
  guard (is_abortable run.condition) abort_state_invalid
  guard input.operator_confirmed abort_confirmation_required
  assert_text (text input.reason) abort_reason_invalid true 800
  guard (not (is_nil input.evidence)) abort_evidence_required
  aborted_at ← timestamp p at
  (indexed, evidence_ids) ← append_evidence p run input.evidence
  guard
      (some_of (λ id. is_operator_review (evidence_by_id indexed.evidence_index id) aborted_at)
        evidence_ids)
      abort_operator_evidence_required
  next ← abort_next p run indexed (text input.reason) evidence_ids aborted_at
  validate_delivery_run p next

pub record OffCourseInput : Type 0 where
  pub step_id : Text
  pub reason : Text
  pub evidence : List Evidence

-- !['verified', 'aborted', 'off_course', 'blocked'].includes(run.condition)
abbrev pub is_on_course : Condition → Bool
is_on_course Condition.verified = false
is_on_course Condition.aborted = false
is_on_course Condition.off_course = false
is_on_course Condition.blocked = false
is_on_course _ = true

-- !['verified', 'failed', 'off_course'].includes(task.state)
abbrev pub may_leave_course : TaskState → Bool
may_leave_course TaskState.verified = false
may_leave_course TaskState.failed = false
may_leave_course TaskState.off_course = false
may_leave_course _ = true

unfoldable pub block_item : Text → Text → OutboxItem → OutboxItem
block_item reason updated_at item = elim item.state [
  | OutboxState.applied ↦ item
  | _ ↦ record item {
    state = OutboxState.blocked;
    error = take 500 reason;
    updated_at = updated_at;
  }
]

unfoldable pub off_course_next :
    Platform → Run → Task → Text → List Evidence → Text → Result RunError Run
off_course_next p run task reason evidence at = do
  (indexed, evidence_ids) ← append_evidence p run evidence
  marked ← update_task p indexed task.step_id (λ t. record t { state = TaskState.off_course })
  next_task ← current_task p marked task.step_id
  item ← outbox_for_task marked next_task
  updated_at ← timestamp p at
  changed ← update_outbox marked next_task (block_item reason updated_at)
  refreshed ←
      refresh_delivery p (record changed { condition = Condition.off_course; blocker = reason })
        evidence_ids at
  next_revision p refreshed at

unfoldable pub mark_delivery_run_off_course :
    Platform → Run → OffCourseInput → Text → Result RunError Run
mark_delivery_run_off_course p value input at = do
  run ← validate_delivery_run p value
  guard (is_on_course run.condition) off_course_state_invalid
  task ← current_task p run input.step_id
  guard (may_leave_course task.state) off_course_state_invalid
  assert_text (text input.reason) off_course_reason_invalid true 800
  next ← off_course_next p run task (text input.reason) input.evidence at
  validate_delivery_run p next
