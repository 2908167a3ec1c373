-- ===== src/Delivery/Validate.antt =====
-- validateDeliveryRun of delivery-run.js, in the order of its checks.
pub mod Tasks
pub mod Records
pub mod Accepted
pub mod Rows
use pane_fleet.Base.{
  ℕ, zero, suc, ◌+◌, Bool, true, false, not, ◌&&◌, ◌||◌, Option, none, some, List, [], ◌∷◌, leb,
  ◌==◌, map, if◌then◌else◌, length, every, some_of, find, filter, Text, codes, text_eq, includes,
  is_empty, take, Result, ok, err, ◌>>=◌, ◌>>◌, guard, for_each,
}
use pane_fleet.Delivery.Types.{
  RunError, version_unsupported, run_id_invalid, revision_invalid, plan_id_invalid,
  plan_revision_invalid, plan_digest_invalid, workspace_invalid, baseline_workspace_mismatch,
  condition_invalid, blocker_invalid, timestamp_invalid, evidence_index_invalid, evidence_duplicate,
  evidence_reference_unknown, verifications_invalid, verification_duplicate, tasks_invalid,
  outbox_invalid, task_order_invalid, task_baseline_invalid, abort_task_invalid,
  outbox_sequence_invalid, verification_step_unknown, verification_task_mismatch, delivery_invalid,
  abort_invalid, abort_reason_invalid, abort_outbox_invalid, Condition, TaskState, OutboxState,
  DeliveryLevel, Baseline, Evidence, Task, OutboxItem, Verification, Abort, Run, Platform, planned,
  implemented_locally, verified_locally,
}
use pane_fleet.Delivery.Fields.{
  max_safe_integer, assert_text, valid_timestamp, date_before, assert_digest, run_id_pattern,
  plan_id_pattern, evidence_id_pattern, verification_id_pattern, unique_strings, is_absolute,
}
use pane_fleet.Delivery.Evidence.{validate_evidence}
use Tasks.{validate_task, validate_outbox, is_null}
use Records.{validate_verification, validate_abort}

-- condition === 'aborted'
abbrev pub is_aborted : Condition → Bool
is_aborted Condition.aborted = true
is_aborted _ = false

-- task.state === 'verified'
abbrev pub is_verified : Task → Bool
is_verified task = elim task.state [ TaskState.verified ↦ true | _ ↦ false ]

-- task.implementation.baseline !== null
abbrev pub has_baseline : Task → Bool
has_baseline task = not (is_null task.implementation.baseline)

unfoldable pub expected_delivery_level : Run → DeliveryLevel
expected_delivery_level run =
    if every is_verified run.tasks
    then verified_locally
    else if some_of has_baseline run.tasks
    then implemented_locally
    else planned

-- Lines 880 to 896.
unfoldable pub validate_header : Platform → Run → Result RunError (Unit {0})
validate_header p value = do
  guard (value.version == 1) version_unsupported
  guard (run_id_pattern value.id) run_id_invalid
  guard (leb 1 value.revision && leb value.revision max_safe_integer) revision_invalid
  guard (plan_id_pattern value.plan_id) plan_id_invalid
  guard (leb 1 value.plan_revision && leb value.plan_revision max_safe_integer)
      plan_revision_invalid
  assert_digest value.plan_digest plan_digest_invalid
  assert_text value.workspace workspace_invalid true 4096
  guard (is_absolute value.workspace && text_eq (p.path_normalize value.workspace) value.workspace)
      workspace_invalid
  baseline ← p.validate_workspace_baseline value.start_baseline
  guard (text_eq value.start_baseline.workspace value.workspace) baseline_workspace_mismatch
  assert_text value.blocker blocker_invalid false 800
  guard
      (valid_timestamp p value.created_at
        && valid_timestamp p value.updated_at
        && not (date_before p value.updated_at value.created_at))
      timestamp_invalid

unfoldable pub evidence_ids_from :
    Platform → List Text → List Evidence → Result RunError (List Text)
evidence_ids_from p seen [] = ok seen
evidence_ids_from p seen (evidence ∷ rest) = do
  checked ← validate_evidence p evidence
  guard (not (includes seen evidence.id)) evidence_duplicate
  evidence_ids_from p (evidence.id ∷ seen) rest

-- Lines 897 to 907: the known evidence ids.
unfoldable pub validate_evidence_index : Platform → Run → Result RunError (List Text)
validate_evidence_index p value = do
  guard (leb (length value.evidence_index) 512) evidence_index_invalid
  evidence_ids_from p [] value.evidence_index

unfoldable pub verification_ids_from : List Text → List Verification → Result RunError (List Text)
verification_ids_from seen [] = ok seen
verification_ids_from seen (record' ∷ rest) = do
  guard (verification_id_pattern record'.id && not (includes seen record'.id))
      verification_duplicate
  verification_ids_from (record'.id ∷ seen) rest

-- Lines 908 to 917: the known verification ids.
unfoldable pub validate_verification_index : Run → Result RunError (List Text)
validate_verification_index value = do
  guard (leb (length value.verification_records) 120) verifications_invalid
  verification_ids_from [] value.verification_records

-- The states that a task and its outbox item may have under the run's condition, lines 933 to 941.
abbrev pub abort_fits : Bool → TaskState → OutboxState → Bool
abort_fits true TaskState.verified OutboxState.applied = true
abort_fits true TaskState.verified _ = false
abort_fits true TaskState.aborted OutboxState.applied = true
abort_fits true TaskState.aborted OutboxState.canceled = true
abort_fits true TaskState.aborted _ = false
abort_fits true _ _ = false
abort_fits false TaskState.aborted _ = false
abort_fits false _ OutboxState.canceled = false
abort_fits false _ _ = true

-- The digest that a task has to start from, line 944.
abbrev pub released_digest : TaskState → Option Baseline → Text
released_digest TaskState.verified (some baseline) = baseline.digest
released_digest _ _ = []

-- What the previous task allows an outbox item, lines 946 to 954.
abbrev pub sequence_fits : TaskState → TaskState → OutboxState → Bool
sequence_fits TaskState.verified TaskState.pending OutboxState.pending = true
sequence_fits TaskState.verified TaskState.pending OutboxState.reconcile_required = true
sequence_fits TaskState.verified TaskState.pending OutboxState.applied = true
sequence_fits TaskState.verified TaskState.pending OutboxState.blocked = true
sequence_fits TaskState.verified TaskState.pending _ = false
sequence_fits TaskState.verified _ _ = true
sequence_fits _ _ OutboxState.held = true
sequence_fits _ _ _ = false

-- Lines 930 to 955: the checks against the run's start or the previous task.
unfoldable pub validate_position :
    Run → Option Task → Task → OutboxItem → Result RunError (Unit {0})
validate_position value none task item = do
  guard (text_eq task.expected_baseline_digest value.start_baseline.digest) task_baseline_invalid
  guard (abort_fits (is_aborted value.condition) task.state item.state) abort_task_invalid
validate_position value (some previous) task item = do
  guard (abort_fits (is_aborted value.condition) task.state item.state) abort_task_invalid
  guard
      (text_eq task.expected_baseline_digest
        (released_digest previous.state previous.implementation.baseline))
      task_baseline_invalid
  guard (is_aborted value.condition || sequence_fits previous.state task.state item.state)
      outbox_sequence_invalid

-- The loop over the tasks with their outbox items, lines 924 to 956.
unfoldable pub validate_tasks :
    Platform
    → Run
    → List Text
    → List Text
    → ℕ
    → Option Task
    → List Text
    → List Task
    → List OutboxItem
    → Result RunError (Unit {0})
validate_tasks p value evidence_ids verification_ids index previous steps [] outbox = ok tt
validate_tasks p value evidence_ids verification_ids index previous steps (task ∷ tasks) [] =
    err outbox_invalid
validate_tasks p value evidence_ids verification_ids index previous steps (task ∷ tasks)
      (item ∷ outbox) =
    do
      validate_task p task value evidence_ids verification_ids
      guard (task.sequence == index && not (includes steps task.step_id)) task_order_invalid
      validate_outbox p item task
      validate_position value previous task item
      validate_tasks p value evidence_ids verification_ids (index + 1) (some task)
          (task.step_id ∷ steps) tasks outbox

-- Lines 957 to 962.
unfoldable pub validate_record :
    Platform → Run → List Text → Verification → Result RunError (Unit {0})
validate_record p value evidence_ids record' =
    elim (find (λ (task : Task). text_eq task.step_id record'.step_id) value.tasks) [
      | none ↦ err verification_step_unknown
      | some task ↦ do
        validate_verification p record' value task evidence_ids
        elim task.verification_id [
          | none ↦ err verification_task_mismatch
          | some id ↦ guard (text_eq id record'.id) verification_task_mismatch
        ]
    ]

-- An outbox item that waits for its mission to be ensured.
abbrev pub awaits_mission : OutboxState → Bool
awaits_mission OutboxState.pending = true
awaits_mission OutboxState.reconcile_required = true
awaits_mission _ = false

abbrev same_level : DeliveryLevel → DeliveryLevel → Bool
same_level planned planned = true
same_level implemented_locally implemented_locally = true
same_level verified_locally verified_locally = true
same_level _ _ = false

-- Lines 963 to 975.
unfoldable pub validate_delivery : Platform → Run → List Text → Result RunError (Unit {0})
validate_delivery p value evidence_ids = do
  guard (leb (length (filter (λ (item : OutboxItem). awaits_mission item.state) value.outbox)) 1)
      outbox_sequence_invalid
  guard (same_level value.delivery.level (expected_delivery_level value)) delivery_invalid
  ids ← unique_strings value.delivery.evidence_ids evidence_id_pattern delivery_invalid 128
  for_each (λ id. guard (includes evidence_ids id) evidence_reference_unknown)
      value.delivery.evidence_ids
  guard
      (valid_timestamp p value.delivery.updated_at
        && not (date_before p value.updated_at value.delivery.updated_at))
      delivery_invalid

abbrev pub has_state : (TaskState → Bool) → Run → Bool
has_state test value = some_of (λ (task : Task). test task.state) value.tasks

-- item.state !== 'canceled', or its error and time are those of the abort
abbrev canceled_fits : Abort → OutboxItem → Bool
canceled_fits abort item = elim item.state [
  | OutboxState.canceled ↦
      text_eq item.error (take 500 abort.reason) && text_eq item.updated_at abort.aborted_at
  | _ ↦ true
]

-- Lines 976 to 990.
unfoldable pub validate_abort_part : Platform → Run → Result RunError (Unit {0})
validate_abort_part p value =
    if is_aborted value.condition
    then elim value.abort [
      | none ↦ err abort_invalid
      | some abort ↦ do
        guard (has_state (elim [ TaskState.aborted ↦ true | _ ↦ false ]) value) abort_invalid
        validate_abort p abort value
        guard (text_eq value.blocker abort.reason) abort_reason_invalid
        guard (every (canceled_fits abort) value.outbox) abort_outbox_invalid
    ]
    else guard (is_null value.abort) abort_invalid

-- What a condition asks of the tasks, lines 991 to 1005.
abbrev pub condition_fits : Condition → Run → Bool
condition_fits Condition.verified value = every is_verified value.tasks
condition_fits Condition.awaiting_verification value =
    has_state (elim [ TaskState.implementation_captured ↦ true | _ ↦ false ]) value
condition_fits Condition.reconcile_required value =
    has_state (elim [ TaskState.reconcile_required ↦ true | _ ↦ false ]) value
condition_fits Condition.off_course value =
    has_state (elim [ TaskState.off_course ↦ true | _ ↦ false ]) value
condition_fits Condition.blocked value =
    has_state (elim [ TaskState.failed ↦ true | _ ↦ false ]) value
condition_fits _ value = true

-- The conditions that carry a blocker, and no others, line 1006.
abbrev pub needs_blocker : Condition → Bool
needs_blocker Condition.blocked = true
needs_blocker Condition.off_course = true
needs_blocker Condition.reconcile_required = true
needs_blocker Condition.aborted = true
needs_blocker _ = false

unfoldable pub validate_condition : Run → Result RunError (Unit {0})
validate_condition value = do
  guard (condition_fits value.condition value) condition_invalid
  guard
      (if needs_blocker value.condition
        then not (is_empty value.blocker)
        else is_empty value.blocker)
      blocker_invalid

unfoldable pub validate_delivery_run : Platform → Run → Result RunError Run
validate_delivery_run p value = do
  validate_header p value
  evidence_ids ← validate_evidence_index p value
  verification_ids ← validate_verification_index value
  guard (leb 1 (length value.tasks) && leb (length value.tasks) 80) tasks_invalid
  guard (length value.outbox == length value.tasks) outbox_invalid
  validate_tasks p value evidence_ids verification_ids 0 none [] value.tasks value.outbox
  for_each (validate_record p value evidence_ids) value.verification_records
  validate_delivery p value evidence_ids
  validate_abort_part p value
  validate_condition value
  ok value
