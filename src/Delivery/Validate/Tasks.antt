-- ===== src/Delivery/Validate/Tasks.antt =====
-- validateTask and validateOutbox of delivery-run.js.
use pane_fleet.Base.{
  Bool, true, false, not, ◌&&◌, ◌||◌, Option, none, some, List, [], ◌∷◌, ◌++◌, leb, length, Text,
  codes, text_eq, includes, is_empty, take, Result, ok, err, ◌>>=◌, ◌>>◌, guard, for_each,
}
use pane_fleet.Delivery.Types.{
  RunError, evidence_reference_unknown, task_invalid, task_binding_invalid, task_mission_invalid,
  task_verification_invalid, task_lifecycle_invalid, implementation_invalid, outbox_invalid,
  outbox_lifecycle_invalid, implementation_baseline_identity_changed, TaskState, OutboxState,
  Baseline, Task, OutboxItem, Run, Platform, Implementation,
}
use pane_fleet.Delivery.Fields.{
  max_safe_integer, assert_text, valid_timestamp, assert_digest, assert_optional_digest,
  step_id_pattern, acceptance_id_pattern, evidence_id_pattern, verification_id_pattern,
  mission_id_pattern, outbox_id_pattern, unique_strings, normalized_scope_path,
  delivery_run_mission_binding_key,
}

-- !value, of a string or null
abbrev pub is_missing : Option Text → Bool
is_missing none = true
is_missing (some value) = is_empty value

-- value !== null && !pattern.test(value)
abbrev pub null_or : (Text → Bool) → Option Text → Bool
null_or pattern none = true
null_or pattern (some value) = pattern value

-- left === right, of two strings or nulls
abbrev pub same_option : Option Text → Option Text → Bool
same_option none none = true
same_option none (some r) = false
same_option (some l) none = false
same_option (some l) (some r) = text_eq l r

abbrev pub is_null {ℓ} : {A : Type ℓ} → Option A → Bool
is_null none = true
is_null (some a) = false

abbrev pub is_nil {ℓ} : {A : Type ℓ} → List A → Bool
is_nil [] = true
is_nil (a ∷ rest) = false

-- The states of a task that need a mission, a captured baseline, a verification.
abbrev pub needs_mission : TaskState → Bool
needs_mission TaskState.mission_linked = true
needs_mission TaskState.implementation_captured = true
needs_mission TaskState.verified = true
needs_mission TaskState.failed = true
needs_mission _ = false

abbrev pub needs_baseline : TaskState → Bool
needs_baseline TaskState.implementation_captured = true
needs_baseline TaskState.verified = true
needs_baseline TaskState.failed = true
needs_baseline _ = false

abbrev pub needs_verification : TaskState → Bool
needs_verification TaskState.verified = true
needs_verification TaskState.failed = true
needs_verification _ = false

unfoldable pub check_scope_paths : Platform → List Text → List Text → Result RunError (Unit {0})
check_scope_paths p paths [] = ok tt
check_scope_paths p paths (scope_path ∷ rest) = do
  normalized ← normalized_scope_path p scope_path
  guard (text_eq normalized scope_path && not (includes paths scope_path)) task_invalid
  check_scope_paths p (scope_path ∷ paths) rest

-- The checks of a task's definition, lines 664 to 693.
unfoldable pub validate_task_scope : Platform → Task → Run → Result RunError (Unit {0})
validate_task_scope p task run = do
  guard (step_id_pattern task.step_id && leb task.sequence max_safe_integer) task_invalid
  assert_digest task.step_digest task_invalid
  acceptance_ids ← unique_strings task.acceptance_ids acceptance_id_pattern task_invalid 120
  guard (not (is_nil acceptance_ids)) task_invalid
  guard (leb 1 (length task.allowed_paths) && leb (length task.allowed_paths) 100) task_invalid
  check_scope_paths p [] task.allowed_paths
  assert_optional_digest task.expected_baseline_digest task_invalid
  guard
      (text_eq task.mission_binding_key
        (delivery_run_mission_binding_key p run.id run.plan_id run.plan_digest task.step_id))
      task_binding_invalid
  assert_digest task.mission_definition_digest task_invalid
  guard (null_or mission_id_pattern task.mission_id) task_mission_invalid

-- baseline.workspace, repoRoot and workspacePrefix are those of the run's start
abbrev pub same_identity : Baseline → Baseline → Bool
same_identity baseline start =
    text_eq baseline.workspace start.workspace
    && text_eq baseline.repo_root start.repo_root
    && text_eq baseline.workspace_prefix start.workspace_prefix

unfoldable pub validate_captured :
    Platform → Implementation → Run → Option Baseline → Result RunError (Unit {0})
validate_captured p implementation run none =
    guard (is_nil implementation.evidence_ids && is_null implementation.captured_at)
      implementation_invalid
validate_captured p implementation run (some baseline) = do
  checked ← p.validate_workspace_baseline baseline
  guard (same_identity baseline run.start_baseline) implementation_baseline_identity_changed
  elim implementation.captured_at [
    | none ↦ err implementation_invalid
    | some captured_at ↦ do
      guard (valid_timestamp p captured_at) implementation_invalid
      guard (text_eq captured_at baseline.captured_at) implementation_invalid
  ]

-- The checks of a task's implementation, lines 694 to 714.
unfoldable pub validate_implementation :
    Platform → Implementation → Run → List Text → Result RunError (Unit {0})
validate_implementation p implementation run evidence_ids = do
  seen ← unique_strings implementation.evidence_ids evidence_id_pattern implementation_invalid 128
  for_each (λ id. guard (includes evidence_ids id) evidence_reference_unknown)
      implementation.evidence_ids
  validate_captured p implementation run implementation.baseline

-- The checks of a task's state, lines 715 to 729.
unfoldable pub validate_task_lifecycle : Task → List Text → Result RunError (Unit {0})
validate_task_lifecycle task verification_ids = do
  guard (null_or verification_id_pattern task.verification_id) task_verification_invalid
  guard (null_or (includes verification_ids) task.verification_id) task_verification_invalid
  guard (not (needs_mission task.state && is_missing task.mission_id)) task_lifecycle_invalid
  guard (not (needs_baseline task.state && is_null task.implementation.baseline))
      task_lifecycle_invalid
  guard (not (needs_verification task.state && is_missing task.verification_id))
      task_lifecycle_invalid

unfoldable pub validate_task :
    Platform → Task → Run → List Text → List Text → Result RunError (Unit {0})
validate_task p task run evidence_ids verification_ids = do
  validate_task_scope p task run
  validate_implementation p task.implementation run evidence_ids
  validate_task_lifecycle task verification_ids

-- The states of an outbox item that may carry an error.
abbrev pub may_have_error : OutboxState → Bool
may_have_error OutboxState.reconcile_required = true
may_have_error OutboxState.blocked = true
may_have_error OutboxState.canceled = true
may_have_error _ = false

-- What the state of the task has to be under that of its outbox item, lines 748 to 761.
abbrev pub outbox_fits : OutboxState → TaskState → OutboxItem → Task → Bool
outbox_fits OutboxState.applied TaskState.pending item task = false
outbox_fits OutboxState.applied _ item task =
    not (is_missing item.mission_id) && same_option item.mission_id task.mission_id
outbox_fits OutboxState.reconcile_required TaskState.reconcile_required item task =
    is_null item.mission_id
outbox_fits OutboxState.reconcile_required _ item task = false
outbox_fits OutboxState.blocked TaskState.off_course item task = is_null item.mission_id
outbox_fits OutboxState.blocked _ item task = false
outbox_fits OutboxState.canceled TaskState.aborted item task =
    is_null item.mission_id && not (is_empty item.error)
outbox_fits OutboxState.canceled _ item task = false
outbox_fits OutboxState.held _ item task = is_null item.mission_id
outbox_fits OutboxState.pending _ item task = is_null item.mission_id

unfoldable pub validate_outbox : Platform → OutboxItem → Task → Result RunError (Unit {0})
validate_outbox p item task = do
  guard
      (outbox_id_pattern item.id
        && text_eq item.id (codes "outbox-" ++ take 32 task.mission_binding_key)
        && text_eq item.kind (codes "mission.ensure")
        && text_eq item.step_id task.step_id
        && text_eq item.binding_key task.mission_binding_key
        && text_eq item.payload_digest task.mission_definition_digest
        && valid_timestamp p item.updated_at)
      outbox_invalid
  guard (null_or mission_id_pattern item.mission_id) outbox_invalid
  assert_text item.error outbox_invalid false 500
  guard (outbox_fits item.state task.state item task) outbox_lifecycle_invalid
  guard (is_empty item.error || may_have_error item.state) outbox_lifecycle_invalid
