-- ===== src/Delivery/Types.antt =====
-- The data of delivery-run.js. A record stands for an object whose exact keys `exactKeys` has
-- checked; a data type stands for a string that a set of constants holds.
use pane_fleet.Base.{ℕ, Text, Bool, Option, List, Result}

pub data RunError : Type 0 where
  run_id_invalid plan_id_invalid plan_revision_invalid plan_digest_invalid : RunError
  revision_invalid version_unsupported workspace_invalid timestamp_invalid : RunError
  control_characters_not_allowed blocker_invalid condition_invalid : RunError
  baseline_workspace_mismatch baseline_invalid : RunError
  allowed_path_invalid allowed_paths_invalid : RunError
  evidence_invalid evidence_content_invalid evidence_index_invalid evidence_duplicate : RunError
  evidence_limit_reached evidence_reference_unknown evidence_not_for_task : RunError
  verifications_invalid verification_duplicate verification_invalid : RunError
  verifier_invalid verification_id_invalid verification_state_invalid : RunError
  verification_baseline_invalid verification_baseline_changed : RunError
  verification_criteria_invalid verification_criterion_invalid : RunError
  verification_evidence_invalid verification_outcome_invalid : RunError
  verification_note_required verification_step_unknown verification_task_mismatch : RunError
  tasks_invalid task_invalid task_not_found task_order_invalid task_baseline_invalid : RunError
  task_binding_invalid task_mission_invalid task_verification_invalid : RunError
  task_lifecycle_invalid task_acceptance_ids_invalid : RunError
  step_id_invalid step_id_duplicate step_digest_invalid : RunError
  mission_definition_digest_invalid mission_id_invalid : RunError
  mission_link_state_invalid mission_binding_conflict : RunError
  mission_reconcile_state_invalid mission_reconcile_error_invalid : RunError
  implementation_invalid implementation_state_invalid implementation_unchanged : RunError
  implementation_baseline_identity_changed : RunError
  outbox_invalid outbox_lifecycle_invalid outbox_sequence_invalid : RunError
  delivery_invalid : RunError
  abort_invalid abort_state_invalid abort_confirmation_required : RunError
  abort_reason_invalid abort_evidence_required abort_evidence_invalid : RunError
  abort_operator_evidence_required abort_task_invalid abort_outbox_invalid : RunError
  off_course_state_invalid off_course_reason_invalid : RunError

-- DELIVERY_RUN_CONDITIONS
pub data Condition : Type 0 where
  preparing active awaiting_verification blocked off_course : Condition
  reconcile_required aborted verified : Condition

-- TASK_STATE_SET
pub data TaskState : Type 0 where
  pending mission_linked implementation_captured verified failed : TaskState
  off_course reconcile_required aborted : TaskState

-- OUTBOX_STATE_SET
pub data OutboxState : Type 0 where
  held pending applied reconcile_required blocked canceled : OutboxState

-- DELIVERY_RUN_DELIVERY_LEVELS
pub data DeliveryLevel : Type 0 where
  planned implemented_locally verified_locally : DeliveryLevel

pub data VerificationOutcome : Type 0 where
  passed failed : VerificationOutcome

pub record BaselineEntry : Type 0 where
  pub status : Text
  pub path : Text
  pub original_path : Text
  pub kind : Text
  pub size : ℕ
  pub sha256 : Text

pub record Instruction : Type 0 where
  pub path : Text
  pub size : ℕ
  pub sha256 : Text

pub record GitMetadata : Type 0 where
  pub repo_root : Text
  pub git_dir : Text
  pub common_dir : Text
  pub object_format : Text
  pub head_ref : Text
  pub sparse_checkout : Bool
  pub sparse_index : Bool

pub record Baseline : Type 0 where
  pub version : ℕ
  pub workspace : Text
  pub repo_root : Text
  pub workspace_prefix : Text
  pub digest : Text
  pub head : Text
  pub branch : Text
  pub detached : Bool
  pub working_tree_digest : Text
  pub instructions_digest : Text
  pub manifest_digest : Text
  pub status_digest : Text
  pub index_digest : Text
  pub index_flags_digest : Text
  pub git_metadata : GitMetadata
  pub git_metadata_digest : Text
  pub approved_scopes : List Text
  pub ignored_scope_digest : Text
  pub entries : List BaselineEntry
  pub instructions : List Instruction
  pub captured_at : Text

pub record Evidence : Type 0 where
  pub id : Text
  pub kind : Text
  pub producer : Text
  pub outcome : Text
  pub summary : Text
  pub content_ref : Text
  pub content_sha256 : Text
  pub created_at : Text

pub record Implementation : Type 0 where
  pub baseline : Option Baseline
  pub evidence_ids : List Text
  pub captured_at : Option Text

pub record Task : Type 0 where
  pub step_id : Text
  pub sequence : ℕ
  pub step_digest : Text
  pub acceptance_ids : List Text
  pub allowed_paths : List Text
  pub expected_baseline_digest : Text
  pub state : TaskState
  pub mission_binding_key : Text
  pub mission_definition_digest : Text
  pub mission_id : Option Text
  pub implementation : Implementation
  pub verification_id : Option Text

pub record OutboxItem : Type 0 where
  pub id : Text
  pub kind : Text
  pub step_id : Text
  pub binding_key : Text
  pub payload_digest : Text
  pub state : OutboxState
  pub mission_id : Option Text
  pub error : Text
  pub updated_at : Text

pub record Criterion : Type 0 where
  pub acceptance_id : Text
  pub outcome : Text
  pub evidence_ids : List Text

-- `verifier.kind` stands in `verifier`.
pub record Verification : Type 0 where
  pub id : Text
  pub step_id : Text
  pub plan_digest : Text
  pub implementation_mission_id : Text
  pub verifier : Text
  pub criteria : List Criterion
  pub outcome : VerificationOutcome
  pub before_baseline_digest : Text
  pub after_baseline_digest : Text
  pub evidence_ids : List Text
  pub note : Text
  pub verified_at : Text

pub record Delivery : Type 0 where
  pub level : DeliveryLevel
  pub evidence_ids : List Text
  pub updated_at : Text

pub record Abort : Type 0 where
  pub operator_confirmed : Bool
  pub from_condition : Condition
  pub reason : Text
  pub evidence_ids : List Text
  pub aborted_at : Text

pub record Run : Type 0 where
  pub version : ℕ
  pub id : Text
  pub revision : ℕ
  pub plan_id : Text
  pub plan_revision : ℕ
  pub plan_digest : Text
  pub workspace : Text
  pub start_baseline : Baseline
  pub condition : Condition
  pub tasks : List Task
  pub outbox : List OutboxItem
  pub evidence_index : List Evidence
  pub verification_records : List Verification
  pub delivery : Delivery
  pub abort : Option Abort
  pub blocker : Text
  pub created_at : Text
  pub updated_at : Text

-- The argument of `deliveryRunMissionBindingKey`; the code adds the version and the role.
pub record BindingKeyInput : Type 0 where
  pub version : ℕ
  pub role : Text
  pub run_id : Text
  pub plan_id : Text
  pub plan_digest : Text
  pub step_id : Text

-- What the runs take from outside this component. `date_parse` counts milliseconds from the
-- earliest time value of JavaScript, so that it is a natural number; `none` stands for NaN. The
-- case mappings, `Date`, node's `path` and the hash are the platform's. The two baseline functions
-- are the workspace baseline component.
pub record Platform : Type 0 where
  pub to_upper_case : Text → Text
  pub to_lower_case : Text → Text
  pub date_parse : Text → Option ℕ
  pub to_iso_string : ℕ → Text
  pub path_normalize : Text → Text
  pub canonical_sha256 : BindingKeyInput → Text
  pub create_workspace_baseline : Baseline → Result RunError Baseline
  pub validate_workspace_baseline : Baseline → Result RunError Baseline
