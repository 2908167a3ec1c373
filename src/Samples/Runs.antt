-- ===== src/Samples/Runs.antt =====
-- Concrete runs of the delivery model: inputs, and the states that the operations compute from them.
use pane_fleet.Base.{◌≡◌, refl, ℕ, zero, suc, true, false, none, some, [], ◌∷◌, Text, codes, ok}
use pane_fleet.Delivery.Types.{
  Platform, Baseline, Run, Evidence, Task, OutboxItem, TaskState, OutboxState, Condition,
  DeliveryLevel, passed,
}
use pane_fleet.Delivery.Create.{TaskInput, RunInput}
use pane_fleet.Delivery.Mission.{LinkInput, CaptureInput}
use pane_fleet.Delivery.Verify.{VerifyInput}
use pane_fleet.Delivery.Close.{AbortInput}
use pane_fleet.Base.{
  text_eq, includes, is_digit, is_lower, is_upper, is_hex, is_space, trim_start, trim, starts_with,
  matches_id,
}
use pane_fleet.Delivery.Fields.{
  newlines, text, collapse, inline, is_control, assert_text, valid_timestamp, timestamp,
  date_before, is_digest, assert_digest, assert_optional_digest, lower_first, lower_rest,
  upper_first, upper_rest, run_id_pattern, plan_id_pattern, step_id_pattern, acceptance_id_pattern,
  evidence_id_pattern, verification_id_pattern, mission_id_pattern, outbox_id_pattern, unique_from,
  unique_strings, normalized_ids, normalized_unique_ids, slashes, add_head, segments, is_absolute,
  normalized_scope_path, scope_paths, normalized_scope_paths, delivery_run_mission_binding_key,
}
use pane_fleet.Delivery.Evidence.{
  evidence_type_set, evidence_outcome_set, validate_evidence, create_evidence, append_from,
  append_evidence,
}
use pane_fleet.Delivery.Validate.{
  expected_delivery_level, validate_header, evidence_ids_from, validate_evidence_index,
  verification_ids_from, validate_verification_index, validate_position, validate_tasks,
  validate_record, validate_delivery, validate_abort_part, validate_condition,
  validate_delivery_run,
}
use pane_fleet.Delivery.Validate.Tasks.{
  check_scope_paths, validate_task_scope, validate_captured, validate_implementation,
  validate_task_lifecycle, validate_task, validate_outbox,
}
use pane_fleet.Delivery.Validate.Records.{
  criterion_outcome_set, criterion_passed, check_criteria, validate_verification, evidence_by_id,
  validate_abort,
}
use pane_fleet.Delivery.Run.{
  normalized_step_id, current_task, outbox_for_task, update_task, update_outbox, next_revision,
  add_missing, refresh_delivery, assert_work_mutable,
}
use pane_fleet.Delivery.Create.{
  create_task, create_outbox, create_tasks, all_distinct, create_delivery_run,
}
use pane_fleet.Delivery.Mission.{
  link_next, link_delivery_run_mission, reconcile_next,
  mark_delivery_run_mission_reconcile_required, capture_next, capture_delivery_run_implementation,
}
use pane_fleet.Delivery.Verify.{
  check_references, normalized_criterion, distinct_count, outcome_of, set_at, release_following,
  after_outcome, verification_record, verify_next, record_delivery_run_verification,
}
use pane_fleet.Delivery.Close.{
  abort_task, cancel_item, abort_outbox, abort_outboxes, abort_next, abort_delivery_run, block_item,
  off_course_next, mark_delivery_run_off_course,
}

abbrev repeated : ℕ → ℕ → Text
repeated zero c = []
repeated (suc n) c = c ∷ repeated n c

abbrev digest : ℕ → Text
digest c = repeated 64 c

-- A time is one unit, the case mappings leave a text alone, and every digest is the same.
abbrev pub platform : Platform
platform = record {
  to_upper_case = λ s. s;
  to_lower_case = λ s. s;
  date_parse = λ s. elim s [ c ∷ rest ↦ elim rest [ [] ↦ some c | _ ↦ none ] | [] ↦ none ];
  to_iso_string = λ n. n ∷ [];
  path_normalize = λ s. s;
  canonical_sha256 = λ input. digest b'c';
  create_workspace_baseline = ok;
  validate_workspace_baseline = ok;
}

abbrev baseline : ℕ → Text → Baseline
baseline c at = record {
  version = 4;
  workspace = codes "/work";
  repo_root = codes "/work";
  workspace_prefix = [];
  digest = digest c;
  head = repeated 40 b'a';
  branch = codes "main";
  detached = false;
  working_tree_digest = digest c;
  instructions_digest = digest c;
  manifest_digest = digest c;
  status_digest = digest c;
  index_digest = digest c;
  index_flags_digest = digest c;
  git_metadata = record {
    repo_root = codes "/work";
    git_dir = codes "/work/.git";
    common_dir = codes "/work/.git";
    object_format = codes "sha1";
    head_ref = codes "refs/heads/main";
    sparse_checkout = false;
    sparse_index = false;
  };
  git_metadata_digest = digest c;
  approved_scopes = [];
  ignored_scope_digest = digest c;
  entries = [];
  instructions = [];
  captured_at = at;
}

abbrev task_input : Text → TaskInput
task_input step = record {
  step_id = step;
  step_digest = digest b'd';
  acceptance_ids = codes "AC-1" ∷ [];
  allowed_paths = codes "lib" ∷ [];
  mission_definition_digest = digest b'e';
}

abbrev pub run_input : RunInput
run_input = record {
  id = codes "run-aaaaaaaa";
  plan_id = codes "plan-aaaaaaaa";
  plan_revision = 1;
  plan_digest = digest b'f';
  workspace = codes "/work";
  start_baseline = baseline b'a' (codes "1");
  tasks = task_input (codes "STEP-1") ∷ task_input (codes "STEP-2") ∷ [];
}

abbrev pub link_input : LinkInput
link_input = record {
  step_id = codes "STEP-1";
  binding_key = digest b'c';
  mission_id = codes "mission-aaaaaaaa";
}

abbrev evidence : Text → Text → Text → Evidence
evidence id kind at = record {
  id = id;
  kind = kind;
  producer = codes "operator";
  outcome = codes "passed";
  summary = codes "seen";
  content_ref = [];
  content_sha256 = [];
  created_at = at;
}

abbrev pub capture_input : CaptureInput
capture_input = record {
  step_id = codes "STEP-1";
  mission_id = codes "mission-aaaaaaaa";
  baseline = baseline b'b' (codes "4");
  evidence = evidence (codes "EVD-DIFF") (codes "diff") (codes "4") ∷ [];
}

abbrev pub verify_input : VerifyInput
verify_input = record {
  id = codes "verification-aaaaaaaa";
  step_id = codes "STEP-1";
  mission_id = codes "mission-aaaaaaaa";
  baseline = baseline b'b' (codes "5");
  criteria =
      record {
        acceptance_id = codes "AC-1";
        outcome = codes "passed";
        evidence_ids = codes "EVD-TEST" ∷ [];
      }
      ∷ [];
  evidence = evidence (codes "EVD-TEST") (codes "test") (codes "5") ∷ [];
  evidence_ids = codes "EVD-TEST" ∷ [];
  note = codes "all criteria hold";
}

-- The states as literals: each equation below computes one operation from one of them.
abbrev task : ℕ → Text → TaskState → Task
task sequence step state = record {
  step_id = step;
  sequence = sequence;
  step_digest = digest b'd';
  acceptance_ids = codes "AC-1" ∷ [];
  allowed_paths = codes "lib" ∷ [];
  expected_baseline_digest = [];
  state = state;
  mission_binding_key = digest b'c';
  mission_definition_digest = digest b'e';
  mission_id = none;
  implementation = record { baseline = none; evidence_ids = []; captured_at = none };
  verification_id = none;
}

abbrev item : Text → OutboxState → Text → OutboxItem
item step state at = record {
  id = codes "outbox-cccccccccccccccccccccccccccccccc";
  kind = codes "mission.ensure";
  step_id = step;
  binding_key = digest b'c';
  payload_digest = digest b'e';
  state = state;
  mission_id = none;
  error = [];
  updated_at = at;
}

abbrev first_task : TaskState → Task
first_task state = record (task 0 (codes "STEP-1") state) { expected_baseline_digest = digest b'a' }

abbrev second_task : Task
second_task = task 1 (codes "STEP-2") TaskState.pending

abbrev held_item : OutboxItem
held_item = item (codes "STEP-2") OutboxState.held (codes "2")

abbrev pub created_run : Run
created_run = record {
  version = 1;
  id = codes "run-aaaaaaaa";
  revision = 1;
  plan_id = codes "plan-aaaaaaaa";
  plan_revision = 1;
  plan_digest = digest b'f';
  workspace = codes "/work";
  start_baseline = baseline b'a' (codes "1");
  condition = Condition.preparing;
  tasks = first_task TaskState.pending ∷ second_task ∷ [];
  outbox = item (codes "STEP-1") OutboxState.pending (codes "2") ∷ held_item ∷ [];
  evidence_index = [];
  verification_records = [];
  delivery = record { level = DeliveryLevel.planned; evidence_ids = []; updated_at = codes "2" };
  abort = none;
  blocker = [];
  created_at = codes "2";
  updated_at = codes "2";
}

abbrev linked_task : Task
linked_task = record (first_task TaskState.mission_linked) {
  mission_id = some (codes "mission-aaaaaaaa");
}

abbrev applied_item : OutboxItem
applied_item = record (item (codes "STEP-1") OutboxState.applied (codes "3")) {
  mission_id = some (codes "mission-aaaaaaaa");
}

abbrev pub linked_run : Run
linked_run = record created_run {
  revision = 2;
  condition = Condition.active;
  tasks = linked_task ∷ second_task ∷ [];
  outbox = applied_item ∷ held_item ∷ [];
  updated_at = codes "3";
}

abbrev captured_task : Task
captured_task = record linked_task {
  state = TaskState.implementation_captured;
  implementation = record {
    baseline = some (baseline b'b' (codes "4"));
    evidence_ids = codes "EVD-DIFF" ∷ [];
    captured_at = some (codes "4");
  };
}

abbrev pub captured_run : Run
captured_run = record linked_run {
  revision = 3;
  condition = Condition.awaiting_verification;
  tasks = captured_task ∷ second_task ∷ [];
  evidence_index = evidence (codes "EVD-DIFF") (codes "diff") (codes "4") ∷ [];
  delivery = record {
    level = DeliveryLevel.implemented_locally;
    evidence_ids = codes "EVD-DIFF" ∷ [];
    updated_at = codes "5";
  };
  updated_at = codes "5";
}

abbrev pub released_run : Run
released_run = record captured_run {
  revision = 4;
  condition = Condition.active;
  tasks =
      record captured_task {
        state = TaskState.verified;
        verification_id = some (codes "verification-aaaaaaaa");
      }
      ∷ record second_task { expected_baseline_digest = digest b'b' }
      ∷ [];
  outbox = applied_item ∷ item (codes "STEP-2") OutboxState.pending (codes "6") ∷ [];
  evidence_index =
      evidence (codes "EVD-DIFF") (codes "diff") (codes "4")
      ∷ evidence (codes "EVD-TEST") (codes "test") (codes "5")
      ∷ [];
  verification_records =
      record {
        id = codes "verification-aaaaaaaa";
        step_id = codes "STEP-1";
        plan_digest = digest b'f';
        implementation_mission_id = codes "mission-aaaaaaaa";
        verifier = codes "operator";
        criteria =
            record {
              acceptance_id = codes "AC-1";
              outcome = codes "passed";
              evidence_ids = codes "EVD-TEST" ∷ [];
            }
            ∷ [];
        outcome = passed;
        before_baseline_digest = digest b'b';
        after_baseline_digest = digest b'b';
        evidence_ids = codes "EVD-TEST" ∷ [];
        note = codes "all criteria hold";
        verified_at = codes "6";
      }
      ∷ [];
  delivery = record {
    level = DeliveryLevel.implemented_locally;
    evidence_ids = codes "EVD-DIFF" ∷ codes "EVD-TEST" ∷ [];
    updated_at = codes "6";
  };
  updated_at = codes "6";
}

abbrev stop_evidence : Evidence
stop_evidence = record (evidence (codes "EVD-STOP") (codes "review") (codes "7")) {
  outcome = codes "applied";
}

abbrev pub abort_input : AbortInput
abort_input = record {
  operator_confirmed = true;
  reason = codes "no longer wanted";
  evidence = stop_evidence ∷ [];
}

abbrev pub aborted_run : Run
aborted_run = record captured_run {
  revision = 4;
  condition = Condition.aborted;
  tasks =
      record captured_task { state = TaskState.aborted }
      ∷ record second_task { state = TaskState.aborted }
      ∷ [];
  outbox =
      applied_item
      ∷ record (item (codes "STEP-2") OutboxState.canceled (codes "7")) {
        error = codes "no longer wanted";
      }
      ∷ [];
  evidence_index = evidence (codes "EVD-DIFF") (codes "diff") (codes "4") ∷ stop_evidence ∷ [];
  delivery = record {
    level = DeliveryLevel.implemented_locally;
    evidence_ids = codes "EVD-DIFF" ∷ codes "EVD-STOP" ∷ [];
    updated_at = codes "7";
  };
  abort = some (record {
    operator_confirmed = true;
    from_condition = Condition.awaiting_verification;
    reason = codes "no longer wanted";
    evidence_ids = codes "EVD-STOP" ∷ [];
    aborted_at = codes "7";
  });
  blocker = codes "no longer wanted";
  updated_at = codes "7";
}

pub created_run-eq : create_delivery_run platform run_input (codes "2") ≡ ok created_run
unfolding text_eq includes is_digit is_lower is_upper is_hex is_space trim_start trim starts_with
    matches_id newlines text collapse inline is_control assert_text valid_timestamp timestamp
    date_before is_digest assert_digest assert_optional_digest lower_first lower_rest upper_first
    upper_rest run_id_pattern plan_id_pattern step_id_pattern acceptance_id_pattern
    evidence_id_pattern verification_id_pattern mission_id_pattern outbox_id_pattern unique_from
    unique_strings normalized_ids normalized_unique_ids slashes add_head segments is_absolute
    normalized_scope_path scope_paths normalized_scope_paths delivery_run_mission_binding_key
    evidence_type_set evidence_outcome_set validate_evidence create_evidence append_from
    append_evidence expected_delivery_level validate_header evidence_ids_from
    validate_evidence_index verification_ids_from validate_verification_index validate_position
    validate_tasks validate_record validate_delivery validate_abort_part validate_condition
    validate_delivery_run check_scope_paths validate_task_scope validate_captured
    validate_implementation validate_task_lifecycle validate_task validate_outbox
    criterion_outcome_set criterion_passed check_criteria validate_verification evidence_by_id
    validate_abort normalized_step_id current_task outbox_for_task update_task update_outbox
    next_revision add_missing refresh_delivery assert_work_mutable create_task create_outbox
    create_tasks all_distinct create_delivery_run link_next link_delivery_run_mission reconcile_next
    mark_delivery_run_mission_reconcile_required capture_next capture_delivery_run_implementation
    check_references normalized_criterion distinct_count outcome_of set_at release_following
    after_outcome verification_record verify_next record_delivery_run_verification abort_task
    cancel_item abort_outbox abort_outboxes abort_next abort_delivery_run block_item off_course_next
    mark_delivery_run_off_course
created_run-eq = refl

pub linked_run-eq :
    link_delivery_run_mission platform created_run link_input (codes "3") ≡ ok linked_run
unfolding text_eq includes is_digit is_lower is_upper is_hex is_space trim_start trim starts_with
    matches_id newlines text collapse inline is_control assert_text valid_timestamp timestamp
    date_before is_digest assert_digest assert_optional_digest lower_first lower_rest upper_first
    upper_rest run_id_pattern plan_id_pattern step_id_pattern acceptance_id_pattern
    evidence_id_pattern verification_id_pattern mission_id_pattern outbox_id_pattern unique_from
    unique_strings normalized_ids normalized_unique_ids slashes add_head segments is_absolute
    normalized_scope_path scope_paths normalized_scope_paths delivery_run_mission_binding_key
    evidence_type_set evidence_outcome_set validate_evidence create_evidence append_from
    append_evidence expected_delivery_level validate_header evidence_ids_from
    validate_evidence_index verification_ids_from validate_verification_index validate_position
    validate_tasks validate_record validate_delivery validate_abort_part validate_condition
    validate_delivery_run check_scope_paths validate_task_scope validate_captured
    validate_implementation validate_task_lifecycle validate_task validate_outbox
    criterion_outcome_set criterion_passed check_criteria validate_verification evidence_by_id
    validate_abort normalized_step_id current_task outbox_for_task update_task update_outbox
    next_revision add_missing refresh_delivery assert_work_mutable create_task create_outbox
    create_tasks all_distinct create_delivery_run link_next link_delivery_run_mission reconcile_next
    mark_delivery_run_mission_reconcile_required capture_next capture_delivery_run_implementation
    check_references normalized_criterion distinct_count outcome_of set_at release_following
    after_outcome verification_record verify_next record_delivery_run_verification abort_task
    cancel_item abort_outbox abort_outboxes abort_next abort_delivery_run block_item off_course_next
    mark_delivery_run_off_course
linked_run-eq = refl

pub captured_run-eq :
    capture_delivery_run_implementation platform linked_run capture_input (codes "5")
    ≡ ok captured_run
unfolding text_eq includes is_digit is_lower is_upper is_hex is_space trim_start trim starts_with
    matches_id newlines text collapse inline is_control assert_text valid_timestamp timestamp
    date_before is_digest assert_digest assert_optional_digest lower_first lower_rest upper_first
    upper_rest run_id_pattern plan_id_pattern step_id_pattern acceptance_id_pattern
    evidence_id_pattern verification_id_pattern mission_id_pattern outbox_id_pattern unique_from
    unique_strings normalized_ids normalized_unique_ids slashes add_head segments is_absolute
    normalized_scope_path scope_paths normalized_scope_paths delivery_run_mission_binding_key
    evidence_type_set evidence_outcome_set validate_evidence create_evidence append_from
    append_evidence expected_delivery_level validate_header evidence_ids_from
    validate_evidence_index verification_ids_from validate_verification_index validate_position
    validate_tasks validate_record validate_delivery validate_abort_part validate_condition
    validate_delivery_run check_scope_paths validate_task_scope validate_captured
    validate_implementation validate_task_lifecycle validate_task validate_outbox
    criterion_outcome_set criterion_passed check_criteria validate_verification evidence_by_id
    validate_abort normalized_step_id current_task outbox_for_task update_task update_outbox
    next_revision add_missing refresh_delivery assert_work_mutable create_task create_outbox
    create_tasks all_distinct create_delivery_run link_next link_delivery_run_mission reconcile_next
    mark_delivery_run_mission_reconcile_required capture_next capture_delivery_run_implementation
    check_references normalized_criterion distinct_count outcome_of set_at release_following
    after_outcome verification_record verify_next record_delivery_run_verification abort_task
    cancel_item abort_outbox abort_outboxes abort_next abort_delivery_run block_item off_course_next
    mark_delivery_run_off_course
captured_run-eq = refl

pub released_run-eq :
    record_delivery_run_verification platform captured_run verify_input (codes "6")
    ≡ ok released_run
unfolding text_eq includes is_digit is_lower is_upper is_hex is_space trim_start trim starts_with
    matches_id newlines text collapse inline is_control assert_text valid_timestamp timestamp
    date_before is_digest assert_digest assert_optional_digest lower_first lower_rest upper_first
    upper_rest run_id_pattern plan_id_pattern step_id_pattern acceptance_id_pattern
    evidence_id_pattern verification_id_pattern mission_id_pattern outbox_id_pattern unique_from
    unique_strings normalized_ids normalized_unique_ids slashes add_head segments is_absolute
    normalized_scope_path scope_paths normalized_scope_paths delivery_run_mission_binding_key
    evidence_type_set evidence_outcome_set validate_evidence create_evidence append_from
    append_evidence expected_delivery_level validate_header evidence_ids_from
    validate_evidence_index verification_ids_from validate_verification_index validate_position
    validate_tasks validate_record validate_delivery validate_abort_part validate_condition
    validate_delivery_run check_scope_paths validate_task_scope validate_captured
    validate_implementation validate_task_lifecycle validate_task validate_outbox
    criterion_outcome_set criterion_passed check_criteria validate_verification evidence_by_id
    validate_abort normalized_step_id current_task outbox_for_task update_task update_outbox
    next_revision add_missing refresh_delivery assert_work_mutable create_task create_outbox
    create_tasks all_distinct create_delivery_run link_next link_delivery_run_mission reconcile_next
    mark_delivery_run_mission_reconcile_required capture_next capture_delivery_run_implementation
    check_references normalized_criterion distinct_count outcome_of set_at release_following
    after_outcome verification_record verify_next record_delivery_run_verification abort_task
    cancel_item abort_outbox abort_outboxes abort_next abort_delivery_run block_item off_course_next
    mark_delivery_run_off_course
released_run-eq = refl

pub aborted_run-eq :
    abort_delivery_run platform captured_run abort_input (codes "7") ≡ ok aborted_run
unfolding text_eq includes is_digit is_lower is_upper is_hex is_space trim_start trim starts_with
    matches_id newlines text collapse inline is_control assert_text valid_timestamp timestamp
    date_before is_digest assert_digest assert_optional_digest lower_first lower_rest upper_first
    upper_rest run_id_pattern plan_id_pattern step_id_pattern acceptance_id_pattern
    evidence_id_pattern verification_id_pattern mission_id_pattern outbox_id_pattern unique_from
    unique_strings normalized_ids normalized_unique_ids slashes add_head segments is_absolute
    normalized_scope_path scope_paths normalized_scope_paths delivery_run_mission_binding_key
    evidence_type_set evidence_outcome_set validate_evidence create_evidence append_from
    append_evidence expected_delivery_level validate_header evidence_ids_from
    validate_evidence_index verification_ids_from validate_verification_index validate_position
    validate_tasks validate_record validate_delivery validate_abort_part validate_condition
    validate_delivery_run check_scope_paths validate_task_scope validate_captured
    validate_implementation validate_task_lifecycle validate_task validate_outbox
    criterion_outcome_set criterion_passed check_criteria validate_verification evidence_by_id
    validate_abort normalized_step_id current_task outbox_for_task update_task update_outbox
    next_revision add_missing refresh_delivery assert_work_mutable create_task create_outbox
    create_tasks all_distinct create_delivery_run link_next link_delivery_run_mission reconcile_next
    mark_delivery_run_mission_reconcile_required capture_next capture_delivery_run_implementation
    check_references normalized_criterion distinct_count outcome_of set_at release_following
    after_outcome verification_record verify_next record_delivery_run_verification abort_task
    cancel_item abort_outbox abort_outboxes abort_next abort_delivery_run block_item off_course_next
    mark_delivery_run_off_course
aborted_run-eq = refl
