-- ===== src/Samples/Plans.antt =====
-- A small plan of the delivery model in each of its phases, and the operations between them.
use pane_fleet.Base.{
  ◌≡◌, refl, ℕ, zero, suc, Bool, true, false, none, some, [], ◌∷◌, Text, codes, ok,
}
use pane_fleet.Plan.Types.{PlanHost, Phase, Roles, Approval, Gates, Plan}
use pane_fleet.Plan.Update.{PlanPatch}
use pane_fleet.Plan.Transition.{Conditions}
use pane_fleet.Plan.Envelope.{Envelope}
use pane_fleet.Samples.Runs.{platform}
use pane_fleet.Base.{
  text_eq, includes, is_digit, is_lower, is_upper, is_hex, is_space, trim_start, trim, starts_with,
  matches_id,
}
use pane_fleet.Delivery.Fields.{
  newlines, text, collapse, inline, is_control, valid_timestamp, date_before, is_digest,
  lower_first, lower_rest, upper_first, upper_rest, plan_id_pattern, step_id_pattern,
  acceptance_id_pattern, add_head, segments, is_absolute,
}
use pane_fleet.Plan.Canonical.{
  text_leb, insert_pair, sort_pairs, join, pair_text, pair_texts, canonical_json, canonical_sha256,
  text_items, canonical_serialize, serialized_items, serialized_pairs,
}
use pane_fleet.Plan.Normal.{
  normalized_lower, normalized_id, normalized_timestamp, add_once, strings_from,
  normalized_string_list, ids_from, normalized_id_list, normalized_baseline,
  normalized_classification, normalized_po, normalized_requirement, normalized_ba, normalized_step,
  normalized_dev, normalized_acceptance, normalized_qa, normalized_roles, normalized_approval,
  normalize_delivery_plan,
}
use pane_fleet.Plan.Checks.{
  assert_plan_text, assert_string_list, ids_unique, requirement_id_pattern, ends_with_slash,
  is_canonical_workspace, assert_scope_path,
}
use pane_fleet.Plan.Shape.{
  validate_plan_header, is_commit, validate_plan_baseline, intent_set, depth_set, risk_set,
  validate_classification, validate_role_texts, validate_role_lists, validate_requirements,
  validate_plan_step, validate_steps, validate_acceptance, validate_acceptances, is_valid_approval,
  validate_sections, validate_shape,
}
use pane_fleet.Plan.Discovery.{
  discovery_digest, delivery_plan_discovery_baseline, is_baseline,
  delivery_plan_has_discovery_baseline,
}
use pane_fleet.Plan.Ready.{
  finding_if, po_findings, baseline_findings, role_findings, all_open_questions, question_findings,
  step_ids_for, acceptance_ids_for, trace_of, trace_findings, step_findings, acceptance_findings,
  readiness_errors, name_if, elevated_names, readiness_warnings, lint_normalized_readiness,
  lint_delivery_plan_readiness,
}
use pane_fleet.Plan.Definition.{
  po_json, requirement_items, ba_json, step_items, dev_json, acceptance_items, qa_json, roles_json,
  baseline_json, classification_json, authority_json, definition_json, delivery_plan_definition,
  delivery_plan_digest,
}
use pane_fleet.Plan.Approval.{
  approval_status_unchecked, delivery_plan_approval_status, require_current, validate_phase,
  validate_delivery_plan, readiness_phase, invalidated, invalidate_delivery_plan_approval,
}
use pane_fleet.Plan.Legal.{phase_of, is_legal, is_execution_locked}
use pane_fleet.Plan.Transition.{
  is_expected, require_start, require_execution, require_completion, require_target, next_blocker,
  replanned_gates, next_gates, new_approval, next_approval, moved, check_transition,
  transition_delivery_plan,
}
use pane_fleet.Plan.Envelope.{
  line_break, bullet_list, find_step, requirements_of, criteria_of, expected_baseline, is_exact,
  allowed_names, forbidden_names, names_or_none, labelled, heading_lines, scope_lines, result_lines,
  envelope_of, compile_delivery_plan_execution_envelope,
}

abbrev repeated : ℕ → ℕ → Text
repeated zero c = []
repeated (suc n) c = c ∷ repeated n c

abbrev pub digest : Text
digest = repeated 64 b'c'

-- Every digest is the same, and the notation of a text or a number is the text or one unit.
abbrev pub host : PlanHost
host = record {
  platform = platform;
  sha256 = λ s. digest;
  stringify = λ s. s;
  decimal = λ n. n ∷ [];
  now = codes "1";
}

abbrev roles : Roles
roles = record {
  po = record {
    user = codes "u";
    problem = codes "p";
    outcome = codes "o";
    value = codes "v";
    non_goals = codes "n" ∷ [];
    assumptions = [];
    open_questions = [];
  };
  ba = record {
    requirements = record { id = codes "REQ-A"; text = codes "t" } ∷ [];
    dependencies = [];
    edge_cases = [];
    constraints = [];
    open_questions = [];
  };
  dev = record {
    architecture = codes "a";
    steps =
        record {
          id = codes "STEP-A";
          title = codes "t";
          outcome = codes "o";
          requirement_ids = codes "REQ-A" ∷ [];
          scope_paths = codes "s" ∷ [];
          checks = codes "c" ∷ [];
        }
        ∷ [];
    risks = [];
    rollback = codes "r";
    open_questions = [];
  };
  qa = record {
    acceptance_criteria =
        record { id = codes "AC-A"; text = codes "t"; requirement_ids = codes "REQ-A" ∷ [] } ∷ [];
    test_strategy = codes "t";
    regression_checks = codes "c" ∷ [];
    release_required = true;
    release_checks = codes "c" ∷ [];
    open_questions = [];
  };
}

-- The plan in a phase, at a revision, with an approval and gates.
abbrev pub plan_in : Phase → ℕ → Approval → Gates → Text → Plan
plan_in phase revision approval gates at = record {
  version = 1;
  id = codes "plan-abcdefgh";
  revision = revision;
  phase = phase;
  title = codes "t";
  request = codes "r";
  workspace = codes "/w";
  baseline = record {
    head = repeated 40 b'c';
    working_tree_digest = digest;
    instructions_digest = digest;
    captured_at = codes "1";
  };
  classification = record {
    intent = codes "change";
    depth = codes "quick";
    risk = codes "read_only";
    data_classes = [];
    mutation_surfaces = [];
  };
  roles = roles;
  unresolved_questions = [];
  authority = record {
    workspace_write = true;
    commit = false;
    push = false;
    deploy = false;
    network = false;
    service_control = false;
    destructive = false;
    external_messages = false;
  };
  approval = approval;
  gates = gates;
  blocker = [];
  created_at = codes "1";
  updated_at = at;
}

abbrev gates : Bool → Bool → Bool → Gates
gates captured passed released = record {
  implementation_captured = captured;
  qa_passed = passed;
  release_verified = released;
}

abbrev no_approval : Approval
no_approval = record { digest = []; approved_at = none; plan_revision = none }

abbrev approval : Approval
approval = record { digest = digest; approved_at = some (codes "2"); plan_revision = some 2 }

abbrev pub ready_plan : Plan
ready_plan = plan_in Phase.ready_for_approval 1 no_approval (gates false false false) (codes "1")

abbrev pub approved_plan : Plan
approved_plan = plan_in Phase.approved 2 approval (gates false false false) (codes "2")

abbrev pub executing_plan : Plan
executing_plan = plan_in Phase.executing 3 approval (gates false false false) (codes "3")

abbrev pub verifying_plan : Plan
verifying_plan = plan_in Phase.verifying 4 approval (gates true false false) (codes "4")

abbrev pub release_plan : Plan
release_plan = plan_in Phase.ready_to_release 5 approval (gates true true false) (codes "5")

abbrev pub done_plan : Plan
done_plan = plan_in Phase.done 6 approval (gates true true true) (codes "6")

abbrev pub granted : Text → Conditions
granted confirmation = record {
  expected_revision = none;
  confirmation = confirmation;
  reason = [];
  delivery_run_aborted = false;
  baseline_current = true;
  workspace_available = true;
  task_graph_ready = true;
  remediation_approved = true;
  implementation_result_captured = true;
  qa_passed = true;
  release_verified = true;
}

abbrev pub no_patch : PlanPatch
no_patch = record {
  title = none;
  request = none;
  workspace = none;
  unresolved_questions = none;
  baseline = none;
  classification = none;
  authority = none;
  po = none;
  ba = none;
  dev = none;
  qa = none;
}

pub approves-ready :
    transition_delivery_plan host ready_plan
      (codes "approved")
      (granted (codes "approve-plan"))
      (codes "2")
    ≡ ok approved_plan
unfolding text_eq includes is_digit is_lower is_upper is_hex is_space trim_start trim starts_with
    matches_id newlines text collapse inline is_control valid_timestamp date_before is_digest
    lower_first lower_rest upper_first upper_rest plan_id_pattern step_id_pattern
    acceptance_id_pattern add_head segments is_absolute text_leb insert_pair sort_pairs join
    pair_text pair_texts canonical_json canonical_sha256 text_items canonical_serialize
    serialized_items serialized_pairs normalized_lower normalized_id normalized_timestamp add_once
    strings_from normalized_string_list ids_from normalized_id_list normalized_baseline
    normalized_classification normalized_po normalized_requirement normalized_ba normalized_step
    normalized_dev normalized_acceptance normalized_qa normalized_roles normalized_approval
    normalize_delivery_plan assert_plan_text assert_string_list ids_unique requirement_id_pattern
    ends_with_slash is_canonical_workspace assert_scope_path validate_plan_header is_commit
    validate_plan_baseline intent_set depth_set risk_set validate_classification validate_role_texts
    validate_role_lists validate_requirements validate_plan_step validate_steps validate_acceptance
    validate_acceptances is_valid_approval validate_sections validate_shape finding_if
    discovery_digest delivery_plan_discovery_baseline is_baseline
    delivery_plan_has_discovery_baseline po_findings baseline_findings role_findings
    all_open_questions question_findings step_ids_for acceptance_ids_for trace_of trace_findings
    step_findings acceptance_findings readiness_errors name_if elevated_names readiness_warnings
    lint_normalized_readiness lint_delivery_plan_readiness po_json requirement_items ba_json
    step_items dev_json acceptance_items qa_json roles_json baseline_json classification_json
    authority_json definition_json delivery_plan_definition delivery_plan_digest
    approval_status_unchecked delivery_plan_approval_status require_current validate_phase
    validate_delivery_plan readiness_phase invalidated invalidate_delivery_plan_approval phase_of
    is_legal is_execution_locked is_expected require_start require_execution require_completion
    require_target next_blocker replanned_gates next_gates new_approval next_approval moved
    check_transition transition_delivery_plan
approves-ready = refl

pub starts-approved :
    transition_delivery_plan host approved_plan
      (codes "executing")
      (granted (codes "start-execution"))
      (codes "3")
    ≡ ok executing_plan
unfolding text_eq includes is_digit is_lower is_upper is_hex is_space trim_start trim starts_with
    matches_id newlines text collapse inline is_control valid_timestamp date_before is_digest
    lower_first lower_rest upper_first upper_rest plan_id_pattern step_id_pattern
    acceptance_id_pattern add_head segments is_absolute text_leb insert_pair sort_pairs join
    pair_text pair_texts canonical_json canonical_sha256 text_items canonical_serialize
    serialized_items serialized_pairs normalized_lower normalized_id normalized_timestamp add_once
    strings_from normalized_string_list ids_from normalized_id_list normalized_baseline
    normalized_classification normalized_po normalized_requirement normalized_ba normalized_step
    normalized_dev normalized_acceptance normalized_qa normalized_roles normalized_approval
    normalize_delivery_plan assert_plan_text assert_string_list ids_unique requirement_id_pattern
    ends_with_slash is_canonical_workspace assert_scope_path validate_plan_header is_commit
    validate_plan_baseline intent_set depth_set risk_set validate_classification validate_role_texts
    validate_role_lists validate_requirements validate_plan_step validate_steps validate_acceptance
    validate_acceptances is_valid_approval validate_sections validate_shape finding_if
    discovery_digest delivery_plan_discovery_baseline is_baseline
    delivery_plan_has_discovery_baseline po_findings baseline_findings role_findings
    all_open_questions question_findings step_ids_for acceptance_ids_for trace_of trace_findings
    step_findings acceptance_findings readiness_errors name_if elevated_names readiness_warnings
    lint_normalized_readiness lint_delivery_plan_readiness po_json requirement_items ba_json
    step_items dev_json acceptance_items qa_json roles_json baseline_json classification_json
    authority_json definition_json delivery_plan_definition delivery_plan_digest
    approval_status_unchecked delivery_plan_approval_status require_current validate_phase
    validate_delivery_plan readiness_phase invalidated invalidate_delivery_plan_approval phase_of
    is_legal is_execution_locked is_expected require_start require_execution require_completion
    require_target next_blocker replanned_gates next_gates new_approval next_approval moved
    check_transition transition_delivery_plan
starts-approved = refl

pub captures-executing :
    transition_delivery_plan host executing_plan
      (codes "verifying")
      (granted (codes ""))
      (codes "4")
    ≡ ok verifying_plan
unfolding text_eq includes is_digit is_lower is_upper is_hex is_space trim_start trim starts_with
    matches_id newlines text collapse inline is_control valid_timestamp date_before is_digest
    lower_first lower_rest upper_first upper_rest plan_id_pattern step_id_pattern
    acceptance_id_pattern add_head segments is_absolute text_leb insert_pair sort_pairs join
    pair_text pair_texts canonical_json canonical_sha256 text_items canonical_serialize
    serialized_items serialized_pairs normalized_lower normalized_id normalized_timestamp add_once
    strings_from normalized_string_list ids_from normalized_id_list normalized_baseline
    normalized_classification normalized_po normalized_requirement normalized_ba normalized_step
    normalized_dev normalized_acceptance normalized_qa normalized_roles normalized_approval
    normalize_delivery_plan assert_plan_text assert_string_list ids_unique requirement_id_pattern
    ends_with_slash is_canonical_workspace assert_scope_path validate_plan_header is_commit
    validate_plan_baseline intent_set depth_set risk_set validate_classification validate_role_texts
    validate_role_lists validate_requirements validate_plan_step validate_steps validate_acceptance
    validate_acceptances is_valid_approval validate_sections validate_shape finding_if
    discovery_digest delivery_plan_discovery_baseline is_baseline
    delivery_plan_has_discovery_baseline po_findings baseline_findings role_findings
    all_open_questions question_findings step_ids_for acceptance_ids_for trace_of trace_findings
    step_findings acceptance_findings readiness_errors name_if elevated_names readiness_warnings
    lint_normalized_readiness lint_delivery_plan_readiness po_json requirement_items ba_json
    step_items dev_json acceptance_items qa_json roles_json baseline_json classification_json
    authority_json definition_json delivery_plan_definition delivery_plan_digest
    approval_status_unchecked delivery_plan_approval_status require_current validate_phase
    validate_delivery_plan readiness_phase invalidated invalidate_delivery_plan_approval phase_of
    is_legal is_execution_locked is_expected require_start require_execution require_completion
    require_target next_blocker replanned_gates next_gates new_approval next_approval moved
    check_transition transition_delivery_plan
captures-executing = refl

pub passes-verifying :
    transition_delivery_plan host verifying_plan
      (codes "ready_to_release")
      (granted (codes ""))
      (codes "5")
    ≡ ok release_plan
unfolding text_eq includes is_digit is_lower is_upper is_hex is_space trim_start trim starts_with
    matches_id newlines text collapse inline is_control valid_timestamp date_before is_digest
    lower_first lower_rest upper_first upper_rest plan_id_pattern step_id_pattern
    acceptance_id_pattern add_head segments is_absolute text_leb insert_pair sort_pairs join
    pair_text pair_texts canonical_json canonical_sha256 text_items canonical_serialize
    serialized_items serialized_pairs normalized_lower normalized_id normalized_timestamp add_once
    strings_from normalized_string_list ids_from normalized_id_list normalized_baseline
    normalized_classification normalized_po normalized_requirement normalized_ba normalized_step
    normalized_dev normalized_acceptance normalized_qa normalized_roles normalized_approval
    normalize_delivery_plan assert_plan_text assert_string_list ids_unique requirement_id_pattern
    ends_with_slash is_canonical_workspace assert_scope_path validate_plan_header is_commit
    validate_plan_baseline intent_set depth_set risk_set validate_classification validate_role_texts
    validate_role_lists validate_requirements validate_plan_step validate_steps validate_acceptance
    validate_acceptances is_valid_approval validate_sections validate_shape finding_if
    discovery_digest delivery_plan_discovery_baseline is_baseline
    delivery_plan_has_discovery_baseline po_findings baseline_findings role_findings
    all_open_questions question_findings step_ids_for acceptance_ids_for trace_of trace_findings
    step_findings acceptance_findings readiness_errors name_if elevated_names readiness_warnings
    lint_normalized_readiness lint_delivery_plan_readiness po_json requirement_items ba_json
    step_items dev_json acceptance_items qa_json roles_json baseline_json classification_json
    authority_json definition_json delivery_plan_definition delivery_plan_digest
    approval_status_unchecked delivery_plan_approval_status require_current validate_phase
    validate_delivery_plan readiness_phase invalidated invalidate_delivery_plan_approval phase_of
    is_legal is_execution_locked is_expected require_start require_execution require_completion
    require_target next_blocker replanned_gates next_gates new_approval next_approval moved
    check_transition transition_delivery_plan
passes-verifying = refl

pub completes-release :
    transition_delivery_plan host release_plan
      (codes "done")
      (granted (codes "complete-plan"))
      (codes "6")
    ≡ ok done_plan
unfolding text_eq includes is_digit is_lower is_upper is_hex is_space trim_start trim starts_with
    matches_id newlines text collapse inline is_control valid_timestamp date_before is_digest
    lower_first lower_rest upper_first upper_rest plan_id_pattern step_id_pattern
    acceptance_id_pattern add_head segments is_absolute text_leb insert_pair sort_pairs join
    pair_text pair_texts canonical_json canonical_sha256 text_items canonical_serialize
    serialized_items serialized_pairs normalized_lower normalized_id normalized_timestamp add_once
    strings_from normalized_string_list ids_from normalized_id_list normalized_baseline
    normalized_classification normalized_po normalized_requirement normalized_ba normalized_step
    normalized_dev normalized_acceptance normalized_qa normalized_roles normalized_approval
    normalize_delivery_plan assert_plan_text assert_string_list ids_unique requirement_id_pattern
    ends_with_slash is_canonical_workspace assert_scope_path validate_plan_header is_commit
    validate_plan_baseline intent_set depth_set risk_set validate_classification validate_role_texts
    validate_role_lists validate_requirements validate_plan_step validate_steps validate_acceptance
    validate_acceptances is_valid_approval validate_sections validate_shape finding_if
    discovery_digest delivery_plan_discovery_baseline is_baseline
    delivery_plan_has_discovery_baseline po_findings baseline_findings role_findings
    all_open_questions question_findings step_ids_for acceptance_ids_for trace_of trace_findings
    step_findings acceptance_findings readiness_errors name_if elevated_names readiness_warnings
    lint_normalized_readiness lint_delivery_plan_readiness po_json requirement_items ba_json
    step_items dev_json acceptance_items qa_json roles_json baseline_json classification_json
    authority_json definition_json delivery_plan_definition delivery_plan_digest
    approval_status_unchecked delivery_plan_approval_status require_current validate_phase
    validate_delivery_plan readiness_phase invalidated invalidate_delivery_plan_approval phase_of
    is_legal is_execution_locked is_expected require_start require_execution require_completion
    require_target next_blocker replanned_gates next_gates new_approval next_approval moved
    check_transition transition_delivery_plan
completes-release = refl

pub valid-done : validate_delivery_plan host done_plan ≡ ok done_plan
unfolding text_eq includes is_digit is_lower is_upper is_hex is_space trim_start trim starts_with
    matches_id newlines text collapse inline is_control valid_timestamp date_before is_digest
    lower_first lower_rest upper_first upper_rest plan_id_pattern step_id_pattern
    acceptance_id_pattern add_head segments is_absolute text_leb insert_pair sort_pairs join
    pair_text pair_texts canonical_json canonical_sha256 text_items canonical_serialize
    serialized_items serialized_pairs normalized_lower normalized_id normalized_timestamp add_once
    strings_from normalized_string_list ids_from normalized_id_list normalized_baseline
    normalized_classification normalized_po normalized_requirement normalized_ba normalized_step
    normalized_dev normalized_acceptance normalized_qa normalized_roles normalized_approval
    normalize_delivery_plan assert_plan_text assert_string_list ids_unique requirement_id_pattern
    ends_with_slash is_canonical_workspace assert_scope_path validate_plan_header is_commit
    validate_plan_baseline intent_set depth_set risk_set validate_classification validate_role_texts
    validate_role_lists validate_requirements validate_plan_step validate_steps validate_acceptance
    validate_acceptances is_valid_approval validate_sections validate_shape finding_if
    discovery_digest delivery_plan_discovery_baseline is_baseline
    delivery_plan_has_discovery_baseline po_findings baseline_findings role_findings
    all_open_questions question_findings step_ids_for acceptance_ids_for trace_of trace_findings
    step_findings acceptance_findings readiness_errors name_if elevated_names readiness_warnings
    lint_normalized_readiness lint_delivery_plan_readiness po_json requirement_items ba_json
    step_items dev_json acceptance_items qa_json roles_json baseline_json classification_json
    authority_json definition_json delivery_plan_definition delivery_plan_digest
    approval_status_unchecked delivery_plan_approval_status require_current validate_phase
    validate_delivery_plan readiness_phase invalidated invalidate_delivery_plan_approval phase_of
    is_legal is_execution_locked is_expected require_start require_execution require_completion
    require_target next_blocker replanned_gates next_gates new_approval next_approval moved
    check_transition transition_delivery_plan
valid-done = refl

pub valid-executing : validate_delivery_plan host executing_plan ≡ ok executing_plan
unfolding text_eq includes is_digit is_lower is_upper is_hex is_space trim_start trim starts_with
    matches_id newlines text collapse inline is_control valid_timestamp date_before is_digest
    lower_first lower_rest upper_first upper_rest plan_id_pattern step_id_pattern
    acceptance_id_pattern add_head segments is_absolute text_leb insert_pair sort_pairs join
    pair_text pair_texts canonical_json canonical_sha256 text_items canonical_serialize
    serialized_items serialized_pairs normalized_lower normalized_id normalized_timestamp add_once
    strings_from normalized_string_list ids_from normalized_id_list normalized_baseline
    normalized_classification normalized_po normalized_requirement normalized_ba normalized_step
    normalized_dev normalized_acceptance normalized_qa normalized_roles normalized_approval
    normalize_delivery_plan assert_plan_text assert_string_list ids_unique requirement_id_pattern
    ends_with_slash is_canonical_workspace assert_scope_path validate_plan_header is_commit
    validate_plan_baseline intent_set depth_set risk_set validate_classification validate_role_texts
    validate_role_lists validate_requirements validate_plan_step validate_steps validate_acceptance
    validate_acceptances is_valid_approval validate_sections validate_shape finding_if
    discovery_digest delivery_plan_discovery_baseline is_baseline
    delivery_plan_has_discovery_baseline po_findings baseline_findings role_findings
    all_open_questions question_findings step_ids_for acceptance_ids_for trace_of trace_findings
    step_findings acceptance_findings readiness_errors name_if elevated_names readiness_warnings
    lint_normalized_readiness lint_delivery_plan_readiness po_json requirement_items ba_json
    step_items dev_json acceptance_items qa_json roles_json baseline_json classification_json
    authority_json definition_json delivery_plan_definition delivery_plan_digest
    approval_status_unchecked delivery_plan_approval_status require_current validate_phase
    validate_delivery_plan readiness_phase invalidated invalidate_delivery_plan_approval phase_of
    is_legal is_execution_locked is_expected require_start require_execution require_completion
    require_target next_blocker replanned_gates next_gates new_approval next_approval moved
    check_transition transition_delivery_plan
valid-executing = refl

abbrev pub envelope : Envelope
envelope =
    envelope_of host approved_plan
      (record {
        id = codes "STEP-A";
        title = codes "t";
        outcome = codes "o";
        requirement_ids = codes "REQ-A" ∷ [];
        scope_paths = codes "s" ∷ [];
        checks = codes "c" ∷ [];
      })
      digest (expected_baseline host approved_plan.baseline none)

pub compiles-approved :
    compile_delivery_plan_execution_envelope host approved_plan (codes "STEP-A") 4000 none
    ≡ ok envelope
unfolding text_eq includes is_digit is_lower is_upper is_hex is_space trim_start trim starts_with
    matches_id newlines text collapse inline is_control valid_timestamp date_before is_digest
    lower_first lower_rest upper_first upper_rest plan_id_pattern step_id_pattern
    acceptance_id_pattern add_head segments is_absolute text_leb insert_pair sort_pairs join
    pair_text pair_texts canonical_json canonical_sha256 text_items canonical_serialize
    serialized_items serialized_pairs normalized_lower normalized_id normalized_timestamp add_once
    strings_from normalized_string_list ids_from normalized_id_list normalized_baseline
    normalized_classification normalized_po normalized_requirement normalized_ba normalized_step
    normalized_dev normalized_acceptance normalized_qa normalized_roles normalized_approval
    normalize_delivery_plan assert_plan_text assert_string_list ids_unique requirement_id_pattern
    ends_with_slash is_canonical_workspace assert_scope_path validate_plan_header is_commit
    validate_plan_baseline intent_set depth_set risk_set validate_classification validate_role_texts
    validate_role_lists validate_requirements validate_plan_step validate_steps validate_acceptance
    validate_acceptances is_valid_approval validate_sections validate_shape finding_if
    discovery_digest delivery_plan_discovery_baseline is_baseline
    delivery_plan_has_discovery_baseline po_findings baseline_findings role_findings
    all_open_questions question_findings step_ids_for acceptance_ids_for trace_of trace_findings
    step_findings acceptance_findings readiness_errors name_if elevated_names readiness_warnings
    lint_normalized_readiness lint_delivery_plan_readiness po_json requirement_items ba_json
    step_items dev_json acceptance_items qa_json roles_json baseline_json classification_json
    authority_json definition_json delivery_plan_definition delivery_plan_digest
    approval_status_unchecked delivery_plan_approval_status require_current validate_phase
    validate_delivery_plan readiness_phase invalidated invalidate_delivery_plan_approval phase_of
    is_legal is_execution_locked is_expected require_start require_execution require_completion
    require_target next_blocker replanned_gates next_gates new_approval next_approval moved
    check_transition transition_delivery_plan line_break bullet_list find_step requirements_of
    criteria_of expected_baseline is_exact allowed_names forbidden_names names_or_none labelled
    heading_lines scope_lines result_lines envelope_of compile_delivery_plan_execution_envelope
compiles-approved = refl
