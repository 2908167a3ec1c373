-- ===== src/Plan/Shape.antt =====
-- validateShape of delivery-plan.js, lines 299 to 401: the checks before those on the phase. The types
-- of texts, lists, flags and numbers are checked by the model's types.
use pane_fleet.Base.{
  ℕ, Bool, true, false, not, ◌&&◌, ◌||◌, Option, none, some, List, [], ◌∷◌, map, leb, ◌==◌, length,
  every, Text, codes, text_eq, includes, is_empty, is_hex, Result, ok, ◌>>◌, guard, for_each,
}
use pane_fleet.Delivery.Fields.{
  max_safe_integer, is_digest, valid_timestamp, date_before, plan_id_pattern, step_id_pattern,
  acceptance_id_pattern,
}
use pane_fleet.Plan.Types.{
  PlanError, version_unsupported, id_invalid, revision_invalid, workspace_invalid,
  timestamp_invalid, baseline_head_invalid, baseline_digest_invalid, baseline_timestamp_invalid,
  classification_intent_invalid, classification_depth_invalid, classification_risk_invalid,
  requirements_invalid, steps_invalid, step_requirement_unknown, acceptance_criteria_invalid,
  acceptance_requirement_unknown, approval_invalid, PlanHost, Plan, PlanBaseline, Classification,
  Roles, Requirement, PlanStep, Acceptance, Approval,
}
use pane_fleet.Plan.Checks.{
  assert_plan_text, assert_scope_path, assert_string_list, ids_unique, is_canonical_workspace,
  requirement_id_pattern,
}

-- Lines 300 to 315.
unfoldable pub validate_plan_header : PlanHost → Plan → Result PlanError (Unit {0})
validate_plan_header host plan = do
  guard (plan.version == 1) version_unsupported
  guard (plan_id_pattern plan.id) id_invalid
  guard (leb 1 plan.revision && leb plan.revision max_safe_integer) revision_invalid
  assert_plan_text plan.title (codes "title") true 160
  assert_plan_text plan.request (codes "request") true 4000
  assert_plan_text plan.workspace (codes "workspace") false 4096
  guard (is_empty plan.workspace || is_canonical_workspace host plan.workspace) workspace_invalid
  assert_plan_text plan.blocker (codes "blocker") false 800
  guard
      (valid_timestamp host.platform plan.created_at
        && valid_timestamp host.platform plan.updated_at
        && not (date_before host.platform plan.updated_at plan.created_at))
      timestamp_invalid

-- /^[a-f0-9]{7,64}$/
unfoldable pub is_commit : Text → Bool
is_commit s = leb 7 (length s) && leb (length s) 64 && every is_hex s

unfoldable pub validate_plan_baseline : PlanHost → PlanBaseline → Result PlanError (Unit {0})
validate_plan_baseline host baseline = do
  assert_plan_text baseline.head (codes "baseline_head") false 80
  guard
      (is_empty baseline.head || text_eq baseline.head (codes "unborn") || is_commit baseline.head)
      baseline_head_invalid
  assert_plan_text baseline.working_tree_digest (codes "baseline_workingTreeDigest") false 64
  guard (is_empty baseline.working_tree_digest || is_digest baseline.working_tree_digest)
      baseline_digest_invalid
  assert_plan_text baseline.instructions_digest (codes "baseline_instructionsDigest") false 64
  guard (is_empty baseline.instructions_digest || is_digest baseline.instructions_digest)
      baseline_digest_invalid
  guard (is_empty baseline.captured_at || valid_timestamp host.platform baseline.captured_at)
      baseline_timestamp_invalid

unfoldable pub intent_set : List Text
intent_set =
    codes "answer"
    ∷ codes "review"
    ∷ codes "diagnose"
    ∷ codes "change"
    ∷ codes "build"
    ∷ codes "publish"
    ∷ codes "live_operation"
    ∷ []

unfoldable pub depth_set : List Text
depth_set = codes "quick" ∷ codes "standard" ∷ codes "high_risk" ∷ []

unfoldable pub risk_set : List Text
risk_set =
    codes "read_only"
    ∷ codes "local_reversible"
    ∷ codes "external_reversible"
    ∷ codes "live_or_destructive"
    ∷ []

unfoldable pub validate_classification : Classification → Result PlanError (Unit {0})
validate_classification c = do
  guard (is_empty c.intent || includes intent_set c.intent) classification_intent_invalid
  guard (is_empty c.depth || includes depth_set c.depth) classification_depth_invalid
  guard (is_empty c.risk || includes risk_set c.risk) classification_risk_invalid
  assert_string_list c.data_classes (codes "classification_data_classes") 100 800
  assert_string_list c.mutation_surfaces (codes "classification_mutation_surfaces") 100 800

-- Lines 336 to 344, and lines 345 to 359.
unfoldable pub validate_role_texts : Roles → Result PlanError (Unit {0})
validate_role_texts roles = do
  assert_plan_text roles.po.user (codes "po_user") false 1600
  assert_plan_text roles.po.problem (codes "po_problem") false 1600
  assert_plan_text roles.po.outcome (codes "po_outcome") false 1600
  assert_plan_text roles.po.value (codes "po_value") false 1600
  assert_plan_text roles.dev.architecture (codes "dev_architecture") false 1600
  assert_plan_text roles.dev.rollback (codes "dev_rollback") false 1600
  assert_plan_text roles.qa.test_strategy (codes "qa_test_strategy") false 1600

unfoldable pub validate_role_lists : Plan → Result PlanError (Unit {0})
validate_role_lists plan = do
  assert_string_list plan.roles.po.non_goals (codes "po_non_goals") 100 800
  assert_string_list plan.roles.po.assumptions (codes "po_assumptions") 100 800
  assert_string_list plan.roles.po.open_questions (codes "po_open_questions") 100 800
  assert_string_list plan.roles.ba.dependencies (codes "ba_dependencies") 100 800
  assert_string_list plan.roles.ba.edge_cases (codes "ba_edge_cases") 100 800
  assert_string_list plan.roles.ba.constraints (codes "ba_constraints") 100 800
  assert_string_list plan.roles.ba.open_questions (codes "ba_open_questions") 100 800
  assert_string_list plan.roles.dev.risks (codes "dev_risks") 100 800
  assert_string_list plan.roles.dev.open_questions (codes "dev_open_questions") 100 800
  assert_string_list plan.roles.qa.regression_checks (codes "qa_regression_checks") 100 800
  assert_string_list plan.roles.qa.release_checks (codes "qa_release_checks") 100 800
  assert_string_list plan.roles.qa.open_questions (codes "qa_open_questions") 100 800
  assert_string_list plan.unresolved_questions (codes "unresolved_questions") 100 800

abbrev pub requirement_ids_of : List Requirement → List Text
requirement_ids_of = map (λ (r : Requirement). r.id)

unfoldable pub validate_requirements : List Requirement → Result PlanError (Unit {0})
validate_requirements requirements = do
  guard (leb (length requirements) 80) requirements_invalid
  ids_unique (codes "requirement_id") requirement_id_pattern [] (requirement_ids_of requirements)
  for_each (λ (r : Requirement). assert_plan_text r.text (codes "requirement_text") true 800)
      requirements

unfoldable pub validate_plan_step : PlanHost → List Text → PlanStep → Result PlanError (Unit {0})
validate_plan_step host requirement_ids step = do
  assert_plan_text step.title (codes "step_title") true 160
  assert_plan_text step.outcome (codes "step_outcome") true 800
  assert_string_list step.requirement_ids (codes "step_requirement_ids") 80 44
  guard (every (includes requirement_ids) step.requirement_ids) step_requirement_unknown
  assert_string_list step.scope_paths (codes "step_scope_paths") 100 512
  for_each (assert_scope_path host) step.scope_paths
  assert_string_list step.checks (codes "step_checks") 100 800

unfoldable pub validate_steps : PlanHost → List Text → List PlanStep → Result PlanError (Unit {0})
validate_steps host requirement_ids steps = do
  guard (leb (length steps) 80) steps_invalid
  ids_unique (codes "step_id") step_id_pattern [] (map (λ (s : PlanStep). s.id) steps)
  for_each (validate_plan_step host requirement_ids) steps

unfoldable pub validate_acceptance : List Text → Acceptance → Result PlanError (Unit {0})
validate_acceptance requirement_ids criterion = do
  assert_plan_text criterion.text (codes "acceptance_text") true 800
  assert_string_list criterion.requirement_ids (codes "acceptance_requirement_ids") 80 44
  guard (every (includes requirement_ids) criterion.requirement_ids) acceptance_requirement_unknown

unfoldable pub validate_acceptances : List Text → List Acceptance → Result PlanError (Unit {0})
validate_acceptances requirement_ids criteria = do
  guard (leb (length criteria) 120) acceptance_criteria_invalid
  ids_unique (codes "acceptance_id") acceptance_id_pattern []
      (map (λ (c : Acceptance). c.id) criteria)
  for_each (validate_acceptance requirement_ids) criteria

-- Lines 391 to 397.
abbrev or_empty : Option Text → Text
or_empty none = []
or_empty (some at) = at

abbrev valid_revision : Option ℕ → Bool
valid_revision none = false
valid_revision (some revision) = leb 1 revision && leb revision max_safe_integer

abbrev is_absent : Option ℕ → Bool
is_absent none = true
is_absent (some revision) = false

unfoldable pub is_valid_approval : PlanHost → Approval → Bool
is_valid_approval host approval =
    (is_empty approval.digest
      && is_empty (or_empty approval.approved_at)
      && is_absent approval.plan_revision)
    || (is_digest approval.digest
        && valid_timestamp host.platform (or_empty approval.approved_at)
        && valid_revision approval.plan_revision)

-- Lines 300 to 389: all but the approval.
unfoldable pub validate_sections : PlanHost → Plan → Result PlanError (Unit {0})
validate_sections host plan =
    let requirement_ids = requirement_ids_of plan.roles.ba.requirements in
    do
      validate_plan_header host plan
      validate_plan_baseline host plan.baseline
      validate_classification plan.classification
      validate_role_texts plan.roles
      validate_role_lists plan
      validate_requirements plan.roles.ba.requirements
      validate_steps host requirement_ids plan.roles.dev.steps
      validate_acceptances requirement_ids plan.roles.qa.acceptance_criteria

-- validateShape(plan, { enforcePhase: false })
unfoldable pub validate_shape : PlanHost → Plan → Result PlanError Plan
validate_shape host plan = do
  validate_sections host plan
  guard (is_valid_approval host plan.approval) approval_invalid
  ok plan
