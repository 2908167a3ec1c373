-- ===== src/Plan/Ready.antt =====
-- The readiness of a plan for approval: lintNormalizedReadiness of delivery-plan.js, lines 427 to 500.
pub mod Traced
use pane_fleet.Base.{
  ℕ, Bool, true, false, not, ◌&&◌, ◌||◌, List, [], ◌∷◌, ◌++◌, map, filter, length, Text, codes,
  text_eq, includes, is_empty, Result, ok, err, ◌>>=◌, ◌>>◌, guard, if◌then◌else◌,
}
use pane_fleet.Delivery.Fields.{inline}
use pane_fleet.Delivery.Validate.Tasks.{is_nil}
use pane_fleet.Plan.Types.{
  PlanHost, PlanError, workspace_invalid, Plan, PlanBaseline, Roles, Po, Ba, Dev, Qa, Requirement,
  PlanStep, Acceptance, Authority,
}
use pane_fleet.Plan.Canonical.{
  Json, json_number, json_text, json_object, member, no_members, canonical_sha256, join,
}
use pane_fleet.Plan.Normal.{normalize_delivery_plan, normalized_timestamp}
use pane_fleet.Plan.Checks.{is_canonical_workspace}
use pane_fleet.Plan.Shape.{validate_shape}
use pane_fleet.Plan.Discovery.{
  delivery_plan_discovery_baseline, delivery_plan_has_discovery_baseline, discovery_digest,
  is_baseline,
}

pub record Finding : Type 0 where
  pub code : Text
  pub path : Text
  pub message : Text

-- if (test) addFinding(findings, code, path, message)
unfoldable pub finding_if : Bool → Text → Text → Text → List Finding
finding_if test code path message =
    if test then record { code = code; path = path; message = message } ∷ [] else []

-- Lines 435 to 443.
unfoldable pub po_findings : Po → List Finding
po_findings po =
    finding_if (is_empty po.user) (codes "po_user_missing") (codes "roles.po.user")
      (codes "PO user is required.")
    ++ finding_if (is_empty po.problem) (codes "po_problem_missing") (codes "roles.po.problem")
        (codes "PO problem is required.")
    ++ finding_if (is_empty po.outcome) (codes "po_outcome_missing") (codes "roles.po.outcome")
        (codes "PO outcome is required.")
    ++ finding_if (is_empty po.value) (codes "po_value_missing") (codes "roles.po.value")
        (codes "PO value is required.")
    ++ finding_if (is_nil po.non_goals) (codes "po_non_goals_missing") (codes "roles.po.nonGoals")
        (codes "At least one explicit non-goal is required.")

-- Lines 444 to 454.
unfoldable pub baseline_findings : PlanHost → Plan → List Finding
baseline_findings host plan =
    finding_if (is_empty plan.workspace) (codes "workspace_missing") (codes "workspace")
      (codes "A canonical workspace is required.")
    ++ finding_if (is_empty plan.baseline.head) (codes "baseline_head_missing")
        (codes "baseline.head") (codes "The Git baseline is required.")
    ++ finding_if (is_empty plan.baseline.working_tree_digest) (codes "baseline_worktree_missing")
        (codes "baseline.workingTreeDigest")
        (codes "The recognized working-tree baseline is required.")
    ++ finding_if (is_empty plan.baseline.instructions_digest)
        (codes "baseline_instructions_missing") (codes "baseline.instructionsDigest")
        (codes "The project-instruction baseline is required.")
    ++ finding_if (is_empty plan.baseline.captured_at) (codes "baseline_timestamp_missing")
        (codes "baseline.capturedAt") (codes "The baseline capture time is required.")
    ++ finding_if (delivery_plan_has_discovery_baseline host plan) (codes "baseline_discovery_only")
        (codes "baseline")
        (codes
          "Connect a real Git workspace baseline before approval or coding. The discovery workshop may continue.")
    ++ finding_if (is_empty plan.classification.intent) (codes "classification_intent_missing")
        (codes "classification.intent") (codes "The requested action class is required.")
    ++ finding_if (is_empty plan.classification.depth) (codes "classification_depth_missing")
        (codes "classification.depth") (codes "The planning depth is required.")
    ++ finding_if (is_empty plan.classification.risk) (codes "classification_risk_missing")
        (codes "classification.risk") (codes "The mutation risk class is required.")

-- Lines 455 to 464.
unfoldable pub role_findings : Roles → List Finding
role_findings roles =
    finding_if (is_nil roles.ba.requirements) (codes "ba_requirements_missing")
      (codes "roles.ba.requirements") (codes "At least one numbered requirement is required.")
    ++ finding_if (is_empty roles.dev.architecture) (codes "dev_architecture_missing")
        (codes "roles.dev.architecture") (codes "A bounded technical approach is required.")
    ++ finding_if (is_nil roles.dev.steps) (codes "dev_steps_missing") (codes "roles.dev.steps")
        (codes "At least one implementation step is required.")
    ++ finding_if (is_empty roles.dev.rollback) (codes "dev_rollback_missing")
        (codes "roles.dev.rollback") (codes "A rollback or safe-abort strategy is required.")
    ++ finding_if (is_nil roles.qa.acceptance_criteria) (codes "qa_acceptance_missing")
        (codes "roles.qa.acceptanceCriteria")
        (codes "At least one acceptance criterion is required.")
    ++ finding_if (is_empty roles.qa.test_strategy) (codes "qa_test_strategy_missing")
        (codes "roles.qa.testStrategy") (codes "A test strategy is required.")
    ++ finding_if (is_nil roles.qa.regression_checks) (codes "qa_regression_missing")
        (codes "roles.qa.regressionChecks") (codes "At least one regression check is required.")
    ++ finding_if (roles.qa.release_required && is_nil roles.qa.release_checks)
        (codes "qa_release_checks_missing") (codes "roles.qa.releaseChecks")
        (codes "Release checks are required when release is in scope.")

unfoldable pub all_open_questions : Plan → List Text
all_open_questions plan =
    plan.unresolved_questions ++ plan.roles.po.open_questions ++ plan.roles.ba.open_questions
    ++ plan.roles.dev.open_questions ++ plan.roles.qa.open_questions

unfoldable pub question_findings : PlanHost → List Text → List Finding
question_findings host questions =
    finding_if (not (is_nil questions)) (codes "unresolved_questions") (codes "unresolvedQuestions")
      (host.decimal (length questions) ++ codes " planning question(s) remain unresolved.")

pub record Trace : Type 0 where
  pub requirement_id : Text
  pub step_ids : List Text
  pub acceptance_ids : List Text
  pub complete : Bool

unfoldable pub step_ids_for : List PlanStep → Text → List Text
step_ids_for steps id =
    map (λ (step : PlanStep). step.id)
      (filter (λ (step : PlanStep). includes step.requirement_ids id) steps)

unfoldable pub acceptance_ids_for : List Acceptance → Text → List Text
acceptance_ids_for criteria id =
    map (λ (criterion : Acceptance). criterion.id)
      (filter (λ (criterion : Acceptance). includes criterion.requirement_ids id) criteria)

unfoldable pub trace_of : Roles → Requirement → Trace
trace_of roles requirement =
    let step_ids = step_ids_for roles.dev.steps requirement.id in
    let acceptance_ids = acceptance_ids_for roles.qa.acceptance_criteria requirement.id in
    record {
      requirement_id = requirement.id;
      step_ids = step_ids;
      acceptance_ids = acceptance_ids;
      complete = not (is_nil step_ids) && not (is_nil acceptance_ids);
    }

unfoldable pub trace_findings : Roles → List Requirement → List Finding
trace_findings roles [] = []
trace_findings roles (requirement ∷ requirements) =
    let path = codes "roles.ba.requirements." ++ requirement.id in
    finding_if (is_nil (step_ids_for roles.dev.steps requirement.id))
      (codes "requirement_missing_step") path
      (requirement.id ++ codes " is not covered by an implementation step.")
    ++ finding_if (is_nil (acceptance_ids_for roles.qa.acceptance_criteria requirement.id))
        (codes "requirement_missing_acceptance") path
        (requirement.id ++ codes " is not covered by an acceptance criterion.")
    ++ trace_findings roles requirements

unfoldable pub step_findings : List PlanStep → List Finding
step_findings [] = []
step_findings (step ∷ steps) =
    let path = codes "roles.dev.steps." ++ step.id in
    finding_if (is_nil step.requirement_ids) (codes "step_requirements_missing") path
      (step.id ++ codes " must trace to a requirement.")
    ++ finding_if (is_nil step.scope_paths) (codes "step_scope_missing") path
        (step.id ++ codes " needs a bounded file or directory scope.")
    ++ finding_if (is_nil step.checks) (codes "step_checks_missing") path
        (step.id ++ codes " needs at least one verification check.")
    ++ step_findings steps

unfoldable pub acceptance_findings : List Acceptance → List Finding
acceptance_findings [] = []
acceptance_findings (criterion ∷ criteria) =
    finding_if (is_nil criterion.requirement_ids) (codes "acceptance_requirements_missing")
      (codes "roles.qa.acceptanceCriteria." ++ criterion.id)
      (criterion.id ++ codes " must trace to a requirement.")
    ++ acceptance_findings criteria

unfoldable pub readiness_errors : PlanHost → Plan → List Finding
readiness_errors host plan =
    po_findings plan.roles.po
    ++ baseline_findings host plan
    ++ role_findings plan.roles
    ++ question_findings host (all_open_questions plan)
    ++ trace_findings plan.roles plan.roles.ba.requirements
    ++ step_findings plan.roles.dev.steps
    ++ acceptance_findings plan.roles.qa.acceptance_criteria

-- The names of the enabled authorities, with workspaceWrite first.
unfoldable pub name_if : Bool → Text → List Text
name_if enabled name = if enabled then name ∷ [] else []

unfoldable pub elevated_names : Authority → List Text
elevated_names a =
    name_if a.commit (codes "commit")
    ++ name_if a.push (codes "push")
    ++ name_if a.deploy (codes "deploy")
    ++ name_if a.network (codes "network")
    ++ name_if a.service_control (codes "serviceControl")
    ++ name_if a.destructive (codes "destructive")
    ++ name_if a.external_messages (codes "externalMessages")

unfoldable pub readiness_warnings : Plan → List Finding
readiness_warnings plan =
    finding_if (is_nil plan.roles.dev.risks) (codes "dev_risks_empty") (codes "roles.dev.risks")
      (codes "No implementation risks were recorded.")
    ++ finding_if (not (is_nil (elevated_names plan.authority))) (codes "elevated_authority")
        (codes "authority")
        (codes "Elevated authority requested: "
          ++ join (codes ", ") (elevated_names plan.authority)
          ++ codes ".")

pub record Readiness : Type 0 where
  pub ready : Bool
  pub errors : List Finding
  pub warnings : List Finding
  pub traceability : List Trace

unfoldable pub lint_normalized_readiness : PlanHost → Plan → Readiness
lint_normalized_readiness host plan = record {
  ready = is_nil (readiness_errors host plan);
  errors = readiness_errors host plan;
  warnings = readiness_warnings plan;
  traceability = map (trace_of plan.roles) plan.roles.ba.requirements;
}

unfoldable pub lint_delivery_plan_readiness : PlanHost → Plan → Result PlanError Readiness
lint_delivery_plan_readiness host value = do
  plan ← validate_shape host (normalize_delivery_plan host value host.now)
  ok (lint_normalized_readiness host plan)
