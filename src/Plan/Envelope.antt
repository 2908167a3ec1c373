-- ===== src/Plan/Envelope.antt =====
-- compileDeliveryPlanExecutionEnvelope of delivery-plan.js, lines 748 to 834.
pub mod Bounds
use pane_fleet.Base.{
  ℕ, Bool, true, false, not, ◌&&◌, ◌||◌, Option, none, some, List, [], ◌∷◌, ◌++◌, map, filter,
  length, leb, some_of, Text, codes, text_eq, includes, is_empty, Result, ok, err, ◌>>=◌, ◌>>◌,
  guard, or_throw, if◌then◌else◌,
}
use pane_fleet.Delivery.Fields.{is_digest}
use pane_fleet.Delivery.Validate.Tasks.{is_nil}
use pane_fleet.Plan.Types.{
  PlanHost, PlanError, envelope_limit_invalid, not_approved_for_execution, approval_not_current,
  workspace_write_not_approved, step_not_found, execution_baseline_invalid, envelope_too_long,
  Phase, Plan, PlanBaseline, PlanStep, Requirement, Acceptance, Authority,
}
use pane_fleet.Plan.Canonical.{join, canonical_sha256}
use pane_fleet.Plan.Normal.{normalized_id}
use pane_fleet.Plan.Ready.{name_if, elevated_names}
use pane_fleet.Plan.Definition.{delivery_plan_digest, baseline_json}
use pane_fleet.Plan.Approval.{validate_delivery_plan, delivery_plan_approval_status, is_current}

-- The option expectedBaseline; a missing text of it is empty.
pub record ExpectedBaseline : Type 0 where
  pub digest : Text
  pub head : Text
  pub working_tree_digest : Text
  pub instructions_digest : Text

unfoldable pub line_break : Text
line_break = 10 ∷ []

unfoldable pub bullet_list : List Text → Text
bullet_list [] = codes "- None recorded."
bullet_list (value ∷ values) = join line_break (map (λ v. codes "- " ++ v) (value ∷ values))

abbrev pub is_executable : Phase → Bool
is_executable Phase.approved = true
is_executable Phase.executing = true
is_executable _ = false

unfoldable pub find_step : List PlanStep → Text → Option PlanStep
find_step [] id = none
find_step (step ∷ steps) id =
    let rest = find_step steps id in if text_eq step.id id then some step else rest

unfoldable pub requirements_of : Plan → PlanStep → List Requirement
requirements_of plan step =
    filter (λ (requirement : Requirement). includes step.requirement_ids requirement.id)
      plan.roles.ba.requirements

unfoldable pub criteria_of : Plan → PlanStep → List Acceptance
criteria_of plan step =
    filter
      (λ (criterion : Acceptance).
        some_of (includes step.requirement_ids) criterion.requirement_ids)
      plan.roles.qa.acceptance_criteria

-- expectedBaseline?.digest || canonicalSha256({...})
unfoldable pub expected_baseline :
    PlanHost → PlanBaseline → Option ExpectedBaseline → ExpectedBaseline
expected_baseline host own none = record {
  digest =
      canonical_sha256 host
        (baseline_json own.head own.working_tree_digest own.instructions_digest);
  head = own.head;
  working_tree_digest = own.working_tree_digest;
  instructions_digest = own.instructions_digest;
}
expected_baseline host own (some given) = record given {
  digest =
      if is_empty given.digest
      then canonical_sha256 host
          (baseline_json given.head given.working_tree_digest given.instructions_digest)
      else given.digest;
}

unfoldable pub is_exact : ExpectedBaseline → Bool
is_exact baseline =
    not (is_empty baseline.head)
    && is_digest baseline.working_tree_digest
    && is_digest baseline.instructions_digest
    && is_digest baseline.digest

unfoldable pub allowed_names : Authority → List Text
allowed_names a = name_if a.workspace_write (codes "workspaceWrite") ++ elevated_names a

unfoldable pub forbidden_names : Authority → List Text
forbidden_names a = allowed_names (record {
  workspace_write = not a.workspace_write;
  commit = not a.commit;
  push = not a.push;
  deploy = not a.deploy;
  network = not a.network;
  service_control = not a.service_control;
  destructive = not a.destructive;
  external_messages = not a.external_messages;
})

unfoldable pub names_or_none : List Text → Text
names_or_none names = if is_nil names then codes "none" else join (codes ", ") names

unfoldable pub labelled : Text → Text → Text
labelled id value = id ++ codes ": " ++ value

-- Lines 792 to 802.
unfoldable pub heading_lines : PlanHost → Plan → PlanStep → Text → ExpectedBaseline → List Text
heading_lines host plan step digest baseline =
    (codes "[PaneFleet Delivery Plan " ++ plan.id ++ codes "]")
    ∷ (codes "Approved definition: sha256:" ++ digest)
    ∷ (codes "Plan revision: " ++ host.decimal plan.revision)
    ∷ (codes "Workspace: " ++ plan.workspace)
    ∷ (codes "Expected baseline: sha256:" ++ baseline.digest)
    ∷ (codes "Expected HEAD: " ++ baseline.head)
    ∷ (codes "Expected working tree: sha256:" ++ baseline.working_tree_digest)
    ∷ (codes "Expected instructions: sha256:" ++ baseline.instructions_digest)
    ∷ (codes "Outcome: " ++ plan.roles.po.outcome)
    ∷ (codes "Current step: " ++ step.id ++ codes " " ++ 0x2014 ∷ codes " " ++ step.title)
    ∷ (codes "Step outcome: " ++ step.outcome)
    ∷ []

-- Lines 803 to 818.
unfoldable pub scope_lines : Plan → PlanStep → List Text
scope_lines plan step =
    codes "Requirements:"
    ∷ bullet_list (map (λ (r : Requirement). labelled r.id r.text) (requirements_of plan step))
    ∷ codes "Acceptance criteria:"
    ∷ bullet_list (map (λ (c : Acceptance). labelled c.id c.text) (criteria_of plan step))
    ∷ codes "Bounded scope:"
    ∷ bullet_list step.scope_paths
    ∷ codes "Required checks:"
    ∷ bullet_list step.checks
    ∷ codes "Non-goals:"
    ∷ bullet_list plan.roles.po.non_goals
    ∷ codes "Known risks:"
    ∷ bullet_list plan.roles.dev.risks
    ∷ (codes "Approved authority: " ++ names_or_none (allowed_names plan.authority))
    ∷ (codes "Forbidden without a separate explicit approval: "
        ++ names_or_none (forbidden_names plan.authority))
    ∷ (codes "Rollback or safe abort: " ++ plan.roles.dev.rollback)
    ∷ codes
        "Read the workspace instructions first. Work only on this approved step. Stop if the baseline, exact workspace, scope, or authority differs; do not silently re-plan, broaden scope, deploy, push, message externally, or retry an uncertain action."
    ∷ []

-- Lines 819 to 831.
unfoldable pub result_lines : Plan → PlanStep → Text → List Text
result_lines plan step digest =
    codes "When stopping, return exactly one bounded result block:"
    ∷ codes "[PANEFLEET DELIVERY RESULT]"
    ∷ (codes "PLAN: " ++ plan.id)
    ∷ (codes "DIGEST: " ++ digest)
    ∷ (codes "STEP: " ++ step.id)
    ∷ codes "STATUS: complete | blocked | failed | needs_approval"
    ∷ codes "RESULT: concise outcome for this step"
    ∷ codes "FILES: changed paths or none"
    ∷ codes "CHECKS: commands and outcomes or not_run with reason"
    ∷ codes "EVIDENCE: concise observable evidence"
    ∷ codes "RISKS: residual risks or none"
    ∷ codes "NEXT ACTION: operator acceptance, decision, or safe next step"
    ∷ codes "[/PANEFLEET DELIVERY RESULT]"
    ∷ []

pub record Envelope : Type 0 where
  pub text : Text
  pub chars : ℕ
  pub digest : Text
  pub plan_id : Text
  pub plan_revision : ℕ
  pub step_id : Text

unfoldable pub envelope_of : PlanHost → Plan → PlanStep → Text → ExpectedBaseline → Envelope
envelope_of host plan step digest baseline =
    let text = join line_break (
      heading_lines host plan step digest baseline
      ++ scope_lines plan step
      ++ result_lines plan step digest) in
    record {
      text = text;
      chars = length text;
      digest = digest;
      plan_id = plan.id;
      plan_revision = plan.revision;
      step_id = step.id;
    }

unfoldable pub compile_delivery_plan_execution_envelope :
    PlanHost → Plan → Text → ℕ → Option ExpectedBaseline → Result PlanError Envelope
compile_delivery_plan_execution_envelope host value step_id max_chars expected = do
  plan ← validate_delivery_plan host value
  guard (leb 800 max_chars && leb max_chars 8000) envelope_limit_invalid
  guard (is_executable plan.phase) not_approved_for_execution
  status ← delivery_plan_approval_status host plan
  guard (is_current status) approval_not_current
  guard plan.authority.workspace_write workspace_write_not_approved
  step ← or_throw (find_step plan.roles.dev.steps (normalized_id host step_id)) step_not_found
  digest ← delivery_plan_digest host plan
  let baseline = expected_baseline host plan.baseline expected
  guard (is_exact baseline) execution_baseline_invalid
  let envelope = envelope_of host plan step digest baseline
  guard (leb envelope.chars max_chars) envelope_too_long
  ok envelope
