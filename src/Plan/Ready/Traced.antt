-- ===== src/Plan/Ready/Traced.antt =====
-- The readiness of a plan of delivery-plan.js against a direct description of a ready plan.
use pane_fleet.Base.{
  ◌≡◌, refl, Bool-cases, inl, inr, Bool, true, false, not, ◌&&◌, List, [], ◌∷◌, ◌++◌, map, filter,
  some_of, every, Text, includes, is_empty,
}
use pane_fleet.Delivery.Validate.Tasks.{is_nil}
use pane_fleet.Plan.Types.{PlanHost, Plan, Roles, Po, Requirement, PlanStep, Acceptance}
use pane_fleet.Plan.Discovery.{delivery_plan_has_discovery_baseline}
use pane_fleet.Plan.Ready.{
  finding_if, po_findings, baseline_findings, role_findings, all_open_questions, question_findings,
  step_ids_for, acceptance_ids_for, trace_findings, step_findings, acceptance_findings,
  readiness_errors, lint_normalized_readiness,
}

abbrev pub has_value : Po → Bool
has_value po =
    not (is_empty po.user)
    && not (is_empty po.problem)
    && not (is_empty po.outcome)
    && not (is_empty po.value)
    && not (is_nil po.non_goals)

abbrev pub has_ground : PlanHost → Plan → Bool
has_ground host plan =
    not (is_empty plan.workspace)
    && not (is_empty plan.baseline.head)
    && not (is_empty plan.baseline.working_tree_digest)
    && not (is_empty plan.baseline.instructions_digest)
    && not (is_empty plan.baseline.captured_at)
    && not (delivery_plan_has_discovery_baseline host plan)
    && not (is_empty plan.classification.intent)
    && not (is_empty plan.classification.depth)
    && not (is_empty plan.classification.risk)

abbrev pub has_roles : Roles → Bool
has_roles roles =
    not (is_nil roles.ba.requirements)
    && not (is_empty roles.dev.architecture)
    && not (is_nil roles.dev.steps)
    && not (is_empty roles.dev.rollback)
    && not (is_nil roles.qa.acceptance_criteria)
    && not (is_empty roles.qa.test_strategy)
    && not (is_nil roles.qa.regression_checks)
    && not (roles.qa.release_required && is_nil roles.qa.release_checks)

-- A step and a criterion that name the requirement.
abbrev pub is_covered : Roles → Requirement → Bool
is_covered roles requirement =
    some_of (λ (step : PlanStep). includes step.requirement_ids requirement.id) roles.dev.steps
    && some_of (λ (c : Acceptance). includes c.requirement_ids requirement.id)
        roles.qa.acceptance_criteria

abbrev pub is_bounded : PlanStep → Bool
is_bounded step =
    not (is_nil step.requirement_ids) && not (is_nil step.scope_paths) && not (is_nil step.checks)

abbrev pub is_complete : PlanHost → Plan → Bool
is_complete host plan =
    has_value plan.roles.po
    && has_ground host plan
    && has_roles plan.roles
    && is_nil (all_open_questions plan)
    && every (is_covered plan.roles) plan.roles.ba.requirements
    && every is_bounded plan.roles.dev.steps
    && every (λ (c : Acceptance). not (is_nil c.requirement_ids)) plan.roles.qa.acceptance_criteria

nil-append {ℓ} : {A : Type ℓ} (xs ys : List A) → is_nil (xs ++ ys) ≡ (is_nil xs && is_nil ys)
nil-append [] ys = refl
nil-append (x ∷ xs) ys = refl

nil-finding :
    (test : Bool) (code path message : Text) → is_nil (finding_if test code path message) ≡ not test
unfolding finding_if
nil-finding true code path message = refl
nil-finding false code path message = refl

twice_not : (b : Bool) → not (not b) ≡ b
twice_not true = refl
twice_not false = refl

nil-selected {ℓ κ} :
    {A : Type ℓ} {B : Type κ} (f : A → B) (test : A → Bool) (xs : List A)
    → is_nil (map f (filter test xs)) ≡ not (some_of test xs)
nil-selected f test [] = refl
nil-selected f test (x ∷ xs) = elim (Bool-cases (test x)) [
  | inl e ↦ rw (e) refl
  | inr e ↦ rw (e) (nil-selected f test xs)
]

nil-po : (po : Po) → is_nil (po_findings po) ≡ has_value po
unfolding po_findings
nil-po po = simp (po_findings, nil-append, nil-finding)

nil-ground :
    (host : PlanHost) (plan : Plan) → is_nil (baseline_findings host plan) ≡ has_ground host plan
unfolding baseline_findings
nil-ground host plan = simp (baseline_findings, nil-append, nil-finding)

nil-roles : (roles : Roles) → is_nil (role_findings roles) ≡ has_roles roles
unfolding role_findings
nil-roles roles = simp (role_findings, nil-append, nil-finding)

nil-questions :
    (host : PlanHost) (questions : List Text)
    → is_nil (question_findings host questions) ≡ is_nil questions
unfolding question_findings
nil-questions host [] = simp (question_findings, nil-finding)
nil-questions host (q ∷ questions) = simp (question_findings, nil-finding)

nil-traces :
    (roles : Roles) (requirements : List Requirement)
    → is_nil (trace_findings roles requirements) ≡ every (is_covered roles) requirements
unfolding trace_findings step_ids_for acceptance_ids_for
nil-traces roles [] = refl
nil-traces roles (r ∷ requirements) = simp (
  trace_findings,
  nil-append,
  nil-finding,
  step_ids_for,
  acceptance_ids_for,
  nil-selected,
  twice_not,
  nil-traces roles requirements,
)

nil-steps : (steps : List PlanStep) → is_nil (step_findings steps) ≡ every is_bounded steps
unfolding step_findings
nil-steps [] = refl
nil-steps (step ∷ steps) = simp (step_findings, nil-append, nil-finding, nil-steps steps)

nil-criteria :
    (criteria : List Acceptance)
    → is_nil (acceptance_findings criteria)
      ≡ every (λ (c : Acceptance). not (is_nil c.requirement_ids)) criteria
unfolding acceptance_findings
nil-criteria [] = refl
nil-criteria (c ∷ criteria) =
    simp (acceptance_findings, nil-append, nil-finding, nil-criteria criteria)

-- The lint calls a plan ready exactly when the plan is complete: the product owner's fields, the
-- baseline, the classification and the roles are filled in, no question is open, every requirement is
-- named by a step and by a criterion, every step has requirements, a scope and checks, and every
-- criterion has a requirement.
pub ready-is_complete :
    (host : PlanHost) (plan : Plan)
    → (lint_normalized_readiness host plan).ready ≡ is_complete host plan
unfolding lint_normalized_readiness readiness_errors
ready-is_complete host plan =
    rw
      (
        readiness_errors,
        nil-append,
        nil-append,
        nil-append,
        nil-append,
        nil-append,
        nil-append,
        nil-po plan.roles.po,
        nil-ground host plan,
        nil-roles plan.roles,
        nil-questions,
        nil-traces,
        nil-steps,
        nil-criteria,
      )
      refl
