-- ===== src/Plan/Normal.antt =====
-- normalizeDeliveryPlan of delivery-plan.js, lines 78 to 250.
use pane_fleet.Base.{
  none, some, List, [], ◌∷◌, ◌++◌, map, Text, includes, is_empty, ◌||◌, if◌then◌else◌,
}
use pane_fleet.Delivery.Fields.{text, inline}
use pane_fleet.Plan.Types.{
  PlanHost, Plan, PlanBaseline, Classification, Po, Ba, Dev, Qa, Roles, Requirement, PlanStep,
  Acceptance, Approval,
}

module _ (host : PlanHost) where
  unfoldable pub normalized_lower : Text → Text
  normalized_lower value = host.platform.to_lower_case (inline value)

  unfoldable pub normalized_id : Text → Text
  normalized_id value = host.platform.to_upper_case (inline value)

  unfoldable pub normalized_timestamp : Text → Text → Text
  normalized_timestamp value fallback =
      let s = inline (if is_empty value then fallback else value) in
      elim (host.platform.date_parse s) [
        | none ↦ s
        | some parsed ↦ host.platform.to_iso_string parsed
      ]

  -- The loops of normalizedStringList and normalizedIdList: what is not empty, once.
  unfoldable pub add_once : Text → List Text → List Text
  add_once value result =
      if is_empty value || includes result value then result else result ++ value ∷ []

  unfoldable pub strings_from : List Text → List Text → List Text
  strings_from result [] = result
  strings_from result (value ∷ values) = strings_from (add_once (text value) result) values

  unfoldable pub normalized_string_list : List Text → List Text
  normalized_string_list values = strings_from [] values

  unfoldable pub ids_from : List Text → List Text → List Text
  ids_from result [] = result
  ids_from result (value ∷ values) = ids_from (add_once (normalized_id value) result) values

  unfoldable pub normalized_id_list : List Text → List Text
  normalized_id_list values = ids_from [] values

  unfoldable pub normalized_baseline : PlanBaseline → PlanBaseline
  normalized_baseline source = record {
    head = normalized_lower source.head;
    working_tree_digest = normalized_lower source.working_tree_digest;
    instructions_digest = normalized_lower source.instructions_digest;
    captured_at = normalized_timestamp source.captured_at [];
  }

  unfoldable pub normalized_classification : Classification → Classification
  normalized_classification source = record {
    intent = normalized_lower source.intent;
    depth = normalized_lower source.depth;
    risk = normalized_lower source.risk;
    data_classes = normalized_string_list source.data_classes;
    mutation_surfaces = normalized_string_list source.mutation_surfaces;
  }

  unfoldable pub normalized_po : Po → Po
  normalized_po po = record {
    user = text po.user;
    problem = text po.problem;
    outcome = text po.outcome;
    value = text po.value;
    non_goals = normalized_string_list po.non_goals;
    assumptions = normalized_string_list po.assumptions;
    open_questions = normalized_string_list po.open_questions;
  }

  unfoldable pub normalized_requirement : Requirement → Requirement
  normalized_requirement source = record { id = normalized_id source.id; text = text source.text }

  unfoldable pub normalized_ba : Ba → Ba
  normalized_ba ba = record {
    requirements = map normalized_requirement ba.requirements;
    dependencies = normalized_string_list ba.dependencies;
    edge_cases = normalized_string_list ba.edge_cases;
    constraints = normalized_string_list ba.constraints;
    open_questions = normalized_string_list ba.open_questions;
  }

  unfoldable pub normalized_step : PlanStep → PlanStep
  normalized_step source = record {
    id = normalized_id source.id;
    title = inline source.title;
    outcome = text source.outcome;
    requirement_ids = normalized_id_list source.requirement_ids;
    scope_paths = normalized_string_list source.scope_paths;
    checks = normalized_string_list source.checks;
  }

  unfoldable pub normalized_dev : Dev → Dev
  normalized_dev dev = record {
    architecture = text dev.architecture;
    steps = map normalized_step dev.steps;
    risks = normalized_string_list dev.risks;
    rollback = text dev.rollback;
    open_questions = normalized_string_list dev.open_questions;
  }

  unfoldable pub normalized_acceptance : Acceptance → Acceptance
  normalized_acceptance source = record {
    id = normalized_id source.id;
    text = text source.text;
    requirement_ids = normalized_id_list source.requirement_ids;
  }

  unfoldable pub normalized_qa : Qa → Qa
  normalized_qa qa = record {
    acceptance_criteria = map normalized_acceptance qa.acceptance_criteria;
    test_strategy = text qa.test_strategy;
    regression_checks = normalized_string_list qa.regression_checks;
    release_required = qa.release_required;
    release_checks = normalized_string_list qa.release_checks;
    open_questions = normalized_string_list qa.open_questions;
  }

  unfoldable pub normalized_roles : Roles → Roles
  normalized_roles roles = record {
    po = normalized_po roles.po;
    ba = normalized_ba roles.ba;
    dev = normalized_dev roles.dev;
    qa = normalized_qa roles.qa;
  }

  unfoldable pub normalized_approval : Approval → Approval
  normalized_approval source = record {
    digest = normalized_lower source.digest;
    approved_at = elim source.approved_at [
      | none ↦ none
      | some at ↦ some (normalized_timestamp at [])
    ];
    plan_revision = source.plan_revision;
  }

  -- `at` stands for a missing creation time.
  unfoldable pub normalize_delivery_plan : Plan → Text → Plan
  normalize_delivery_plan source at =
      let created_at = normalized_timestamp source.created_at at in
      record {
        version = source.version;
        id = normalized_lower source.id;
        revision = source.revision;
        phase = source.phase;
        title = inline source.title;
        request = text source.request;
        workspace = inline source.workspace;
        baseline = normalized_baseline source.baseline;
        classification = normalized_classification source.classification;
        roles = normalized_roles source.roles;
        unresolved_questions = normalized_string_list source.unresolved_questions;
        authority = source.authority;
        approval = normalized_approval source.approval;
        gates = source.gates;
        blocker = text source.blocker;
        created_at = created_at;
        updated_at = normalized_timestamp source.updated_at created_at;
      }
