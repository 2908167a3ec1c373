-- ===== src/Plan/Types.antt =====
-- The data of delivery-plan.js. A record stands for an object of the right shape; a missing text or
-- list is empty, a missing flag false, and a missing version or revision 1, which is what
-- normalizeDeliveryPlan puts there.
use pane_fleet.Base.{ℕ, Text, Bool, Option, List}
use pane_fleet.Delivery.Types.{Platform}

-- The codes that carry a field's name hold it.
pub data PlanError : Type 0 where
  field_invalid field_too_long field_duplicate : Text → PlanError
  control_characters_not_allowed version_unsupported id_invalid revision_invalid : PlanError
  workspace_invalid timestamp_invalid baseline_head_invalid baseline_digest_invalid : PlanError
  baseline_timestamp_invalid classification_intent_invalid : PlanError
  classification_depth_invalid classification_risk_invalid scope_path_invalid : PlanError
  requirements_invalid steps_invalid step_requirement_unknown : PlanError
  acceptance_criteria_invalid acceptance_requirement_unknown approval_invalid : PlanError
  phase_not_ready approval_not_current implementation_evidence_required : PlanError
  qa_pass_required release_verification_required terminal execution_locked : PlanError
  transition_invalid revision_conflict cancellation_confirmation_required : PlanError
  blocker_required not_ready approval_confirmation_required : PlanError
  replan_confirmation_required workspace_write_not_approved baseline_changed : PlanError
  workspace_locked task_graph_required execution_confirmation_required : PlanError
  remediation_confirmation_required remediation_approval_required : PlanError
  completion_confirmation_required envelope_limit_invalid : PlanError
  not_approved_for_execution step_not_found execution_baseline_invalid : PlanError
  envelope_too_long : PlanError

-- DELIVERY_PLAN_PHASES
pub data Phase : Type 0 where
  draft planning needs_decision ready_for_approval approved executing verifying : Phase
  ready_to_release blocked done canceled : Phase

pub record PlanBaseline : Type 0 where
  pub head : Text
  pub working_tree_digest : Text
  pub instructions_digest : Text
  pub captured_at : Text

pub record Classification : Type 0 where
  pub intent : Text
  pub depth : Text
  pub risk : Text
  pub data_classes : List Text
  pub mutation_surfaces : List Text

pub record Po : Type 0 where
  pub user : Text
  pub problem : Text
  pub outcome : Text
  pub value : Text
  pub non_goals : List Text
  pub assumptions : List Text
  pub open_questions : List Text

pub record Requirement : Type 0 where
  pub id : Text
  pub text : Text

pub record Ba : Type 0 where
  pub requirements : List Requirement
  pub dependencies : List Text
  pub edge_cases : List Text
  pub constraints : List Text
  pub open_questions : List Text

pub record PlanStep : Type 0 where
  pub id : Text
  pub title : Text
  pub outcome : Text
  pub requirement_ids : List Text
  pub scope_paths : List Text
  pub checks : List Text

pub record Dev : Type 0 where
  pub architecture : Text
  pub steps : List PlanStep
  pub risks : List Text
  pub rollback : Text
  pub open_questions : List Text

pub record Acceptance : Type 0 where
  pub id : Text
  pub text : Text
  pub requirement_ids : List Text

pub record Qa : Type 0 where
  pub acceptance_criteria : List Acceptance
  pub test_strategy : Text
  pub regression_checks : List Text
  pub release_required : Bool
  pub release_checks : List Text
  pub open_questions : List Text

pub record Roles : Type 0 where
  pub po : Po
  pub ba : Ba
  pub dev : Dev
  pub qa : Qa

pub record Authority : Type 0 where
  pub workspace_write : Bool
  pub commit : Bool
  pub push : Bool
  pub deploy : Bool
  pub network : Bool
  pub service_control : Bool
  pub destructive : Bool
  pub external_messages : Bool

pub record Approval : Type 0 where
  pub digest : Text
  pub approved_at : Option Text
  pub plan_revision : Option ℕ

pub record Gates : Type 0 where
  pub implementation_captured : Bool
  pub qa_passed : Bool
  pub release_verified : Bool

pub record Plan : Type 0 where
  pub version : ℕ
  pub id : Text
  pub revision : ℕ
  pub phase : Phase
  pub title : Text
  pub request : Text
  pub workspace : Text
  pub baseline : PlanBaseline
  pub classification : Classification
  pub roles : Roles
  pub unresolved_questions : List Text
  pub authority : Authority
  pub approval : Approval
  pub gates : Gates
  pub blocker : Text
  pub created_at : Text
  pub updated_at : Text

-- What the plans take from outside: the platform of the delivery runs, the hash, JSON's notation of a
-- string and of a number, and the time of the call.
pub record PlanHost : Type 0 where
  pub platform : Platform
  pub sha256 : Text → Text
  pub stringify : Text → Text
  pub decimal : ℕ → Text
  pub now : Text
