-- ===== src/Plan/Update.antt =====
-- updateDeliveryPlanDefinition of delivery-plan.js, lines 624 to 668.
use pane_fleet.Base.{
  ◌+◌, Bool, true, false, not, ◌||◌, Option, none, some, [], List, Text, text_eq, is_empty, Result,
  ok, ◌>>=◌, ◌>>◌, guard, if◌then◌else◌,
}
use pane_fleet.Plan.Types.{
  PlanHost, PlanError, terminal, execution_locked, Phase, Plan, PlanBaseline, Classification,
  Authority, Po, Ba, Dev, Qa,
}
use pane_fleet.Plan.Normal.{normalize_delivery_plan, normalized_timestamp}
use pane_fleet.Plan.Shape.{validate_shape}
use pane_fleet.Plan.Definition.{delivery_plan_digest}
use pane_fleet.Plan.Approval.{
  validate_delivery_plan, invalidate_delivery_plan_approval, is_terminal, needs_readiness,
}

-- A patch of a section is the change that its own fields make to the section.
pub record PlanPatch : Type 0 where
  pub title : Option Text
  pub request : Option Text
  pub workspace : Option Text
  pub unresolved_questions : Option (List Text)
  pub baseline : Option (PlanBaseline → PlanBaseline)
  pub classification : Option (Classification → Classification)
  pub authority : Option (Authority → Authority)
  pub po : Option (Po → Po)
  pub ba : Option (Ba → Ba)
  pub dev : Option (Dev → Dev)
  pub qa : Option (Qa → Qa)

unfoldable pub given : {A : Type 0} → Option A → A → A
given none current = current
given (some value) current = value

unfoldable pub patched : {A : Type 0} → Option (A → A) → A → A
patched none current = current
patched (some change) current = change current

unfoldable pub merged_definition : Plan → PlanPatch → Plan
merged_definition plan patch = record plan {
  title = given patch.title plan.title;
  request = given patch.request plan.request;
  workspace = given patch.workspace plan.workspace;
  unresolved_questions = given patch.unresolved_questions plan.unresolved_questions;
  baseline = patched patch.baseline plan.baseline;
  classification = patched patch.classification plan.classification;
  authority = patched patch.authority plan.authority;
  roles = record {
    po = patched patch.po plan.roles.po;
    ba = patched patch.ba plan.roles.ba;
    dev = patched patch.dev plan.roles.dev;
    qa = patched patch.qa plan.roles.qa;
  };
}

-- ['executing', 'verifying', 'ready_to_release']
abbrev pub is_locked : Phase → Bool
is_locked Phase.executing = true
is_locked Phase.verifying = true
is_locked Phase.ready_to_release = true
is_locked _ = false

-- Lines 655 to 667.
unfoldable pub replace_definition : PlanHost → Plan → Plan → Text → Result PlanError Plan
replace_definition host plan candidate at =
    if not (is_empty plan.approval.digest) || needs_readiness plan.phase
    then invalidate_delivery_plan_approval host candidate at
    else validate_delivery_plan host (record candidate {
      revision = plan.revision + 1;
      phase = plan.phase;
      approval = plan.approval;
      gates = plan.gates;
      blocker = [];
      created_at = plan.created_at;
      updated_at = normalized_timestamp host at [];
    })

unfoldable pub update_delivery_plan_definition :
    PlanHost → Plan → PlanPatch → Text → Result PlanError Plan
update_delivery_plan_definition host value patch at = do
  plan ← validate_delivery_plan host value
  guard (not (is_terminal plan.phase)) terminal
  guard (not (is_locked plan.phase)) execution_locked
  let candidate = normalize_delivery_plan host (merged_definition plan patch) host.now
  shaped ← validate_shape host candidate
  new_digest ← delivery_plan_digest host candidate
  old_digest ← delivery_plan_digest host plan
  if text_eq new_digest old_digest then ok plan else replace_definition host plan candidate at
