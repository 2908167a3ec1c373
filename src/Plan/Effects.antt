-- ===== src/Plan/Effects.antt =====
-- What a transition of delivery-plan.js does, and what it needs.
use pane_fleet.Base.{
  ◌+◌, ◌≡◌, ◌∙◌, ap, arith, Bool, true, false, not, ◌||◌, refl, some, Text, codes, text_eq,
  text_eq_sound, is_empty, ok, guard, guard->>-eq-ok, guard-eq-ok, >>-eq-ok,
}
use pane_fleet.Delivery.Fields.{text}
use pane_fleet.Plan.Types.{PlanHost, PlanError, Phase, Plan}
use pane_fleet.Plan.Normal.{normalized_lower, normalize_delivery_plan}
use pane_fleet.Plan.Ready.{lint_normalized_readiness}
use pane_fleet.Plan.Approval.{current, approval_status_unchecked, require_current}
use pane_fleet.Plan.Legal.{phase_of, needs_replan}
use pane_fleet.Plan.Transition.{
  Conditions, require_start, require_execution, require_completion, require_target, next_gates,
  moved, transition_delivery_plan,
}
use pane_fleet.Plan.Valid.{require_current-eq}
use pane_fleet.Plan.Stages.Moves.{transition-IsMove}
use pane_fleet.Plan.Outcomes.{IsEdge, IsGated, IsEdge-IsEdge, next_gates-IsGated}

-- The start of an execution and its resumption.
abbrev pub IsStart : Phase → Conditions → Type 0
IsStart Phase.approved conditions = conditions.confirmation ≡ codes "start-execution"
IsStart Phase.verifying conditions =
    (conditions.confirmation ≡ codes "resume-execution") × (conditions.remediation_approved ≡ true)
IsStart _ conditions = Unit

-- A phase whose way back to planning withdraws an approval.
abbrev pub withdraws : Phase → Bool
withdraws Phase.approved = true
withdraws Phase.executing = true
withdraws Phase.verifying = true
withdraws Phase.ready_to_release = true
withdraws Phase.blocked = true
withdraws _ = false

needs_replan-withdraws : (p : Phase) → needs_replan p ≡ withdraws p
needs_replan-withdraws _ = refl

-- What the target needs of the plan and of the conditions.
abbrev pub IsGranted : PlanHost → Plan → Phase → Conditions → Type 0
IsGranted host plan Phase.canceled conditions = conditions.confirmation ≡ codes "cancel-plan"
IsGranted host plan Phase.needs_decision conditions = is_empty (text conditions.reason) ≡ false
IsGranted host plan Phase.blocked conditions = is_empty (text conditions.reason) ≡ false
IsGranted host plan Phase.ready_for_approval conditions =
    (lint_normalized_readiness host plan).ready ≡ true
IsGranted host plan Phase.approved conditions =
    (conditions.confirmation ≡ codes "approve-plan")
    × ((lint_normalized_readiness host plan).ready ≡ true)
IsGranted host plan Phase.planning conditions =
    withdraws plan.phase ≡ true → conditions.confirmation ≡ codes "replan"
IsGranted host plan Phase.executing conditions =
    (approval_status_unchecked host plan ≡ ok current)
    × (plan.authority.workspace_write ≡ true)
    × (conditions.baseline_current ≡ true)
    × (conditions.workspace_available ≡ true)
    × (conditions.task_graph_ready ≡ true)
    × IsStart plan.phase conditions
IsGranted host plan Phase.verifying conditions = conditions.implementation_result_captured ≡ true
IsGranted host plan Phase.ready_to_release conditions = conditions.qa_passed ≡ true
IsGranted host plan Phase.done conditions =
    (conditions.confirmation ≡ codes "complete-plan")
    × (plan.gates.qa_passed ≡ true)
    × (plan.roles.qa.release_required ≡ true → conditions.release_verified ≡ true)
IsGranted host plan Phase.draft conditions = Unit

unless : (b : Bool) → not b ≡ true → b ≡ false
unless b h = ground arith

demanded : (a b : Bool) → (not a || b) ≡ true → a ≡ true → b ≡ true
demanded a b h e = ground arith

confirmed : (s t : Text) (e : PlanError) → guard (text_eq s t) e ≡ ok tt → s ≡ t
confirmed s t e h = text_eq_sound s t (guard-eq-ok (text_eq s t) e h)

require_start-IsStart :
    (p : Phase) (conditions : Conditions)
    → require_start p conditions ≡ ok tt
    → IsStart p conditions
unfolding require_start
require_start-IsStart Phase.approved conditions h = confirmed _ _ _ h
require_start-IsStart Phase.verifying conditions h =
    let (c, r) = >>-eq-ok _ _ h in (confirmed _ _ _ c, guard-eq-ok _ _ r)
require_start-IsStart Phase.draft conditions h = tt
require_start-IsStart Phase.planning conditions h = tt
require_start-IsStart Phase.needs_decision conditions h = tt
require_start-IsStart Phase.ready_for_approval conditions h = tt
require_start-IsStart Phase.executing conditions h = tt
require_start-IsStart Phase.ready_to_release conditions h = tt
require_start-IsStart Phase.blocked conditions h = tt
require_start-IsStart Phase.done conditions h = tt
require_start-IsStart Phase.canceled conditions h = tt

execution-IsGranted :
    (host : PlanHost) (plan : Plan) (conditions : Conditions)
    → require_execution host plan conditions ≡ ok tt
    → IsGranted host plan Phase.executing conditions
unfolding require_execution
execution-IsGranted host plan conditions h =
    let (c, h1) = >>-eq-ok (require_current host plan) _ h in
    let (w, h2) = guard->>-eq-ok plan.authority.workspace_write _ _ h1 in
    let (b, h3) = guard->>-eq-ok conditions.baseline_current _ _ h2 in
    let (a, h4) = guard->>-eq-ok conditions.workspace_available _ _ h3 in
    let (t, h5) = guard->>-eq-ok conditions.task_graph_ready _ _ h4 in
    (require_current-eq host plan c, w, b, a, t, require_start-IsStart plan.phase conditions h5)

completion-IsGranted :
    (host : PlanHost) (plan : Plan) (conditions : Conditions)
    → require_completion plan conditions ≡ ok tt
    → IsGranted host plan Phase.done conditions
unfolding require_completion
completion-IsGranted host plan conditions h =
    let (c, h1) = guard->>-eq-ok _ _ _ h in
    let (q, h2) = guard->>-eq-ok plan.gates.qa_passed _ _ h1 in
    (text_eq_sound _ _ c, q, demanded plan.roles.qa.release_required _ (guard-eq-ok _ _ h2))

target-IsGranted :
    (host : PlanHost) (plan : Plan) (target : Phase) (conditions : Conditions)
    → require_target host plan target conditions ≡ ok tt
    → IsGranted host plan target conditions
unfolding require_target
target-IsGranted host plan Phase.canceled conditions h = confirmed _ _ _ h
target-IsGranted host plan Phase.needs_decision conditions h = unless _ (guard-eq-ok _ _ h)
target-IsGranted host plan Phase.blocked conditions h = unless _ (guard-eq-ok _ _ h)
target-IsGranted host plan Phase.ready_for_approval conditions h = guard-eq-ok _ _ h
target-IsGranted host plan Phase.approved conditions h =
    let (c, r) = >>-eq-ok _ _ h in (confirmed _ _ _ c, guard-eq-ok _ _ r)
target-IsGranted host plan Phase.planning conditions h = λ e. text_eq_sound _ _ (
    demanded (needs_replan plan.phase) _ (guard-eq-ok _ _ h)
      (needs_replan-withdraws plan.phase ∙ e))
target-IsGranted host plan Phase.executing conditions h = execution-IsGranted host plan conditions h
target-IsGranted host plan Phase.verifying conditions h = guard-eq-ok _ _ h
target-IsGranted host plan Phase.ready_to_release conditions h = guard-eq-ok _ _ h
target-IsGranted host plan Phase.done conditions h = completion-IsGranted host plan conditions h
target-IsGranted host plan Phase.draft conditions h = tt

-- A transition that succeeds goes from the phase of the plan to the named target, one of the successors
-- listed for that phase, and back to planning from execution, verification or release only when the
-- delivery run was aborted; what the target needs is granted. It raises the revision by one, and sets
-- each of the three gates as the target says: verification captures the implementation and clears QA and
-- release, a release passes QA, completion verifies a required release, a remediation and a withdrawn
-- approval clear all three, and any other target keeps them.
pub transition-effect :
    (host : PlanHost) (value next : Plan) (to : Text) (conditions : Conditions) (at : Text)
    → transition_delivery_plan host value to conditions at ≡ ok next
    → (phase_of (normalized_lower host to) ≡ some next.phase)
      × IsEdge value.phase next.phase conditions
      × IsGranted host (normalize_delivery_plan host value host.now) next.phase conditions
      × (next.revision ≡ value.revision + 1)
      × IsGated (normalize_delivery_plan host value host.now) next.phase next.gates
unfolding normalize_delivery_plan moved
transition-effect host value next to conditions at h =
    let (target, named, move) = transition-IsMove host value to conditions at h in
    let before = move.validated.normal in
    let after = move.result.normal in
    let phase : next.phase ≡ target = ap (λ (p : Plan). p.phase) after in
    rw (phase) (
      named,
      IsEdge-IsEdge value.phase target conditions
          (rw (← ap (λ (p : Plan). p.phase) before) move.legal)
          (rw (← ap (λ (p : Plan). p.phase) before) move.unlocked),
      rw (← before) (target-IsGranted host move.plan target conditions move.required),
      ap (λ (p : Plan). p.revision) after ∙ ap (λ (p : Plan). p.revision + 1) before,
      rw (ap (λ (p : Plan). p.gates) after ∙ ap (λ (p : Plan). next_gates p target) before)
          (next_gates-IsGated _ target),
    )
