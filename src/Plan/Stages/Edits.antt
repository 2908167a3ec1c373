-- ===== src/Plan/Stages/Edits.antt =====
-- invalidateDeliveryPlanApproval and updateDeliveryPlanDefinition of delivery-plan.js and the stages.
use pane_fleet.Base.{
  ◌≡◌, arith, refl, sym, ap, inl, inr, Bool, true, false, not, ◌&&◌, ◌||◌, Bool-cases, if-eq_cases,
  Text, text_eq, is_empty, ok, guard->>-eq-ok, >>=-ok_cases, if◌then◌else◌,
}
use pane_fleet.Plan.Types.{PlanHost, Plan}
use pane_fleet.Plan.Normal.{normalized_lower, normalize_delivery_plan, normalized_approval}
use pane_fleet.Plan.Shape.{validate_shape}
use pane_fleet.Plan.Ready.{lint_normalized_readiness}
use pane_fleet.Plan.Definition.{delivery_plan_digest}
use pane_fleet.Plan.Approval.{
  validate_delivery_plan, is_terminal, needs_readiness, readiness_phase, invalidated,
  invalidate_delivery_plan_approval,
}
use pane_fleet.Plan.Update.{
  PlanPatch, merged_definition, is_locked, replace_definition, update_delivery_plan_definition,
}
use pane_fleet.Plan.Valid.{
  IsValidated, ok-inj, validate_shape-eq, validate_delivery_plan-IsValidated,
}
use pane_fleet.Plan.Stages.{open_, stage_from, stage_of, Advance, stay, reopen}
use pane_fleet.Plan.Stages.Digests.{KeepsHex, lower-whole, stage_of-normal, stage_of-validated}
use pane_fleet.Plan.Stages.Moves.{live-stage, not-eq}

-- What a withdrawal of the approval gives: the plan itself, which had none, or the plan opened again.
pub data IsWithdrawn (host : PlanHost) (plan next : Plan) (at : Text) : Type 0 where
  untouched : next ≡ plan → needs_readiness plan.phase ≡ false → IsWithdrawn host plan next at
  reopened : IsValidated host (invalidated host plan at) next → IsWithdrawn host plan next at

pub record IsInvalidation (host : PlanHost) (value next : Plan) (at : Text) : Type 0 where
  pub plan : Plan
  pub shaped : validate_shape host (normalize_delivery_plan host value host.now) ≡ ok plan
  pub live : is_terminal plan.phase ≡ false
  pub withdrawn : IsWithdrawn host plan next at

second : (a b : Bool) → (a && not b) ≡ true → b ≡ false
second true b h = not-eq b h
second false b h = cc

withdraw-IsWithdrawn :
    (host : PlanHost) (plan next : Plan) (at : Text)
    → (if is_empty plan.approval.digest && not (needs_readiness plan.phase)
        then ok plan
        else validate_delivery_plan host (invalidated host plan at))
      ≡ ok next
    → IsWithdrawn host plan next at
withdraw-IsWithdrawn host plan next at h =
    if-eq_cases (is_empty plan.approval.digest && not (needs_readiness plan.phase)) h
      (λ e k. untouched (sym (ok-inj k)) (second (is_empty plan.approval.digest) _ e))
      (λ e k. reopened (validate_delivery_plan-IsValidated host _ k))

pub invalidate-IsInvalidation :
    (host : PlanHost) (value : Plan) (at : Text) {next : Plan}
    → invalidate_delivery_plan_approval host value at ≡ ok next
    → IsInvalidation host value next at
unfolding invalidate_delivery_plan_approval
invalidate-IsInvalidation host value at {next} h =
    >>=-ok_cases (validate_shape host (normalize_delivery_plan host value host.now)) _ h λ plan e k.
      let (l, r) = guard->>-eq-ok (not (is_terminal plan.phase)) _ _ k in
      record {
        plan = plan;
        shaped = e;
        live = not-eq _ l;
        withdrawn = withdraw-IsWithdrawn host plan next at r;
      }

readiness_phase-open_ :
    (host : PlanHost) (plan : Plan) (d : Text) → stage_from (readiness_phase host plan) d ≡ open_
unfolding readiness_phase
readiness_phase-open_ host plan d = elim (Bool-cases (lint_normalized_readiness host plan).ready) [
  | inl e ↦ rw (readiness_phase, e) refl
  | inr e ↦ rw (readiness_phase, e) refl
]

shaped-stage :
    (host : PlanHost)
    → KeepsHex host
    → (value plan : Plan)
    → validate_shape host (normalize_delivery_plan host value host.now) ≡ ok plan
    → stage_of host plan ≡ stage_of host value
shaped-stage host keeps value plan h =
    let (e, w) = validate_shape-eq host _ h in stage_of-normal host keeps value plan e (rw (e) w)

pub invalidation-Advance :
    (host : PlanHost)
    → KeepsHex host
    → (value next : Plan) (at : Text) → IsInvalidation host value next at
    → Advance (stage_of host value) (stage_of host next)
unfolding invalidated
invalidation-Advance host keeps value next at i =
    let before = shaped-stage host keeps value i.plan i.shaped in
    elim i.withdrawn [
      | untouched same _ ↦ rw (same, before) stay
      | reopened v ↦
          rw
            (
              stage_of-validated host keeps _ next v,
              readiness_phase-open_ host i.plan
                  (normalized_lower host (invalidated host i.plan at).approval.digest),
              ← before,
            )
            (reopen (live-stage i.plan.phase (normalized_lower host i.plan.approval.digest) i.live))
    ]

-- What an update that succeeds gives: the plan itself, a withdrawal of the approval of the patched
-- plan, or the patched plan with the phase, the approval and the gates it had.
abbrev candidate_of : PlanHost → Plan → PlanPatch → Plan
candidate_of host plan patch = normalize_delivery_plan host (merged_definition plan patch) host.now

pub data IsUpdate (host : PlanHost) (plan : Plan) (patch : PlanPatch) (at : Text) (next : Plan)
    : Type 0 where
  unchanged : next ≡ plan → IsUpdate host plan patch at next
  withdrawn :
      IsInvalidation host (candidate_of host plan patch) next at → IsUpdate host plan patch at next
  replaced :
      (merged : Plan)
      → merged.phase ≡ plan.phase
      → merged.approval ≡ plan.approval
      → needs_readiness plan.phase ≡ false
      → IsValidated host merged next
      → IsUpdate host plan patch at next

neither : (a b : Bool) → (a || b) ≡ false → b ≡ false
neither a b h = ground arith

replace-IsUpdate :
    (host : PlanHost) (plan : Plan) (patch : PlanPatch) (at : Text) (next : Plan)
    → replace_definition host plan (candidate_of host plan patch) at ≡ ok next
    → IsUpdate host plan patch at next
unfolding replace_definition
replace-IsUpdate host plan patch at next h =
    if-eq_cases (not (is_empty plan.approval.digest) || needs_readiness plan.phase) h
      (λ e k. withdrawn (invalidate-IsInvalidation host _ at k))
      (λ e k.
        replaced _ refl refl (neither (not (is_empty plan.approval.digest)) _ e)
          (validate_delivery_plan-IsValidated host _ k))

branches-IsUpdate :
    (host : PlanHost) (plan : Plan) (patch : PlanPatch) (at : Text) (next : Plan) (same : Bool)
    → (if same then ok plan else replace_definition host plan (candidate_of host plan patch) at)
      ≡ ok next
    → IsUpdate host plan patch at next
branches-IsUpdate host plan patch at next true h = unchanged (sym (ok-inj h))
branches-IsUpdate host plan patch at next false h = replace-IsUpdate host plan patch at next h

pub update_delivery_plan_definition-IsUpdate :
    (host : PlanHost) (value : Plan) (patch : PlanPatch) (at : Text) {next : Plan}
    → update_delivery_plan_definition host value patch at ≡ ok next
    → (plan : Plan) × IsValidated host value plan
      × (is_terminal plan.phase ≡ false)
      × (is_locked plan.phase ≡ false)
      × IsUpdate host plan patch at next
unfolding update_delivery_plan_definition
update_delivery_plan_definition-IsUpdate host value patch at {next} h =
    >>=-ok_cases (validate_delivery_plan host value) _ h λ plan e1 h1.
      let (t, h2) = guard->>-eq-ok (not (is_terminal plan.phase)) _ _ h1 in
      let (l, h3) = guard->>-eq-ok (not (is_locked plan.phase)) _ _ h2 in
      >>=-ok_cases (validate_shape host (candidate_of host plan patch)) _ h3 λ shaped e4 h4.
        >>=-ok_cases (delivery_plan_digest host (candidate_of host plan patch)) _ h4 λ new e5 h5.
          >>=-ok_cases (delivery_plan_digest host plan) _ h5 λ old e6 h6. (
            plan,
            validate_delivery_plan-IsValidated host value e1,
            not-eq _ t,
            not-eq _ l,
            branches-IsUpdate host plan patch at next (text_eq new old) h6,
          )

pub update-Advance :
    (host : PlanHost)
    → KeepsHex host
    → (value plan next : Plan) (patch : PlanPatch) (at : Text) → IsValidated host value plan
    → IsUpdate host plan patch at next
    → Advance (stage_of host value) (stage_of host next)
unfolding normalize_delivery_plan normalized_approval merged_definition
update-Advance host keeps value plan next patch at v u =
    let before = stage_of-validated host keeps value plan v in
    let same = lower-whole host keeps plan v.whole in
    elim u [
      | unchanged e ↦ rw (e, before) stay
      | withdrawn i ↦
          let candidate : stage_of host (candidate_of host plan patch) ≡ stage_of host plan =
            ap (λ d. stage_from plan.phase (normalized_lower host d)) same in
          rw (← before, ← candidate) (invalidation-Advance host keeps _ next at i)
      | replaced merged phase approval _ r ↦
          rw (stage_of-validated host keeps merged next r, phase, approval, before) stay
    ]
