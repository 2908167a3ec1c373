-- ===== src/Plan/Valid.antt =====
-- What the validation of delivery-plan.js guarantees of the plan that it returns.
use pane_fleet.Base.{
  ◌≡◌, ◌∙◌, refl, sym, ap, arith, Bool, true, false, not, ◌&&◌, Result, ok, guard->>-eq-ok,
  guard-eq-ok, >>-eq-ok, >>=-ok_cases, if◌then◌else◌,
}
use pane_fleet.Plan.Types.{PlanHost, PlanError, Plan}
use pane_fleet.Plan.Normal.{normalize_delivery_plan}
use pane_fleet.Plan.Shape.{validate_sections, validate_shape, is_valid_approval}
use pane_fleet.Plan.Ready.{lint_normalized_readiness}
use pane_fleet.Plan.Approval.{
  ApprovalStatus, current, approval_status_unchecked, require_current, is_current,
  is_approval_phase, needs_readiness, needs_implementation, needs_qa, is_done, validate_phase,
  validate_delivery_plan,
}

-- The phase of a plan has what it stands for.
pub record IsSound (host : PlanHost) (plan : Plan) : Type 0 where
  pub ready : needs_readiness plan.phase ≡ true → (lint_normalized_readiness host plan).ready ≡ true
  pub approved :
      is_approval_phase plan.phase ≡ true → approval_status_unchecked host plan ≡ ok current
  pub captured : needs_implementation plan.phase ≡ true → plan.gates.implementation_captured ≡ true
  pub passed : needs_qa plan.phase ≡ true → plan.gates.qa_passed ≡ true
  pub released :
      (is_done plan.phase && plan.roles.qa.release_required) ≡ true
      → plan.gates.release_verified ≡ true

implied : (p q : Bool) → not (p && not q) ≡ true → p ≡ true → q ≡ true
implied p q h e = ground arith

implied_last : (p r q : Bool) → not (p && r && not q) ≡ true → (p && r) ≡ true → q ≡ true
implied_last p r q h e = ground arith

when :
    (b : Bool) {m : Result PlanError (Unit {0})}
    → (if b then m else ok tt) ≡ ok tt
    → b ≡ true
    → m ≡ ok tt
when true h e = h
when false h e = cc

is_current-eq : (s : ApprovalStatus) → is_current s ≡ true → s ≡ current
is_current-eq ApprovalStatus.missing h = cc
is_current-eq ApprovalStatus.current h = refl
is_current-eq ApprovalStatus.stale h = cc

pub require_current-eq :
    (host : PlanHost) (plan : Plan)
    → require_current host plan ≡ ok tt
    → approval_status_unchecked host plan ≡ ok current
unfolding require_current
require_current-eq host plan h =
    >>=-ok_cases (approval_status_unchecked host plan) _ h
      λ status e g. rw (e) (ap ok (is_current-eq status (guard-eq-ok (is_current status) _ g)))

pub validate_phase-IsSound :
    (host : PlanHost) (plan : Plan) → validate_phase host plan ≡ ok tt → IsSound host plan
unfolding validate_phase
validate_phase-IsSound host plan h =
    let (h1, k1) = guard->>-eq-ok _ _ _ h in
    let (h2, k2) = >>-eq-ok _ _ k1 in
    let (h3, k3) = guard->>-eq-ok _ _ _ k2 in
    let (h4, k4) = guard->>-eq-ok _ _ _ k3 in
    let h5 = guard-eq-ok _ _ k4 in
    record {
      ready = implied (needs_readiness plan.phase) _ h1;
      approved = λ e. require_current-eq host plan (when (is_approval_phase plan.phase) h2 e);
      captured = implied (needs_implementation plan.phase) _ h3;
      passed = implied (needs_qa plan.phase) _ h4;
      released = implied_last (is_done plan.phase) plan.roles.qa.release_required _ h5;
    }

pub ok-inj : {a b : Plan} → ◌≡◌ {A = Result PlanError Plan} (ok a) (ok b) → a ≡ b
ok-inj h = cc h

-- validateShape returns its argument, whose approval is empty or whole.
pub validate_shape-eq :
    (host : PlanHost) (plan : Plan) {result : Plan}
    → validate_shape host plan ≡ ok result
    → (result ≡ plan) × (is_valid_approval host plan.approval ≡ true)
unfolding validate_shape
validate_shape-eq host plan h =
    let (_, k8) = >>-eq-ok (validate_sections host plan) _ h in
    let (h9, k9) = guard->>-eq-ok (is_valid_approval host plan.approval) _ _ k8 in
    (sym (ok-inj k9), h9)

pub record IsValidated (host : PlanHost) (value plan : Plan) : Type 0 where
  pub shaped : validate_shape host (normalize_delivery_plan host value host.now) ≡ ok plan
  pub normal : plan ≡ normalize_delivery_plan host value host.now
  pub whole : is_valid_approval host plan.approval ≡ true
  pub sound : IsSound host plan

shape_validates :
    {host : PlanHost} {value shaped plan : Plan}
    → validate_shape host (normalize_delivery_plan host value host.now) ≡ ok shaped
    → shaped ≡ normalize_delivery_plan host value host.now
    → is_valid_approval host (normalize_delivery_plan host value host.now).approval ≡ true
    → validate_phase host shaped ≡ ok tt
    → shaped ≡ plan
    → IsValidated host value plan
shape_validates {host} {value} {shaped} {plan} v e w s r =
    let normal : plan ≡ normalize_delivery_plan host value host.now = sym r ∙ e in
    record {
      shaped = v ∙ ap ok r;
      normal = normal;
      whole = rw (normal) w;
      sound = validate_phase-IsSound host plan (rw (sym r) s);
    }

pub validate_delivery_plan-IsValidated :
    (host : PlanHost) (value : Plan) {plan : Plan}
    → validate_delivery_plan host value ≡ ok plan
    → IsValidated host value plan
unfolding validate_delivery_plan
validate_delivery_plan-IsValidated host value {plan} h =
    >>=-ok_cases (validate_shape host (normalize_delivery_plan host value host.now)) _ h
      λ shaped e k.
        let (e', w) = validate_shape-eq host _ e in
        let (s, r) = >>-eq-ok (validate_phase host shaped) _ k in
        shape_validates e e' w s (ok-inj r)
