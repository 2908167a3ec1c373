-- ===== src/Plan/Stages/Moves.antt =====
-- transitionDeliveryPlan of delivery-plan.js and the stages.
use pane_fleet.Base.{
  ◌≡◌, refl, sym, ap, inl, inr, Bool, true, false, not, Option, none, some, [], Text, Result, ok,
  or_throw, guard->>-eq-ok, >>-eq-ok, >>=-ok_cases,
}
use pane_fleet.Plan.Types.{PlanHost, PlanError, transition_invalid, Phase, Plan, Approval}
use pane_fleet.Plan.Normal.{normalized_lower, normalized_timestamp}
use pane_fleet.Plan.Approval.{validate_delivery_plan, is_terminal}
use pane_fleet.Plan.Legal.{is_legal, is_execution_locked, phase_of}
use pane_fleet.Plan.Transition.{
  Conditions, is_expected, require_target, check_transition, next_approval, moved,
  transition_delivery_plan,
}
use pane_fleet.Plan.Valid.{IsValidated, validate_delivery_plan-IsValidated}
use pane_fleet.Plan.Phases.{
  legal-live, before-approved, before-executing, before-verifying, before-ready_to_release,
  before-done,
}
use pane_fleet.Plan.Stages.{
  stage_from, stage_of, is_final, Advance, reopen, approve, start, capture, remediate, pass,
  complete, cancel,
}
use pane_fleet.Plan.Stages.Digests.{KeepsHex, stage_of-validated}

-- What a transition that succeeds went through.
pub record IsMove (host : PlanHost) (value : Plan) (target : Phase) (conditions : Conditions)
    (at : Text) (next : Plan) : Type 0 where
  pub plan : Plan
  pub validated : IsValidated host value plan
  pub legal : is_legal plan.phase target ≡ true
  pub unlocked : is_execution_locked plan.phase target conditions.delivery_run_aborted ≡ false
  pub expected : is_expected conditions.expected_revision plan.revision ≡ true
  pub required : require_target host plan target conditions ≡ ok tt
  pub approval : Approval
  pub approval-eq : next_approval host plan target (normalized_timestamp host at []) ≡ ok approval
  pub result :
      IsValidated host
        (moved plan target conditions (normalized_timestamp host at []) approval)
        next

pub not-eq : (b : Bool) → not b ≡ true → b ≡ false
not-eq true h = cc
not-eq false h = refl

or_throw-eq :
    (o : Option Phase) {target : Phase}
    → or_throw {E = PlanError} o transition_invalid ≡ ok target
    → o ≡ some target
or_throw-eq none h = cc
or_throw-eq (some target) h = cc

pub transition-IsMove :
    (host : PlanHost) (value : Plan) (to : Text) (conditions : Conditions) (at : Text) {next : Plan}
    → transition_delivery_plan host value to conditions at ≡ ok next
    → (target : Phase) × (phase_of (normalized_lower host to) ≡ some target)
      × IsMove host value target conditions at next
unfolding transition_delivery_plan check_transition
transition-IsMove host value to conditions at {next} h =
    >>=-ok_cases (validate_delivery_plan host value) _ h λ plan e1 h1.
      >>=-ok_cases (or_throw (phase_of (normalized_lower host to)) transition_invalid) _ h1
        λ target e2 h2.
          let (c, h3) = >>-eq-ok (check_transition host plan target conditions) _ h2 in
          let (c1, d1) = guard->>-eq-ok (is_legal plan.phase target) _ _ c in
          let (c2, d2) =
            guard->>-eq-ok
              (not (is_execution_locked plan.phase target conditions.delivery_run_aborted)) _ _
              d1 in
          let (c3, d3) =
            guard->>-eq-ok (is_expected conditions.expected_revision plan.revision) _ _ d2 in
          >>=-ok_cases (next_approval host plan target (normalized_timestamp host at [])) _ h3
            λ approval e4 h4. (
              target,
              or_throw-eq _ e2,
              record {
                plan = plan;
                validated = validate_delivery_plan-IsValidated host value e1;
                legal = c1;
                unlocked = not-eq _ c2;
                expected = c3;
                required = d3;
                approval = approval;
                approval-eq = e4;
                result = validate_delivery_plan-IsValidated host _ h4;
              },
            )

-- A live phase has a stage that is not final.
pub live-stage : (p : Phase) (d : Text) → is_terminal p ≡ false → is_final (stage_from p d) ≡ false
live-stage Phase.draft d h = refl
live-stage Phase.planning d h = refl
live-stage Phase.needs_decision d h = refl
live-stage Phase.ready_for_approval d h = refl
live-stage Phase.approved d h = refl
live-stage Phase.executing d h = refl
live-stage Phase.verifying d h = refl
live-stage Phase.ready_to_release d h = refl
live-stage Phase.blocked d h = refl
live-stage Phase.done d h = cc
live-stage Phase.canceled d h = cc

-- The targets that leave the approval alone.
abbrev keeps_approval : Phase → Bool
keeps_approval Phase.approved = false
keeps_approval Phase.planning = false
keeps_approval _ = true

Advance-legal :
    (p t : Phase) (d d' : Text)
    → is_legal p t ≡ true
    → (keeps_approval t ≡ true → d' ≡ d)
    → Advance (stage_from p d) (stage_from t d')
Advance-legal p Phase.draft d d' h keeps = reopen (live-stage p d (legal-live p _ h))
Advance-legal p Phase.planning d d' h keeps = reopen (live-stage p d (legal-live p _ h))
Advance-legal p Phase.needs_decision d d' h keeps = reopen (live-stage p d (legal-live p _ h))
Advance-legal p Phase.ready_for_approval d d' h keeps = reopen (live-stage p d (legal-live p _ h))
Advance-legal p Phase.blocked d d' h keeps = reopen (live-stage p d (legal-live p _ h))
Advance-legal p Phase.canceled d d' h keeps = cancel (live-stage p d (legal-live p _ h))
Advance-legal p Phase.approved d d' h keeps = rw (before-approved p h) approve
Advance-legal p Phase.executing d d' h keeps = elim (before-executing p h) [
  | inl e ↦ rw (e, keeps refl) start
  | inr e ↦ rw (e, keeps refl) remediate
]
Advance-legal p Phase.verifying d d' h keeps = rw (before-verifying p h, keeps refl) capture
Advance-legal p Phase.ready_to_release d d' h keeps =
    rw (before-ready_to_release p h, keeps refl) pass
Advance-legal p Phase.done d d' h keeps = rw (before-done p h, keeps refl) complete

ok-inj : {a b : Approval} → ◌≡◌ {A = Result PlanError Approval} (ok a) (ok b) → a ≡ b
ok-inj h = cc h

kept-approval :
    (host : PlanHost) (plan : Plan) (t : Phase) (at : Text) {approval : Approval}
    → next_approval host plan t at ≡ ok approval
    → keeps_approval t ≡ true
    → approval ≡ plan.approval
unfolding next_approval
kept-approval host plan Phase.approved at h k = cc
kept-approval host plan Phase.planning at h k = cc
kept-approval host plan Phase.draft at h k = sym (ok-inj h)
kept-approval host plan Phase.needs_decision at h k = sym (ok-inj h)
kept-approval host plan Phase.ready_for_approval at h k = sym (ok-inj h)
kept-approval host plan Phase.executing at h k = sym (ok-inj h)
kept-approval host plan Phase.verifying at h k = sym (ok-inj h)
kept-approval host plan Phase.ready_to_release at h k = sym (ok-inj h)
kept-approval host plan Phase.blocked at h k = sym (ok-inj h)
kept-approval host plan Phase.done at h k = sym (ok-inj h)
kept-approval host plan Phase.canceled at h k = sym (ok-inj h)

pub move-Advance :
    (host : PlanHost)
    → KeepsHex host
    → (value : Plan) (target : Phase) (conditions : Conditions) (at : Text) (next : Plan)
    → IsMove host value target conditions at next
    → Advance (stage_of host value) (stage_of host next)
unfolding moved
move-Advance host keeps value target conditions at next m =
    let before = stage_of-validated host keeps value m.plan m.validated in
    let after = stage_of-validated host keeps _ next m.result in
    rw (after, ← before)
      (Advance-legal m.plan.phase target (normalized_lower host m.plan.approval.digest)
        (normalized_lower host m.approval.digest) m.legal
        λ k.
          ap (λ (a : Approval). normalized_lower host a.digest)
            (kept-approval host m.plan target _ m.approval-eq k))
