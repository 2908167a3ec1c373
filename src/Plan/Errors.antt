-- ===== src/Plan/Errors.antt =====
-- The errors of the operations of delivery-plan.js on plans that may not change.
use pane_fleet.Base.{
  ◌≡◌, refl, arith, Bool, true, false, not, ◌&&◌, ◌||◌, Bool-cases, some, Text, ok, err,
  Option-cases, inl, inr,
}
use pane_fleet.Plan.Types.{PlanHost, terminal, execution_locked, transition_invalid, Phase, Plan}
use pane_fleet.Plan.Normal.{normalized_lower}
use pane_fleet.Plan.Approval.{
  validate_delivery_plan, is_terminal, invalidate_delivery_plan_approval,
}
use pane_fleet.Plan.Update.{PlanPatch, is_locked, update_delivery_plan_definition}
use pane_fleet.Plan.Legal.{is_legal, is_execution_locked, phase_of}
use pane_fleet.Plan.Transition.{Conditions, check_transition, transition_delivery_plan}
use pane_fleet.Plan.Valid.{validate_delivery_plan-IsValidated}
use pane_fleet.Plan.Phases.{terminal-illegal, on_every, on_every-at, same, same-eq}

-- The targets that the phases of the execution allow without an abort.
abbrev pub is_forward : Phase → Phase → Bool
is_forward Phase.executing Phase.verifying = true
is_forward Phase.verifying Phase.executing = true
is_forward Phase.verifying Phase.ready_to_release = true
is_forward Phase.ready_to_release Phase.done = true
is_forward _ _ = false

locked-live : (p : Phase) → is_locked p ≡ true → is_terminal p ≡ false
locked-live p h = ground (arith, on_every-at (λ p. not (is_locked p) || not (is_terminal p)) refl p)

abbrev locks : Phase → Phase → Bool
locks p t =
    not (is_locked p && is_legal p t)
    || is_forward p t
    || (is_execution_locked p t false && (is_execution_locked p t true || same t Phase.planning))

locks-at : (p t : Phase) → locks p t ≡ true
unfolding is_legal is_execution_locked
locks-at p t = on_every-at (λ t. locks p t) (on_every-at (λ p. on_every (λ t. locks p t)) refl p) t

locked-holds :
    (p t : Phase) (aborted : Bool)
    → is_locked p ≡ true
    → is_legal p t ≡ true
    → is_forward p t ≡ false
    → (t ≡ Phase.planning → aborted ≡ false)
    → is_execution_locked p t aborted ≡ true
locked-holds p t false l legal sideways running = ground (arith, locks-at p t)
locked-holds p t true l legal sideways running = elim (Bool-cases (same t Phase.planning)) [
  | inl e ↦ let never = running (same-eq t Phase.planning e) in absurd (cc)
  | inr e ↦ ground (arith, locks-at p t)
]

check-illegal :
    (host : PlanHost) (plan : Plan) (target : Phase) (conditions : Conditions)
    → is_legal plan.phase target ≡ false
    → check_transition host plan target conditions ≡ err transition_invalid
unfolding check_transition
check-illegal host plan target conditions h = rw (check_transition, h) refl

-- A valid plan that is done or canceled refuses every operation: a transition to any target and under
-- any conditions is invalid, and an update and a withdrawal of its approval report the terminal plan.
pub terminal-refuses :
    (host : PlanHost) (value plan : Plan) (to : Text) (conditions : Conditions) (patch : PlanPatch)
    (at : Text)
    → validate_delivery_plan host value ≡ ok plan
    → is_terminal plan.phase ≡ true
    → (transition_delivery_plan host value to conditions at ≡ err transition_invalid)
      × (update_delivery_plan_definition host value patch at ≡ err terminal)
      × (invalidate_delivery_plan_approval host value at ≡ err terminal)
unfolding transition_delivery_plan update_delivery_plan_definition invalidate_delivery_plan_approval
terminal-refuses host value plan to conditions patch at valid final = (
  elim (Option-cases (phase_of (normalized_lower host to))) [
    | inl e ↦ rw (valid, e) refl
    | inr (target, e) ↦
        rw
          (
            valid,
            e,
            check-illegal host plan target conditions (terminal-illegal plan.phase target final),
          )
          refl
  ],
  rw (valid, final) refl,
  rw ((validate_delivery_plan-IsValidated host value valid).shaped, final) refl,
)

check-locked :
    (host : PlanHost) (plan : Plan) (target : Phase) (conditions : Conditions)
    → is_legal plan.phase target ≡ true
    → is_execution_locked plan.phase target conditions.delivery_run_aborted ≡ true
    → check_transition host plan target conditions ≡ err execution_locked
unfolding check_transition
check-locked host plan target conditions h l = rw (check_transition, h, l) refl

-- A valid plan in execution, verification or release reports the lock for every update, and for every
-- target that the phases allow and that is neither forward, nor back to execution for a remediation, nor
-- planning with an aborted delivery run.
pub locked-refuses :
    (host : PlanHost) (value plan : Plan) (to : Text) (target : Phase) (conditions : Conditions)
    (patch : PlanPatch) (at : Text)
    → validate_delivery_plan host value ≡ ok plan
    → is_locked plan.phase ≡ true
    → phase_of (normalized_lower host to) ≡ some target
    → is_legal plan.phase target ≡ true
    → is_forward plan.phase target ≡ false
    → (target ≡ Phase.planning → conditions.delivery_run_aborted ≡ false)
    → (transition_delivery_plan host value to conditions at ≡ err execution_locked)
      × (update_delivery_plan_definition host value patch at ≡ err execution_locked)
unfolding transition_delivery_plan update_delivery_plan_definition
locked-refuses host value plan to target conditions patch at valid locked named legal sideways
      running =
    (
      rw
          (
            valid,
            named,
            check-locked host plan target conditions legal
                (locked-holds plan.phase target _ locked legal sideways running),
          )
          refl,
      rw (valid, locked-live plan.phase locked, locked) refl,
    )
