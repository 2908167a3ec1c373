-- ===== src/Plan/History/Invariant.antt =====
-- Every plan that an operation of delivery-plan.js returns is sound for its phase.
use pane_fleet.Base.{◌≡◌, arith, Bool, true, false, ◌&&◌, Text}
use pane_fleet.Plan.Types.{PlanHost, Plan}
use pane_fleet.Plan.Approval.{needs_readiness}
use pane_fleet.Plan.Phases.{early-asks_nothing}
use pane_fleet.Plan.Valid.{IsSound}
use pane_fleet.Plan.Stages.{Step, transits, updates, invalidates}
use pane_fleet.Plan.Stages.Moves.{transition-IsMove}
use pane_fleet.Plan.Stages.Edits.{
  IsInvalidation, untouched, reopened, unchanged, withdrawn, replaced, invalidate-IsInvalidation,
  update_delivery_plan_definition-IsUpdate,
}

-- A phase that needs no readiness needs nothing.
not-first : (a b : Bool) → a ≡ false → (a && b) ≡ true → ⊥
not-first a b h e = ground arith

early-IsSound :
    (host : PlanHost) (plan : Plan) → needs_readiness plan.phase ≡ false → IsSound host plan
early-IsSound host plan h =
    let (a, i, q, d) = early-asks_nothing plan.phase h in
    record {
      ready = λ e. absurd (cc);
      approved = λ e. absurd (cc);
      captured = λ e. absurd (cc);
      passed = λ e. absurd (cc);
      released = λ e. absurd (not-first _ _ d e);
    }

invalidation-IsSound :
    (host : PlanHost) (value next : Plan) (at : Text)
    → IsInvalidation host value next at
    → IsSound host next
invalidation-IsSound host value next at i = elim i.withdrawn [
  | untouched same early ↦ rw (same) (early-IsSound host i.plan early)
  | reopened v ↦ v.sound
]

-- A plan that a successful transition, update or withdrawal returns is sound: if its phase needs
-- readiness it is ready, if it is in an approved phase its approval is for its current definition,
-- and the gates of its phase are set.
pub Step-IsSound : (host : PlanHost) (value next : Plan) → Step host value next → IsSound host next
Step-IsSound host value next (transits to conditions at h) =
    let (_, _, move) = transition-IsMove host value to conditions at h in move.result.sound
Step-IsSound host value next (updates patch at h) =
    let (plan, validated, _, _, update) =
      update_delivery_plan_definition-IsUpdate host value patch at h in
    elim update [
      | unchanged e ↦ rw (e) validated.sound
      | withdrawn i ↦ invalidation-IsSound host _ next at i
      | replaced _ _ _ _ v ↦ v.sound
    ]
Step-IsSound host value next (invalidates at h) =
    invalidation-IsSound host value next at (invalidate-IsInvalidation host value at h)
