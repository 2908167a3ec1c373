-- ===== src/Plan/History.antt =====
-- The histories of a plan of delivery-plan.js: what a sequence of successful operations passes through.
pub mod Invariant
use mathlib.Core.Path.{subst}
use pane_fleet.Base.{◌≡◌, refl, sym, ◌∙◌, Bool, true, false, List, [], ◌∷◌, Text, Result, ok}
use pane_fleet.Plan.Types.{PlanHost, Plan}
use pane_fleet.Plan.Transition.{transition_delivery_plan}
use pane_fleet.Plan.Update.{update_delivery_plan_definition}
use pane_fleet.Plan.Approval.{invalidate_delivery_plan_approval}
use pane_fleet.Plan.Stages.{
  Stage, open_, approved, executing, verifying, ready, done, canceled, stage_of, Advance, stay,
  reopen, approve, start, capture, remediate, pass, complete, cancel, Step, transits, updates,
  invalidates,
}
use pane_fleet.Plan.Stages.Digests.{KeepsHex}
use pane_fleet.Plan.Stages.Moves.{transition-IsMove, move-Advance}
use pane_fleet.Plan.Stages.Edits.{
  invalidate-IsInvalidation, invalidation-Advance, update_delivery_plan_definition-IsUpdate,
  update-Advance,
}

-- Every successful transition, update and withdrawal moves the stage of the plan along a step of the
-- abstract machine `Advance`, when lower-casing leaves hexadecimal digits alone: an approved digest
-- stays the same from the approval to the end of the execution.
pub Step-Advance :
    (host : PlanHost) (value next : Plan)
    → KeepsHex host
    → Step host value next
    → Advance (stage_of host value) (stage_of host next)
Step-Advance host value next keeps (transits to conditions at h) =
    let (target, _, move) = transition-IsMove host value to conditions at h in
    move-Advance host keeps value target conditions at next move
Step-Advance host value next keeps (updates patch at h) =
    let (plan, validated, _, _, update) =
      update_delivery_plan_definition-IsUpdate host value patch at h in
    update-Advance host keeps value plan next patch at validated update
Step-Advance host value next keeps (invalidates at h) =
    invalidation-Advance host keeps value next at (invalidate-IsInvalidation host value at h)

-- A plan that began open, with the stages after each of its operations, the latest first.
pub data Lineage (host : PlanHost) : List Stage → Plan → Type 0 where
  begun : {plan : Plan} → stage_of host plan ≡ open_ → Lineage host [] plan
  continued :
      {stages : List Stage} {value next : Plan}
      → Lineage host stages value
      → Step host value next
      → Lineage host (stage_of host next ∷ stages) next

-- The stages of the first list stand in the second in the same order.
pub data Within : List Stage → List Stage → Type 0 where
  none_left : {t : List Stage} → Within [] t
  same : {x : Stage} {s t : List Stage} → Within s t → Within (x ∷ s) (x ∷ t)
  skip : {x : Stage} {s t : List Stage} → Within s t → Within s (x ∷ t)

within-tail : {x : Stage} {s t : List Stage} → Within (x ∷ s) t → Within s t
within-tail (same w) = skip w
within-tail (skip w) = skip (within-tail w)

-- What must come before a stage, itself included, the latest first.
abbrev pub trail_of : Stage → List Stage
trail_of (approved d) = approved d ∷ []
trail_of (executing d) = executing d ∷ approved d ∷ []
trail_of (verifying d) = verifying d ∷ executing d ∷ approved d ∷ []
trail_of (ready d) = ready d ∷ verifying d ∷ executing d ∷ approved d ∷ []
trail_of (done d) = done d ∷ ready d ∷ verifying d ∷ executing d ∷ approved d ∷ []
trail_of _ = []

advance-trail :
    {s t : Stage} {stages : List Stage}
    → Advance s t
    → Within (trail_of s) stages
    → Within (trail_of t) (t ∷ stages)
advance-trail stay w = skip w
advance-trail (reopen _) w = none_left
advance-trail approve w = same none_left
advance-trail start w = same w
advance-trail capture w = same w
advance-trail remediate w = same (within-tail (within-tail w))
advance-trail pass w = same w
advance-trail complete w = same w
advance-trail (cancel _) w = none_left

lineage-trail :
    (host : PlanHost)
    → KeepsHex host
    → {stages : List Stage} {plan : Plan} → Lineage host stages plan
    → Within (trail_of (stage_of host plan)) stages
lineage-trail host keeps (begun e) = rw (e) none_left
lineage-trail host keeps (continued {value = value} {next = next} lineage step) =
    advance-trail (Step-Advance host value next keeps step) (lineage-trail host keeps lineage)

-- A plan that began without approval and is done was approved, executed, verified and made ready to
-- release before, in this order and all under the digest it is done with.
pub done-after-release :
    (host : PlanHost) (stages : List Stage) (plan : Plan) (digest : Text)
    → KeepsHex host
    → Lineage host stages plan
    → stage_of host plan ≡ done digest
    → Within (trail_of (done digest)) stages
done-after-release host stages plan digest keeps lineage e =
    subst (λ s. Within (trail_of s) stages) e (lineage-trail host keeps lineage)
