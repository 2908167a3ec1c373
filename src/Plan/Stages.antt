-- ===== src/Plan/Stages.antt =====
-- An abstract view of a plan: whether it is approved, under which digest, and how far it has come.
-- The stages know neither the content of a plan nor the conditions of a change.
pub mod Digests
pub mod Moves
pub mod Edits
use pane_fleet.Base.{◌≡◌, Bool, true, false, Text, Result, ok}
use pane_fleet.Plan.Types.{PlanHost, Phase, Plan}
use pane_fleet.Plan.Normal.{normalized_lower}
use pane_fleet.Plan.Approval.{invalidate_delivery_plan_approval}
use pane_fleet.Plan.Update.{PlanPatch, update_delivery_plan_definition}
use pane_fleet.Plan.Transition.{Conditions, transition_delivery_plan}

pub data Stage : Type 0 where
  open_ : Stage
  approved executing verifying ready done : Text → Stage
  canceled : Stage

abbrev pub stage_from : Phase → Text → Stage
stage_from Phase.approved digest = approved digest
stage_from Phase.executing digest = executing digest
stage_from Phase.verifying digest = verifying digest
stage_from Phase.ready_to_release digest = ready digest
stage_from Phase.done digest = done digest
stage_from Phase.canceled digest = canceled
stage_from _ digest = open_

abbrev pub stage_of : PlanHost → Plan → Stage
stage_of host plan = stage_from plan.phase (normalized_lower host plan.approval.digest)

abbrev pub is_final : Stage → Bool
is_final (done digest) = true
is_final canceled = true
is_final _ = false

-- The stages that a plan may pass to: approval names a digest, and from there to the end the digest
-- stays, unless the plan is opened again.
pub data Advance : Stage → Stage → Type 0 where
  stay : {s : Stage} → Advance s s
  reopen : {s : Stage} → is_final s ≡ false → Advance s open_
  approve : {d : Text} → Advance open_ (approved d)
  start : {d : Text} → Advance (approved d) (executing d)
  capture : {d : Text} → Advance (executing d) (verifying d)
  remediate : {d : Text} → Advance (verifying d) (executing d)
  pass : {d : Text} → Advance (verifying d) (ready d)
  complete : {d : Text} → Advance (ready d) (done d)
  cancel : {s : Stage} → is_final s ≡ false → Advance s canceled

-- One successful operation on a plan.
pub data Step (host : PlanHost) (value next : Plan) : Type 0 where
  transits :
      (to : Text) (conditions : Conditions) (at : Text)
      → transition_delivery_plan host value to conditions at ≡ ok next
      → Step host value next
  updates :
      (patch : PlanPatch) (at : Text)
      → update_delivery_plan_definition host value patch at ≡ ok next
      → Step host value next
  invalidates :
      (at : Text) → invalidate_delivery_plan_approval host value at ≡ ok next → Step host value next
