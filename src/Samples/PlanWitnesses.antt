-- ===== src/Samples/PlanWitnesses.antt =====
-- The properties of the delivery plans at concrete inputs.
use pane_fleet.Base.{
  ◌≡◌, refl, ◌+◌, some, none, err, codes, [], ◌∷◌, text_eq, includes, is_digit, is_lower, is_upper,
  is_hex, is_space, trim_start, trim, starts_with, matches_id,
}
use pane_fleet.Delivery.Fields.{inline, collapse, text, newlines}
use pane_fleet.Plan.Types.{Phase, terminal, execution_locked, transition_invalid}
use pane_fleet.Plan.Canonical.{
  Members, member, no_members, json_object, json_number, canonical_json, canonical_sha256,
}
use pane_fleet.Plan.Canonical.Order.{swapped, canonical_json-Reordered}
use pane_fleet.Plan.Normal.{normalized_lower, normalize_delivery_plan}
use pane_fleet.Plan.Ready.{lint_normalized_readiness}
use pane_fleet.Plan.Ready.Traced.{is_complete, ready-is_complete}
use pane_fleet.Plan.Approval.{invalidate_delivery_plan_approval}
use pane_fleet.Plan.Update.{update_delivery_plan_definition}
use pane_fleet.Plan.Legal.{phase_of, is_legal}
use pane_fleet.Plan.Transition.{transition_delivery_plan}
use pane_fleet.Plan.Valid.{IsSound}
use pane_fleet.Plan.Stages.{done, stage_of, Advance, Step, transits}
use pane_fleet.Plan.Stages.Digests.{KeepsHex}
use pane_fleet.Plan.History.{
  Step-Advance, Lineage, begun, continued, Within, trail_of, done-after-release,
}
use pane_fleet.Plan.History.Invariant.{Step-IsSound}
use pane_fleet.Plan.Errors.{terminal-refuses, locked-refuses}
use pane_fleet.Plan.Outcomes.{IsEdge, IsGated}
use pane_fleet.Plan.Effects.{IsGranted, transition-effect}
use pane_fleet.Plan.Envelope.Bounds.{IsFaithful, envelope-IsFaithful}
use pane_fleet.Samples.Plans.{
  host, digest, ready_plan, approved_plan, executing_plan, verifying_plan, release_plan, done_plan,
  granted, no_patch, approves-ready, starts-approved, captures-executing, passes-verifying,
  completes-release, valid-done, valid-executing, envelope, compiles-approved,
}

keeps : KeepsHex host
keeps s h = refl

approving : Step host ready_plan approved_plan
approving = transits (codes "approved") (granted (codes "approve-plan")) (codes "2") approves-ready

completing : Step host release_plan done_plan
completing = transits (codes "done") (granted (codes "complete-plan")) (codes "6") completes-release

released :
    Lineage host
      (stage_of host done_plan
        ∷ stage_of host release_plan
        ∷ stage_of host verifying_plan
        ∷ stage_of host executing_plan
        ∷ stage_of host approved_plan
        ∷ [])
      done_plan
released =
    continued
      (continued
        (continued
          (continued (continued (begun refl) approving) (
            transits (codes "executing") (granted (codes "start-execution")) (codes "3")
              starts-approved))
          (transits (codes "verifying") (granted []) (codes "4") captures-executing))
        (transits (codes "ready_to_release") (granted []) (codes "5") passes-verifying))
      completing

step-Advance_example : Advance (stage_of host ready_plan) (stage_of host approved_plan)
step-Advance_example = Step-Advance host ready_plan approved_plan keeps approving

step-IsSound_example : IsSound host done_plan
step-IsSound_example = Step-IsSound host release_plan done_plan completing

done-after-release_example : Within (trail_of (done (normalized_lower host digest))) (
    stage_of host done_plan
    ∷ stage_of host release_plan
    ∷ stage_of host verifying_plan
    ∷ stage_of host executing_plan
    ∷ stage_of host approved_plan
    ∷ [])
done-after-release_example =
    done-after-release host
      (stage_of host done_plan
        ∷ stage_of host release_plan
        ∷ stage_of host verifying_plan
        ∷ stage_of host executing_plan
        ∷ stage_of host approved_plan
        ∷ [])
      done_plan (normalized_lower host digest) keeps released refl

terminal-refuses_example :
    (transition_delivery_plan host done_plan
        (codes "planning")
        (granted (codes "replan"))
        (codes "7")
      ≡ err transition_invalid)
    × (update_delivery_plan_definition host done_plan no_patch (codes "7") ≡ err terminal)
    × (invalidate_delivery_plan_approval host done_plan (codes "7") ≡ err terminal)
terminal-refuses_example =
    terminal-refuses host done_plan done_plan (codes "planning") (granted (codes "replan")) no_patch
      (codes "7") valid-done refl

locked-refuses_example :
    (transition_delivery_plan host executing_plan
        (codes "canceled")
        (granted (codes "cancel-plan"))
        (codes "7")
      ≡ err execution_locked)
    × (update_delivery_plan_definition host executing_plan no_patch (codes "7")
        ≡ err execution_locked)
unfolding text_eq includes is_digit is_lower is_upper is_hex is_space trim_start trim starts_with
    matches_id normalized_lower inline collapse text newlines phase_of is_legal
locked-refuses_example =
    locked-refuses host executing_plan executing_plan (codes "canceled") Phase.canceled
      (granted (codes "cancel-plan")) no_patch (codes "7") valid-executing refl refl refl refl
      λ e. refl

transition-effect_example :
    (phase_of (normalized_lower host (codes "done")) ≡ some Phase.done)
    × IsEdge Phase.ready_to_release Phase.done (granted (codes "complete-plan"))
    × IsGranted host
        (normalize_delivery_plan host release_plan (codes "1"))
        Phase.done
        (granted (codes "complete-plan"))
    × (done_plan.revision ≡ release_plan.revision + 1)
    × IsGated (normalize_delivery_plan host release_plan (codes "1")) Phase.done done_plan.gates
transition-effect_example =
    transition-effect host release_plan done_plan (codes "done") (granted (codes "complete-plan"))
      (codes "6") completes-release

ready-is_complete_example :
    (lint_normalized_readiness host ready_plan).ready ≡ is_complete host ready_plan
ready-is_complete_example = ready-is_complete host ready_plan

abbrev one_two : Members
one_two = member (codes "b") (json_number 1) (member (codes "a") (json_number 2) no_members)

abbrev two_one : Members
two_one = member (codes "a") (json_number 2) (member (codes "b") (json_number 1) no_members)

canonical_json-reordered_example :
    (canonical_json host (json_object one_two) ≡ canonical_json host (json_object two_one))
    × (canonical_sha256 host (json_object one_two) ≡ canonical_sha256 host (json_object two_one))
unfolding text_eq
canonical_json-reordered_example = canonical_json-Reordered host one_two two_one (swapped refl)

envelope-IsFaithful_example :
    IsFaithful host
      (normalize_delivery_plan host approved_plan (codes "1"))
      (codes "STEP-A")
      4000
      envelope
envelope-IsFaithful_example =
    envelope-IsFaithful host approved_plan (codes "STEP-A") 4000 none envelope compiles-approved
