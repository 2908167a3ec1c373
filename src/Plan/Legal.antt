-- ===== src/Plan/Legal.antt =====
-- The table of phases of delivery-plan.js, lines 20 and 48 to 60, and the lock of the execution.
use pane_fleet.Base.{
  Bool, true, false, not, Option, none, some, Text, codes, text_eq, if◌then◌else◌,
}
use pane_fleet.Plan.Types.{Phase}

-- PHASE_SET
unfoldable pub phase_of : Text → Option Phase
phase_of s =
    if text_eq s (codes "draft")
    then some Phase.draft
    else if text_eq s (codes "planning")
    then some Phase.planning
    else if text_eq s (codes "needs_decision")
    then some Phase.needs_decision
    else if text_eq s (codes "ready_for_approval")
    then some Phase.ready_for_approval
    else if text_eq s (codes "approved")
    then some Phase.approved
    else if text_eq s (codes "executing")
    then some Phase.executing
    else if text_eq s (codes "verifying")
    then some Phase.verifying
    else if text_eq s (codes "ready_to_release")
    then some Phase.ready_to_release
    else if text_eq s (codes "blocked")
    then some Phase.blocked
    else if text_eq s (codes "done")
    then some Phase.done
    else if text_eq s (codes "canceled")
    then some Phase.canceled
    else none

-- LEGAL_TRANSITIONS
unfoldable pub is_legal : Phase → Phase → Bool
is_legal Phase.draft Phase.planning = true
is_legal Phase.draft Phase.canceled = true
is_legal Phase.planning Phase.needs_decision = true
is_legal Phase.planning Phase.ready_for_approval = true
is_legal Phase.planning Phase.blocked = true
is_legal Phase.planning Phase.canceled = true
is_legal Phase.needs_decision Phase.planning = true
is_legal Phase.needs_decision Phase.ready_for_approval = true
is_legal Phase.needs_decision Phase.canceled = true
is_legal Phase.ready_for_approval Phase.planning = true
is_legal Phase.ready_for_approval Phase.approved = true
is_legal Phase.ready_for_approval Phase.canceled = true
is_legal Phase.approved Phase.planning = true
is_legal Phase.approved Phase.executing = true
is_legal Phase.approved Phase.canceled = true
is_legal Phase.executing Phase.planning = true
is_legal Phase.executing Phase.verifying = true
is_legal Phase.executing Phase.blocked = true
is_legal Phase.executing Phase.canceled = true
is_legal Phase.verifying Phase.planning = true
is_legal Phase.verifying Phase.executing = true
is_legal Phase.verifying Phase.ready_to_release = true
is_legal Phase.verifying Phase.blocked = true
is_legal Phase.verifying Phase.canceled = true
is_legal Phase.ready_to_release Phase.planning = true
is_legal Phase.ready_to_release Phase.done = true
is_legal Phase.ready_to_release Phase.canceled = true
is_legal Phase.blocked Phase.planning = true
is_legal Phase.blocked Phase.canceled = true
is_legal _ _ = false

-- The three disjuncts of lines 681 to 683, by the plan's phase and the target; the Boolean is that the
-- run was aborted.
unfoldable pub is_execution_locked : Phase → Phase → Bool → Bool
is_execution_locked Phase.executing Phase.verifying aborted = false
is_execution_locked Phase.executing Phase.planning aborted = not aborted
is_execution_locked Phase.executing _ aborted = true
is_execution_locked Phase.verifying Phase.executing aborted = false
is_execution_locked Phase.verifying Phase.ready_to_release aborted = false
is_execution_locked Phase.verifying Phase.planning aborted = not aborted
is_execution_locked Phase.verifying _ aborted = true
is_execution_locked Phase.ready_to_release Phase.done aborted = false
is_execution_locked Phase.ready_to_release Phase.planning aborted = not aborted
is_execution_locked Phase.ready_to_release _ aborted = true
is_execution_locked _ _ aborted = false

-- ['approved', 'executing', 'verifying', 'ready_to_release', 'blocked']
abbrev pub needs_replan : Phase → Bool
needs_replan Phase.approved = true
needs_replan Phase.executing = true
needs_replan Phase.verifying = true
needs_replan Phase.ready_to_release = true
needs_replan Phase.blocked = true
needs_replan _ = false
