-- ===== src/Plan/Outcomes.antt =====
-- The edge that a transition of delivery-plan.js takes and the gates that it sets, described without the
-- tables and functions of the code.
use pane_fleet.Base.{
  ◌≡◌, Bool, true, false, not, ◌||◌, ◌&&◌, &&-eq-true, refl, List, [], ◌∷◌, some_of, inl, inr,
  Bool-cases, if◌then◌else◌, is_empty,
}
use pane_fleet.Plan.Types.{Phase, Plan, Gates}
use pane_fleet.Plan.Legal.{is_legal, is_execution_locked}
use pane_fleet.Plan.Phases.{on_every, on_every-at, same}
use pane_fleet.Plan.Transition.{Conditions, next_gates, replanned_gates}

-- The phases that each phase may be left for.
abbrev pub successors : Phase → List Phase
successors Phase.draft = Phase.planning ∷ Phase.canceled ∷ []
successors Phase.planning =
    Phase.needs_decision ∷ Phase.ready_for_approval ∷ Phase.blocked ∷ Phase.canceled ∷ []
successors Phase.needs_decision = Phase.planning ∷ Phase.ready_for_approval ∷ Phase.canceled ∷ []
successors Phase.ready_for_approval = Phase.planning ∷ Phase.approved ∷ Phase.canceled ∷ []
successors Phase.approved = Phase.planning ∷ Phase.executing ∷ Phase.canceled ∷ []
successors Phase.executing = Phase.planning ∷ Phase.verifying ∷ []
successors Phase.verifying = Phase.planning ∷ Phase.executing ∷ Phase.ready_to_release ∷ []
successors Phase.ready_to_release = Phase.planning ∷ Phase.done ∷ []
successors Phase.blocked = Phase.planning ∷ Phase.canceled ∷ []
successors _ = []

-- From the phases of the execution the way back to planning needs an aborted delivery run.
abbrev pub needs_abort : Phase → Bool
needs_abort Phase.executing = true
needs_abort Phase.verifying = true
needs_abort Phase.ready_to_release = true
needs_abort _ = false

abbrev pub IsEdge : Phase → Phase → Conditions → Type 0
IsEdge p t conditions =
    (some_of (same t) (successors p) ≡ true)
    × (not (needs_abort p && same t Phase.planning) || conditions.delivery_run_aborted ≡ true)

abbrev edge : Phase → Phase → Bool → Bool
edge p t aborted =
    not (is_legal p t)
    || is_execution_locked p t aborted
    || (some_of (same t) (successors p)
        && (not (needs_abort p && same t Phase.planning) || aborted))

edge-at : (p t : Phase) (aborted : Bool) → edge p t aborted ≡ true
unfolding is_legal is_execution_locked
edge-at p t true =
    on_every-at (λ t. edge p t true) (on_every-at (λ p. on_every (λ t. edge p t true)) refl p) t
edge-at p t false =
    on_every-at (λ t. edge p t false) (on_every-at (λ p. on_every (λ t. edge p t false)) refl p) t

pub IsEdge-IsEdge :
    (p t : Phase) (conditions : Conditions)
    → is_legal p t ≡ true
    → is_execution_locked p t conditions.delivery_run_aborted ≡ false
    → IsEdge p t conditions
IsEdge-IsEdge p t conditions legal free =
    let both = edge-at p t conditions.delivery_run_aborted in
    &&-eq-true (some_of (same t) (successors p)) _ (rw (legal, free) at both)

-- The gates behind a transition, by its target.
abbrev pub IsGated : Plan → Phase → Gates → Type 0
IsGated plan Phase.verifying gates =
    (gates.implementation_captured ≡ true)
    × (gates.qa_passed ≡ false)
    × (gates.release_verified ≡ false)
IsGated plan Phase.ready_to_release gates =
    (gates.implementation_captured ≡ plan.gates.implementation_captured)
    × (gates.qa_passed ≡ true)
    × (gates.release_verified ≡ false)
IsGated plan Phase.done gates =
    (gates.implementation_captured ≡ plan.gates.implementation_captured)
    × (gates.qa_passed ≡ plan.gates.qa_passed)
    × (gates.release_verified
        ≡ (if plan.roles.qa.release_required then true else plan.gates.release_verified))
IsGated plan Phase.planning gates =
    (gates.implementation_captured
      ≡ (if is_empty plan.approval.digest then plan.gates.implementation_captured else false))
    × (gates.qa_passed ≡ (if is_empty plan.approval.digest then plan.gates.qa_passed else false))
    × (gates.release_verified
        ≡ (if is_empty plan.approval.digest then plan.gates.release_verified else false))
IsGated plan Phase.executing gates =
    (gates.implementation_captured
      ≡ (if same plan.phase Phase.verifying then false else plan.gates.implementation_captured))
    × (gates.qa_passed ≡ (if same plan.phase Phase.verifying then false else plan.gates.qa_passed))
    × (gates.release_verified
        ≡ (if same plan.phase Phase.verifying then false else plan.gates.release_verified))
IsGated plan _ gates =
    (gates.implementation_captured ≡ plan.gates.implementation_captured)
    × (gates.qa_passed ≡ plan.gates.qa_passed)
    × (gates.release_verified ≡ plan.gates.release_verified)

executing-IsGated :
    (p : Phase) (plan : Plan)
    → plan.phase ≡ p
    → IsGated plan Phase.executing (next_gates plan Phase.executing)
unfolding next_gates
executing-IsGated Phase.verifying plan h = rw (next_gates, h) (refl, refl, refl)
executing-IsGated _ plan h = rw (next_gates, h) (refl, refl, refl)

pub next_gates-IsGated :
    (plan : Plan) (target : Phase) → IsGated plan target (next_gates plan target)
unfolding next_gates replanned_gates
next_gates-IsGated plan Phase.executing = executing-IsGated plan.phase plan refl
next_gates-IsGated plan Phase.planning = elim (Bool-cases (is_empty plan.approval.digest)) [
  | inl e ↦ rw (next_gates, replanned_gates, e) (refl, refl, refl)
  | inr e ↦ rw (next_gates, replanned_gates, e) (refl, refl, refl)
]
next_gates-IsGated plan Phase.done = elim (Bool-cases plan.roles.qa.release_required) [
  | inl e ↦ rw (next_gates, e) (refl, refl, refl)
  | inr e ↦ rw (next_gates, e) (refl, refl, refl)
]
next_gates-IsGated plan _ = (refl, refl, refl)
