-- ===== src/Plan/Phases.antt =====
-- The phases of delivery-plan.js as a finite type: a test on every phase proves itself by computing.
use pane_fleet.Base.{
  ℕ, ◌≡◌, refl, ap, sym, ◌∙◌, ◌⊎◌, inl, inr, arith, Bool, true, false, not, ◌&&◌, ◌||◌, ◌==◌,
  ==_iff, if◌then◌else◌, Bool-cases,
}
use pane_fleet.Plan.Types.{Phase}
use pane_fleet.Plan.Approval.{
  is_terminal, needs_readiness, is_approval_phase, needs_implementation, needs_qa, is_done,
}
use pane_fleet.Plan.Legal.{is_legal}

abbrev pub rank : Phase → ℕ
rank Phase.draft = 0
rank Phase.planning = 1
rank Phase.needs_decision = 2
rank Phase.ready_for_approval = 3
rank Phase.approved = 4
rank Phase.executing = 5
rank Phase.verifying = 6
rank Phase.ready_to_release = 7
rank Phase.blocked = 8
rank Phase.done = 9
rank Phase.canceled = 10

abbrev phase_at : ℕ → Phase
phase_at n =
    if n == 0
    then Phase.draft
    else if n == 1
    then Phase.planning
    else if n == 2
    then Phase.needs_decision
    else if n == 3
    then Phase.ready_for_approval
    else if n == 4
    then Phase.approved
    else if n == 5
    then Phase.executing
    else if n == 6
    then Phase.verifying
    else if n == 7
    then Phase.ready_to_release
    else if n == 8
    then Phase.blocked
    else if n == 9
    then Phase.done
    else Phase.canceled

phase_at-rank : (p : Phase) → phase_at (rank p) ≡ p
phase_at-rank Phase.draft = refl
phase_at-rank Phase.planning = refl
phase_at-rank Phase.needs_decision = refl
phase_at-rank Phase.ready_for_approval = refl
phase_at-rank Phase.approved = refl
phase_at-rank Phase.executing = refl
phase_at-rank Phase.verifying = refl
phase_at-rank Phase.ready_to_release = refl
phase_at-rank Phase.blocked = refl
phase_at-rank Phase.done = refl
phase_at-rank Phase.canceled = refl

abbrev pub same : Phase → Phase → Bool
same p q = rank p == rank q

pub same-eq : (p q : Phase) → same p q ≡ true → p ≡ q
same-eq p q h =
    sym (phase_at-rank p) ∙ ap phase_at ((==_iff (rank p) (rank q)).0 h) ∙ phase_at-rank q

abbrev pub on_every : (Phase → Bool) → Bool
on_every test =
    test Phase.draft
    && test Phase.planning
    && test Phase.needs_decision
    && test Phase.ready_for_approval
    && test Phase.approved
    && test Phase.executing
    && test Phase.verifying
    && test Phase.ready_to_release
    && test Phase.blocked
    && test Phase.done
    && test Phase.canceled

pub on_every-at : (test : Phase → Bool) → on_every test ≡ true → (p : Phase) → test p ≡ true
on_every-at test h Phase.draft = ground arith
on_every-at test h Phase.planning = ground arith
on_every-at test h Phase.needs_decision = ground arith
on_every-at test h Phase.ready_for_approval = ground arith
on_every-at test h Phase.approved = ground arith
on_every-at test h Phase.executing = ground arith
on_every-at test h Phase.verifying = ground arith
on_every-at test h Phase.ready_to_release = ground arith
on_every-at test h Phase.blocked = ground arith
on_every-at test h Phase.done = ground arith
on_every-at test h Phase.canceled = ground arith

implies : (a b : Bool) → (not a || b) ≡ true → a ≡ true → b ≡ true
implies a b h e = ground arith

-- The phases that ask for an approval or for a gate ask for readiness.
pub early-asks_nothing :
    (p : Phase)
    → needs_readiness p ≡ false
    → (is_approval_phase p ≡ false)
      × (needs_implementation p ≡ false)
      × (needs_qa p ≡ false)
      × (is_done p ≡ false)
early-asks_nothing p h =
    let asks : (not (is_approval_phase p || needs_implementation p || needs_qa p || is_done p)
          || needs_readiness p)
        ≡ true =
      on_every-at
        (λ p.
          not (is_approval_phase p || needs_implementation p || needs_qa p || is_done p)
          || needs_readiness p)
        refl p in
    (ground arith, ground arith, ground arith, ground arith)

-- The phases before the target of a legal change.
pub legal-live : (p t : Phase) → is_legal p t ≡ true → is_terminal p ≡ false
unfolding is_legal
legal-live p t h =
    let live =
      on_every-at (λ p. on_every (λ t. not (is_legal p t) || not (is_terminal p))) refl p in
    let at_t = on_every-at (λ t. not (is_legal p t) || not (is_terminal p)) live t in ground arith

pub before-approved : (p : Phase) → is_legal p Phase.approved ≡ true → p ≡ Phase.ready_for_approval
unfolding is_legal
before-approved p h = same-eq p Phase.ready_for_approval (
    implies (is_legal p Phase.approved) _
      (on_every-at (λ p. not (is_legal p Phase.approved) || same p Phase.ready_for_approval) refl p)
      h)

pub before-executing :
    (p : Phase) → is_legal p Phase.executing ≡ true → (p ≡ Phase.approved) ⊎ (p ≡ Phase.verifying)
unfolding is_legal
before-executing p h =
    let either =
      implies (is_legal p Phase.executing) _
        (on_every-at
          (λ p.
            not (is_legal p Phase.executing) || (same p Phase.approved || same p Phase.verifying))
          refl p)
        h in
    elim (Bool-cases (same p Phase.approved)) [
      | inl e ↦ inl (same-eq p Phase.approved e)
      | inr e ↦ inr (same-eq p Phase.verifying (ground arith))
    ]

pub before-verifying : (p : Phase) → is_legal p Phase.verifying ≡ true → p ≡ Phase.executing
unfolding is_legal
before-verifying p h = same-eq p Phase.executing (
    implies (is_legal p Phase.verifying) _
      (on_every-at (λ p. not (is_legal p Phase.verifying) || same p Phase.executing) refl p) h)

pub before-ready_to_release :
    (p : Phase) → is_legal p Phase.ready_to_release ≡ true → p ≡ Phase.verifying
unfolding is_legal
before-ready_to_release p h = same-eq p Phase.verifying (
    implies (is_legal p Phase.ready_to_release) _
      (on_every-at (λ p. not (is_legal p Phase.ready_to_release) || same p Phase.verifying) refl p)
      h)

pub before-done : (p : Phase) → is_legal p Phase.done ≡ true → p ≡ Phase.ready_to_release
unfolding is_legal
before-done p h = same-eq p Phase.ready_to_release (
    implies (is_legal p Phase.done) _
      (on_every-at (λ p. not (is_legal p Phase.done) || same p Phase.ready_to_release) refl p) h)

live-final : (b : Bool) → b ≡ true → b ≡ false → ⊥
live-final true h e = cc
live-final false h e = cc

pub terminal-illegal : (p t : Phase) → is_terminal p ≡ true → is_legal p t ≡ false
terminal-illegal p t h = elim (Bool-cases (is_legal p t)) [
  | inl e ↦ absurd (live-final (is_terminal p) h (legal-live p t e))
  | inr e ↦ e
]
