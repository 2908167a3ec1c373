-- ===== src/Plan/Envelope/Bounds.antt =====
-- What an execution envelope of delivery-plan.js guarantees.
use pane_fleet.Base.{
  ℕ, ◌≤◌, ◌≡◌, refl, sym, ap, ◌∙◌, Bool, true, false, ◌&&◌, if-eq_cases, Option, none, some, leb,
  leb→le, length, List, [], ◌∷◌, Text, text_eq, text_eq_sound, is_empty, &&-eq-true, Result, ok,
  or_throw, guard->>-eq-ok, >>=-ok_cases, if◌then◌else◌,
}
use pane_fleet.Plan.Types.{PlanHost, PlanError, step_not_found, Phase, Plan, PlanStep}
use pane_fleet.Plan.Normal.{normalized_id, normalize_delivery_plan}
use pane_fleet.Plan.Definition.{delivery_plan_digest}
use pane_fleet.Plan.Approval.{
  ApprovalStatus, current, approval_status_unchecked, is_approval_phase, validate_delivery_plan,
  delivery_plan_approval_status, is_current,
}
use pane_fleet.Plan.Valid.{validate_delivery_plan-IsValidated}
use pane_fleet.Plan.Envelope.{
  ExpectedBaseline, is_executable, find_step, expected_baseline, is_exact, Envelope, envelope_of,
  compile_delivery_plan_execution_envelope,
}

executable-approved : (p : Phase) → is_executable p ≡ true → is_approval_phase p ≡ true
executable-approved Phase.approved h = refl
executable-approved Phase.executing h = refl
executable-approved Phase.draft h = cc
executable-approved Phase.planning h = cc
executable-approved Phase.needs_decision h = cc
executable-approved Phase.ready_for_approval h = cc
executable-approved Phase.verifying h = cc
executable-approved Phase.ready_to_release h = cc
executable-approved Phase.blocked h = cc
executable-approved Phase.done h = cc
executable-approved Phase.canceled h = cc

not-missing :
    {P : Type 0}
    → ◌≡◌ {A = Result PlanError ApprovalStatus} (ok ApprovalStatus.missing) (ok current)
    → P
not-missing h = absurd (cc)

text-inj : {a b : Text} → ◌≡◌ {A = Result PlanError Text} (ok a) (ok b) → a ≡ b
text-inj h = cc h

some-inj : {a b : PlanStep} → some a ≡ some b → a ≡ b
some-inj h = cc h

envelope-inj : {a b : Envelope} → ◌≡◌ {A = Result PlanError Envelope} (ok a) (ok b) → a ≡ b
envelope-inj h = cc h

status-current :
    (b : Bool)
    → ◌≡◌ {A = Result PlanError ApprovalStatus}
        (ok (if b then current else ApprovalStatus.stale))
        (ok current)
    → b ≡ true
status-current true h = refl
status-current false h = cc

-- A current approval names the digest of the definition.
pub current-digest :
    (host : PlanHost) (plan : Plan) (digest : Text)
    → approval_status_unchecked host plan ≡ ok current
    → delivery_plan_digest host plan ≡ ok digest
    → plan.approval.digest ≡ digest
unfolding approval_status_unchecked
current-digest host plan digest h e =
    if-eq_cases (is_empty plan.approval.digest) h (λ _ k. not-missing k)
      λ _ k. >>=-ok_cases (delivery_plan_digest host plan) _ k λ d f g.
        text_eq_sound _ _ (status-current (text_eq plan.approval.digest d) g) ∙ text-inj (sym f ∙ e)

find_step-id :
    (steps : List PlanStep) (id : Text) {step : PlanStep}
    → find_step steps id ≡ some step
    → step.id ≡ id
unfolding find_step
find_step-id [] id h = cc
find_step-id (s ∷ steps) id h =
    if-eq_cases (text_eq s.id id) h
      (λ e k. ap (λ (t : PlanStep). t.id) (sym (some-inj k)) ∙ text_eq_sound s.id id e)
      (λ _ k. find_step-id steps id k)

or_throw-some :
    (o : Option PlanStep) {step : PlanStep}
    → or_throw {E = PlanError} o step_not_found ≡ ok step
    → o ≡ some step
or_throw-some none h = cc
or_throw-some (some step) h = cc

-- What an envelope keeps, of the normalised plan that it was compiled from.
pub record IsFaithful (host : PlanHost) (plan : Plan) (step_id : Text) (max_chars : ℕ)
    (envelope : Envelope) : Type 0 where
  pub counted : envelope.chars ≡ length envelope.text
  pub bounded : envelope.chars ≤ max_chars
  pub low : 800 ≤ max_chars
  pub high : max_chars ≤ 8000
  pub executable : is_executable plan.phase ≡ true
  pub writes : plan.authority.workspace_write ≡ true
  pub step : envelope.step_id ≡ normalized_id host step_id
  pub digest : delivery_plan_digest host plan ≡ ok envelope.digest
  pub approved : plan.approval.digest ≡ envelope.digest

-- An envelope is no longer than its limit, which is from 800 to 8000, and counts its own units. It is
-- compiled only of a plan that is approved or executing and may write to the workspace; it names the
-- step that was asked for, and its digest is the one that the approval of the plan names and the one
-- of the plan's definition.
pub envelope-IsFaithful :
    (host : PlanHost) (value : Plan) (step_id : Text) (max_chars : ℕ)
    (expected : Option ExpectedBaseline) (envelope : Envelope)
    → compile_delivery_plan_execution_envelope host value step_id max_chars expected ≡ ok envelope
    → IsFaithful host (normalize_delivery_plan host value host.now) step_id max_chars envelope
unfolding compile_delivery_plan_execution_envelope envelope_of
envelope-IsFaithful host value step_id max_chars expected envelope h =
    >>=-ok_cases (validate_delivery_plan host value) _ h λ plan e1 h1.
      let valid = validate_delivery_plan-IsValidated host value e1 in
      let (limits, h2) = guard->>-eq-ok (leb 800 max_chars && leb max_chars 8000) _ _ h1 in
      let (low, high) = &&-eq-true (leb 800 max_chars) _ limits in
      let (executable, h3) = guard->>-eq-ok (is_executable plan.phase) _ _ h2 in
      >>=-ok_cases (delivery_plan_approval_status host plan) _ h3 λ status e4 h4.
        let (_, h5) = guard->>-eq-ok (is_current status) _ _ h4 in
        let (write, h6) = guard->>-eq-ok plan.authority.workspace_write _ _ h5 in
        >>=-ok_cases
          (or_throw (find_step plan.roles.dev.steps (normalized_id host step_id)) step_not_found) _
          h6
          λ step e7 h7. >>=-ok_cases (delivery_plan_digest host plan) _ h7 λ digest e8 h8.
            let (_, h9) =
              guard->>-eq-ok (is_exact (expected_baseline host plan.baseline expected)) _ _ h8 in
            let compiled =
              envelope_of host plan step digest (expected_baseline host plan.baseline expected) in
            let (fits, h10) = guard->>-eq-ok (leb compiled.chars max_chars) _ (ok compiled) h9 in
            let same : compiled ≡ envelope = envelope-inj h10 in
            rw (← valid.normal, ← same)
              (record {
                counted = refl;
                bounded = leb→le _ _ fits;
                low = leb→le 800 max_chars low;
                high = leb→le max_chars 8000 high;
                executable = executable;
                writes = write;
                step = find_step-id plan.roles.dev.steps _ (or_throw-some _ e7);
                digest = e8;
                approved =
                    current-digest host plan digest
                      (valid.sound.approved (executable-approved plan.phase executable)) e8;
              })
