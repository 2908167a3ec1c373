-- ===== src/Delivery/Steps/Checked.antt =====
-- What recordDeliveryRunVerification of delivery-run.js makes of its input: the ids it refers to, the
-- criteria and the record, described without the functions that build them.
use pane_fleet.Base.{
  ◌≡◌, refl, ap, sym, Bool, true, ◌&&◌, &&-eq-true, Option, none, some, List, [], ◌∷◌, ◌++◌, every,
  Text, codes, text_eq, text_eq_sound, includes, if◌then◌else◌, if-eq_cases, Result, ok,
  >>=-ok_cases, >>-eq-ok, guard->>-eq-ok, guard-eq-ok, map_m, guard, ◌>>◌, leb, length, ℕ,
}
use pane_fleet.Delivery.Types.{
  RunError, evidence_reference_unknown, evidence_not_for_task, verification_criterion_invalid, Task,
  Run, Platform, Baseline, Criterion, Verification, VerificationOutcome, TaskState, passed, failed,
}
use pane_fleet.Delivery.Fields.{text, inline, normalized_ids, normalized_unique_ids}
use pane_fleet.Delivery.Validate.Records.{
  criterion_outcome_set, same_mission, captured_digest, criterion_passed,
}
use pane_fleet.Delivery.Verify.{
  VerifyInput, check_references, normalized_criterion, outcome_of, state_after, verification_record,
}

-- The ids in upper case, each once, behind those in `seen`.
abbrev pub gathered : Platform → List Text → List Text → List Text
gathered p seen [] = seen
gathered p seen (value ∷ values) =
    gathered p
      (if includes seen (p.to_upper_case (inline value))
        then seen
        else seen ++ p.to_upper_case (inline value) ∷ [])
      values

pub record IsCriterion (p : Platform) (task : Task) (all mine : List Text) (given entry : Criterion)
    : Type 0 where
  pub acceptance_id : entry.acceptance_id ≡ p.to_upper_case (inline given.acceptance_id)
  pub listed : includes task.acceptance_ids entry.acceptance_id ≡ true
  pub outcome : entry.outcome ≡ p.to_lower_case (inline given.outcome)
  pub evidence_ids : entry.evidence_ids ≡ gathered p [] given.evidence_ids
  pub known : every (λ id. includes all id && includes mine id) entry.evidence_ids ≡ true

-- The criteria of the input, one by one.
pub data AreCriteria (p : Platform) (task : Task) (all mine : List Text)
    : List Criterion → List Criterion → Type 0 where
  no_criteria : AreCriteria p task all mine [] []
  next_criterion :
      {given entry : Criterion} {givens entries : List Criterion}
      → IsCriterion p task all mine given entry
      → AreCriteria p task all mine givens entries
      → AreCriteria p task all mine (given ∷ givens) (entry ∷ entries)

abbrev pub verdict_of : List Criterion → VerificationOutcome
verdict_of criteria =
    if every (λ (c : Criterion). text_eq c.outcome (codes "passed")) criteria
    then passed
    else failed

abbrev pub settled_state : VerificationOutcome → TaskState
settled_state passed = TaskState.verified
settled_state failed = TaskState.failed

abbrev pub expected_record :
    Platform
    → Run
    → Task
    → VerifyInput
    → List Criterion
    → Baseline
    → Baseline
    → List Text
    → Text
    → Verification
expected_record p run task input criteria earlier baseline referenced at = record {
  id = p.to_lower_case (inline input.id);
  step_id = task.step_id;
  plan_digest = run.plan_digest;
  implementation_mission_id = input.mission_id;
  verifier = codes "operator";
  criteria = criteria;
  outcome = verdict_of criteria;
  before_baseline_digest = earlier.digest;
  after_baseline_digest = baseline.digest;
  evidence_ids = referenced;
  note = text input.note;
  verified_at = at;
}

ids-eq : {a b : List Text} → ◌≡◌ {A = Result RunError (List Text)} (ok a) (ok b) → a ≡ b
ids-eq h = cc h

normalized_ids-gathered :
    (p : Platform) (pattern : Text → Bool) (code : RunError) (values seen ids : List Text)
    → normalized_ids p pattern code seen values ≡ ok ids
    → ids ≡ gathered p seen values
unfolding normalized_ids
normalized_ids-gathered p pattern code [] seen ids h = ids-eq (sym h)
normalized_ids-gathered p pattern code (value ∷ values) seen ids h =
    if-eq_cases (pattern (p.to_upper_case (inline value))) h
      (λ _ h1. normalized_ids-gathered p pattern code values _ ids h1) (λ _ h1. absurd (cc h1))

pub normalized_unique_ids-gathered :
    (p : Platform) (values : List Text) (pattern : Text → Bool) (code : RunError) (most : ℕ)
    (ids : List Text)
    → normalized_unique_ids p values pattern code most ≡ ok ids
    → ids ≡ gathered p [] values
unfolding normalized_unique_ids
normalized_unique_ids-gathered p values pattern code most ids h =
    let (_, h1) = guard->>-eq-ok (leb (length values) most) code _ h in
    normalized_ids-gathered p pattern code values [] ids h1

pub check_references-known :
    (all mine ids : List Text)
    → check_references all mine ids ≡ ok tt
    → every (λ id. includes all id && includes mine id) ids ≡ true
unfolding check_references
check_references-known all mine [] h = refl
check_references-known all mine (id ∷ ids) h =
    let (both, rest) =
      >>-eq-ok
        (guard (includes all id) evidence_reference_unknown
          >> guard (includes mine id) evidence_not_for_task)
        _ h in
    let (a, h1) = guard->>-eq-ok (includes all id) evidence_reference_unknown _ both in
    let m = guard-eq-ok (includes mine id) evidence_not_for_task h1 in
    rw (a, m) (check_references-known all mine ids rest)

entry-eq : {a b : Criterion} → ◌≡◌ {A = Result RunError Criterion} (ok a) (ok b) → a ≡ b
entry-eq h = cc h

entries-eq :
    {a b : List Criterion} → ◌≡◌ {A = Result RunError (List Criterion)} (ok a) (ok b) → a ≡ b
entries-eq h = cc h

normalized_criterion-IsCriterion :
    (p : Platform) (task : Task) (all mine : List Text) (given entry : Criterion)
    → normalized_criterion p task all mine given ≡ ok entry
    → IsCriterion p task all mine given entry
unfolding normalized_criterion
normalized_criterion-IsCriterion p task all mine given entry h =
    let (named, h1) =
      guard->>-eq-ok
        (includes task.acceptance_ids (p.to_upper_case (inline given.acceptance_id))
          && includes criterion_outcome_set (p.to_lower_case (inline given.outcome)))
        verification_criterion_invalid _ h in
    >>=-ok_cases (normalized_unique_ids p given.evidence_ids _ _ 128) _ h1 λ ids e2 h2.
      let (known, h3) = >>-eq-ok (check_references all mine ids) _ h2 in
      let same = entry-eq h3 in
      let gathers = normalized_unique_ids-gathered p given.evidence_ids _ _ 128 ids e2 in
      record {
        acceptance_id = rw (← same) refl;
        listed = rw (← same) ((&&-eq-true _ _ named).0);
        outcome = rw (← same) refl;
        evidence_ids = rw (← same) gathers;
        known = rw (← same) (check_references-known all mine ids known);
      }

pub map_criteria-AreCriteria :
    (p : Platform) (task : Task) (all mine : List Text) (givens entries : List Criterion)
    → map_m (normalized_criterion p task all mine) givens ≡ ok entries
    → AreCriteria p task all mine givens entries
map_criteria-AreCriteria p task all mine [] entries h = rw (← (entries-eq h)) no_criteria
map_criteria-AreCriteria p task all mine (given ∷ givens) entries h =
    >>=-ok_cases (normalized_criterion p task all mine given) _ h λ entry e1 h1.
      >>=-ok_cases (map_m (normalized_criterion p task all mine) givens) _ h1 λ rest e2 h2.
        rw (← (entries-eq h2)) (
          next_criterion (normalized_criterion-IsCriterion p task all mine given entry e1)
            (map_criteria-AreCriteria p task all mine givens rest e2))

pub state_after-settled : (o : VerificationOutcome) → state_after o ≡ settled_state o
state_after-settled passed = refl
state_after-settled failed = refl

pub same_mission-eq :
    (mission : Option Text) (id : Text) → same_mission mission id ≡ true → mission ≡ some id
same_mission-eq none id h = absurd (cc h)
same_mission-eq (some m) id h = ap some (sym (text_eq_sound id m h))

-- The captured baseline, whose digest is the given one.
pub captured_digest-earlier :
    (captured : Option Baseline) (digest : Text)
    → captured_digest captured digest ≡ true
    → (earlier : Baseline) × (captured ≡ some earlier) × (digest ≡ earlier.digest)
captured_digest-earlier none digest h = absurd (cc h)
captured_digest-earlier (some b) digest h = (b, refl, text_eq_sound digest b.digest h)

pub verification_record-expected :
    (p : Platform) (run : Run) (task : Task) (input : VerifyInput) (criteria : List Criterion)
    (earlier baseline : Baseline) (referenced : List Text) (at : Text)
    → task.mission_id ≡ some input.mission_id
    → task.implementation.baseline ≡ some earlier
    → verification_record run task
        (p.to_lower_case (inline input.id))
        criteria
        baseline
        referenced
        (text input.note)
        at
      ≡ expected_record p run task input criteria earlier baseline referenced at
unfolding verification_record outcome_of criterion_passed
verification_record-expected p run task input criteria earlier baseline referenced at e1 e2 =
    rw (verification_record, e1, e2) refl
