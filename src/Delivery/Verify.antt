-- ===== src/Delivery/Verify.antt =====
-- recordDeliveryRunVerification of delivery-run.js.
use pane_fleet.Base.{
  ℕ, zero, suc, ◌+◌, Bool, true, false, not, ◌&&◌, Option, none, some, List, [], ◌∷◌, ◌++◌, map,
  ◌==◌, if◌then◌else◌, length, every, some_of, get_elem?, Text, text_eq, includes, is_empty, codes,
  Result, ok, ◌>>=◌, ◌>>◌, guard, for_each, map_m,
}
use pane_fleet.Delivery.Types.{
  RunError, verification_state_invalid, verification_id_invalid, verification_duplicate,
  verification_baseline_changed, verification_criteria_invalid, verification_criterion_invalid,
  verification_evidence_invalid, verification_note_required, evidence_reference_unknown,
  evidence_not_for_task, Condition, TaskState, OutboxState, VerificationOutcome, Baseline, Evidence,
  Task, Criterion, Verification, Run, Platform, passed, failed,
}
use pane_fleet.Delivery.Fields.{
  text, inline, timestamp, evidence_id_pattern, verification_id_pattern, normalized_unique_ids,
}
use pane_fleet.Delivery.Evidence.{append_evidence, evidence_ids_of}
use pane_fleet.Delivery.Validate.{validate_delivery_run}
use pane_fleet.Delivery.Validate.Records.{
  criterion_outcome_set, criterion_passed, captured_digest, same_mission,
}
use pane_fleet.Delivery.Run.{
  current_task, update_task, update_outbox, next_revision, refresh_delivery, assert_work_mutable,
}

pub record VerifyInput : Type 0 where
  pub id : Text
  pub step_id : Text
  pub mission_id : Text
  pub baseline : Baseline
  pub criteria : List Criterion
  pub evidence : List Evidence
  pub evidence_ids : List Text
  pub note : Text

abbrev pub is_captured : TaskState → Bool
is_captured TaskState.implementation_captured = true
is_captured _ = false

-- Each id is in the run's index, and is evidence of this task.
unfoldable pub check_references : List Text → List Text → List Text → Result RunError (Unit {0})
check_references all mine ids =
    for_each
      (λ id.
        guard (includes all id) evidence_reference_unknown
        >> guard (includes mine id) evidence_not_for_task)
      ids

-- Lines 1219 to 1236, for one criterion.
unfoldable pub normalized_criterion :
    Platform → Task → List Text → List Text → Criterion → Result RunError Criterion
normalized_criterion p task all mine criterion =
    let acceptance_id = p.to_upper_case (inline criterion.acceptance_id) in
    let outcome = p.to_lower_case (inline criterion.outcome) in
    do
      guard (includes task.acceptance_ids acceptance_id && includes criterion_outcome_set outcome)
          verification_criterion_invalid
      evidence_ids ←
          normalized_unique_ids p criterion.evidence_ids evidence_id_pattern
            verification_criterion_invalid 128
      check_references all mine evidence_ids
      ok (record { acceptance_id = acceptance_id; outcome = outcome; evidence_ids = evidence_ids })

-- new Set(values).size
unfoldable pub distinct_count : List Text → ℕ
distinct_count [] = 0
distinct_count (value ∷ values) =
    let rest = distinct_count values in if includes values value then rest else suc rest

unfoldable pub outcome_of : List Criterion → VerificationOutcome
outcome_of criteria = if every criterion_passed criteria then passed else failed

abbrev pub state_after : VerificationOutcome → TaskState
state_after passed = TaskState.verified
state_after failed = TaskState.failed

-- list[index], written
unfoldable pub set_at {ℓ} : {A : Type ℓ} → List A → ℕ → (A → A) → List A
set_at [] i change = []
set_at (x ∷ xs) zero change = change x ∷ xs
set_at (x ∷ xs) (suc i) change = x ∷ set_at xs i change

-- Lines 1262 to 1273: the release of the following task, or the end of the run.
unfoldable pub release_following : Run → ℕ → Text → Text → Option Task → Result RunError Run
release_following next sequence digest verified_at none =
    ok (record next { condition = Condition.verified; blocker = [] })
release_following next sequence digest verified_at (some following) = do
  released ←
      update_outbox
        (record next {
          tasks =
              set_at next.tasks (sequence + 1)
                (λ t. record t { expected_baseline_digest = digest });
        })
        following (λ item. record item { state = OutboxState.pending; updated_at = verified_at })
  ok (record released { condition = Condition.active; blocker = [] })

-- Lines 1261 to 1277.
unfoldable pub after_outcome :
    Run → ℕ → VerificationOutcome → Text → Text → Text → Result RunError Run
after_outcome next sequence failed digest note verified_at =
    ok (record next { condition = Condition.blocked; blocker = note })
after_outcome next sequence passed digest note verified_at =
    release_following next sequence digest verified_at (get_elem? next.tasks (sequence + 1))

abbrev pub text_of : Option Text → Text
text_of none = []
text_of (some value) = value

abbrev pub digest_of : Option Baseline → Text
digest_of none = []
digest_of (some baseline) = baseline.digest

unfoldable pub verification_record :
    Run → Task → Text → List Criterion → Baseline → List Text → Text → Text → Verification
verification_record run task id criteria baseline evidence_ids note verified_at = record {
  id = id;
  step_id = task.step_id;
  plan_digest = run.plan_digest;
  implementation_mission_id = text_of task.mission_id;
  verifier = codes "operator";
  criteria = criteria;
  outcome = outcome_of criteria;
  before_baseline_digest = digest_of task.implementation.baseline;
  after_baseline_digest = baseline.digest;
  evidence_ids = evidence_ids;
  note = note;
  verified_at = verified_at;
}

-- Lines 1258 to 1279, up to the closing validation.
unfoldable pub verify_next :
    Platform → Run → Task → Verification → List Text → Baseline → Result RunError Run
verify_next p indexed task record' new_ids baseline = do
  recorded ←
      update_task p
        (record indexed { verification_records = indexed.verification_records ++ record' ∷ [] })
        task.step_id
        (λ t. record t { verification_id = some record'.id; state = state_after record'.outcome })
  moved ←
      after_outcome recorded task.sequence record'.outcome baseline.digest record'.note
        record'.verified_at
  refreshed ← refresh_delivery p moved (new_ids ++ record'.evidence_ids) record'.verified_at
  next_revision p refreshed record'.verified_at

unfoldable pub record_delivery_run_verification :
    Platform → Run → VerifyInput → Text → Result RunError Run
record_delivery_run_verification p value input at =
    let verification_id = p.to_lower_case (inline input.id) in
    let note = text input.note in
    do
      run ← validate_delivery_run p value
      assert_work_mutable run verification_state_invalid
      task ← current_task p run input.step_id
      guard (is_captured task.state && same_mission task.mission_id input.mission_id)
          verification_state_invalid
      guard (verification_id_pattern verification_id) verification_id_invalid
      guard
          (not
            (some_of (λ (r : Verification). text_eq r.id verification_id) run.verification_records))
          verification_duplicate
      baseline ← p.create_workspace_baseline input.baseline
      guard (captured_digest task.implementation.baseline baseline.digest)
          verification_baseline_changed
      guard (length input.criteria == length task.acceptance_ids) verification_criteria_invalid
      (indexed, new_ids) ← append_evidence p run input.evidence
      referenced ←
          normalized_unique_ids p input.evidence_ids evidence_id_pattern
            verification_evidence_invalid 128
      check_references (evidence_ids_of indexed.evidence_index)
          (task.implementation.evidence_ids ++ new_ids) referenced
      criteria ←
          map_m
            (normalized_criterion p task (evidence_ids_of indexed.evidence_index)
              (task.implementation.evidence_ids ++ new_ids))
            input.criteria
      guard
          (distinct_count (map (λ (c : Criterion). c.acceptance_id) criteria)
            == length task.acceptance_ids)
          verification_criteria_invalid
      guard (not (is_empty note)) verification_note_required
      verified_at ← timestamp p at
      next ←
          verify_next p indexed task
            (verification_record run task verification_id criteria baseline referenced note
              verified_at)
            new_ids baseline
      validate_delivery_run p next
