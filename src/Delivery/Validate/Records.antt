-- ===== src/Delivery/Validate/Records.antt =====
-- validateVerification and validateAbort of delivery-run.js, and the sets they read.
use pane_fleet.Base.{
  Bool, true, false, not, ◌&&◌, Option, none, some, List, [], ◌∷◌, leb, ◌==◌, map, length, every,
  some_of, find, Text, codes, text_eq, includes, Result, ok, ◌>>=◌, ◌>>◌, guard, for_each,
}
use pane_fleet.Delivery.Types.{
  RunError, evidence_reference_unknown, verification_invalid, verifier_invalid,
  verification_criteria_invalid, verification_criterion_invalid, verification_baseline_invalid,
  verification_baseline_changed, verification_outcome_invalid, abort_invalid, abort_reason_invalid,
  abort_evidence_invalid, abort_operator_evidence_required, Condition, VerificationOutcome,
  Baseline, Evidence, Task, Criterion, Verification, Abort, Run, Platform, passed, failed,
}
use pane_fleet.Delivery.Fields.{
  assert_text, valid_timestamp, assert_digest, evidence_id_pattern, verification_id_pattern,
  mission_id_pattern, unique_strings,
}
use pane_fleet.Delivery.Validate.Tasks.{is_nil}

-- CRITERION_OUTCOME_SET
unfoldable pub criterion_outcome_set : List Text
criterion_outcome_set = codes "passed" ∷ codes "failed" ∷ codes "not_run" ∷ []

-- ABORTABLE_CONDITION_SET
abbrev pub is_abortable : Condition → Bool
is_abortable Condition.aborted = false
is_abortable Condition.verified = false
is_abortable _ = true

unfoldable pub criterion_passed : Criterion → Bool
criterion_passed criterion = text_eq criterion.outcome (codes "passed")

-- task.implementation.baseline?.digest === digest
abbrev pub captured_digest : Option Baseline → Text → Bool
captured_digest none digest = false
captured_digest (some baseline) digest = text_eq digest baseline.digest

unfoldable pub check_criteria :
    List Text → Task → List Text → List Criterion → Result RunError (Unit {0})
check_criteria evidence_ids task seen [] = ok tt
check_criteria evidence_ids task seen (criterion ∷ rest) = do
  guard
      (includes task.acceptance_ids criterion.acceptance_id
        && not (includes seen criterion.acceptance_id)
        && includes criterion_outcome_set criterion.outcome)
      verification_criterion_invalid
  ids ← unique_strings criterion.evidence_ids evidence_id_pattern verification_criterion_invalid 128
  for_each (λ id. guard (includes evidence_ids id) evidence_reference_unknown)
      criterion.evidence_ids
  check_criteria evidence_ids task (criterion.acceptance_id ∷ seen) rest

-- The recorded outcome is the one that the criteria give, lines 820 to 825.
abbrev pub outcome_fits : VerificationOutcome → List Criterion → Bool
outcome_fits passed criteria = every criterion_passed criteria
outcome_fits failed criteria = not (every criterion_passed criteria)

abbrev pub same_mission : Option Text → Text → Bool
same_mission none id = false
same_mission (some mission) id = text_eq id mission

unfoldable pub validate_verification :
    Platform → Verification → Run → Task → List Text → Result RunError (Unit {0})
validate_verification p record' run task evidence_ids = do
  guard
      (verification_id_pattern record'.id
        && text_eq record'.step_id task.step_id
        && text_eq record'.plan_digest run.plan_digest
        && same_mission task.mission_id record'.implementation_mission_id
        && mission_id_pattern record'.implementation_mission_id)
      verification_invalid
  guard (text_eq record'.verifier (codes "operator")) verifier_invalid
  guard (length record'.criteria == length task.acceptance_ids && leb (length record'.criteria) 120)
      verification_criteria_invalid
  check_criteria evidence_ids task [] record'.criteria
  assert_digest record'.before_baseline_digest verification_baseline_invalid
  assert_digest record'.after_baseline_digest verification_baseline_invalid
  guard
      (captured_digest task.implementation.baseline record'.before_baseline_digest
        && captured_digest task.implementation.baseline record'.after_baseline_digest)
      verification_baseline_changed
  ids ← unique_strings record'.evidence_ids evidence_id_pattern verification_invalid 128
  for_each (λ id. guard (includes evidence_ids id) evidence_reference_unknown) record'.evidence_ids
  assert_text record'.note verification_invalid false 800
  guard (outcome_fits record'.outcome record'.criteria) verification_outcome_invalid
  guard (valid_timestamp p record'.verified_at) verification_invalid

-- evidence?.type === 'review' && evidence.outcome === 'applied' && evidence.createdAt === at
abbrev pub is_operator_review : Option Evidence → Text → Bool
is_operator_review none at = false
is_operator_review (some evidence) at =
    text_eq evidence.kind (codes "review")
    && text_eq evidence.outcome (codes "applied")
    && text_eq evidence.created_at at

unfoldable pub evidence_by_id : List Evidence → Text → Option Evidence
evidence_by_id index id = find (λ (item : Evidence). text_eq item.id id) index

unfoldable pub validate_abort : Platform → Abort → Run → Result RunError (Unit {0})
validate_abort p abort run = do
  guard (abort.operator_confirmed && is_abortable abort.from_condition) abort_invalid
  assert_text abort.reason abort_reason_invalid true 800
  ids ← unique_strings abort.evidence_ids evidence_id_pattern abort_evidence_invalid 128
  guard (not (is_nil ids)) abort_evidence_invalid
  for_each
      (λ id.
        guard (includes (map (λ (item : Evidence). item.id) run.evidence_index) id)
          evidence_reference_unknown)
      ids
  guard (valid_timestamp p abort.aborted_at && text_eq abort.aborted_at run.updated_at)
      abort_invalid
  guard
      (some_of (λ id. is_operator_review (evidence_by_id run.evidence_index id) abort.aborted_at)
        ids)
      abort_operator_evidence_required
