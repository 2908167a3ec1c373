-- ===== src/Delivery/Evidence.antt =====
-- The evidence records of delivery-run.js: normalisation, validation and the append-only index.
pub mod Appended
use pane_fleet.Base.{
  ℕ, Bool, true, false, not, ◌&&◌, ◌||◌, List, [], ◌∷◌, ◌++◌, ◌+◌, map, leb, if◌then◌else◌, length,
  Text, codes, includes, is_empty, Result, ok, err, ◌>>=◌, ◌>>◌, guard,
}
use pane_fleet.Delivery.Types.{
  RunError, evidence_invalid, evidence_content_invalid, evidence_duplicate, evidence_limit_reached,
  Evidence, Run, Platform,
}
use pane_fleet.Delivery.Fields.{
  text, inline, assert_text, valid_timestamp, timestamp, assert_optional_digest,
  evidence_id_pattern,
}

unfoldable pub evidence_type_set : List Text
evidence_type_set =
    codes "baseline" ∷ codes "diff" ∷ codes "command" ∷ codes "test" ∷ codes "review" ∷ []

unfoldable pub evidence_outcome_set : List Text
evidence_outcome_set =
    codes "applied" ∷ codes "passed" ∷ codes "failed" ∷ codes "outcome_unknown" ∷ []

-- Boolean(left) === Boolean(right)
abbrev same_truth : Text → Text → Bool
same_truth left right = if is_empty left then is_empty right else not (is_empty right)

unfoldable pub validate_evidence : Platform → Evidence → Result RunError Evidence
validate_evidence p value = do
  guard
      (evidence_id_pattern value.id
        && includes evidence_type_set value.kind
        && includes evidence_outcome_set value.outcome)
      evidence_invalid
  assert_text value.producer evidence_invalid true 160
  assert_text value.summary evidence_invalid true 800
  assert_text value.content_ref evidence_invalid false 512
  guard (same_truth value.content_ref value.content_sha256) evidence_content_invalid
  assert_optional_digest value.content_sha256 evidence_content_invalid
  guard (valid_timestamp p value.created_at) evidence_invalid
  ok value

unfoldable pub create_evidence : Platform → Evidence → Result RunError Evidence
create_evidence p value = do
  created_at ← timestamp p value.created_at
  validate_evidence p (record {
    id = p.to_upper_case (inline value.id);
    kind = p.to_lower_case (inline value.kind);
    producer = inline value.producer;
    outcome = p.to_lower_case (inline value.outcome);
    summary = text value.summary;
    content_ref = inline value.content_ref;
    content_sha256 = p.to_lower_case (inline value.content_sha256);
    created_at = created_at;
  })

abbrev pub evidence_ids_of : List Evidence → List Text
evidence_ids_of = map (λ (item : Evidence). item.id)

-- The loop of `appendEvidence`: the index, and the ids appended so far.
unfoldable pub append_from :
    Platform
    → List Evidence
    → List Text
    → List Evidence
    → Result RunError (List Evidence × List Text)
append_from p index appended [] = ok (index, appended)
append_from p index appended (value ∷ values) = do
  evidence ← create_evidence p value
  guard (not (includes (evidence_ids_of index) evidence.id)) evidence_duplicate
  append_from p (index ++ evidence ∷ []) (appended ++ evidence.id ∷ []) values

-- The run with the longer index, and the ids that were appended.
unfoldable pub append_evidence : Platform → Run → List Evidence → Result RunError (Run × List Text)
append_evidence p run values = do
  guard (leb (length run.evidence_index + length values) 512) evidence_limit_reached
  (index, appended) ← append_from p run.evidence_index [] values
  ok (record run { evidence_index = index }, appended)
