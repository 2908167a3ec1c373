-- ===== src/Delivery/Validate/Accepted.antt =====
-- What an accepted run has passed: the parts of validateDeliveryRun, one by one.
use pane_fleet.Base.{
  ◌≡◌, ◌&&◌, none, List, [], leb, ◌==◌, ==_iff, length, Text, ok, for_each, >>=-eq-ok, >>-eq-ok,
  guard->>-eq-ok,
}
use pane_fleet.Delivery.Types.{Run, Platform, tasks_invalid, outbox_invalid}
use pane_fleet.Delivery.Validate.{
  validate_header, validate_evidence_index, validate_verification_index, validate_tasks,
  validate_record, validate_delivery, validate_abort_part, validate_condition,
  validate_delivery_run,
}

pub record Accepted (p : Platform) (r : Run) : Type 0 where
  pub evidence_ids : List Text
  pub verification_ids : List Text
  pub header : validate_header p r ≡ ok tt
  pub evidence : validate_evidence_index p r ≡ ok evidence_ids
  pub verifications : validate_verification_index r ≡ ok verification_ids
  pub same_length : length r.outbox ≡ length r.tasks
  pub tasks : validate_tasks p r evidence_ids verification_ids 0 none [] r.tasks r.outbox ≡ ok tt
  pub records : for_each (validate_record p r evidence_ids) r.verification_records ≡ ok tt
  pub delivery : validate_delivery p r evidence_ids ≡ ok tt
  pub abort : validate_abort_part p r ≡ ok tt
  pub condition : validate_condition r ≡ ok tt

-- Validation hands its argument on, and has checked every part.
pub validate-Accepted :
    (p : Platform) (r r' : Run) → validate_delivery_run p r ≡ ok r' → (r' ≡ r) × Accepted p r
unfolding validate_delivery_run
validate-Accepted p r r' h =
    let (u1, header, h1) = >>=-eq-ok (validate_header p r) _ h in
    let (evidence_ids, evidence, h2) = >>=-eq-ok (validate_evidence_index p r) _ h1 in
    let (verification_ids, verifications, h3) = >>=-eq-ok (validate_verification_index r) _ h2 in
    let (many, h4) =
      guard->>-eq-ok (leb 1 (length r.tasks) && leb (length r.tasks) 80) tasks_invalid _ h3 in
    let (same, h5) = guard->>-eq-ok (length r.outbox == length r.tasks) outbox_invalid _ h4 in
    let (tasks, h6) =
      >>-eq-ok (validate_tasks p r evidence_ids verification_ids 0 none [] r.tasks r.outbox) _ h5 in
    let (records, h7) =
      >>-eq-ok (for_each (validate_record p r evidence_ids) r.verification_records) _ h6 in
    let (delivery, h8) = >>-eq-ok (validate_delivery p r evidence_ids) _ h7 in
    let (abort, h9) = >>-eq-ok (validate_abort_part p r) _ h8 in
    let (condition, h10) = >>-eq-ok (validate_condition r) (ok r) h9 in
    (
      cc (h10),
      record {
        evidence_ids = evidence_ids;
        verification_ids = verification_ids;
        header = header;
        evidence = evidence;
        verifications = verifications;
        same_length = (==_iff _ _).0 same;
        tasks = tasks;
        records = records;
        delivery = delivery;
        abort = abort;
        condition = condition;
      },
    )
