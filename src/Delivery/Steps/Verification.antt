-- ===== src/Delivery/Steps/Verification.antt =====
-- Inversion of recordDeliveryRunVerification.
use pane_fleet.Base.{
  ℕ, ◌+◌, ◌≡◌, refl, every, includes, true, false, not, ◌&&◌, ◌==◌, Option, none, some, List, [],
  ◌∷◌, ◌++◌, find, modify, get_elem?, length, some_of, map, Text, text_eq, is_empty, ok,
  >>=-ok_cases, >>-eq-ok, guard->>-eq-ok, &&-eq-true, map_m, ==_iff,
}
use pane_fleet.Delivery.Types.{
  Task, OutboxItem, Run, Platform, Baseline, Evidence, Criterion, Verification, Condition,
  TaskState, OutboxState, VerificationOutcome, passed, failed, verification_state_invalid,
  verification_id_invalid, verification_duplicate, verification_baseline_changed,
  verification_criteria_invalid, verification_note_required,
}
use pane_fleet.Delivery.Fields.{
  text, inline, timestamp, verification_id_pattern, normalized_unique_ids,
}
use pane_fleet.Delivery.Evidence.{append_evidence, evidence_ids_of}
use pane_fleet.Delivery.Evidence.Appended.{AreEntries, append_evidence-eq-ok, not-eq-true}
use pane_fleet.Delivery.Validate.{validate_delivery_run, expected_delivery_level}
use pane_fleet.Delivery.Validate.Records.{same_mission, captured_digest}
use pane_fleet.Delivery.Validate.Accepted.{Accepted, validate-Accepted}
use pane_fleet.Delivery.Run.{
  has_step, is_for, normalized_step_id, current_task, update_task, update_outbox, refresh_delivery,
  is_mutable, assert_work_mutable, add_missing,
}
use pane_fleet.Delivery.Verify.{
  VerifyInput, is_captured, check_references, normalized_criterion, distinct_count, set_at,
  release_following, after_outcome, verify_next, record_delivery_run_verification,
}
use pane_fleet.Delivery.Steps.Checked.{
  AreCriteria, gathered, verdict_of, settled_state, expected_record, normalized_unique_ids-gathered,
  check_references-known, map_criteria-AreCriteria, state_after-settled, same_mission-eq,
  captured_digest-earlier, verification_record-expected,
}
use pane_fleet.Delivery.Steps.Parts.{
  is_unfinished, is_mutable-unfinished, is_captured-state, current_task-found, update_task-eq-ok,
  update_outbox-eq-ok, next_revision-eq-ok, refresh_delivery-eq-ok,
}

-- What `after_outcome` makes of the run in which the task's new state stands.
pub data Outcome (run : Run) (sequence : ℕ) (digest note at : Text) (moved : Run)
    : VerificationOutcome → Type 0 where
  blocks :
      moved ≡ record run { condition = Condition.blocked; blocker = note }
      → Outcome run sequence digest note at moved failed
  completes :
      get_elem? run.tasks (sequence + 1) ≡ none
      → moved ≡ record run { condition = Condition.verified; blocker = [] }
      → Outcome run sequence digest note at moved passed
  releases :
      (following : Task) (item : OutboxItem)
      → get_elem? run.tasks (sequence + 1) ≡ some following
      → find (is_for following.step_id) run.outbox ≡ some item
      → moved ≡ record run {
        tasks =
            set_at run.tasks (sequence + 1) (λ t. record t { expected_baseline_digest = digest });
        outbox =
            modify
              (is_for following.step_id)
              (λ i. record i { state = OutboxState.pending; updated_at = at })
              run.outbox;
        condition = Condition.active;
        blocker = [];
      }
      → Outcome run sequence digest note at moved passed

release_following-Outcome :
    (run : Run) (sequence : ℕ) (digest note at : Text) (moved : Run) (following : Option Task)
    → get_elem? run.tasks (sequence + 1) ≡ following
    → release_following run sequence digest at following ≡ ok moved
    → Outcome run sequence digest note at moved passed
unfolding release_following
release_following-Outcome run sequence digest note at moved none e h = completes e (cc)
release_following-Outcome run sequence digest note at moved (some following) e h =
    >>=-ok_cases (update_outbox _ following _) _ h λ released e1 h1.
      let (item, e2, e3) = update_outbox-eq-ok _ _ _ released e1 in
      releases following item e e2 (cc (h1, e3))

after_outcome-Outcome :
    (run : Run) (sequence : ℕ) (outcome : VerificationOutcome) (digest note at : Text) (moved : Run)
    → after_outcome run sequence outcome digest note at ≡ ok moved
    → Outcome run sequence digest note at moved outcome
unfolding after_outcome
after_outcome-Outcome run sequence failed digest note at moved h = blocks (cc)
after_outcome-Outcome run sequence passed digest note at moved h =
    release_following-Outcome run sequence digest note at moved _ refl h

-- The run in which the record and the task's new state stand.
abbrev pub recorded_state : Platform → Run → Task → Verification → Run
recorded_state p indexed task record' = record indexed {
  verification_records = indexed.verification_records ++ record' ∷ [];
  tasks =
      modify (has_step (normalized_step_id p task.step_id))
        (λ t. record t { verification_id = some record'.id; state = settled_state record'.outcome })
        indexed.tasks;
}

abbrev pub stamped_state : Run → List Text → Text → Run
stamped_state moved ids at = record moved {
  delivery = record {
    level = expected_delivery_level moved;
    evidence_ids = add_missing moved.delivery.evidence_ids ids;
    updated_at = at;
  };
  revision = moved.revision + 1;
  updated_at = at;
}

verify_next-eq-ok :
    (p : Platform) (indexed : Run) (task : Task) (record' : Verification) (new_ids : List Text)
    (baseline : Baseline) (run' : Run)
    → verify_next p indexed task record' new_ids baseline ≡ ok run'
    → (moved : Run) × (time : Text) × Outcome
        (recorded_state p indexed task record')
        task.sequence
        baseline.digest
        record'.note
        record'.verified_at
        moved
        record'.outcome
      × (timestamp p record'.verified_at ≡ ok time)
      × (run' ≡ stamped_state moved (new_ids ++ record'.evidence_ids) time)
unfolding verify_next
verify_next-eq-ok p indexed task record' new_ids baseline run' h =
    >>=-ok_cases (update_task p _ task.step_id _) _ h λ recorded e1 h1.
      >>=-ok_cases (after_outcome recorded task.sequence record'.outcome _ _ _) _ h1 λ moved e2 h2.
        >>=-ok_cases (refresh_delivery p moved _ _) _ h2 λ refreshed e3 h3.
          let (time', e6, h6) = next_revision-eq-ok p _ _ run' h3 in
          let (time, e7, h7) = refresh_delivery-eq-ok p _ _ _ refreshed e3 in
          let e8 = update_task-eq-ok p _ _ _ _ e1 in
          let settles = state_after-settled record'.outcome in
          let outcome = after_outcome-Outcome _ _ _ _ _ _ moved (rw e8 at e2) in
          (moved, time, rw settles at outcome, e7, cc (h6, h7, e6, e7))

module _ (p : Platform) (value : Run) where
  -- A successful verification, with the run before and behind it accepted.
  pub record Recorded (input : VerifyInput) (at : Text) (run' : Run) : Type 0 where
    pub task : Task
    pub baseline : Baseline
    pub new : List Evidence
    pub referenced : List Text
    pub criteria : List Criterion
    pub verified_at : Text
    pub moved : Run
    pub time : Text
    pub earlier : Baseline
    pub created : p.create_workspace_baseline input.baseline ≡ ok baseline
    pub captured_earlier : task.implementation.baseline ≡ some earlier
    pub same_digest : baseline.digest ≡ earlier.digest
    pub named_mission : task.mission_id ≡ some input.mission_id
    pub appended : AreEntries p value.evidence_index input.evidence new
    pub refers : referenced ≡ gathered p [] input.evidence_ids
    pub known :
        every
          (λ id.
            includes (evidence_ids_of (value.evidence_index ++ new)) id
            && includes (task.implementation.evidence_ids ++ evidence_ids_of new) id)
          referenced
        ≡ true
    pub judged :
        AreCriteria p task
          (evidence_ids_of (value.evidence_index ++ new))
          (task.implementation.evidence_ids ++ evidence_ids_of new)
          input.criteria
          criteria
    pub as_many : length input.criteria ≡ length task.acceptance_ids
    pub fresh :
        some_of
          (λ (r : Verification). text_eq r.id (p.to_lower_case (inline input.id)))
          value.verification_records
        ≡ false
    pub stamped : timestamp p at ≡ ok verified_at
    pub restamped : timestamp p verified_at ≡ ok time
    pub before : Accepted p value
    pub after : Accepted p run'
    pub mutable : is_mutable value.condition ≡ true
    pub unfinished : is_unfinished value.condition ≡ true
    pub in_state : task.state ≡ TaskState.implementation_captured
    pub found : find (has_step (normalized_step_id p input.step_id)) value.tasks ≡ some task
    pub was_captured : is_captured task.state ≡ true
    pub unchanged : captured_digest task.implementation.baseline baseline.digest ≡ true
    pub complete :
        distinct_count (map (λ (c : Criterion). c.acceptance_id) criteria)
        ≡ length task.acceptance_ids
    pub outcome :
        Outcome
          (recorded_state p
            (record value { evidence_index = value.evidence_index ++ new })
            task
            (expected_record p value task input criteria earlier baseline referenced verified_at))
          task.sequence
          baseline.digest
          (text input.note)
          verified_at
          moved
          (verdict_of criteria)
    pub result : run' ≡ stamped_state moved (evidence_ids_of new ++ referenced) time

  -- A successful recordDeliveryRunVerification starts from an accepted mutable run on a task captured under the named mission, with a baseline of the input whose digest is the captured one, and with one criterion for each acceptance id of the task. The criteria, the evidence and the references are those of the input, normalised, and each reference is to evidence of the task. It returns the accepted run with the record of these under a new id and the given time: it is blocked when a criterion did not pass, verified when all passed and no task follows, and otherwise active with the following task released on the verified digest.
  pub verification-Recorded :
      (input : VerifyInput) (at : Text) (run' : Run)
      → record_delivery_run_verification p value input at ≡ ok run'
      → Recorded input at run'
  unfolding record_delivery_run_verification assert_work_mutable
  verification-Recorded input at run' h =
      >>=-ok_cases (validate_delivery_run p value) _ h λ run e1 h1.
        let (same, before) = validate-Accepted p value run e1 in
        let (mutable, h2) =
          guard->>-eq-ok (is_mutable run.condition) verification_state_invalid _ h1 in
        >>=-ok_cases (current_task p run input.step_id) _ h2 λ task e3 h3.
          let (open_state, h4) =
            guard->>-eq-ok (is_captured task.state && same_mission task.mission_id input.mission_id)
              verification_state_invalid _ h3 in
          let (named, h5) =
            guard->>-eq-ok (verification_id_pattern (p.to_lower_case (inline input.id)))
              verification_id_invalid _ h4 in
          let (fresh, h6) =
            guard->>-eq-ok
              (not (
                some_of (λ (r : Verification). text_eq r.id (p.to_lower_case (inline input.id)))
                  run.verification_records))
              verification_duplicate _ h5 in
          >>=-ok_cases (p.create_workspace_baseline input.baseline) _ h6 λ baseline e7 h7.
            let (unchanged, h8) =
              guard->>-eq-ok (captured_digest task.implementation.baseline baseline.digest)
                verification_baseline_changed _ h7 in
            let (counted, h9) =
              guard->>-eq-ok (length input.criteria == length task.acceptance_ids)
                verification_criteria_invalid _ h8 in
            >>=-ok_cases (append_evidence p run input.evidence) _ h9 λ (indexed, ids) e10 h10.
              >>=-ok_cases (normalized_unique_ids p input.evidence_ids _ _ _) _ h10
                λ referenced e11 h11.
                  let (known, h12) = >>-eq-ok (check_references _ _ referenced) _ h11 in
                  >>=-ok_cases (map_m (normalized_criterion p task _ _) input.criteria) _ h12
                    λ criteria e13 h13.
                      let (complete, h14) =
                        guard->>-eq-ok
                          (distinct_count (map (λ (c : Criterion). c.acceptance_id) criteria)
                            == length task.acceptance_ids)
                          verification_criteria_invalid _ h13 in
                      let (noted, h15) =
                        guard->>-eq-ok (not (is_empty (text input.note))) verification_note_required
                          _ h14 in
                      >>=-ok_cases (timestamp p at) _ h15 λ verified_at e16 h16.
                        >>=-ok_cases (verify_next p indexed task _ _ baseline) _ h16 λ next e17 h17.
                          let (new, e4, e5, entries) =
                            append_evidence-eq-ok p run input.evidence indexed ids e10 in
                          let (moved, time, outcome, e19, e18) =
                            verify_next-eq-ok p indexed task _ ids baseline next e17 in
                          let (earlier, e20, e21) =
                            captured_digest-earlier task.implementation.baseline baseline.digest
                              unchanged in
                          let mission =
                            same_mission-eq task.mission_id input.mission_id
                              (&&-eq-true _ _ open_state).1 in
                          let record-eq =
                            verification_record-expected p run task input criteria earlier baseline
                              referenced verified_at mission e20 in
                          let returned = rw record-eq at e18 in
                          let (same', after) = validate-Accepted p next run' h17 in
                          record {
                            task = task;
                            baseline = baseline;
                            new = new;
                            referenced = referenced;
                            criteria = criteria;
                            verified_at = verified_at;
                            moved = moved;
                            time = time;
                            earlier = earlier;
                            created = e7;
                            captured_earlier = e20;
                            same_digest = e21;
                            named_mission = mission;
                            appended = rw same at entries;
                            refers =
                                normalized_unique_ids-gathered p input.evidence_ids _ _ 128
                                  referenced e11;
                            known =
                                rw (e4, e5, same) at (check_references-known _ _ referenced known);
                            judged =
                                rw (e4, e5, same) at
                                  (map_criteria-AreCriteria p task _ _ input.criteria criteria e13);
                            as_many = (==_iff _ _).0 counted;
                            fresh = rw same at (not-eq-true _ fresh);
                            stamped = e16;
                            restamped = rw record-eq at e19;
                            before = before;
                            after = rw same' after;
                            mutable = rw same at mutable;
                            unfinished = rw same at (is_mutable-unfinished run.condition mutable);
                            in_state = is_captured-state task.state (&&-eq-true _ _ open_state).0;
                            found = rw same at (current_task-found p run _ task e3);
                            was_captured = (&&-eq-true _ _ open_state).0;
                            unchanged = unchanged;
                            complete = (==_iff _ _).0 complete;
                            outcome = rw (record-eq, e4, same) at outcome;
                            result = cc (same', returned, e5);
                          }
