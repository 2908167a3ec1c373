-- ===== src/Delivery/Steps/Capture.antt =====
-- Inversion of captureDeliveryRunImplementation.
use pane_fleet.Base.{
  ◌+◌, ◌≡◌, true, false, not, ◌&&◌, some, List, ◌++◌, find, modify, Text, text_eq, ok, >>=-ok_cases,
  guard->>-eq-ok, &&-eq-true, arith, [],
}
use pane_fleet.Delivery.Types.{
  Task, Run, Platform, Baseline, Evidence, Condition, TaskState, implementation_state_invalid,
  implementation_unchanged, implementation_baseline_identity_changed,
}
use pane_fleet.Delivery.Fields.{timestamp}
use pane_fleet.Delivery.Evidence.{append_evidence, evidence_ids_of}
use pane_fleet.Delivery.Evidence.Appended.{AreEntries, append_evidence-eq-ok}
use pane_fleet.Delivery.Validate.{validate_delivery_run, expected_delivery_level}
use pane_fleet.Delivery.Validate.Tasks.{same_identity}
use pane_fleet.Delivery.Validate.Records.{same_mission}
use pane_fleet.Delivery.Validate.Accepted.{Accepted, validate-Accepted}
use pane_fleet.Delivery.Run.{
  has_step, normalized_step_id, current_task, update_task, refresh_delivery, is_mutable,
  assert_work_mutable, add_missing,
}
use pane_fleet.Delivery.Mission.{
  CaptureInput, is_linked, capture_next, capture_delivery_run_implementation,
}
use pane_fleet.Delivery.Steps.Checked.{same_mission-eq}
use pane_fleet.Delivery.Steps.Parts.{
  is_unfinished, is_mutable-unfinished, is_linked-state, IsSameWorkspace,
  same_identity-IsSameWorkspace, current_task-found, update_task-eq-ok, next_revision-eq-ok,
  refresh_delivery-eq-ok,
}

abbrev pub captured_state : Platform → Run → Task → Baseline → List Text → Text → Run
captured_state p indexed task baseline ids at =
    let captured : Run = record indexed {
      tasks =
          modify (has_step (normalized_step_id p task.step_id))
            (λ t. record t {
              state = TaskState.implementation_captured;
              implementation = record {
                baseline = some baseline;
                evidence_ids = ids;
                captured_at = some baseline.captured_at;
              };
            })
            indexed.tasks;
      condition = Condition.awaiting_verification;
      blocker = [];
    } in
    record captured {
      delivery = record {
        level = expected_delivery_level captured;
        evidence_ids = add_missing captured.delivery.evidence_ids ids;
        updated_at = at;
      };
      revision = captured.revision + 1;
      updated_at = at;
    }

module _ (p : Platform) (run : Run) (task : Task) where
  capture_next-eq-ok :
      (baseline : Baseline) (evidence : List Evidence) (at : Text) (run' : Run)
      → capture_next p run task baseline evidence at ≡ ok run'
      → (new : List Evidence) × (time : Text) × (timestamp p at ≡ ok time)
        × AreEntries p run.evidence_index evidence new
        × (run'
            ≡ captured_state p
                (record run { evidence_index = run.evidence_index ++ new })
                task
                baseline
                (evidence_ids_of new)
                time)
  unfolding capture_next
  capture_next-eq-ok baseline evidence at run' h =
      >>=-ok_cases (append_evidence p run evidence) _ h λ (indexed, ids) e1 h1.
        >>=-ok_cases (update_task p indexed task.step_id _) _ h1 λ captured e2 h2.
          >>=-ok_cases (refresh_delivery p _ ids at) _ h2 λ refreshed e3 h3.
            let (new, e4, e5, entries) = append_evidence-eq-ok p run evidence indexed ids e1 in
            let (time', e6, h6) = next_revision-eq-ok p _ at run' h3 in
            let (time, e7, h7) = refresh_delivery-eq-ok p _ ids at refreshed e3 in
            let e8 = update_task-eq-ok p _ _ _ _ e2 in
            (new, time, e7, entries, rw (h6, h7, e8, e4, e5) (cc (e6, e7)))

module _ (p : Platform) (value : Run) where
  -- A successful capture, with the run before and behind it accepted.
  pub record Captured (input : CaptureInput) (at : Text) (run' : Run) : Type 0 where
    pub task : Task
    pub baseline : Baseline
    pub new : List Evidence
    pub time : Text
    pub appended : AreEntries p value.evidence_index input.evidence new
    pub stamped : timestamp p at ≡ ok time
    pub named : task.mission_id ≡ some input.mission_id
    pub before : Accepted p value
    pub after : Accepted p run'
    pub mutable : is_mutable value.condition ≡ true
    pub unfinished : is_unfinished value.condition ≡ true
    pub in_state : task.state ≡ TaskState.mission_linked
    pub same_workspace : IsSameWorkspace baseline value.start_baseline
    pub found : find (has_step (normalized_step_id p input.step_id)) value.tasks ≡ some task
    pub linked : is_linked task.state ≡ true
    pub mission : same_mission task.mission_id input.mission_id ≡ true
    pub created : p.create_workspace_baseline input.baseline ≡ ok baseline
    pub identity : same_identity baseline value.start_baseline ≡ true
    pub changed : text_eq baseline.digest task.expected_baseline_digest ≡ false
    pub result :
        run'
        ≡ captured_state p
            (record value { evidence_index = value.evidence_index ++ new })
            task
            baseline
            (evidence_ids_of new)
            time

  -- A successful captureDeliveryRunImplementation starts from an accepted mutable run, on a task linked to the named mission, with a baseline of the run's workspace identity whose digest differs from the task's expected one, and returns the accepted run, stamped with the given time, in which that task holds the baseline and the ids of the evidence that is given, each entry normalised, under a new id and appended to the index in order, and the condition awaits verification.
  pub capture-Captured :
      (input : CaptureInput) (at : Text) (run' : Run)
      → capture_delivery_run_implementation p value input at ≡ ok run'
      → Captured input at run'
  unfolding capture_delivery_run_implementation assert_work_mutable
  capture-Captured input at run' h = >>=-ok_cases (validate_delivery_run p value) _ h λ run e1 h1.
      let (same, before) = validate-Accepted p value run e1 in
      let (mutable, h2) =
        guard->>-eq-ok (is_mutable run.condition) implementation_state_invalid _ h1 in
      >>=-ok_cases (current_task p run input.step_id) _ h2 λ task e3 h3.
        let (open_state, h4) =
          guard->>-eq-ok (is_linked task.state && same_mission task.mission_id input.mission_id)
            implementation_state_invalid _ h3 in
        >>=-ok_cases (p.create_workspace_baseline input.baseline) _ h4 λ baseline e5 h5.
          let (identity, h6) =
            guard->>-eq-ok (same_identity baseline run.start_baseline)
              implementation_baseline_identity_changed _ h5 in
          let (changed, h7) =
            guard->>-eq-ok (not (text_eq baseline.digest task.expected_baseline_digest))
              implementation_unchanged _ h6 in
          >>=-ok_cases (capture_next p run task baseline input.evidence at) _ h7 λ next e8 h8.
            let (new, time, e9, entries, e10) =
              capture_next-eq-ok p run task baseline _ at next e8 in
            let (same', after) = validate-Accepted p next run' h8 in
            record {
              task = task;
              baseline = baseline;
              new = new;
              time = time;
              appended = rw same at entries;
              stamped = e9;
              named =
                  same_mission-eq task.mission_id input.mission_id (&&-eq-true _ _ open_state).1;
              before = before;
              after = rw same' after;
              mutable = rw same at mutable;
              unfinished = rw same at (is_mutable-unfinished run.condition mutable);
              in_state = is_linked-state task.state (&&-eq-true _ _ open_state).0;
              same_workspace =
                  rw same at (same_identity-IsSameWorkspace baseline run.start_baseline identity);
              found = rw same at (current_task-found p run _ task e3);
              linked = (&&-eq-true _ _ open_state).0;
              mission = (&&-eq-true _ _ open_state).1;
              created = e5;
              identity = rw same at identity;
              changed = ground (arith, changed);
              result = cc (same', e10, same);
            }
