-- ===== src/Delivery/Steps/Closing.antt =====
-- Inversion of abortDeliveryRun and markDeliveryRunOffCourse.
use pane_fleet.Base.{
  ◌≡◌, true, false, not, some, List, ◌++◌, find, modify, map, some_of, Text, ok, >>=-ok_cases,
  >>-eq-ok, guard->>-eq-ok,
}
use pane_fleet.Delivery.Types.{
  Task, OutboxItem, Run, Platform, Evidence, Condition, TaskState, abort_state_invalid,
  abort_confirmation_required, abort_reason_invalid, abort_evidence_required,
  abort_operator_evidence_required, off_course_state_invalid, off_course_reason_invalid,
}
use pane_fleet.Delivery.Fields.{text, timestamp, assert_text}
use pane_fleet.Delivery.Evidence.{append_evidence, evidence_ids_of}
use pane_fleet.Delivery.Evidence.Appended.{AreEntries, append_evidence-eq-ok, not-eq-true}
use pane_fleet.Delivery.Validate.{validate_delivery_run}
use pane_fleet.Delivery.Validate.Tasks.{is_nil}
use pane_fleet.Delivery.Validate.Records.{is_abortable, is_operator_review, evidence_by_id}
use pane_fleet.Delivery.Validate.Accepted.{Accepted, validate-Accepted}
use pane_fleet.Delivery.Run.{
  has_step, is_for, normalized_step_id, current_task, outbox_for_task, update_task, update_outbox,
  refresh_delivery,
}
use pane_fleet.Delivery.Close.{
  AbortInput, OffCourseInput, abort_outboxes, abort_next, abort_delivery_run, is_on_course,
  may_leave_course, block_item, off_course_next, mark_delivery_run_off_course,
}
use pane_fleet.Delivery.Steps.Aborts.{stopped_task, item_after, map-stopped, abort_outboxes-after}
use pane_fleet.Delivery.Steps.Parts.{
  is_unfinished, is_abortable-unfinished, current_task-found, outbox_for_task-found,
  update_task-eq-ok, update_outbox-eq-ok, next_revision-eq-ok, refresh_delivery-eq-ok,
}
use pane_fleet.Delivery.Steps.Verification.{stamped_state}

-- The run that `abort_next` stamps, and the run that `off_course_next` stamps.
abbrev pub aborting_state : Run → Run → List OutboxItem → Text → List Text → Text → Run
aborting_state run indexed outbox reason ids at = record indexed {
  tasks = map stopped_task indexed.tasks;
  outbox = outbox;
  condition = Condition.aborted;
  abort = some (record {
    operator_confirmed = true;
    from_condition = run.condition;
    reason = reason;
    evidence_ids = ids;
    aborted_at = at;
  });
  blocker = reason;
}

abbrev pub off_course_state : Platform → Run → Task → Task → Text → Text → Run
off_course_state p indexed task next_task reason at = record indexed {
  tasks =
      modify (has_step (normalized_step_id p task.step_id))
        (λ t. record t { state = TaskState.off_course }) indexed.tasks;
  outbox = modify (is_for next_task.step_id) (block_item reason at) indexed.outbox;
  condition = Condition.off_course;
  blocker = reason;
}

abort_next-eq-ok :
    (p : Platform) (run indexed : Run) (reason : Text) (ids : List Text) (at : Text) (run' : Run)
    → abort_next p run indexed reason ids at ≡ ok run'
    → (outbox : List OutboxItem) × (time : Text) × (abort_outboxes reason at indexed.tasks
          indexed.outbox
        ≡ ok outbox)
      × (timestamp p at ≡ ok time)
      × (run' ≡ stamped_state (aborting_state run indexed outbox reason ids at) ids time)
unfolding abort_next
abort_next-eq-ok p run indexed reason ids at run' h =
    >>=-ok_cases (abort_outboxes reason at indexed.tasks indexed.outbox) _ h λ outbox e1 h1.
      >>=-ok_cases (refresh_delivery p _ ids at) _ h1 λ refreshed e2 h2.
        let (time', e6, h6) = next_revision-eq-ok p _ _ run' h2 in
        let (time, e7, h7) = refresh_delivery-eq-ok p _ _ _ refreshed e2 in
        (outbox, time, e1, e7, cc (h6, h7, e6, e7, map-stopped indexed.tasks))

off_course_next-eq-ok :
    (p : Platform) (run : Run) (task : Task) (reason : Text) (evidence : List Evidence) (at : Text)
    (run' : Run)
    → off_course_next p run task reason evidence at ≡ ok run'
    → (new : List Evidence) × (next_task : Task) × (item : OutboxItem) × (updated_at : Text)
      × (time : Text) × (find
            (has_step (normalized_step_id p task.step_id))
            (off_course_state p run task task reason at).tasks
          ≡ some next_task)
      × (find (is_for next_task.step_id) run.outbox ≡ some item)
      × (run'
          ≡ stamped_state
              (off_course_state p
                (record run { evidence_index = run.evidence_index ++ new })
                task
                next_task
                reason
                updated_at)
              (evidence_ids_of new)
              time)
unfolding off_course_next
off_course_next-eq-ok p run task reason evidence at run' h =
    >>=-ok_cases (append_evidence p run evidence) _ h λ (indexed, ids) e1 h1.
      >>=-ok_cases (update_task p indexed task.step_id _) _ h1 λ marked e2 h2.
        >>=-ok_cases (current_task p marked task.step_id) _ h2 λ next_task e3 h3.
          >>=-ok_cases (outbox_for_task marked next_task) _ h3 λ item e4 h4.
            >>=-ok_cases (timestamp p at) _ h4 λ updated_at e5 h5.
              >>=-ok_cases (update_outbox marked next_task _) _ h5 λ changed e6 h6.
                >>=-ok_cases (refresh_delivery p _ ids at) _ h6 λ refreshed e7 h7.
                  let (new, e8, e9, entries) =
                    append_evidence-eq-ok p run evidence indexed ids e1 in
                  let (time', e10, h8) = next_revision-eq-ok p _ _ run' h7 in
                  let (time, e11, h9) = refresh_delivery-eq-ok p _ _ _ refreshed e7 in
                  let (item', e12, e13) = update_outbox-eq-ok _ _ _ changed e6 in
                  let e14 = update_task-eq-ok p _ _ _ marked e2 in
                  (
                    new,
                    next_task,
                    item,
                    updated_at,
                    time,
                    rw (e14, e8) at (current_task-found p marked _ next_task e3),
                    rw (e14, e8) at (outbox_for_task-found marked next_task item e4),
                    cc (h8, h9, e13, e14, e8, e9, e10, e11),
                  )

module _ (p : Platform) (value : Run) where
  -- A successful abort, with the run before and behind it accepted.
  pub record Aborted (input : AbortInput) (at : Text) (run' : Run) : Type 0 where
    pub new : List Evidence
    pub outbox : List OutboxItem
    pub aborted_at : Text
    pub time : Text
    pub stamped : timestamp p at ≡ ok aborted_at
    pub restamped : timestamp p aborted_at ≡ ok time
    pub given : is_nil input.evidence ≡ false
    pub appended : AreEntries p value.evidence_index input.evidence new
    pub closed :
        (step_id : Text)
        → find (is_for step_id) outbox
          ≡ item_after
              (text input.reason)
              aborted_at
              value.tasks
              step_id
              (find (is_for step_id) value.outbox)
    pub before : Accepted p value
    pub after : Accepted p run'
    pub abortable : is_abortable value.condition ≡ true
    pub unfinished : is_unfinished value.condition ≡ true
    pub confirmed : input.operator_confirmed ≡ true
    pub reviewed :
        some_of
          (λ id. is_operator_review (evidence_by_id (value.evidence_index ++ new) id) aborted_at)
          (evidence_ids_of new)
        ≡ true
    pub changed : abort_outboxes (text input.reason) aborted_at value.tasks value.outbox ≡ ok outbox
    pub result :
        run'
        ≡ stamped_state
            (aborting_state value
              (record value { evidence_index = value.evidence_index ++ new })
              outbox
              (text input.reason)
              (evidence_ids_of new)
              aborted_at)
            (evidence_ids_of new)
            time

  -- A successful abortDeliveryRun starts from an accepted run that is neither verified nor aborted, confirmed by the operator with evidence, among it an applied review of the time of the abort. It returns the accepted run, aborted at the given time and for the given reason, to which the evidence is appended: a verified task stays and every other is aborted, and an outbox item is canceled when it was not applied and a task of its step was not verified, and stays otherwise.
  pub abort-Aborted :
      (input : AbortInput) (at : Text) (run' : Run)
      → abort_delivery_run p value input at ≡ ok run'
      → Aborted input at run'
  unfolding abort_delivery_run
  abort-Aborted input at run' h = >>=-ok_cases (validate_delivery_run p value) _ h λ run e1 h1.
      let (same, before) = validate-Accepted p value run e1 in
      let (abortable, h2) = guard->>-eq-ok (is_abortable run.condition) abort_state_invalid _ h1 in
      let (confirmed, h3) =
        guard->>-eq-ok input.operator_confirmed abort_confirmation_required _ h2 in
      let (reasoned, h4) =
        >>-eq-ok (assert_text (text input.reason) abort_reason_invalid true 800) _ h3 in
      let (evident, h5) =
        guard->>-eq-ok (not (is_nil input.evidence)) abort_evidence_required _ h4 in
      >>=-ok_cases (timestamp p at) _ h5 λ aborted_at e6 h6.
        >>=-ok_cases (append_evidence p run input.evidence) _ h6 λ (indexed, ids) e7 h7.
          let (reviewed, h8) =
            guard->>-eq-ok
              (some_of
                (λ id. is_operator_review (evidence_by_id indexed.evidence_index id) aborted_at)
                ids)
              abort_operator_evidence_required _ h7 in
          >>=-ok_cases (abort_next p run indexed _ ids aborted_at) _ h8 λ next e9 h9.
            let (new, e10, e11, entries) =
              append_evidence-eq-ok p run input.evidence indexed ids e7 in
            let (outbox, time, e12, restamped, e13) =
              abort_next-eq-ok p run indexed _ ids aborted_at next e9 in
            let (same', after) = validate-Accepted p next run' h9 in
            record {
              new = new;
              outbox = outbox;
              aborted_at = aborted_at;
              time = time;
              stamped = e6;
              restamped = restamped;
              given = not-eq-true _ evident;
              appended = rw same at entries;
              closed = abort_outboxes-after _ _ _ _ _ (rw (e10, same) at e12);
              before = before;
              after = rw same' after;
              abortable = rw same at abortable;
              unfinished = rw same at (is_abortable-unfinished run.condition abortable);
              confirmed = confirmed;
              reviewed = rw (e10, e11, same) at reviewed;
              changed = rw (e10, same) at e12;
              result = cc (same', e13, e10, e11, same);
            }

  -- A successful off-course mark, with the run before and behind it accepted.
  pub record OffCourse (input : OffCourseInput) (at : Text) (run' : Run) : Type 0 where
    pub task : Task
    pub next_task : Task
    pub item : OutboxItem
    pub new : List Evidence
    pub updated_at : Text
    pub time : Text
    pub before : Accepted p value
    pub after : Accepted p run'
    pub on_course : is_on_course value.condition ≡ true
    pub found : find (has_step (normalized_step_id p input.step_id)) value.tasks ≡ some task
    pub may_leave : may_leave_course task.state ≡ true
    pub found_next :
        find
          (has_step (normalized_step_id p task.step_id))
          (off_course_state p value task task (text input.reason) at).tasks
        ≡ some next_task
    pub found_item : find (is_for next_task.step_id) value.outbox ≡ some item
    pub result :
        run'
        ≡ stamped_state
            (off_course_state p
              (record value { evidence_index = value.evidence_index ++ new })
              task
              next_task
              (text input.reason)
              updated_at)
            (evidence_ids_of new)
            time

  pub OffCourse-OffCourse :
      (input : OffCourseInput) (at : Text) (run' : Run)
      → mark_delivery_run_off_course p value input at ≡ ok run'
      → OffCourse input at run'
  unfolding mark_delivery_run_off_course
  OffCourse-OffCourse input at run' h =
      >>=-ok_cases (validate_delivery_run p value) _ h λ run e1 h1.
        let (same, before) = validate-Accepted p value run e1 in
        let (on_course, h2) =
          guard->>-eq-ok (is_on_course run.condition) off_course_state_invalid _ h1 in
        >>=-ok_cases (current_task p run input.step_id) _ h2 λ task e3 h3.
          let (may_leave, h4) =
            guard->>-eq-ok (may_leave_course task.state) off_course_state_invalid _ h3 in
          let (reasoned, h5) =
            >>-eq-ok (assert_text (text input.reason) off_course_reason_invalid true 800) _ h4 in
          >>=-ok_cases (off_course_next p run task _ input.evidence at) _ h5 λ next e6 h6.
            let (new, next_task, item, updated_at, time, e7, e8, e9) =
              off_course_next-eq-ok p run task _ input.evidence at next e6 in
            let (same', after) = validate-Accepted p next run' h6 in
            record {
              task = task;
              next_task = next_task;
              item = item;
              new = new;
              updated_at = updated_at;
              time = time;
              before = before;
              after = rw same' after;
              on_course = rw same at on_course;
              found = rw same at (current_task-found p run _ task e3);
              may_leave = may_leave;
              found_next = rw same at e7;
              found_item = rw same at e8;
              result = cc (same', e9, same);
            }
