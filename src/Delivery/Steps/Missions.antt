-- ===== src/Delivery/Steps/Missions.antt =====
-- Inversion of linkDeliveryRunMission and markDeliveryRunMissionReconcileRequired.
use pane_fleet.Base.{
  ◌+◌, ◌≡◌, ◌⊎◌, inl, inr, refl, true, ◌&&◌, some, find, modify, Text, text_eq, ok, >>=-ok_cases,
  >>-eq-ok, guard->>-eq-ok, &&-eq-true, [],
}
use pane_fleet.Delivery.Types.{
  Task, OutboxItem, Run, Platform, Condition, TaskState, OutboxState, mission_link_state_invalid,
  mission_binding_conflict, mission_id_invalid, mission_reconcile_state_invalid,
  mission_reconcile_error_invalid,
}
use pane_fleet.Delivery.Fields.{inline, timestamp, mission_id_pattern, assert_text}
use pane_fleet.Delivery.Validate.{validate_delivery_run, awaits_mission}
use pane_fleet.Delivery.Validate.Accepted.{Accepted, validate-Accepted}
use pane_fleet.Delivery.Run.{
  has_step, is_for, normalized_step_id, current_task, outbox_for_task, update_task, update_outbox,
  is_mutable, assert_work_mutable,
}
use pane_fleet.Delivery.Mission.{
  LinkInput, ReconcileInput, is_linkable, is_pending, outbox_pending, link_next,
  link_delivery_run_mission, reconcile_next, mark_delivery_run_mission_reconcile_required,
}
use pane_fleet.Delivery.Steps.Parts.{
  is_unfinished, is_mutable-unfinished, current_task-found, outbox_for_task-found,
  update_task-eq-ok, update_outbox-eq-ok, next_revision-eq-ok,
}

-- The states that `link_next` and `reconcile_next` build, under the time that they stamp.
abbrev pub linked_state : Platform → Run → Task → Task → Text → Text → Run
linked_state p run task next_task mission_id at = record run {
  tasks =
      modify (has_step (normalized_step_id p task.step_id))
        (λ t. record t { state = TaskState.mission_linked; mission_id = some mission_id })
        run.tasks;
  outbox =
      modify (is_for next_task.step_id)
        (λ item. record item {
          state = OutboxState.applied;
          mission_id = some mission_id;
          error = [];
          updated_at = at;
        })
        run.outbox;
  condition = Condition.active;
  blocker = [];
  revision = run.revision + 1;
  updated_at = at;
}

abbrev pub reconcile_state : Platform → Run → Task → Task → Text → Text → Run
reconcile_state p run task next_task error at = record run {
  tasks =
      modify (has_step (normalized_step_id p task.step_id))
        (λ t. record t { state = TaskState.reconcile_required }) run.tasks;
  outbox =
      modify (is_for next_task.step_id)
        (λ item. record item {
          state = OutboxState.reconcile_required;
          error = error;
          updated_at = at;
        })
        run.outbox;
  condition = Condition.reconcile_required;
  blocker = error;
  revision = run.revision + 1;
  updated_at = at;
}

module _ (p : Platform) (run : Run) (task : Task) where
  link_next-eq-ok :
      (mission_id at : Text) (run' : Run)
      → link_next p run task mission_id at ≡ ok run'
      → (next_task : Task) × (time : Text) × (find
            (has_step (normalized_step_id p task.step_id))
            (linked_state p run task task mission_id at).tasks
          ≡ some next_task)
        × (timestamp p at ≡ ok time)
        × (run' ≡ linked_state p run task next_task mission_id time)
  unfolding link_next
  link_next-eq-ok mission_id at run' h =
      >>=-ok_cases (update_task p run task.step_id _) _ h λ linked e1 h1.
        >>=-ok_cases (current_task p linked task.step_id) _ h1 λ next_task e2 h2.
          >>=-ok_cases (timestamp p at) _ h2 λ time e3 h3.
            >>=-ok_cases (update_outbox linked next_task _) _ h3 λ applied e4 h4.
              let (time', e5, h5) = next_revision-eq-ok p _ at run' h4 in
              let (item, e6, e7) = update_outbox-eq-ok _ _ _ _ e4 in
              let e8 = update_task-eq-ok p _ _ _ _ e1 in
              (
                next_task,
                time,
                rw e8 at (current_task-found p linked _ next_task e2),
                e3,
                cc (h5, e7, e8, e3, e5),
              )

  reconcile_next-eq-ok :
      (error at : Text) (run' : Run)
      → reconcile_next p run task error at ≡ ok run'
      → (next_task : Task) × (time : Text) × (find
            (has_step (normalized_step_id p task.step_id))
            (reconcile_state p run task task error at).tasks
          ≡ some next_task)
        × (timestamp p at ≡ ok time)
        × (run' ≡ reconcile_state p run task next_task error time)
  unfolding reconcile_next
  reconcile_next-eq-ok error at run' h =
      >>=-ok_cases (update_task p run task.step_id _) _ h λ marked e1 h1.
        >>=-ok_cases (current_task p marked task.step_id) _ h1 λ next_task e2 h2.
          >>=-ok_cases (timestamp p at) _ h2 λ time e3 h3.
            >>=-ok_cases (update_outbox marked next_task _) _ h3 λ changed e4 h4.
              let (time', e5, h5) = next_revision-eq-ok p _ at run' h4 in
              let (item, e6, e7) = update_outbox-eq-ok _ _ _ _ e4 in
              let e8 = update_task-eq-ok p _ _ _ _ e1 in
              (
                next_task,
                time,
                rw e8 at (current_task-found p marked _ next_task e2),
                e3,
                cc (h5, e7, e8, e3, e5),
              )

awaits_mission-states :
    (s : OutboxState)
    → awaits_mission s ≡ true
    → (s ≡ OutboxState.pending) ⊎ (s ≡ OutboxState.reconcile_required)
awaits_mission-states OutboxState.pending h = inl refl
awaits_mission-states OutboxState.reconcile_required h = inr refl
awaits_mission-states _ h = absurd (cc h)

is_linkable-states :
    (s : TaskState)
    → is_linkable s ≡ true
    → (s ≡ TaskState.pending) ⊎ (s ≡ TaskState.reconcile_required)
is_linkable-states TaskState.pending h = inl refl
is_linkable-states TaskState.reconcile_required h = inr refl
is_linkable-states _ h = absurd (cc h)

module _ (p : Platform) (value : Run) where
  -- A successful link, with the run before and behind it accepted.
  pub record Linked (input : LinkInput) (at : Text) (run' : Run) : Type 0 where
    pub task : Task
    pub next_task : Task
    pub item : OutboxItem
    pub mission_id : Text
    pub time : Text
    pub named : mission_id ≡ p.to_lower_case (inline input.mission_id)
    pub well_named : mission_id_pattern mission_id ≡ true
    pub stamped : timestamp p at ≡ ok time
    pub before : Accepted p value
    pub after : Accepted p run'
    pub mutable : is_mutable value.condition ≡ true
    pub unfinished : is_unfinished value.condition ≡ true
    pub found : find (has_step (normalized_step_id p input.step_id)) value.tasks ≡ some task
    pub found_item : find (is_for task.step_id) value.outbox ≡ some item
    pub waits : awaits_mission item.state ≡ true
    pub linkable : is_linkable task.state ≡ true
    pub open_item :
        (item.state ≡ OutboxState.pending) ⊎ (item.state ≡ OutboxState.reconcile_required)
    pub open_task : (task.state ≡ TaskState.pending) ⊎ (task.state ≡ TaskState.reconcile_required)
    pub same_binding : text_eq input.binding_key task.mission_binding_key ≡ true
    pub found_next :
        find
          (has_step (normalized_step_id p task.step_id))
          (linked_state p value task task mission_id at).tasks
        ≡ some next_task
    pub result : run' ≡ linked_state p value task next_task mission_id time

  -- A successful linkDeliveryRunMission starts from a run that validateDeliveryRun accepts and that is neither aborted nor verified, finds the step's task and its outbox item, each pending or to be reconciled, under the task's own binding key, and returns an accepted run that differs only in that task and its item, which are linked to the mission id of the input in lower case, in the condition, the blocker, the revision and the time, which is the given one.
  pub link-Linked :
      (input : LinkInput) (at : Text) (run' : Run)
      → link_delivery_run_mission p value input at ≡ ok run'
      → Linked input at run'
  unfolding link_delivery_run_mission assert_work_mutable
  link-Linked input at run' h = >>=-ok_cases (validate_delivery_run p value) _ h λ run e1 h1.
      let (same, before) = validate-Accepted p value run e1 in
      let (mutable, h2) =
        guard->>-eq-ok (is_mutable run.condition) mission_link_state_invalid _ h1 in
      >>=-ok_cases (current_task p run input.step_id) _ h2 λ task e3 h3.
        >>=-ok_cases (outbox_for_task run task) _ h3 λ item e4 h4.
          let (open_state, h5) =
            guard->>-eq-ok (awaits_mission item.state && is_linkable task.state)
              mission_link_state_invalid _ h4 in
          let (binding, h6) =
            guard->>-eq-ok (text_eq input.binding_key task.mission_binding_key)
              mission_binding_conflict _ h5 in
          let (named, h7) =
            guard->>-eq-ok (mission_id_pattern (p.to_lower_case (inline input.mission_id)))
              mission_id_invalid _ h6 in
          >>=-ok_cases (link_next p run task _ at) _ h7 λ next e8 h8.
            let (next_task, time, e9, e10, e11) = link_next-eq-ok p run task _ at next e8 in
            let (same', after) = validate-Accepted p next run' h8 in
            record {
              task = task;
              next_task = next_task;
              item = item;
              mission_id = p.to_lower_case (inline input.mission_id);
              time = time;
              named = refl;
              well_named = named;
              stamped = e10;
              before = before;
              after = rw same' after;
              mutable = rw same at mutable;
              unfinished = rw same at (is_mutable-unfinished run.condition mutable);
              found = rw same at (current_task-found p run _ task e3);
              found_item = rw same at (outbox_for_task-found run task item e4);
              waits = (&&-eq-true _ _ open_state).0;
              linkable = (&&-eq-true _ _ open_state).1;
              open_item = awaits_mission-states item.state (&&-eq-true _ _ open_state).0;
              open_task = is_linkable-states task.state (&&-eq-true _ _ open_state).1;
              same_binding = binding;
              found_next = rw same at e9;
              result = cc (same', e11, same);
            }

  -- A successful reconcile mark, with the run before and behind it accepted.
  pub record Marked (input : ReconcileInput) (at : Text) (run' : Run) : Type 0 where
    pub task : Task
    pub next_task : Task
    pub item : OutboxItem
    pub time : Text
    pub before : Accepted p value
    pub after : Accepted p run'
    pub mutable : is_mutable value.condition ≡ true
    pub found : find (has_step (normalized_step_id p input.step_id)) value.tasks ≡ some task
    pub found_item : find (is_for task.step_id) value.outbox ≡ some item
    pub waits : outbox_pending item.state ≡ true
    pub waiting : is_pending task.state ≡ true
    pub found_next :
        find
          (has_step (normalized_step_id p task.step_id))
          (reconcile_state p value task task (inline input.error) at).tasks
        ≡ some next_task
    pub result : run' ≡ reconcile_state p value task next_task (inline input.error) time

  pub reconcile-Marked :
      (input : ReconcileInput) (at : Text) (run' : Run)
      → mark_delivery_run_mission_reconcile_required p value input at ≡ ok run'
      → Marked input at run'
  unfolding mark_delivery_run_mission_reconcile_required assert_work_mutable
  reconcile-Marked input at run' h = >>=-ok_cases (validate_delivery_run p value) _ h λ run e1 h1.
      let (same, before) = validate-Accepted p value run e1 in
      let (mutable, h2) =
        guard->>-eq-ok (is_mutable run.condition) mission_reconcile_state_invalid _ h1 in
      >>=-ok_cases (current_task p run input.step_id) _ h2 λ task e3 h3.
        >>=-ok_cases (outbox_for_task run task) _ h3 λ item e4 h4.
          let (open_state, h5) =
            guard->>-eq-ok (outbox_pending item.state && is_pending task.state)
              mission_reconcile_state_invalid _ h4 in
          let (binding, h6) =
            guard->>-eq-ok (text_eq input.binding_key task.mission_binding_key)
              mission_binding_conflict _ h5 in
          let (named, h7) =
            >>-eq-ok (assert_text (inline input.error) mission_reconcile_error_invalid true 500) _
              h6 in
          >>=-ok_cases (reconcile_next p run task _ at) _ h7 λ next e8 h8.
            let (next_task, time, e9, e10, e11) = reconcile_next-eq-ok p run task _ at next e8 in
            let (same', after) = validate-Accepted p next run' h8 in
            record {
              task = task;
              next_task = next_task;
              item = item;
              time = time;
              before = before;
              after = rw same' after;
              mutable = rw same at mutable;
              found = rw same at (current_task-found p run _ task e3);
              found_item = rw same at (outbox_for_task-found run task item e4);
              waits = (&&-eq-true _ _ open_state).0;
              waiting = (&&-eq-true _ _ open_state).1;
              found_next = rw same at e9;
              result = cc (same', e11, same);
            }
