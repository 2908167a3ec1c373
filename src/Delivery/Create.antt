-- ===== src/Delivery/Create.antt =====
-- createDeliveryRun of delivery-run.js, with createTask and createOutbox.
use pane_fleet.Base.{
  ℕ, ◌+◌, Bool, true, not, ◌&&◌, none, List, [], ◌∷◌, ◌++◌, map, leb, ◌==◌, if◌then◌else◌, length,
  Text, codes, text_eq, includes, take, Result, ok, ◌>>=◌, ◌>>◌, guard,
}
use pane_fleet.Delivery.Types.{
  RunError, run_id_invalid, plan_id_invalid, plan_revision_invalid, plan_digest_invalid,
  workspace_invalid, tasks_invalid, step_id_invalid, step_id_duplicate, step_digest_invalid,
  mission_definition_digest_invalid, task_acceptance_ids_invalid, Condition, TaskState, OutboxState,
  Baseline, Task, OutboxItem, Run, Platform, planned,
}
use pane_fleet.Delivery.Fields.{
  max_safe_integer, inline, timestamp, assert_digest, run_id_pattern, plan_id_pattern,
  step_id_pattern, acceptance_id_pattern, normalized_unique_ids, normalized_scope_paths,
  is_absolute, delivery_run_mission_binding_key,
}
use pane_fleet.Delivery.Validate.{validate_delivery_run}
use pane_fleet.Delivery.Validate.Tasks.{is_nil}

pub record TaskInput : Type 0 where
  pub step_id : Text
  pub step_digest : Text
  pub acceptance_ids : List Text
  pub allowed_paths : List Text
  pub mission_definition_digest : Text

pub record RunInput : Type 0 where
  pub id : Text
  pub plan_id : Text
  pub plan_revision : ℕ
  pub plan_digest : Text
  pub workspace : Text
  pub start_baseline : Baseline
  pub tasks : List TaskInput

pub record TaskContext : Type 0 where
  pub run_id : Text
  pub plan_id : Text
  pub plan_digest : Text
  pub start_baseline_digest : Text

unfoldable pub create_task : Platform → TaskInput → TaskContext → ℕ → Result RunError Task
create_task p value context sequence =
    let step_id = p.to_upper_case (inline value.step_id) in
    let step_digest = p.to_lower_case (inline value.step_digest) in
    let mission_definition_digest = p.to_lower_case (inline value.mission_definition_digest) in
    do
      guard (step_id_pattern step_id) step_id_invalid
      assert_digest step_digest step_digest_invalid
      assert_digest mission_definition_digest mission_definition_digest_invalid
      acceptance_ids ←
          normalized_unique_ids p value.acceptance_ids acceptance_id_pattern
            task_acceptance_ids_invalid 120
      guard (not (is_nil acceptance_ids)) task_acceptance_ids_invalid
      allowed_paths ← normalized_scope_paths p value.allowed_paths
      ok (record {
        step_id = step_id;
        sequence = sequence;
        step_digest = step_digest;
        acceptance_ids = acceptance_ids;
        allowed_paths = allowed_paths;
        expected_baseline_digest = if sequence == 0 then context.start_baseline_digest else [];
        state = TaskState.pending;
        mission_binding_key =
            delivery_run_mission_binding_key p context.run_id context.plan_id context.plan_digest
              step_id;
        mission_definition_digest = mission_definition_digest;
        mission_id = none;
        implementation = record { baseline = none; evidence_ids = []; captured_at = none };
        verification_id = none;
      })

unfoldable pub create_outbox : Task → Text → OutboxItem
create_outbox task at = record {
  id = codes "outbox-" ++ take 32 task.mission_binding_key;
  kind = codes "mission.ensure";
  step_id = task.step_id;
  binding_key = task.mission_binding_key;
  payload_digest = task.mission_definition_digest;
  state = if task.sequence == 0 then OutboxState.pending else OutboxState.held;
  mission_id = none;
  error = [];
  updated_at = at;
}

unfoldable pub create_tasks :
    Platform → TaskContext → ℕ → List TaskInput → Result RunError (List Task)
create_tasks p context index [] = ok []
create_tasks p context index (value ∷ values) = do
  task ← create_task p value context index
  tasks ← create_tasks p context (index + 1) values
  ok (task ∷ tasks)

-- new Set(values).size === values.length
unfoldable pub all_distinct : List Text → Bool
all_distinct [] = true
all_distinct (value ∷ values) = not (includes values value) && all_distinct values

unfoldable pub create_delivery_run : Platform → RunInput → Text → Result RunError Run
create_delivery_run p value at =
    let id = p.to_lower_case (inline value.id) in
    let plan_id = p.to_lower_case (inline value.plan_id) in
    let plan_digest = p.to_lower_case (inline value.plan_digest) in
    let workspace = p.path_normalize (inline value.workspace) in
    do
      created_at ← timestamp p at
      guard (run_id_pattern id) run_id_invalid
      guard (plan_id_pattern plan_id) plan_id_invalid
      guard (leb 1 value.plan_revision && leb value.plan_revision max_safe_integer)
          plan_revision_invalid
      assert_digest plan_digest plan_digest_invalid
      guard
          (is_absolute workspace
            && text_eq workspace (inline value.workspace)
            && leb (length workspace) 4096)
          workspace_invalid
      start_baseline ← p.create_workspace_baseline value.start_baseline
      guard (leb 1 (length value.tasks) && leb (length value.tasks) 80) tasks_invalid
      tasks ←
          create_tasks p
            (record {
              run_id = id;
              plan_id = plan_id;
              plan_digest = plan_digest;
              start_baseline_digest = start_baseline.digest;
            })
            0 value.tasks
      guard (all_distinct (map (λ (task : Task). task.step_id) tasks)) step_id_duplicate
      validate_delivery_run p (record {
        version = 1;
        id = id;
        revision = 1;
        plan_id = plan_id;
        plan_revision = value.plan_revision;
        plan_digest = plan_digest;
        workspace = workspace;
        start_baseline = start_baseline;
        condition = Condition.preparing;
        tasks = tasks;
        outbox = map (λ task. create_outbox task created_at) tasks;
        evidence_index = [];
        verification_records = [];
        delivery = record { level = planned; evidence_ids = []; updated_at = created_at };
        abort = none;
        blocker = [];
        created_at = created_at;
        updated_at = created_at;
      })
