-- ===== src/Delivery/Validate/Rows.antt =====
-- What the loop of validateDeliveryRun has checked of each task with its outbox item.
use pane_fleet.Base.{
  ℕ, ◌+◌, ◌≡◌, true, false, not, ◌&&◌, ◌||◌, ◌==◌, ==_iff, Option, none, some, List, [], ◌∷◌, ◌++◌,
  leb, Text, codes, text_eq, includes, take, ok, >>-eq-ok, guard->>-eq-ok, guard-eq-ok, &&-eq-true,
  arith,
}
use pane_fleet.Delivery.Types.{
  Task, OutboxItem, Run, Platform, task_invalid, task_order_invalid, task_verification_invalid,
  task_lifecycle_invalid, outbox_invalid, outbox_lifecycle_invalid, task_baseline_invalid,
  abort_task_invalid, outbox_sequence_invalid,
}
use pane_fleet.Delivery.Fields.{
  max_safe_integer, step_id_pattern, outbox_id_pattern, mission_id_pattern, valid_timestamp,
  assert_text, verification_id_pattern,
}
use pane_fleet.Delivery.Validate.{
  is_aborted, abort_fits, released_digest, sequence_fits, validate_position, validate_tasks,
}
use pane_fleet.Delivery.Validate.Tasks.{
  validate_task_scope, validate_implementation, validate_task_lifecycle, validate_task,
  validate_outbox, outbox_fits, null_or, needs_mission, needs_baseline, needs_verification,
  is_missing, is_null,
}

-- What a task's position asks of it, given the task before it.
abbrev pub Position : Run → Option Task → Task → OutboxItem → Type 0
Position value none task item =
    (abort_fits (is_aborted value.condition) task.state item.state ≡ true)
    × (text_eq task.expected_baseline_digest value.start_baseline.digest ≡ true)
Position value (some previous) task item =
    (abort_fits (is_aborted value.condition) task.state item.state ≡ true)
    × (text_eq task.expected_baseline_digest
          (released_digest previous.state previous.implementation.baseline)
        ≡ true)
    × ((is_aborted value.condition || sequence_fits previous.state task.state item.state) ≡ true)

pub record Row (value : Run) (index : ℕ) (previous : Option Task) (task : Task) (item : OutboxItem)
    : Type 0 where
  pub step_id : step_id_pattern task.step_id ≡ true
  pub sequence : task.sequence ≡ index
  pub same_step : text_eq item.step_id task.step_id ≡ true
  pub fits : outbox_fits item.state task.state item task ≡ true
  pub has_baseline : (needs_baseline task.state && is_null task.implementation.baseline) ≡ false
  pub has_verification : (needs_verification task.state && is_missing task.verification_id) ≡ false
  pub position : Position value previous task item

abbrev pub Rows : Run → ℕ → Option Task → List Task → List OutboxItem → Type 0
Rows value index previous [] outbox = Unit
Rows value index previous (task ∷ tasks) [] = ⊥
Rows value index previous (task ∷ tasks) (item ∷ outbox) =
    Row value index previous task item × Rows value (index + 1) (some task) tasks outbox

validate_position-Position :
    (value : Run) (previous : Option Task) (task : Task) (item : OutboxItem)
    → validate_position value previous task item ≡ ok tt
    → Position value previous task item
unfolding validate_position
validate_position-Position value none task item h = ground arith
validate_position-Position value (some previous) task item h =
    let (a, h1) =
      guard->>-eq-ok (abort_fits (is_aborted value.condition) task.state item.state)
        abort_task_invalid _ h in
    let (d, h2) =
      guard->>-eq-ok (text_eq task.expected_baseline_digest _) task_baseline_invalid _ h1 in
    (a, d, guard-eq-ok _ outbox_sequence_invalid h2)

-- The parts of `validateTask` and `validateOutbox` that the lifecycle proofs use.
task-lifecycle :
    (p : Platform) (task : Task) (value : Run) (eids vids : List Text)
    → validate_task p task value eids vids ≡ ok tt
    → (step_id_pattern task.step_id ≡ true)
      × ((needs_baseline task.state && is_null task.implementation.baseline) ≡ false)
      × ((needs_verification task.state && is_missing task.verification_id) ≡ false)
unfolding validate_task validate_task_scope validate_task_lifecycle
task-lifecycle p task value eids vids h =
    let (scope, h1) =
      >>-eq-ok (unfold validate_task_scope in validate_task_scope p task value) _ h in
    let (implemented, h2) =
      >>-eq-ok (validate_implementation p task.implementation value eids) _ h1 in
    let (named, h3) =
      guard->>-eq-ok (null_or verification_id_pattern task.verification_id)
        task_verification_invalid _ h2 in
    let (known, h4) =
      guard->>-eq-ok (null_or (includes vids) task.verification_id) task_verification_invalid _
        h3 in
    let (mission, h5) =
      guard->>-eq-ok (not (needs_mission task.state && is_missing task.mission_id))
        task_lifecycle_invalid _ h4 in
    let (baseline, h6) =
      guard->>-eq-ok (not (needs_baseline task.state && is_null task.implementation.baseline))
        task_lifecycle_invalid _ h5 in
    let verified =
      guard-eq-ok (not (needs_verification task.state && is_missing task.verification_id))
        task_lifecycle_invalid h6 in
    let (shape, h7) =
      guard->>-eq-ok (step_id_pattern task.step_id && leb task.sequence max_safe_integer)
        task_invalid _ scope in
    ((&&-eq-true _ _ shape).0, ground (arith, baseline), ground (arith, verified))

outbox-fits :
    (p : Platform) (item : OutboxItem) (task : Task)
    → validate_outbox p item task ≡ ok tt
    → (text_eq item.step_id task.step_id ≡ true)
      × (outbox_fits item.state task.state item task ≡ true)
unfolding validate_outbox
outbox-fits p item task h =
    let (shape, h1) =
      guard->>-eq-ok
        (outbox_id_pattern item.id
          && text_eq item.id (codes "outbox-" ++ take 32 task.mission_binding_key)
          && text_eq item.kind (codes "mission.ensure")
          && text_eq item.step_id task.step_id
          && text_eq item.binding_key task.mission_binding_key
          && text_eq item.payload_digest task.mission_definition_digest
          && valid_timestamp p item.updated_at)
        outbox_invalid _ h in
    let (mission, h2) =
      guard->>-eq-ok (null_or mission_id_pattern item.mission_id) outbox_invalid _ h1 in
    let (bounded, h3) = >>-eq-ok (assert_text item.error outbox_invalid false 500) _ h2 in
    let (fits, h4) =
      guard->>-eq-ok (outbox_fits item.state task.state item task) outbox_lifecycle_invalid _ h3 in
    (ground (arith, shape), fits)

pub validate_tasks-Rows :
    (p : Platform) (value : Run) (eids vids : List Text) (index : ℕ) (previous : Option Task)
    (steps : List Text) (tasks : List Task) (outbox : List OutboxItem)
    → validate_tasks p value eids vids index previous steps tasks outbox ≡ ok tt
    → Rows value index previous tasks outbox
unfolding validate_tasks
validate_tasks-Rows p value eids vids index previous steps [] outbox h = tt
validate_tasks-Rows p value eids vids index previous steps (task ∷ tasks) [] h = absurd (cc)
validate_tasks-Rows p value eids vids index previous steps (task ∷ tasks) (item ∷ outbox) h =
    let (valid, h1) = >>-eq-ok (validate_task p task value eids vids) _ h in
    let (order, h2) =
      guard->>-eq-ok (task.sequence == index && not (includes steps task.step_id))
        task_order_invalid _ h1 in
    let (outboxed, h3) = >>-eq-ok (validate_outbox p item task) _ h2 in
    let (placed, h4) = >>-eq-ok (validate_position value previous task item) _ h3 in
    let (named, baseline, verified) = task-lifecycle p task value eids vids valid in
    let (same, fits) = outbox-fits p item task outboxed in
    (
      record {
        step_id = named;
        sequence = (==_iff _ _).0 (&&-eq-true _ _ order).0;
        same_step = same;
        fits = fits;
        has_baseline = baseline;
        has_verification = verified;
        position = validate_position-Position value previous task item placed;
      },
      validate_tasks-Rows p value eids vids (index + 1) (some task) (task.step_id ∷ steps) tasks
          outbox h4,
    )
