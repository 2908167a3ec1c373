-- ===== src/Delivery/Run.antt =====
-- The helpers that the operations of delivery-run.js share: lookups and writes of one task or one
-- outbox item, the next revision, the delivery level.
use pane_fleet.Base.{
  ◌+◌, Bool, true, false, List, [], ◌∷◌, ◌++◌, if◌then◌else◌, find, modify, Text, text_eq, includes,
  Result, ok, ◌>>=◌, guard, or_throw,
}
use pane_fleet.Delivery.Types.{
  RunError, task_not_found, outbox_invalid, Condition, Task, OutboxItem, Run, Platform,
}
use pane_fleet.Delivery.Fields.{inline, timestamp}
use pane_fleet.Delivery.Validate.{expected_delivery_level}

abbrev pub has_step : Text → Task → Bool
has_step step_id task = text_eq task.step_id step_id

abbrev pub is_for : Text → OutboxItem → Bool
is_for step_id item = text_eq item.step_id step_id

unfoldable pub normalized_step_id : Platform → Text → Text
normalized_step_id p step_id = p.to_upper_case (inline step_id)

unfoldable pub current_task : Platform → Run → Text → Result RunError Task
current_task p run step_id =
    or_throw (find (has_step (normalized_step_id p step_id)) run.tasks) task_not_found

unfoldable pub outbox_for_task : Run → Task → Result RunError OutboxItem
outbox_for_task run task = or_throw (find (is_for task.step_id) run.outbox) outbox_invalid

-- A write to the task that `currentTask` returns, and to the item that `outboxForTask` returns.
unfoldable pub update_task : Platform → Run → Text → (Task → Task) → Result RunError Run
update_task p run step_id change = do
  task ← current_task p run step_id
  ok (record run { tasks = modify (has_step (normalized_step_id p step_id)) change run.tasks })

unfoldable pub update_outbox : Run → Task → (OutboxItem → OutboxItem) → Result RunError Run
update_outbox run task change = do
  item ← outbox_for_task run task
  ok (record run { outbox = modify (is_for task.step_id) change run.outbox })

unfoldable pub next_revision : Platform → Run → Text → Result RunError Run
next_revision p run at = do
  updated_at ← timestamp p at
  ok (record run { revision = run.revision + 1; updated_at = updated_at })

unfoldable pub add_missing : List Text → List Text → List Text
add_missing known [] = known
add_missing known (id ∷ ids) =
    add_missing (if includes known id then known else known ++ id ∷ []) ids

unfoldable pub refresh_delivery : Platform → Run → List Text → Text → Result RunError Run
refresh_delivery p run ids at = do
  updated_at ← timestamp p at
  ok (record run {
    delivery = record {
      level = expected_delivery_level run;
      evidence_ids = add_missing run.delivery.evidence_ids ids;
      updated_at = updated_at;
    };
  })

-- !['aborted', 'verified'].includes(run.condition)
abbrev pub is_mutable : Condition → Bool
is_mutable Condition.aborted = false
is_mutable Condition.verified = false
is_mutable _ = true

unfoldable pub assert_work_mutable : Run → RunError → Result RunError (Unit {0})
assert_work_mutable run code = guard (is_mutable run.condition) code
