-- ===== src/Delivery/Lifecycle/Serial.antt =====
-- What one write of an operation of delivery-run.js does to the serial order of the tasks.
pub mod Writes
use mathlib.Core.Path.{subst}
use pane_fleet.Base.{
  ℕ, zero, suc, ◌+◌, ◌≡◌, refl, sym, ap, ◌∙◌, Bool, true, false, not, ◌&&◌, ◌||◌, ◌⊎◌, inl, inr,
  Option, none, some, List, [], ◌∷◌, ◌++◌, find, modify, map, get_elem?, Text, text_eq,
  text_eq_sound, text_eq_self, if◌then◌else◌, Bool-cases, arith, ok, Result, >>=-ok_cases,
  guard->>-eq-ok, >>-eq-ok,
}
use pane_fleet.Delivery.Types.{Task, OutboxItem, Run, Platform, TaskState, OutboxState, Condition}
use pane_fleet.Delivery.Fields.{inline, step_id_pattern}
use pane_fleet.Delivery.Fields.Ids.{KeepsStepIds, inline-step_id}
use pane_fleet.Delivery.Run.{has_step, is_for, normalized_step_id}
use pane_fleet.Delivery.Mission.{is_pending, is_linkable, is_linked}
use pane_fleet.Delivery.Validate.{is_verified, is_aborted}
use pane_fleet.Delivery.Validate.Accepted.{Accepted}
use pane_fleet.Delivery.Validate.Rows.{Row, Rows, validate_tasks-Rows}
use pane_fleet.Delivery.Steps.Parts.{find-true, find-modify}
use pane_fleet.Delivery.Lifecycle.{IsSerial}
use Writes.{modify-IsSerial, released-IsSerial, is_held}

find-pattern :
    (value : Run) (index : ℕ) (previous : Option Task) (ts : List Task) (os : List OutboxItem)
    (f : Task → Bool) (task : Task)
    → Rows value index previous ts os
    → find f ts ≡ some task
    → step_id_pattern task.step_id ≡ true
find-pattern value index previous [] os f task r h = cc
find-pattern value index previous (t ∷ ts) [] f task r h = absurd r
find-pattern value index previous (t ∷ ts) (o ∷ os) f task r h = elim (Bool-cases (f t)) [
  | inl e ↦ let same : t ≡ task = ground (arith, e, h) in rw (← same) r.0.step_id
  | inr e ↦ find-pattern value (index + 1) (some t) ts os f task r.1 (rw e at h)
]

some-inj : {A : Type 0} {x y : A} → some x ≡ some y → x ≡ y
some-inj h = cc

-- One write of an operation: to the task that the lookup of its own id finds.
module _ (p : Platform) (keeps : KeepsStepIds p) (value : Run) (before : Accepted p value)
    (task : Task) (asked : Text) (found : find (has_step asked) value.tasks ≡ some task) where
  rows : Rows value 0 none value.tasks value.outbox
  rows = validate_tasks-Rows p value _ _ 0 none [] value.tasks value.outbox before.tasks

  target : normalized_step_id p task.step_id ≡ task.step_id
  unfolding normalized_step_id
  target =
      let valid =
        find-pattern value 0 none value.tasks value.outbox (has_step asked) task rows found in
      ap p.to_upper_case (inline-step_id task.step_id valid) ∙ keeps task.step_id valid

  found_here : find (has_step task.step_id) value.tasks ≡ some task
  found_here = subst (λ s. find (has_step s) value.tasks ≡ some task) (sym same) found
    where
      same : task.step_id ≡ asked
      same =
          text_eq_sound task.step_id asked
            (find-true (has_step asked) (λ t. t) value.tasks task found)

  pub kept-write :
      (g : Task → Task)
      → is_pending task.state ≡ false
      → is_verified task ≡ false
      → IsSerial true value.tasks
      → IsSerial true (modify (has_step (normalized_step_id p task.step_id)) g value.tasks)
  kept-write g np nv s =
      rw target (modify-IsSerial task.step_id g true value.tasks task found_here np nv s)

  pub same-step :
      (g : Task → Task) (next_task : Task)
      → ((t : Task) → (g t).step_id ≡ t.step_id)
      → find
          (has_step (normalized_step_id p task.step_id))
          (modify (has_step (normalized_step_id p task.step_id)) g value.tasks)
        ≡ some next_task
      → next_task.step_id ≡ task.step_id
  same-step g next_task gs fn = ap (λ (t : Task). t.step_id) next ∙ gs task
    where
      next : next_task ≡ g task
      next = some-inj (
          sym (rw target at fn)
          ∙ find-modify (has_step task.step_id) g value.tasks task found_here
              (rw (gs task) (text_eq_self task.step_id)))

  -- The outbox item of the written task is not held in the accepted run that follows.
  pub released-write :
      (run' : Run) (after : Accepted p run')
      → (g : Task → Task) (change : OutboxItem → OutboxItem) (next_task : Task) (item : OutboxItem)
      → ((t : Task) → (g t).step_id ≡ t.step_id)
      → ((t : Task) → is_verified (g t) ≡ false)
      → ((i : OutboxItem) → (change i).step_id ≡ i.step_id)
      → run'.tasks ≡ modify (has_step (normalized_step_id p task.step_id)) g value.tasks
      → find
          (has_step (normalized_step_id p task.step_id))
          (modify (has_step (normalized_step_id p task.step_id)) g value.tasks)
        ≡ some next_task
      → run'.outbox ≡ modify (is_for next_task.step_id) change value.outbox
      → find (is_for next_task.step_id) value.outbox ≡ some item
      → is_held (change item).state ≡ false
      → is_aborted run'.condition ≡ false
      → is_verified task ≡ false
      → IsSerial true value.tasks
      → IsSerial true run'.tasks
  released-write run' after g change next_task item gs gv cs te fn oe fi nh live nv s =
      rw (te, target)
        (released-IsSerial run' live task.step_id g gs gv task nv (change item) nh 0 none true
          value.tasks run'.outbox found_here changed
          (subst (λ ts. Rows run' 0 none ts run'.outbox) (te ∙ ap write target) rows') refl s)
    where
      rows' : Rows run' 0 none run'.tasks run'.outbox
      rows' = validate_tasks-Rows p run' _ _ 0 none [] run'.tasks run'.outbox after.tasks

      write : Text → List Task
      write step = modify (has_step step) g value.tasks

      step : next_task.step_id ≡ task.step_id
      step = same-step g next_task gs fn

      here : find (is_for task.step_id) value.outbox ≡ some item
      here = subst (λ s. find (is_for s) value.outbox ≡ some item) step fi

      changed : find (is_for task.step_id) run'.outbox ≡ some (change item)
      changed =
          ap (find (is_for task.step_id))
            (oe ∙ ap (λ s. modify (is_for s) change value.outbox) step)
          ∙ find-modify (is_for task.step_id) change value.outbox item here
              (rw (cs item) (find-true (is_for task.step_id) change value.outbox item here))
