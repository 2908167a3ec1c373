-- ===== src/Delivery/Steps/Parts.antt =====
-- Inversion of the shared helpers: lookups, writes, the next revision.
use pane_fleet.Base.{
  ◌+◌, ◌≡◌, refl, true, false, Bool, &&-eq-true, text_eq, text_eq_sound, Option, none, some, List,
  find, modify, Text, ok, or_throw, >>=-eq-ok, inl, inr, arith, [], ◌∷◌, Bool-cases,
}
use pane_fleet.Delivery.Types.{
  Task, OutboxItem, Run, Platform, Baseline, Condition, TaskState, task_not_found, outbox_invalid,
}
use pane_fleet.Delivery.Fields.{timestamp}
use pane_fleet.Delivery.Validate.{expected_delivery_level}
use pane_fleet.Delivery.Validate.Tasks.{same_identity}
use pane_fleet.Delivery.Validate.Records.{is_abortable}
use pane_fleet.Delivery.Mission.{is_linked}
use pane_fleet.Delivery.Verify.{is_captured}
use pane_fleet.Delivery.Run.{
  is_mutable, has_step, is_for, normalized_step_id, current_task, outbox_for_task, update_task,
  update_outbox, next_revision, add_missing, refresh_delivery,
}

-- A run that is neither verified nor aborted.
abbrev pub is_unfinished : Condition → Bool
is_unfinished Condition.verified = false
is_unfinished Condition.aborted = false
is_unfinished _ = true

mutable-unfinished : (c : Condition) → is_mutable c ≡ is_unfinished c
mutable-unfinished _ = refl

abortable-unfinished : (c : Condition) → is_abortable c ≡ is_unfinished c
abortable-unfinished _ = refl

pub is_mutable-unfinished : (c : Condition) → is_mutable c ≡ true → is_unfinished c ≡ true
is_mutable-unfinished c h = cc (mutable-unfinished c, h)

pub is_abortable-unfinished : (c : Condition) → is_abortable c ≡ true → is_unfinished c ≡ true
is_abortable-unfinished c h = cc (abortable-unfinished c, h)

pub is_linked-state : (s : TaskState) → is_linked s ≡ true → s ≡ TaskState.mission_linked
is_linked-state TaskState.mission_linked h = refl
is_linked-state _ h = absurd (cc h)

pub is_captured-state :
    (s : TaskState) → is_captured s ≡ true → s ≡ TaskState.implementation_captured
is_captured-state TaskState.implementation_captured h = refl
is_captured-state _ h = absurd (cc h)

-- Baselines of one workspace.
pub record IsSameWorkspace (baseline start : Baseline) : Type 0 where
  pub workspace : baseline.workspace ≡ start.workspace
  pub repo_root : baseline.repo_root ≡ start.repo_root
  pub workspace_prefix : baseline.workspace_prefix ≡ start.workspace_prefix

pub same_identity-IsSameWorkspace :
    (baseline start : Baseline)
    → same_identity baseline start ≡ true
    → IsSameWorkspace baseline start
same_identity-IsSameWorkspace baseline start h =
    let (both, third) = &&-eq-true _ (text_eq baseline.workspace_prefix start.workspace_prefix) h in
    let (first, second) = &&-eq-true (text_eq baseline.workspace start.workspace) _ both in
    record {
      workspace = text_eq_sound _ _ first;
      repo_root = text_eq_sound _ _ second;
      workspace_prefix = text_eq_sound _ _ third;
    }

pub or_throw-eq-ok :
    {E A : Type 0} (o : Option A) (e : E) {a : A} → or_throw o e ≡ ok a → o ≡ some a
or_throw-eq-ok none e h = cc
or_throw-eq-ok (some x) e h = cc

pub current_task-found :
    (p : Platform) (run : Run) (step_id : Text) (task : Task)
    → current_task p run step_id ≡ ok task
    → find (has_step (normalized_step_id p step_id)) run.tasks ≡ some task
unfolding current_task
current_task-found p run step_id task h = or_throw-eq-ok _ task_not_found h

pub outbox_for_task-found :
    (run : Run) (task : Task) (item : OutboxItem)
    → outbox_for_task run task ≡ ok item
    → find (is_for task.step_id) run.outbox ≡ some item
unfolding outbox_for_task
outbox_for_task-found run task item h = or_throw-eq-ok _ outbox_invalid h

pub update_task-eq-ok :
    (p : Platform) (run : Run) (step_id : Text) (change : Task → Task) (run' : Run)
    → update_task p run step_id change ≡ ok run'
    → run'
      ≡ record run { tasks = modify (has_step (normalized_step_id p step_id)) change run.tasks }
unfolding update_task
update_task-eq-ok p run step_id change run' h =
    let (task, found, rest) = >>=-eq-ok (current_task p run step_id) _ h in cc (rest)

pub update_outbox-eq-ok :
    (run : Run) (task : Task) (change : OutboxItem → OutboxItem) (run' : Run)
    → update_outbox run task change ≡ ok run'
    → (item : OutboxItem) × (find (is_for task.step_id) run.outbox ≡ some item)
      × (run' ≡ record run { outbox = modify (is_for task.step_id) change run.outbox })
unfolding update_outbox
update_outbox-eq-ok run task change run' h =
    let (item, found, rest) = >>=-eq-ok (outbox_for_task run task) _ h in
    (item, outbox_for_task-found run task item found, cc (rest))

pub next_revision-eq-ok :
    (p : Platform) (run : Run) (at : Text) (run' : Run)
    → next_revision p run at ≡ ok run'
    → (updated_at : Text) × (timestamp p at ≡ ok updated_at)
      × (run' ≡ record run { revision = run.revision + 1; updated_at = updated_at })
unfolding next_revision
next_revision-eq-ok p run at run' h =
    let (updated_at, time, rest) = >>=-eq-ok (timestamp p at) _ h in (updated_at, time, cc (rest))

pub refresh_delivery-eq-ok :
    (p : Platform) (run : Run) (ids : List Text) (at : Text) (run' : Run)
    → refresh_delivery p run ids at ≡ ok run'
    → (updated_at : Text) × (timestamp p at ≡ ok updated_at)
      × (run' ≡ record run {
        delivery = record {
          level = expected_delivery_level run;
          evidence_ids = add_missing run.delivery.evidence_ids ids;
          updated_at = updated_at;
        };
      })
unfolding refresh_delivery
refresh_delivery-eq-ok p run ids at run' h =
    let (updated_at, time, rest) = >>=-eq-ok (timestamp p at) _ h in (updated_at, time, cc (rest))

-- The write goes to what the lookup finds, and a second lookup finds the written value.
module _ {A : Type 0} (f : A → Bool) (g : A → A) where
  pub find-true : (xs : List A) (x : A) → find f xs ≡ some x → f x ≡ true
  find-true [] x h = cc
  find-true (y ∷ ys) x h = elim (Bool-cases (f y)) [
    | inl e ↦ ground (arith, e)
    | inr e ↦ find-true ys x (rw e at h)
  ]

  pub find-modify :
      (xs : List A) (x : A)
      → find f xs ≡ some x
      → f (g x) ≡ true
      → find f (modify f g xs) ≡ some (g x)
  find-modify [] x h k = cc
  find-modify (y ∷ ys) x h k = elim (Bool-cases (f y)) [
    | inl e ↦ ground (arith, e)
    | inr e ↦ ground (arith, e, find-modify ys x)
  ]
