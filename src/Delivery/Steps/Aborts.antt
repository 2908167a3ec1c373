-- ===== src/Delivery/Steps/Aborts.antt =====
-- What abortDeliveryRun of delivery-run.js does to the tasks and to the outbox, described without the
-- functions that do it.
use pane_fleet.Base.{
  ◌≡◌, refl, sym, ap, ◌∙◌, arith, Bool, true, false, not, ◌&&◌, ◌||◌, Bool-cases, inl, inr, Option,
  none, some, List, [], ◌∷◌, map, find, modify, take, Text, text_eq, text_eq_sound, text_eq_self,
  if◌then◌else◌, if-eq_cases, ok, Result, or_throw, >>=-ok_cases,
}
use pane_fleet.Delivery.Types.{Task, OutboxItem, TaskState, OutboxState, RunError, outbox_invalid}
use pane_fleet.Delivery.Validate.{is_verified}
use pane_fleet.Delivery.Run.{is_for}
use pane_fleet.Delivery.Steps.Parts.{find-true, find-modify}
use pane_fleet.Delivery.Close.{abort_task, cancel_item, abort_outbox, abort_outboxes}

-- A verified task stays; any other is aborted.
abbrev pub stopped_task : Task → Task
stopped_task task = elim task.state [
  | TaskState.verified ↦ task
  | _ ↦ record task { state = TaskState.aborted }
]

abbrev pub is_open : Task → Bool
is_open task = elim task.state [ TaskState.verified ↦ false | _ ↦ true ]

abbrev pub has_open_task : List Task → Text → Bool
has_open_task [] step_id = false
has_open_task (task ∷ tasks) step_id =
    (text_eq task.step_id step_id && is_open task) || has_open_task tasks step_id

-- An applied item stays; any other is canceled.
abbrev pub closed_item : Text → Text → OutboxItem → OutboxItem
closed_item reason at item = elim item.state [
  | OutboxState.applied ↦ item
  | _ ↦ record item {
    state = OutboxState.canceled;
    mission_id = none;
    error = take 500 reason;
    updated_at = at;
  }
]

-- The item of a step behind the abort: closed when a task of the step was not verified.
abbrev pub item_after : Text → Text → List Task → Text → Option OutboxItem → Option OutboxItem
item_after reason at tasks step_id none = none
item_after reason at tasks step_id (some item) =
    some (if has_open_task tasks step_id then closed_item reason at item else item)

stopped_at : (s : TaskState) (task : Task) → task.state ≡ s → abort_task task ≡ stopped_task task
unfolding abort_task
stopped_at TaskState.verified task h = rw (abort_task, h) refl
stopped_at _ task h = rw (abort_task, h) refl

pub map-stopped : (tasks : List Task) → map abort_task tasks ≡ map stopped_task tasks
map-stopped [] = refl
map-stopped (task ∷ tasks) = rw (stopped_at task.state task refl, map-stopped tasks) refl

open_at : (s : TaskState) (task : Task) → task.state ≡ s → is_open task ≡ not (is_verified task)
open_at TaskState.verified task h = rw h refl
open_at _ task h = rw h refl

closed-twice :
    (s : OutboxState) (reason at : Text) (item : OutboxItem)
    → item.state ≡ s
    → closed_item reason at (closed_item reason at item) ≡ closed_item reason at item
closed-twice OutboxState.applied reason at item h =
    let same : closed_item reason at item ≡ item = rw h refl in ap (closed_item reason at) same
closed-twice _ reason at item h = rw h refl

text_eq_apart : (a b c : Text) → text_eq a b ≡ true → text_eq b c ≡ false → text_eq a c ≡ false
text_eq_apart a b c h k = rw (text_eq_sound a b h) k

shut : (a b : Bool) → b ≡ false → (a && b || false) ≡ false
shut a b h = ground arith

-- A write under one key leaves what another key finds.
found_other :
    {A : Type 0} (f : A → Bool) (g : A → A) (f' : A → Bool)
    → ((x : A) → f' (g x) ≡ f' x)
    → ((x : A) → f x ≡ true → f' x ≡ false)
    → (xs : List A) → find f' (modify f g xs) ≡ find f' xs
found_other f g f' keeps apart [] = refl
found_other f g f' keeps apart (y ∷ ys) = elim (Bool-cases (f y)) [
  | inl e ↦ rw (e, keeps y, apart y e) refl
  | inr e ↦ rw (e, found_other f g f' keeps apart ys) refl
]

cancel-closed :
    (reason at : Text) (item : OutboxItem) → cancel_item reason at item ≡ closed_item reason at item
unfolding cancel_item
cancel-closed reason at item = refl

closed-step :
    (s : OutboxState) (reason at : Text) (item : OutboxItem)
    → item.state ≡ s
    → (closed_item reason at item).step_id ≡ item.step_id
closed-step OutboxState.applied reason at item h = rw h refl
closed-step _ reason at item h = rw h refl

cancel-is_for :
    (reason at step_id : Text) (item : OutboxItem)
    → is_for step_id (cancel_item reason at item) ≡ is_for step_id item
cancel-is_for reason at step_id item =
    rw (cancel-closed reason at item, closed-step item.state reason at item refl) refl

item_after-spared :
    (reason at : Text) (tasks : List Task) (step_id : Text) (o : Option OutboxItem)
    → has_open_task tasks step_id ≡ false
    → item_after reason at tasks step_id o ≡ o
item_after-spared reason at tasks step_id none h = refl
item_after-spared reason at tasks step_id (some item) h = rw h refl

item_after-more :
    (reason at : Text) (task : Task) (tasks : List Task) (step_id : Text) (o : Option OutboxItem)
    → item_after reason at tasks step_id (item_after reason at (task ∷ []) step_id o)
      ≡ item_after reason at (task ∷ tasks) step_id o
item_after-more reason at task tasks step_id none = refl
item_after-more reason at task tasks step_id (some item) =
    elim (Bool-cases (text_eq task.step_id step_id && is_open task)) [
      | inl a ↦ elim (Bool-cases (has_open_task tasks step_id)) [
        | inl b ↦ rw (a, b) (ap some (closed-twice item.state reason at item refl))
        | inr b ↦ rw (a, b) refl
      ]
      | inr a ↦ rw a refl
    ]

or_throw-some :
    (o : Option OutboxItem) (e : RunError) {x : OutboxItem} → or_throw o e ≡ ok x → o ≡ some x
or_throw-some none e h = cc
or_throw-some (some x) e h = cc

items-eq :
    {a b : List OutboxItem} → ◌≡◌ {A = Result RunError (List OutboxItem)} (ok a) (ok b) → b ≡ a
items-eq h = cc h

found-after :
    (reason at : Text) (task : Task) (outbox : List OutboxItem) (item : OutboxItem) (step_id : Text)
    → is_open task ≡ true
    → find (is_for task.step_id) outbox ≡ some item
    → find (is_for step_id) (modify (is_for task.step_id) (cancel_item reason at) outbox)
      ≡ item_after reason at (task ∷ []) step_id (find (is_for step_id) outbox)
found-after reason at task outbox item step_id opened found =
    elim (Bool-cases (text_eq task.step_id step_id)) [
      | inl e ↦
          let same = text_eq_sound task.step_id step_id e in
          rw (← same, found, text_eq_self task.step_id, opened, ← cancel-closed reason at item)
            (find-modify (is_for task.step_id) (cancel_item reason at) outbox item found (
              cancel-is_for reason at task.step_id item
              ∙ find-true (is_for task.step_id) (cancel_item reason at) outbox item found))
      | inr e ↦
          found_other (is_for task.step_id) (cancel_item reason at) (is_for step_id)
            (cancel-is_for reason at step_id)
            (λ x k. text_eq_apart x.step_id task.step_id step_id k e) outbox
          ∙ sym (item_after-spared reason at (task ∷ []) step_id _ (rw e refl))
    ]

abort_outbox-after :
    (reason at : Text) (task : Task) (outbox changed : List OutboxItem) (step_id : Text)
    → abort_outbox reason at task outbox ≡ ok changed
    → find (is_for step_id) changed
      ≡ item_after reason at (task ∷ []) step_id (find (is_for step_id) outbox)
unfolding abort_outbox
abort_outbox-after reason at task outbox changed step_id h =
    let opens = open_at task.state task refl in
    if-eq_cases (is_verified task) h
      (λ e h1.
        let closed : is_open task ≡ false = rw e at opens in
        rw (items-eq h1) (
          sym (
            item_after-spared reason at (task ∷ []) step_id _
              (shut (text_eq task.step_id step_id) _ closed))))
      (λ e h1.
        let opened : is_open task ≡ true = rw e at opens in
        >>=-ok_cases (or_throw (find (is_for task.step_id) outbox) outbox_invalid) _ h1
          λ item e2 h2. rw (items-eq h2) (
            found-after reason at task outbox item step_id opened
              (or_throw-some _ outbox_invalid e2)))

-- The outbox behind the abort, by the step of an item.
pub abort_outboxes-after :
    (reason at : Text) (tasks : List Task) (outbox changed : List OutboxItem)
    → abort_outboxes reason at tasks outbox ≡ ok changed
    → (step_id : Text)
    → find (is_for step_id) changed
      ≡ item_after reason at tasks step_id (find (is_for step_id) outbox)
unfolding abort_outboxes
abort_outboxes-after reason at [] outbox changed h step_id =
    rw (items-eq h) (sym (item_after-spared reason at [] step_id _ refl))
abort_outboxes-after reason at (task ∷ tasks) outbox changed h step_id =
    >>=-ok_cases (abort_outbox reason at task outbox) _ h λ next e h1.
      abort_outboxes-after reason at tasks next changed h1 step_id
      ∙ ap (item_after reason at tasks step_id)
          (abort_outbox-after reason at task outbox next step_id e)
      ∙ item_after-more reason at task tasks step_id _
