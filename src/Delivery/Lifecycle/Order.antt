-- ===== src/Delivery/Lifecycle/Order.antt =====
-- Steps are serialised: in every run that delivery-run.js reaches, a task that has left `pending`
-- stands behind verified tasks only.
use mathlib.Core.Path.{subst}
use pane_fleet.Base.{
  ℕ, zero, suc, ◌+◌, ◌≡◌, refl, sym, ap, Bool, not, true, false, ◌⊎◌, inl, inr, some, List, [], ◌∷◌,
  Text, ok, arith, >>=-ok_cases, >>-eq-ok, Result, guard, find, ◌&&◌,
}
use pane_fleet.Delivery.Types.{
  Task, OutboxItem, Run, Platform, Condition, VerificationOutcome, step_id_invalid,
  step_digest_invalid, mission_definition_digest_invalid, task_acceptance_ids_invalid,
  run_id_invalid, plan_id_invalid, plan_revision_invalid, plan_digest_invalid, workspace_invalid,
  tasks_invalid, step_id_duplicate,
}
use pane_fleet.Delivery.Fields.{
  timestamp, step_id_pattern, assert_digest, normalized_unique_ids, normalized_scope_paths,
}
use pane_fleet.Delivery.Fields.Ids.{KeepsStepIds}
use pane_fleet.Delivery.Run.{is_mutable, is_for}
use pane_fleet.Delivery.Mission.{
  is_pending, is_linkable, is_linked, LinkInput, ReconcileInput, CaptureInput,
  link_delivery_run_mission, mark_delivery_run_mission_reconcile_required,
  capture_delivery_run_implementation,
}
use pane_fleet.Delivery.Verify.{is_captured, set_at, VerifyInput, record_delivery_run_verification}
use pane_fleet.Delivery.Close.{
  may_leave_course, block_item, OffCourseInput, mark_delivery_run_off_course,
}
use pane_fleet.Delivery.Create.{
  RunInput, TaskInput, TaskContext, create_task, create_tasks, create_delivery_run,
}
use pane_fleet.Delivery.Validate.{is_verified, is_aborted}
use pane_fleet.Delivery.Validate.Accepted.{validate-Accepted}
use pane_fleet.Delivery.Steps.Capture.{capture-Captured}
use pane_fleet.Delivery.Steps.Missions.{link-Linked, reconcile-Marked}
use pane_fleet.Delivery.Steps.Verification.{
  Outcome, blocks, completes, releases, verification-Recorded,
}
use pane_fleet.Delivery.Steps.Closing.{abort-Aborted, OffCourse-OffCourse}
use pane_fleet.Delivery.Lifecycle.{
  Step, links, reconciles, captures, verifies, aborts, leaves_course, Reachable, created, stepped,
  IsSerial,
}
use pane_fleet.Delivery.Validate.Tasks.{is_nil}
use pane_fleet.Delivery.Lifecycle.Terminal.{Step-mutable}
use pane_fleet.Delivery.Lifecycle.Serial.{kept-write, released-write, same-step}
use pane_fleet.Delivery.Lifecycle.Serial.Writes.{is_held}

linkable-unverified : (task : Task) → is_linkable task.state ≡ true → is_verified task ≡ false
linkable-unverified task h = ground arith

pending-unverified : (task : Task) → is_pending task.state ≡ true → is_verified task ≡ false
pending-unverified task h = ground arith

linked-unverified : (task : Task) → is_linked task.state ≡ true → is_verified task ≡ false
linked-unverified task h = ground arith

linked-left : (task : Task) → is_linked task.state ≡ true → is_pending task.state ≡ false
linked-left task h = ground arith

captured-unverified : (task : Task) → is_captured task.state ≡ true → is_verified task ≡ false
captured-unverified task h = ground arith

captured-left : (task : Task) → is_captured task.state ≡ true → is_pending task.state ≡ false
captured-left task h = ground arith

leaving-unverified : (task : Task) → may_leave_course task.state ≡ true → is_verified task ≡ false
leaving-unverified task h = ground arith

blocked-free :
    (reason at : Text) (item : OutboxItem) → is_held (block_item reason at item).state ≡ false
unfolding block_item
blocked-free reason at item = ground arith

blocked-step :
    (reason at : Text) (item : OutboxItem) → (block_item reason at item).step_id ≡ item.step_id
unfolding block_item
blocked-step reason at item = ground arith

live : (c : Condition) → is_mutable c ≡ true → is_aborted c ≡ false
live c h = ground arith

ok-inj : {E A : Type 0} {x y : A} → ◌≡◌ {A = Result E A} (ok x) (ok y) → x ≡ y
ok-inj h = cc

set_at-IsSerial :
    (open_ : Bool) (ts : List Task) (i : ℕ) (digest : Text)
    → IsSerial open_ ts
    → IsSerial open_ (set_at ts i (λ t. record t { expected_baseline_digest = digest }))
unfolding set_at
set_at-IsSerial open_ [] i digest s = tt
set_at-IsSerial open_ (t ∷ ts) zero digest s = s
set_at-IsSerial open_ (t ∷ ts) (suc i) digest s =
    (s.0, set_at-IsSerial (open_ && is_verified t) ts i digest s.1)

-- Serial at its end, or ended by the operator.
abbrev pub IsOrdered : Run → Type 0
IsOrdered run = (is_aborted run.condition ≡ true) ⊎ IsSerial true run.tasks

ordered-live :
    (run : Run) → IsOrdered run → is_aborted run.condition ≡ false → IsSerial true run.tasks
ordered-live run (inl e) l = absurd (cc (e, l))
ordered-live run (inr s) l = s

Outcome-IsSerial :
    (run : Run) (sequence : ℕ) (digest note at : Text) (moved : Run) (outcome : VerificationOutcome)
    → Outcome run sequence digest note at moved outcome
    → IsSerial true run.tasks
    → IsSerial true moved.tasks
Outcome-IsSerial run sequence digest note at moved _ (blocks e) s = rw e s
Outcome-IsSerial run sequence digest note at moved _ (completes last e) s = rw e s
Outcome-IsSerial run sequence digest note at moved _ (releases following item found waits e) s =
    rw e (set_at-IsSerial true run.tasks (sequence + 1) digest s)

module _ (p : Platform) (keeps : KeepsStepIds p) (run run' : Run) where
  link-IsSerial :
      (input : LinkInput) (at : Text)
      → link_delivery_run_mission p run input at ≡ ok run'
      → IsSerial true run.tasks
      → IsSerial true run'.tasks
  link-IsSerial input at h s =
      let l = link-Linked p run input at run' h in
      released-write p keeps run l.before l.task _ l.found run' l.after _ _ l.next_task l.item
        (λ t. refl) (λ t. refl) (λ i. refl) (ap (λ (r : Run). r.tasks) l.result) l.found_next
        (ap (λ (r : Run). r.outbox) l.result)
        (subst (λ st. find (is_for st) run.outbox ≡ some l.item)
          (sym (
            same-step p keeps run l.before l.task _ l.found _ l.next_task (λ t. refl) l.found_next))
          l.found_item)
        refl (ap (λ (r : Run). is_aborted r.condition) l.result)
        (linkable-unverified l.task l.linkable) s

  mark-IsSerial :
      (input : ReconcileInput) (at : Text)
      → mark_delivery_run_mission_reconcile_required p run input at ≡ ok run'
      → IsSerial true run.tasks
      → IsSerial true run'.tasks
  mark-IsSerial input at h s =
      let l = reconcile-Marked p run input at run' h in
      released-write p keeps run l.before l.task _ l.found run' l.after _ _ l.next_task l.item
        (λ t. refl) (λ t. refl) (λ i. refl) (ap (λ (r : Run). r.tasks) l.result) l.found_next
        (ap (λ (r : Run). r.outbox) l.result)
        (subst (λ st. find (is_for st) run.outbox ≡ some l.item)
          (sym (
            same-step p keeps run l.before l.task _ l.found _ l.next_task (λ t. refl) l.found_next))
          l.found_item)
        refl (ap (λ (r : Run). is_aborted r.condition) l.result)
        (pending-unverified l.task l.waiting) s

  capture-IsSerial :
      (input : CaptureInput) (at : Text)
      → capture_delivery_run_implementation p run input at ≡ ok run'
      → IsSerial true run.tasks
      → IsSerial true run'.tasks
  capture-IsSerial input at h s =
      let l = capture-Captured p run input at run' h in
      rw l.result (
        kept-write p keeps run l.before l.task _ l.found _ (linked-left l.task l.linked)
          (linked-unverified l.task l.linked) s)

  off_course-IsSerial :
      (input : OffCourseInput) (at : Text)
      → mark_delivery_run_off_course p run input at ≡ ok run'
      → IsSerial true run.tasks
      → IsSerial true run'.tasks
  off_course-IsSerial input at h s =
      let l = OffCourse-OffCourse p run input at run' h in
      released-write p keeps run l.before l.task _ l.found run' l.after _
        (block_item _ l.updated_at) l.next_task l.item (λ t. refl) (λ t. refl) (blocked-step _ _)
        (ap (λ (r : Run). r.tasks) l.result) l.found_next (ap (λ (r : Run). r.outbox) l.result)
        l.found_item (blocked-free _ _ _) (ap (λ (r : Run). is_aborted r.condition) l.result)
        (leaving-unverified l.task l.may_leave) s

  verify-IsSerial :
      (input : VerifyInput) (at : Text)
      → record_delivery_run_verification p run input at ≡ ok run'
      → IsSerial true run.tasks
      → IsSerial true run'.tasks
  verify-IsSerial input at h s =
      let l = verification-Recorded p run input at run' h in
      rw l.result (
        Outcome-IsSerial _ _ _ _ _ l.moved _ l.outcome (
          kept-write p keeps run l.before l.task _ l.found _ (captured-left l.task l.was_captured)
            (captured-unverified l.task l.was_captured) s))

  Step-IsOrdered : Step p run run' → IsSerial true run.tasks → IsOrdered run'
  Step-IsOrdered (links input at h) s = inr (link-IsSerial input at h s)
  Step-IsOrdered (reconciles input at h) s = inr (mark-IsSerial input at h s)
  Step-IsOrdered (captures input at h) s = inr (capture-IsSerial input at h s)
  Step-IsOrdered (verifies input at h) s = inr (verify-IsSerial input at h s)
  Step-IsOrdered (aborts input at h) s =
      inl (ap (λ (r : Run). is_aborted r.condition) (abort-Aborted p run input at run' h).result)
  Step-IsOrdered (leaves_course input at h) s = inr (off_course-IsSerial input at h s)

-- A created run has pending tasks only.
create_task-state :
    (p : Platform) (v : TaskInput) (context : TaskContext) (index : ℕ) (task : Task)
    → create_task p v context index ≡ ok task
    → is_pending task.state ≡ true
unfolding create_task
create_task-state p v context index task h =
    let (u1, h1) = >>-eq-ok (guard (step_id_pattern _) step_id_invalid) _ h in
    let (u2, h2) = >>-eq-ok (assert_digest _ step_digest_invalid) _ h1 in
    let (u3, h3) = >>-eq-ok (assert_digest _ mission_definition_digest_invalid) _ h2 in
    >>=-ok_cases (normalized_unique_ids p v.acceptance_ids _ _ _) _ h3 λ ids e4 h4.
      let (u5, h5) = >>-eq-ok (guard (not (is_nil ids)) task_acceptance_ids_invalid) _ h4 in
      >>=-ok_cases (normalized_scope_paths p v.allowed_paths) _ h5 λ paths e6 h6. ground (arith, h6)

create_tasks-IsSerial :
    (p : Platform) (context : TaskContext) (open_ : Bool) (index : ℕ) (values : List TaskInput)
    (tasks : List Task)
    → create_tasks p context index values ≡ ok tasks
    → IsSerial open_ tasks
unfolding create_tasks
create_tasks-IsSerial p context open_ index [] tasks h = rw (← (ok-inj h)) tt
create_tasks-IsSerial p context open_ index (v ∷ vs) tasks h =
    >>=-ok_cases (create_task p v context index) _ h λ task e1 h1.
      >>=-ok_cases (create_tasks p context (index + 1) vs) _ h1 λ rest e2 h2. rw (← (ok-inj h2)) (
        ground (arith, create_task-state p v context index task e1),
        create_tasks-IsSerial p context (open_ && is_verified task) (index + 1) vs rest e2,
      )

create-IsSerial :
    (p : Platform) (input : RunInput) (at : Text) (run : Run)
    → create_delivery_run p input at ≡ ok run
    → IsSerial true run.tasks
unfolding create_delivery_run
create-IsSerial p input at run h = >>=-ok_cases (timestamp p at) _ h λ created_at e1 h1.
    let (u2, h2) = >>-eq-ok (guard _ run_id_invalid) _ h1 in
    let (u3, h3) = >>-eq-ok (guard _ plan_id_invalid) _ h2 in
    let (u4, h4) = >>-eq-ok (guard _ plan_revision_invalid) _ h3 in
    let (u5, h5) = >>-eq-ok (assert_digest _ plan_digest_invalid) _ h4 in
    let (u6, h6) = >>-eq-ok (guard _ workspace_invalid) _ h5 in
    >>=-ok_cases (p.create_workspace_baseline input.start_baseline) _ h6 λ baseline e7 h7.
      let (u8, h8) = >>-eq-ok (guard _ tasks_invalid) _ h7 in
      >>=-ok_cases (create_tasks p _ 0 input.tasks) _ h8 λ tasks e9 h9.
        let (u10, h10) = >>-eq-ok (guard _ step_id_duplicate) _ h9 in
        let (same, accepted) = validate-Accepted p _ run h10 in
        rw same (create_tasks-IsSerial p _ true 0 input.tasks tasks e9)

Reachable-IsOrdered :
    (p : Platform) → KeepsStepIds p → (run : Run) → Reachable p run → IsOrdered run
Reachable-IsOrdered p keeps run (created input at h) = inr (create-IsSerial p input at run h)
Reachable-IsOrdered p keeps run (stepped {run = before} r step) =
    Step-IsOrdered p keeps before run step (
      ordered-live before (Reachable-IsOrdered p keeps before r)
        (live before.condition (Step-mutable p before run step)))

-- In a run that createDeliveryRun and any successful operations reach and that is not aborted, the tasks are serial: every task that is not pending stands behind verified tasks only. The platform's upper-casing keeps step ids.
pub Reachable-IsSerial :
    (p : Platform)
    → KeepsStepIds p
    → (run : Run) → Reachable p run
    → is_aborted run.condition ≡ false
    → IsSerial true run.tasks
Reachable-IsSerial p keeps run r l = ordered-live run (Reachable-IsOrdered p keeps run r) l
