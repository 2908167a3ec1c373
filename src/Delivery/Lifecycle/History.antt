-- ===== src/Delivery/Lifecycle/History.antt =====
-- What an operation of delivery-run.js keeps: the run's identity, its evidence and its records.
use mathlib.Core.List.{append-nil}
use pane_fleet.Base.{
  zero, suc, ℕ, ◌+◌, ◌≡◌, refl, sym, ◌∙◌, List, [], ◌∷◌, ◌++◌, map, modify, Bool, Option, Text,
  Bool-cases, inl, inr,
}
use pane_fleet.Delivery.Types.{
  Run, Platform, Task, OutboxItem, Evidence, Verification, Condition, Delivery, Abort,
  VerificationOutcome, TaskState,
}
use pane_fleet.Delivery.Evidence.{evidence_ids_of}
use pane_fleet.Delivery.Steps.Aborts.{stopped_task}
use pane_fleet.Delivery.Verify.{set_at}
use pane_fleet.Delivery.Steps.Capture.{capture-Captured}
use pane_fleet.Delivery.Steps.Missions.{link-Linked, reconcile-Marked}
use pane_fleet.Delivery.Steps.Verification.{
  Outcome, blocks, completes, releases, verification-Recorded, recorded_state, stamped_state,
}
use pane_fleet.Delivery.Steps.Closing.{abort-Aborted, OffCourse-OffCourse}
use pane_fleet.Delivery.Lifecycle.{
  Step, links, reconciles, captures, verifies, aborts, leaves_course,
}

-- What defines a task: everything but its progress and the digest that it starts from.
pub record Definition : Type 0 where
  pub step_id : Text
  pub sequence : ℕ
  pub step_digest : Text
  pub acceptance_ids : List Text
  pub allowed_paths : List Text
  pub mission_binding_key : Text
  pub mission_definition_digest : Text

abbrev pub definition_of : Task → Definition
definition_of task = record {
  step_id = task.step_id;
  sequence = task.sequence;
  step_digest = task.step_digest;
  acceptance_ids = task.acceptance_ids;
  allowed_paths = task.allowed_paths;
  mission_binding_key = task.mission_binding_key;
  mission_definition_digest = task.mission_definition_digest;
}

abbrev definitions : List Task → List Definition
definitions = map definition_of

-- What one operation keeps and what it appends.
pub record Keeps (run run' : Run) : Type 0 where
  pub id : run'.id ≡ run.id
  pub plan_id : run'.plan_id ≡ run.plan_id
  pub plan_revision : run'.plan_revision ≡ run.plan_revision
  pub plan_digest : run'.plan_digest ≡ run.plan_digest
  pub workspace : run'.workspace ≡ run.workspace
  pub start_baseline : run'.start_baseline ≡ run.start_baseline
  pub created_at : run'.created_at ≡ run.created_at
  pub revision : run'.revision ≡ run.revision + 1
  pub definitions : map definition_of run'.tasks ≡ map definition_of run.tasks
  pub new_evidence : List Evidence
  pub evidence_index : run'.evidence_index ≡ run.evidence_index ++ new_evidence
  pub new_records : List Verification
  pub verification_records : run'.verification_records ≡ run.verification_records ++ new_records

definitions-modify :
    (f : Task → Bool) (g : Task → Task)
    → ((t : Task) → definition_of (g t) ≡ definition_of t)
    → (ts : List Task) → definitions (modify f g ts) ≡ definitions ts
definitions-modify f g same [] = refl
definitions-modify f g same (t ∷ ts) = elim (Bool-cases (f t)) [
  | inl e ↦ rw e (cc (same t))
  | inr e ↦ rw e (cc (definitions-modify f g same ts))
]

definitions-set_at :
    (ts : List Task) (i : ℕ) (digest : Text)
    → definitions (set_at ts i (λ t. record t { expected_baseline_digest = digest }))
      ≡ definitions ts
unfolding set_at
definitions-set_at [] i digest = refl
definitions-set_at (t ∷ ts) zero digest = refl
definitions-set_at (t ∷ ts) (suc i) digest = cc (definitions-set_at ts i digest)

stopped-definition :
    (s : TaskState) (t : Task) → t.state ≡ s → definition_of (stopped_task t) ≡ definition_of t
stopped-definition TaskState.verified t h = rw h refl
stopped-definition _ t h = rw h refl

definitions-abort : (ts : List Task) → definitions (map stopped_task ts) ≡ definitions ts
definitions-abort [] = refl
definitions-abort (t ∷ ts) = cc (stopped-definition t.state t refl, definitions-abort ts)

-- Every operation builds such a run.
changed-Keeps :
    (run : Run) (ts : List Task) (outbox : List OutboxItem) (condition : Condition) (blocker : Text)
    (index new : List Evidence) (records appended : List Verification) (delivery : Delivery)
    (abort : Option Abort) (at : Text)
    → definitions ts ≡ definitions run.tasks
    → index ≡ run.evidence_index ++ new
    → records ≡ run.verification_records ++ appended
    → Keeps run (record run {
      tasks = ts;
      outbox = outbox;
      condition = condition;
      blocker = blocker;
      evidence_index = index;
      verification_records = records;
      delivery = delivery;
      abort = abort;
      revision = run.revision + 1;
      updated_at = at;
    })
changed-Keeps run ts outbox condition blocker index new records appended delivery abort at d e v =
    record {
      id = refl;
      plan_id = refl;
      plan_revision = refl;
      plan_digest = refl;
      workspace = refl;
      start_baseline = refl;
      created_at = refl;
      revision = refl;
      definitions = d;
      new_evidence = new;
      evidence_index = e;
      new_records = appended;
      verification_records = v;
    }

nothing_new {ℓ} : {A : Type ℓ} (xs : List A) → xs ≡ xs ++ []
nothing_new xs = sym (append-nil xs)

-- The three ways in which a verification ends.
verified-Keeps :
    (p : Platform) (run : Run) (new : List Evidence) (task : Task) (record' : Verification)
    (moved : Run) (ids : List Text) (time : Text) {sequence : ℕ} {digest note at : Text}
    {outcome : VerificationOutcome}
    → Outcome
        (recorded_state p (record run { evidence_index = run.evidence_index ++ new }) task record')
        sequence
        digest
        note
        at
        moved
        outcome
    → Keeps run (stamped_state moved ids time)
verified-Keeps p run new task record' moved ids time (blocks e) = rw e (
    changed-Keeps run _ _ _ _ _ new _ (record' ∷ []) _ _ _
      (definitions-modify _ _ (λ t. refl) run.tasks) refl refl)
verified-Keeps p run new task record' moved ids time (completes last e) = rw e (
    changed-Keeps run _ _ _ _ _ new _ (record' ∷ []) _ _ _
      (definitions-modify _ _ (λ t. refl) run.tasks) refl refl)
verified-Keeps p run new task record' moved ids time (releases following item found waits e) =
    rw e (
      changed-Keeps run _ _ _ _ _ new _ (record' ∷ []) _ _ _
        (definitions-set_at _ _ _ ∙ definitions-modify _ _ (λ t. refl) run.tasks) refl refl)

-- Each successful operation keeps the run's id, plan, workspace, starting baseline, creation time and the definition of every task, adds 1 to its revision, and only appends to the evidence index and to the verification records.
pub Step-Keeps : (p : Platform) (run run' : Run) → Step p run run' → Keeps run run'
Step-Keeps p run run' (links input at h) = rw (link-Linked p run input at run' h).result (
    changed-Keeps run _ _ _ _ _ [] _ [] _ _ _ (definitions-modify _ _ (λ t. refl) run.tasks)
      (nothing_new _) (nothing_new _))
Step-Keeps p run run' (reconciles input at h) = rw (reconcile-Marked p run input at run' h).result (
    changed-Keeps run _ _ _ _ _ [] _ [] _ _ _ (definitions-modify _ _ (λ t. refl) run.tasks)
      (nothing_new _) (nothing_new _))
Step-Keeps p run run' (captures input at h) =
    let s = capture-Captured p run input at run' h in
    rw s.result (
      changed-Keeps run _ _ _ _ _ s.new _ [] _ _ _ (definitions-modify _ _ (λ t. refl) run.tasks)
        refl (nothing_new _))
Step-Keeps p run run' (verifies input at h) =
    let s = verification-Recorded p run input at run' h in
    rw s.result (
      verified-Keeps p run s.new s.task _ s.moved (evidence_ids_of s.new ++ s.referenced) s.time
        s.outcome)
Step-Keeps p run run' (aborts input at h) =
    let s = abort-Aborted p run input at run' h in
    rw s.result (
      changed-Keeps run _ _ _ _ _ s.new _ [] _ _ _ (definitions-abort run.tasks) refl
        (nothing_new _))
Step-Keeps p run run' (leaves_course input at h) =
    let s = OffCourse-OffCourse p run input at run' h in
    rw s.result (
      changed-Keeps run _ _ _ _ _ s.new _ [] _ _ _ (definitions-modify _ _ (λ t. refl) run.tasks)
        refl (nothing_new _))
