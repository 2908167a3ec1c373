-- ===== src/Delivery/Lifecycle/Terminal.antt =====
-- No operation of delivery-run.js leaves a verified or an aborted run.
use pane_fleet.Base.{◌≡◌, refl, ◌⊎◌, inl, inr, true, false, arith}
use pane_fleet.Delivery.Types.{Run, Platform, Condition}
use pane_fleet.Delivery.Run.{is_mutable}
use pane_fleet.Delivery.Close.{is_on_course}
use pane_fleet.Delivery.Validate.Records.{is_abortable}
use pane_fleet.Delivery.Steps.Capture.{capture-Captured}
use pane_fleet.Delivery.Steps.Missions.{link-Linked, reconcile-Marked}
use pane_fleet.Delivery.Steps.Verification.{verification-Recorded}
use pane_fleet.Delivery.Steps.Closing.{abort-Aborted, OffCourse-OffCourse}
use pane_fleet.Delivery.Lifecycle.{
  Step, links, reconciles, captures, verifies, aborts, leaves_course,
}

abortable-mutable : (c : Condition) → is_abortable c ≡ true → is_mutable c ≡ true
abortable-mutable c h = ground arith

on_course-mutable : (c : Condition) → is_on_course c ≡ true → is_mutable c ≡ true
on_course-mutable c h = ground arith

pub Step-mutable :
    (p : Platform) (run run' : Run) → Step p run run' → is_mutable run.condition ≡ true
Step-mutable p run run' (links input at h) = (link-Linked p run input at run' h).mutable
Step-mutable p run run' (reconciles input at h) = (reconcile-Marked p run input at run' h).mutable
Step-mutable p run run' (captures input at h) = (capture-Captured p run input at run' h).mutable
Step-mutable p run run' (verifies input at h) =
    (verification-Recorded p run input at run' h).mutable
Step-mutable p run run' (aborts input at h) =
    abortable-mutable _ (abort-Aborted p run input at run' h).abortable
Step-mutable p run run' (leaves_course input at h) =
    on_course-mutable _ (OffCourse-OffCourse p run input at run' h).on_course

closed-immutable :
    (c : Condition) → (c ≡ Condition.verified) ⊎ (c ≡ Condition.aborted) → is_mutable c ≡ false
closed-immutable c (inl e) = rw e refl
closed-immutable c (inr e) = rw e refl

-- A run whose condition is `verified` or `aborted` is final: none of the six operations succeeds on it, whatever its input and time.
pub terminal-final :
    (p : Platform) (run run' : Run)
    → (run.condition ≡ Condition.verified) ⊎ (run.condition ≡ Condition.aborted)
    → ¬ Step p run run'
terminal-final p run run' closed step =
    cc (closed-immutable run.condition closed, Step-mutable p run run' step)
