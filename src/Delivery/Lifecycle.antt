-- ===== src/Delivery/Lifecycle.antt =====
-- The runs that delivery-run.js can reach: the step relation of its operations.
pub mod Terminal
pub mod History
pub mod Serial
pub mod Order
use pane_fleet.Base.{◌≡◌, Text, ok, Bool, true, ◌&&◌, ◌||◌, List, [], ◌∷◌}
use pane_fleet.Delivery.Types.{Run, Task, Platform}
use pane_fleet.Delivery.Validate.{is_verified}
use pane_fleet.Delivery.Create.{RunInput, create_delivery_run}
use pane_fleet.Delivery.Mission.{
  LinkInput, ReconcileInput, CaptureInput, is_pending, link_delivery_run_mission,
  mark_delivery_run_mission_reconcile_required, capture_delivery_run_implementation,
}
use pane_fleet.Delivery.Verify.{VerifyInput, record_delivery_run_verification}
use pane_fleet.Delivery.Close.{
  AbortInput, OffCourseInput, abort_delivery_run, mark_delivery_run_off_course,
}

-- One successful operation.
pub data Step (p : Platform) (run run' : Run) : Type 0 where
  links :
      (input : LinkInput) (at : Text)
      → link_delivery_run_mission p run input at ≡ ok run'
      → Step p run run'
  reconciles :
      (input : ReconcileInput) (at : Text)
      → mark_delivery_run_mission_reconcile_required p run input at ≡ ok run'
      → Step p run run'
  captures :
      (input : CaptureInput) (at : Text)
      → capture_delivery_run_implementation p run input at ≡ ok run'
      → Step p run run'
  verifies :
      (input : VerifyInput) (at : Text)
      → record_delivery_run_verification p run input at ≡ ok run'
      → Step p run run'
  aborts :
      (input : AbortInput) (at : Text)
      → abort_delivery_run p run input at ≡ ok run'
      → Step p run run'
  leaves_course :
      (input : OffCourseInput) (at : Text)
      → mark_delivery_run_off_course p run input at ≡ ok run'
      → Step p run run'

pub data Reachable (p : Platform) : Run → Type 0 where
  created :
      {run : Run} (input : RunInput) (at : Text)
      → create_delivery_run p input at ≡ ok run
      → Reachable p run
  stepped : {run run' : Run} → Reachable p run → Step p run run' → Reachable p run'

-- `open_` says that every task before this list is verified: a task that is not pending stands only
-- behind verified tasks.
abbrev pub IsSerial : Bool → List Task → Type 0
IsSerial open_ [] = Unit
IsSerial open_ (task ∷ tasks) =
    ((open_ || is_pending task.state) ≡ true) × IsSerial (open_ && is_verified task) tasks
