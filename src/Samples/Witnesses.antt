-- ===== src/Samples/Witnesses.antt =====
-- The theorems at concrete inputs.
use pane_fleet.Base.{refl, inr, true, codes}
use pane_fleet.Delivery.Steps.Capture.{Captured, capture-Captured}
use pane_fleet.Delivery.Steps.Missions.{Linked, link-Linked}
use pane_fleet.Delivery.Steps.Verification.{Recorded, verification-Recorded}
use pane_fleet.Delivery.Steps.Closing.{Aborted, abort-Aborted}
use pane_fleet.Delivery.Lifecycle.{
  Step, Reachable, created, stepped, links, captures, verifies, IsSerial,
}
use pane_fleet.Delivery.Lifecycle.Terminal.{terminal-final}
use pane_fleet.Delivery.Lifecycle.History.{Keeps, Step-Keeps}
use pane_fleet.Delivery.Lifecycle.Order.{Reachable-IsSerial}
use pane_fleet.Samples.Runs.{
  platform, run_input, link_input, capture_input, verify_input, abort_input, created_run,
  linked_run, captured_run, released_run, aborted_run, created_run-eq, linked_run-eq,
  captured_run-eq, released_run-eq, aborted_run-eq,
}

released_run-Reachable : Reachable platform released_run
released_run-Reachable =
    stepped
      (stepped
        (stepped (created run_input (codes "2") created_run-eq)
          (links link_input (codes "3") linked_run-eq))
        (captures capture_input (codes "5") captured_run-eq))
      (verifies verify_input (codes "6") released_run-eq)

Reachable-IsSerial_example : IsSerial true released_run.tasks
Reachable-IsSerial_example =
    Reachable-IsSerial platform (λ s h. refl) released_run released_run-Reachable refl

verification-Recorded_example : Recorded platform captured_run verify_input (codes "6") released_run
verification-Recorded_example =
    verification-Recorded platform captured_run verify_input (codes "6") released_run
      released_run-eq

terminal-final_example : ¬ Step platform aborted_run created_run
terminal-final_example = terminal-final platform aborted_run created_run (inr refl)

Step-Keeps_example : Keeps captured_run released_run
Step-Keeps_example =
    Step-Keeps platform captured_run released_run
      (verifies verify_input (codes "6") released_run-eq)

capture-Captured_example : Captured platform linked_run capture_input (codes "5") captured_run
capture-Captured_example =
    capture-Captured platform linked_run capture_input (codes "5") captured_run captured_run-eq

link-Linked_example : Linked platform created_run link_input (codes "3") linked_run
link-Linked_example =
    link-Linked platform created_run link_input (codes "3") linked_run linked_run-eq

abort-Aborted_example : Aborted platform captured_run abort_input (codes "7") aborted_run
abort-Aborted_example =
    abort-Aborted platform captured_run abort_input (codes "7") aborted_run aborted_run-eq
