-- ===== src/Plan/Discovery.antt =====
-- The discovery baseline of delivery-plan.js, lines 534 to 560.
use pane_fleet.Base.{
  Bool, false, not, ◌&&◌, [], Text, codes, text_eq, is_empty, Result, ok, err, ◌>>◌, guard,
}
use pane_fleet.Delivery.Fields.{inline}
use pane_fleet.Plan.Types.{PlanHost, PlanError, workspace_invalid, Plan, PlanBaseline}
use pane_fleet.Plan.Canonical.{
  json_number, json_text, json_object, member, no_members, canonical_sha256,
}
use pane_fleet.Plan.Normal.{normalized_timestamp}
use pane_fleet.Plan.Checks.{is_canonical_workspace}

unfoldable pub discovery_digest : PlanHost → Text → Text → Text
discovery_digest host kind workspace = canonical_sha256 host (
    json_object (
      member (codes "version") (json_number 1) (
        member (codes "kind") (json_text kind)
          (member (codes "workspace") (json_text workspace) no_members))))

unfoldable pub delivery_plan_discovery_baseline :
    PlanHost → Text → Text → Result PlanError PlanBaseline
delivery_plan_discovery_baseline host workspace at =
    let canonical = inline workspace in
    do
      guard (is_canonical_workspace host canonical) workspace_invalid
      ok (record {
        head = codes "unborn";
        working_tree_digest = discovery_digest host (codes "aap_discovery") canonical;
        instructions_digest = discovery_digest host (codes "aap_discovery_instructions") canonical;
        captured_at = normalized_timestamp host at [];
      })

-- catch { return false; }
unfoldable pub is_baseline : PlanBaseline → Result PlanError PlanBaseline → Bool
is_baseline baseline (err error) = false
is_baseline baseline (ok expected) =
    text_eq baseline.head expected.head
    && text_eq baseline.working_tree_digest expected.working_tree_digest
    && text_eq baseline.instructions_digest expected.instructions_digest

unfoldable pub delivery_plan_has_discovery_baseline : PlanHost → Plan → Bool
delivery_plan_has_discovery_baseline host plan =
    not (is_empty plan.workspace)
    && is_baseline plan.baseline
        (delivery_plan_discovery_baseline host plan.workspace plan.baseline.captured_at)
