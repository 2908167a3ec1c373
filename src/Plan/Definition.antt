-- ===== src/Plan/Definition.antt =====
-- The definition of a plan as JSON data and its digest: delivery-plan.js, lines 562 to 584.
use pane_fleet.Base.{List, [], ◌∷◌, Text, codes, Result, ok, ◌>>=◌}
use pane_fleet.Plan.Types.{
  PlanHost, PlanError, Plan, Classification, Roles, Po, Ba, Dev, Qa, Requirement, PlanStep,
  Acceptance, Authority,
}
use pane_fleet.Plan.Canonical.{
  Json, Items, no_items, item, no_members, member, json_text, json_flag, json_number, json_array,
  json_object, texts, canonical_sha256,
}
use pane_fleet.Plan.Normal.{normalize_delivery_plan}
use pane_fleet.Plan.Shape.{validate_shape}

-- The JSON data of the parts of a definition, keys in the source's order.
unfoldable pub po_json : Po → Json
po_json po = json_object (
    member (codes "user") (json_text po.user) (
      member (codes "problem") (json_text po.problem) (
        member (codes "outcome") (json_text po.outcome) (
          member (codes "value") (json_text po.value) (
            member (codes "nonGoals") (texts po.non_goals) (
              member (codes "assumptions") (texts po.assumptions)
                (member (codes "openQuestions") (texts po.open_questions) no_members)))))))

unfoldable pub requirement_items : List Requirement → Items
requirement_items [] = no_items
requirement_items (r ∷ rest) =
    item
      (json_object (
        member (codes "id") (json_text r.id) (member (codes "text") (json_text r.text) no_members)))
      (requirement_items rest)

unfoldable pub ba_json : Ba → Json
ba_json ba = json_object (
    member (codes "requirements") (json_array (requirement_items ba.requirements)) (
      member (codes "dependencies") (texts ba.dependencies) (
        member (codes "edgeCases") (texts ba.edge_cases) (
          member (codes "constraints") (texts ba.constraints)
            (member (codes "openQuestions") (texts ba.open_questions) no_members)))))

unfoldable pub step_items : List PlanStep → Items
step_items [] = no_items
step_items (s ∷ rest) =
    item
      (json_object (
        member (codes "id") (json_text s.id) (
          member (codes "title") (json_text s.title) (
            member (codes "outcome") (json_text s.outcome) (
              member (codes "requirementIds") (texts s.requirement_ids) (
                member (codes "scopePaths") (texts s.scope_paths)
                  (member (codes "checks") (texts s.checks) no_members)))))))
      (step_items rest)

unfoldable pub dev_json : Dev → Json
dev_json dev = json_object (
    member (codes "architecture") (json_text dev.architecture) (
      member (codes "steps") (json_array (step_items dev.steps)) (
        member (codes "risks") (texts dev.risks) (
          member (codes "rollback") (json_text dev.rollback)
            (member (codes "openQuestions") (texts dev.open_questions) no_members)))))

unfoldable pub acceptance_items : List Acceptance → Items
acceptance_items [] = no_items
acceptance_items (c ∷ rest) =
    item
      (json_object (
        member (codes "id") (json_text c.id) (
          member (codes "text") (json_text c.text)
            (member (codes "requirementIds") (texts c.requirement_ids) no_members))))
      (acceptance_items rest)

unfoldable pub qa_json : Qa → Json
qa_json qa = json_object (
    member (codes "acceptanceCriteria") (json_array (acceptance_items qa.acceptance_criteria)) (
      member (codes "testStrategy") (json_text qa.test_strategy) (
        member (codes "regressionChecks") (texts qa.regression_checks) (
          member (codes "releaseRequired") (json_flag qa.release_required) (
            member (codes "releaseChecks") (texts qa.release_checks)
              (member (codes "openQuestions") (texts qa.open_questions) no_members))))))

unfoldable pub roles_json : Roles → Json
roles_json roles = json_object (
    member (codes "po") (po_json roles.po) (
      member (codes "ba") (ba_json roles.ba) (
        member (codes "dev") (dev_json roles.dev)
          (member (codes "qa") (qa_json roles.qa) no_members))))

unfoldable pub baseline_json : Text → Text → Text → Json
baseline_json head working_tree_digest instructions_digest = json_object (
    member (codes "head") (json_text head) (
      member (codes "workingTreeDigest") (json_text working_tree_digest)
        (member (codes "instructionsDigest") (json_text instructions_digest) no_members)))

unfoldable pub classification_json : Classification → Json
classification_json c = json_object (
    member (codes "intent") (json_text c.intent) (
      member (codes "depth") (json_text c.depth) (
        member (codes "risk") (json_text c.risk) (
          member (codes "dataClasses") (texts c.data_classes)
            (member (codes "mutationSurfaces") (texts c.mutation_surfaces) no_members)))))

unfoldable pub authority_json : Authority → Json
authority_json a = json_object (
    member (codes "workspaceWrite") (json_flag a.workspace_write) (
      member (codes "commit") (json_flag a.commit) (
        member (codes "push") (json_flag a.push) (
          member (codes "deploy") (json_flag a.deploy) (
            member (codes "network") (json_flag a.network) (
              member (codes "serviceControl") (json_flag a.service_control) (
                member (codes "destructive") (json_flag a.destructive) (
                  member (codes "externalMessages") (json_flag a.external_messages)
                    no_members))))))))

-- The object that deliveryPlanDefinition returns of a validated plan.
unfoldable pub definition_json : Plan → Json
definition_json plan = json_object (
    member (codes "version") (json_number plan.version) (
      member (codes "id") (json_text plan.id) (
        member (codes "title") (json_text plan.title) (
          member (codes "request") (json_text plan.request) (
            member (codes "workspace") (json_text plan.workspace) (
              member (codes "baseline")
                (baseline_json plan.baseline.head plan.baseline.working_tree_digest
                  plan.baseline.instructions_digest)
                (member (codes "classification") (classification_json plan.classification) (
                  member (codes "roles") (roles_json plan.roles) (
                    member (codes "unresolvedQuestions") (texts plan.unresolved_questions) (
                      member (codes "authority") (authority_json plan.authority)
                        no_members))))))))))

unfoldable pub delivery_plan_definition : PlanHost → Plan → Result PlanError Json
delivery_plan_definition host value = do
  plan ← validate_shape host (normalize_delivery_plan host value host.now)
  ok (definition_json plan)

unfoldable pub delivery_plan_digest : PlanHost → Plan → Result PlanError Text
delivery_plan_digest host value = do
  definition ← delivery_plan_definition host value
  ok (canonical_sha256 host definition)
