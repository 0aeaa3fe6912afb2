-- ===== src/Core/Run/Planner.antt =====
-- `validate_planned_graph` of planning/dynamic_planner.py, and `_plan_dynamic_graph` and
-- `_pause_for_planner_escalation` of core/orchestrator.py. The result envelope's two entries about the
-- decision trace are left out.
use neuronium.Prelude.Value.{
  nil, items, Value, Fields, end, field, float, int, str, arr, obj, of_items, get_value,
}
use neuronium.Prelude.{
  length, ℕ, ◌+◌, String, Bool, true, false, not, ◌&&◌, ◌||◌, Option, none, some, List, [], ◌∷◌,
  map, is_empty, has, any_of, all_of, if◌then◌else◌, str_eq, Result, ok, err, value_error, guard,
}
use neuronium.Prelude
use neuronium.Prelude.Int.{pos}
use neuronium.Core.State.{RunState, IntentionPhase, Intention}
use neuronium.Planning.Dag.{
  ActionGraph, GraphNode, GraphEdge, NodeType, node_ids, topological_order,
}
use neuronium.Core.Run.World.{
  Action, pure, raise, gets, try_call, modify, ◌>>=◌, ◌>>◌, when, record_decision, record_all,
  move_to, update_run_state, set_phase,
}
use neuronium.Core.Run.Env.{
  Env, DynamicPlannerSpec, PlannerRequest, PlannerEscalation, PlannerOutcome, planned, escalated,
}
use neuronium.Core.Run.Decisions.{write_checkpoint}

abbrev pub nat : ℕ → Value
nat n = int (pos n)

abbrev pub text_list : List String → Value
text_list xs = arr (of_items (map str xs))

abbrev pub same_type : NodeType → NodeType → Bool
same_type NodeType.model NodeType.model = true
same_type NodeType.mcp NodeType.mcp = true
same_type NodeType.code NodeType.code = true
same_type NodeType.decision NodeType.decision = true
same_type NodeType.aggregate NodeType.aggregate = true
same_type _ _ = false

abbrev pub type_text : NodeType → String
type_text NodeType.model = "model"
type_text NodeType.mcp = "mcp"
type_text NodeType.code = "code"
type_text NodeType.decision = "decision"
type_text NodeType.aggregate = "aggregate"

-- `len(set(xs)) == len(xs)`
abbrev pub all_distinct : List String → Bool
all_distinct [] = true
all_distinct (x ∷ xs) = not (has x xs) && all_distinct xs

module _ (str_of : Value → String) (assert_node_allowed : GraphNode → Result (Unit {0})) where
  abbrev pub tool_allowed : DynamicPlannerSpec → GraphNode → Bool
  tool_allowed spec n =
      not (same_type n.node_type NodeType.mcp && not (is_empty spec.allowed_tool_names))
      || has (str_of (get_value "tool_name" (str "") n.parameters)) spec.allowed_tool_names

  unfoldable pub check_nodes : DynamicPlannerSpec → List GraphNode → Result (Unit {0})
  check_nodes spec [] = ok tt
  check_nodes spec (n ∷ ns) =
      let rest = check_nodes spec ns in
      Prelude.◌>>◌ (guard (any_of (same_type n.node_type) spec.allowed_node_types) value_error) (
        Prelude.◌>>◌ (guard (tool_allowed spec n) value_error)
          (Prelude.◌>>◌ (assert_node_allowed n) rest))

  abbrev pub edge_inside : List String → GraphEdge → Bool
  edge_inside ids e = has e.source ids && has e.target ids

  unfoldable pub validate_planned_graph : DynamicPlannerSpec → ActionGraph → Result ActionGraph
  validate_planned_graph spec g =
      Prelude.◌>>◌ (guard (not (str_eq g.metadata.plan_id "")) value_error) (
        Prelude.◌>>◌ (guard (all_distinct (node_ids g)) value_error) (
          Prelude.◌>>◌ (check_nodes spec g.nodes) (
            Prelude.◌>>◌ (guard (all_of (edge_inside (node_ids g)) g.edges) value_error)
              (Prelude.◌>>=◌ (topological_order g) (λ order. ok g)))))

-- `x or y`
abbrev pub text_or : String → String → String
text_or x y = if str_eq x "" then y else x

-- `if replay_hash and replay_hash != catalog_hash`
abbrev pub mismatched : Option String → String → Bool
mismatched none hash = false
mismatched (some replay) hash = not (str_eq replay "") && not (str_eq replay hash)

abbrev pub need_intention : Action Intention
need_intention w = (Prelude.or_raise w.agent.intention Prelude.attribute_error, w)

abbrev pub about : String → String → Fields → Fields
about runbook_id stage_id rest =
    field "runbook_id" (str runbook_id) (field "stage_id" (str stage_id) rest)

-- `len(decision_trace.subgoals)`
abbrev pub subgoal_count : Value → ℕ
subgoal_count (arr xs) = length (items xs)
subgoal_count v = 0

module _ (env : Env) where
  -- The call of the backend, which may record events of graphs that it executes.
  unfoldable pub ask_backend : PlannerRequest → Action PlannerOutcome
  ask_backend request = do
    n ← gets (λ w. w.plannings)
    modify (λ w. record w { plannings = n + 1 })
    record_all (env.backend_plan n request).1
    try_call (env.backend_plan n request).0

  -- What is made of the backend's answer: a graph is validated.
  unfoldable pub conclude_planning :
      (runbook_id : String)
      → (stage_id : String) → DynamicPlannerSpec
      → PlannerOutcome
      → Action PlannerOutcome
  conclude_planning runbook_id stage_id spec (escalated e) = do
    let hash = text_or e.operator_catalog_hash env.catalog_hash
    record_decision "Planner escalation envelope" (
        about runbook_id stage_id (
          field "planner_backend" (str e.backend_name) (
            field "planner_backend_version" (str e.backend_version) (
              field "reason" (str e.reason) (
                field "clarification_request_artifact_id" (str e.clarification_request_artifact_id)
                  (field "missing_fields" (arr (of_items e.missing_fields)) (
                    field "evidence_artifact_ids" (text_list e.evidence_artifact_ids)
                      (field "operator_catalog_hash" (str hash) end))))))))
    pure (escalated (record e { operator_catalog_hash = hash }))
  conclude_planning runbook_id stage_id spec (planned r) = do
    g ← try_call (validate_planned_graph env.str_of env.assert_node_allowed spec r.action_graph)
    record_decision "Planner result envelope" (
        about runbook_id stage_id (
          field "planner_backend" (str r.backend_name) (
            field "planner_backend_version" (str r.backend_version) (
              field "plan_id" (str g.metadata.plan_id) (
                field "operator_catalog_hash" (str r.operator_catalog_hash) (
                  field "decision_trace_notes" (get_value "notes" (obj end) r.decision_trace) (
                    field "decision_trace_subgoal_count"
                      (nat (subgoal_count (get_value "subgoals" (arr nil) r.decision_trace)))
                      end)))))))
    pure (planned (record r { action_graph = g }))

  unfoldable pub plan_dynamic_graph :
      (runbook_id : String)
      → (stage_id : String) → (metadata : Fields) → DynamicPlannerSpec
      → Action PlannerOutcome
  plan_dynamic_graph runbook_id stage_id metadata spec = do
    when (mismatched env.replay_catalog_hash env.catalog_hash) (raise value_error)
    i ← need_intention
    st ← gets (λ w. w.agent)
    record_decision "Planner request envelope" (
        about runbook_id stage_id (
          field "planner_backend" (str spec.backend_name) (
            field "planner_backend_version" (str spec.backend_version) (
              field "operator_catalog_hash" (str env.catalog_hash) (
                field "allowed_capabilities"
                  (obj (
                    field "node_types" (text_list (map type_text spec.allowed_node_types))
                      (field "tools" (text_list spec.allowed_tool_names) end)))
                  end)))))
    outcome ← ask_backend (record {
      objective = i.objective;
      constraints = i.constraints;
      metadata = metadata;
      runbook_id = runbook_id;
      stage_id = stage_id;
      execution_id = st.execution_id;
      spec = spec;
      operator_catalog_hash = env.catalog_hash;
    })
    conclude_planning runbook_id stage_id spec outcome

  unfoldable pub pause_for_planner_escalation :
      (iteration : ℕ)
      → (runbook_id : String) → (metadata : Fields) → (stage_id : String) → (stage_index : ℕ)
      → PlannerEscalation
      → Action (Unit {0})
  pause_for_planner_escalation iteration runbook_id metadata stage_id stage_index e = do
    set_phase IntentionPhase.adapt
    record_decision "Missing critical parameters" (
        field "iteration" (nat iteration) (
          field "runbook_id" (str runbook_id) (
            field "stage_id" (str stage_id) (
              field "reason" (str e.reason) (
                field "missing_fields" (arr (of_items e.missing_fields)) (
                  field "evidence"
                    (arr (
                      of_items (
                        map
                          (λ aid. obj (
                            field "artifact_id" (str aid)
                              (field "relevance_score" (float "1.0") end)))
                          e.evidence_artifact_ids)))
                    end))))))
    record_decision "Escalation requested" (
        field "iteration" (nat iteration) (
          field "runbook_id" (str runbook_id) (
            field "stage_id" (str stage_id) (
              field "planner_backend" (str e.backend_name) (
                field "planner_backend_version" (str e.backend_version) (
                  field "clarification_request_artifact_id"
                    (str e.clarification_request_artifact_id)
                    (field "missing_fields" (arr (of_items e.missing_fields))
                      (field "evidence_artifact_ids" (text_list e.evidence_artifact_ids) end))))))))
    move_to RunState.paused "Clarification required: missing critical parameters"
    update_run_state RunState.paused
    write_checkpoint env (nat iteration) "paused" (
        field "runbook_id" (str runbook_id) (
          field "metadata" (obj metadata) (
            field "stage_id" (str stage_id) (
              field "stage_index" (nat stage_index) (
                field "clarification_request_artifact_id" (str e.clarification_request_artifact_id)
                  (field "clarification_missing_fields" (arr (of_items e.missing_fields)) (
                    field "clarification_evidence_artifact_ids" (text_list e.evidence_artifact_ids)
                      (field "planner_backend" (str e.backend_name) (
                        field "planner_backend_version" (str e.backend_version)
                          (field "operator_catalog_hash" (str e.operator_catalog_hash) end))))))))))
