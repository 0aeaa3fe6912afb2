-- ===== src/Core/Run/Commit.antt =====
-- `_run_runbook`: the graph of a stage and its commit phase.
use Prim.Native.String.{String}
use neuronium.Core.Run.Env.{
  PlannerResult, Env, ActionGraphStage, BuilderContext, DynamicPlannerSpec, PlannerOutcome, planned,
  escalated,
}
use neuronium.Core.Run.Planner.{
  text_list, nat, validate_planned_graph, plan_dynamic_graph, pause_for_planner_escalation,
}
use neuronium.Planning.Dag.{GraphEdge, node_ids, ActionGraph}
use neuronium.Prelude.Value.{arr, cons, nil, of_items, Value, Fields, end, field, str, obj}
use neuronium.Prelude.{
  map, ℕ, zero, suc, ◌+◌, Bool, true, false, not, ◌&&◌, ◌||◌, Option, none, some, List, [], ◌∷◌,
  length, ltb, nat_eq, is_empty, if◌then◌else◌, str_eq, Dict, Result, ok, err, Error, value_error,
  type_error, attribute_error, or_raise,
}
use neuronium.Prelude
use neuronium.Prelude.Text.{append}
use neuronium.Core.State.{IntentionPhase}
use neuronium.Core.Run.World.{
  Action, pure, modify, ◌>>=◌, ◌>>◌, record_decision, set_phase, set_plan, with_agent,
}
use neuronium.Core.Run.Decisions.{write_checkpoint}
use neuronium.Core.Run.Attempts.{StageRun, iteration, label, resumed_value, fields_or_empty}
use neuronium.Core.Run.Execute.{stage_fields}
use neuronium.Core.Run.Resume.{need_planned}

module _ (env : Env) where
  -- The graph of a stage before its commit phase, and the inputs of its builder.
  unfoldable pub stage_graph :
      StageRun → Bool → BuilderContext → Result (Option ActionGraph × Fields)
  stage_graph sr skip_commit ctx = elim sr.stage.graph_builder [
    | some build ↦
        if skip_commit
        then Prelude.◌>>=◌ (need_planned (resumed_value "planned_graph" sr))
            (λ fs. Prelude.◌>>=◌ (env.graph_of fs) (λ g. ok (some g, end)))
        else Prelude.◌>>=◌ (build ctx) (λ p. ok (some p.0, fields_or_empty p.1))
    | none ↦ elim sr.stage.dynamic_planner [
      | none ↦ ok (sr.stage.graph, end)
      | some spec ↦
          if skip_commit
          then Prelude.◌>>=◌ (need_planned (resumed_value "planned_graph" sr)) (λ fs.
            Prelude.◌>>=◌ (env.graph_of fs) (λ g.
              Prelude.◌>>=◌ (validate_planned_graph env.str_of env.assert_node_allowed spec g)
                (λ v. ok (some v, end))))
          else ok (sr.stage.graph, end)
    ]
  ]

  abbrev pub is_built : ActionGraphStage → Bool
  is_built stage = elim stage.graph_builder [
    | some build ↦ true
    | none ↦ elim stage.dynamic_planner [ none ↦ false | some spec ↦ true ]
  ]

  -- `planner_backend` and so on, which are empty unless a planner has answered.
  abbrev pub planner_fields : Option PlannerResult → Fields
  planner_fields none = field "planner_backend" (str "") (
      field "planner_backend_version" (str "")
        (field "operator_catalog_hash" (str "") (field "planner_decision_trace" (obj end) end)))
  planner_fields (some r) = field "planner_backend" (str r.backend_name) (
      field "planner_backend_version" (str r.backend_version) (
        field "operator_catalog_hash" (str r.operator_catalog_hash)
          (field "planner_decision_trace" (obj r.decision_trace) end)))

  abbrev pub commit_extra : StageRun → Option PlannerResult → ActionGraph → Fields
  commit_extra sr answer g = stage_fields env sr (
      if is_built sr.stage
      then field "planned_graph" (obj (env.dump_graph g)) (planner_fields answer)
      else end)

  abbrev pub commit_title : StageRun → Option PlannerResult → String
  commit_title sr none = append "Plan created (" (append sr.runbook_id ")")
  commit_title sr (some r) = "Plan created (dynamic)"

  abbrev pub answer_fields : Option PlannerResult → Fields
  answer_fields none = end
  answer_fields (some r) = planner_fields (some r)

  abbrev pub edge_pairs : List GraphEdge → List Value
  edge_pairs es = map (λ e. arr (cons (str e.source) (cons (str e.target) nil))) es

  -- The end of the commit phase: the plan is noted and a checkpoint is written.
  unfoldable pub commit_plan : StageRun → Option PlannerResult → ActionGraph → Action (Unit {0})
  commit_plan sr answer g = do
    record_decision (commit_title sr answer) (
        field "iteration" (nat (iteration sr)) (
          field "plan_id" (str g.metadata.plan_id) (
            field "runbook_id" (str sr.runbook_id) (
              field "stage_id" (str sr.stage.stage_id) (
                field "nodes" (text_list (node_ids g))
                  (field "edges" (arr (of_items (edge_pairs g.edges))) (answer_fields answer)))))))
    modify (with_agent (λ st. record st { intention = set_plan g.metadata.plan_id st.intention }))
    write_checkpoint env (nat (iteration sr)) (label "after_commit_iter" sr)
        (commit_extra sr answer g)

  unfoldable pub commit_outcome : StageRun → PlannerOutcome → Action (Option ActionGraph)
  commit_outcome sr (escalated e) = do
    pause_for_planner_escalation env (iteration sr) sr.runbook_id sr.metadata sr.stage.stage_id
        sr.stage_index e
    pure none
  commit_outcome sr (planned r) = do
    commit_plan sr (some r) r.action_graph
    pure (some r.action_graph)

  unfoldable pub commit_with :
      StageRun → ActionGraph → Option DynamicPlannerSpec → Action (Option ActionGraph)
  commit_with sr g none = do commit_plan sr none g; pure (some g)
  commit_with sr g (some spec) = do
    planning ← plan_dynamic_graph env sr.runbook_id sr.stage.stage_id sr.metadata spec
    commit_outcome sr planning

  -- The commit phase: `none` if the planner has asked for help, which pauses the run.
  unfoldable pub commit_phase : StageRun → Bool → ActionGraph → Action (Option ActionGraph)
  commit_phase sr skip_commit g =
      if skip_commit
      then pure (some g)
      else (do set_phase IntentionPhase.commit; commit_with sr g sr.stage.dynamic_planner)
