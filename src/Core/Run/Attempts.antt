-- ===== src/Core/Run/Attempts.antt =====
-- What the retry loop of a stage carries, and the execution of a graph (`_execute`) with the commands that
-- another thread gives meanwhile.
use Prim.Native.String.{String}
use neuronium.Prelude.{
  ℕ, suc, ◌+◌, Bool, true, false, not, ◌&&◌, ◌||◌, Option, none, some, List, [], ◌∷◌, map, keep,
  ltb, is_empty, if◌then◌else◌, str_eq, or_else, Dict, Result, ok, err, type_error, attribute_error,
  insert,
}
use neuronium.Prelude
use neuronium.Prelude.Text.{append, strip, show, is_prefix, codes}
use neuronium.Prelude.Value.{
  Value, Items, Fields, nil, cons, end, field, null, str, arr, obj, of_items, get_value,
  update_fields,
}
use neuronium.Core.Gate.{DemoCriticVerdict}
use neuronium.Nodes.{NodeOutput, InterruptRequest}
use neuronium.Planning.Dag.{ActionGraph}
use neuronium.Execution.Loop.{ExecutionOutcome, Returned, results_only, outcome, execute}
use neuronium.Core.Run.World.{
  Action, pure, gets, try_call, modify, ◌>>=◌, ◌>>◌, record_decision, record_all,
}
use neuronium.Core.Run.Env.{Env, ActionGraphStage}
use neuronium.Core.Run.Control.{run_commands}
use neuronium.Core.Run.Planner.{text_list, need_intention}

-- `isinstance(c, str) and c.startswith("__NEURONIUM_INTERNAL_")`
abbrev pub is_internal : Value → Bool
is_internal (str s) = is_prefix (codes "__NEURONIUM_INTERNAL_") (codes s)
is_internal v = false

abbrev pub graph_inputs : String → List Value → Fields → Fields
graph_inputs objective constraints override =
    update_fields
      (field "objective" (str objective)
        (field "constraints" (arr (of_items (keep (λ c. not (is_internal c)) constraints))) end))
      override

-- `interrupt_check`: what is asked for before and after the commands arrive.
abbrev pub seen_after :
    ℕ → Option InterruptRequest → Option InterruptRequest → ℕ → Option InterruptRequest
seen_after batch before after n = if ltb n batch then before else after

abbrev pub as_outcome : Returned → ExecutionOutcome
as_outcome (results_only rs) = record { results = rs; pending = []; interrupted = none }
as_outcome (outcome o) = o

-- What stays the same for one stage. `resume` is the resume context, if the run resumes in this stage.
pub record StageRun : Type 0 where
  pub stage : ActionGraphStage
  pub stage_index : ℕ
  pub runbook_id : String
  pub metadata : Fields
  pub resume : Option Fields

abbrev pub iteration : StageRun → ℕ
iteration sr = sr.stage_index + 1

abbrev pub label : String → StageRun → String
label phase sr = append phase (show (iteration sr))

-- What the retry loop of a stage changes.
pub record Attempt : Type 0 where
  pub graph : ActionGraph
  pub skip_execute : Bool
  pub skip_control : Bool
  pub results : Dict NodeOutput
  pub verdict : Option DemoCriticVerdict
  pub retry_count : ℕ
  pub fix_attempts : ℕ
  pub fix_override : Option Fields
  pub history : List (List String)

pub data Executed : Type 0 where
  stopped_early : Executed
  executed : Dict NodeOutput → Value → Executed

abbrev pub fields_or_empty : Option Fields → Fields
fields_or_empty none = end
fields_or_empty (some fs) = fs

-- `resume_ctx.get(key)` in the stage that the run resumes in
abbrev pub resumed_value : String → StageRun → Value
resumed_value key sr = elim sr.resume [ none ↦ null | some ctx ↦ get_value key null ctx ]

abbrev pub is_boundary_text : String → Value → Bool
is_boundary_text s (str t) = str_eq t s
is_boundary_text s v = false

-- `[str(v).strip() for v in vs if str(v).strip()]`
abbrev pub stripped_texts : (Value → String) → Items → List String
stripped_texts str_of nil = []
stripped_texts str_of (cons v xs) =
    if str_eq (strip (str_of v)) ""
    then stripped_texts str_of xs
    else strip (str_of v) ∷ stripped_texts str_of xs

abbrev pub list_items : Value → Items
list_items (arr xs) = xs
list_items v = nil

unfoldable pub inject_replay :
    Option (ActionGraph → Result Fields) → ActionGraph → Action (Unit {0})
inject_replay none graph = pure tt
inject_replay (some inject) graph = do
  report ← try_call (inject graph)
  record_decision "Replay responses injected" report

module _ (env : Env) where
  unfoldable pub build_clarification_context_inputs : Fields → Fields
  build_clarification_context_inputs metadata =
      let request =
        strip (env.str_of (get_value "clarification_request_artifact_id" (str "") metadata)) in
      let response =
        strip (env.str_of (get_value "clarification_response_artifact_id" (str "") metadata)) in
      let evidence =
        stripped_texts env.str_of
          (list_items (get_value "clarification_evidence_artifact_ids" (arr nil) metadata)) in
      let loaded : String → Value =
        λ aid. obj (if str_eq aid "" then end else env.load_artifact aid) in
      if str_eq request "" && str_eq response "" && is_empty evidence
      then end
      else field "clarification_request_artifact_id" (str request) (
          field "clarification_response_artifact_id" (str response) (
            field "clarification_evidence_artifact_ids" (text_list evidence) (
              field "clarification_context_envelope"
                (obj (
                  field "version" (str "bug4.v1") (
                    field "request_artifact_id" (str request) (
                      field "response_artifact_id" (str response) (
                        field "evidence_artifact_ids" (text_list evidence) (
                          field "request" (loaded request)
                            (field "response" (loaded response) end)))))))
                end)))

  -- The commands of another thread, during the n-th execution.
  unfoldable pub take_commands : ℕ → Action (Unit {0})
  take_commands n = modify (run_commands env (env.arrivals n))

  -- `_execute`, by the DAG executor
  unfoldable pub run_graph :
      ActionGraph → Fields → Dict NodeOutput → Option String → Action ExecutionOutcome
  run_graph graph override initial default_model = do
    n ← gets (λ w. w.executions)
    modify (λ w. record w { executions = n + 1 })
    inject_replay env.injection graph
    i ← need_intention
    before ← gets (λ w. w.interrupt)
    take_commands n
    after ← gets (λ w. w.interrupt)
    record_all (env.node_events n)
    returned ← try_call (
        execute env.str_of
          (env.run_node n (graph_inputs i.objective i.constraints override) default_model graph)
          (env.finish_order n) env.max_parallel_nodes
          (some (seen_after (env.arrive_after n) before after)) graph initial)
    pure (as_outcome returned)

  abbrev pub outputs_of_fields : Fields → Result (Dict NodeOutput)
  outputs_of_fields end = ok []
  outputs_of_fields (field nid v fs) =
      let rest = outputs_of_fields fs in
      Prelude.◌>>=◌ (env.output_of v) (λ out. Prelude.◌>>=◌ rest (λ outs. ok ((nid, out) ∷ outs)))

  -- The node results that a run resumed in the middle of an execution starts from.
  unfoldable pub initial_results : StageRun → Result (Dict NodeOutput)
  initial_results sr =
      if is_boundary_text "paused_mid_execute" (resumed_value "phase_boundary" sr)
      then elim (resumed_value "completed_node_results" sr) [
        | obj fs ↦ outputs_of_fields fs
        | _ ↦ ok []
      ]
      else ok []
