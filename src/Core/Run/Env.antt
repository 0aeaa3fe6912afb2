-- ===== src/Core/Run/Env.antt =====
-- What the orchestrator calls and what the model takes as given: the encoding of records as JSON (by
-- pydantic and json), the answers of models and tools, the planner's backend, the artifact store, and
-- the commands that another thread gives while a graph is being executed.
use neuronium.Prelude.{ℕ, String, Bool, Option, List, Dict, Result, Error}
use neuronium.Prelude.Value.{Value, Fields}
use neuronium.Core.State.{AgentState}
use neuronium.Core.Gate.{DemoCriticVerdict, StageSuccessGate}
use neuronium.Nodes.{NodeOutput}
use neuronium.Planning.Dag.{ActionGraph, GraphNode, NodeType}
use neuronium.Recovery.Policy.{RecoveryConfig, Reason}

-- The fields of DynamicPlannerSpec that the modelled code reads.
pub record DynamicPlannerSpec : Type 0 where
  pub allowed_node_types : List NodeType
  pub allowed_tool_names : List String
  pub backend_name : String
  pub backend_version : String

pub record PlannerRequest : Type 0 where
  pub objective : String
  pub constraints : List Value
  pub metadata : Fields
  pub runbook_id : String
  pub stage_id : String
  pub execution_id : String
  pub spec : DynamicPlannerSpec
  pub operator_catalog_hash : String

-- The decision trace is kept as the dict of its fields.
pub record PlannerResult : Type 0 where
  pub action_graph : ActionGraph
  pub backend_name : String
  pub backend_version : String
  pub operator_catalog_hash : String
  pub decision_trace : Fields

pub record PlannerEscalation : Type 0 where
  pub reason : String
  pub backend_name : String
  pub backend_version : String
  pub clarification_request_artifact_id : String
  pub missing_fields : List Value
  pub evidence_artifact_ids : List String
  pub operator_catalog_hash : String
  pub decision_trace : Fields

pub data PlannerOutcome : Type 0 where
  planned : PlannerResult → PlannerOutcome
  escalated : PlannerEscalation → PlannerOutcome

-- What a graph builder is given.
pub record BuilderContext : Type 0 where
  pub objective : String
  pub constraints : List Value
  pub prev_stage_results : Dict NodeOutput
  pub prev_stage_verdict : Option DemoCriticVerdict
  pub execution_id : String
  pub metadata : Fields

pub record ActionGraphStage : Type 0 where
  pub stage_id : String
  pub graph : Option ActionGraph
  pub initial_inputs_override : Fields
  pub success_gate : StageSuccessGate
  pub dynamic_planner : Option DynamicPlannerSpec
  -- the second part of a result that is no pair is none
  pub graph_builder : Option (BuilderContext → Result (ActionGraph × Option Fields))
  pub exit_run_on_success : Bool
  pub proceed_to_next_stage_on_fail : Bool
  pub default_model_id : Option String

pub data ControlKind : Type 0 where
  pause continue_run stop replan revise escalate : ControlKind

pub record ControlCommand : Type 0 where
  pub kind : ControlKind
  pub payload : Fields

pub record Env : Type 0 where
  -- `repr(s)`, `str(v)` and `str(exc)`
  pub repr : String → String
  pub str_of : Value → String
  pub error_text : Error → String
  pub json_loads : String → Option Value
  pub as_verdict : Fields → Option DemoCriticVerdict
  pub model_dump : AgentState → Fields
  pub model_validate : Fields → Result AgentState
  pub dump_graph : ActionGraph → Fields
  pub graph_of : Fields → Result ActionGraph
  pub dump_output : NodeOutput → Value
  pub output_of : Value → Result NodeOutput
  pub dump_verdict : DemoCriticVerdict → Fields
  -- `DemoCriticVerdict(verdict=..., ...)` from the values of a gate snapshot
  pub verdict_from : Value → Value → Value → Value → Value → Result DemoCriticVerdict
  pub llm_available : Bool
  -- the check and the report of `replay_provider.inject`, if there is a provider
  pub injection : Option (ActionGraph → Result Fields)
  -- `get_runbook(id).build_stages(objective, constraints, metadata, execution_id)`
  pub get_runbook :
      String → Option (String → List Value → Fields → String → Result (List ActionGraphStage))
  -- the n-th execution: its nodes' outputs, the order in which they finish, the events they record,
  -- the commands of another thread, and after which batch these arrive
  pub run_node :
      ℕ → Fields → Option String → ActionGraph → Dict NodeOutput → String → Result NodeOutput
  pub finish_order : ℕ → List String → List String
  pub node_events : ℕ → List (String × Fields)
  pub arrivals : ℕ → List ControlCommand
  pub arrive_after : ℕ → ℕ
  pub max_parallel_nodes : ℕ
  -- the n-th answer of the planner's backend, with the events that it records
  pub backend_plan : ℕ → PlannerRequest → Result PlannerOutcome × List (String × Fields)
  pub catalog_hash : String
  pub replay_catalog_hash : Option String
  pub assert_node_allowed : GraphNode → Result (Unit {0})
  pub load_artifact : String → Fields
  -- `_persist_control_artifact` and `_finalize_run`, with the events that the latter records
  pub persist_response : Fields → Result String
  pub finalize : Dict NodeOutput → Option (List String) → Result (Unit {0}) × List (String × Fields)
  pub convert_nl_answer : AgentState → String → String → List Value × Fields
  -- the text of a recovery decision's reason
  pub reason_text : Reason → String
  pub max_verdict_fix_attempts : ℕ
  pub recovery : RecoveryConfig
