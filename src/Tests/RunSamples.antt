-- ===== src/Tests/RunSamples.antt =====
-- A runbook of one stage, whose graph is one node and whose gate asks for that node.
use neuronium.Prelude.{
  true, false, none, some, [], ◌∷◌, str_eq, ok, err, if◌then◌else◌, value_error,
}
use neuronium.Prelude.Value.{end, null}
use neuronium.Core.State.{AgentState, RunState, Intention, IntentionPhase}
use neuronium.Planning.Dag.{ActionGraph, code}
use neuronium.Core.Run.World.{World}
use neuronium.Core.Run.Env.{Env, ActionGraphStage}
use neuronium.Core.Run.Attempts.{StageRun, Attempt}
use neuronium.Tests.Samples.{a_node, a_graph, an_output, text_of}

abbrev pub one_node : ActionGraph
one_node = a_graph (a_node "a" code 0 ∷ []) [] []

abbrev pub one_stage : ActionGraphStage
one_stage = record {
  stage_id = "s";
  graph = some one_node;
  initial_inputs_override = end;
  success_gate = record { required_completed_nodes = "a" ∷ []; critic_node_id = none };
  dynamic_planner = none;
  graph_builder = none;
  exit_run_on_success = false;
  proceed_to_next_stage_on_fail = false;
  default_model_id = none;
}

abbrev pub an_intention : Intention
an_intention = record {
  intention_id = "i";
  objective = "objective";
  constraints = [];
  plan_id = none;
  phase = IntentionPhase.commit;
}

abbrev pub agent_in : RunState → AgentState
agent_in s = record {
  trace_id = "t";
  execution_id = "e";
  run_state = s;
  intention = some an_intention;
  progress = "0.0";
  current_node_ref = none;
  message = none;
}

-- Every node completes, and other threads give no commands.
abbrev pub an_env : Env
an_env = record {
  repr = λ s. s;
  str_of = text_of;
  error_text = λ e. "error";
  json_loads = λ s. none;
  as_verdict = λ fs. none;
  model_dump = λ st. end;
  model_validate = λ fs. ok (agent_in RunState.running);
  dump_graph = λ g. end;
  graph_of = λ fs. err value_error;
  dump_output = λ out. null;
  output_of = λ v. err value_error;
  dump_verdict = λ v. end;
  verdict_from = λ a b c d e. err value_error;
  llm_available = true;
  injection = none;
  get_runbook = λ id.
      if str_eq id "r"
      then some (λ objective constraints metadata e. ok (one_stage ∷ []))
      else none;
  run_node = λ n inputs model g results nid. ok (an_output end);
  finish_order = λ n xs. xs;
  node_events = λ n. [];
  arrivals = λ n. [];
  arrive_after = λ n. 0;
  max_parallel_nodes = 2;
  backend_plan = λ n request. (err value_error, []);
  catalog_hash = "h";
  replay_catalog_hash = none;
  assert_node_allowed = λ node. ok tt;
  load_artifact = λ id. end;
  persist_response = λ fs. ok "response";
  finalize = λ results rollback. (ok tt, []);
  convert_nl_answer = λ st text id. ([], end);
  reason_text = λ r. "reason";
  max_verdict_fix_attempts = 1;
  recovery = record {
    max_stage_retries = 1;
    repeated_rollback_threshold = 2;
    allow_auto_replan = false;
  };
}

abbrev pub world_in : RunState → World
world_in s = record {
  agent = agent_in s;
  row = some s;
  interrupt = none;
  trace = [];
  executions = 0;
  plannings = 0;
}

abbrev pub the_stage : StageRun
the_stage = record {
  stage = one_stage;
  stage_index = 0;
  runbook_id = "r";
  metadata = end;
  resume = none;
}

abbrev pub first_try : Attempt
first_try = record {
  graph = one_node;
  skip_execute = false;
  skip_control = false;
  results = [];
  verdict = none;
  retry_count = 0;
  fix_attempts = 0;
  fix_override = none;
  history = [];
}
