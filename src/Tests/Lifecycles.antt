-- ===== src/Tests/Lifecycles.antt =====
-- A run that starts, completes, and stays completed.
use neuronium.Prelude.{◌≡◌, refl, none, err, value_error}
use neuronium.Core.State.{AgentState, RunState, transition_to, valid_transitions}
use neuronium.Core.State.Lifecycle.{
  Reaches, start, step, Kept, Reaches-Kept, PassesRunning, Reaches-PassesRunning,
}

abbrev a_run : RunState → AgentState
a_run s = record {
  trace_id = "t";
  execution_id = "e";
  run_state = s;
  intention = none;
  progress = "0.0";
  current_node_ref = none;
  message = none;
}

completes : Reaches (a_run RunState.pending) (a_run RunState.completed)
unfolding transition_to valid_transitions
completes = step RunState.running none refl (step RunState.completed none refl start)

stays_cancelled : transition_to RunState.running none (a_run RunState.cancelled) ≡ err value_error
unfolding transition_to valid_transitions
stays_cancelled = refl

Reaches-Kept_example : Kept (a_run RunState.pending) (a_run RunState.completed)
Reaches-Kept_example = Reaches-Kept completes

Reaches-PassesRunning_example : PassesRunning (a_run RunState.pending) (a_run RunState.completed)
Reaches-PassesRunning_example = Reaches-PassesRunning completes refl refl
