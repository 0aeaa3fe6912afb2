-- ===== src/Execution/Single/Defs.antt =====
-- `_execute_single`: the retry loop of one node. Seconds are counted in milliseconds. The elapsed time
-- in a `node_end` event, and the ids that all events of one node share, are left out.
use Prim.Native.String.{◌++◌ as append}
use neuronium.Prelude.{
  ℕ, zero, suc, ◌+◌, ◌*◌, ◌^◌, min, String, not, ◌||◌, Option, none, some, List, [], ◌∷◌, ◌++◌,
  if◌then◌else◌, leb, out_of_fuel, Dict, lookup, Result, ok, err, ◌>>=◌,
}
use neuronium.Prelude.Int.{ℤ}
use neuronium.Prelude.Value.{Value, Fields}
use neuronium.Planning.Dag.{ActionGraph, GraphNode, node_map}
use neuronium.Execution.Inputs.{gather_inputs}
use neuronium.Nodes.{FailureClass, Message, NodeInput, NodeOutput, failed, is_completed}
use neuronium.Recovery.Classifier.{classify_failure}
use neuronium.Recovery.Policy.{is_critical}

pub data Event : Type 0 where
  node_start : (inputs parameters : Fields) → Event
  node_end : NodeOutput → Event
  node_failure_critical : FailureClass → Event
  node_retry : (retry_count : ℕ) (reason : Message) → Event

-- What `node_impl.execute` does: it returns, or it raises an exception with a text.
pub data Outcome : Type 0 where
  returned : NodeOutput → Outcome
  raised : String → Outcome

pub record RetryConfig : Type 0 where
  pub max_node_retries : ℕ
  pub retry_backoff_base : ℕ
  pub upgrade_threshold : ℕ

-- What every node of an execution is given.
pub record RunIds : Type 0 where
  pub execution_id : String
  pub trace_id : String
  pub seed : ℤ

-- What the executor passes to each attempt of a node.
pub record Call : Type 0 where
  pub inputs : Fields
  pub parameters : Fields
  pub run_ids : RunIds

-- The output that is returned, the events in order, and the delays slept between attempts.
pub record Run : Type 0 where
  pub output : NodeOutput
  pub events : List Event
  pub delays : List ℕ

abbrev pub max_retry_delay : ℕ
max_retry_delay = 60000

unfoldable pub failed_with : Value → String → NodeOutput
failed_with signals text = record {
  outputs = Fields.end;
  quality_signals = signals;
  status = failed;
  error = some text;
  failure_class = none;
}

module _ (config : RetryConfig) (default_signals : Value) where
  -- `try: output = node_impl.execute(node_input)` / `except Exception as exc`
  unfoldable pub attempt_output : (NodeInput → Outcome) → Call → ℕ → NodeOutput
  attempt_output impl call attempt =
      let result = impl (record {
        inputs = call.inputs;
        parameters = call.parameters;
        context = record {
          execution_id = call.run_ids.execution_id;
          trace_id = call.run_ids.trace_id;
          retry_count = attempt;
          random_seed = call.run_ids.seed;
        };
      }) in
      elim result [ returned out ↦ out | raised text ↦ failed_with default_signals text ]

  -- `output.model_copy(update={"failure_class": fc})`
  unfoldable pub classified : NodeOutput → ℕ → NodeOutput
  classified out attempt = record out {
    failure_class = some (classify_failure out.error attempt config.upgrade_threshold);
  }

  -- The events of a failed attempt.
  unfoldable pub failure_events : Call → FailureClass → NodeOutput → List Event
  failure_events call fc out =
      node_start call.inputs call.parameters
      ∷ ((if is_critical fc.kind then node_failure_critical fc ∷ [] else []) ++ node_end out ∷ [])

  -- The delay before the next attempt.
  unfoldable pub backoff : ℕ → ℕ
  backoff attempt = min (config.retry_backoff_base * 2 ^ attempt) max_retry_delay

  -- `while True`
  unfoldable pub attempts_loop : ℕ → (NodeInput → Outcome) → Call → ℕ → Result Run
  attempts_loop zero impl call attempt = err out_of_fuel
  attempts_loop (suc fuel) impl call attempt =
      let out = attempt_output impl call attempt in
      let fc = classify_failure out.error attempt config.upgrade_threshold in
      let out' = classified out attempt in
      let events = failure_events call fc out' in
      let again = attempts_loop fuel impl call (attempt + 1) in
      let retried = again >>= λ rest. ok (record {
        output = rest.output;
        events = events ++ node_retry (attempt + 1) fc.message ∷ rest.events;
        delays = backoff attempt ∷ rest.delays;
      }) in
      if is_completed out.status
      then ok (record {
        output = out;
        events = node_start call.inputs call.parameters ∷ node_end out ∷ [];
        delays = [];
      })
      else if is_critical fc.kind || not fc.retryable
      then ok (record { output = out'; events = events; delays = [] })
      else if leb config.max_node_retries attempt
      then ok (record { output = out'; events = events; delays = [] })
      else retried

  module _ (text dumps : Value → String) (run_ids : RunIds) (g : ActionGraph)
      (initial : Fields) where
    abbrev pub parameters_of : Option GraphNode → Fields
    parameters_of none = Fields.end
    parameters_of (some node) = node.parameters

    -- The inputs are gathered outside of any `try`, so an exception there is not an attempt that failed.
    unfoldable pub execute_single :
        Option (NodeInput → Outcome) → Dict NodeOutput → String → Result Run
    execute_single none results node_id =
        let out =
          failed_with default_signals (append "No implementation registered for node " node_id) in
        ok (record { output = classified out 0; events = []; delays = [] })
    execute_single (some impl) results node_id = do
      inputs ← gather_inputs text dumps g results node_id (lookup node_id (node_map g)) initial
      attempts_loop (suc config.max_node_retries) impl
          (record {
            inputs = inputs;
            parameters = parameters_of (lookup node_id (node_map g));
            run_ids = run_ids;
          })
          0

    -- What a node of the loop computes or raises: its output, without the events and the delays.
    unfoldable pub run_single :
        (String → Option (NodeInput → Outcome)) → Dict NodeOutput → String → Result NodeOutput
    run_single registry results node_id =
        execute_single (registry node_id) results node_id >>= λ run. ok run.output
