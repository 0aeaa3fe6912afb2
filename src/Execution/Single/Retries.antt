-- ===== src/Execution/Single/Retries.antt =====
-- The retry loop ends, and how often it runs the node.
use neuronium.Prelude.{
  ℕ, zero, suc, ◌+◌, ◌-◌, ◌<◌, ◌≤◌, String, ◌≡◌, refl, Bool, true, false, some, List, [], ◌∷◌, ◌++◌,
  arith, length, leb, Dict, lookup, Error, Result, Result-cases, ok, err, Bool-cases, inl, inr,
  count_if, count_if-append, is_some, ◌⊎◌, not, ◌||◌,
}
use neuronium.Prelude.Value.{Value, Fields}
use neuronium.Planning.Dag.{ActionGraph, node_map}
use neuronium.Execution.Inputs.{gather_inputs}
use neuronium.Nodes.{FailureClass, Message, NodeInput, NodeOutput, is_completed}
use neuronium.Recovery.Classifier.{classify_failure, classify_failure-retryable}
use neuronium.Recovery.Policy.{is_critical}
use neuronium.Execution.Single.Defs.{
  Event, node_start, node_end, node_retry, Outcome, RetryConfig, RunIds, Call, parameters_of, Run,
  max_retry_delay, attempt_output, classified, failure_events, backoff, attempts_loop,
  execute_single,
}

abbrev pub is_start : Event → Bool
is_start (node_start i p) = true
is_start _ = false

abbrev pub is_end : Event → Bool
is_end (node_end o) = true
is_end _ = false

abbrev pub is_retry : Event → Bool
is_retry (node_retry n r) = true
is_retry _ = false

abbrev pub AllBelow : ℕ → List ℕ → Type 0
AllBelow bound [] = Unit
AllBelow bound (d ∷ ds) = (d ≤ bound) × AllBelow bound ds

-- A run that began at attempt `first`.
pub record IsRun (config : RetryConfig) (first : ℕ) (r : Run) : Type 0 where
  -- every start has its end, and there is one retry between two attempts
  pub ends : count_if is_end r.events ≡ count_if is_start r.events
  pub retries : count_if is_start r.events ≡ length r.delays + 1
  pub retry_events : count_if is_retry r.events ≡ length r.delays
  -- the number of retries is below both limits
  pub within_max : length r.delays ≤ config.max_node_retries - first
  pub within_threshold : length r.delays ≤ config.upgrade_threshold - first
  pub slept : AllBelow max_retry_delay r.delays
  -- a failure is returned with its class
  pub classed : (is_completed r.output.status ≡ true) ⊎ (is_some r.output.failure_class ≡ true)

module _ (config : RetryConfig) (signals : Value) (call : Call) (fc : FailureClass)
    (out : NodeOutput) where
  abbrev failure : List Event
  failure = failure_events config signals call fc out

  failure_starts : count_if is_start failure ≡ 1
  unfolding failure_events
  failure_starts = ground arith

  failure_ends : count_if is_end failure ≡ 1
  unfolding failure_events
  failure_ends = ground arith

  failure_retries : count_if is_retry failure ≡ 0
  unfolding failure_events
  failure_retries = ground arith

  -- A run that ends with this failure.
  failed-IsRun :
      (first : ℕ)
      → is_some out.failure_class ≡ true
      → IsRun config first (record { output = out; events = failure; delays = [] })
  failed-IsRun first c = record {
    ends = omega (arith, failure_starts, failure_ends);
    retries = omega (arith, failure_starts);
    retry_events = failure_retries;
    within_max = omega arith;
    within_threshold = omega arith;
    slept = tt;
    classed = inr c;
  }

  -- A run that goes on after this failure.
  retried-IsRun :
      (attempt : ℕ) (reason : Message) (rest : Run)
      → attempt < config.max_node_retries
      → attempt < config.upgrade_threshold
      → IsRun config (attempt + 1) rest
      → IsRun config attempt (record {
        output = rest.output;
        events = failure ++ node_retry (attempt + 1) reason ∷ rest.events;
        delays = backoff config signals attempt ∷ rest.delays;
      })
  retried-IsRun attempt reason rest m t r =
      let more = node_retry (attempt + 1) reason ∷ rest.events in
      record {
        ends = omega (
          arith,
          failure_starts,
          failure_ends,
          r.ends,
          count_if-append {0} is_end failure more,
          count_if-append {0} is_start failure more,
        );
        retries =
            omega (arith, failure_starts, r.retries, count_if-append {0} is_start failure more);
        retry_events =
            omega
              (arith, failure_retries, r.retry_events, count_if-append {0} is_retry failure more);
        within_max = omega (arith, r.within_max);
        within_threshold = omega (arith, r.within_threshold);
        slept = (unfold backoff in omega arith, r.slept);
        classed = r.classed;
      }

module _ (config : RetryConfig) (signals : Value) (impl : NodeInput → Outcome) (call : Call) where
  record Ends (first : ℕ) (r : Result Run) : Type 0 where
    run : Run
    returned : r ≡ ok run
    is_run : IsRun config first run

  attempts_loop-Ends :
      (fuel attempt : ℕ)
      → config.max_node_retries - attempt < fuel
      → Ends attempt (attempts_loop config signals fuel impl call attempt)
  unfolding attempts_loop classified
  attempts_loop-Ends zero attempt m = absurd (omega arith)
  attempts_loop-Ends (suc fuel) attempt m =
      let out = attempt_output config signals impl call attempt in
      let fc = classify_failure out.error attempt config.upgrade_threshold in
      let out' = classified config signals out attempt in
      elim (Bool-cases (is_completed out.status)) [
        | inl done ↦ record {
          run = record {
            output = out;
            events = node_start call.inputs call.parameters ∷ node_end out ∷ [];
            delays = [];
          };
          returned = rw done;
          is_run = record {
            ends = refl;
            retries = refl;
            retry_events = refl;
            within_max = omega arith;
            within_threshold = omega arith;
            slept = tt;
            classed = inl done;
          };
        }
        | inr bad ↦ elim (Bool-cases (is_critical fc.kind || not fc.retryable)) [
          | inl final ↦ record {
            run = record {
              output = out';
              events = failure config signals call fc out';
              delays = [];
            };
            returned = rw (bad, final);
            is_run = failed-IsRun config signals call fc out' attempt refl;
          }
          | inr transient ↦ elim (Bool-cases (leb config.max_node_retries attempt)) [
            | inl spent ↦ record {
              run = record {
                output = out';
                events = failure config signals call fc out';
                delays = [];
              };
              returned = rw (bad, transient, spent);
              is_run = failed-IsRun config signals call fc out' attempt refl;
            }
            | inr left ↦
                let more : attempt < config.max_node_retries = ground arith in
                let below : attempt < config.upgrade_threshold =
                  ground (
                    arith,
                    classify_failure-retryable out.error attempt config.upgrade_threshold,
                  ) in
                let rest = attempts_loop-Ends fuel (attempt + 1) (omega (arith, more)) in
                record {
                  run = record {
                    output = rest.run.output;
                    events =
                        failure config signals call fc out'
                        ++ node_retry (attempt + 1) fc.message ∷ rest.run.events;
                    delays = backoff config signals attempt ∷ rest.run.delays;
                  };
                  returned = simp (bad, transient, left, rest.returned);
                  is_run =
                      retried-IsRun config signals call fc out' attempt fc.message rest.run more
                        below rest.is_run;
                }
          ]
        ]
      ]

-- A node's execution ends. If gathering its inputs raises, it raises that exception, without an
-- attempt. Else it returns: it has as many ends as starts and one retry event and one delay between
-- two attempts; it retries at most `max_node_retries` times and, since a failure counts as PERSISTENT
-- from `retry_count_upgrade_threshold` retries on, at most that often; no delay is longer than 60
-- seconds; and an output that is not COMPLETED carries its failure class.
pub execute_single-IsRun :
    (config : RetryConfig) (signals : Value) (text dumps : Value → String) (run_ids : RunIds)
    (g : ActionGraph) (initial : Fields) (impl : NodeInput → Outcome) (results : Dict NodeOutput)
    (node_id : String)
    → let gathered =
        gather_inputs text dumps g results node_id (lookup node_id (node_map g)) initial in
      let result =
        execute_single config signals text dumps run_ids g initial (some impl) results node_id in
      ((e : Error) × (gathered ≡ err e) × (result ≡ err e))
      ⊎ ((inputs : Fields) × (gathered ≡ ok inputs)
          × ((r : Run) × (result ≡ ok r) × IsRun config 0 r))
unfolding execute_single
execute_single-IsRun config signals text dumps run_ids g initial impl results node_id =
    let node = lookup node_id (node_map g) in
    elim (Result-cases (gather_inputs text dumps g results node_id node initial)) [
      | inr (e, bad) ↦ inl (e, bad, rw bad refl)
      | inl (inputs, good) ↦
          let call : Call = record {
            inputs = inputs;
            parameters = parameters_of config signals text dumps run_ids g initial node;
            run_ids = run_ids;
          } in
          let ends =
            attempts_loop-Ends config signals impl call (suc config.max_node_retries) 0
              (omega arith) in
          inr (inputs, good, (ends.run, rw good ends.returned, ends.is_run))
    ]
