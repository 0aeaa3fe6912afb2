-- ===== src/Lib.antt =====
-- Neuronium is an agent that plans an objective as a graph of actions, executes the graph in
-- batches, checks the results and recovers from failures. The files here model its core.
--
-- neuronium_agent/planning/dag.py is modelled by Planning/Dag.antt and the files below it
-- (ActionGraph and its methods). neuronium_agent/execution/executor.py and outcome.py are modelled
-- by Execution/Single (_execute_single: gathering the inputs of one node, which may raise, and its
-- retries), Execution/Loop (execute and _execute_batch) and Execution/Inputs (_gather_inputs and
-- the prompts). Config has the layers of neuronium_agent/config.py (_deep_merge, _set_nested,
-- _apply_env_overrides). Nodes.antt has the records that nodes and the executor exchange
-- (neuronium_agent/nodes/base.py, types.py). neuronium_agent/recovery/ is modelled by Recovery:
-- Classifier (classify_failure), Policy (decide_recovery) and Scope (_transitive_dependents and
-- compute_rollback_scope). The executor asks the graph for its order and predecessors, classifies
-- each failed attempt, and its results are what the policy and the scope read.
--
-- neuronium_agent/core/state.py is modelled by Core/State (transition_to and the runs it allows).
-- The stage gates of core/orchestrator.py (_extract_verdict, _build_gate_snapshot, _evaluate_gate),
-- with verification/demo_critic.py, are modelled by Core/Gate. Schemas/Pointer has the JSON
-- pointers of schemas/tool_schema_registry.py, and Planning/Patch has planning/state_patch.py with
-- the reader _state_value_at_pointer of planning/missing_slots.py, whose other functions are in
-- Planning/Slots. Trace/Checkpoints and Trace/Replay are trace/checkpoints.py and trace/replay.py.
-- The orchestrator runs a graph with the executor, takes the critic's verdict from its results,
-- decides the gate, and writes checkpoints from which a run is resumed or replayed.
--
-- core/orchestrator.py itself is modelled by Core/Run. World has what a run keeps and changes (the
-- agent's state, its row in the index store, the pending interrupt, the trace) and the monad of
-- actions that may raise, after which what was changed stays changed. Env has everything that the
-- code calls and the model takes as given. Decisions and Control are get_status,
-- _record_control_decision and apply_control, with Answers for the patches of a revise command.
-- Planner is _plan_dynamic_graph, validate_planned_graph of planning/dynamic_planner.py and
-- _pause_for_planner_escalation. Attempts is _execute; Execute, Verdicts, Recover, Adapt, Resume,
-- Commit and Runbook are the parts of _run_runbook: its loop body is cut into one function for each
-- phase and each way out, in the order of the code, and its local variables are the records
-- StageRun (those of the stage) and Attempt (those that the retry loop changes). Launch is start,
-- replay and resume_run, with Infer for _infer_runbook_id and _infer_runbook_metadata. The proofs
-- are in Rules (which actions leave the state and the row alone), Commands, Endings, Stages and
-- Settled (how a run ends), Passes, Retrying and Fuel (the retry loop), Total, TotalStages and
-- Finished (that it ends), Pausing, Interrupting, Launching and Oldest.
--
-- Planning/Htn is the decomposition in planning/htn_recursive_backend.py: _context_kind, the choice
-- of a method, _expand_subgoal (Expand), the loop of plan over its queue (Decompose) and
-- _build_action_graph (Build), with the proofs in Limits, Leaves, Closed and Ordered. What comes
-- before that loop, the extraction of inputs and the questions for missing ones, is not modelled.
--
-- Of the orchestrator these are parameters, as fields of Env: the JSON form of states, graphs,
-- outputs and verdicts, the outputs of nodes, the order in which they finish and the events they
-- record in the n-th execution, the commands that another thread gives during it and the batch
-- after which they arrive, the answers of the planner's backend, the runbooks, the artifact store,
-- _finalize_run, _convert_nl_answer_to_patch, and the texts of exceptions and of recovery
-- decisions. Left out are time stamps, span ids, the decision records that go with a decision, the
-- determinism audit, the recording of responses, the export of a stopped run's trace and the
-- lineage row of a revise command. The commands of another thread are taken at one point of each
-- execution, before its first batch.
--
-- Prelude has the shared helpers: a dict is an association list in insertion order whose writes
-- keep a key's place (Dict), an exception is a value (Result, Error), JSON values are a data type
-- (Prelude/Value), `int` is Prelude/Int and texts are lists of code points (Prelude/Text). A
-- function keeps its Python name without a leading underscore, and an attribute of an object is a
-- record field.
--
-- A `while` loop runs on fuel: Kahn's loop on the number of in-degrees, the executor's loop on the
-- number of pending nodes (each round takes one away), the retry loop of a node on the number of
-- retries plus one, that of a stage on a given fuel, for which one more than the configured fixes
-- and retries together is enough unless failed stages are planned anew, the search for dependents
-- on the seeds plus the edges, and the visit of a schema on its nesting; running out would be the
-- error `out_of_fuel`, which the results exclude.
--
-- Not modelled: what a node's implementation does (the parameter `impl` of _execute_single; the
-- loop takes as a parameter, `run_node`, what _execute_single returns or raises for a node, of
-- which `run_single` is the concrete one), threads (the finishing order of a batch is a parameter),
-- clocks, random ids, logging, the text of exceptions, the storage back ends, the command line, the
-- calls of a language model. A set is a list of its members. `str.lower`, `str.strip` and
-- `str.isdigit` are modelled on ASCII characters. Numbers of seconds are counted in milliseconds.
pub mod Config
pub mod Core
pub mod Execution
pub mod Nodes
pub mod Planning
pub mod Prelude
pub mod Recovery
pub mod Schemas
pub mod Tests
pub mod Trace
