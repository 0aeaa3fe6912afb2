-- ===== src/Tests/Orchestrator.antt =====
-- Runs of one stage, to the end, paused and stopped.
use neuronium.Prelude.{
  true, false, none, some, [], ◌∷◌, ◌≡◌, refl, ok, arith, insert, lookup, sort_by, insert_by,
}
use neuronium.Prelude.Value.{end, get_field, update_fields, put_field, of_items}
use neuronium.Core.State.{AgentState, RunState, transition_to, valid_transitions}
use neuronium.Core.Gate.{evaluate_gate, build_gate_snapshot, completed_output}
use neuronium.Nodes.{InterruptRequest, InterruptMode, InterruptCommand}
use neuronium.Core.Run.Env.{ControlCommand, ControlKind}
use neuronium.Core.Run.Control.{Session, apply_control, run_commands}
use neuronium.Core.Run.Decisions.{
  mode_of, write_checkpoint, record_control_decision, latest_context,
}
use neuronium.Core.Run.Runbook.{run_runbook, handle}
use neuronium.Core.Run.Endings.{is_live}
use neuronium.Core.Run.Finished.{run_runbook-settles}
use neuronium.Core.Run.Fuel.{run_runbook-same}
use neuronium.Core.Run.Passes.{GateDone}
use neuronium.Core.Run.Retrying.{attempts-GateDone}
use neuronium.Core.Run.Commands.{apply_control-Agrees}
use neuronium.Core.Run.Pausing.{PausedPlainly, on_pause-PausedPlainly}
use neuronium.Core.Run.Interrupting.{interrupt_command, interrupt_command-on_interrupt}
use neuronium.Prelude.Int.{is_zero, succ, ltℤ, eqℤ, pred}
use neuronium.Planning.Dag.{
  topological_order, node_map, sort_ids, with_keys, in_degrees, count_edges, collect, kahn_loop,
  key_le, relax_all, adjacency, link, relax, str_le, predecessors,
}
use neuronium.Execution.Loop.{
  ExecutionOutcome, restore, record_selection, commit, commit_all, satisfied, selection, skip_all,
  preds_satisfied, ready_nodes, skipped_nodes, outputs_of, execute_batch, interrupt_after,
  run_batch, execute_loop, start_state, execute, in_unselected, branch_value, return_value,
}
use neuronium.Core.Run.World.{
  World, ◌>>=◌, set_phase, try_call, gets, modify, pure, record_all, record_event, move_to,
  update_run_state,
}
use neuronium.Core.Run.Verdicts.{next, control_phase, stage_verdict, record_verdict}
use neuronium.Core.Run.Recover.{pass_stage}
use neuronium.Core.Run.Adapt.{attempts, attempt_once, judge, adapt_phase}
use neuronium.Core.Run.Attempts.{initial_results, run_graph, inject_replay, take_commands}
use neuronium.Core.Run.Execute.{
  on_pause, on_interrupt, execute_or_skip, execute_phase, close_execution,
}
use neuronium.Trace.Checkpoints.{
  latest_checkpoint, first_boundary, is_kind, build_checkpoint_payload, is_boundary, load_state,
  check_mid_execute, validate_mid_execute,
}
use neuronium.Prelude.Text.{append}
use neuronium.Tests.Samples.{an_output}
use neuronium.Tests.RunSamples.{an_env, agent_in, world_in, the_stage, first_try}

run_runbook-settles_example :
    let (ended, w') = run_runbook an_env 3 "r" end none (world_in RunState.pending) in
    (ended ≡ true) × (w'.row ≡ some w'.agent.run_state) × (is_live w'.agent.run_state ≡ false)
run_runbook-settles_example =
    run_runbook-settles an_env 3 "r" end none (world_in RunState.pending) refl (omega arith) refl

run_runbook-same_example :
    run_runbook an_env 3 "r" end none (world_in RunState.pending)
    ≡ run_runbook an_env 9 "r" end none (world_in RunState.pending)
run_runbook-same_example =
    run_runbook-same an_env refl 3 9 (omega arith) (omega arith) "r" end none
      (world_in RunState.pending)

abbrev paused_session : Session
paused_session = record {
  memory = some (agent_in RunState.running);
  row = some RunState.running;
  interrupt = none;
  trace = [];
  executions = 0;
  plannings = 0;
}

abbrev a_pause : ControlCommand
a_pause = record { kind = ControlKind.pause; payload = end }

apply_control-Agrees_example :
    let s' = (apply_control an_env a_pause paused_session).1 in
    (st' : AgentState) × (s'.memory ≡ some st') × (s'.row ≡ some st'.run_state)
apply_control-Agrees_example =
    apply_control-Agrees an_env a_pause paused_session (agent_in RunState.running) refl refl

abbrev interrupted_by : InterruptCommand → InterruptRequest
interrupted_by c = record { command = c; mode = InterruptMode.graceful; export_path = none }

abbrev half_done : ExecutionOutcome
half_done = record {
  results = [];
  pending = "a" ∷ [];
  interrupted = some (interrupted_by InterruptCommand.pause);
}

interrupt_command-on_interrupt_example :
    let w1 = (interrupt_command an_env end InterruptCommand.stop (world_in RunState.running)).1 in
    let w2 =
      (handle an_env (
        on_interrupt an_env the_stage first_try half_done
          (interrupted_by InterruptCommand.stop)
          w1)).1 in
    (w2.row ≡ some RunState.failed) × (w2.agent.run_state ≡ RunState.failed)
unfolding mode_of get_field
interrupt_command-on_interrupt_example =
    interrupt_command-on_interrupt an_env InterruptCommand.stop end InterruptMode.graceful the_stage
      first_try half_done (interrupted_by InterruptCommand.stop) (world_in RunState.running) refl
      refl refl refl

abbrev running_world : World
running_world = world_in RunState.running

pauses :
    on_pause an_env the_stage first_try half_done running_world
    ≡ (ok tt, (on_pause an_env the_stage first_try half_done running_world).1)
unfolding on_pause build_gate_snapshot ◌>>=◌ try_call write_checkpoint gets record_event move_to
    transition_to valid_transitions update_run_state record_control_decision latest_context
    latest_checkpoint first_boundary is_kind get_field build_checkpoint_payload is_boundary
    completed_output lookup load_state update_fields put_field check_mid_execute
    validate_mid_execute append of_items
pauses = refl

on_pause-PausedPlainly_example :
    PausedPlainly (on_pause an_env the_stage first_try half_done running_world).1.trace
on_pause-PausedPlainly_example =
    on_pause-PausedPlainly an_env the_stage first_try half_done running_world _ pauses

passes :
    (attempts an_env 1 the_stage end first_try running_world).0
    ≡ ok (next (("a", an_output end) ∷ []) none)
unfolding attempts ◌>>=◌ attempt_once execute_or_skip execute_phase set_phase try_call
    initial_results run_graph gets modify inject_replay pure take_commands run_commands record_all
    execute execute_loop start_state restore topological_order sort_ids with_keys in_degrees
    count_edges insert collect is_zero succ lookup node_map kahn_loop sort_by insert_by key_le ltℤ
    eqℤ relax_all adjacency link relax str_le pred run_batch execute_batch outputs_of commit_all
    commit selection branch_value record_selection skip_all skipped_nodes ready_nodes
    preds_satisfied satisfied predecessors in_unselected interrupt_after get_field close_execution
    build_gate_snapshot write_checkpoint record_event judge control_phase stage_verdict
    record_verdict adapt_phase evaluate_gate pass_stage return_value completed_output
passes = refl

attempts-GateDone_example : GateDone an_env the_stage first_try (("a", an_output end) ∷ []) none
attempts-GateDone_example =
    attempts-GateDone an_env the_stage end 1 first_try running_world (("a", an_output end) ∷ [])
      none passes
