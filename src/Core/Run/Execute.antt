-- ===== src/Core/Run/Execute.antt =====
-- The execute phase of a stage in `_run_runbook`, and what follows an interrupt.
use Prim.Native.String.{String}
use neuronium.Prelude.{Option, none, some, [], ◌∷◌, if◌then◌else◌, Dict}
use neuronium.Prelude.Value.{Fields, end, field, str, obj, update_fields}
use neuronium.Core.State.{RunState, IntentionPhase}
use neuronium.Core.Gate.{build_gate_snapshot}
use neuronium.Nodes.{
  NodeOutput, InterruptRequest, InterruptMode, InterruptCommand, pause, stop, graceful, immediate,
}
use neuronium.Execution.Loop.{ExecutionOutcome}
use neuronium.Core.Run.World.{
  Action, pure, try_call, modify, ◌>>=◌, ◌>>◌, move_to, update_run_state, set_phase,
}
use neuronium.Core.Run.Env.{Env}
use neuronium.Core.Run.Decisions.{write_checkpoint, record_control_decision}
use neuronium.Core.Run.Planner.{nat, text_list}
use neuronium.Core.Run.Attempts.{
  StageRun, iteration, label, Attempt, Executed, stopped_early, executed, fields_or_empty,
  resumed_value, build_clarification_context_inputs, run_graph, initial_results,
}

module _ (env : Env) where
  abbrev pub dump_results : Dict NodeOutput → Fields
  dump_results [] = end
  dump_results ((nid, out) ∷ rs) = field nid (env.dump_output out) (dump_results rs)

  abbrev pub stage_fields : StageRun → Fields → Fields
  stage_fields sr rest = field "runbook_id" (str sr.runbook_id) (
      field "metadata" (obj sr.metadata)
        (field "stage_id" (str sr.stage.stage_id) (field "stage_index" (nat sr.stage_index) rest)))

  abbrev pub mid_fields : StageRun → Attempt → ExecutionOutcome → Fields → Fields
  mid_fields sr a o snapshot = stage_fields sr (
      field "pending_node_ids" (text_list o.pending) (
        field "plan_id" (str a.graph.metadata.plan_id) (
          field "stage_retry_count" (nat a.retry_count) (
            field "gate_snapshot" (obj snapshot) (
              field "completed_node_results" (obj (dump_results o.results))
                (field "planned_graph" (obj (env.dump_graph a.graph)) end))))))

  abbrev pub full_checkpoint : StageRun → Attempt → ExecutionOutcome → Action (Unit {0})
  full_checkpoint sr a o = do
    snapshot ←
        try_call (build_gate_snapshot env.json_loads env.as_verdict o.results sr.stage.success_gate)
    write_checkpoint env (nat (iteration sr)) "paused_mid_execute" (mid_fields sr a o snapshot)

  abbrev pub mode_text : InterruptMode → String
  mode_text graceful = "graceful"
  mode_text immediate = "immediate"

  unfoldable pub on_pause : StageRun → Attempt → ExecutionOutcome → Action (Unit {0})
  on_pause sr a o = do
    full_checkpoint sr a o
    move_to RunState.paused "User command: pause (mid-execution)"
    update_run_state RunState.paused
    record_control_decision env "pause" end

  unfoldable pub stop_checkpoint :
      StageRun → Attempt → ExecutionOutcome → InterruptMode → Action (Unit {0})
  stop_checkpoint sr a o graceful = full_checkpoint sr a o
  stop_checkpoint sr a o immediate =
      write_checkpoint env (nat (iteration sr)) "cancelled_mid_execute" (
        stage_fields sr (
          field "plan_id" (str a.graph.metadata.plan_id)
            (field "stage_retry_count" (nat a.retry_count) end)))

  unfoldable pub on_stop : StageRun → Attempt → ExecutionOutcome → InterruptMode → Action (Unit {0})
  on_stop sr a o mode = do
    stop_checkpoint sr a o mode
    move_to RunState.cancelled "User command: stop (mid-execution)"
    update_run_state RunState.cancelled
    record_control_decision env "stop" (field "mode" (str (mode_text mode)) end)

  unfoldable pub on_command :
      StageRun → Attempt → ExecutionOutcome → InterruptMode → InterruptCommand → Action (Unit {0})
  on_command sr a o mode pause = on_pause sr a o
  on_command sr a o mode stop = on_stop sr a o mode

  -- An execution that was interrupted ends the run; the request is taken off.
  unfoldable pub on_interrupt :
      StageRun → Attempt → ExecutionOutcome → InterruptRequest → Action (Unit {0})
  on_interrupt sr a o request = do
    on_command sr a o request.mode request.command
    modify (λ w. record w { interrupt = none })

  abbrev pub planned_entry : StageRun → Attempt → Fields
  planned_entry sr a = elim sr.stage.dynamic_planner [
    | none ↦ end
    | some spec ↦ field "planned_graph" (obj (env.dump_graph a.graph)) end
  ]

  -- `stage.initial_inputs_override | builder's | clarification | verdict fix`
  abbrev pub execute_inputs : StageRun → Fields → Attempt → Fields
  execute_inputs sr builder a =
      update_fields
        (update_fields (update_fields sr.stage.initial_inputs_override builder)
          (build_clarification_context_inputs env sr.metadata))
        (fields_or_empty a.fix_override)

  -- What follows an execution that was interrupted, or was not.
  unfoldable pub close_execution :
      StageRun → Attempt → ExecutionOutcome → Option InterruptRequest → Action Executed
  close_execution sr a o (some request) = do on_interrupt sr a o request; pure stopped_early
  close_execution sr a o none = do
    snapshot ←
        try_call (build_gate_snapshot env.json_loads env.as_verdict o.results sr.stage.success_gate)
    write_checkpoint env (nat (iteration sr)) (label "after_execute_iter" sr) (
        stage_fields sr (
          field "gate_snapshot" (obj snapshot)
            (field "stage_retry_count" (nat a.retry_count) (planned_entry sr a))))
    pure (executed o.results (obj snapshot))

  unfoldable pub execute_phase : StageRun → Fields → Attempt → Action Executed
  execute_phase sr builder a = do
    set_phase IntentionPhase.execute
    initial ← try_call (initial_results env sr)
    o ← run_graph env a.graph (execute_inputs sr builder a) initial sr.stage.default_model_id
    close_execution sr a o o.interrupted

  -- The execute phase, or what the checkpoint says of it.
  unfoldable pub execute_or_skip : StageRun → Fields → Attempt → Action Executed
  execute_or_skip sr builder a =
      if a.skip_execute
      then pure (executed a.results (resumed_value "gate_snapshot" sr))
      else execute_phase sr builder a
