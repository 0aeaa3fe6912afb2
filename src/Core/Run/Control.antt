-- ===== src/Core/Run/Control.antt =====
-- `apply_control`. The row in the lineage table that `revise` may write is left out.
use neuronium.Prelude.{
  String, not, ◌||◌, Option, none, some, List, [], ◌∷◌, is_empty, if◌then◌else◌, str_eq, Result, ok,
  err, ℕ,
}
use neuronium.Prelude.Text.{strip}
use neuronium.Prelude.Value.{
  Value, Fields, nil, end, field, null, str, arr, obj, of_items, get_field, get_value, put_field,
}
use neuronium.Core.State.{AgentState, RunState, IntentionPhase}
use neuronium.Nodes.{InterruptRequest, InterruptMode, InterruptCommand}
use neuronium.Trace.Checkpoints.{latest_checkpoint, load_state}
use neuronium.Core.Run.World.{
  World, Action, gets, try_call, ◌>>=◌, ◌>>◌, move_to, update_run_state, set_phase_if,
}
use neuronium.Core.Run.Env.{Env, ControlKind, ControlCommand}
use neuronium.Core.Run.Answers.{normalise_patch_ops, legacy_answers_to_patch}
use neuronium.Core.Run.Decisions.{
  RunStatus, bare_status, get_status, mode_of, stripped_or_none, request_interrupt, dict_or_empty,
  no_fields, text_or_none, text_value, is_text_given, put_conversion, extend_constraints,
  record_control_decision,
}

module _ (env : Env) where
  unfoldable pub pause_command : Fields → Action (Unit {0})
  pause_command payload = do
    request_interrupt (record {
      command = InterruptCommand.pause;
      mode = InterruptMode.graceful;
      export_path = none;
    })
    move_to RunState.paused "User command: pause"
    update_run_state RunState.paused
    record_control_decision env "pause" payload

  unfoldable pub continue_command : Fields → Action (Unit {0})
  continue_command payload = do
    move_to RunState.running "User command: continue"
    update_run_state RunState.running
    record_control_decision env "continue" payload

  unfoldable pub stop_command : Fields → Action (Unit {0})
  stop_command payload = do
    mode ← try_call (mode_of (get_value "mode" (str "graceful") payload))
    request_interrupt (record {
      command = InterruptCommand.stop;
      mode = mode;
      export_path = stripped_or_none (get_field "export_path" payload);
    })
    move_to RunState.cancelled "User command: stop"
    update_run_state RunState.cancelled
    record_control_decision env "stop" payload

  unfoldable pub replan_command : Fields → Action (Unit {0})
  replan_command payload = do
    set_phase_if IntentionPhase.adapt
    record_control_decision env "replan" payload

  unfoldable pub escalate_command : Fields → Action (Unit {0})
  escalate_command payload = do
    move_to RunState.paused "User command: escalate"
    update_run_state RunState.paused
    record_control_decision env "escalate" payload

  -- The patch operations of a `revise` payload, and the report of a conversion by the model.
  unfoldable pub revise_patch :
      AgentState → Fields → Option String → String → List Value × Option Fields
  revise_patch st payload answer_text request_id =
      let answers = dict_or_empty (get_value "answers" (obj end) payload) in
      let given = normalise_patch_ops (get_value "patch" null payload) in
      if not (is_empty given)
      then (given, none)
      else if not (no_fields answers)
      then (legacy_answers_to_patch answers, none)
      else elim answer_text [
        | none ↦ ([], none)
        | some text ↦
            if str_eq text ""
            then ([], none)
            else (let (ops, report) = env.convert_nl_answer st text request_id in
                (ops, some report))
      ]

  abbrev pub response_of : Fields → String → List Value → Option String → Option Fields → Fields
  response_of answers request_id ops answer_text conversion = put_conversion conversion (
      if no_fields answers
      then field "request_artifact_id" (str request_id)
          (field "patch" (arr (of_items ops)) (field "answer_text" (text_value answer_text) end))
      else field "request_artifact_id" (str request_id) (
          field "patch" (arr (of_items ops)) (
            field "answer_text" (text_value answer_text)
              (field "legacy_answers" (obj answers) end))))

  unfoldable pub revise_command : Fields → Action (Unit {0})
  revise_command payload = do
    set_phase_if IntentionPhase.adapt
    extend_constraints (get_value "constraints_add" (arr nil) payload)
    st ← gets (λ w. w.agent)
    let answers = dict_or_empty (get_value "answers" (obj end) payload)
    let answer_text = text_or_none (get_field "answer_text" payload)
    let request_id =
        strip (env.str_of (get_value "clarification_request_artifact_id" (str "") payload))
    let (ops, conversion) = revise_patch st payload answer_text request_id
    let decision = put_conversion conversion (put_field "patch" (arr (of_items ops)) payload)
    if not (no_fields answers) || is_text_given answer_text || not (is_empty ops)
        then (do
          response ←
              try_call
                (env.persist_response (response_of answers request_id ops answer_text conversion))
          record_control_decision env "revise"
              (put_field "clarification_response_artifact_id" (str response) decision))
        else record_control_decision env "revise" decision

  unfoldable pub run_command : ControlCommand → Action (Unit {0})
  run_command cmd = elim cmd.kind [
    | ControlKind.pause ↦ pause_command cmd.payload
    | ControlKind.continue_run ↦ continue_command cmd.payload
    | ControlKind.stop ↦ stop_command cmd.payload
    | ControlKind.replan ↦ replan_command cmd.payload
    | ControlKind.revise ↦ revise_command cmd.payload
    | ControlKind.escalate ↦ escalate_command cmd.payload
  ]

  -- Commands of another thread: what one raises goes to that thread, what it changed stays changed.
  unfoldable pub run_commands : List ControlCommand → World → World
  run_commands [] w = w
  run_commands (c ∷ cs) w = run_commands cs (run_command c w).1

-- The orchestrator's memory of one trace id, and the store.
pub record Session : Type 0 where
  pub memory : Option AgentState
  pub row : Option RunState
  pub interrupt : Option InterruptRequest
  pub trace : List Fields
  pub executions : ℕ
  pub plannings : ℕ

abbrev pub enter : AgentState → Session → World
enter st s = record {
  agent = st;
  row = s.row;
  interrupt = s.interrupt;
  trace = s.trace;
  executions = s.executions;
  plannings = s.plannings;
}

abbrev pub leave : World → Session
leave w = record {
  memory = some w.agent;
  row = w.row;
  interrupt = w.interrupt;
  trace = w.trace;
  executions = w.executions;
  plannings = w.plannings;
}

-- `return self.get_status(trace_id)`, if nothing was raised
abbrev pub control_done : Result (Unit {0}) × World → Result RunStatus × Session
control_done (ok done, w) = (ok (get_status (some w.agent) w.row), leave w)
control_done (err e, w) = (err e, leave w)

module _ (env : Env) where
  abbrev pub control_in : ControlCommand → World → Result RunStatus × Session
  control_in cmd w = control_done (run_command env cmd w)

  -- A state that is not in memory is restored from the latest checkpoint first.
  unfoldable pub apply_control : ControlCommand → Session → Result RunStatus × Session
  apply_control cmd s = elim s.memory [
    | some st ↦ control_in cmd (enter st s)
    | none ↦ elim (latest_checkpoint s.trace) [
      | err e ↦ (err e, s)
      | ok found ↦ elim found [
        | none ↦ elim s.row [
          | none ↦ (ok (bare_status RunState.failed (some "Run not found")), s)
          | some state ↦ (ok (bare_status state (some "No checkpoint for control")), s)
        ]
        | some payload ↦ elim (load_state env.model_validate payload) [
          | err e ↦ (err e, s)
          | ok (st, ctx) ↦ control_in cmd (enter st s)
        ]
      ]
    ]
  ]
