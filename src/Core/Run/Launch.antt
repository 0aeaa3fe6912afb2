-- ===== src/Core/Run/Launch.antt =====
-- `start`, `replay` and `resume_run`. The new ids are given, and a runbook id in a request's metadata or
-- in a resume context is a text. `on_handle_ready` gives the handle to another thread, whose commands
-- are `ready`.
use neuronium.Prelude.{
  String, Bool, true, false, Option, none, some, List, [], ℕ, Result, ok, err, Error,
  checkpoint_error, replay_error, if◌then◌else◌, str_eq,
}
use neuronium.Prelude.Text.{append}
use neuronium.Prelude.Value.{
  Value, Fields, end, field, null, bool, str, arr, obj, of_items, get_value, put_field, is_null,
}
use neuronium.Core.State.{AgentState, RunState, IntentionPhase}
use neuronium.Trace.Checkpoints.{latest_checkpoint, load_state}
use neuronium.Core.Run.World.{
  World, Action, gets, try_call, modify, ◌>>=◌, ◌>>◌, record_event, record_decision, move_to,
  update_run_state,
}
use neuronium.Core.Run.Env.{Env, ControlCommand}
use neuronium.Core.Run.Decisions.{latest_context}
use neuronium.Core.Run.Control.{run_commands, Session, enter, leave}
use neuronium.Core.Run.Resume.{StageBuilder}
use neuronium.Core.Run.Runbook.{run_runbook}
use neuronium.Core.Run.Infer.{infer_runbook_id, infer_runbook_metadata}

pub record RunRequest : Type 0 where
  pub objective : String
  pub constraints : List Value
  pub metadata : Fields

pub record NewIds : Type 0 where
  pub trace_id : String
  pub execution_id : String
  pub intention_id : String

-- A new state, with its row in the store.
abbrev pub new_world : NewIds → String → List Value → World
new_world ids objective constraints = record {
  agent = record {
    trace_id = ids.trace_id;
    execution_id = ids.execution_id;
    run_state = RunState.pending;
    intention = some (record {
      intention_id = ids.intention_id;
      objective = objective;
      constraints = constraints;
      plan_id = none;
      phase = IntentionPhase.commit;
    });
    progress = "0.0";
    current_node_ref = none;
    message = none;
  };
  row = some RunState.pending;
  interrupt = none;
  trace = [];
  executions = 0;
  plannings = 0;
}

-- `ctx.get("runbook_id")`, if it is not falsy
abbrev pub given_id : Fields → Option String
given_id fs = elim (get_value "runbook_id" null fs) [
  | str s ↦ if str_eq s "" then none else some s
  | _ ↦ none
]

abbrev pub chosen_id : Option String → Option String → String
chosen_id (some id) found = id
chosen_id none (some id) = if str_eq id "" then "autofix_demo" else id
chosen_id none none = "autofix_demo"

abbrev pub finished : Bool × World → Result (Unit {0}) × World
finished (true, w) = (ok tt, w)
finished (false, w) = (err Error.out_of_fuel, w)

abbrev pub dict_at : String → Fields → Option Fields
dict_at key fs = elim (get_value key null fs) [ obj d ↦ some d | _ ↦ none ]

-- `for k, v in inferred.items(): if v is not None: metadata[k] = v`
abbrev pub overlay : Fields → Fields → Fields
overlay metadata end = metadata
overlay metadata (field k v fs) =
    overlay (if is_null v then metadata else put_field k v metadata) fs

module _ (env : Env) (fuel : ℕ) where
  unfoldable pub run_action : String → (List Fields → Fields) → Option Fields → Action (Unit {0})
  run_action runbook_id metadata ctx w =
      finished (run_runbook env fuel runbook_id (metadata w.trace) ctx w)

  -- The run, or FAILED if there is no such runbook.
  unfoldable pub dispatch :
      String
      → String
      → (List Fields → Fields)
      → Option Fields
      → Option StageBuilder
      → Action (Unit {0})
  dispatch runbook_id suffix metadata ctx (some build) = run_action runbook_id metadata ctx
  dispatch runbook_id suffix metadata ctx none = do
    move_to RunState.failed (append "Unknown runbook_id=" (append (env.repr runbook_id) suffix))
    update_run_state RunState.failed
    record_event "error" (
        field "error" (str (append "Unknown runbook_id=" (append (env.repr runbook_id) suffix)))
          end)

-- Without a replay provider.
abbrev pub live : Env → Env
live env = record env { injection = none; replay_catalog_hash = none }

module _ (env : Env) (fuel : ℕ) where
  abbrev pub request_id : RunRequest → String
  request_id request = chosen_id (given_id request.metadata) none

  unfoldable pub start : RunRequest → NewIds → List ControlCommand → Result (Unit {0}) × World
  start request ids ready =
      (do
        record_decision "Intention committed" (
            field "objective" (str request.objective)
              (field "constraints" (arr (of_items request.constraints)) end))
        record_decision "Runbook selected" (field "runbook_id" (str (request_id request)) end)
        modify (run_commands env ready)
        dispatch (live env) fuel (request_id request) "" (λ trace. request.metadata) none
            (env.get_runbook (request_id request)))
        (new_world ids request.objective request.constraints)

  abbrev pub replay_metadata : List Fields → Fields → String → List Fields → Fields
  replay_metadata events ctx runbook_id trace = elim (dict_at "metadata" ctx) [
    | some fs ↦ fs
    | none ↦ infer_runbook_metadata env.str_of events runbook_id
  ]

  abbrev pub replay_chosen : List Fields → Fields → String
  replay_chosen events ctx = chosen_id (given_id ctx) (infer_runbook_id env.str_of events)

  -- The rest of a replay, after the resume context of the original run.
  unfoldable pub replay_from : String → List Fields → Fields → Action (Unit {0})
  replay_from original events ctx = do
    record_decision "Runbook selected (replay)" (
        field "runbook_id" (str (replay_chosen events ctx))
          (field "replay_of_trace_id" (str original) end))
    dispatch env fuel (replay_chosen events ctx) " (replay)"
        (replay_metadata events ctx (replay_chosen events ctx)) none
        (env.get_runbook (replay_chosen events ctx))

  -- The objective of the original run and its events are what the store has; the environment has the
  -- injection of the replay provider.
  unfoldable pub replay :
      String → Option String → List Fields → NewIds → Result (Unit {0}) × Option World
  replay original none events ids = (err replay_error, none)
  replay original (some objective) events ids =
      let (r, w) =
        (do
          record_decision "Replay started"
              (field "replay_of_trace_id" (str original) (field "strict" (bool true) end))
          ctx ← try_call (latest_context env events)
          replay_from original events ctx)
          (new_world ids objective []) in
      (r, some w)

  abbrev pub resume_metadata : Fields → String → List Fields → Fields
  resume_metadata ctx runbook_id trace =
      let found = infer_runbook_metadata env.str_of trace runbook_id in
      elim (dict_at "metadata" ctx) [ none ↦ found | some fs ↦ overlay fs found ]

  -- The rest of a resumption, after the choice of the runbook.
  unfoldable pub resume_with : Fields → String → Action (Unit {0})
  resume_with ctx runbook_id = do
    record_decision "Runbook selected (resume)" (field "runbook_id" (str runbook_id) end)
    dispatch (live env) fuel runbook_id " (resume)" (resume_metadata ctx runbook_id) (some ctx)
        (env.get_runbook runbook_id)

  unfoldable pub resume_loaded : Fields → Action (Unit {0})
  resume_loaded ctx = do
    record_decision "Resume from checkpoint" (
        field "phase_boundary" (get_value "phase_boundary" null ctx)
          (field "iteration" (get_value "iteration" null ctx) end))
    trace ← gets (λ w. w.trace)
    resume_with ctx (chosen_id (given_id ctx) (infer_runbook_id env.str_of trace))

  abbrev pub left_behind : Result (Unit {0}) × World → Result (Unit {0}) × Session
  left_behind (r, w) = (r, leave w)

  -- The state of the checkpoint is taken, but for its run state.
  abbrev pub resume_found : Session → Result (AgentState × Fields) → Result (Unit {0}) × Session
  resume_found s (err e) = (err e, s)
  resume_found s (ok (st, ctx)) =
      left_behind (resume_loaded ctx (enter (record st { run_state = RunState.running }) s))

  abbrev pub resume_latest : Session → Result (Option Fields) → Result (Unit {0}) × Session
  resume_latest s (err e) = (err e, s)
  resume_latest s (ok none) = (err checkpoint_error, s)
  resume_latest s (ok (some payload)) = resume_found s (load_state env.model_validate payload)

  -- `self.index_store.get_run(trace_id)` has to say RUNNING.
  abbrev pub resume_row : Session → Option RunState → Result (Unit {0}) × Session
  resume_row s (some RunState.running) = resume_latest s (latest_checkpoint s.trace)
  resume_row s row = (err checkpoint_error, s)

  unfoldable pub resume_run : Session → Result (Unit {0}) × Session
  resume_run s = resume_row s s.row
