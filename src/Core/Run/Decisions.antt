-- ===== src/Core/Run/Decisions.antt =====
-- `get_status`, `_write_phase_checkpoint` and `_record_control_decision`. The store gives back a payload as
-- it was recorded; the recorder holds nothing that the store does not, so making a new one changes nothing.
use neuronium.Prelude.{
  String, Bool, true, false, not, Option, none, some, List, [], ◌∷◌, ◌++◌, if◌then◌else◌, str_eq,
  Result, ok, err, Error, value_error, type_error,
}
use neuronium.Prelude.Int.{pos}
use neuronium.Prelude.Text.{append, strip}
use neuronium.Prelude.Value.{
  truthy, Value, Fields, end, field, null, int, str, arr, obj, items, get_field, get_value,
  put_field,
}
use neuronium.Core.State.{AgentState, RunState, Intention}
use neuronium.Nodes.{InterruptRequest, InterruptMode}
use neuronium.Trace.Checkpoints.{latest_checkpoint, load_state, build_checkpoint_payload}
use neuronium.Core.Run.World.{
  Action, pure, gets, try_call, modify, ◌>>=◌, ◌>>◌, when, record_event, with_agent,
}
use neuronium.Core.Run.Env.{Env}

pub record RunStatus : Type 0 where
  pub state : RunState
  pub progress : Option String
  pub current_node_ref : Option String
  pub message : Option String

abbrev pub status_of : AgentState → RunStatus
status_of st = record {
  state = st.run_state;
  progress = some st.progress;
  current_node_ref = st.current_node_ref;
  message = st.message;
}

abbrev pub bare_status : RunState → Option String → RunStatus
bare_status s message = record {
  state = s;
  progress = none;
  current_node_ref = none;
  message = message;
}

-- `self._states.get(trace_id)` and what a world holds besides the agent's state.
unfoldable pub get_status : Option AgentState → Option RunState → RunStatus
get_status (some st) row = status_of st
get_status none (some s) = bare_status s none
get_status none none = bare_status RunState.failed (some "Run not found")

-- `for x in v`
abbrev pub characters : String → List Value
characters String.[] = []
characters (String.◌∷◌ c s) = str (String.◌∷◌ c String.[]) ∷ characters s

abbrev pub keys_of : Fields → List Value
keys_of end = []
keys_of (field k v fs) = str k ∷ keys_of fs

unfoldable pub iterate : Value → Result (List Value)
iterate (arr xs) = ok (items xs)
iterate (str s) = ok (characters s)
iterate (obj fs) = ok (keys_of fs)
iterate v = err type_error

-- `InterruptRequest(mode=v)`: pydantic accepts two texts.
unfoldable pub mode_of : Value → Result InterruptMode
mode_of (str s) =
    if str_eq s "graceful"
    then ok InterruptMode.graceful
    else if str_eq s "immediate"
    then ok InterruptMode.immediate
    else err value_error
mode_of v = err value_error

abbrev pub stripped_or_none : Option Value → Option String
stripped_or_none (some (str s)) = if str_eq (strip s) "" then none else some (strip s)
stripped_or_none v = none

abbrev pub request_interrupt : InterruptRequest → Action (Unit {0})
request_interrupt r = modify (λ w. record w { interrupt = some r })

abbrev pub dict_or_empty : Value → Fields
dict_or_empty (obj fs) = fs
dict_or_empty v = end

abbrev pub no_fields : Fields → Bool
no_fields end = true
no_fields (field k v fs) = false

abbrev pub text_or_none : Option Value → Option String
text_or_none (some (str s)) = some s
text_or_none v = none

abbrev pub text_value : Option String → Value
text_value none = null
text_value (some s) = str s

abbrev pub is_text_given : Option String → Bool
is_text_given none = false
is_text_given (some s) = not (str_eq s "")

abbrev pub extended : List Value → Option Intention → Option Intention
extended xs none = none
extended xs (some i) = some (record i { constraints = i.constraints ++ xs })

abbrev pub put_dict : String → Option Value → Fields → Fields
put_dict k (some (obj fs)) d = put_field k (obj fs) d
put_dict k v d = d

abbrev pub put_truthy : String → Option Value → Fields → Fields
put_truthy k none d = d
put_truthy k (some v) d = if truthy v then put_field k v d else d

abbrev pub put_conversion : Option Fields → Fields → Fields
put_conversion none d = d
put_conversion (some c) d = put_field "nl_patch_conversion" (obj c) d

-- `if state.intention and new_constraints: state.intention.constraints.extend(new_constraints)`
unfoldable pub extend_by_intention : Value → Option Intention → Action (Unit {0})
extend_by_intention v none = pure tt
extend_by_intention v (some i) = when (truthy v) (do
  xs ← try_call (iterate v)
  modify (with_agent (λ s. record s { intention = extended xs s.intention })))

unfoldable pub extend_constraints : Value → Action (Unit {0})
extend_constraints v = do st ← gets (λ w. w.agent); extend_by_intention v st.intention

module _ (env : Env) where
  -- The resume context of the latest checkpoint, or an empty one: a CheckpointError is caught.
  unfoldable pub latest_context : List Fields → Result Fields
  latest_context trace = elim (latest_checkpoint trace) [
    | err e ↦ err e
    | ok found ↦ elim found [
      | none ↦ ok end
      | some payload ↦ elim (load_state env.model_validate payload) [
        | ok (st, ctx) ↦ ok ctx
        | err e ↦ elim e [ Error.checkpoint_error ↦ ok end | other ↦ err other ]
      ]
    ]
  ]

  abbrev pub boundary_label : RunState → String
  boundary_label RunState.paused = "paused"
  boundary_label s = "after_control_command"

  -- `_write_phase_checkpoint`
  unfoldable pub write_checkpoint : Value → String → Fields → Action (Unit {0})
  write_checkpoint iteration boundary extra = do
    st ← gets (λ w. w.agent)
    record_event "checkpoint" (build_checkpoint_payload env.model_dump st iteration boundary extra)

  unfoldable pub record_control_decision : String → Fields → Action (Unit {0})
  record_control_decision cmd payload = do
    record_event "decision" (
        field "description" (str (append "control_command: " cmd))
          (field "command" (str cmd) (field "payload" (obj payload) end)))
    trace ← gets (λ w. w.trace)
    ctx ← try_call (latest_context trace)
    st ← gets (λ w. w.agent)
    write_checkpoint (get_value "iteration" (int (pos 0)) payload) (boundary_label st.run_state) (
        put_dict "metadata" (get_field "metadata" ctx) (
          put_truthy "runbook_id" (get_field "runbook_id" ctx)
            (field "control_command" (str cmd) (field "control_payload" (obj payload) end))))
