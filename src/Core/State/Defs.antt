-- ===== src/Core/State/Defs.antt =====
-- `AgentState` and `transition_to`. The time of creation is left out. Nothing checks that a constraint
-- is a text, since `revise` extends the list by what its payload holds.
use neuronium.Prelude.{
  String, Bool, true, false, Option, none, some, List, [], ◌∷◌, if◌then◌else◌, any_of, str_eq,
  Result, ok, err, value_error,
}
use neuronium.Prelude.Value.{Value}

pub data IntentionPhase : Type 0 where
  commit execute control adapt done failed : IntentionPhase

pub data RunState : Type 0 where
  pending running paused completed failed cancelled : RunState

pub record Intention : Type 0 where
  pub intention_id : String
  pub objective : String
  pub constraints : List Value
  pub plan_id : Option String
  pub phase : IntentionPhase

pub record AgentState : Type 0 where
  pub trace_id : String
  pub execution_id : String
  pub run_state : RunState
  pub intention : Option Intention
  -- a float
  pub progress : String
  pub current_node_ref : Option String
  pub message : Option String

abbrev pub same_state : RunState → RunState → Bool
same_state RunState.pending RunState.pending = true
same_state RunState.running RunState.running = true
same_state RunState.paused RunState.paused = true
same_state RunState.completed RunState.completed = true
same_state RunState.failed RunState.failed = true
same_state RunState.cancelled RunState.cancelled = true
same_state _ _ = false

-- `valid_transitions`
unfoldable pub valid_transitions : RunState → List RunState
valid_transitions RunState.pending = RunState.running ∷ RunState.failed ∷ RunState.cancelled ∷ []
valid_transitions RunState.running =
    RunState.paused ∷ RunState.completed ∷ RunState.failed ∷ RunState.cancelled ∷ []
valid_transitions RunState.paused = RunState.running ∷ RunState.cancelled ∷ []
valid_transitions _ = []

-- `if message`: neither None nor the empty text
abbrev pub message_after : Option String → Option String → Option String
message_after none old = old
message_after (some new) old = if str_eq new "" then old else some new

unfoldable pub transition_to : RunState → Option String → AgentState → Result AgentState
transition_to new_state message st =
    if any_of (same_state new_state) (valid_transitions st.run_state)
    then ok (record st { run_state = new_state; message = message_after message st.message })
    else err value_error
