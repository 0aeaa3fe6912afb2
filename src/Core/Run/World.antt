-- ===== src/Core/Run/World.antt =====
-- What a run of the orchestrator keeps and changes: the agent's state, the row of the run in the index
-- store, its pending interrupt, and the events of its trace. An action returns a value or raises, and
-- what it has changed stays changed. The time stamps and span ids of events are left out.
use neuronium.Prelude.{
  ℕ, String, Bool, true, false, Option, none, some, List, [], ◌∷◌, ◌++◌, Result, ok, err, Error,
}
use neuronium.Prelude.Value.{Fields, end, field, str, obj}
use neuronium.Core.State.{AgentState, RunState, Intention, IntentionPhase, transition_to}
use neuronium.Nodes.{InterruptRequest}

pub record World : Type 0 where
  pub agent : AgentState
  -- `runs.state` for the trace id of the run, if it has a row
  pub row : Option RunState
  -- `self._interrupt_requests.get(trace_id)`
  pub interrupt : Option InterruptRequest
  pub trace : List Fields
  -- how many graphs have been executed, and how often a planner has been asked
  pub executions : ℕ
  pub plannings : ℕ

abbrev pub Action {ℓ} : Type ℓ → Type ℓ
Action A = World → Result A × World

module _ {ℓ} {A : Type ℓ} where
  unfoldable pub pure : A → Action A
  pure a w = (ok a, w)

  unfoldable pub raise : Error → Action A
  raise e w = (err e, w)

  unfoldable pub gets : (World → A) → Action A
  gets f w = (ok (f w), w)

  -- An exception of the code: running out of fuel is none.
  abbrev pub raised : Error → Result A
  raised Error.out_of_fuel = err Error.runtime_error
  raised e = err e

  abbrev pub called : Result A → Result A
  called (ok a) = ok a
  called (err e) = raised e

  -- A call that changes nothing and may raise.
  unfoldable pub try_call : Result A → Action A
  try_call r w = (called r, w)

unfoldable pub modify : (World → World) → Action (Unit {0})
modify f w = (ok tt, f w)

-- The rest of a block, after a statement: an exception leaves the block.
abbrev pub go_on {ℓ κ} :
    {A : Type ℓ} {B : Type κ} → Result A × World → (A → Action B) → Result B × World
go_on (ok a, w) f = f a w
go_on (err e, w) f = (err e, w)

infixl 5 ◌>>=◌ ◌>>◌
unfoldable pub ◌>>=◌ {ℓ κ} : {A : Type ℓ} {B : Type κ} → Action A → (A → Action B) → Action B
◌>>=◌ m f w = go_on (m w) f

abbrev pub ◌>>◌ {ℓ} : {B : Type ℓ} → Action (Unit {0}) → Action B → Action B
m >> k = m >>= λ _. k

abbrev pub when : Bool → Action (Unit {0}) → Action (Unit {0})
when true m = m
when false m = pure tt

abbrev pub event : AgentState → String → Fields → Fields
event agent kind payload =
    field "trace_id" (str agent.trace_id)
      (field "kind" (str kind) (field "payload" (obj payload) end))

-- `recorder.record(kind, payload)`; it is stored at once
unfoldable pub record_event : String → Fields → Action (Unit {0})
record_event kind payload w =
    (ok tt, record w { trace = w.trace ++ event w.agent kind payload ∷ [] })

-- `state.transition_to(target, message)`
unfoldable pub move_to : RunState → String → Action (Unit {0})
move_to target message w = elim (transition_to target (some message) w.agent) [
  | ok agent ↦ (ok tt, record w { agent = agent })
  | err e ↦ (err e, w)
]

abbrev pub set_row : RunState → Option RunState → Option RunState
set_row s none = none
set_row s (some old) = some s

-- `index_store.update_run_state(trace_id, s)`; it changes no row if there is none
unfoldable pub update_run_state : RunState → Action (Unit {0})
update_run_state s w = (ok tt, record w { row = set_row s w.row })

abbrev pub with_phase : IntentionPhase → Option Intention → Option Intention
with_phase p none = none
with_phase p (some i) = some (record i { phase = p })

abbrev pub with_agent : (AgentState → AgentState) → World → World
with_agent f w = record w { agent = f w.agent }

-- `if state.intention: state.intention.phase = p`
unfoldable pub set_phase_if : IntentionPhase → Action (Unit {0})
set_phase_if p = modify (with_agent (λ st. record st { intention = with_phase p st.intention }))

-- `state.intention.phase = p`
unfoldable pub set_phase : IntentionPhase → Action (Unit {0})
set_phase p w = elim w.agent.intention [
  | none ↦ (err Error.attribute_error, w)
  | some i ↦ (ok tt, with_agent (λ st. record st { intention = some (record i { phase = p }) }) w)
]

-- `recorder.record_decision(description, details)`, less its `decisionRecord`
abbrev pub record_decision : String → Fields → Action (Unit {0})
record_decision description details =
    record_event "decision" (field "description" (str description) details)

unfoldable pub record_all : List (String × Fields) → Action (Unit {0})
record_all [] = pure tt
record_all ((kind, payload) ∷ es) = record_event kind payload >> record_all es

abbrev pub set_plan : String → Option Intention → Option Intention
set_plan plan_id none = none
set_plan plan_id (some i) = some (record i { plan_id = some plan_id })
