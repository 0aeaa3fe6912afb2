-- ===== src/Tests/Launches.antt =====
-- A run that is started, one that is resumed, and metadata inferred from two revise commands.
use neuronium.Prelude.{
  String, true, false, some, none, [], ◌∷◌, ◌≡◌, refl, all_of, is_some, ok, err, Error, arith, ◌⊎◌,
}
use neuronium.Prelude.Value.{Fields, nil, cons, field, arr, end, str, get_field}
use neuronium.Core.Run.World.{event}
use neuronium.Core.State.{AgentState, RunState}
use neuronium.Core.Run.Env.{ControlCommand, ControlKind}
use neuronium.Core.Run.Control.{Session}
use neuronium.Core.Run.Endings.{is_live}
use neuronium.Core.Run.Infer.{infer_runbook_metadata}
use neuronium.Core.Run.Launch.{RunRequest, NewIds, request_id, start, resume_run}
use neuronium.Core.Run.Launching.{start-Ended, resume_run-Resumed}
use neuronium.Core.Run.Oldest.{add_answer, not_revise, revise_event, infer_runbook_metadata-oldest}
use neuronium.Tests.Samples.{text_of}
use neuronium.Tests.RunSamples.{an_env, agent_in}

abbrev a_request : RunRequest
a_request = record { objective = "objective"; constraints = []; metadata = end }

abbrev some_ids : NewIds
some_ids = record { trace_id = "t"; execution_id = "e"; intention_id = "i" }

abbrev a_stop : ControlCommand
a_stop = record { kind = ControlKind.stop; payload = end }

start-Ended_example :
    let (r, w) = start an_env 3 a_request some_ids (a_stop ∷ []) in
    (w.row ≡ some w.agent.run_state)
    × (is_live w.agent.run_state ≡ false)
    × (is_some (an_env.get_runbook (request_id an_env 3 a_request)) ≡ true → r ≡ ok tt)
start-Ended_example = start-Ended an_env 3 a_request some_ids (a_stop ∷ []) refl (omega arith)

abbrev running_session : Session
running_session = record {
  memory = some (agent_in RunState.running);
  row = some RunState.running;
  interrupt = none;
  trace = [];
  executions = 0;
  plannings = 0;
}

resume_run-Resumed_example :
    let (r, s') = resume_run an_env 3 running_session in
    ((e : Error) × (r ≡ err e) × (s' ≡ running_session))
    ⊎ ((r ≡ ok tt)
        × (st : AgentState) × (s'.memory ≡ some st)
        × (s'.row ≡ some st.run_state)
        × (is_live st.run_state ≡ false)
        × (running_session.row ≡ some RunState.running))
resume_run-Resumed_example = resume_run-Resumed an_env 3 running_session refl (omega arith)

text_of_str : (s : String) → text_of (str s) ≡ s
text_of_str s = refl

-- A revise command as it is recorded: the payload has the patch and the request that is answered.
abbrev an_answer : String → Fields
an_answer text = revise_event (agent_in RunState.paused) (
    field "patch" (arr (cons (add_answer (str text)) nil))
      (field "clarification_request_artifact_id" (str "request") end))

abbrev the_start : Fields
the_start =
    event (agent_in RunState.running) "decision"
      (field "description" (str "Intention committed") (field "intention_id" (str "i") end))

no_revise : all_of (not_revise text_of) (the_start ∷ []) ≡ true
unfolding get_field
no_revise = refl

the_patch :
    get_field "patch" (
      field "patch"
        (arr (cons (add_answer (str "first")) nil))
        (field "clarification_request_artifact_id" (str "request") end))
    ≡ some (arr (cons (add_answer (str "first")) nil))
unfolding get_field
the_patch = refl

infer_runbook_metadata-oldest_example :
    get_field "answer"
      (infer_runbook_metadata text_of (the_start ∷ an_answer "first" ∷ an_answer "second" ∷ []) "r")
    ≡ some (str "first")
infer_runbook_metadata-oldest_example =
    infer_runbook_metadata-oldest text_of text_of_str (str "first") (agent_in RunState.paused)
      (field "patch" (arr (cons (add_answer (str "first")) nil))
        (field "clarification_request_artifact_id" (str "request") end))
      (the_start ∷ []) (an_answer "second" ∷ []) "r" refl the_patch no_revise
