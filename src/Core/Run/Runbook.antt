-- ===== src/Core/Run/Runbook.antt =====
-- `_run_runbook`: one stage, the loop over the stages, and the handler of exceptions.
use Prim.Native.String.{String}
use neuronium.Core.Run.Env.{Env, ActionGraphStage, BuilderContext}
use neuronium.Core.Run.Planner.{nat, need_intention}
use neuronium.Planning.Dag.{ActionGraph}
use neuronium.Prelude.Value.{Value, Fields, end, field, str, obj}
use neuronium.Prelude.{
  map, ℕ, zero, suc, ◌+◌, Bool, true, false, not, ◌&&◌, ◌||◌, Option, none, some, List, [], ◌∷◌,
  length, ltb, nat_eq, is_empty, if◌then◌else◌, str_eq, Dict, Result, ok, err, Error, value_error,
  type_error, attribute_error, or_raise,
}
use neuronium.Prelude
use neuronium.Prelude.Text.{append}
use neuronium.Core.State.{RunState, AgentState}
use neuronium.Core.Gate.{DemoCriticVerdict}
use neuronium.Nodes.{NodeOutput}
use neuronium.Core.Run.World.{
  World, Action, pure, raise, gets, try_call, ◌>>=◌, ◌>>◌, when, record_event, record_decision,
  move_to, update_run_state, with_agent,
}
use neuronium.Core.Run.Attempts.{StageRun, Attempt}
use neuronium.Core.Run.Verdicts.{After, leave, next}
use neuronium.Core.Run.Recover.{complete_run}
use neuronium.Core.Run.Adapt.{attempts}
use neuronium.Core.Run.Resume.{
  resuming, resume_index, Skips, skips, start_retry_count, start_running, StageBuilder,
}
use neuronium.Core.Run.Commit.{stage_graph, commit_phase}

module _ (env : Env) where
  abbrev pub first_attempt : ActionGraph → Skips → ℕ → Attempt
  first_attempt g s retries = record {
    graph = g;
    skip_execute = s.execute;
    skip_control = s.control;
    results = [];
    verdict = none;
    retry_count = retries;
    fix_attempts = 0;
    fix_override = none;
    history = [];
  }

  unfoldable pub attempt_stage : ℕ → StageRun → Fields → ℕ → Option ActionGraph → Action After
  attempt_stage fuel sr builder retries none = pure leave
  attempt_stage fuel sr builder retries (some g) =
      attempts env fuel sr builder (first_attempt g (skips sr) retries)

  -- One stage.
  unfoldable pub run_stage : ℕ → StageRun → BuilderContext → Action After
  run_stage fuel sr ctx = do
    let s = skips sr
    built ← try_call (stage_graph env sr s.commit ctx)
    g ← try_call (or_raise built.0 attribute_error)
    record_event "stage_start" (
        field "stage_id" (str sr.stage.stage_id) (
          field "stage_index" (nat sr.stage_index) (
            field "runbook_id" (str sr.runbook_id) (field "plan_id" (str g.metadata.plan_id) end))))
    retries ← try_call (start_retry_count sr)
    committed ← commit_phase env sr s.commit g
    attempt_stage fuel sr built.1 retries committed

  abbrev pub resume_here : Option Fields → ℕ → ℕ → Option Fields
  resume_here ctx target index = if resuming ctx && nat_eq index target then ctx else none

  -- The next stage, if there is one to come.
  abbrev pub go_to_next :
      (Dict NodeOutput → Option DemoCriticVerdict → Action (Option (Option (Dict NodeOutput))))
      → After
      → Action (Option (Option (Dict NodeOutput)))
  go_to_next rest (next results verdict) = rest results verdict
  go_to_next rest _ = pure none

  abbrev pub stage_run : String → Fields → Option Fields → ℕ → ℕ → ActionGraphStage → StageRun
  stage_run runbook_id metadata resume_ctx target index stage = record {
    stage = stage;
    stage_index = index;
    runbook_id = runbook_id;
    metadata = metadata;
    resume = resume_here resume_ctx target index;
  }

  -- `for stage_index, stage in enumerate(stages)`: the local variable `results` after the loop, which is
  -- unbound if no stage has run, or `none` if a stage has ended the run.
  unfoldable pub run_stages :
      ℕ
      → String
      → Fields
      → Option Fields
      → ℕ
      → ℕ
      → List ActionGraphStage
      → BuilderContext
      → Option (Dict NodeOutput)
      → Action (Option (Option (Dict NodeOutput)))
  run_stages fuel runbook_id metadata resume_ctx target index [] ctx last = pure (some last)
  run_stages fuel runbook_id metadata resume_ctx target index (stage ∷ stages) ctx last =
      if resuming resume_ctx && ltb index target
      then run_stages fuel runbook_id metadata resume_ctx target (index + 1) stages ctx last
      else run_stage fuel (stage_run runbook_id metadata resume_ctx target index stage) ctx
        >>= go_to_next (λ results verdict.
          run_stages fuel runbook_id metadata resume_ctx target (index + 1) stages
            (record ctx { prev_stage_results = results; prev_stage_verdict = verdict })
            (some results))

  -- All stages have passed.
  unfoldable pub finish_run :
      String → Fields → ℕ → Option (Option (Dict NodeOutput)) → Action (Unit {0})
  finish_run runbook_id metadata count none = pure tt
  finish_run runbook_id metadata count (some bound) = do
    complete_run env (append runbook_id ": all stages passed") count
        (field "runbook_id" (str runbook_id) (field "metadata" (obj metadata) end))
        (Prelude.or_else bound [])
    when (not (Prelude.is_some bound)) (raise Error.unbound_local_error)

  abbrev pub context_of : AgentState → String → List Value → Fields → BuilderContext
  context_of st objective constraints metadata = record {
    objective = objective;
    constraints = constraints;
    prev_stage_results = [];
    prev_stage_verdict = none;
    execution_id = st.execution_id;
    metadata = metadata;
  }

  -- The run of a runbook that was found, or not.
  unfoldable pub run_found :
      ℕ → String → Fields → Option Fields → Option StageBuilder → Action (Unit {0})
  run_found fuel runbook_id metadata resume_ctx none = do
    move_to RunState.failed (append "Runbook not found: " (env.repr runbook_id))
    update_run_state RunState.failed
    record_event "error"
        (field "error" (str (append "Runbook not found: " (env.repr runbook_id))) end)
  run_found fuel runbook_id metadata resume_ctx (some build_stages) = do
    start_running (resuming resume_ctx) runbook_id
    i ← need_intention
    st ← gets (λ w. w.agent)
    stages ← try_call (build_stages i.objective i.constraints metadata st.execution_id)
    target ← try_call (resume_index resume_ctx)
    last ←
        run_stages fuel runbook_id metadata resume_ctx target 0 stages
          (context_of st i.objective i.constraints metadata) none
    finish_run runbook_id metadata (length stages) last

  -- The body of the `try`.
  unfoldable pub runbook_body : ℕ → String → Fields → Option Fields → Action (Unit {0})
  runbook_body fuel runbook_id metadata resume_ctx =
      if Prelude.not (Prelude.is_some env.injection) && not env.llm_available
      then (do
        move_to RunState.failed "LLM unavailable (strict_fail)"
        update_run_state RunState.failed
        record_decision "strict_fail: LLM unavailable" end)
      else run_found fuel runbook_id metadata resume_ctx (env.get_runbook runbook_id)

  -- `except Exception`: FAILED, if need be by force.
  unfoldable pub on_exception : Error → World → World
  on_exception e w =
      let message = env.error_text e in
      let (r, w1) = move_to RunState.failed message w in
      let w2 : World = elim r [
        | ok done ↦ w1
        | err refused ↦
            with_agent (λ st. record st { run_state = RunState.failed; message = some message }) w1
      ] in
      (record_event "error" (field "error" (str message) end)
        (update_run_state RunState.failed w2).1).1

  -- The `except` clause; `false` means that the fuel of the retry loop ran out.
  unfoldable pub handle : Result (Unit {0}) × World → Bool × World
  handle (ok done, w) = (true, w)
  handle (err Error.out_of_fuel, w) = (false, w)
  handle (err e, w) = (true, on_exception e w)

  -- `_run_runbook`
  unfoldable pub run_runbook : ℕ → String → Fields → Option Fields → World → Bool × World
  run_runbook fuel runbook_id metadata resume_ctx w =
      handle (runbook_body fuel runbook_id metadata resume_ctx (record w { interrupt = none }))
