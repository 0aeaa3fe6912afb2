-- ===== src/Core/Run/Adapt.antt =====
-- The adapt phase of a stage in `_run_runbook`, and the retry loop.
use neuronium.Prelude.{ℕ, zero, suc, out_of_fuel, ◌+◌, Option, if◌then◌else◌, Dict}
use neuronium.Nodes.{NodeOutput}
use neuronium.Prelude.Value.{Value, Fields, end, field, bool, str}
use neuronium.Core.State.{IntentionPhase}
use neuronium.Core.Gate.{DemoCriticVerdict, evaluate_gate}
use neuronium.Core.Run.World.{Action, pure, raise, try_call, ◌>>=◌, ◌>>◌, record_event, set_phase}
use neuronium.Core.Run.Env.{Env}
use neuronium.Core.Run.Planner.{nat}
use neuronium.Core.Run.Attempts.{StageRun, Attempt, Executed, stopped_early, executed, iteration}
use neuronium.Core.Run.Execute.{execute_or_skip}
use neuronium.Core.Run.Verdicts.{After, leave, next, again, snapshot_fields, control_phase}
use neuronium.Core.Run.Recover.{pass_stage, recover_stage, wants_fix, fix_stage}

module _ (env : Env) where
  -- A failed gate.
  unfoldable pub fail_stage :
      StageRun → Attempt → Dict NodeOutput → Option DemoCriticVerdict → Action After
  fail_stage sr a results verdict =
      if sr.stage.proceed_to_next_stage_on_fail
      then (do
        record_event "replan" (
            field "iteration_from" (nat (iteration sr)) (
              field "iteration_to" (nat (iteration sr + 1)) (
                field "reason" (str "proceed_to_next_stage_on_fail") (
                  field "stage_id" (str sr.stage.stage_id)
                    (field "runbook_id" (str sr.runbook_id) end)))))
        pure (next results verdict))
      else if wants_fix env sr a verdict
      then fix_stage env sr a results verdict
      else recover_stage env sr a results verdict

  unfoldable pub adapt_phase :
      StageRun → Attempt → Dict NodeOutput → Value → Option DemoCriticVerdict → Action After
  adapt_phase sr a results snapshot verdict = do
    set_phase IntentionPhase.adapt
    found ← try_call (snapshot_fields snapshot)
    let passed = evaluate_gate results sr.stage.success_gate verdict found
    record_event "stage_end" (
        field "stage_id" (str sr.stage.stage_id) (
          field "stage_index" (nat sr.stage_index) (
            field "runbook_id" (str sr.runbook_id) (
              field "success" (bool passed) (
                field "reason"
                  (str (if passed then "quality gate passed" else "quality gate failed")) end)))))
    if passed then pass_stage env sr results verdict else fail_stage sr a results verdict

  unfoldable pub judge : StageRun → Attempt → Executed → Action After
  judge sr a stopped_early = pure leave
  judge sr a (executed results snapshot) = do
    verdict ← control_phase env sr a results snapshot
    adapt_phase sr a results snapshot verdict

  -- One pass: execute, control, adapt.
  unfoldable pub attempt_once : StageRun → Fields → Attempt → Action After
  attempt_once sr builder a = do done ← execute_or_skip env sr builder a; judge sr a done

  -- How the loop goes on after a pass.
  abbrev pub go_round : (Attempt → Action After) → After → Action After
  go_round rest leave = pure leave
  go_round rest (next results verdict) = pure (next results verdict)
  go_round rest (again a) = rest a

  -- `while True`
  unfoldable pub attempts : ℕ → StageRun → Fields → Attempt → Action After
  attempts zero sr builder a = raise out_of_fuel
  attempts (suc fuel) sr builder a =
      attempt_once sr builder a >>= go_round (λ a'. attempts fuel sr builder a')
