-- ===== src/Core/Run/Finished.antt =====
-- With enough fuel every run of a runbook ends.
use neuronium.Prelude.{
  ℕ, ◌+◌, ◌<◌, String, Bool, true, false, not, ◌&&◌, Option, none, some, List, [], ◌∷◌, ◌≡◌, refl,
  is_some, Dict, Result, ok, err, Error, arith, ltb,
}
use neuronium.Prelude.Value.{Fields}
use neuronium.Core.Gate.{DemoCriticVerdict}
use neuronium.Nodes.{NodeOutput}
use neuronium.Planning.Dag.{ActionGraph}
use neuronium.Core.Run.World.{World, Action, pure, raise, when}
use neuronium.Core.Run.Env.{
  Env, DynamicPlannerSpec, PlannerOutcome, planned, escalated, ActionGraphStage, BuilderContext,
  PlannerResult,
}
use neuronium.Core.Run.Attempts.{StageRun}
use neuronium.Core.Run.Verdicts.{After, leave, next, again}
use neuronium.Core.Run.Resume.{start_running, StageBuilder, resuming}
use neuronium.Core.Run.Commit.{commit_plan, commit_outcome, commit_with, commit_phase}
use neuronium.Core.Run.Runbook.{
  attempt_stage, run_stage, go_to_next, run_stages, finish_run, run_found, runbook_body, handle,
  run_runbook,
}
use neuronium.Core.Run.Endings.{is_live}
use neuronium.Core.Run.Settled.{run_runbook-Ended}
use neuronium.Core.Run.Fuel.{Enough}
use neuronium.Core.Run.Total.{
  Fueled, Total, Total-bind, Total-pure, Total-gets, Total-call, Total-if, Total-event, Total-move,
  Total-update, Total-phase, Total-intention, total_rules,
}
use neuronium.Core.Run.TotalStages.{
  Total-checkpoint, Total-planning, Total-pause_for_planner, Total-complete, Total-attempts,
}

Total-start : (b : Bool) (runbook_id : String) → Total (start_running b runbook_id)
unfolding start_running
Total-start true runbook_id = Total-pure tt
Total-start false runbook_id = Total-bind _ _ (Total-move _ _) (λ _. Total-update _)

Total-unbound : (b : Bool) → Total (when b (raise Error.unbound_local_error))
unfolding pure raise
Total-unbound true w = tt
Total-unbound false w = tt

module _ (env : Env) where
  Total-commit :
      (sr : StageRun) (answer : Option PlannerResult) (g : ActionGraph)
      → Total (commit_plan env sr answer g)
  unfolding commit_plan
  Total-commit sr answer g = search (total_rules, Total-checkpoint)

  Total-outcome : (sr : StageRun) (o : PlannerOutcome) → Total (commit_outcome env sr o)
  unfolding commit_outcome
  Total-outcome sr (escalated e) =
      Total-bind _ _ (Total-pause_for_planner env _ _ _ _ _ e) (λ _. Total-pure _)
  Total-outcome sr (planned r) = Total-bind _ _ (Total-commit sr _ _) (λ _. Total-pure _)

  Total-with :
      (sr : StageRun) (g : ActionGraph) (spec : Option DynamicPlannerSpec)
      → Total (commit_with env sr g spec)
  unfolding commit_with
  Total-with sr g none = Total-bind _ _ (Total-commit sr _ g) (λ _. Total-pure _)
  Total-with sr g (some spec) = Total-bind _ _ (Total-planning env _ _ _ spec) (Total-outcome sr)

  Total-commit_phase :
      (sr : StageRun) (skip : Bool) (g : ActionGraph) → Total (commit_phase env sr skip g)
  unfolding commit_phase
  Total-commit_phase sr skip g =
      Total-if skip _ _ (Total-pure _) (Total-bind _ _ (Total-phase _) (λ _. Total-with sr g _))

  Total-end :
      (runbook_id : String) (metadata : Fields) (n : ℕ) (x : Option (Option (Dict NodeOutput)))
      → Total (finish_run env runbook_id metadata n x)
  unfolding finish_run
  Total-end runbook_id metadata n none = Total-pure tt
  Total-end runbook_id metadata n (some bound) =
      Total-bind _ _ (Total-complete env _ _ _ _) (λ _. Total-unbound _)

  module _ (calm : env.recovery.allow_auto_replan ≡ false) (fuel : ℕ) (p : Enough env fuel) where
    Total-rest :
        (sr : StageRun) (builder : Fields) (retries : ℕ) (g : Option ActionGraph)
        → Total (attempt_stage env fuel sr builder retries g)
    unfolding attempt_stage
    Total-rest sr builder retries none = Total-pure _
    Total-rest sr builder retries (some g) =
        Total-attempts env sr fuel builder _ calm (omega (arith, p))

    Total-stage : (sr : StageRun) (ctx : BuilderContext) → Total (run_stage env fuel sr ctx)
    unfolding run_stage
    Total-stage sr ctx = Total-bind _ _ (Total-call _) λ built. Total-bind _ _ (Total-call _) λ g.
        Total-bind _ _ (Total-event _ _) λ _.
          Total-bind _ _ (Total-call _)
            λ retries. Total-bind _ _ (Total-commit_phase sr _ g) (Total-rest sr built.1 retries)

    Total-next :
        (rest : Dict NodeOutput
          → Option DemoCriticVerdict
          → Action (Option (Option (Dict NodeOutput))))
        (x : After)
        → ((results : Dict NodeOutput) (verdict : Option DemoCriticVerdict)
            → Total (rest results verdict))
        → Total (go_to_next env rest x)
    Total-next rest leave h = Total-pure _
    Total-next rest (next results verdict) h = h results verdict
    Total-next rest (again a) h = Total-pure _

    Total-stages :
        (runbook_id : String) (metadata : Fields) (ctx : Option Fields) (target index : ℕ)
        (stages : List ActionGraphStage) (b : BuilderContext) (last : Option (Dict NodeOutput))
        → Total (run_stages env fuel runbook_id metadata ctx target index stages b last)
    unfolding run_stages
    Total-stages runbook_id metadata ctx target index [] b last = Total-pure _
    Total-stages runbook_id metadata ctx target index (stage ∷ stages) b last =
        Total-if (resuming ctx && ltb index target) _ _
          (Total-stages runbook_id metadata ctx target (index + 1) stages b last)
          (Total-bind _ _ (Total-stage _ b) (λ x. Total-next _ x (λ results verdict.
            Total-stages runbook_id metadata ctx target (index + 1) stages _ _)))

    Total-found :
        (runbook_id : String) (metadata : Fields) (ctx : Option Fields) (r : Option StageBuilder)
        → Total (run_found env fuel runbook_id metadata ctx r)
    unfolding run_found
    Total-found runbook_id metadata ctx none =
        Total-bind _ _ (Total-move _ _)
          (λ _. Total-bind _ _ (Total-update _) (λ _. Total-event _ _))
    Total-found runbook_id metadata ctx (some build) =
        Total-bind _ _ (Total-start _ runbook_id) λ _. Total-bind _ _ Total-intention λ i.
          Total-bind _ _ (Total-gets _) λ st. Total-bind _ _ (Total-call _) λ stages.
            Total-bind _ _ (Total-call _) λ target.
              Total-bind _ _ (Total-stages runbook_id metadata ctx target 0 stages _ none)
                (Total-end runbook_id metadata _)

    Total-body :
        (runbook_id : String) (metadata : Fields) (ctx : Option Fields)
        → Total (runbook_body env fuel runbook_id metadata ctx)
    unfolding runbook_body
    Total-body runbook_id metadata ctx =
        Total-if (not (is_some env.injection) && not env.llm_available) _ _
          (Total-bind _ _ (Total-move _ _)
            (λ _. Total-bind _ _ (Total-update _) (λ _. Total-event _ _)))
          (Total-found runbook_id metadata ctx (env.get_runbook runbook_id))

  handled : (r : Result (Unit {0}) × World) → Fueled r → (handle env r).0 ≡ true
  unfolding handle
  handled (ok done, w) p = refl
  handled (err e, w) p = ground (arith, p)

  -- Without automatic replanning and with more fuel than the configured fixes and retries of a stage
  -- together, every run of a runbook ends, whatever raises, interrupts it, or is answered by models,
  -- planners and other threads' commands. If the run has a row in the store, its state is then neither
  -- PENDING nor RUNNING, and the row says the same.
  pub run_runbook-settles :
      (fuel : ℕ) (runbook_id : String) (metadata : Fields) (ctx : Option Fields) (w : World)
      → env.recovery.allow_auto_replan ≡ false
      → env.max_verdict_fix_attempts + env.recovery.max_stage_retries < fuel
      → is_some w.row ≡ true
      → let (ended, w') = run_runbook env fuel runbook_id metadata ctx w in
        (ended ≡ true) × (w'.row ≡ some w'.agent.run_state) × (is_live w'.agent.run_state ≡ false)
  unfolding run_runbook
  run_runbook-settles fuel runbook_id metadata ctx w calm p there =
      let ended =
        handled _
          (Total-body calm fuel p runbook_id metadata ctx (record w { interrupt = none })) in
      let settled = run_runbook-Ended env fuel runbook_id metadata ctx w there ended in
      (ended, settled.0, settled.1)
