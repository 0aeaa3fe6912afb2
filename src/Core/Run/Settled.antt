-- ===== src/Core/Run/Settled.antt =====
-- However a run of a runbook goes, it ends with the state and its row in the store at the same final or
-- paused state.
use neuronium.Prelude.{
  ℕ, ◌+◌, String, Bool, true, false, not, ◌&&◌, Option, none, some, List, [], ◌∷◌, ◌≡◌, refl,
  is_some, Dict, Result, ok, err, Error, arith, ltb,
}
use neuronium.Prelude.Value.{Fields}
use neuronium.Core.State.{RunState, transition_to}
use neuronium.Core.Gate.{DemoCriticVerdict}
use neuronium.Nodes.{NodeOutput}
use neuronium.Planning.Dag.{ActionGraph}
use neuronium.Core.Run.World.{World, Action, pure, move_to, update_run_state, record_event}
use neuronium.Core.Run.Env.{
  Env, DynamicPlannerSpec, PlannerOutcome, planned, escalated, ActionGraphStage, BuilderContext,
  PlannerResult,
}
use neuronium.Core.Run.Attempts.{StageRun}
use neuronium.Core.Run.Verdicts.{After, leave, next, again}
use neuronium.Core.Run.Resume.{start_running, StageBuilder, resuming}
use neuronium.Core.Run.Commit.{commit_plan, commit_outcome, commit_with, commit_phase}
use neuronium.Core.Run.Runbook.{
  attempt_stage, run_stage, go_to_next, run_stages, finish_run, run_found, runbook_body,
  on_exception, handle, run_runbook,
}
use neuronium.Core.Run.Rules.{
  Pred, On, HasRow, Post, Does, Steady, Keeps, bind, Steady-bind, Steady-modify, Steady-call,
  Steady-pure, Steady-event, Steady-gets, Steady-when, Steady-raise, Steady-phase,
}
use neuronium.Core.Run.Commands.{Steady-checkpoint}
use neuronium.Core.Run.Endings.{
  is_live, Ended, Over, Ends, Leads, Leads-bind, Leads-Steady, goes, Leads-if, Ends-Steady, keeps,
  Ends-over, Steady-intention, Steady-planning, pause_for_planner-Ends, there,
}
use neuronium.Core.Run.Stages.{attempts-Over, complete-Ended}

-- A commit phase that gives no graph has paused the run.
abbrev Committed : Option ActionGraph → Pred
Committed none = Ended
Committed (some g) = HasRow

Leads-committed : (g : ActionGraph) → Leads Committed (pure (some g))
unfolding pure
Leads-committed g w p = p

Ends-committed : Ends Committed (pure none)
unfolding pure
Ends-committed w p = p

-- Stages that leave nothing behind have ended the run.
abbrev Staged : Option (Option (Dict NodeOutput)) → Pred
Staged none = Ended
Staged (some bound) = HasRow

Keeps-move : (target : RunState) (message : String) → Keeps HasRow (move_to target message)
unfolding move_to transition_to
Keeps-move target message w p = ground (arith, p)

Keeps-update : (target : RunState) → Keeps HasRow (update_run_state target)
unfolding update_run_state
Keeps-update target w p = ground (arith, p)

Keeps-start : (b : Bool) (runbook_id : String) → Keeps HasRow (start_running b runbook_id)
unfolding start_running
Keeps-start true runbook_id = keeps _ (Steady-pure _)
Keeps-start false runbook_id =
    Leads-bind _ _ _ (Keeps-move RunState.running _) (λ _. Keeps-update RunState.running)

module _ (env : Env) where
  Steady-commit :
      (sr : StageRun) (answer : Option PlannerResult) (g : ActionGraph)
      → Steady (commit_plan env sr answer g)
  unfolding commit_plan
  Steady-commit sr answer g =
      Steady-bind _ _ (Steady-event _ _)
        λ _. Steady-bind _ _ (Steady-modify _ (λ w. (refl, refl))) λ _. Steady-checkpoint env _ _ _

  outcome-Committed :
      (sr : StageRun) (o : PlannerOutcome) → Leads Committed (commit_outcome env sr o)
  unfolding commit_outcome
  outcome-Committed sr (escalated e) =
      bind HasRow HasRow (λ _. Ended) _ _ _ (pause_for_planner-Ends env _ _ _ _ _ e)
        (λ _. Ends-committed)
  outcome-Committed sr (planned r) =
      Leads-Steady _ _ _ (Steady-commit sr _ _) (λ _. Leads-committed _)

  with-Committed :
      (sr : StageRun) (g : ActionGraph) (spec : Option DynamicPlannerSpec)
      → Leads Committed (commit_with env sr g spec)
  unfolding commit_with
  with-Committed sr g none = Leads-Steady _ _ _ (Steady-commit sr _ g) (λ _. Leads-committed g)
  with-Committed sr g (some spec) =
      Leads-Steady _ _ _ (Steady-planning env _ _ _ spec) (λ o. outcome-Committed sr o)

  commit-Committed :
      (sr : StageRun) (skip : Bool) (g : ActionGraph) → Leads Committed (commit_phase env sr skip g)
  unfolding commit_phase
  commit-Committed sr skip g =
      Leads-if Committed skip _ _ (Leads-committed g)
        (Leads-Steady _ _ _ (Steady-phase _) (λ _. with-Committed sr g _))

  module _ (fuel : ℕ) where
    stage_rest-Over :
        (sr : StageRun) (builder : Fields) (retries : ℕ) (g : Option ActionGraph)
        → Does (Committed g) (attempt_stage env fuel sr builder retries g) Over HasRow
    unfolding attempt_stage
    stage_rest-Over sr builder retries none = Ends-over
    stage_rest-Over sr builder retries (some g) = attempts-Over env sr fuel builder _

    run_stage-Over : (sr : StageRun) (ctx : BuilderContext) → Leads Over (run_stage env fuel sr ctx)
    unfolding run_stage
    run_stage-Over sr ctx = Leads-Steady _ _ _ (Steady-call _) λ built.
        Leads-Steady _ _ _ (Steady-call _) λ g. Leads-Steady _ _ _ (Steady-event _ _) λ _.
          Leads-Steady _ _ _ (Steady-call _) λ retries.
            bind HasRow HasRow Committed Over _ _ (commit-Committed sr _ g)
              (stage_rest-Over sr built.1 retries)

    next-Staged :
        (rest : Dict NodeOutput
          → Option DemoCriticVerdict
          → Action (Option (Option (Dict NodeOutput))))
        (x : After)
        → ((results : Dict NodeOutput) (verdict : Option DemoCriticVerdict)
            → Leads Staged (rest results verdict))
        → Does (Over x) (go_to_next env rest x) Staged HasRow
    unfolding pure
    next-Staged rest leave h w p = p
    next-Staged rest (next results verdict) h w p = h results verdict w p
    next-Staged rest (again a) h w p = absurd p

    module _ (runbook_id : String) (metadata : Fields) (ctx : Option Fields) (target : ℕ) where
      stages-Staged :
          (index : ℕ) (stages : List ActionGraphStage) (b : BuilderContext)
          (last : Option (Dict NodeOutput))
          → Leads Staged (run_stages env fuel runbook_id metadata ctx target index stages b last)
      unfolding run_stages pure
      stages-Staged index [] b last w p = p
      stages-Staged index (stage ∷ stages) b last w p =
          Leads-if Staged (resuming ctx && ltb index target) _ _
            (stages-Staged (index + 1) stages b last)
            (bind HasRow HasRow Over Staged _ _ (run_stage-Over _ b)
              (λ x. next-Staged _ x (λ results verdict. stages-Staged (index + 1) stages _ _)))
            w p

  finish-Ended :
      (runbook_id : String) (metadata : Fields) (n : ℕ) (x : Option (Option (Dict NodeOutput)))
      → Does (Staged x) (finish_run env runbook_id metadata n x) (λ _. Ended) HasRow
  unfolding finish_run
  finish-Ended runbook_id metadata n none = Ends-Steady _ (Steady-pure _)
  finish-Ended runbook_id metadata n (some bound) =
      bind HasRow HasRow (λ _. Ended) (λ _. Ended) _ _ (complete-Ended env _ _ _ _)
        (λ _. Ends-Steady _ (Steady-when _ _ (Steady-raise _ _)))

  found-Ended :
      (fuel : ℕ) (runbook_id : String) (metadata : Fields) (ctx : Option Fields)
      (r : Option StageBuilder)
      → Leads (λ _. Ended) (run_found env fuel runbook_id metadata ctx r)
  unfolding run_found
  found-Ended fuel runbook_id metadata ctx none =
      goes _ _ _ _ refl (Ends-Steady _ (Steady-event _ _))
  found-Ended fuel runbook_id metadata ctx (some build) =
      Leads-bind _ _ _ (Keeps-start _ runbook_id) λ _. Leads-Steady _ _ _ Steady-intention λ i.
        Leads-Steady _ _ _ (Steady-gets _) λ st. Leads-Steady _ _ _ (Steady-call _) λ stages.
          Leads-Steady _ _ _ (Steady-call _) λ target.
            bind HasRow HasRow Staged _ _ _
              (stages-Staged fuel runbook_id metadata ctx target 0 stages _ none)
              (finish-Ended runbook_id metadata _)

  -- The handler makes the run FAILED, by force if the state does not allow it.
  on_exception-Ended : (e : Error) (w : World) → On HasRow w → On Ended (on_exception env e w)
  unfolding on_exception move_to transition_to update_run_state record_event
  on_exception-Ended e w p = ground arith

  body-Ended :
      (fuel : ℕ) (runbook_id : String) (metadata : Fields) (ctx : Option Fields)
      → Leads (λ _. Ended) (runbook_body env fuel runbook_id metadata ctx)
  unfolding runbook_body
  body-Ended fuel runbook_id metadata ctx =
      Leads-if _ (not (is_some env.injection) && not env.llm_available) _ _
        (goes _ _ _ _ refl (Ends-Steady _ (Steady-event _ _)))
        (found-Ended fuel runbook_id metadata ctx _)

  handle-Ended :
      (r : Result (Unit {0}) × World)
      → Post (λ _. Ended) HasRow r
      → (handle env r).0 ≡ true
      → On Ended (handle env r).1
  unfolding handle
  handle-Ended (ok done, w) p h = p
  handle-Ended (err Error.out_of_fuel, w) p h = cc
  handle-Ended (err Error.value_error, w) p h = on_exception-Ended _ w p
  handle-Ended (err Error.key_error, w) p h = on_exception-Ended _ w p
  handle-Ended (err Error.runtime_error, w) p h = on_exception-Ended _ w p
  handle-Ended (err Error.type_error, w) p h = on_exception-Ended _ w p
  handle-Ended (err Error.attribute_error, w) p h = on_exception-Ended _ w p
  handle-Ended (err Error.unbound_local_error, w) p h = on_exception-Ended _ w p
  handle-Ended (err Error.patch_error, w) p h = on_exception-Ended _ w p
  handle-Ended (err Error.checkpoint_error, w) p h = on_exception-Ended _ w p
  handle-Ended (err Error.replay_error, w) p h = on_exception-Ended _ w p

  -- However a run of a runbook goes, with exceptions, interrupts, commands of other threads and answers
  -- of models and planners, once it has ended, its state is neither PENDING nor RUNNING, and its row in
  -- the store says the same. It needs a row for the run, and enough fuel.
  pub run_runbook-Ended :
      (fuel : ℕ) (runbook_id : String) (metadata : Fields) (ctx : Option Fields) (w : World)
      → is_some w.row ≡ true
      → (run_runbook env fuel runbook_id metadata ctx w).0 ≡ true
      → let w' = (run_runbook env fuel runbook_id metadata ctx w).1 in
        (w'.row ≡ some w'.agent.run_state) × (is_live w'.agent.run_state ≡ false)
  unfolding run_runbook
  run_runbook-Ended fuel runbook_id metadata ctx w there done =
      handle-Ended _ (body-Ended fuel runbook_id metadata ctx _ there) done
