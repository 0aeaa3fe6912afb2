-- ===== src/Core/Run/Stages.antt =====
-- A stage either ends the run, with the state and its row at the same final or paused state, or keeps
-- the row.
use neuronium.Prelude.{ℕ, zero, suc, String, not, Option, none, some, List, refl, Dict, is_empty}
use neuronium.Prelude.Value.{Value, Fields}
use neuronium.Core.Gate.{DemoCriticVerdict, evaluate_gate}
use neuronium.Nodes.{NodeOutput}
use neuronium.Recovery.Policy.{
  RecoveryDecision, RecoveryAction, Failures, retry_stage, escalate, fail, replan,
}
use neuronium.Core.Run.World.{Action, raise, when}
use neuronium.Core.Run.Env.{Env, DynamicPlannerSpec, PlannerOutcome, planned, escalated}
use neuronium.Core.Run.Attempts.{StageRun, Attempt, Executed, stopped_early, executed}
use neuronium.Core.Run.Execute.{execute_phase, execute_or_skip}
use neuronium.Core.Run.Verdicts.{After, leave, next, again, control_phase, record_verdict}
use neuronium.Core.Run.Recover.{
  complete_run, pass_stage, fail_run, pause_run, take_plan, replan_stage, apply_action,
  recover_stage, fix_stage, wants_fix, finalize_run,
}
use neuronium.Core.Run.Adapt.{fail_stage, adapt_phase, judge, attempt_once, go_round, attempts}
use neuronium.Core.Run.Rules.{
  HasRow, Does, Steady, bind, Steady-bind, Steady-modify, steady_rules, Steady-call, Steady-pure,
  Steady-event, Steady-all, Steady-when, Steady-phase,
}
use neuronium.Core.Run.Commands.{Steady-checkpoint}
use neuronium.Core.Run.Endings.{
  Ended, Closed, Over, Ends-over, over_next, Leads, Leads-bind, Leads-Steady, Ends-bind, goes,
  Leads-if, Ends-Steady, Ends-leave, Leads-next, Leads-again, Steady-planning, Keeps-graph,
  pause_for_planner-Ends, Stops, Leads-executed, close-Stops,
}

module _ (env : Env) (sr : StageRun) where
  execute-Stops :
      (builder : Fields) (a : Attempt) → Leads (Stops env sr a) (execute_or_skip env sr builder a)
  unfolding execute_or_skip execute_phase
  execute-Stops builder a = Leads-if _ a.skip_execute _ _ (Leads-executed env sr a _ _) (
      Leads-Steady _ _ _ (Steady-phase _) λ _. Leads-Steady _ _ _ (Steady-call _) λ initial.
        Leads-bind _ _ _ (Keeps-graph env _ _ _ _) λ o. close-Stops env sr a o o.interrupted)

  Steady-verdict : (a : Attempt) (v : Option DemoCriticVerdict) → Steady (record_verdict env sr a v)
  unfolding record_verdict
  Steady-verdict a none = Steady-pure tt
  Steady-verdict a (some v) = Steady-event _ _

  Steady-control :
      (a : Attempt) (results : Dict NodeOutput) (snapshot : Value)
      → Steady (control_phase env sr a results snapshot)
  unfolding control_phase
  Steady-control a results snapshot =
      search (steady_rules, Steady-verdict, Steady-checkpoint) depth 12

  Steady-finalize :
      (results : Dict NodeOutput) (rollback : Option (List String))
      → Steady (finalize_run env results rollback)
  Steady-finalize results rollback = Steady-bind _ _ (Steady-all _) (λ _. Steady-call _)

module _ (env : Env) where
  pub complete-Ended :
      (message : String) (n : ℕ) (extra : Fields) (results : Dict NodeOutput)
      → Leads (λ _. Ended) (complete_run env message n extra results)
  unfolding complete_run
  complete-Ended message n extra results = goes _ _ _ _ refl (
      Ends-bind _ _ _ (Steady-modify _ (λ w. (refl, refl))) λ _. Ends-Steady _ (
        Steady-bind _ _ (Steady-phase _) λ _.
          Steady-bind _ _ (Steady-checkpoint env _ _ _)
            λ _. Steady-when _ _ (Steady-bind _ _ (Steady-all _) (λ _. Steady-call _))))

  Steady-finish :
      (results : Dict NodeOutput) (rollback : Option (List String))
      → Steady (when (not (is_empty results)) (finalize_run env results rollback))
  Steady-finish results rollback =
      Steady-when _ _ (Steady-bind _ _ (Steady-all _) (λ _. Steady-call _))

  module _ (sr : StageRun) where
    fail-Closed :
        (results : Dict NodeOutput) (d : RecoveryDecision)
        → Leads Closed (fail_run env sr results d)
    unfolding fail_run
    fail-Closed results d = goes _ _ _ _ refl (
        Ends-bind _ _ _ (Steady-phase _) λ _.
          Ends-bind _ _ _ (Steady-checkpoint env _ _ _)
            λ _. Ends-bind _ _ _ (Steady-finish results _) λ _. Ends-leave)

    pause-Closed :
        (title : String) (context : Fields) (a : Attempt) (results : Dict NodeOutput)
        (d : RecoveryDecision)
        → Leads Closed (pause_run env title context sr a results d)
    unfolding pause_run
    pause-Closed title context a results d = goes _ _ _ _ refl (
        Ends-bind _ _ _ (Steady-checkpoint env _ _ _) λ _.
          Ends-bind _ _ _ (Steady-finish results _)
            λ _. Ends-bind _ _ _ (Steady-event _ _) λ _. Ends-leave)

    pass-Closed :
        (results : Dict NodeOutput) (verdict : Option DemoCriticVerdict)
        → Leads Closed (pass_stage env sr results verdict)
    unfolding pass_stage
    pass-Closed results verdict =
        Leads-if _ sr.stage.exit_run_on_success _ _
          (bind HasRow HasRow (λ _. Ended) _ _ _ (complete-Ended _ _ _ results) (λ _. Ends-leave))
          (Leads-next _ _)

    plan-Closed :
        (a : Attempt) (verdict : Option DemoCriticVerdict) (d : RecoveryDecision)
        (o : PlannerOutcome)
        → Leads Closed (take_plan env sr a verdict d o)
    unfolding take_plan
    plan-Closed a verdict d (escalated e) =
        bind HasRow HasRow (λ _. Ended) _ _ _ (pause_for_planner-Ends env _ _ _ _ _ e)
          (λ _. Ends-leave)
    plan-Closed a verdict d (planned r) =
        Leads-Steady _ _ _ (Steady-modify _ (λ w. (refl, refl)))
          λ _. Leads-Steady _ _ _ (Steady-event _ _) λ _. Leads-again _

    module _ (a : Attempt) (results : Dict NodeOutput) (verdict : Option DemoCriticVerdict) where
      replan-Closed :
          (failed : Failures) (d : RecoveryDecision) (spec : Option DynamicPlannerSpec)
          → Leads Closed (replan_stage env sr a results verdict failed d spec)
      unfolding replan_stage
      replan-Closed failed d none = pause-Closed _ _ a results d
      replan-Closed failed d (some spec) =
          Leads-Steady _ _ _ (Steady-planning env _ _ _ spec) λ o. plan-Closed a verdict d o

      action-Closed :
          (failed : Failures) (d : RecoveryDecision) (act : RecoveryAction)
          → Leads Closed (apply_action env sr a results verdict failed d act)
      unfolding apply_action
      action-Closed failed d fail = fail-Closed results d
      action-Closed failed d escalate = pause-Closed _ _ a results d
      action-Closed failed d replan = replan-Closed failed d _
      action-Closed failed d retry_stage = Leads-again _

      recover-Closed : Leads Closed (recover_stage env sr a results verdict)
      unfolding recover_stage
      recover-Closed = Leads-Steady _ _ _ (Steady-call _) λ scope.
          Leads-Steady _ _ _ (Steady-event _ _)
            λ _. Leads-Steady _ _ _ (Steady-event _ _) λ _. action-Closed _ _ _

      fix-Closed : Leads Closed (fix_stage env sr a results verdict)
      unfolding fix_stage
      fix-Closed = Leads-Steady _ _ _ (Steady-event _ _) (λ _. Leads-again _)

      fail_stage-Closed : Leads Closed (fail_stage env sr a results verdict)
      unfolding fail_stage
      fail_stage-Closed =
          Leads-if Closed sr.stage.proceed_to_next_stage_on_fail _ _
            (Leads-Steady _ _ _ (Steady-event _ _) (λ _. Leads-next _ _))
            (Leads-if Closed (wants_fix env sr a verdict) (fix_stage env sr a results verdict)
              (recover_stage env sr a results verdict) fix-Closed recover-Closed)

      adapt-Closed :
          (snapshot : Value) → Leads Closed (adapt_phase env sr a results snapshot verdict)
      unfolding adapt_phase
      adapt-Closed snapshot = Leads-Steady _ _ _ (Steady-phase _) λ _.
          Leads-Steady _ _ _ (Steady-call _) λ found. Leads-Steady _ _ _ (Steady-event _ _) λ _.
            Leads-if Closed (evaluate_gate results sr.stage.success_gate verdict found)
              (pass_stage env sr results verdict) (fail_stage env sr a results verdict)
              (pass-Closed results verdict) fail_stage-Closed

    judge-Closed :
        (a : Attempt) (e : Executed) → Does (Stops env sr a e) (judge env sr a e) Closed HasRow
    unfolding judge
    judge-Closed a stopped_early = Ends-leave
    judge-Closed a (executed results snapshot) =
        Leads-Steady _ _ _ (Steady-control env sr a results snapshot)
          λ verdict. adapt-Closed a results verdict snapshot

    round-Over :
        (rest : Attempt → Action After) (x : After)
        → ((a : Attempt) → Leads Over (rest a))
        → Does (Closed x) (go_round env rest x) Over HasRow
    round-Over rest leave h = Ends-over
    round-Over rest (next results verdict) h = over_next results verdict
    round-Over rest (again a) h = h a

    pub attempts-Over :
        (fuel : ℕ) (builder : Fields) (a : Attempt) → Leads Over (attempts env fuel sr builder a)
    unfolding attempts attempt_once raise
    attempts-Over zero builder a w p = p
    attempts-Over (suc fuel) builder a w p =
        bind HasRow HasRow Closed Over _ _
          (bind HasRow HasRow (Stops env sr a) Closed _ _ (execute-Stops env sr builder a)
            (judge-Closed a))
          (λ x. round-Over _ x (λ a'. attempts-Over fuel builder a')) w p
