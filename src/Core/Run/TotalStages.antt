-- ===== src/Core/Run/TotalStages.antt =====
-- No part of a stage runs out of fuel but its retry loop, and that one not with enough of it.
use neuronium.Prelude.{
  ℕ, zero, suc, ◌<◌, String, Bool, false, not, Option, none, some, List, ◌≡◌, Dict, Result, Error,
  arith, is_empty,
}
use neuronium.Prelude.Value.{Value, Fields}
use neuronium.Core.Gate.{DemoCriticVerdict, evaluate_gate}
use neuronium.Nodes.{
  NodeOutput, InterruptRequest, InterruptMode, InterruptCommand, pause, stop, graceful, immediate,
}
use neuronium.Planning.Dag.{ActionGraph}
use neuronium.Recovery.Policy.{
  RecoveryDecision, RecoveryAction, Failures, retry_stage, escalate, fail, replan,
}
use neuronium.Execution.Loop.{ExecutionOutcome}
use neuronium.Core.Run.Env.{
  Env, DynamicPlannerSpec, PlannerRequest, PlannerEscalation, PlannerOutcome, planned, escalated,
}
use neuronium.Core.Run.Decisions.{write_checkpoint, record_control_decision}
use neuronium.Core.Run.Planner.{
  ask_backend, conclude_planning, plan_dynamic_graph, pause_for_planner_escalation,
}
use neuronium.Core.Run.Attempts.{
  StageRun, Attempt, Executed, stopped_early, executed, inject_replay, take_commands, run_graph,
}
use neuronium.Core.Run.Execute.{
  full_checkpoint, on_pause, stop_checkpoint, on_stop, on_command, on_interrupt, close_execution,
  execute_phase, execute_or_skip,
}
use neuronium.Core.Run.Verdicts.{After, leave, next, again, control_phase, record_verdict}
use neuronium.Core.Run.Recover.{
  finalize_run, complete_run, pass_stage, fail_run, pause_run, take_plan, replan_stage,
  apply_action, recover_stage, fix_stage, wants_fix,
}
use neuronium.Core.Run.Adapt.{fail_stage, adapt_phase, judge, attempt_once, go_round, attempts}
use neuronium.Core.Run.World.{Action, raise, when}
use neuronium.Core.Run.Passes.{Fewer, passes_left}
use neuronium.Core.Run.Retrying.{Fewer-attempt}
use neuronium.Core.Run.Total.{
  Total, Total-bind, Total-after, Total-pure, Total-call, Total-if, Total-modify, Total-when,
  Total-event, Total-all, Total-move, Total-update, Total-phase, Total-raise, total_rules,
}

module _ (env : Env) where
  pub Total-checkpoint :
      (iteration : Value) (boundary : String) (extra : Fields)
      → Total (write_checkpoint env iteration boundary extra)
  unfolding write_checkpoint
  Total-checkpoint iteration boundary extra = search (total_rules)

  Total-decision :
      (cmd : String) (payload : Fields) → Total (record_control_decision env cmd payload)
  unfolding record_control_decision
  Total-decision cmd payload = search (total_rules, Total-checkpoint)

  Total-backend : (request : PlannerRequest) → Total (ask_backend env request)
  unfolding ask_backend
  Total-backend request = search (total_rules)

  Total-conclude :
      (runbook_id stage_id : String) (spec : DynamicPlannerSpec) (o : PlannerOutcome)
      → Total (conclude_planning env runbook_id stage_id spec o)
  unfolding conclude_planning
  Total-conclude runbook_id stage_id spec (escalated e) = search (total_rules)
  Total-conclude runbook_id stage_id spec (planned r) = search (total_rules)

  Total-mismatch : (b : Bool) → Total (when b (raise Error.value_error))
  Total-mismatch b = Total-when b _ Total-raise

  pub Total-planning :
      (runbook_id stage_id : String) (metadata : Fields) (spec : DynamicPlannerSpec)
      → Total (plan_dynamic_graph env runbook_id stage_id metadata spec)
  unfolding plan_dynamic_graph
  Total-planning runbook_id stage_id metadata spec =
      search (total_rules, Total-mismatch, Total-backend, Total-conclude) depth 14

  pub Total-pause_for_planner :
      (iteration : ℕ) (runbook_id : String) (metadata : Fields) (stage_id : String)
      (stage_index : ℕ) (e : PlannerEscalation)
      → Total
          (pause_for_planner_escalation env iteration runbook_id metadata stage_id stage_index e)
  unfolding pause_for_planner_escalation
  Total-pause_for_planner iteration runbook_id metadata stage_id stage_index e =
      search (total_rules, Total-checkpoint) depth 14

  Total-inject :
      (o : Option (ActionGraph → Result Fields)) (g : ActionGraph) → Total (inject_replay o g)
  unfolding inject_replay
  Total-inject none g = Total-pure tt
  Total-inject (some inject) g = search (total_rules)

  Total-commands : (n : ℕ) → Total (take_commands env n)
  unfolding take_commands
  Total-commands n = Total-modify _

  Total-graph :
      (g : ActionGraph) (inputs : Fields) (initial : Dict NodeOutput) (model : Option String)
      → Total (run_graph env g inputs initial model)
  unfolding run_graph
  Total-graph g inputs initial model = search (total_rules, Total-commands, Total-inject) depth 20

  module _ (sr : StageRun) (a : Attempt) where
    Total-full : (o : ExecutionOutcome) → Total (full_checkpoint env sr a o)
    Total-full o = Total-bind _ _ (Total-call _) (λ snapshot. Total-checkpoint _ _ _)

    Total-stop :
        (o : ExecutionOutcome) (mode : InterruptMode) → Total (stop_checkpoint env sr a o mode)
    unfolding stop_checkpoint
    Total-stop o graceful = Total-full o
    Total-stop o immediate = Total-checkpoint _ _ _

    pub Total-command :
        (o : ExecutionOutcome) (mode : InterruptMode) (c : InterruptCommand)
        → Total (on_command env sr a o mode c)
    unfolding on_command on_pause on_stop
    Total-command o mode pause = Total-bind _ _ (Total-full o) λ _.
        Total-bind _ _ (Total-move _ _) λ _. Total-bind _ _ (Total-update _) λ _. Total-decision _ _
    Total-command o mode stop = Total-bind _ _ (Total-stop o mode) λ _.
        Total-bind _ _ (Total-move _ _) λ _. Total-bind _ _ (Total-update _) λ _. Total-decision _ _

    Total-close :
        (o : ExecutionOutcome) (r : Option InterruptRequest) → Total (close_execution env sr a o r)
    unfolding close_execution on_interrupt
    Total-close o none = search (total_rules, Total-checkpoint)
    Total-close o (some request) =
        Total-bind _ _
          (Total-bind _ _ (Total-command o request.mode request.command) (λ _. Total-modify _))
          (λ _. Total-pure _)

    Total-execute : (builder : Fields) → Total (execute_or_skip env sr builder a)
    unfolding execute_or_skip execute_phase
    Total-execute builder = Total-if a.skip_execute _ _ (Total-pure _) (
        Total-bind _ _ (Total-phase _) λ _.
          Total-bind _ _ (Total-call _)
            λ initial. Total-bind _ _ (Total-graph _ _ _ _) λ o. Total-close o o.interrupted)

    Total-verdict : (v : Option DemoCriticVerdict) → Total (record_verdict env sr a v)
    unfolding record_verdict
    Total-verdict none = Total-pure tt
    Total-verdict (some v) = Total-event _ _

    Total-control :
        (results : Dict NodeOutput) (snapshot : Value)
        → Total (control_phase env sr a results snapshot)
    unfolding control_phase
    Total-control results snapshot = search (total_rules, Total-verdict, Total-checkpoint) depth 12

  Total-finish :
      (results : Dict NodeOutput) (rollback : Option (List String))
      → Total (when (not (is_empty results)) (finalize_run env results rollback))
  Total-finish results rollback = Total-when _ _ (Total-bind _ _ (Total-all _) (λ _. Total-call _))

  pub Total-complete :
      (message : String) (n : ℕ) (extra : Fields) (results : Dict NodeOutput)
      → Total (complete_run env message n extra results)
  unfolding complete_run
  Total-complete message n extra results =
      search (total_rules, Total-finish, Total-checkpoint) depth 14

  module _ (sr : StageRun) (a : Attempt) (results : Dict NodeOutput) where
    Total-fail : (d : RecoveryDecision) → Total (fail_run env sr results d)
    unfolding fail_run
    Total-fail d = search (total_rules, Total-finish, Total-checkpoint) depth 14

    Total-pause :
        (title : String) (context : Fields) (d : RecoveryDecision)
        → Total (pause_run env title context sr a results d)
    unfolding pause_run
    Total-pause title context d = search (total_rules, Total-finish, Total-checkpoint) depth 14

    module _ (verdict : Option DemoCriticVerdict) where
      Total-pass : Total (pass_stage env sr results verdict)
      unfolding pass_stage
      Total-pass = search (total_rules, Total-complete)

      Total-take :
          (d : RecoveryDecision) (o : PlannerOutcome) → Total (take_plan env sr a verdict d o)
      unfolding take_plan
      Total-take d (escalated e) =
          Total-bind _ _ (Total-pause_for_planner _ _ _ _ _ e) (λ _. Total-pure _)
      Total-take d (planned r) = search (total_rules)

      Total-replan :
          (failed : Failures) (d : RecoveryDecision) (spec : Option DynamicPlannerSpec)
          → Total (replan_stage env sr a results verdict failed d spec)
      unfolding replan_stage
      Total-replan failed d none = Total-pause _ _ d
      Total-replan failed d (some spec) =
          Total-bind _ _ (Total-planning _ _ _ spec) (λ o. Total-take d o)

      Total-action :
          (failed : Failures) (d : RecoveryDecision) (act : RecoveryAction)
          → Total (apply_action env sr a results verdict failed d act)
      unfolding apply_action
      Total-action failed d fail = Total-fail d
      Total-action failed d escalate = Total-pause _ _ d
      Total-action failed d replan = Total-replan failed d _
      Total-action failed d retry_stage = Total-pure _

      Total-recover : Total (recover_stage env sr a results verdict)
      unfolding recover_stage
      Total-recover = Total-bind _ _ (Total-call _) λ scope.
          Total-bind _ _ (Total-event _ _)
            λ _. Total-bind _ _ (Total-event _ _) λ _. Total-action _ _ _

      Total-fix : Total (fix_stage env sr a results verdict)
      unfolding fix_stage
      Total-fix = Total-bind _ _ (Total-event _ _) (λ _. Total-pure _)

      Total-fail_stage : Total (fail_stage env sr a results verdict)
      unfolding fail_stage
      Total-fail_stage =
          Total-if sr.stage.proceed_to_next_stage_on_fail _ _
            (Total-bind _ _ (Total-event _ _) (λ _. Total-pure _))
            (Total-if (wants_fix env sr a verdict) (fix_stage env sr a results verdict)
              (recover_stage env sr a results verdict) Total-fix Total-recover)

      Total-adapt : (snapshot : Value) → Total (adapt_phase env sr a results snapshot verdict)
      unfolding adapt_phase
      Total-adapt snapshot = Total-bind _ _ (Total-phase _) λ _.
          Total-bind _ _ (Total-call _) λ found. Total-bind _ _ (Total-event _ _) λ _.
            Total-if (evaluate_gate results sr.stage.success_gate verdict found)
              (pass_stage env sr results verdict) (fail_stage env sr a results verdict) Total-pass
              Total-fail_stage

  module _ (sr : StageRun) where
    Total-judge : (a : Attempt) (e : Executed) → Total (judge env sr a e)
    unfolding judge
    Total-judge a stopped_early = Total-pure _
    Total-judge a (executed results snapshot) =
        Total-bind _ _ (Total-control sr a results snapshot)
          (λ verdict. Total-adapt sr a results verdict snapshot)

    Total-attempt : (builder : Fields) (a : Attempt) → Total (attempt_once env sr builder a)
    unfolding attempt_once
    Total-attempt builder a = Total-bind _ _ (Total-execute sr a builder) (Total-judge a)

    Total-round :
        (rest : Attempt → Action After) (a : Attempt) (x : After)
        → Fewer env a x
        → ((a' : Attempt) → passes_left env a' < passes_left env a → Total (rest a'))
        → Total (go_round env rest x)
    Total-round rest a leave q h = Total-pure _
    Total-round rest a (next results verdict) q h = Total-pure _
    Total-round rest a (again a') q h = h a' q

    -- With more fuel than there are fixes and retries left the loop ends by itself.
    pub Total-attempts :
        (fuel : ℕ) (builder : Fields) (a : Attempt)
        → env.recovery.allow_auto_replan ≡ false
        → passes_left env a < fuel
        → Total (attempts env fuel sr builder a)
    unfolding attempts
    Total-attempts zero builder a calm p w = absurd (omega arith)
    Total-attempts (suc fuel) builder a calm p w =
        Total-after (Fewer env a) _ _ (Total-attempt builder a)
          (Fewer-attempt env sr a calm builder)
          (λ x q.
            Total-round _ a x q (λ a' l. Total-attempts fuel builder a' calm (omega (arith, l, p))))
          w
