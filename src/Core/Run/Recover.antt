-- ===== src/Core/Run/Recover.antt =====
-- What a stage whose gate has passed or failed does in `_run_runbook`: the run completes, fails, or pauses,
-- or the stage is planned anew, retried, or run with the critic's hints.
use neuronium.Recovery.Policy.{
  RollbackScope, EscalationContext, RecoveryDecision, RecoveryAction, Failures, failed_ids,
  decide_recovery, retry_stage, escalate, fail, replan,
}
use neuronium.Prelude.{
  map, ℕ, ◌+◌, String, Bool, true, false, not, ◌&&◌, Option, none, some, List, [], ◌∷◌, ◌++◌, ltb,
  is_empty, if◌then◌else◌, Dict,
}
use neuronium.Nodes.{NodeOutput}
use neuronium.Prelude.Text.{append}
use neuronium.Prelude.Value.{Fields, nil, end, field, null, bool, str, arr, obj, get_value}
use neuronium.Core.State.{RunState, IntentionPhase}
use neuronium.Core.Gate.{DemoCriticVerdict}
use neuronium.Recovery.Scope.{compute_rollback_scope}
use neuronium.Core.Run.World.{
  Action, pure, try_call, modify, ◌>>=◌, ◌>>◌, when, record_event, record_decision, record_all,
  move_to, update_run_state, set_phase, set_plan, with_agent,
}
use neuronium.Core.Run.Env.{Env, DynamicPlannerSpec, PlannerOutcome, planned, escalated}
use neuronium.Core.Run.Decisions.{write_checkpoint}
use neuronium.Core.Run.Planner.{nat, text_list, plan_dynamic_graph, pause_for_planner_escalation}
use neuronium.Core.Run.Attempts.{StageRun, Attempt, iteration}
use neuronium.Core.Run.Execute.{stage_fields}
use neuronium.Core.Run.Verdicts.{
  After, leave, next, again, failed_nodes, completed_ids, critic_failed, has_fix_hints,
  failure_type, scope_ids, action_text, scope_text, kind_text, has_planner,
}

module _ (env : Env) where
  abbrev pub finalize_run : Dict NodeOutput → Option (List String) → Action (Unit {0})
  finalize_run results rollback = do
    record_all (env.finalize results rollback).1
    try_call (env.finalize results rollback).0

  abbrev pub run_fields : StageRun → Fields
  run_fields sr = field "runbook_id" (str sr.runbook_id) (field "metadata" (obj sr.metadata) end)

  -- A run that is done: state, row, progress, phase, last checkpoint, artifacts.
  unfoldable pub complete_run : String → ℕ → Fields → Dict NodeOutput → Action (Unit {0})
  complete_run message iteration extra results = do
    move_to RunState.completed message
    update_run_state RunState.completed
    modify (with_agent (λ st. record st { progress = "1.0" }))
    set_phase IntentionPhase.done
    write_checkpoint env (nat iteration) "final" extra
    when (not (is_empty results)) (finalize_run results none)

  unfoldable pub pass_stage : StageRun → Dict NodeOutput → Option DemoCriticVerdict → Action After
  pass_stage sr results verdict =
      if sr.stage.exit_run_on_success
      then (do
        complete_run
            (append sr.runbook_id
              (append ": stage " (append sr.stage.stage_id " passed (exit_run_on_success)")))
            (iteration sr) (run_fields sr) results
        pure leave)
      else pure (next results verdict)

  unfoldable pub fail_run : StageRun → Dict NodeOutput → RecoveryDecision → Action After
  fail_run sr results d = do
    move_to RunState.failed
        (append sr.runbook_id (append ": quality gate failed at stage " sr.stage.stage_id))
    update_run_state RunState.failed
    set_phase IntentionPhase.done
    write_checkpoint env (nat (iteration sr)) "final" (run_fields sr)
    when (not (is_empty results)) (finalize_run results (scope_ids d))
    pure leave

  -- The escalation by the policy, and by a REPLAN without a planner.
  unfoldable pub pause_run :
      String → Fields → StageRun → Attempt → Dict NodeOutput → RecoveryDecision → Action After
  pause_run title context sr a results d = do
    move_to RunState.paused (env.reason_text d.reason)
    update_run_state RunState.paused
    write_checkpoint env (nat (iteration sr)) "paused" (
        stage_fields env sr (
          field "escalation_reason" (str (env.reason_text d.reason)) (
            field "failed_node_ids" (get_value "failed_node_ids" (arr nil) context)
              (field "stage_retry_count" (nat a.retry_count) end))))
    when (not (is_empty results)) (finalize_run results (scope_ids d))
    record_decision title (
        field "reason" (str (env.reason_text d.reason))
          (field "escalation_context" (obj context) end))
    pure leave

  -- The escalation context as a dict, or what stands in for a missing one.
  abbrev pub context_fields : Fields → Option EscalationContext → Fields
  context_fields instead none = instead
  context_fields instead (some c) =
      field "failure_classes" (text_list (map kind_text c.failure_classes)) (
        field "stage_retry_count" (nat c.stage_retry_count) (
          field "failed_node_ids" (text_list c.failed_node_ids)
            (if c.repeated_rollback then field "repeated_rollback" (bool true) end else end)))

  -- The loop goes on with a new graph, or the planner's question pauses the run.
  unfoldable pub take_plan :
      StageRun
      → Attempt
      → Option DemoCriticVerdict
      → RecoveryDecision
      → PlannerOutcome
      → Action After
  take_plan sr a verdict d (escalated e) = do
    pause_for_planner_escalation env (iteration sr) sr.runbook_id sr.metadata sr.stage.stage_id
        sr.stage_index e
    pure leave
  take_plan sr a verdict d (planned r) = do
    modify (
        with_agent
          (λ st. record st { intention = set_plan r.action_graph.metadata.plan_id st.intention }))
    record_event "replan" (
        field "stage_id" (str sr.stage.stage_id)
          (field "reason" (str (env.reason_text d.reason)) end))
    pure (
        again (record a {
          graph = r.action_graph;
          results = [];
          verdict = verdict;
          skip_execute = false;
          skip_control = false;
          fix_override = none;
        }))

  -- A REPLAN, which without a planner is an escalation.
  unfoldable pub replan_stage :
      StageRun
      → Attempt
      → Dict NodeOutput
      → Option DemoCriticVerdict
      → Failures
      → RecoveryDecision
      → Option DynamicPlannerSpec
      → Action After
  replan_stage sr a results verdict failed d (some spec) = do
    planning ← plan_dynamic_graph env sr.runbook_id sr.stage.stage_id sr.metadata spec
    take_plan sr a verdict d planning
  replan_stage sr a results verdict failed d none =
      pause_run "Escalated (recovery, replan recommended)"
        (context_fields
          (field "failed_node_ids" (text_list (failed_ids failed))
            (field "replan_recommended" (bool true) end))
          d.escalation_context)
        sr a results d

  unfoldable pub apply_action :
      StageRun
      → Attempt
      → Dict NodeOutput
      → Option DemoCriticVerdict
      → Failures
      → RecoveryDecision
      → RecoveryAction
      → Action After
  apply_action sr a results verdict failed d fail = fail_run sr results d
  apply_action sr a results verdict failed d escalate =
      pause_run "Escalated (recovery)" (context_fields end d.escalation_context) sr a results d
  apply_action sr a results verdict failed d replan =
      replan_stage sr a results verdict failed d sr.stage.dynamic_planner
  apply_action sr a results verdict failed d retry_stage = pure (
      again (record a {
        results = results;
        verdict = verdict;
        retry_count = a.retry_count + 1;
        history = a.history ++ failed_ids failed ∷ [];
        skip_execute = false;
        skip_control = false;
        fix_override = none;
      }))

  abbrev pub decision_fields : Attempt → Failures → RecoveryDecision → Fields
  decision_fields a failed d = field "action" (str (action_text d.action)) (
      field "reason" (str (env.reason_text d.reason))
        (field "failed_node_ids" (text_list (failed_ids failed)) end))

  abbrev pub scope_fields : Option RollbackScope → Fields
  scope_fields none = end
  scope_fields (some s) = field "rollback_scope_type" (str (scope_text s.scope_type)) (
      field "rollback_node_ids" (text_list s.node_ids)
        (field "preservation_node_ids" (text_list s.preservation_node_ids) end))

  abbrev pub recovery_payload : Attempt → Failures → RecoveryDecision → Fields
  recovery_payload a failed d = field "action" (str (action_text d.action)) (
      field "reason" (str (env.reason_text d.reason)) (
        field "failed_nodes" (text_list (failed_ids failed))
          (field "stage_retry_count" (nat a.retry_count) (scope_fields d.rollback_scope))))

  unfoldable pub recover_stage :
      StageRun → Attempt → Dict NodeOutput → Option DemoCriticVerdict → Action After
  recover_stage sr a results verdict = do
    let gate = sr.stage.success_gate
    let failed = failed_nodes results gate.required_completed_nodes
    let rejected = critic_failed gate verdict
    scope ← try_call (
        compute_rollback_scope (failure_type rejected) a.graph (failed_ids failed) rejected
          (completed_ids results) gate.required_completed_nodes)
    let d =
        decide_recovery failed a.retry_count env.recovery rejected a.history (some scope)
          (has_planner sr.stage)
    record_decision "Recovery decision" (decision_fields a failed d)
    record_event "recovery_decision" (recovery_payload a failed d)
    apply_action sr a results verdict failed d d.action

  -- A rejection with hints is tried again with the hints as inputs, a limited number of times.
  unfoldable pub wants_fix : StageRun → Attempt → Option DemoCriticVerdict → Bool
  wants_fix sr a verdict =
      critic_failed sr.stage.success_gate verdict
      && has_fix_hints verdict
      && ltb a.fix_attempts env.max_verdict_fix_attempts
      && not a.skip_execute

  abbrev pub fix_fields : Option DemoCriticVerdict → Fields
  fix_fields none = end
  fix_fields (some v) = env.dump_verdict v

  abbrev pub fix_hints : Option DemoCriticVerdict → Fields
  fix_hints verdict =
      field "gaps" (get_value "gaps" null (fix_fields verdict))
        (field "suggestions" (get_value "suggestions" null (fix_fields verdict)) end)

  unfoldable pub fix_stage :
      StageRun → Attempt → Dict NodeOutput → Option DemoCriticVerdict → Action After
  fix_stage sr a results verdict = do
    record_event "verdict_local_fix_retry" (
        field "stage_id" (str sr.stage.stage_id) (
          field "stage_index" (nat sr.stage_index) (
            field "runbook_id" (str sr.runbook_id) (
              field "verdict_fix" (obj (fix_hints verdict))
                (field "verdict_fix_attempt" (nat (a.fix_attempts + 1)) end)))))
    pure (
        again (record a {
          results = results;
          verdict = verdict;
          fix_attempts = a.fix_attempts + 1;
          fix_override = some (field "verdict_fix" (obj (fix_hints verdict)) end);
          skip_execute = false;
          skip_control = false;
        }))
