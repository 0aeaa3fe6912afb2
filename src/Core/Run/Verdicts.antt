-- ===== src/Core/Run/Verdicts.antt =====
-- The control phase of a stage in `_run_runbook`: the critic's verdict, and what the adapt phase reads of
-- the results.
use neuronium.Recovery.Policy.{
  RollbackScopeType, node, subgraph, constraint_scope, intention, RecoveryDecision, RecoveryAction,
  Failures, retry_stage, escalate, fail, replan,
}
use neuronium.Prelude.{
  String, Bool, true, false, not, ◌||◌, Option, none, some, List, [], ◌∷◌, is_empty, if◌then◌else◌,
  Dict, lookup, Result, ok, err, attribute_error,
}
use neuronium.Nodes.{
  FailureKind, transient, persistent, systemic, critical, NodeOutput, is_completed,
}
use neuronium.Prelude.Value.{
  truthy, Value, Fields, nil, end, field, null, float, str, arr, obj, get_value,
}
use neuronium.Core.State.{IntentionPhase}
use neuronium.Core.Gate.{StageSuccessGate, DemoCriticVerdict, critic_of, is_pass, extract_verdict}
use neuronium.Recovery.Scope.{FailureType, critic_rejection, node_execution}
use neuronium.Core.Run.World.{Action, pure, try_call, ◌>>=◌, ◌>>◌, record_event, set_phase}
use neuronium.Core.Run.Env.{Env, ActionGraphStage}
use neuronium.Core.Run.Decisions.{write_checkpoint}
use neuronium.Core.Run.Planner.{nat}
use neuronium.Core.Run.Attempts.{StageRun, Attempt, iteration, label}
use neuronium.Core.Run.Execute.{stage_fields, planned_entry}

-- How one pass of the retry loop ends: the run is over, the stage is done, or the loop goes on.
pub data After : Type 0 where
  leave : After
  next : Dict NodeOutput → Option DemoCriticVerdict → After
  again : Attempt → After

-- `gate_snapshot`, where it is used: None, or something with `get`
abbrev pub snapshot_fields : Value → Result (Option Fields)
snapshot_fields null = ok none
snapshot_fields (obj fs) = ok (some fs)
snapshot_fields v = err attribute_error

-- `[(nid, results[nid]) for nid in required if results.get(nid) and its status is not COMPLETED]`
unfoldable pub failed_nodes : Dict NodeOutput → List String → Failures
failed_nodes results [] = []
failed_nodes results (nid ∷ nids) = elim (lookup nid results) [
  | none ↦ failed_nodes results nids
  | some out ↦
      if is_completed out.status
      then failed_nodes results nids
      else (nid, out) ∷ failed_nodes results nids
]

unfoldable pub completed_ids : Dict NodeOutput → List String
completed_ids [] = []
completed_ids ((nid, out) ∷ rs) =
    if is_completed out.status then nid ∷ completed_ids rs else completed_ids rs

unfoldable pub critic_failed : StageSuccessGate → Option DemoCriticVerdict → Bool
critic_failed gate verdict = elim (critic_of gate) [
  | none ↦ false
  | some c ↦ elim verdict [ none ↦ true | some v ↦ not (is_pass v.verdict) || is_empty v.evidence ]
]

abbrev pub has_fix_hints : Option DemoCriticVerdict → Bool
has_fix_hints none = false
has_fix_hints (some v) = not (is_empty v.gaps) || not (is_empty v.suggestions)

abbrev pub failure_type : Bool → FailureType
failure_type true = critic_rejection
failure_type false = node_execution

abbrev pub scope_ids : RecoveryDecision → Option (List String)
scope_ids d = elim d.rollback_scope [ none ↦ none | some s ↦ some s.node_ids ]

abbrev pub action_text : RecoveryAction → String
action_text retry_stage = "RETRY_STAGE"
action_text escalate = "ESCALATE"
action_text fail = "FAIL"
action_text replan = "REPLAN"

abbrev pub scope_text : RollbackScopeType → String
scope_text node = "NODE"
scope_text subgraph = "SUBGRAPH"
scope_text constraint_scope = "CONSTRAINT_SCOPE"
scope_text intention = "INTENTION"

abbrev pub kind_text : FailureKind → String
kind_text transient = "TRANSIENT"
kind_text persistent = "PERSISTENT"
kind_text systemic = "SYSTEMIC"
kind_text critical = "CRITICAL"

abbrev pub optional_text : Option String → Value
optional_text none = null
optional_text (some s) = str s

abbrev pub has_planner : ActionGraphStage → Bool
has_planner stage = elim stage.dynamic_planner [ none ↦ false | some spec ↦ true ]

module _ (env : Env) where
  -- The verdict that the control phase finds.
  unfoldable pub stage_verdict :
      StageRun → Attempt → Dict NodeOutput → Value → Result (Option DemoCriticVerdict)
  stage_verdict sr a results snapshot = elim (critic_of sr.stage.success_gate) [
    | none ↦ ok none
    | some critic ↦
        if not a.skip_execute
        then elim (extract_verdict env.json_loads env.as_verdict results critic) [
          | err e ↦ err e
          | ok v ↦ ok (some v)
        ]
        else if truthy snapshot
        then elim (snapshot_fields snapshot) [
          | err e ↦ err e
          | ok found ↦ elim found [
            | none ↦ ok none
            | some fs ↦
                elim (env.verdict_from (get_value "critic_verdict" (str "UNCERTAIN") fs)
                  (get_value "critic_confidence" (float "0.0") fs)
                  (get_value "critic_evidence" (arr nil) fs) (get_value "critic_gaps" (arr nil) fs)
                  (get_value "critic_suggestions" (arr nil) fs)) [
                    | err e ↦ err e
                    | ok v ↦ ok (some v)
                  ]
          ]
        ]
        else ok none
  ]

  unfoldable pub record_verdict : StageRun → Attempt → Option DemoCriticVerdict → Action (Unit {0})
  record_verdict sr a none = pure tt
  record_verdict sr a (some v) =
      let entry = λ (key : String). get_value key null (env.dump_verdict v) in
      record_event "critic_verdict" (
        field "iteration" (nat (iteration sr)) (
          field "plan_id" (str a.graph.metadata.plan_id) (
            field "critic_node_id" (optional_text (critic_of sr.stage.success_gate)) (
              field "verdict" (entry "verdict") (
                field "confidence" (entry "confidence") (
                  field "evidence" (entry "evidence") (
                    field "gaps" (entry "gaps")
                      (field "suggestions" (entry "suggestions") end))))))))

  unfoldable pub control_phase :
      StageRun → Attempt → Dict NodeOutput → Value → Action (Option DemoCriticVerdict)
  control_phase sr a results snapshot = if a.skip_control then pure a.verdict else (do
    set_phase IntentionPhase.control
    verdict ← try_call (stage_verdict sr a results snapshot)
    record_verdict sr a verdict
    write_checkpoint env (nat (iteration sr)) (label "after_control_iter" sr) (
        stage_fields env sr
          (field "stage_retry_count" (nat a.retry_count) (planned_entry env sr a)))
    pure verdict)
