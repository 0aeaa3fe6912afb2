-- ===== src/Tests/Recoveries.antt =====
-- Classes, decisions and rollback scopes for small failures.
use neuronium.Prelude.{
  is_empty, ◌<◌, ◌≤◌, String, ◌≡◌, refl, true, false, Option, none, some, List, [], ◌∷◌, ◌↔◌, ok,
  all_of,
}
use neuronium.Recovery.Policy.{
  Failures, RecoveryConfig, decide_recovery, repeated, retry_stage, is_transient, failure_classes,
  RollbackScope,
}
use neuronium.Recovery.Policy.Repeats.{times, repeated_iff}
use neuronium.Recovery.Policy.Decisions.{decide_recovery_retry}
use neuronium.Recovery.Scope.{transitive_dependents, compute_rollback_scope, node_execution}
use neuronium.Recovery.Scope.Dependents.{IsDownstream, transitive_dependents-IsDownstream}
use neuronium.Recovery.Scope.Preserved.{IsRollback, origin, compute_rollback_scope-IsRollback}
use neuronium.Tests.Samples.{join_graph, a_failure}

abbrev an_error : Option String
an_error = some "Read timeout"

repeated_iff_example :
    (repeated 2 (("a" ∷ []) ∷ ("b" ∷ "a" ∷ []) ∷ []) ≡ true
      → (v : String) × (0 < times v (("a" ∷ []) ∷ ("b" ∷ "a" ∷ []) ∷ []))
        × (2 ≤ times v (("a" ∷ []) ∷ ("b" ∷ "a" ∷ []) ∷ [])))
    × ((v : String)
        → 0 < times v (("a" ∷ []) ∷ ("b" ∷ "a" ∷ []) ∷ [])
        → 2 ≤ times v (("a" ∷ []) ∷ ("b" ∷ "a" ∷ []) ∷ [])
        → repeated 2 (("a" ∷ []) ∷ ("b" ∷ "a" ∷ []) ∷ []) ≡ true)
repeated_iff_example = repeated_iff 2 (("a" ∷ []) ∷ ("b" ∷ "a" ∷ []) ∷ [])

abbrev failures : Failures
failures = ("a", a_failure "Read timeout") ∷ []

abbrev a_policy : RecoveryConfig
a_policy = record {
  max_stage_retries = 1;
  repeated_rollback_threshold = 2;
  allow_auto_replan = false;
}

decide_recovery_retry_example :
    ((decide_recovery failures 0 a_policy false [] none false).action ≡ retry_stage) ↔ (
      (is_empty (failure_classes failures false) ≡ false)
      × (all_of is_transient (failure_classes failures false) ≡ true)
      × (repeated 2 (("a" ∷ []) ∷ []) ≡ false)
      × (0 < 1))
decide_recovery_retry_example = decide_recovery_retry failures 0 a_policy false [] none false

transitive_dependents-IsDownstream_example :
    (nodes : List String) × (transitive_dependents join_graph ("a" ∷ []) ≡ ok nodes)
    × IsDownstream join_graph ("a" ∷ []) nodes
transitive_dependents-IsDownstream_example =
    transitive_dependents-IsDownstream join_graph ("a" ∷ [])

compute_rollback_scope-IsRollback_example :
    (scope : RollbackScope) × (compute_rollback_scope node_execution join_graph
        ("a" ∷ [])
        false
        ("b" ∷ [])
        []
      ≡ ok scope)
    × IsRollback join_graph (origin node_execution ("a" ∷ []) false []) ("b" ∷ []) scope
compute_rollback_scope-IsRollback_example =
    compute_rollback_scope-IsRollback node_execution join_graph ("a" ∷ []) false ("b" ∷ []) [] refl
