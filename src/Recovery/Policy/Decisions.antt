-- ===== src/Recovery/Policy/Decisions.antt =====
-- When `decide_recovery` retries, gives up, replans or escalates.
use neuronium.Prelude.{
  is_empty, ℕ, ◌<◌, String, ◌≡◌, ◌↔◌, ◌⊎◌, refl, Bool, true, false, Option, List, [], ◌∷◌, ◌++◌,
  arith, any_of, all_of,
}
use neuronium.Nodes.{FailureKind}
use neuronium.Recovery.Policy.Defs.{
  Failures, RecoveryConfig, RecoveryDecision, RollbackScope, failed_ids, failure_classes,
  is_critical, is_transient, repeated, decide_recovery, retry_stage, fail, replan,
}

transient_not_critical :
    (ks : List FailureKind) → all_of is_transient ks ≡ true → any_of is_critical ks ≡ false
transient_not_critical [] h = refl
transient_not_critical (k ∷ ks) h = ground (arith, transient_not_critical ks)

module _ (failed : Failures) (retries : ℕ) (config : RecoveryConfig) (critic : Bool)
    (history : List (List String)) (scope : Option RollbackScope) (planner : Bool) where
  abbrev classes : List FailureKind
  classes = failure_classes failed critic

  abbrev again : Bool
  again = repeated config.repeated_rollback_threshold (history ++ failed_ids failed ∷ [])

  abbrev decision : RecoveryDecision
  decision = decide_recovery failed retries config critic history scope planner

  -- The stage is retried exactly when there are failure classes, all of them are TRANSIENT, no node
  -- has failed repeatedly, and the stage's retries are below their maximum.
  pub decide_recovery_retry : (decision.action ≡ retry_stage) ↔ (
      (is_empty classes ≡ false)
      × (all_of is_transient classes ≡ true)
      × (again ≡ false)
      × (retries < config.max_stage_retries))
  unfolding decide_recovery
  decide_recovery_retry = ground (arith, transient_not_critical classes)

  -- The run fails exactly when some class is CRITICAL, or when there is no class at all and no node
  -- has failed repeatedly.
  pub decide_recovery_fail :
      (decision.action ≡ fail)
      ↔ ((any_of is_critical classes ≡ true) ⊎ (is_empty classes ≡ true) × (again ≡ false))
  unfolding decide_recovery
  decide_recovery_fail = ground arith

  -- A plan is replaced without the user only if the configuration allows it and a dynamic planner is
  -- there, never after a CRITICAL failure; and in each of these decisions the rollback scope is
  -- passed on unchanged.
  pub decide_recovery_replan :
      (decision.action ≡ replan
        → (config.allow_auto_replan ≡ true)
          × (planner ≡ true)
          × (any_of is_critical classes ≡ false))
      × (decision.rollback_scope ≡ scope)
  unfolding decide_recovery
  decide_recovery_replan = (ground arith, ground arith)
