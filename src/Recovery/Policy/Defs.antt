-- ===== src/Recovery/Policy/Defs.antt =====
-- neuronium_agent/recovery/models.py and neuronium_agent/recovery/policy.py
use neuronium.Prelude.{
  is_empty, ℕ, suc, ◌+◌, String, Bool, true, false, ◌&&◌, Option, none, some, List, [], ◌∷◌, ◌++◌,
  leb, ltb, any_of, all_of, if◌then◌else◌, Dict, insert, get_or,
}
use neuronium.Nodes.{FailureKind, NodeOutput, transient, persistent, systemic, critical}

pub data RecoveryAction : Type 0 where
  retry_stage escalate fail replan : RecoveryAction

pub data RollbackScopeType : Type 0 where
  node subgraph constraint_scope intention : RollbackScopeType

-- The node sets are lists without order or repetition of their own.
pub record RollbackScope : Type 0 where
  pub scope_type : RollbackScopeType
  pub node_ids : List String
  pub preservation_node_ids : List String
  pub preservation_artifact_ids : List String

pub record EscalationContext : Type 0 where
  pub failure_classes : List FailureKind
  pub stage_retry_count : ℕ
  pub failed_node_ids : List String
  pub repeated_rollback : Bool

-- Which of the reason texts the decision carries.
pub data Reason : Type 0 where
  critical_failure replan_repeated repeated_rollback no_context replan_systemic escalated : Reason
  retrying : (attempt max_stage : ℕ) → Reason

pub record RecoveryDecision : Type 0 where
  pub action : RecoveryAction
  pub reason : Reason
  pub escalation_context : Option EscalationContext
  pub rollback_scope : Option RollbackScope

-- The fields of RecoveryConfig that the policy reads.
pub record RecoveryConfig : Type 0 where
  pub max_stage_retries : ℕ
  pub repeated_rollback_threshold : ℕ
  pub allow_auto_replan : Bool

abbrev pub Failures : Type 0
Failures = List (String × NodeOutput)

abbrev pub failed_ids : Failures → List String
failed_ids [] = []
failed_ids ((nid, out) ∷ fs) = nid ∷ failed_ids fs

abbrev pub kinds_of : Failures → List FailureKind
kinds_of [] = []
kinds_of ((nid, out) ∷ fs) = elim out.failure_class [
  | none ↦ kinds_of fs
  | some c ↦ c.kind ∷ kinds_of fs
]

abbrev pub is_critical : FailureKind → Bool
is_critical critical = true
is_critical _ = false

abbrev pub is_transient : FailureKind → Bool
is_transient transient = true
is_transient _ = false

abbrev pub is_systemic : FailureKind → Bool
is_systemic systemic = true
is_systemic _ = false

-- The failure classes, with a virtual PERSISTENT for a failed critic.
unfoldable pub failure_classes : Failures → Bool → List FailureKind
failure_classes failed critic_failed =
    kinds_of failed ++ (if critic_failed && is_empty failed then persistent ∷ [] else [])

-- `for nid in attempt: counts[nid] += 1`
unfoldable pub tally : List String → Dict ℕ → Dict ℕ
tally [] counts = counts
tally (nid ∷ xs) counts = tally xs (insert nid (suc (get_or counts nid 0)) counts)

unfoldable pub tally_all : List (List String) → Dict ℕ → Dict ℕ
tally_all [] counts = counts
tally_all (attempt ∷ rest) counts = tally_all rest (tally attempt counts)

-- `any(c >= threshold for c in counts.values())`
abbrev pub reaches : ℕ → Dict ℕ → Bool
reaches threshold [] = false
reaches threshold ((k, c) ∷ d) = if leb threshold c then true else reaches threshold d

unfoldable pub repeated : ℕ → List (List String) → Bool
repeated threshold attempts = reaches threshold (tally_all attempts [])

unfoldable pub decide_recovery :
    Failures
    → (stage_retry_count : ℕ) → RecoveryConfig
    → (critic_failed : Bool) → (failure_history : List (List String)) → Option RollbackScope
    → (has_dynamic_planner : Bool) → RecoveryDecision
decide_recovery failed retries config critic_failed history scope planner =
    let classes = failure_classes failed critic_failed in
    let context : Bool → Option EscalationContext = λ again. some (record {
      failure_classes = classes;
      stage_retry_count = retries;
      failed_node_ids = failed_ids failed;
      repeated_rollback = again;
    }) in
    let decide : RecoveryAction → Reason → Option EscalationContext → RecoveryDecision =
      λ a r c. record { action = a; reason = r; escalation_context = c; rollback_scope = scope } in
    if any_of is_critical classes
    then decide fail critical_failure none
    else if repeated config.repeated_rollback_threshold (history ++ failed_ids failed ∷ [])
    then (if config.allow_auto_replan && planner
        then decide replan replan_repeated none
        else decide escalate repeated_rollback (context true))
    else if is_empty classes
    then decide fail no_context none
    else if all_of is_transient classes && ltb retries config.max_stage_retries
    then decide retry_stage (retrying (retries + 1) config.max_stage_retries) none
    else if config.allow_auto_replan && planner && all_of is_systemic classes
    then decide replan replan_systemic none
    else decide escalate escalated (context false)
