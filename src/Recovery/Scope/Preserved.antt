-- ===== src/Recovery/Scope/Preserved.antt =====
-- What `compute_rollback_scope` rolls back and what it preserves.
use neuronium.Prelude.{
  is_empty, String, ◌≡◌, refl, Bool, false, not, ◌&&◌, List, [], ◌∷◌, arith, eq_iff, has,
  if◌then◌else◌, ok, Bool-cases, inl, inr,
}
use neuronium.Planning.Dag.{ActionGraph}
use neuronium.Recovery.Policy.{RollbackScope, RollbackScopeType, node, subgraph}
use neuronium.Recovery.Scope.Defs.{
  FailureType, minus, wants_all, is_rejection, compute_rollback_scope,
}
use neuronium.Recovery.Scope.Dependents.{IsDownstream, transitive_dependents-IsDownstream}

has-minus : (v : String) (a b : List String) → has v (minus a b) ≡ (has v a && not (has v b))
has-minus v [] b = refl
has-minus v (x ∷ a) b = ground (arith, has-minus v a b, eq_iff x v)

-- The scope rolls back what is downstream of `seeds` and preserves the other completed nodes.
pub record IsRollback (g : ActionGraph) (seeds completed : List String) (scope : RollbackScope)
    : Type 0 where
  pub rolled_back : IsDownstream g seeds scope.node_ids
  pub preserved :
      (v : String)
      → has v scope.preservation_node_ids ≡ (has v completed && not (has v scope.node_ids))

-- The nodes that a failure starts from.
abbrev pub origin :
    FailureType → (failed : List String) → Bool → (gate_required : List String) → List String
origin kind failed critic_failed gate_required =
    if is_rejection kind && critic_failed && not (is_empty gate_required)
    then (if is_empty failed then gate_required else failed)
    else failed

module _ (g : ActionGraph) (seeds completed : List String) where
  scope_of : RollbackScopeType → List String → RollbackScope
  scope_of t rollback = record {
    scope_type = t;
    node_ids = rollback;
    preservation_node_ids = minus completed rollback;
    preservation_artifact_ids = [];
  }

  scope_of-IsRollback :
      (t : RollbackScopeType) (nodes : List String)
      → IsDownstream g seeds nodes
      → IsRollback g seeds completed (scope_of t nodes)
  unfolding scope_of
  scope_of-IsRollback t nodes d = record {
    rolled_back = d;
    preserved = λ v. has-minus v completed nodes;
  }

-- Unless the whole plan is given up, a rollback scope is always computed: it holds exactly the nodes
-- downstream of where the failure started (the failed nodes, or the gate's required nodes when a
-- critic rejected and no node failed), and it preserves exactly the other completed nodes.
pub compute_rollback_scope-IsRollback :
    (kind : FailureType) (g : ActionGraph) (failed : List String) (critic_failed : Bool)
    (completed gate_required : List String)
    → wants_all kind ≡ false
    → (scope : RollbackScope) × (compute_rollback_scope kind g failed critic_failed completed
          gate_required
        ≡ ok scope)
      × IsRollback g (origin kind failed critic_failed gate_required) completed scope
unfolding compute_rollback_scope scope_of
compute_rollback_scope-IsRollback kind g failed critic_failed completed gate_required w =
    elim (Bool-cases (is_rejection kind && critic_failed && not (is_empty gate_required))) [
      | inl rejected ↦
          let seeds = if is_empty failed then gate_required else failed in
          let (nodes, found, d) = transitive_dependents-IsDownstream g seeds in
          (
            scope_of g seeds completed subgraph nodes,
            simp (w, rejected, found),
            rw rejected (scope_of-IsRollback g seeds completed subgraph nodes d),
          )
      | inr other ↦
          let (nodes, found, d) = transitive_dependents-IsDownstream g failed in
          (
            scope_of g failed completed node nodes,
            simp (w, other, found),
            rw other (scope_of-IsRollback g failed completed node nodes d),
          )
    ]
