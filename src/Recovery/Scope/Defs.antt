-- ===== src/Recovery/Scope/Defs.antt =====
-- neuronium_agent/recovery/scope.py. Python's sets of ids are lists; their order stands for the
-- arbitrary order in which a set is iterated.
use neuronium.Prelude.{
  is_empty, ℕ, zero, suc, ◌+◌, String, Bool, true, false, not, ◌&&◌, List, [], ◌∷◌, if◌then◌else◌,
  length, keep, has, Dict, get_or, out_of_fuel, Result, ok, err, ◌>>=◌,
}
use neuronium.Planning.Dag.{ActionGraph, node_ids, adjacency}
use neuronium.Recovery.Policy.{RollbackScope, node, subgraph, intention}

pub data FailureType : Type 0 where
  node_execution critic_rejection constraint_violation plan_invalidation : FailureType

-- `result` and `queue` of `_transitive_dependents`. The queue is a stack: its end comes first.
pub record Search : Type 0 where
  pub result : List String
  pub queue : List String

-- `if succ not in result: result.add(succ); queue.append(succ)`
unfoldable pub visit : String → Search → Search
visit succ s =
    if has succ s.result then s else record { result = succ ∷ s.result; queue = succ ∷ s.queue }

-- `for succ in adj.get(nid, [])`
unfoldable pub discover : List String → Search → Search
discover [] s = s
discover (succ ∷ ss) s = discover ss (visit succ s)

-- `while queue`
unfoldable pub dependents_loop :
    ℕ → Dict (List String) → List String → List String → Result (List String)
dependents_loop fuel adj result [] = ok result
dependents_loop zero adj result (nid ∷ queue) = err out_of_fuel
dependents_loop (suc fuel) adj result (nid ∷ queue) =
    let s = discover (get_or adj nid []) (record { result = result; queue = queue }) in
    dependents_loop fuel adj s.result s.queue

unfoldable pub transitive_dependents : ActionGraph → List String → Result (List String)
transitive_dependents g seeds =
    dependents_loop (length seeds + length g.edges) (adjacency g) seeds seeds

-- `a - b` on sets
abbrev pub minus : List String → List String → List String
minus a b = keep (λ v. not (has v b)) a

abbrev pub wants_all : FailureType → Bool
wants_all constraint_violation = true
wants_all plan_invalidation = true
wants_all _ = false

abbrev pub is_rejection : FailureType → Bool
is_rejection critic_rejection = true
is_rejection _ = false

unfoldable pub compute_rollback_scope :
    FailureType
    → ActionGraph
    → (failed : List String) → (critic_failed : Bool) → (completed : List String)
    → (gate_required : List String) → Result RollbackScope
compute_rollback_scope kind g failed critic_failed completed gate_required =
    if wants_all kind
    then ok (record {
      scope_type = intention;
      node_ids = node_ids g;
      preservation_node_ids = [];
      preservation_artifact_ids = [];
    })
    else if is_rejection kind && critic_failed && not (is_empty gate_required)
    then (do
      rollback ← transitive_dependents g (if is_empty failed then gate_required else failed)
      ok (record {
        scope_type = subgraph;
        node_ids = rollback;
        preservation_node_ids = minus completed rollback;
        preservation_artifact_ids = [];
      }))
    else (do
      rollback ← transitive_dependents g failed
      ok (record {
        scope_type = node;
        node_ids = rollback;
        preservation_node_ids = minus completed rollback;
        preservation_artifact_ids = [];
      }))
