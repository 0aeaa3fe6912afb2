-- ===== src/Tests/Graphs.antt =====
-- The order of small graphs.
use neuronium.Prelude.{
  ℕ, ◌≤◌, String, ◌≡◌, refl, List, [], ◌∷◌, arith, str_eq, eq_iff, if◌then◌else◌, count, ok, err,
  value_error, ◌⊎◌, insert, lookup, sort_by, insert_by,
}
use neuronium.Planning.Dag.{
  topological_order, node_ids, node_map, sort_ids, with_keys, in_degrees, count_edges, collect,
  kahn_loop, key_le, relax_all, adjacency, link, relax, str_le,
}
use neuronium.Prelude.Int.{is_zero, succ, ltℤ, eqℤ, pred}
use neuronium.Planning.Dag.Order.{IsTopological, topological_order-IsTopological}
use neuronium.Planning.Dag.Progress.{TargetsKnown, topological_order-total}
use neuronium.Planning.Dag.Acyclic.{topological_order_of_acyclic}
use neuronium.Tests.Samples.{join_graph, cycle_graph, distinct_once}

pub join_order : topological_order join_graph ≡ ok ("b" ∷ "a" ∷ "c" ∷ [])
unfolding topological_order sort_ids with_keys in_degrees count_edges insert collect is_zero succ
    lookup node_map kahn_loop sort_by insert_by key_le ltℤ eqℤ relax_all adjacency link relax str_le
    pred
join_order = refl

cycle_order : topological_order cycle_graph ≡ err value_error
unfolding topological_order sort_ids with_keys in_degrees count_edges insert collect is_zero succ
    lookup node_map kahn_loop sort_by insert_by key_le ltℤ eqℤ relax_all adjacency link relax str_le
    pred
cycle_order = refl

topological_order-IsTopological_example : IsTopological join_graph ("b" ∷ "a" ∷ "c" ∷ [])
topological_order-IsTopological_example =
    topological_order-IsTopological join_graph ("b" ∷ "a" ∷ "c" ∷ []) join_order

join_targets : TargetsKnown join_graph
join_targets v h = ground (arith, eq_iff "c" v)

topological_order-total_example :
    (topological_order join_graph ≡ err value_error)
    ⊎ ((order : List String) × (topological_order join_graph ≡ ok order))
topological_order-total_example = topological_order-total join_graph join_targets

join_rank : String → ℕ
join_rank v = if str_eq v "c" then 1 else 0

join_once : (v : String) → count v (node_ids join_graph) ≤ 1
join_once = distinct_once (node_ids join_graph) refl

topological_order_of_acyclic_example :
    (order : List String) × (topological_order join_graph ≡ ok order)
unfolding join_rank
topological_order_of_acyclic_example =
    topological_order_of_acyclic join_graph join_rank
      (omega arith, refl, refl, (omega arith, refl, refl, tt)) join_once
