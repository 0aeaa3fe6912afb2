-- ===== src/Planning/Dag/Acyclic.antt =====
-- `topological_order` finds an order of every acyclic graph.
use neuronium.Prelude.{
  ℕ, zero, suc, ◌≤◌, ◌<◌, String, ◌≡◌, refl, true, List, [], ◌∷◌, arith, eq_iff, length, count,
  count_if, has, has_of_count, length-le_of_count, count_of_has, ok, nat_eq, ◌∙◌,
}
use neuronium.Planning.Dag.Defs.{GraphEdge, ActionGraph, node_ids, topological_order}
use neuronium.Planning.Dag.Degrees.{open_into, into, length-ids_of}
use neuronium.Planning.Dag.Order.{contains-node_map}
use neuronium.Planning.Dag.Progress.{TargetsKnown, Computed, topological_order-Computed}

-- Every edge joins two nodes, and `rank` grows along it: the graph has no cycle.
abbrev pub IsRanked : (String → ℕ) → List String → List GraphEdge → Type 0
IsRanked rank ids [] = Unit
IsRanked rank ids (e ∷ es) =
    (rank e.source < rank e.target)
    × (has e.source ids ≡ true)
    × (has e.target ids ≡ true)
    × IsRanked rank ids es

targets_of_ranked :
    (rank : String → ℕ) (ids : List String) (es : List GraphEdge) (v : String)
    → IsRanked rank ids es
    → 0 < count_if (into v) es
    → has v ids ≡ true
targets_of_ranked rank ids [] v r c = elim c [ ]
targets_of_ranked rank ids (e ∷ es) v r c =
    ground (arith, eq_iff e.target v, targets_of_ranked rank ids es v r.3)

-- If every node below `v` is placed, then no edge into `v` is open.
open_into_placed :
    (rank : String → ℕ) (ids order : List String) (es : List GraphEdge) (v : String)
    → IsRanked rank ids es
    → ((u : String) → rank u < rank v → has u ids ≡ true → has u order ≡ true)
    → count_if (open_into order v) es ≡ 0
open_into_placed rank ids order [] v r below = refl
open_into_placed rank ids order (e ∷ es) v r below =
    ground
      (arith, eq_iff e.target v, below e.source, open_into_placed rank ids order es v r.3 below)

module _ (g : ActionGraph) (rank : String → ℕ) (ranked : IsRanked rank (node_ids g) g.edges) where
  targets : TargetsKnown g
  targets v c = targets_of_ranked rank (node_ids g) g.edges v ranked c

  all_placed :
      (c : Computed g targets) (n : ℕ) (v : String)
      → rank v < n
      → has v (node_ids g) ≡ true
      → has v c.order ≡ true
  all_placed c zero v lt k = elim lt [ ]
  all_placed c (suc n) v lt k =
      let none_open =
        open_into_placed rank (node_ids g) c.order g.edges v ranked
          (λ u below k'. all_placed c n u (omega arith) k') in
      let inv = c.loop.inv in
      has_of_count v c.order
        (ground (arith, none_open, inv.degree v, inv.covered v, contains-node_map g v))

-- A graph whose node ids differ, whose edges join its nodes and which has no cycle has a
-- topological order, and `topological_order` returns one.
pub topological_order_of_acyclic :
    (g : ActionGraph) (rank : String → ℕ)
    → IsRanked rank (node_ids g) g.edges
    → ((v : String) → count v (node_ids g) ≤ 1)
    → (order : List String) × (topological_order g ≡ ok order)
topological_order_of_acyclic g rank ranked once =
    let c = topological_order-Computed g (targets g rank ranked) in
    let inv = c.loop.inv in
    let le : (v : String) → count v c.order ≤ count v (node_ids g) = λ v.
      ground (arith, inv.once v, inv.known v, contains-node_map g v, count_of_has v (node_ids g)) in
    let ge : (v : String) → count v (node_ids g) ≤ count v c.order = λ v. ground (
      arith,
      once v,
      has_of_count v (node_ids g),
      count_of_has v c.order,
      all_placed g rank ranked c (suc (rank v)) v (omega arith),
    ) in
    let size : nat_eq (length c.order) (length g.nodes) ≡ true = ground (
      arith,
      length-ids_of g.nodes,
      length-le_of_count c.order (node_ids g) le,
      length-le_of_count (node_ids g) c.order ge,
    ) in
    (c.order, c.returned ∙ (rw size))
