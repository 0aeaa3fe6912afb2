-- ===== src/Recovery/Scope/Reach.antt =====
-- The nodes downstream of a set of nodes, as a relation.
use mathlib.Core.List.{Memᴰ}
use neuronium.Prelude.{
  ◌<◌, String, ◌≡◌, refl, true, List, [], ◌∷◌, arith, eq_iff, eq_refl, count_if, has, get_or,
  has_of_count, count_of_has, Bool-cases, inl, inr, ap,
}
use neuronium.Planning.Dag.{GraphEdge, ActionGraph, adjacency}
use neuronium.Planning.Dag.Degrees.{from_to, adjacency_lem}

-- `v` is a seed or is reached from one along edges.
pub data Downstream (edges : List GraphEdge) (seeds : List String) : String → Type 0 where
  seed : {v : String} → has v seeds ≡ true → Downstream edges seeds v
  along :
      {u v : String} (e : GraphEdge)
      → Memᴰ e edges
      → e.source ≡ u
      → e.target ≡ v
      → Downstream edges seeds u
      → Downstream edges seeds v

record Edge (es : List GraphEdge) (s v : String) : Type 0 where
  edge : GraphEdge
  listed : Memᴰ edge es
  from : edge.source ≡ s
  to : edge.target ≡ v

from_to-Edge : (s v : String) (es : List GraphEdge) → 0 < count_if (from_to s v) es → Edge es s v
from_to-Edge s v [] h = elim h [ ]
from_to-Edge s v (e ∷ es) h = elim (Bool-cases (from_to s v e)) [
  | inl y ↦ record {
    edge = e;
    listed = Memᴰ.head refl;
    from = ground (arith, eq_iff e.source s);
    to = ground (arith, eq_iff e.target v);
  }
  | inr n ↦
      let r = from_to-Edge s v es (ground arith) in
      record { edge = r.edge; listed = Memᴰ.tail r.listed; from = r.from; to = r.to }
]

count_of_edge :
    (e : GraphEdge) (es : List GraphEdge) → Memᴰ e es → 0 < count_if (from_to e.source e.target) es
count_of_edge e [] m = elim m [ ]
count_of_edge e (x ∷ es) (Memᴰ.head p) = ground (
  arith,
  eq_refl e.source,
  eq_refl e.target,
  ap (λ (y : GraphEdge). y.source) p,
  ap (λ (y : GraphEdge). y.target) p,
)
count_of_edge e (x ∷ es) (Memᴰ.tail m) = omega (arith, count_of_edge e es m)

pub Downstream-step :
    (g : ActionGraph) (seeds : List String) (s v : String)
    → has v (get_or (adjacency g) s []) ≡ true
    → Downstream g.edges seeds s
    → Downstream g.edges seeds v
Downstream-step g seeds s v h d =
    let r =
      from_to-Edge s v g.edges
        (ground (arith, adjacency_lem g s v, count_of_has v (get_or (adjacency g) s []))) in
    along r.edge r.listed r.from r.to d

pub has-adjacency :
    (g : ActionGraph) (e : GraphEdge)
    → Memᴰ e g.edges
    → has e.target (get_or (adjacency g) e.source []) ≡ true
has-adjacency g e m =
    has_of_count e.target (get_or (adjacency g) e.source [])
      (omega (arith, adjacency_lem g e.source e.target, count_of_edge e g.edges m))
