-- ===== src/Planning/Dag/Degrees.antt =====
-- What the maps that `topological_order` starts from hold: in-degrees, successors, node ids.
use neuronium.Prelude.{
  ℕ, ◌≤◌, ◌<◌, true, ◌+◌, String, ◌≡◌, refl, Bool, false, ◌&&◌, ◌||◌, not, List, [], ◌∷◌, ◌++◌,
  arith, str_eq, eq_iff, if◌then◌else◌, length, count, count_if, count-append, has, has-append,
  Dict, lookup, insert, get_or, contains, lookup-insert, KeysOnce, insert-KeysOnce,
}
use neuronium.Prelude.Int.{ℤ, pos, succ}
use neuronium.Planning.Dag.Defs.{
  GraphNode, node_ids, GraphEdge, ActionGraph, ids_of, collect, link, append_at, adjacency,
  predecessors, count_edges, in_degrees,
}

-- The edges into `v`.
abbrev pub into : String → GraphEdge → Bool
into v e = str_eq e.target v

-- The edges into `v` whose source is not in `order` yet.
abbrev pub open_into : List String → String → GraphEdge → Bool
open_into order v e = str_eq e.target v && not (has e.source order)

abbrev pub from_to : String → String → GraphEdge → Bool
from_to s v e = str_eq e.source s && str_eq e.target v

module _ {ℓ} {A : Type ℓ} (f : GraphNode → A) where
  collect-KeysOnce : (ns : List GraphNode) (d : Dict A) → KeysOnce d → KeysOnce (collect f ns d)
  unfolding collect
  collect-KeysOnce [] d h = h
  collect-KeysOnce (n ∷ ns) d h =
      collect-KeysOnce ns (insert n.node_id (f n) d) (insert-KeysOnce n.node_id (f n) d h)

  pub contains-collect :
      (v : String) (ns : List GraphNode) (d : Dict A)
      → contains v (collect f ns d) ≡ (has v (ids_of ns) || contains v d)
  unfolding collect
  contains-collect v [] d = refl
  contains-collect v (n ∷ ns) d =
      ground
        (arith, contains-collect v ns (insert n.node_id (f n) d), lookup-insert n.node_id v (f n) d)

get_or-collect {ℓ} :
    {A : Type ℓ} (c : A) (v : String) (ns : List GraphNode) (d : Dict A)
    → get_or d v c ≡ c
    → get_or (collect (λ _. c) ns d) v c ≡ c
unfolding collect
get_or-collect c v [] d h = h
get_or-collect c v (n ∷ ns) d h =
    get_or-collect c v ns (insert n.node_id c d) (ground (arith, lookup-insert n.node_id v c d))

get_or-count_edges :
    (v : String) (n : ℕ) (es : List GraphEdge) (d : Dict ℤ)
    → get_or d v (pos 0) ≡ pos n
    → get_or (count_edges es d) v (pos 0) ≡ pos (n + count_if (into v) es)
unfolding count_edges succ
get_or-count_edges v n [] d h = ground arith
get_or-count_edges v n (e ∷ es) d h =
    let m = n + (if str_eq e.target v then 1 else 0) in
    let rest = get_or-count_edges v m es (insert e.target (succ (get_or d e.target (pos 0))) d) (
      ground (
        arith,
        eq_iff e.target v,
        lookup-insert e.target v (succ (get_or d e.target (pos 0))) d,
      )) in
    ground (arith, rest)

count_edges-KeysOnce : (es : List GraphEdge) (d : Dict ℤ) → KeysOnce d → KeysOnce (count_edges es d)
unfolding count_edges
count_edges-KeysOnce [] d h = h
count_edges-KeysOnce (e ∷ es) d h = count_edges-KeysOnce es _ (insert-KeysOnce e.target _ d h)

-- Each id's in-degree is the number of edges into it.
pub in_degrees_lem :
    (g : ActionGraph) (v : String)
    → get_or (in_degrees g) v (pos 0) ≡ pos (count_if (into v) g.edges)
unfolding in_degrees
in_degrees_lem g v = ground (
  arith,
  get_or-count_edges v 0 g.edges (collect (λ _. pos 0) g.nodes [])
      (get_or-collect (pos 0) v g.nodes [] (unfold lookup in refl)),
)

contains-count_edges :
    (v : String) (es : List GraphEdge) (d : Dict ℤ)
    → contains v d ≡ true
    → contains v (count_edges es d) ≡ true
unfolding count_edges
contains-count_edges v [] d h = h
contains-count_edges v (e ∷ es) d h =
    let n = succ (get_or d e.target (pos 0)) in
    contains-count_edges v es (insert e.target n d) (ground (arith, lookup-insert e.target v n d))

contains-count_edges_only :
    (v : String) (es : List GraphEdge) (d : Dict ℤ)
    → contains v (count_edges es d) ≡ true
    → contains v d ≡ false
    → 0 < count_if (into v) es
unfolding count_edges
contains-count_edges_only v [] d h n = ground arith
contains-count_edges_only v (e ∷ es) d h n =
    let m = succ (get_or d e.target (pos 0)) in
    ground
      (arith, contains-count_edges_only v es (insert e.target m d), lookup-insert e.target v m d)

-- Only nodes and targets of edges have an in-degree.
pub contains-in_degrees_only :
    (g : ActionGraph) (v : String)
    → contains v (in_degrees g) ≡ true
    → has v (node_ids g) ≡ false
    → 0 < count_if (into v) g.edges
unfolding in_degrees
contains-in_degrees_only g v h n =
    contains-count_edges_only v g.edges (collect (λ _. pos 0) g.nodes []) h
      (unfold lookup in ground (arith, contains-collect (λ (n : GraphNode). pos 0) v g.nodes []))

-- Every node has an in-degree.
pub contains-in_degrees :
    (g : ActionGraph) (v : String) → has v (node_ids g) ≡ true → contains v (in_degrees g) ≡ true
unfolding in_degrees
contains-in_degrees g v h =
    contains-count_edges v g.edges (collect (λ _. pos 0) g.nodes [])
      (ground (arith, contains-collect (λ (n : GraphNode). pos 0) v g.nodes []))

pub in_degrees-KeysOnce : (g : ActionGraph) → KeysOnce (in_degrees g)
unfolding in_degrees
in_degrees-KeysOnce g =
    count_edges-KeysOnce g.edges _ (collect-KeysOnce (λ _. pos 0) g.nodes [] (λ j. omega arith))

module _ (from to : GraphEdge → String) where
  count-link :
      (s v : String) (es : List GraphEdge) (d : Dict (List String))
      → count v (get_or (link from to es d) s [])
        ≡ count v (get_or d s []) + count_if (λ e. str_eq (from e) s && str_eq (to e) v) es
  unfolding link
  count-link s v [] d = ground arith
  count-link s v (e ∷ es) d = ground (
    arith,
    count-link s v es (append_at (from e) (to e) d),
    lookup-insert (from e) s (get_or d (from e) [] ++ to e ∷ []) d,
    eq_iff (from e) s,
    count-append v (get_or d (from e) []) (to e ∷ []),
  )

-- `v` stands among the successors of `s` as often as there are edges from `s` to `v`.
pub adjacency_lem :
    (g : ActionGraph) (s v : String)
    → count v (get_or (adjacency g) s []) ≡ count_if (from_to s v) g.edges
unfolding adjacency
adjacency_lem g s v = ground (
  arith,
  count-link (λ e. e.source) (λ e. e.target) s v g.edges (collect (λ _. []) g.nodes []),
  get_or-collect {A = List String} [] s g.nodes [] (unfold lookup in refl),
)

-- `s` stands among the predecessors of `v` as often as there are edges from `s` to `v`.
pub predecessors_lem :
    (g : ActionGraph) (s v : String)
    → count s (get_or (predecessors g) v [])
      ≡ count_if (λ e. str_eq e.target v && str_eq e.source s) g.edges
unfolding predecessors
predecessors_lem g s v = ground (
  arith,
  count-link (λ e. e.target) (λ e. e.source) v s g.edges (collect (λ _. []) g.nodes []),
  get_or-collect {A = List String} [] v g.nodes [] (unfold lookup in refl),
)

-- Placing `s` closes exactly the edges from `s`.
pub open_into-append :
    (s v : String) (order : List String) (es : List GraphEdge)
    → has s order ≡ false
    → count_if (open_into order v) es
      ≡ count_if (open_into (order ++ s ∷ []) v) es + count_if (from_to s v) es
open_into-append s v order [] h = omega arith
open_into-append s v order (e ∷ es) h = ground (
  arith,
  open_into-append s v order es,
  has-append e.source s order,
  eq_iff e.source s,
  eq_iff s e.source,
)

pub length-ids_of : (ns : List GraphNode) → length (ids_of ns) ≡ length ns
length-ids_of [] = refl
length-ids_of (n ∷ ns) = omega (arith, length-ids_of ns)

-- Edges from `s` to `v` are edges into `v`.
pub from_to-le_into :
    (s v : String) (es : List GraphEdge) → count_if (from_to s v) es ≤ count_if (into v) es
from_to-le_into s v [] = omega arith
from_to-le_into s v (e ∷ es) = ground (arith, from_to-le_into s v es)
