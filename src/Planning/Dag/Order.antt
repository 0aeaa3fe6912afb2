-- ===== src/Planning/Dag/Order.antt =====
-- `topological_order` returns a topological order of the graph's nodes.
use neuronium.Prelude.{
  ℕ, zero, suc, ◌≤◌, ◌<◌, String, ◌≡◌, refl, List, [], ◌∷◌, ◌++◌, arith, eq_iff, eq_refl, length,
  count, count_if, has, count_of_has, count_eq_of_le, Dict, lookup, get_or, contains, ok, >>=-eq-ok,
  ok-injective, subst, keys, KeysOnce, contains-count-keys,
}
use mathlib.Core.List.{append-nil, append_assoc}
use neuronium.Prelude.Int.{ℤ, pos, is_zero, is_zero_iff}
use neuronium.Planning.Dag.Defs.{
  GraphEdge, ActionGraph, KahnState, node_ids, node_map, adjacency, in_degrees, zero_keys, sort_ids,
  relax_all, kahn_loop, topological_order,
}
use neuronium.Planning.Dag.Degrees.{
  open_into, into, contains-collect, contains-in_degrees, length-ids_of, adjacency_lem,
  in_degrees_lem, in_degrees-KeysOnce,
}
use neuronium.Planning.Dag.Sorting.{sort_ids-IsSorting}
use neuronium.Planning.Dag.Invariant.{Inv, relax_all-Inv, pop-Inv}

-- Each node of `order` has every edge into it from `seen` or from a node before it.
abbrev pub IsOrdered : List GraphEdge → List String → List String → Type 0
IsOrdered edges seen [] = Unit
IsOrdered edges seen (v ∷ vs) =
    (count_if (open_into seen v) edges ≡ 0) × IsOrdered edges (seen ++ v ∷ []) vs

pub IsOrdered-append :
    (edges : List GraphEdge) (seen xs : List String) (v : String)
    → IsOrdered edges seen xs
    → count_if (open_into (seen ++ xs) v) edges ≡ 0
    → IsOrdered edges seen (xs ++ v ∷ [])
IsOrdered-append edges seen [] v h c = (rw append-nil at c, tt)
IsOrdered-append edges seen (x ∷ xs) v h c =
    (h.0, IsOrdered-append edges (seen ++ x ∷ []) xs v h.1 (rw append_assoc c))

module _ (g : ActionGraph) where
  -- What holds whenever the test of `while queue` is reached.
  pub record Loop (order : List String) (deg : Dict ℤ) (queue : List String) : Type 0 where
    pub inv : Inv g.edges (node_map g) order [] (record { in_deg = deg; queue = queue })
    pub ordered : IsOrdered g.edges [] order

  pub pop-Loop :
      (deg : Dict ℤ) (nid : String) (queue order : List String) (st : KahnState)
      → relax_all
          (node_map g)
          (get_or (adjacency g) nid [])
          (record { in_deg = deg; queue = queue })
        ≡ ok st
      → Loop order deg (nid ∷ queue)
      → Loop (order ++ nid ∷ []) st.in_deg st.queue
  pop-Loop deg nid queue order st h l =
      let succs = get_or (adjacency g) nid [] in
      let popped =
        pop-Inv g.edges (node_map g) order succs nid deg queue (adjacency_lem g nid) l.inv in
      record {
        inv = relax_all-Inv g.edges (node_map g) (order ++ nid ∷ []) succs _ st h popped;
        ordered =
            IsOrdered-append g.edges [] order nid l.ordered
              (ground (arith, l.inv.degree nid, l.inv.ready nid, eq_refl nid));
      }

  -- What holds of an order that the loop returns.
  pub record Finished (order : List String) : Type 0 where
    pub last : Dict ℤ
    pub loop : Loop order last []

  pub kahn_loop-Finished :
      (fuel : ℕ) (deg : Dict ℤ) (queue order final : List String)
      → kahn_loop fuel (node_map g) (adjacency g) deg queue order ≡ ok final
      → Loop order deg queue
      → Finished final
  unfolding kahn_loop
  kahn_loop-Finished zero deg [] order final h l =
      subst Finished (ok-injective h) (record { last = deg; loop = l })
  kahn_loop-Finished zero deg (nid ∷ queue) order final h l = absurd (cc)
  kahn_loop-Finished (suc fuel) deg [] order final h l =
      subst Finished (ok-injective h) (record { last = deg; loop = l })
  kahn_loop-Finished (suc fuel) deg (nid ∷ queue) order final h l =
      let (st, p, h') =
        >>=-eq-ok
          (relax_all (node_map g) (get_or (adjacency g) nid [])
            (record { in_deg = deg; queue = queue }))
          _ h in
      kahn_loop-Finished fuel st.in_deg st.queue (order ++ nid ∷ []) final h'
        (pop-Loop deg nid queue order st p l)

-- The ids that start with no edge into them.
pub count-zero_keys-le : (v : String) (d : Dict ℤ) → count v (zero_keys d) ≤ count v (keys d)
count-zero_keys-le v [] = omega arith
count-zero_keys-le v ((k, x) ∷ d) = ground (arith, count-zero_keys-le v d)

get_or-zero_keys :
    (v : String) (d : Dict ℤ) → KeysOnce d → 0 < count v (zero_keys d) → get_or d v (pos 0) ≡ pos 0
unfolding lookup
get_or-zero_keys v [] h c = refl
get_or-zero_keys v ((k, x) ∷ d) h c = ground (
  arith,
  is_zero_iff x,
  count-zero_keys-le v d,
  h v,
  eq_iff k v,
  get_or-zero_keys v d (λ j. ground (arith, h j)),
)

count-open_into-nil :
    (v : String) (es : List GraphEdge) → count_if (open_into [] v) es ≡ count_if (into v) es
count-open_into-nil v [] = refl
count-open_into-nil v (e ∷ es) = ground (arith, count-open_into-nil v es)

zero_keys-covers :
    (v : String) (d : Dict ℤ)
    → 0 < count v (keys d)
    → get_or d v (pos 0) ≡ pos 0
    → 0 < count v (zero_keys d)
unfolding lookup is_zero
zero_keys-covers v [] c z = c
zero_keys-covers v ((k, x) ∷ d) c z = ground (arith, zero_keys-covers v d, eq_iff k v)

pub contains-node_map :
    (g : ActionGraph) (v : String) → contains v (node_map g) ≡ has v (node_ids g)
unfolding node_map lookup
contains-node_map g v = ground (arith, contains-collect (λ n. n) v g.nodes [])

seeds-Inv :
    (g : ActionGraph) (queue : List String)
    → sort_ids (node_map g) (zero_keys (in_degrees g)) ≡ ok queue
    → Inv g.edges (node_map g) [] [] (record { in_deg = in_degrees g; queue = queue })
seeds-Inv g queue sorted =
    let deg = in_degrees g in
    let sorting = sort_ids-IsSorting (node_map g) (zero_keys deg) queue sorted in
    record {
      degree = λ v. ground (arith, in_degrees_lem g v, count-open_into-nil v g.edges);
      ready =
          λ v q. get_or-zero_keys v deg (in_degrees-KeysOnce g) (ground (arith, sorting.counts v));
      once =
          λ v. ground (arith, sorting.counts v, count-zero_keys-le v deg, in_degrees-KeysOnce g v);
      known = λ v q. sorting.known v (ground (arith, sorting.counts v));
      covered = λ v k z. ground (
        arith,
        sorting.counts v,
        zero_keys-covers v deg,
        contains-count-keys v deg,
        contains-in_degrees g v,
        contains-node_map g v,
      );
    }

pub seeds-Loop :
    (g : ActionGraph) (queue : List String)
    → sort_ids (node_map g) (zero_keys (in_degrees g)) ≡ ok queue
    → Loop g [] (in_degrees g) queue
seeds-Loop g queue sorted = record { inv = seeds-Inv g queue sorted; ordered = tt }

-- A topological order: every edge comes from a node before, and the nodes are the graph's.
pub record IsTopological (g : ActionGraph) (order : List String) : Type 0 where
  pub ordered : IsOrdered g.edges [] order
  pub complete : (v : String) → count v order ≡ count v (node_ids g)
  pub once : (v : String) → count v order ≤ 1

-- An order that `topological_order` returns holds exactly the ids of the graph's nodes, each once,
-- and every edge into a node comes from a node before it.
pub topological_order-IsTopological :
    (g : ActionGraph) (order : List String) → topological_order g ≡ ok order → IsTopological g order
unfolding topological_order
topological_order-IsTopological g order h =
    let (queue, p, h') = >>=-eq-ok (sort_ids (node_map g) (zero_keys (in_degrees g))) _ h in
    let (found, q, h'') =
      >>=-eq-ok
        (kahn_loop (length (in_degrees g)) (node_map g) (adjacency g) (in_degrees g) queue []) _
        h' in
    let done = kahn_loop-Finished g _ (in_degrees g) queue [] found q (seeds-Loop g queue p) in
    let inv = done.loop.inv in
    let same : found ≡ order = ground arith in
    let size : length found ≡ length (node_ids g) = ground (arith, length-ids_of g.nodes) in
    let once : (v : String) → count v found ≤ 1 = λ v. ground (arith, inv.once v) in
    let fewer : (v : String) → count v found ≤ count v (node_ids g) = λ v.
      ground (arith, inv.once v, inv.known v, contains-node_map g v, count_of_has v (node_ids g)) in
    subst (IsTopological g) same (record {
      ordered = done.loop.ordered;
      complete = count_eq_of_le found (node_ids g) fewer size;
      once = once;
    })
