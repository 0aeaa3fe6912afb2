-- ===== src/Planning/Dag/Progress.antt =====
-- The loops of `topological_order` end: they raise no KeyError when every edge leads to a node, and
-- the fuel, one round for each id with an in-degree, is enough.
use neuronium.Prelude.{
  ℕ, zero, suc, ◌+◌, ◌≤◌, ◌<◌, String, ◌≡◌, refl, true, List, [], ◌∷◌, ◌++◌, arith, eq_iff, eq_refl,
  if◌then◌else◌, length, length-append, count, count_if, count-append, has, Bool-cases, inl, inr,
  Dict, lookup, insert, get_or, contains, ok, err, value_error, some, ◌⊎◌, nat_eq, Result, ◌∙◌,
  contains-count-keys,
}
use neuronium.Prelude.Int.{ℤ, pos, pred, is_zero}
use neuronium.Planning.Dag.Defs.{
  GraphNode, GraphEdge, ActionGraph, KahnState, node_ids, node_map, adjacency, in_degrees,
  zero_keys, relax, relax_all, kahn_loop, topological_order,
}
use neuronium.Planning.Dag.Degrees.{
  open_into, into, adjacency_lem, contains-in_degrees_only, from_to-le_into,
}
use neuronium.Planning.Dag.Sorting.{sort_ids-IsSorting, sort_ids-total}
use neuronium.Planning.Dag.Invariant.{Inv, relax-Inv, pop-Inv}
use neuronium.Planning.Dag.Order.{Loop, pop-Loop, seeds-Loop, contains-node_map, count-zero_keys-le}

-- How many ids have edges left to wait for.
abbrev waiting : Dict ℤ → ℕ
waiting [] = 0
waiting ((k, d) ∷ ds) = (if is_zero d then 0 else 1) + waiting ds

-- Rounds left.
abbrev potential : KahnState → ℕ
potential st = waiting st.in_deg + length st.queue

waiting-insert :
    (s : String) (k : ℕ) (d : Dict ℤ)
    → lookup s d ≡ some (pos (suc k))
    → waiting (insert s (pos k) d) + (if is_zero (pos k) then 1 else 0) ≡ waiting d
unfolding lookup insert is_zero
waiting-insert s k [] h = ground arith
waiting-insert s k ((j, x) ∷ d) h = ground (arith, waiting-insert s k d)

waiting-zero_keys : (d : Dict ℤ) → waiting d + length (zero_keys d) ≡ length d
waiting-zero_keys [] = omega arith
waiting-zero_keys ((k, x) ∷ d) = ground (arith, waiting-zero_keys d)

module _ (edges : List GraphEdge) (nmap : Dict GraphNode) (order : List String) where
  record Relaxed (rest : List String) (st : KahnState) (r : Result KahnState) : Type 0 where
    state : KahnState
    returned : r ≡ ok state
    inv : Inv edges nmap order rest state
    same : potential state ≡ potential st

  degree_of :
      (s : String) (rest : List String) (st : KahnState)
      → Inv edges nmap order (s ∷ rest) st
      → (k : ℕ) × (lookup s st.in_deg ≡ some (pos (suc k)))
  degree_of s rest st inv =
      (count_if (open_into order s) edges + count s rest, ground (arith, inv.degree s, eq_refl s))

  relax-Relaxed :
      (s : String) (rest : List String) (st : KahnState)
      → contains s nmap ≡ true
      → Inv edges nmap order (s ∷ rest) st
      → Relaxed rest st (relax nmap s st)
  unfolding relax pred
  relax-Relaxed s rest st k inv =
      let (n, found) = degree_of s rest st inv in
      elim (Bool-cases (is_zero (pos n))) [
        | inl z ↦
            let (queue, sorted) =
              sort_ids-total nmap (st.queue ++ s ∷ []) (λ v c.
                ground (arith, inv.known v, count-append v st.queue (s ∷ []), eq_iff s v)) in
            let st' : KahnState = record { in_deg = insert s (pos n) st.in_deg; queue = queue } in
            let e : relax nmap s st ≡ ok st' = simp (found, z, sorted) in
            record {
              state = st';
              returned = e;
              inv = relax-Inv edges nmap order s rest st st' e inv;
              same = ground (
                arith,
                waiting-insert s n st.in_deg found,
                (sort_ids-IsSorting nmap (st.queue ++ s ∷ []) queue sorted).size,
                length-append st.queue (s ∷ []),
              );
            }
        | inr nz ↦
            let st' : KahnState = record {
              in_deg = insert s (pos n) st.in_deg;
              queue = st.queue;
            } in
            let e : relax nmap s st ≡ ok st' = simp (found, nz) in
            record {
              state = st';
              returned = e;
              inv = relax-Inv edges nmap order s rest st st' e inv;
              same = ground (arith, waiting-insert s n st.in_deg found);
            }
      ]

  relax_all-Relaxed :
      (ss : List String) (st : KahnState)
      → ((v : String) → 0 < count v ss → contains v nmap ≡ true)
      → Inv edges nmap order ss st
      → Relaxed [] st (relax_all nmap ss st)
  unfolding relax_all
  relax_all-Relaxed [] st known inv = record { state = st; returned = refl; inv = inv; same = refl }
  relax_all-Relaxed (s ∷ ss) st known inv =
      let one = relax-Relaxed s ss st (known s (ground (arith, eq_refl s))) inv in
      let more = relax_all-Relaxed ss one.state (λ v c. known v (omega arith)) one.inv in
      record {
        state = more.state;
        returned = rw (one.returned) more.returned;
        inv = more.inv;
        same = more.same ∙ one.same;
      }

-- Every edge leads to a node of the graph.
abbrev pub TargetsKnown : ActionGraph → Type 0
TargetsKnown g = (v : String) → 0 < count_if (into v) g.edges → has v (node_ids g) ≡ true

module _ (g : ActionGraph) (targets : TargetsKnown g) where
  pub record Ends (r : Result (List String)) : Type 0 where
    pub order : List String
    pub returned : r ≡ ok order
    pub last : Dict ℤ
    pub loop : Loop g order last []

  kahn_loop-Ends :
      (fuel : ℕ) (deg : Dict ℤ) (queue order : List String)
      → waiting deg + length queue ≤ fuel
      → Loop g order deg queue
      → Ends (kahn_loop fuel (node_map g) (adjacency g) deg queue order)
  unfolding kahn_loop
  kahn_loop-Ends zero deg [] order m l = record {
    order = order;
    returned = refl;
    last = deg;
    loop = l;
  }
  kahn_loop-Ends zero deg (nid ∷ queue) order m l = absurd (omega arith)
  kahn_loop-Ends (suc fuel) deg [] order m l = record {
    order = order;
    returned = refl;
    last = deg;
    loop = l;
  }
  kahn_loop-Ends (suc fuel) deg (nid ∷ queue) order m l =
      let succs = get_or (adjacency g) nid [] in
      let start : KahnState = record { in_deg = deg; queue = queue } in
      let round =
        relax_all-Relaxed g.edges (node_map g) (order ++ nid ∷ []) succs start
          (λ v c. ground (
            arith,
            targets v,
            from_to-le_into nid v g.edges,
            adjacency_lem g nid v,
            contains-node_map g v,
          ))
          (pop-Inv g.edges (node_map g) order succs nid deg queue (adjacency_lem g nid) l.inv) in
      let rest =
        kahn_loop-Ends fuel round.state.in_deg round.state.queue (order ++ nid ∷ [])
          (omega (arith, round.same))
          (pop-Loop g deg nid queue order round.state round.returned l) in
      record {
        order = rest.order;
        returned = rw (round.returned) rest.returned;
        last = rest.last;
        loop = rest.loop;
      }

  seeds_known :
      (v : String) → 0 < count v (zero_keys (in_degrees g)) → contains v (node_map g) ≡ true
  seeds_known v c = ground (
    arith,
    count-zero_keys-le v (in_degrees g),
    contains-count-keys v (in_degrees g),
    contains-in_degrees_only g v,
    targets v,
    contains-node_map g v,
  )

  -- What `topological_order` has computed when it compares the lengths.
  pub record Computed : Type 0 where
    pub order : List String
    pub last : Dict ℤ
    pub loop : Loop g order last []
    pub returned :
        topological_order g
        ≡ (if nat_eq (length order) (length g.nodes) then ok order else err value_error)

  pub topological_order-Computed : Computed
  unfolding topological_order
  topological_order-Computed =
      let (queue, sorted) = sort_ids-total (node_map g) (zero_keys (in_degrees g)) seeds_known in
      let size = (sort_ids-IsSorting (node_map g) _ queue sorted).size in
      let ends =
        kahn_loop-Ends (length (in_degrees g)) (in_degrees g) queue []
          (omega (arith, size, waiting-zero_keys (in_degrees g))) (seeds-Loop g queue sorted) in
      record {
        order = ends.order;
        last = ends.last;
        loop = ends.loop;
        returned = simp (sorted, ends.returned);
      }

-- When every edge leads to a node, `topological_order` ends with an order or with its own
-- ValueError: the loop ends, and no look-up of a missing id raises.
pub topological_order-total :
    (g : ActionGraph)
    → TargetsKnown g
    → (topological_order g ≡ err value_error)
      ⊎ ((order : List String) × (topological_order g ≡ ok order))
topological_order-total g targets =
    let c = topological_order-Computed g targets in
    elim (Bool-cases (nat_eq (length c.order) (length g.nodes))) [
      | inl e ↦ inr (c.order, c.returned ∙ (rw e))
      | inr e ↦ inl (c.returned ∙ (rw e))
    ]
