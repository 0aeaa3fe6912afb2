-- ===== src/Recovery/Scope/Dependents.antt =====
-- `_transitive_dependents` returns exactly the nodes downstream of its seeds, and its loop ends.
use mathlib.Core.List.{Memᴰ}
use neuronium.Prelude.{
  ℕ, zero, suc, ◌+◌, ◌<◌, ◌≤◌, String, ◌≡◌, refl, Bool, true, false, not, ◌&&◌, ◌||◌, List, [], ◌∷◌,
  arith, str_eq, eq_iff, eq_refl, length, count_if, has, get_or, count_of_has, Result, ok,
  Bool-cases, inl, inr,
}
use neuronium.Planning.Dag.{GraphEdge, ActionGraph, adjacency}
use neuronium.Planning.Dag.Degrees.{into, adjacency_lem, from_to-le_into}
use neuronium.Recovery.Scope.Defs.{Search, visit, discover, dependents_loop, transitive_dependents}
use neuronium.Recovery.Scope.Reach.{Downstream, Downstream-step, has-adjacency}

has-visit : (v x : String) (s : Search) → has v (visit x s).result ≡ (has v s.result || str_eq x v)
unfolding visit
has-visit v x s = ground (arith, eq_iff x v)

has-discover :
    (v : String) (ss : List String) (s : Search)
    → has v (discover ss s).result ≡ (has v s.result || has v ss)
unfolding discover
has-discover v [] s = ground arith
has-discover v (x ∷ ss) s = ground (arith, has-discover v ss (visit x s), has-visit v x s)

queued-visit :
    (v x : String) (s : Search)
    → has v (visit x s).queue ≡ (has v s.queue || has v (visit x s).result && not (has v s.result))
unfolding visit
queued-visit v x s = ground (arith, eq_iff x v)

-- What is queued was queued before, or has been discovered.
queued-discover :
    (v : String) (ss : List String) (s : Search)
    → has v (discover ss s).queue
      ≡ (has v s.queue || has v (discover ss s).result && not (has v s.result))
unfolding discover
queued-discover v [] s = ground arith
queued-discover v (x ∷ ss) s = ground (
  arith,
  queued-discover v ss (visit x s),
  queued-visit v x s,
  has-visit v x s,
  has-discover v ss (visit x s),
)

-- The edges to nodes that are not discovered yet.
abbrev undiscovered : List String → GraphEdge → Bool
undiscovered result e = not (has e.target result)

undiscovered-cons :
    (v : String) (result : List String) (es : List GraphEdge)
    → has v result ≡ false
    → count_if (undiscovered (v ∷ result)) es + count_if (into v) es
      ≡ count_if (undiscovered result) es
undiscovered-cons v result [] h = omega arith
undiscovered-cons v result (e ∷ es) h =
    ground (arith, eq_iff v e.target, eq_iff e.target v, undiscovered-cons v result es h)

module _ (edges : List GraphEdge) where
  abbrev potential : Search → ℕ
  potential s = count_if (undiscovered s.result) edges + length s.queue

  potential-visit :
      (x : String) (s : Search) → 0 < count_if (into x) edges → potential (visit x s) ≤ potential s
  unfolding visit
  potential-visit x s h = ground (arith, undiscovered-cons x s.result edges)

  potential-discover :
      (ss : List String) (s : Search)
      → ((v : String) → has v ss ≡ true → 0 < count_if (into v) edges)
      → potential (discover ss s) ≤ potential s
  unfolding discover
  potential-discover [] s h = omega arith
  potential-discover (x ∷ ss) s h =
      let rest = potential-discover ss (visit x s) (λ v k. h v (ground arith)) in
      ground (arith, rest, potential-visit x s, h x, eq_refl x)

module _ (g : ActionGraph) (seeds : List String) where
  record Inv (result queue : List String) : Type 0 where
    sound : (v : String) → has v result ≡ true → Downstream g.edges seeds v
    queued : (v : String) → has v queue ≡ true → has v result ≡ true
    base : (v : String) → has v seeds ≡ true → has v result ≡ true
    closed :
        (e : GraphEdge)
        → Memᴰ e g.edges
        → has e.source result ≡ true
        → (has e.target result || has e.source queue) ≡ true

  pop-Inv :
      (nid : String) (queue result : List String)
      → Inv result (nid ∷ queue)
      → let s =
          discover (get_or (adjacency g) nid []) (record { result = result; queue = queue }) in
        Inv s.result s.queue
  pop-Inv nid queue result inv =
      let succs = get_or (adjacency g) nid [] in
      let start : Search = record { result = result; queue = queue } in
      let here = inv.sound nid (inv.queued nid (ground (arith, eq_refl nid))) in
      record {
        sound = λ v h. elim (Bool-cases (has v result)) [
          | inl old ↦ inv.sound v old
          | inr new ↦
              Downstream-step g seeds nid v (ground (arith, has-discover v succs start)) here
        ];
        queued = λ v h.
            ground (arith, has-discover v succs start, queued-discover v succs start, inv.queued v);
        base = λ v h. ground (arith, has-discover v succs start, inv.base v);
        closed = λ e m h. ground (
          arith,
          has-discover e.source succs start,
          has-discover e.target succs start,
          queued-discover e.source succs start,
          inv.closed e m,
          has-adjacency g e m,
          eq_iff nid e.source,
        );
      }

  -- Exactly the nodes downstream of the seeds.
  pub record IsDownstream (result : List String) : Type 0 where
    pub sound : (v : String) → has v result ≡ true → Downstream g.edges seeds v
    pub complete : {v : String} → Downstream g.edges seeds v → has v result ≡ true

  complete_of_closed :
      (result : List String)
      → Inv result []
      → {v : String} → Downstream g.edges seeds v
      → has v result ≡ true
  complete_of_closed result inv {v} (Downstream.seed h) = inv.base v h
  complete_of_closed result inv {v} (Downstream.along {u = u} e m p q d) =
      ground (arith, inv.closed e m, p, q, complete_of_closed result inv d)

  record Found (r : Result (List String)) : Type 0 where
    nodes : List String
    returned : r ≡ ok nodes
    exact : IsDownstream nodes

  dependents_loop-Found :
      (fuel : ℕ) (result queue : List String)
      → potential g.edges (record { result = result; queue = queue }) ≤ fuel
      → Inv result queue
      → Found (dependents_loop fuel (adjacency g) result queue)
  unfolding dependents_loop
  dependents_loop-Found zero result [] m inv = record {
    nodes = result;
    returned = refl;
    exact = record { sound = inv.sound; complete = λ {v} d. complete_of_closed result inv d };
  }
  dependents_loop-Found (suc fuel) result [] m inv = record {
    nodes = result;
    returned = refl;
    exact = record { sound = inv.sound; complete = λ {v} d. complete_of_closed result inv d };
  }
  dependents_loop-Found zero result (nid ∷ queue) m inv = absurd (omega arith)
  dependents_loop-Found (suc fuel) result (nid ∷ queue) m inv =
      let succs = get_or (adjacency g) nid [] in
      let start : Search = record { result = result; queue = queue } in
      let less = potential-discover g.edges succs start (λ v h.
        omega
          (arith, count_of_has v succs h, adjacency_lem g nid v, from_to-le_into nid v g.edges)) in
      dependents_loop-Found fuel (discover succs start).result (discover succs start).queue
        (omega (arith, less)) (pop-Inv nid queue result inv)

undiscovered-le-length :
    (result : List String) (es : List GraphEdge) → count_if (undiscovered result) es ≤ length es
undiscovered-le-length result [] = omega arith
undiscovered-le-length result (e ∷ es) = ground (arith, undiscovered-le-length result es)

-- `_transitive_dependents` returns, for every graph and every seeds, exactly the nodes that are a
-- seed or are reached from one along edges: the fuel of the model's loop is enough.
pub transitive_dependents-IsDownstream :
    (g : ActionGraph) (seeds : List String)
    → (nodes : List String) × (transitive_dependents g seeds ≡ ok nodes)
      × IsDownstream g seeds nodes
unfolding transitive_dependents
transitive_dependents-IsDownstream g seeds =
    let f =
      dependents_loop-Found g seeds (length seeds + length g.edges) seeds seeds
        (omega (arith, undiscovered-le-length seeds g.edges))
        (record {
          sound = λ v h. Downstream.seed h;
          queued = λ v h. h;
          base = λ v h. h;
          closed = λ e m h. ground arith;
        }) in
    (f.nodes, f.returned, f.exact)
