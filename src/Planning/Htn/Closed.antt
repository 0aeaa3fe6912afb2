-- ===== src/Planning/Htn/Closed.antt =====
-- The graph that is built from leaf operators: its nodes, and that its edges stay inside.
use neuronium.Prelude.{
  ℕ, ◌+◌, ◌≤◌, String, Bool, true, false, ◌&&◌, ◌||◌, List, [], ◌∷◌, ◌++◌, ◌≡◌, refl, has, count,
  all_of, sort_by, insert_by, ok, arith, eq_iff, count-append, str_eq, subst, ok-injective, ◌∙◌, ap,
  Bool-cases, inl, inr,
}
use neuronium.Planning.Dag.{GraphNode, GraphEdge, ActionGraph, ids_of, node_ids, str_le}
use neuronium.Planning.Slots.{unique}
use neuronium.Planning.Htn.{HtnLeafOperator, ids}
use neuronium.Planning.Htn.Build.{
  leaf_node, add_nodes, leaf_edges, all_edges, numbered, by_id, by_ends, graph_from,
  build_action_graph,
}

abbrev pub inside : List String → GraphEdge → Bool
inside names e = has e.source names && has e.target names

has-insert_by :
    (v : String) (le : GraphNode → GraphNode → Bool) (n : GraphNode) (ns : List GraphNode)
    → has v (ids_of (insert_by le n ns)) ≡ has v (ids_of (n ∷ ns))
unfolding insert_by
has-insert_by v le n [] = refl
has-insert_by v le n (m ∷ ns) = ground (arith, has-insert_by v le n ns)

has-sort_by :
    (v : String) (le : GraphNode → GraphNode → Bool) (ns : List GraphNode)
    → has v (ids_of (sort_by le ns)) ≡ has v (ids_of ns)
unfolding sort_by
has-sort_by v le [] = refl
has-sort_by v le (n ∷ ns) =
    ground (arith, has-insert_by v le n (sort_by le ns), has-sort_by v le ns)

count-insert_by :
    (v : String) (le : GraphNode → GraphNode → Bool) (n : GraphNode) (ns : List GraphNode)
    → count v (ids_of (insert_by le n ns)) ≡ count v (ids_of (n ∷ ns))
unfolding insert_by
count-insert_by v le n [] = refl
count-insert_by v le n (m ∷ ns) = ground (arith, count-insert_by v le n ns)

count-sort_by :
    (v : String) (le : GraphNode → GraphNode → Bool) (ns : List GraphNode)
    → count v (ids_of (sort_by le ns)) ≡ count v (ids_of ns)
unfolding sort_by
count-sort_by v le [] = refl
count-sort_by v le (n ∷ ns) =
    ground (arith, count-insert_by v le n (sort_by le ns), count-sort_by v le ns)

ids_of-numbered : (idx : ℕ) (ns : List GraphNode) → ids_of (numbered idx ns) ≡ ids_of ns
unfolding numbered
ids_of-numbered idx [] = refl
ids_of-numbered idx (n ∷ ns) = ap (λ xs. n.node_id ∷ xs) (ids_of-numbered (idx + 1) ns)

ids_of-snoc :
    (ns : List GraphNode) (n : GraphNode) → ids_of (ns ++ n ∷ []) ≡ ids_of ns ++ n.node_id ∷ []
ids_of-snoc [] n = refl
ids_of-snoc (m ∷ ns) n = ap (λ xs. m.node_id ∷ xs) (ids_of-snoc ns n)

has-snoc : (v x : String) (xs : List String) → has v (xs ++ x ∷ []) ≡ (has v xs || has v (x ∷ []))
has-snoc v x [] = refl
has-snoc v x (y ∷ xs) = ground (arith, has-snoc v x xs)

has-add_nodes :
    (v : String) (ls : List HtnLeafOperator) (m : List GraphNode)
    → has v (ids_of (add_nodes ls m)) ≡ (has v (ids_of m) || has v (ids ls))
unfolding add_nodes
has-add_nodes v [] m = ground arith
has-add_nodes v (l ∷ ls) m = elim (Bool-cases (has l.node_id (ids_of m))) [
  | inl t ↦ rw t (ground (arith, has-add_nodes v ls m, eq_iff l.node_id v))
  | inr f ↦ rw f (
      ground (
        arith,
        has-add_nodes v ls (m ++ leaf_node l ∷ []),
        ids_of-snoc m (leaf_node l),
        has-snoc v l.node_id (ids_of m),
      ))
]

all_of-append :
    (p : GraphEdge → Bool) (xs ys : List GraphEdge)
    → all_of p (xs ++ ys) ≡ (all_of p xs && all_of p ys)
all_of-append p [] ys = refl
all_of-append p (x ∷ xs) ys = ground (arith, all_of-append p xs ys)

all_of-insert_by :
    (p : GraphEdge → Bool) (le : GraphEdge → GraphEdge → Bool) (x : GraphEdge) (xs : List GraphEdge)
    → all_of p (insert_by le x xs) ≡ (p x && all_of p xs)
unfolding insert_by
all_of-insert_by p le x [] = refl
all_of-insert_by p le x (y ∷ xs) = ground (arith, all_of-insert_by p le x xs)

all_of-sort_by :
    (p : GraphEdge → Bool) (le : GraphEdge → GraphEdge → Bool) (xs : List GraphEdge)
    → all_of p (sort_by le xs) ≡ all_of p xs
unfolding sort_by
all_of-sort_by p le [] = refl
all_of-sort_by p le (x ∷ xs) =
    ground (arith, all_of-insert_by p le x (sort_by le xs), all_of-sort_by p le xs)

all_of-same :
    (p q : GraphEdge → Bool) (xs : List GraphEdge)
    → ((e : GraphEdge) → p e ≡ q e)
    → all_of p xs ≡ all_of q xs
all_of-same p q [] h = refl
all_of-same p q (x ∷ xs) h = ground (arith, h x, all_of-same p q xs h)

count_of_absent : (v : String) (xs : List String) → has v xs ≡ false → count v xs ≡ 0
count_of_absent v [] h = refl
count_of_absent v (x ∷ xs) h = ground (arith, h, count_of_absent v xs)

once-snoc :
    (m : List GraphNode) (n : GraphNode)
    → has n.node_id (ids_of m) ≡ false
    → (u : String) → count u (ids_of m) ≤ 1
    → count u (ids_of (m ++ n ∷ [])) ≤ 1
once-snoc m n f u h =
    rw (ids_of-snoc m n, count-append u (ids_of m) (n.node_id ∷ []))
      (elim (Bool-cases (str_eq n.node_id u)) [
        | inl t ↦
            let absent : count u (ids_of m) ≡ 0 =
              subst (λ x. count x (ids_of m) ≡ 0) ((eq_iff n.node_id u).0 t)
                (count_of_absent n.node_id (ids_of m) f) in
            rw (t, absent) (omega arith)
        | inr g ↦ rw g (omega (arith, h))
      ])

once-add_nodes :
    (ls : List HtnLeafOperator) (m : List GraphNode)
    → ((v : String) → count v (ids_of m) ≤ 1)
    → (v : String) → count v (ids_of (add_nodes ls m)) ≤ 1
unfolding add_nodes
once-add_nodes [] m h v = h v
once-add_nodes (l ∷ ls) m h v = elim (Bool-cases (has l.node_id (ids_of m))) [
  | inl t ↦ rw t (once-add_nodes ls m h v)
  | inr f ↦ rw f (once-add_nodes ls _ (λ u. once-snoc m (leaf_node l) f u (h u)) v)
]

leaf_edges-inside :
    (m : List GraphNode) (target : String) (deps : List String)
    → has target (ids_of m) ≡ true
    → all_of (inside (ids_of m)) (leaf_edges m target deps) ≡ true
unfolding leaf_edges
leaf_edges-inside m target [] h = refl
leaf_edges-inside m target (dep ∷ deps) h = ground (arith, h, leaf_edges-inside m target deps h)

all_edges-inside :
    (m : List GraphNode) (ls : List HtnLeafOperator)
    → ((v : String) → has v (ids ls) ≡ true → has v (ids_of m) ≡ true)
    → all_of (inside (ids_of m)) (all_edges m ls) ≡ true
unfolding all_edges
all_edges-inside m [] h = refl
all_edges-inside m (l ∷ ls) h =
    all_of-append (inside (ids_of m)) _ (all_edges m ls)
    ∙ ground (
      arith,
      leaf_edges-inside m l.node_id (sort_by str_le (unique l.depends_on))
          (h l.node_id (ground (arith, eq_iff l.node_id l.node_id))),
      all_edges-inside m ls (λ v p. h v (ground (arith, p))),
    )

abbrev Closed : List HtnLeafOperator → ActionGraph → Type 0
Closed leaves g =
    ((v : String) → has v (node_ids g) ≡ has v (ids leaves))
    × ((v : String) → count v (node_ids g) ≤ 1)
    × (all_of (inside (node_ids g)) g.edges ≡ true)

module _ (leaves : List HtnLeafOperator) where
  abbrev node_map : List GraphNode
  node_map = add_nodes leaves []

  abbrev names : List String
  names = ids_of (numbered 0 (sort_by by_id node_map))

  has-names : (v : String) → has v names ≡ has v (ids_of node_map)
  has-names v =
      ap (has v) (ids_of-numbered 0 (sort_by by_id node_map)) ∙ has-sort_by v by_id node_map

  count-names : (v : String) → count v names ≡ count v (ids_of node_map)
  count-names v =
      ap (count v) (ids_of-numbered 0 (sort_by by_id node_map)) ∙ count-sort_by v by_id node_map

  inside-names : (e : GraphEdge) → inside names e ≡ inside (ids_of node_map) e
  inside-names e = rw (has-names e.source, has-names e.target) refl

  closed :
      (g : ActionGraph)
      → node_ids g ≡ names
      → g.edges ≡ sort_by by_ends (all_edges node_map leaves)
      → Closed leaves g
  closed g ns es = (
    λ v. ap (has v) ns ∙ has-names v ∙ has-add_nodes v leaves [],
    λ v. rw (ns, count-names v) (once-add_nodes leaves [] (λ u. omega arith) v),
    rw (ns, es)
        (all_of-sort_by (inside names) by_ends (all_edges node_map leaves)
          ∙ all_of-same (inside names) (inside (ids_of node_map)) (all_edges node_map leaves)
              inside-names
          ∙ all_edges-inside node_map leaves (λ v p. has-add_nodes v leaves [] ∙ p)),
  )

-- A graph that is built from leaf operators has one node for each id of a leaf, and every edge leads from
-- one of these nodes to another or the same.
pub build_action_graph-Closed :
    (run_id created_at description : String) (leaves : List HtnLeafOperator) (g : ActionGraph)
    → build_action_graph run_id created_at description leaves ≡ ok g
    → ((v : String) → has v (node_ids g) ≡ has v (ids leaves))
      × ((v : String) → count v (node_ids g) ≤ 1)
      × (all_of (inside (node_ids g)) g.edges ≡ true)
unfolding build_action_graph
build_action_graph-Closed run_id created_at description [] g e = absurd (cc e)
build_action_graph-Closed run_id created_at description (l ∷ ls) g e =
    subst (Closed (l ∷ ls)) (ok-injective e)
      (closed (l ∷ ls) (graph_from run_id created_at description (l ∷ ls)) refl refl)
