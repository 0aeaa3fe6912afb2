-- ===== src/Planning/Dag/Defs.antt =====
-- neuronium_agent/planning/dag.py: the data model, the adjacency maps and `topological_order`.
use neuronium.Prelude.{
  ℕ, zero, suc, String, Bool, true, false, ltb, ◌&&◌, ◌||◌, Option, List, [], ◌∷◌, ◌++◌,
  if◌then◌else◌, length, sort_by, Dict, lookup, insert, get_or, nat_eq, value_error, key_error,
  out_of_fuel, Result, ok, err, or_raise, ◌>>=◌,
}
use neuronium.Prelude.Int.{ℤ, pos, pred, succ, is_zero, ltℤ, eqℤ}
use neuronium.Prelude.Value.{Fields}
use Prim.Native.Char.{code as code_of}

pub data NodeType : Type 0 where
  model mcp code decision aggregate : NodeType

pub record GraphNode : Type 0 where
  pub node_id : String
  pub node_type : NodeType
  pub label : String
  pub parameters : Fields
  pub priority : ℤ

pub data EdgeType : Type 0 where
  data_edge control_edge resource_edge conditional_edge : EdgeType

pub record GraphEdge : Type 0 where
  pub source : String
  pub target : String
  pub edge_type : EdgeType
  pub label : String
  pub condition : Option String

pub record ConditionalBranch : Type 0 where
  pub decision_node_id : String
  pub branch_label : String
  pub target_node_ids : List String

pub record GraphMetadata : Type 0 where
  pub plan_id : String
  pub created_at : String
  pub description : String
  pub version : ℤ

pub record ActionGraph : Type 0 where
  pub metadata : GraphMetadata
  pub nodes : List GraphNode
  pub edges : List GraphEdge
  pub conditional_branches : List ConditionalBranch

abbrev pub ids_of : List GraphNode → List String
ids_of [] = []
ids_of (n ∷ ns) = n.node_id ∷ ids_of ns

abbrev pub node_ids : ActionGraph → List String
node_ids g = ids_of g.nodes

-- `{n.node_id: f(n) for n in nodes}`, added to `d`
unfoldable pub collect {ℓ} : {A : Type ℓ} → (GraphNode → A) → List GraphNode → Dict A → Dict A
collect f [] d = d
collect f (n ∷ ns) d = collect f ns (insert n.node_id (f n) d)

unfoldable pub node_map : ActionGraph → Dict GraphNode
node_map g = collect (λ n. n) g.nodes []

-- `d.setdefault(k, []).append(x)`
abbrev pub append_at : String → String → Dict (List String) → Dict (List String)
append_at k x d = insert k (get_or d k [] ++ x ∷ []) d

unfoldable pub link :
    (GraphEdge → String)
    → (GraphEdge → String)
    → List GraphEdge
    → Dict (List String)
    → Dict (List String)
link from to [] d = d
link from to (e ∷ es) d = link from to es (append_at (from e) (to e) d)

unfoldable pub adjacency : ActionGraph → Dict (List String)
adjacency g = link (λ e. e.source) (λ e. e.target) g.edges (collect (λ _. []) g.nodes [])

unfoldable pub predecessors : ActionGraph → Dict (List String)
predecessors g = link (λ e. e.target) (λ e. e.source) g.edges (collect (λ _. []) g.nodes [])

-- `for e in edges: in_deg[e.target] = in_deg.get(e.target, 0) + 1`
unfoldable pub count_edges : List GraphEdge → Dict ℤ → Dict ℤ
count_edges [] d = d
count_edges (e ∷ es) d = count_edges es (insert e.target (succ (get_or d e.target (pos 0))) d)

unfoldable pub in_degrees : ActionGraph → Dict ℤ
in_degrees g = count_edges g.edges (collect (λ _. pos 0) g.nodes [])

-- `s <= t` on texts, by code points
unfoldable pub str_le : String → String → Bool
str_le String.[] t = true
str_le (String.◌∷◌ c s) String.[] = false
str_le (String.◌∷◌ c s) (String.◌∷◌ d t) =
    ltb (code_of c) (code_of d) || (nat_eq (code_of c) (code_of d) && str_le s t)

-- The key `(priority, node_id)`
abbrev pub Key : Type 0
Key = ℤ × String

unfoldable pub key_le : Key → Key → Bool
key_le (p, s) (q, t) = ltℤ p q || (eqℤ p q && str_le s t)

-- `(nmap[nid].priority, nid)` for each item; a missing id is a KeyError.
unfoldable pub with_keys : Dict GraphNode → List String → Result (List Key)
with_keys nmap [] = ok []
with_keys nmap (nid ∷ xs) = do
  n ← or_raise (lookup nid nmap) key_error
  ks ← with_keys nmap xs
  ok ((n.priority, nid) ∷ ks)

abbrev pub names : List Key → List String
names [] = []
names ((p, s) ∷ ks) = s ∷ names ks

-- `sorted(xs, key=lambda nid: (nmap[nid].priority, nid))`
unfoldable pub sort_ids : Dict GraphNode → List String → Result (List String)
sort_ids nmap xs = do ks ← with_keys nmap xs; ok (names (sort_by key_le ks))

-- `[nid for nid, d in in_deg.items() if d == 0]`
abbrev pub zero_keys : Dict ℤ → List String
zero_keys [] = []
zero_keys ((k, d) ∷ ds) = let rest = zero_keys ds in if is_zero d then k ∷ rest else rest

pub record KahnState : Type 0 where
  pub in_deg : Dict ℤ
  pub queue : List String

-- The body of `for succ in adj.get(node_id, [])`.
unfoldable pub relax : Dict GraphNode → String → KahnState → Result KahnState
relax nmap s st = do
  d ← or_raise (lookup s st.in_deg) key_error
  queue ← if is_zero (pred d) then sort_ids nmap (st.queue ++ s ∷ []) else ok st.queue
  ok (record { in_deg = insert s (pred d) st.in_deg; queue = queue })

unfoldable pub relax_all : Dict GraphNode → List String → KahnState → Result KahnState
relax_all nmap [] st = ok st
relax_all nmap (s ∷ ss) st = do st' ← relax nmap s st; relax_all nmap ss st'

-- `while queue`: one round pops the head of the queue.
unfoldable pub kahn_loop :
    ℕ
    → Dict GraphNode
    → Dict (List String)
    → Dict ℤ
    → List String
    → List String
    → Result (List String)
kahn_loop fuel nmap adj deg [] order = ok order
kahn_loop zero nmap adj deg (nid ∷ queue) order = err out_of_fuel
kahn_loop (suc fuel) nmap adj deg (nid ∷ queue) order = do
  st ← relax_all nmap (get_or adj nid []) (record { in_deg = deg; queue = queue })
  kahn_loop fuel nmap adj st.in_deg st.queue (order ++ nid ∷ [])

unfoldable pub topological_order : ActionGraph → Result (List String)
topological_order g = do
  queue ← sort_ids (node_map g) (zero_keys (in_degrees g))
  order ← kahn_loop (length (in_degrees g)) (node_map g) (adjacency g) (in_degrees g) queue []
  if nat_eq (length order) (length g.nodes) then ok order else err value_error
