-- ===== src/Planning/Htn/Build.antt =====
-- `_build_action_graph`. `node_map` is the list of its nodes, each under its own id, and the time of
-- creation is given.
use neuronium.Prelude.{
  ℕ, ◌+◌, String, Bool, Option, none, some, List, [], ◌∷◌, ◌++◌, is_empty, has, if◌then◌else◌,
  str_eq, sort_by, Result, ok, err, value_error,
}
use neuronium.Prelude.Int.{pos}
use neuronium.Prelude.Text.{append}
use neuronium.Prelude.Value.{Fields, str, get_field, put_field}
use neuronium.Planning.Dag.{
  NodeType, mcp, data_edge, GraphNode, GraphEdge, ActionGraph, ids_of, str_le,
}
use neuronium.Planning.Slots.{unique}
use neuronium.Planning.Htn.{HtnLeafOperator}

-- `params.setdefault("tool_name", leaf.tool_name)`, for a tool's leaf
abbrev pub set_tool : Option String → NodeType → Fields → Fields
set_tool (some tool) mcp fs = if str_eq tool "" then fs else elim (get_field "tool_name" fs) [
  | none ↦ put_field "tool_name" (str tool) fs
  | some v ↦ fs
]
set_tool tool kind fs = fs

abbrev pub leaf_node : HtnLeafOperator → GraphNode
leaf_node l = record {
  node_id = l.node_id;
  node_type = l.node_type;
  label = "";
  parameters = set_tool l.tool_name l.node_type l.parameters;
  priority = pos 0;
}

-- The first leaf with an id makes its node.
unfoldable pub add_nodes : List HtnLeafOperator → List GraphNode → List GraphNode
add_nodes [] m = m
add_nodes (l ∷ ls) m = add_nodes ls (if has l.node_id (ids_of m) then m else m ++ leaf_node l ∷ [])

abbrev pub dependency : String → String → GraphEdge
dependency source target = record {
  source = source;
  target = target;
  edge_type = data_edge;
  label = "";
  condition = none;
}

unfoldable pub leaf_edges : List GraphNode → String → List String → List GraphEdge
leaf_edges m target [] = []
leaf_edges m target (dep ∷ deps) =
    if has dep (ids_of m)
    then dependency dep target ∷ leaf_edges m target deps
    else leaf_edges m target deps

unfoldable pub all_edges : List GraphNode → List HtnLeafOperator → List GraphEdge
all_edges m [] = []
all_edges m (l ∷ ls) =
    leaf_edges m l.node_id (sort_by str_le (unique l.depends_on)) ++ all_edges m ls

-- `node_map[node_id].priority = idx`
unfoldable pub numbered : ℕ → List GraphNode → List GraphNode
numbered idx [] = []
numbered idx (n ∷ ns) = record n { priority = pos idx } ∷ numbered (idx + 1) ns

abbrev pub by_id : GraphNode → GraphNode → Bool
by_id a b = str_le a.node_id b.node_id

-- The order of the keys (source, target, edge_type, label), of which the last two are always the same.
abbrev pub by_ends : GraphEdge → GraphEdge → Bool
by_ends a b =
    if str_eq a.source b.source then str_le a.target b.target else str_le a.source b.source

abbrev pub graph_from : String → String → String → List HtnLeafOperator → ActionGraph
graph_from run_id created_at description leaves = record {
  metadata = record {
    plan_id = append "plan-htn-recursive-v0-" run_id;
    created_at = created_at;
    description = description;
    version = pos 1;
  };
  nodes = numbered 0 (sort_by by_id (add_nodes leaves []));
  edges = sort_by by_ends (all_edges (add_nodes leaves []) leaves);
  conditional_branches = [];
}

unfoldable pub build_action_graph :
    String → String → String → List HtnLeafOperator → Result ActionGraph
build_action_graph run_id created_at description leaves =
    if is_empty leaves
    then err value_error
    else ok (graph_from run_id created_at description leaves)
