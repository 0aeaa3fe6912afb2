-- ===== src/Tests/Samples.antt =====
-- A graph in which `plan` decides between `draft` and `ask`, and `check` follows `draft`.
use neuronium.Prelude.{
  ℕ, String, none, some, List, [], ◌∷◌, Dict, Bool, true, not, ◌&&◌, ◌≡◌, ◌≤◌, arith, has, count,
  eq_iff, has_of_count, Result, ok,
}
use neuronium.Prelude.Int.{pos}
use neuronium.Prelude.Value.{Value, Fields, str, field, null}
use neuronium.Planning.Dag.{
  NodeType, GraphNode, GraphEdge, ConditionalBranch, ActionGraph, code, decision, data_edge,
}
use neuronium.Nodes.{NodeOutput, completed, failed}

abbrev pub a_node : String → NodeType → ℕ → GraphNode
a_node name kind priority = record {
  node_id = name;
  node_type = kind;
  label = name;
  parameters = Fields.end;
  priority = pos priority;
}

abbrev pub an_edge : String → String → GraphEdge
an_edge s t = record { source = s; target = t; edge_type = data_edge; label = ""; condition = none }

abbrev pub a_graph : List GraphNode → List GraphEdge → List ConditionalBranch → ActionGraph
a_graph ns es bs = record {
  metadata = record { plan_id = "p"; created_at = ""; description = ""; version = pos 1 };
  nodes = ns;
  edges = es;
  conditional_branches = bs;
}

-- a → c ← b, where b goes before a
abbrev pub join_graph : ActionGraph
join_graph =
    a_graph (a_node "c" code 0 ∷ a_node "a" code 2 ∷ a_node "b" code 1 ∷ [])
      (an_edge "a" "c" ∷ an_edge "b" "c" ∷ []) []

abbrev pub cycle_graph : ActionGraph
cycle_graph =
    a_graph (a_node "a" code 0 ∷ a_node "b" code 0 ∷ []) (an_edge "a" "b" ∷ an_edge "b" "a" ∷ []) []

abbrev pub a_branch : String → String → List String → ConditionalBranch
a_branch d l ts = record { decision_node_id = d; branch_label = l; target_node_ids = ts }

abbrev pub branch_graph : ActionGraph
branch_graph =
    a_graph
      (a_node "plan" decision 0
        ∷ a_node "draft" code 0
        ∷ a_node "ask" code 0
        ∷ a_node "check" code 0
        ∷ [])
      (an_edge "plan" "draft" ∷ an_edge "plan" "ask" ∷ an_edge "draft" "check" ∷ [])
      (a_branch "plan" "yes" ("draft" ∷ "check" ∷ []) ∷ a_branch "plan" "no" ("ask" ∷ []) ∷ [])

abbrev pub an_output : Fields → NodeOutput
an_output fs = record {
  outputs = fs;
  quality_signals = null;
  status = completed;
  error = none;
  failure_class = none;
}

abbrev pub a_failure : String → NodeOutput
a_failure text = record {
  outputs = Fields.end;
  quality_signals = null;
  status = failed;
  error = some text;
  failure_class = none;
}

abbrev pub text_of : Value → String
text_of (str s) = s
text_of v = "?"

-- Every node outputs a branch value.
abbrev pub answering : String → Dict NodeOutput → String → Result NodeOutput
answering answer results name = ok (an_output (field "branch" (str answer) Fields.end))

-- A list in which no text stands twice.
abbrev pub distinct : List String → Bool
distinct [] = true
distinct (x ∷ xs) = not (has x xs) && distinct xs

pub distinct_once : (xs : List String) → distinct xs ≡ true → (v : String) → count v xs ≤ 1
distinct_once [] h v = omega arith
distinct_once (x ∷ xs) h v =
    ground (arith, eq_iff x v, has_of_count v xs, distinct_once xs (ground arith) v)
