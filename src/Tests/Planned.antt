-- ===== src/Tests/Planned.antt =====
-- The decomposition of an objective that comes with documents, by a model that names a method.
use neuronium.Prelude.{
  ◌∷◌, [], ◌≡◌, refl, ok, some, String, List, true, ◌⊎◌, err, value_error, inl, inr, arith, length,
  sort_by, insert_by, has, count, all_of, ◌≤◌,
}
use neuronium.Prelude.Value.{get_field, items, Fields, nil, cons, end, field, null, str, arr}
use neuronium.Planning.Htn.{
  read_leaves, BackendOptions, Given, docs, root_web_pipeline, HtnLeafOperator, ids, web,
}
use neuronium.Planning.Htn.Decompose.{Progress, decompose}
use neuronium.Planning.Htn.Limits.{Exceeds, WithinLimits}
use neuronium.Planning.Htn.Expand.{doc_leaves, draft_leaves, critic_leaves}
use neuronium.Planning.Htn.Leaves.{leaves_for, decompose-leaves}
use neuronium.Planning.Dag.{str_le, mcp, node_ids, topological_order}
use neuronium.Planning.Htn.Build.{build_action_graph, graph_from}
use neuronium.Planning.Htn.Closed.{inside, build_action_graph-Closed}
use neuronium.Planning.Htn.Ordered.{order_for, topological_order-graph_from}
use neuronium.Tests.Samples.{text_of}

abbrev two_docs : Fields
two_docs = field "doc_paths" (arr (cons (str "b.md") (cons (str "a.md") nil))) end

-- The model names the method for the web.
abbrev an_answer : Given
an_answer = record {
  str_of = text_of;
  lower_text = λ s. s;
  run_id = "e";
  critic_prompt = λ context. "check";
  critic_schema = null;
  answer = λ n subgoal. some root_web_pipeline;
}

abbrev some_options : BackendOptions
some_options = record {
  max_depth = 4;
  max_frontier = 64;
  max_total_nodes = 64;
  model_assisted_method_selection = true;
  model_assisted_max_calls = 2;
}

decompose-leaves_example :
    let r = decompose an_answer some_options two_docs docs "objective" in
    let leaves = leaves_for an_answer some_options two_docs docs "objective" in
    ((r ≡ err value_error) × Exceeds some_options leaves)
    ⊎ ((p : Progress) × ((r ≡ ok p)
          × (p.leaves ≡ leaves)
          × WithinLimits an_answer some_options two_docs docs p))
decompose-leaves_example = decompose-leaves an_answer some_options two_docs docs "objective"

-- The two documents are read and merged, and the report is drafted and checked: no limit is exceeded.
five_leaves : length (leaves_for an_answer some_options two_docs docs "objective") ≡ 5
unfolding doc_leaves read_leaves draft_leaves critic_leaves get_field items sort_by insert_by str_le
five_leaves = refl

within_limits :
    Exceeds some_options (leaves_for an_answer some_options two_docs docs "objective") → ⊥
within_limits h = elim h [
  | inl few ↦ omega arith
  | inr (inl shallow) ↦ omega arith
  | inr (inr many) ↦ omega (arith, five_leaves)
]

decomposes :
    let r = decompose an_answer some_options two_docs docs "objective" in
    (p : Progress) × ((r ≡ ok p)
      × (p.leaves ≡ leaves_for an_answer some_options two_docs docs "objective"))
decomposes = elim (decompose-leaves an_answer some_options two_docs docs "objective") [
  | inl (_, limit) ↦ absurd (within_limits limit)
  | inr (p, (good, same, _)) ↦ (p, (good, same))
]

abbrev a_leaf : String → List String → HtnLeafOperator
a_leaf name deps = record {
  subgoal_id = "s";
  node_id = name;
  node_type = mcp;
  tool_name = some "t";
  parameters = end;
  depends_on = deps;
}

-- The first leaf waits for one that is missing.
abbrev two_leaves : List HtnLeafOperator
two_leaves = a_leaf "b" ("a" ∷ "missing" ∷ []) ∷ a_leaf "a" [] ∷ []

builds : build_action_graph "e" "" "" two_leaves ≡ ok (graph_from "e" "" "" two_leaves)
unfolding build_action_graph
builds = refl

build_action_graph-Closed_example :
    ((v : String) → has v (node_ids (graph_from "e" "" "" two_leaves)) ≡ has v (ids two_leaves))
    × ((v : String) → count v (node_ids (graph_from "e" "" "" two_leaves)) ≤ 1)
    × (all_of
          (inside (node_ids (graph_from "e" "" "" two_leaves)))
          (graph_from "e" "" "" two_leaves).edges
        ≡ true)
build_action_graph-Closed_example =
    build_action_graph-Closed "e" "" "" two_leaves (graph_from "e" "" "" two_leaves) builds

a_page : ¬ (web ≡ docs)
a_page h = cc h

topological_order-graph_from_example :
    topological_order
      (graph_from "e" "" "" (leaves_for an_answer some_options two_docs web "objective"))
    ≡ ok (order_for web)
topological_order-graph_from_example =
    topological_order-graph_from an_answer some_options two_docs web "objective" "e" "" "" a_page
