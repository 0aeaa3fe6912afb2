-- ===== src/Planning/Htn/Ordered.antt =====
-- The graphs for the contexts whose leaves are always the same can be executed, in this order.
use neuronium.Prelude.{String, List, [], ◌∷◌, ◌≡◌, refl, ok, sort_by, insert_by, insert, lookup}
use neuronium.Prelude.Value.{Fields}
use neuronium.Prelude.Int.{is_zero, succ, ltℤ, eqℤ, pred}
use neuronium.Planning.Dag.{
  topological_order, node_map, sort_ids, with_keys, in_degrees, count_edges, collect, kahn_loop,
  key_le, relax_all, adjacency, link, relax, str_le,
}
use neuronium.Planning.Slots.{unique}
use neuronium.Planning.Htn.{ContextKind, docs, web, file, plain, Given, BackendOptions}
use neuronium.Planning.Htn.Expand.{web_leaves, draft_leaves, critic_leaves}
use neuronium.Planning.Htn.Leaves.{leaves_for}
use neuronium.Planning.Htn.Build.{graph_from, add_nodes, leaf_edges, all_edges, numbered}

-- The order in which the nodes of a context's graph are executed.
abbrev pub order_for : ContextKind → List String
order_for web =
    "fetch_html" ∷ "extract_article" ∷ "draft_report" ∷ "critic_report" ∷ "export_user_output" ∷ []
order_for file = "write_file" ∷ "draft_report" ∷ "critic_report" ∷ []
order_for context = "draft_report" ∷ "critic_report" ∷ []

-- The graph that is built from the leaves of a context is acyclic, unless the context is documents,
-- and its topological order is the same for every objective, all metadata and any answers of a
-- model: the article of a web page is fetched and extracted before the draft, a file is written
-- before the draft about it, and the critic comes after the draft.
pub topological_order-graph_from :
    (given : Given) (options : BackendOptions) (metadata : Fields) (context : ContextKind)
    (objective run_id created_at description : String)
    → ¬ (context ≡ docs)
    → topological_order (
        graph_from run_id created_at description
          (leaves_for given options metadata context objective))
      ≡ ok (order_for context)
unfolding topological_order sort_ids with_keys in_degrees count_edges insert collect is_zero succ
    lookup node_map kahn_loop sort_by insert_by key_le ltℤ eqℤ relax_all adjacency link relax str_le
    pred unique web_leaves draft_leaves critic_leaves add_nodes leaf_edges all_edges numbered
topological_order-graph_from given options metadata docs objective run_id created_at description h =
    absurd (h refl)
topological_order-graph_from given options metadata web objective run_id created_at description h =
    refl
topological_order-graph_from given options metadata file objective run_id created_at description h =
    refl
topological_order-graph_from given options metadata plain objective run_id created_at description
      h =
    refl
