-- ===== src/Tests/Runs.antt =====
-- Runs of the executor on small graphs.
use neuronium.Prelude.{
  String, ◌≡◌, refl, none, some, List, [], ◌∷◌, arith, count, has, Dict, contains, ok, err, Error,
  Result, str_eq, if◌then◌else◌, value_error, type_error, runtime_error, ◌⊎◌, insert, lookup,
  sort_by, insert_by,
}
use neuronium.Prelude.Int.{pos, is_zero, succ, ltℤ, eqℤ, pred}
use neuronium.Prelude.Value.{
  items, Value, Fields, null, int, cons, nil, field, get_field, put_field, truthy, get_value,
}
use neuronium.Planning.Dag.{
  ActionGraph, topological_order, node_ids, node_map, sort_ids, with_keys, in_degrees, count_edges,
  collect, kahn_loop, key_le, relax_all, adjacency, link, relax, str_le, predecessors, decision,
  model, code,
}
use neuronium.Nodes.{NodeOutput}
use neuronium.Execution.Single.{
  RunIds, RetryConfig, Run, returned, raised, execute_single, run_single,
}
use neuronium.Execution.Inputs.{
  gather_inputs, add_prompt, prompt_for, build_critic_prompt, merged_inputs, merge_outputs,
  add_defaults, preserve, constraints_part, texts_of,
}
use neuronium.Execution.Single.Retries.{IsRun, execute_single-IsRun}
use neuronium.Execution.Loop.{
  ExecState, results_only, selection, restore, record_selection, commit, commit_all, satisfied,
  skip_all, preds_satisfied, ready_nodes, skipped_nodes, outputs_of, execute_batch, interrupt_after,
  run_batch, execute_loop, start_state, execute, in_unselected, branch_value,
}
use neuronium.Execution.Loop.Safety.{Safe}
use neuronium.Execution.Loop.Start.{node_total}
use neuronium.Execution.Loop.Complete.{whole_run, executed, execute-Safe, execute_all}
use neuronium.Execution.Loop.Determinism.{Alike, execute-same}
use neuronium.Execution.Loop.Round.{RaisedIn}
use neuronium.Tests.Graphs.{join_order}
use neuronium.Tests.Samples.{
  join_graph, branch_graph, a_graph, a_node, an_edge, a_branch, text_of, answering, an_output,
}

abbrev a_config : RetryConfig
a_config = record { max_node_retries = 3; retry_backoff_base = 1000; upgrade_threshold = 2 }

abbrev some_run_ids : RunIds
some_run_ids = record { execution_id = "e"; trace_id = "t"; seed = pos 0 }

execute_single-IsRun_example :
    let gathered =
      gather_inputs text_of text_of join_graph [] "a"
        (lookup "a" (node_map join_graph))
        Fields.end in
    let result =
      execute_single a_config null text_of text_of some_run_ids join_graph Fields.end
        (some (λ i. raised "timeout"))
        []
        "a" in
    ((e : Error) × (gathered ≡ err e) × (result ≡ err e))
    ⊎ ((inputs : Fields) × (gathered ≡ ok inputs)
        × ((r : Run) × (result ≡ ok r) × IsRun a_config 0 r))
execute_single-IsRun_example =
    execute_single-IsRun a_config null text_of text_of some_run_ids join_graph Fields.end
      (λ i. raised "timeout") [] "a"

-- Every node is implemented.
abbrev running : Dict NodeOutput → String → Result NodeOutput
running =
    run_single a_config null text_of text_of some_run_ids join_graph Fields.end
      (λ name. some (λ i. returned (an_output Fields.end)))

abbrev branch_start : ExecState
branch_start = record {
  results = [];
  completed = [];
  pending = "plan" ∷ "ask" ∷ "draft" ∷ "check" ∷ [];
  selected_branches = [];
  selections = [];
}

branch_starts : start_state text_of branch_graph [] ≡ ok branch_start
unfolding start_state restore topological_order sort_ids with_keys in_degrees count_edges insert
    collect is_zero succ lookup node_map kahn_loop sort_by insert_by key_le ltℤ eqℤ relax_all
    adjacency link relax str_le pred
branch_starts = refl

execute-Safe_example :
    Safe branch_graph []
      (node_total branch_start)
      (answering "yes")
      (whole_run text_of (answering "yes") (λ xs. xs) 2 none branch_graph [] branch_start)
execute-Safe_example =
    execute-Safe text_of (answering "yes") (λ xs. xs) 2 none branch_graph [] branch_start
      (λ xs v. refl) (omega arith) (λ v. omega arith) branch_starts

execute_all_example :
    ((e : Error) × (executed text_of running (λ xs. xs) 2 join_graph [] ≡ err e)
      × ((e ≡ type_error) ⊎ RaisedIn join_graph running e))
    ⊎ ((results : Dict NodeOutput) × (executed text_of running (λ xs. xs) 2 join_graph []
          ≡ ok (results_only results))
        × ((v : String) → contains v results ≡ has v (node_ids join_graph)))
unfolding lookup
execute_all_example =
    execute_all text_of running (λ xs. xs) 2 join_graph [] (λ xs v. refl) (omega arith)
      (λ v. omega arith) refl ("b" ∷ "a" ∷ "c" ∷ []) join_order

abbrev swap : List String → List String
swap (x ∷ y ∷ xs) = y ∷ x ∷ xs
swap xs = xs

swap_counts : (xs : List String) (v : String) → count v xs ≡ count v (swap xs)
swap_counts [] v = refl
swap_counts (x ∷ []) v = refl
swap_counts (x ∷ y ∷ xs) v = omega arith

-- The two nodes without predecessors raise, each its own exception.
abbrev failing : Dict NodeOutput → String → Result NodeOutput
failing results name = if str_eq name "a" then err type_error else err value_error

execute-same_example :
    Alike failing
      (execute text_of failing (λ xs. xs) 2 none join_graph [])
      (execute text_of failing swap 2 none join_graph [])
execute-same_example = execute-same text_of failing (λ xs. xs) swap 2 none swap_counts join_graph []

first_to_finish_raises :
    (execute text_of failing (λ xs. xs) 2 none join_graph [] ≡ err value_error)
    × (execute text_of failing swap 2 none join_graph [] ≡ err type_error)
unfolding execute execute_loop start_state restore topological_order sort_ids with_keys in_degrees
    count_edges insert collect is_zero succ lookup node_map kahn_loop sort_by insert_by key_le ltℤ
    eqℤ relax_all adjacency link relax str_le pred run_batch execute_batch outputs_of commit_all
    commit selection branch_value record_selection skip_all skipped_nodes ready_nodes
    preds_satisfied satisfied predecessors in_unselected interrupt_after get_field
first_to_finish_raises = (refl, refl)

-- A critic whose constraints are no texts stops the run before it is tried.
abbrev critic_graph : ActionGraph
critic_graph =
    a_graph
      (record (a_node "critic" model 0) {
        parameters = field "json_schema" (Value.str "schema") Fields.end;
      }
        ∷ [])
      [] []

critic_raises :
    run_single a_config null text_of text_of some_run_ids critic_graph
      (field "constraints" (Value.arr (cons (int (pos 1)) nil)) Fields.end)
      (λ name. some (λ i. returned (an_output Fields.end)))
      []
      "critic"
    ≡ err type_error
unfolding run_single execute_single gather_inputs add_prompt prompt_for build_critic_prompt lookup
    node_map insert merged_inputs merge_outputs add_defaults preserve get_field put_field truthy
    get_value predecessors collect link constraints_part texts_of items
critic_raises = refl

-- A branch with two more nodes than the one that was selected: when its second node is skipped nothing
-- is ready, and the loop stops although its third node could be skipped next.
abbrev long_branch : ActionGraph
long_branch =
    a_graph (a_node "d" decision 0 ∷ a_node "x" code 0 ∷ a_node "y" code 0 ∷ [])
      (an_edge "d" "x" ∷ an_edge "x" "y" ∷ []) (a_branch "d" "long" ("x" ∷ "y" ∷ []) ∷ [])

skipped_chain_deadlocks :
    execute text_of (answering "short") (λ xs. xs) 2 none long_branch [] ≡ err runtime_error
unfolding execute execute_loop start_state restore topological_order sort_ids with_keys in_degrees
    count_edges insert collect is_zero succ lookup node_map kahn_loop sort_by insert_by key_le ltℤ
    eqℤ relax_all adjacency link relax str_le pred run_batch execute_batch outputs_of commit_all
    commit selection branch_value record_selection skip_all skipped_nodes ready_nodes
    preds_satisfied satisfied predecessors in_unselected interrupt_after get_field
skipped_chain_deadlocks = refl
