-- ===== src/Execution/Loop/Defs.antt =====
-- `DAGExecutor.execute`, its state and one round of its loop. How a node computes its output from
-- the results so far, or raises, is a parameter, `run_node` (see `run_single`); so is `str`, which
-- turns a branch value into a text, the order in which the futures of a batch finish, and what
-- `interrupt_check` answers after each batch.
use neuronium.Prelude.{
  is_empty, ℕ, zero, suc, ◌+◌, String, Bool, true, false, not, ◌&&◌, Option, none, some, List, [],
  ◌∷◌, ◌++◌, if◌then◌else◌, length, keep, all_of, any_of, has, remove_first, str_eq, ltb, Dict,
  lookup, insert, get_or, keys, contains, value_error, type_error, runtime_error, out_of_fuel,
  Result, ok, err, ◌>>=◌,
}
use neuronium.Prelude.Value.{Value, get_field}
use neuronium.Planning.Dag.{
  ActionGraph, GraphNode, NodeType, ConditionalBranch, node_map, predecessors, topological_order,
  sort_ids,
}
use neuronium.Nodes.{NodeOutput, is_completed, InterruptRequest}

pub record ExecState : Type 0 where
  pub results : Dict NodeOutput
  pub completed : List String
  pub pending : List String
  pub selected_branches : Dict String
  -- the `decision_branch_selected` events: the node and its branch value
  pub selections : List (String × Value)

pub record ExecutionOutcome : Type 0 where
  pub results : Dict NodeOutput
  pub pending : List String
  pub interrupted : Option InterruptRequest

pub data Returned : Type 0 where
  results_only : Dict NodeOutput → Returned
  outcome : ExecutionOutcome → Returned

-- How the loop was left.
pub data Stopped : Type 0 where
  finished : ExecState → Stopped
  interrupted_by : InterruptRequest → ExecState → Stopped

-- `_is_in_unselected_branch`
unfoldable pub in_unselected : String → List ConditionalBranch → Dict String → Bool
in_unselected node_id branches selected =
    any_of
      (λ cb. has node_id cb.target_node_ids && (elim (lookup cb.decision_node_id selected) [
        | none ↦ false
        | some sel ↦ not (str_eq sel cb.branch_label)
      ]))
      branches

abbrev pub is_decision : NodeType → Bool
is_decision NodeType.decision = true
is_decision _ = false

-- `output.outputs.get(branch_key)`, where the key is a parameter of the node. A list or a dict is not
-- hashable, and any other value that is no text is not found.
unfoldable pub branch_value : GraphNode → NodeOutput → Result (Option Value)
branch_value gn output = elim (get_field "branch_output_key" gn.parameters) [
  | none ↦ ok (get_field "branch" output.outputs)
  | some v ↦ elim v [
    | Value.str k ↦ ok (get_field k output.outputs)
    | Value.arr xs ↦ err type_error
    | Value.obj fs ↦ err type_error
    | _ ↦ ok none
  ]
]

-- A branch value that is not None.
abbrev pub not_null : Option Value → Option Value
not_null none = none
not_null (some Value.null) = none
not_null (some v) = some v

module _ (str : Value → String) where
  -- The branch that a completed decision node has selected, if it is one.
  unfoldable pub selection : Dict GraphNode → String → NodeOutput → Result (Option Value)
  selection nmap nid output = elim (lookup nid nmap) [
    | none ↦ ok none
    | some gn ↦
        if is_decision gn.node_type && is_completed output.status
        then (branch_value gn output >>= λ v. ok (not_null v))
        else ok none
  ]

  -- `for nid, output in initial_results.items()`
  unfoldable pub restore : Dict GraphNode → Dict NodeOutput → Dict String → Result (Dict String)
  restore nmap [] selected = ok selected
  restore nmap ((nid, output) ∷ rs) selected = selection nmap nid output >>= λ v.
      restore nmap rs (elim v [ none ↦ selected | some b ↦ insert nid (str b) selected ])

  -- One pass of `for nid, output in batch_results`.
  unfoldable pub record_selection : String → Option Value → ExecState → ExecState
  record_selection nid none st = st
  record_selection nid (some b) st = record st {
    selected_branches = insert nid (str b) st.selected_branches;
    selections = st.selections ++ (nid, b) ∷ [];
  }

  unfoldable pub commit : Dict GraphNode → String → NodeOutput → ExecState → Result ExecState
  commit nmap nid output st = do
    v ← selection nmap nid output
    ok (
        record_selection nid v (record st {
          results = insert nid output st.results;
          completed = st.completed ++ nid ∷ [];
          pending = remove_first nid st.pending;
        }))

  unfoldable pub commit_all : Dict GraphNode → Dict NodeOutput → ExecState → Result ExecState
  commit_all nmap [] st = ok st
  commit_all nmap ((nid, output) ∷ rs) st = do
    st' ← commit nmap nid output st
    commit_all nmap rs st'

-- `all(p in completed for p in preds.get(nid, []))`
unfoldable pub satisfied : Dict (List String) → List String → String → Bool
satisfied preds completed nid = all_of (λ p. has p completed) (get_or preds nid [])

-- `for nid in skipped: pending.remove(nid); completed.add(nid)`
unfoldable pub skip_all : List String → ExecState → ExecState
skip_all [] st = st
skip_all (nid ∷ ss) st =
    skip_all ss
      (record st { completed = st.completed ++ nid ∷ []; pending = remove_first nid st.pending })

abbrev pub take : ℕ → List String → List String
take zero xs = []
take (suc n) [] = []
take (suc n) (x ∷ xs) = x ∷ take n xs

-- What one round finds before it runs anything.
unfoldable pub preds_satisfied : ActionGraph → ExecState → List String
preds_satisfied g st = keep (satisfied (predecessors g) st.completed) st.pending

unfoldable pub ready_nodes : ActionGraph → ExecState → List String
ready_nodes g st =
    keep (λ nid. not (in_unselected nid g.conditional_branches st.selected_branches))
      (preds_satisfied g st)

unfoldable pub skipped_nodes : ActionGraph → ExecState → List String
skipped_nodes g st = keep (λ nid. not (has nid (ready_nodes g st))) (preds_satisfied g st)

-- The outputs of nodes that run side by side: none of them sees another's result. The first node that
-- raises decides the exception.
unfoldable pub outputs_of : (String → Result NodeOutput) → List String → Result (Dict NodeOutput)
outputs_of run [] = ok []
outputs_of run (nid ∷ xs) =
    let rest = outputs_of run xs in run nid >>= λ out. rest >>= λ outs. ok ((nid, out) ∷ outs)

-- The answer after the `n`-th batch.
unfoldable pub interrupt_after : Option (ℕ → Option InterruptRequest) → ℕ → Option InterruptRequest
interrupt_after interrupt_check n = elim interrupt_check [ none ↦ none | some check ↦ check n ]

-- The state that the loop starts from, on a fresh run or on a resumed one.
unfoldable pub start_state : (Value → String) → ActionGraph → Dict NodeOutput → Result ExecState
start_state str g initial_results = do
  order ← topological_order g
  selected ← restore str (node_map g) initial_results []
  ok (record {
    results = initial_results;
    completed = keys initial_results;
    pending = keep (λ nid. not (contains nid initial_results)) order;
    selected_branches = selected;
    selections = [];
  })

unfoldable pub return_value : Option (ℕ → Option InterruptRequest) → Stopped → Returned
return_value interrupt_check (finished st) = elim interrupt_check [
  | none ↦ results_only st.results
  | some check ↦ outcome (record { results = st.results; pending = []; interrupted = none })
]
return_value interrupt_check (interrupted_by request st) =
    outcome (record { results = st.results; pending = st.pending; interrupted = some request })

module _ (str : Value → String) (run_node : Dict NodeOutput → String → Result NodeOutput)
    (finish_order : List String → List String) (max_parallel : ℕ)
    (interrupt_check : Option (ℕ → Option InterruptRequest)) where
  -- `_execute_batch`: a lone node runs by itself; a pool of no workers is a ValueError. Of several
  -- nodes, the first to finish that has raised decides the exception; else their results are sorted by
  -- (priority, node_id). As an output depends on the node alone, they are read off in that order.
  unfoldable pub execute_batch :
      ActionGraph → Dict NodeOutput → List String → Result (Dict NodeOutput)
  execute_batch g results (nid ∷ []) = outputs_of (run_node results) (nid ∷ [])
  execute_batch g results batch =
      if ltb 0 max_parallel
      then (do
        _ ← outputs_of (run_node results) (finish_order batch)
        sorted ← sort_ids (node_map g) (finish_order batch)
        outputs_of (run_node results) sorted)
      else err value_error

  -- The batch that a round runs, and its effect on the state.
  unfoldable pub run_batch : ActionGraph → ExecState → List String → Result ExecState
  run_batch g st ready = do
    sorted ← sort_ids (node_map g) ready
    outputs ← execute_batch g st.results (take max_parallel sorted)
    commit_all str (node_map g) outputs st

  -- `while pending`
  unfoldable pub execute_loop : ℕ → ActionGraph → ℕ → ExecState → Result Stopped
  execute_loop zero g n st = if is_empty st.pending then ok (finished st) else err out_of_fuel
  execute_loop (suc fuel) g n st =
      let ready = ready_nodes g st in
      let st1 = skip_all (skipped_nodes g st) st in
      let go_on = λ (st2 : ExecState). execute_loop fuel g (n + 1) st2 in
      let round = run_batch g st1 ready >>= λ st2. elim (interrupt_after interrupt_check n) [
        | none ↦ go_on st2
        | some request ↦ ok (interrupted_by request st2)
      ] in
      if is_empty st.pending
      then ok (finished st)
      else if is_empty ready
      then (if is_empty st1.pending then ok (finished st1) else err runtime_error)
      else round

  unfoldable pub execute : ActionGraph → Dict NodeOutput → Result Returned
  execute g initial_results = do
    st ← start_state str g initial_results
    stopped ← execute_loop (length st.pending) g 0 st
    ok (return_value interrupt_check stopped)
