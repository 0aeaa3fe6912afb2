-- ===== src/Execution/Loop/Complete.antt =====
-- What a whole call of `execute` guarantees.
use neuronium.Prelude.{
  is_empty, ℕ, zero, suc, ◌+◌, ◌<◌, String, ◌≡◌, refl, ap, contains-count-keys, ◌++◌, true, ◌||◌,
  Option, none, some, List, [], ◌∷◌, arith, length, count, has, has_of_count, count_of_has, inl,
  inr, Dict, insert, contains, keys, KeysOnce, Result, Result-cases, Error, ok, err, type_error,
  ◌⊎◌,
}
use neuronium.Prelude.Value.{Value}
use neuronium.Planning.Dag.{ActionGraph, node_map, topological_order, GraphNode, node_ids}
use neuronium.Nodes.{NodeOutput, InterruptRequest}
use neuronium.Execution.Loop.Defs.{
  ExecState, restore, selection, Stopped, finished, interrupted_by, Returned, results_only,
  ready_nodes, skipped_nodes, skip_all, run_batch, interrupt_after, execute_loop, start_state,
  return_value, execute,
}
use neuronium.Execution.Loop.Batch.{no_branch}
use neuronium.Execution.Loop.Round.{selection_error, RaisedIn}
use neuronium.Execution.Loop.Safety.{Safe, execute_loop-Safe, is_empty_nil}
use neuronium.Execution.Loop.Start.{Started, node_total, start_state-Started}

has-append_both : (v : String) (xs ys : List String) → has v (xs ++ ys) ≡ (has v xs || has v ys)
has-append_both v [] ys = refl
has-append_both v (x ∷ xs) ys = ground (arith, has-append_both v xs ys)

module _ (str : Value → String) (run_node : Dict NodeOutput → String → Result NodeOutput)
    (finish_order : List String → List String) (max_parallel : ℕ)
    (interrupt_check : Option (ℕ → Option InterruptRequest)) (g : ActionGraph)
    (initial : Dict NodeOutput) (st : ExecState) where
  abbrev pub whole_run : Result Stopped
  whole_run =
      execute_loop str run_node finish_order max_parallel interrupt_check (length st.pending) g 0 st

  pub execute-Safe :
      ((xs : List String) (v : String) → count v (finish_order xs) ≡ count v xs)
      → 0 < max_parallel
      → KeysOnce initial
      → start_state str g initial ≡ ok st
      → Safe g (keys initial) (node_total st) run_node whole_run
  execute-Safe finish pos once h =
      let s = start_state-Started str g initial st once h in
      execute_loop-Safe g (keys initial) (node_total st) s.once str run_node finish_order
        max_parallel interrupt_check finish pos (length st.pending) 0 st s.inv (omega arith)

-- Without an `interrupt_check` the loop is never interrupted.
never_interrupted :
    (str : Value → String) (run_node : Dict NodeOutput → String → Result NodeOutput)
    (finish_order : List String → List String) (max_parallel fuel : ℕ) (g : ActionGraph) (n : ℕ)
    (st final : ExecState) (request : InterruptRequest)
    → execute_loop str run_node finish_order max_parallel none fuel g n st
      ≡ ok (interrupted_by request final)
    → ⊥
unfolding execute_loop interrupt_after
never_interrupted str run_node finish_order max_parallel zero g n st final request h = ground arith
never_interrupted str run_node finish_order max_parallel (suc fuel) g n st final request h =
    let round =
      run_batch str run_node finish_order max_parallel none g (skip_all (skipped_nodes g st) st)
        (ready_nodes g st) in
    elim (Result-cases round) [
      | inr (e, bad) ↦ ground (arith, bad)
      | inl (st2, good) ↦ ground (
        arith,
        good,
        never_interrupted str run_node finish_order max_parallel fuel g (n + 1) st2 final request,
      )
    ]

restore_error :
    (str : Value → String) (nmap : Dict GraphNode) (rs : Dict NodeOutput) (selected : Dict String)
    (e : Error)
    → restore str nmap rs selected ≡ err e
    → e ≡ type_error
unfolding restore
restore_error str nmap [] selected e h = cc
restore_error str nmap ((nid, output) ∷ rs) selected e h =
    elim (Result-cases (selection str nmap nid output)) [
      | inr (x, bad) ↦ ground (arith, bad, selection_error str nmap nid output bad)
      | inl (b, good) ↦
          restore_error str nmap rs
            (elim b [ none ↦ selected | some w ↦ insert nid (str w) selected ]) e (rw good at h)
    ]

module _ (str : Value → String) (run_node : Dict NodeOutput → String → Result NodeOutput)
    (finish_order : List String → List String) (max_parallel : ℕ) (g : ActionGraph)
    (initial : Dict NodeOutput) where
  abbrev pub executed : Result Returned
  executed = execute str run_node finish_order max_parallel none g initial

  start_error :
      (order : List String)
      → topological_order g ≡ ok order
      → (e : Error) → start_state str g initial ≡ err e
      → e ≡ type_error
  unfolding start_state
  start_error order t e h = elim (Result-cases (restore str (node_map g) initial [])) [
    | inl (selected, good) ↦ absurd (ground (arith, t, good))
    | inr (x, bad) ↦ ground (arith, t, bad, restore_error str (node_map g) initial [] x bad)
  ]

  -- What is left to show of a run that starts in `st`.
  ends_of_Safe :
      (st : ExecState) (r : Result Stopped)
      → is_empty g.conditional_branches ≡ true
      → Started str g initial st
      → ((final : ExecState) (request : InterruptRequest)
          → r ≡ ok (interrupted_by request final)
          → ⊥)
      → Safe g (keys initial) (node_total st) run_node r
      → ((e : Error) × (r ≡ err e) × ((e ≡ type_error) ⊎ RaisedIn g run_node e))
        ⊎ ((final : ExecState) × (r ≡ ok (finished final))
            × ((v : String)
                → contains v final.results ≡ (contains v initial || has v (node_ids g))))
  ends_of_Safe st (err e) nb s ni safe = elim safe [
    | inl type ↦ inl (e, refl, inl type)
    | inr (inl (dead, branches)) ↦ absurd (ground (arith, nb, branches))
    | inr (inr raised) ↦ inl (e, refl, inr raised)
  ]
  ends_of_Safe st (ok (interrupted_by request final)) nb s ni safe = absurd (ni final request refl)
  ends_of_Safe st (ok (finished final)) nb s ni safe =
      let none_pruned : g.conditional_branches ≡ [] = is_empty_nil g.conditional_branches nb in
      let inv = safe.0 in
      inr (
        final,
        refl,
        λ v. ground (
          arith,
          inv.partition v,
          ap (count v) (is_empty_nil final.pending safe.1),
          ap (has v) inv.split,
          has-append_both v (keys initial) inv.added,
          inv.run_or_skipped v,
          inv.kept v,
          inv.executed v,
          no_branch v g.conditional_branches final.selected_branches none_pruned,
          s.all_nodes v,
          contains-count-keys v initial,
          has_of_count v final.completed,
          count_of_has v final.completed,
        ),
      )

  pub execute_all :
      ((xs : List String) (v : String) → count v (finish_order xs) ≡ count v xs)
      → 0 < max_parallel
      → KeysOnce initial
      → is_empty g.conditional_branches ≡ true
      → (order : List String) → topological_order g ≡ ok order
      → ((e : Error) × (executed ≡ err e) × ((e ≡ type_error) ⊎ RaisedIn g run_node e))
        ⊎ ((results : Dict NodeOutput) × (executed ≡ ok (results_only results))
            × ((v : String) → contains v results ≡ (contains v initial || has v (node_ids g))))
  unfolding execute return_value
  execute_all finish pos once nb order t = elim (Result-cases (start_state str g initial)) [
    | inr (e, bad) ↦ inl (e, rw bad refl, inl (start_error order t e bad))
    | inl (st, good) ↦
        let run =
          execute_loop str run_node finish_order max_parallel none (length st.pending) g 0 st in
        let s = start_state-Started str g initial st once good in
        let safe =
          execute-Safe str run_node finish_order max_parallel none g initial st finish pos once
            good in
        elim (ends_of_Safe st run nb s
          (λ final request.
            never_interrupted str run_node finish_order max_parallel (length st.pending) g 0 st
              final request)
          safe) [
            | inl (e, bad, cause) ↦ inl (e, simp (good, bad), cause)
            | inr (final, e, all) ↦ inr (final.results, simp (good, e), all)
          ]
  ]
