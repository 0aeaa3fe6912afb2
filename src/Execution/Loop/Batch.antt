-- ===== src/Execution/Loop/Batch.antt =====
-- Running one batch: the nodes that are found ready, and what running them leads to.
use neuronium.Prelude.{
  ℕ, ◌<◌, ◌≤◌, String, ◌≡◌, refl, ◌∙◌, ap, subst, true, false, not, Option, List, [], ◌∷◌, arith,
  eq_refl, length, count, count_if, has, has_of_count, length-le_of_count, if◌then◌else◌, Dict,
  contains, keys, ok, err, Result, Error, Result-cases, inl, inr, ◌⊎◌, ◌>>=◌, type_error, lt→ltb,
}
use neuronium.Prelude.Value.{Value}
use neuronium.Planning.Dag.{ActionGraph, ConditionalBranch, node_map, predecessors, sort_ids}
use neuronium.Planning.Dag.Sorting.{sort_ids-IsSorting, sort_ids-total}
use neuronium.Planning.Dag.Degrees.{open_into}
use neuronium.Planning.Dag.Order.{IsOrdered}
use neuronium.Nodes.{NodeOutput, InterruptRequest}
use neuronium.Execution.Loop.Defs.{
  ExecState, in_unselected, skip_all, satisfied, take, preds_satisfied, ready_nodes, skipped_nodes,
  outputs_of, execute_batch, run_batch,
}
use neuronium.Execution.Loop.Ordering.{open_mono, open_of_satisfied, satisfied_of_open}
use neuronium.Execution.Loop.Invariant.{Inv}
use neuronium.Execution.Loop.Round.{
  count-keep, count-take-le, length-take_pos, CanPlace, CanPlace-le, Skipped, skip_all-Skipped,
  Committed, commit_all-Committed, RaisedIn, keys-outputs_of, outputs_of_error,
}

pub no_branch :
    (v : String) (branches : List ConditionalBranch) (selected : Dict String)
    → branches ≡ []
    → in_unselected v branches selected ≡ false
unfolding in_unselected
no_branch v branches selected e = rw e

module _ (g : ActionGraph) (base : List String) (total : String → ℕ)
    (once : (v : String) → total v ≤ 1) where
  module _ (st : ExecState) (inv : Inv g base total st) where
    satisfied_closed :
        (v : String)
        → 0 < count v (preds_satisfied g st)
        → count_if (open_into st.completed v) g.edges ≡ 0
    unfolding preds_satisfied
    satisfied_closed v c =
        open_of_satisfied g st.completed v
          (ground (arith, count-keep (satisfied (predecessors g) st.completed) v st.pending))

    count-preds_satisfied-le : (v : String) → count v (preds_satisfied g st) ≤ count v st.pending
    unfolding preds_satisfied
    count-preds_satisfied-le v =
        ground (arith, count-keep (satisfied (predecessors g) st.completed) v st.pending)

    count-ready :
        (v : String)
        → count v (ready_nodes g st) ≡ (
            if in_unselected v g.conditional_branches st.selected_branches
            then 0
            else count v (preds_satisfied g st))
    unfolding ready_nodes
    count-ready v = ground (
      arith,
      count-keep (λ nid. not (in_unselected nid g.conditional_branches st.selected_branches)) v
          (preds_satisfied g st),
    )

    count-skipped :
        (v : String)
        → count v (skipped_nodes g st)
          ≡ (if has v (ready_nodes g st) then 0 else count v (preds_satisfied g st))
    unfolding skipped_nodes
    count-skipped v =
        ground
          (arith, count-keep (λ nid. not (has nid (ready_nodes g st))) v (preds_satisfied g st))

    abbrev pub after_skips : ExecState
    after_skips = skip_all (skipped_nodes g st) st

    -- The skipped nodes are pruned ones whose predecessors are all completed.
    pub skipped_nodes-Skipped : Skipped g base total once st (skipped_nodes g st) after_skips
    skipped_nodes-Skipped =
        skip_all-Skipped g base total once (skipped_nodes g st) st inv
          (record {
            pends = λ v. ground (arith, count-skipped v, count-preds_satisfied-le v);
            closed = λ v k. satisfied_closed v (ground (arith, count-skipped v));
          })
          (λ v k. ground (arith, count-skipped v, count-ready v, has_of_count v (ready_nodes g st)))

    -- The ready nodes can be run.
    pub ready-CanPlace : CanPlace g base total once after_skips (ready_nodes g st)
    ready-CanPlace =
        let s = skipped_nodes-Skipped in
        record {
          pends = λ v. ground (
            arith,
            s.still v,
            count-skipped v,
            count-ready v,
            count-preds_satisfied-le v,
            has_of_count v (ready_nodes g st),
          );
          closed = λ v k.
              open_mono st.completed after_skips.completed v g.edges s.grown
                (satisfied_closed v (ground (arith, count-ready v)));
        }

    -- With no conditional branches some pending node is ready.
    pub ready_of_pending :
        g.conditional_branches ≡ []
        → (x : String) (xs : List String) → st.pending ≡ x ∷ xs
        → 0 < count x (ready_nodes g st)
    unfolding preds_satisfied
    ready_of_pending no_branches x xs e = ground (
      arith,
      e,
      count-ready x,
      eq_refl x,
      no_branch x g.conditional_branches st.selected_branches no_branches,
      count-keep (satisfied (predecessors g) st.completed) x st.pending,
      satisfied_of_open g st.completed x (subst (IsOrdered g.edges st.completed) e inv.waiting).0,
      ap (count x) e,
    )

  module _ (str : Value → String) (run_node : Dict NodeOutput → String → Result NodeOutput)
      (finish_order : List String → List String) (max_parallel : ℕ)
      (interrupt_check : Option (ℕ → Option InterruptRequest))
      (finish_counts : (xs : List String) (v : String)
        → count v (finish_order xs) ≡ count v xs) where
    -- A batch yields an output of each of its nodes, or one of them has raised.
    abbrev Batch : List String → Result (Dict NodeOutput) → Type 0
    Batch batch r =
        ((rs : Dict NodeOutput) × (r ≡ ok rs) × ((v : String) → count v (keys rs) ≡ count v batch))
        ⊎ ((e : Error) × (r ≡ err e) × RaisedIn g run_node e)

    outputs_of-Batch :
        (results : Dict NodeOutput) (batch ids : List String)
        → ((v : String) → 0 < count v batch → contains v (node_map g) ≡ true)
        → ((v : String) → count v ids ≡ count v batch)
        → Batch batch (outputs_of (run_node results) ids)
    outputs_of-Batch results batch ids known counts =
        elim (Result-cases (outputs_of (run_node results) ids)) [
          | inr (e, bad) ↦
              let (nid, among, raised) = outputs_of_error (run_node results) ids e bad in
              inr (e, bad, (results, nid, known nid (omega (arith, among, counts nid)), raised))
          | inl (rs, good) ↦ inl (
            rs,
            good,
            λ v. ap (count v) (keys-outputs_of (run_node results) ids rs good) ∙ counts v,
          )
        ]

    several-Batch :
        (results : Dict NodeOutput) (batch : List String)
        → ((v : String) → 0 < count v batch → contains v (node_map g) ≡ true)
        → Batch batch (do
          _ ← outputs_of (run_node results) (finish_order batch)
          sorted ← sort_ids (node_map g) (finish_order batch)
          outputs_of (run_node results) sorted)
    several-Batch results batch known =
        let (sorted, e) =
          sort_ids-total (node_map g) (finish_order batch)
            (λ v k. known v (omega (arith, finish_counts batch v))) in
        elim (Result-cases (outputs_of (run_node results) (finish_order batch))) [
          | inr (x, bad) ↦
              let (nid, among, raised) =
                outputs_of_error (run_node results) (finish_order batch) x bad in
              let there = known nid (omega (arith, among, finish_counts batch nid)) in
              inr (x, rw bad, (results, nid, there, raised))
          | inl (rs, good) ↦
              rw (good, e)
                (outputs_of-Batch results batch sorted known (λ v.
                  (sort_ids-IsSorting (node_map g) _ sorted e).counts v ∙ finish_counts batch v))
        ]

    execute_batch-Batch :
        (results : Dict NodeOutput) (batch : List String)
        → 0 < max_parallel
        → ((v : String) → 0 < count v batch → contains v (node_map g) ≡ true)
        → Batch batch
            (execute_batch str run_node finish_order max_parallel interrupt_check g results batch)
    unfolding execute_batch
    execute_batch-Batch results (x ∷ []) pos known =
        outputs_of-Batch results (x ∷ []) (x ∷ []) known (λ v. refl)
    execute_batch-Batch results [] pos known =
        rw (lt→ltb 0 max_parallel pos) (several-Batch results [] known)
    execute_batch-Batch results (x ∷ y ∷ zs) pos known =
        rw (lt→ltb 0 max_parallel pos) (several-Batch results (x ∷ y ∷ zs) known)

    -- What a round that runs a batch leads to.
    unfoldable pub RoundResult : ExecState → Result ExecState → Type 0
    RoundResult st (ok st') = Inv g base total st' × (length st'.pending < length st.pending)
    RoundResult st (err e) = (e ≡ type_error) ⊎ RaisedIn g run_node e

    RoundResult-Committed :
        (st st1 : ExecState) (n : ℕ) (r : Result ExecState)
        → length st1.pending ≤ length st.pending
        → 0 < n
        → Committed g base total once st1 n r
        → RoundResult st r
    unfolding Committed RoundResult
    RoundResult-Committed st st1 n (ok st') le pos c = (c.0, omega (arith, c.1))
    RoundResult-Committed st st1 n (err e) le pos c = inl c

    pub run_batch-RoundResult :
        (st : ExecState) (inv : Inv g base total st)
        → 0 < max_parallel
        → 0 < length (ready_nodes g st)
        → RoundResult st (
            run_batch str run_node finish_order max_parallel interrupt_check g
              (after_skips st inv)
              (ready_nodes g st))
    unfolding run_batch
    run_batch-RoundResult st inv pos some_ready =
        let st1 = after_skips st inv in
        let s = skipped_nodes-Skipped st inv in
        let place = ready-CanPlace st inv in
        let ready = ready_nodes g st in
        let (sorted, e) =
          sort_ids-total (node_map g) ready (λ v k. s.inv.known v (omega (arith, place.pends v))) in
        let sorting = sort_ids-IsSorting (node_map g) ready sorted e in
        let batch = take max_parallel sorted in
        let batch_le : (v : String) → count v batch ≤ count v ready =
          λ v. omega (arith, count-take-le max_parallel v sorted, sorting.counts v) in
        elim (execute_batch-Batch st1.results batch pos
          (λ v k. s.inv.known v (omega (arith, place.pends v, batch_le v)))) [
            | inr (x, bad, raised) ↦ simp (e, bad) (unfold RoundResult in inr raised)
            | inl (rs, good, counts) ↦
                let committed = commit_all-Committed g base total once str rs st1 s.inv (
                  CanPlace-le g base total once st1 ready (keys rs)
                    (λ v. omega (arith, batch_le v, counts v)) place) in
                let nonempty : 0 < length (keys rs) = omega (
                  arith,
                  length-le_of_count batch (keys rs) (λ v. omega (arith, counts v)),
                  length-take_pos max_parallel sorted pos (omega (arith, sorting.size)),
                ) in
                simp (e, good)
                  (RoundResult-Committed st st1 (length (keys rs)) _ (omega (arith, s.fewer))
                    nonempty committed)
          ]
