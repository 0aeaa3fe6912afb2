-- ===== src/Execution/Loop/Invariant.antt =====
-- The invariant of the executor's loop, and that placing a node keeps it.
use neuronium.Prelude.{
  ℕ, ◌+◌, ◌<◌, ◌≤◌, String, ◌≡◌, ◌∙◌, ap, subst, true, false, Option, none, some, List, [], ◌∷◌,
  ◌++◌, arith, eq_iff, eq_refl, count, count-append, count_if, has, has-append, count_of_has,
  remove_first, count-remove_first, Dict, insert, contains, lookup-insert,
}
use mathlib.Core.List.{append_assoc}
use neuronium.Prelude.Value.{Value}
use neuronium.Planning.Dag.{ActionGraph, ConditionalBranch, node_map}
use neuronium.Planning.Dag.Degrees.{open_into}
use neuronium.Planning.Dag.Order.{IsOrdered, IsOrdered-append}
use neuronium.Nodes.{NodeOutput}
use neuronium.Execution.Loop.Defs.{ExecState, in_unselected, record_selection}
use neuronium.Execution.Loop.Ordering.{IsOrdered-remove_first}

-- Selecting a branch of a node that has none selected yet never brings a pruned node back.
in_unselected-insert :
    (v d sel : String) (branches : List ConditionalBranch) (selected : Dict String)
    → contains d selected ≡ false
    → in_unselected v branches selected ≡ true
    → in_unselected v branches (insert d sel selected) ≡ true
unfolding in_unselected
in_unselected-insert v d sel [] selected fresh h = h
in_unselected-insert v d sel (cb ∷ bs) selected fresh h = ground (
  arith,
  lookup-insert d cb.decision_node_id sel selected,
  eq_iff d cb.decision_node_id,
  in_unselected-insert v d sel bs selected fresh,
)

module _ (g : ActionGraph) (base : List String) (total : String → ℕ) where
  -- `base` are the nodes that a resumed run starts with; `total` counts each node once.
  pub record Inv (st : ExecState) : Type 0 where
    -- the nodes run or skipped since the start, in order
    pub added : List String
    pub split : st.completed ≡ base ++ added
    pub ordered : IsOrdered g.edges base added
    pub waiting : IsOrdered g.edges st.completed st.pending
    pub partition : (v : String) → count v st.completed + count v st.pending ≡ total v
    pub known : (v : String) → 0 < count v st.pending → contains v (node_map g) ≡ true
    pub run_or_skipped :
        (v : String)
        → has v added ≡ true
        → contains v st.results ≡ false
        → in_unselected v g.conditional_branches st.selected_branches ≡ true
    pub chosen :
        (v : String) → contains v st.selected_branches ≡ true → contains v st.results ≡ true
    pub executed : (v : String) → contains v st.results ≡ true → has v st.completed ≡ true
    pub kept : (v : String) → has v base ≡ true → contains v st.results ≡ true

  module _ (once : (v : String) → total v ≤ 1) (nid : String) (st : ExecState) (inv : Inv st)
      (waits : has nid st.pending ≡ true)
      (closed : count_if (open_into st.completed nid) g.edges ≡ 0) where
    placed_ordered : IsOrdered g.edges base (inv.added ++ nid ∷ [])
    placed_ordered =
        IsOrdered-append g.edges base inv.added nid inv.ordered
          (subst (λ l. count_if (open_into l nid) g.edges ≡ 0) inv.split closed)

    placed_split : st.completed ++ nid ∷ [] ≡ base ++ (inv.added ++ nid ∷ [])
    placed_split = ap (λ l. l ++ nid ∷ []) inv.split ∙ append_assoc base inv.added (nid ∷ [])

    placed_waiting : IsOrdered g.edges (st.completed ++ nid ∷ []) (remove_first nid st.pending)
    placed_waiting =
        IsOrdered-remove_first g.edges st.completed (st.completed ++ nid ∷ []) st.pending nid
          (λ s k. ground (arith, has-append s nid st.completed))
          (ground (arith, has-append nid nid st.completed, eq_refl nid)) inv.waiting

    placed_partition :
        (v : String)
        → count v (st.completed ++ nid ∷ []) + count v (remove_first nid st.pending) ≡ total v
    placed_partition v = ground (
      arith,
      inv.partition v,
      count-append v st.completed (nid ∷ []),
      count-remove_first nid v st.pending waits,
    )

    placed_known :
        (v : String) → 0 < count v (remove_first nid st.pending) → contains v (node_map g) ≡ true
    placed_known v c = inv.known v (omega (arith, count-remove_first nid v st.pending waits))

    not_completed : has nid st.completed ≡ false
    not_completed = ground (
      arith,
      inv.partition nid,
      once nid,
      count_of_has nid st.completed,
      count_of_has nid st.pending waits,
    )

    not_executed : contains nid st.results ≡ false
    not_executed = ground (arith, inv.executed nid, not_completed)

    not_chosen : contains nid st.selected_branches ≡ false
    not_chosen = ground (arith, inv.chosen nid, not_executed)

    pub skip-Inv :
        in_unselected nid g.conditional_branches st.selected_branches ≡ true
        → Inv (record st {
          completed = st.completed ++ nid ∷ [];
          pending = remove_first nid st.pending;
        })
    skip-Inv pruned = record {
      added = inv.added ++ nid ∷ [];
      split = placed_split;
      ordered = placed_ordered;
      waiting = placed_waiting;
      partition = placed_partition;
      known = placed_known;
      run_or_skipped = λ v h n.
          ground (arith, has-append v nid inv.added, inv.run_or_skipped v, eq_iff nid v, pruned);
      chosen = inv.chosen;
      executed = λ v k. ground (arith, has-append v nid st.completed, inv.executed v);
      kept = inv.kept;
    }

    -- The state after the output has been stored, before a branch is selected.
    abbrev stored : NodeOutput → ExecState
    stored output = record st {
      results = insert nid output st.results;
      completed = st.completed ++ nid ∷ [];
      pending = remove_first nid st.pending;
    }

    pub store-Inv : (output : NodeOutput) → Inv (stored output)
    store-Inv output = record {
      added = inv.added ++ nid ∷ [];
      split = placed_split;
      ordered = placed_ordered;
      waiting = placed_waiting;
      partition = placed_partition;
      known = placed_known;
      run_or_skipped = λ v h n. ground (
        arith,
        has-append v nid inv.added,
        inv.run_or_skipped v,
        eq_iff nid v,
        lookup-insert nid v output st.results,
      );
      chosen = λ v k. ground (arith, inv.chosen v, lookup-insert nid v output st.results);
      executed = λ v k. ground (
        arith,
        has-append v nid st.completed,
        inv.executed v,
        lookup-insert nid v output st.results,
      );
      kept = λ v k. ground (arith, inv.kept v, lookup-insert nid v output st.results);
    }

    pub commit-Inv :
        (str : Value → String) (output : NodeOutput) (b : Option Value)
        → Inv (record_selection str nid b (stored output))
    unfolding record_selection
    commit-Inv str output none = store-Inv output
    commit-Inv str output (some b) =
        let s = store-Inv output in
        record {
          added = s.added;
          split = s.split;
          ordered = s.ordered;
          waiting = s.waiting;
          partition = s.partition;
          known = s.known;
          run_or_skipped = λ v h n.
              in_unselected-insert v nid (str b) g.conditional_branches st.selected_branches
                not_chosen (s.run_or_skipped v h n);
          chosen = λ v k. ground (
            arith,
            s.chosen v,
            lookup-insert nid v (str b) st.selected_branches,
            eq_iff nid v,
            lookup-insert nid v output st.results,
          );
          executed = s.executed;
          kept = s.kept;
        }
