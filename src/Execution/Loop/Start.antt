-- ===== src/Execution/Loop/Start.antt =====
-- The state that `execute` starts from, on a fresh run and on a resumed one, has the loop's invariant.
use neuronium.Prelude.{
  ℕ, ◌+◌, ◌<◌, ◌≤◌, lookup, String, ◌≡◌, refl, sym, true, not, ◌||◌, List, [], ◌∷◌, arith, eq_iff,
  count, has, has_of_count, count_of_has, keep, Option-cases, inl, inr, Dict, insert, contains,
  keys, KeysOnce, contains-count-keys, lookup-insert, ok, >>=-eq-ok, ok-injective, subst, ◌↔◌,
}
use mathlib.Core.List.{append-nil}
use neuronium.Prelude.Value.{Value}
use neuronium.Planning.Dag.{ActionGraph, GraphNode, node_map, topological_order, node_ids}
use neuronium.Planning.Dag.Order.{IsTopological, topological_order-IsTopological, contains-node_map}
use neuronium.Nodes.{NodeOutput}
use neuronium.Execution.Loop.Defs.{ExecState, restore, selection, start_state}
use neuronium.Execution.Loop.Ordering.{IsOrdered-keep}
use neuronium.Execution.Loop.Invariant.{Inv}
use neuronium.Execution.Loop.Round.{count-keep}

-- A branch that is restored belongs to a node of the restored results.
restore_chosen :
    (str : Value → String) (nmap : Dict GraphNode) (rs : Dict NodeOutput)
    (selected final : Dict String) (v : String)
    → restore str nmap rs selected ≡ ok final
    → contains v final ≡ true
    → (contains v selected || contains v rs) ≡ true
unfolding restore lookup
restore_chosen str nmap [] selected final v h c = ground arith
restore_chosen str nmap ((nid, output) ∷ rs) selected final v h c =
    let (b, e, h') = >>=-eq-ok (selection str nmap nid output) _ h in
    elim (Option-cases b) [
      | inl nothing ↦
          ground
            (arith, restore_chosen str nmap rs selected final v (rw nothing at h') c, eq_iff nid v)
      | inr (w, found) ↦ ground (
        arith,
        restore_chosen str nmap rs (insert nid (str w) selected) final v (rw found at h') c,
        lookup-insert nid v (str w) selected,
        eq_iff nid v,
      )
    ]

-- How often a node is placed before the start or waits at it.
abbrev pub node_total : ExecState → String → ℕ
node_total st v = count v st.completed + count v st.pending

module _ (str : Value → String) (g : ActionGraph) (initial : Dict NodeOutput) where
  pub record Started (st : ExecState) : Type 0 where
    pub inv : Inv g (keys initial) (node_total st) st
    pub once : (v : String) → node_total st v ≤ 1
    pub all_nodes :
        (v : String) → (0 < node_total st v) ↔ ((contains v initial || has v (node_ids g)) ≡ true)

  restore-Started :
      (order : List String) (selected : Dict String)
      → IsTopological g order
      → KeysOnce initial
      → restore str (node_map g) initial [] ≡ ok selected
      → Started (record {
        results = initial;
        completed = keys initial;
        pending = keep (λ nid. not (contains nid initial)) order;
        selected_branches = selected;
        selections = [];
      })
  unfolding lookup
  restore-Started order selected t once r =
      let counted = count-keep (λ nid. not (contains nid initial)) in
      record {
        inv = record {
          added = [];
          split = sym (append-nil (keys initial));
          ordered = tt;
          waiting =
              IsOrdered-keep g.edges (λ nid. not (contains nid initial)) [] (keys initial) order
                (λ s h. absurd (cc))
                (λ s h.
                  has_of_count s (keys initial) (ground (arith, contains-count-keys s initial)))
                t.ordered;
          partition = λ v. refl;
          known = λ v c. ground (
            arith,
            counted v order,
            t.complete v,
            contains-node_map g v,
            has_of_count v (node_ids g),
          );
          run_or_skipped = λ v h n. absurd (cc);
          chosen = λ v c. ground (arith, restore_chosen str (node_map g) initial [] selected v r c);
          executed =
              λ v c. has_of_count v (keys initial) (ground (arith, contains-count-keys v initial));
          kept =
              λ v c. ground (arith, contains-count-keys v initial, count_of_has v (keys initial) c);
        };
        once =
            λ v. ground (arith, counted v order, t.once v, once v, contains-count-keys v initial);
        all_nodes = λ v. (
          λ c. ground (
            arith,
            counted v order,
            t.complete v,
            contains-count-keys v initial,
            has_of_count v (node_ids g),
          ),
          λ c. ground (
            arith,
            counted v order,
            t.complete v,
            contains-count-keys v initial,
            count_of_has v (node_ids g),
          ),
        );
      }

  pub start_state-Started :
      (st : ExecState) → KeysOnce initial → start_state str g initial ≡ ok st → Started st
  unfolding start_state
  start_state-Started st once h =
      let (order, p, h') = >>=-eq-ok (topological_order g) _ h in
      let (selected, r, h'') = >>=-eq-ok (restore str (node_map g) initial []) _ h' in
      subst Started (ok-injective h'')
        (restore-Started order selected (topological_order-IsTopological g order p) once r)
