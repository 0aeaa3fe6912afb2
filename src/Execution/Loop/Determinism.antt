-- ===== src/Execution/Loop/Determinism.antt =====
-- The order in which the futures of a batch finish decides at most which exception is raised.
use neuronium.Prelude.{
  ℕ, zero, suc, ◌+◌, String, ◌≡◌, refl, subst, sym, arith, Bool-cases, Option, List, [], ◌∷◌, count,
  is_empty, ltb, Dict, Error, Result, ok, err, ◌>>=◌, value_error, if◌then◌else◌, Result-cases,
  Option-cases, inl, inr, ◌⊎◌,
}
use neuronium.Prelude.Value.{Value}
use neuronium.Planning.Dag.{ActionGraph, node_map, sort_ids}
use neuronium.Planning.Dag.KeyOrder.{sort_ids_counts}
use neuronium.Nodes.{NodeOutput, InterruptRequest}
use neuronium.Execution.Loop.Defs.{
  ExecState, outputs_of, execute_batch, run_batch, interrupt_after, execute_loop, ready_nodes,
  skipped_nodes, skip_all, start_state, execute,
}
use neuronium.Execution.Loop.Round.{Raised, outputs_of_error, outputs_of_ok}

module _ (run_node : Dict NodeOutput → String → Result NodeOutput) where
  -- The same outcome, or two exceptions, each of them raised by a node.
  abbrev pub Alike : {A : Type 0} → Result A → Result A → Type 0
  Alike r r' =
      (r ≡ r')
      ⊎ ((e : Error) × (f : Error) × (r ≡ err e)
          × (r' ≡ err f)
          × Raised run_node e
          × Raised run_node f)

  bind-Alike :
      {A B : Type 0}
      → (r r' : Result A) (k k' : A → Result B) → ((a : A) → Alike (k a) (k' a))
      → Alike r r'
      → Alike (r >>= k) (r' >>= k')
  bind-Alike r r' k k' each (inr (e, f, p, q, a, b)) = rw (p, q) (inr (e, f, refl, refl, a, b))
  bind-Alike r r' k k' each (inl same) =
      subst (λ q. Alike (r >>= k) (q >>= k')) same
        (elim (Result-cases r) [
          | inl (a, good) ↦ rw good (each a)
          | inr (e, bad) ↦ rw bad (inl refl)
        ])

module _ (str : Value → String) (run_node : Dict NodeOutput → String → Result NodeOutput)
    (first second : List String → List String) (max_parallel : ℕ)
    (interrupt_check : Option (ℕ → Option InterruptRequest))
    (same : (xs : List String) (v : String) → count v (first xs) ≡ count v (second xs)) where
  -- Nodes that all return in one order do not raise in another.
  one_raises :
      (results : Dict NodeOutput) (xs ys : List String) (e : Error) (rs : Dict NodeOutput)
      → ((v : String) → count v xs ≡ count v ys)
      → outputs_of (run_node results) xs ≡ err e
      → outputs_of (run_node results) ys ≡ ok rs
      → ⊥
  one_raises results xs ys e rs counts bad good =
      let (nid, among, raised) = outputs_of_error (run_node results) xs e bad in
      outputs_of_ok (run_node results) ys rs good nid e (ground (arith, counts nid, among)) raised

  abbrev several :
      (List String → List String)
      → ActionGraph
      → Dict NodeOutput
      → List String
      → Result (Dict NodeOutput)
  several finish_order g results batch =
      if ltb 0 max_parallel
      then (do
        _ ← outputs_of (run_node results) (finish_order batch)
        sorted ← sort_ids (node_map g) (finish_order batch)
        outputs_of (run_node results) sorted)
      else err value_error

  several-Alike :
      (g : ActionGraph) (results : Dict NodeOutput) (batch : List String)
      → Alike run_node (several first g results batch) (several second g results batch)
  several-Alike g results batch = elim (Bool-cases (ltb 0 max_parallel)) [
    | inr idle ↦ rw idle (inl refl)
    | inl busy ↦
        let counts = same batch in
        let back : (v : String) → count v (second batch) ≡ count v (first batch) =
          λ v. sym (same batch v) in
        elim (Result-cases (outputs_of (run_node results) (first batch))) [
          | inl (rs, good) ↦ elim (Result-cases (outputs_of (run_node results) (second batch))) [
            | inl (rs', fine) ↦
                rw
                  (
                    busy,
                    good,
                    fine,
                    sort_ids_counts (node_map g) (first batch) (second batch) counts,
                  )
                  (inl refl)
            | inr (f, bad) ↦
                absurd (one_raises results (second batch) (first batch) f rs back bad good)
          ]
          | inr (e, bad) ↦ elim (Result-cases (outputs_of (run_node results) (second batch))) [
            | inl (rs', fine) ↦
                absurd (one_raises results (first batch) (second batch) e rs' counts bad fine)
            | inr (f, worse) ↦
                let (a, _, p) = outputs_of_error (run_node results) (first batch) e bad in
                let (b, _, q) = outputs_of_error (run_node results) (second batch) f worse in
                rw (busy, bad, worse) (inr (e, f, refl, refl, (results, a, p), (results, b, q)))
          ]
        ]
  ]

  execute_batch-Alike :
      (g : ActionGraph) (results : Dict NodeOutput) (batch : List String)
      → Alike run_node
          (execute_batch str run_node first max_parallel interrupt_check g results batch)
          (execute_batch str run_node second max_parallel interrupt_check g results batch)
  unfolding execute_batch
  execute_batch-Alike g results [] = several-Alike g results []
  execute_batch-Alike g results (x ∷ []) = inl refl
  execute_batch-Alike g results (x ∷ y ∷ zs) = several-Alike g results (x ∷ y ∷ zs)

  run_batch-Alike :
      (g : ActionGraph) (st : ExecState) (ready : List String)
      → Alike run_node
          (run_batch str run_node first max_parallel interrupt_check g st ready)
          (run_batch str run_node second max_parallel interrupt_check g st ready)
  unfolding run_batch
  run_batch-Alike g st ready =
      bind-Alike run_node (sort_ids (node_map g) ready) (sort_ids (node_map g) ready) _ _
        (λ sorted.
          bind-Alike run_node _ _ _ _ (λ outputs. inl refl) (execute_batch-Alike g st.results _))
        (inl refl)

  execute_loop-Alike :
      (fuel : ℕ) (g : ActionGraph) (n : ℕ) (st : ExecState)
      → Alike run_node
          (execute_loop str run_node first max_parallel interrupt_check fuel g n st)
          (execute_loop str run_node second max_parallel interrupt_check fuel g n st)
  unfolding execute_loop
  execute_loop-Alike zero g n st = inl refl
  execute_loop-Alike (suc fuel) g n st =
      let st1 = skip_all (skipped_nodes g st) st in
      elim (Bool-cases (is_empty st.pending)) [
        | inl e ↦ rw e (inl refl)
        | inr e ↦ elim (Bool-cases (is_empty (ready_nodes g st))) [
          | inl idle ↦ rw (e, idle) (inl refl)
          | inr busy ↦
              rw (e, busy)
                (bind-Alike run_node _ _ _ _
                  (λ st2. elim (Option-cases (interrupt_after interrupt_check n)) [
                    | inl quiet ↦ rw quiet (execute_loop-Alike fuel g (n + 1) st2)
                    | inr (request, asked) ↦ rw asked (inl refl)
                  ])
                  (run_batch-Alike g st1 (ready_nodes g st)))
        ]
      ]

  pub execute-same :
      (g : ActionGraph) (initial : Dict NodeOutput)
      → Alike run_node
          (execute str run_node first max_parallel interrupt_check g initial)
          (execute str run_node second max_parallel interrupt_check g initial)
  unfolding execute
  execute-same g initial =
      bind-Alike run_node (start_state str g initial) (start_state str g initial) _ _
        (λ st. bind-Alike run_node _ _ _ _ (λ stopped. inl refl) (execute_loop-Alike _ g 0 st))
        (inl refl)
