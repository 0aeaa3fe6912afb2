-- ===== src/Execution/Loop/Safety.antt =====
-- What `execute` guarantees, on a fresh run and on a resumed one.
use neuronium.Prelude.{
  is_empty, ℕ, zero, suc, ◌+◌, ◌<◌, ◌≤◌, String, ◌≡◌, refl, ap, true, false, Option, List, [], ◌∷◌,
  arith, length, count, Bool-cases, Option-cases, inl, inr, Dict, ok, err, Result, Error,
  type_error, runtime_error, Result-cases, ◌⊎◌,
}
use neuronium.Prelude.Value.{Value}
use neuronium.Planning.Dag.{ActionGraph}
use neuronium.Nodes.{NodeOutput, InterruptRequest}
use neuronium.Execution.Loop.Defs.{
  ExecState, Stopped, finished, interrupted_by, ready_nodes, skipped_nodes, skip_all,
  interrupt_after, run_batch, execute_loop,
}
use neuronium.Execution.Loop.Invariant.{Inv}
use neuronium.Execution.Loop.Round.{RaisedIn}
use neuronium.Execution.Loop.Batch.{
  skipped_nodes-Skipped, ready_of_pending, RoundResult, run_batch-RoundResult,
}

list_cases {ℓ} : {A : Type ℓ} (xs : List A) → (xs ≡ []) ⊎ ((x : A) × (ys : List A) × (xs ≡ x ∷ ys))
list_cases [] = inl refl
list_cases (x ∷ xs) = inr (x, xs, refl)

pub is_empty_nil {ℓ} : {A : Type ℓ} (xs : List A) → is_empty xs ≡ true → xs ≡ []
is_empty_nil [] h = refl
is_empty_nil (x ∷ xs) h = cc

module _ (g : ActionGraph) (base : List String) (total : String → ℕ)
    (run_node : Dict NodeOutput → String → Result NodeOutput) where
  -- The exceptions that can end the loop: a branch parameter that is a list or a dict, the
  -- executor's own deadlock error, which needs a conditional branch, or an exception of a node
  -- of the graph.
  abbrev pub Permitted : Error → Type 0
  Permitted e =
      (e ≡ type_error)
      ⊎ ((e ≡ runtime_error) × (is_empty g.conditional_branches ≡ false))
      ⊎ RaisedIn g run_node e

  abbrev pub Safe : Result Stopped → Type 0
  Safe (ok (finished st)) = Inv g base total st × (is_empty st.pending ≡ true)
  Safe (ok (interrupted_by request st)) = Inv g base total st
  Safe (err e) = Permitted e

module _ (g : ActionGraph) (base : List String) (total : String → ℕ)
    (once : (v : String) → total v ≤ 1) (str : Value → String)
    (run_node : Dict NodeOutput → String → Result NodeOutput)
    (finish_order : List String → List String) (max_parallel : ℕ)
    (interrupt_check : Option (ℕ → Option InterruptRequest))
    (finish_counts : (xs : List String) (v : String) → count v (finish_order xs) ≡ count v xs)
    (some_parallel : 0 < max_parallel) where
  is_empty-length : (xs : List String) → is_empty xs ≡ false → 0 < length xs
  is_empty-length [] h = absurd (cc)
  is_empty-length (x ∷ xs) h = omega arith

  -- With nothing ready while nodes are pending, some conditional branch has pruned them.
  stuck_needs_branch :
      (st : ExecState)
      → Inv g base total st
      → is_empty st.pending ≡ false
      → is_empty (ready_nodes g st) ≡ true
      → is_empty g.conditional_branches ≡ false
  stuck_needs_branch st inv p r = elim (list_cases st.pending) [
    | inl none_left ↦ absurd (ground (arith, none_left))
    | inr (x, xs, e) ↦ elim (Bool-cases (is_empty g.conditional_branches)) [
      | inr some_branch ↦ some_branch
      | inl no_branch ↦
          let nonempty =
            ready_of_pending g base total once st inv
              (is_empty_nil g.conditional_branches no_branch) x xs e in
          absurd (omega (arith, ap (count x) (is_empty_nil (ready_nodes g st) r), nonempty))
    ]
  ]

  abbrev pub loop : ℕ → ℕ → ExecState → Result Stopped
  loop fuel n st = execute_loop str run_node finish_order max_parallel interrupt_check fuel g n st

  pub execute_loop-Safe :
      (fuel n : ℕ) (st : ExecState)
      → Inv g base total st
      → length st.pending ≤ fuel
      → Safe g base total run_node (loop fuel n st)
  unfolding execute_loop
  execute_loop-Safe zero n st inv m = elim (Bool-cases (is_empty st.pending)) [
    | inl e ↦ rw e (inv, e)
    | inr e ↦ absurd (omega (arith, is_empty-length st.pending e))
  ]
  execute_loop-Safe (suc fuel) n st inv m = elim (Bool-cases (is_empty st.pending)) [
    | inl e ↦ rw e (inv, e)
    | inr e ↦ elim (Bool-cases (is_empty (ready_nodes g st))) [
      | inl idle ↦
          let s = skipped_nodes-Skipped g base total once st inv in
          let st1 = skip_all (skipped_nodes g st) st in
          elim (Bool-cases (is_empty st1.pending)) [
            | inl z ↦ rw (e, idle, z) (s.inv, z)
            | inr z ↦ rw (e, idle, z) (inr (inl (refl, stuck_needs_branch st inv e idle)))
          ]
      | inr busy ↦
          let st1 = skip_all (skipped_nodes g st) st in
          let round =
            run_batch str run_node finish_order max_parallel interrupt_check g st1
              (ready_nodes g st) in
          let result =
            run_batch-RoundResult g base total once str run_node finish_order max_parallel
              interrupt_check finish_counts st inv some_parallel
              (is_empty-length (ready_nodes g st) busy) in
          elim (Result-cases round) [
            | inr (x, bad) ↦
                let cause : (x ≡ type_error) ⊎ RaisedIn g run_node x =
                  unfold RoundResult in (rw bad at result) in
                rw (e, busy, bad)
                  (elim cause [ inl type ↦ inl type | inr raised ↦ inr (inr raised) ])
            | inl (st2, good) ↦
                let kept : Inv g base total st2 × (length st2.pending < length st.pending) =
                  unfold RoundResult in (rw good at result) in
                elim (Option-cases (interrupt_after interrupt_check n)) [
                  | inl quiet ↦
                      rw (e, busy, good, quiet)
                        (execute_loop-Safe fuel (n + 1) st2 kept.0 (omega (arith, kept.1)))
                  | inr (request, asked) ↦ rw (e, busy, good, asked) kept.0
                ]
          ]
    ]
  ]
