-- ===== src/Execution/Loop/Round.antt =====
-- One round of the executor's loop keeps the invariant, and what it takes from the pending nodes.
use neuronium.Prelude.{
  contains, keys, Bool-cases, str_eq, Result, err, >>=-eq-ok, ok-injective, subst, eq_refl, ℕ, zero,
  suc, ◌+◌, ◌<◌, ◌≤◌, String, ◌≡◌, refl, ap, Bool, true, Option, none, some, List, [], ◌∷◌, ◌++◌,
  arith, eq_iff, eq_refl, length, count, count_if, has, has-append, has_of_count, remove_first,
  count-remove_first, length-remove_first, keep, if◌then◌else◌, inl, inr, Dict, insert, ok, err,
  Result, Error, Result-cases, type_error,
}
use neuronium.Prelude.Value.{Value}
use neuronium.Planning.Dag.{ActionGraph, node_map, GraphNode}
use neuronium.Planning.Dag.Degrees.{open_into}
use neuronium.Nodes.{NodeOutput}
use neuronium.Execution.Loop.Defs.{
  ExecState, in_unselected, record_selection, skip_all, selection, branch_value, commit, commit_all,
  take, outputs_of,
}
use neuronium.Execution.Loop.Ordering.{open_mono}
use neuronium.Execution.Loop.Invariant.{Inv, skip-Inv, commit-Inv}

-- What a `keep` holds.
pub count-keep :
    (p : String → Bool) (v : String) (xs : List String)
    → count v (keep p xs) ≡ (if p v then count v xs else 0)
count-keep p v [] = ground arith
count-keep p v (x ∷ xs) = ground (arith, count-keep p v xs, eq_iff x v)

pub count-take-le : (n : ℕ) (v : String) (xs : List String) → count v (take n xs) ≤ count v xs
count-take-le zero v xs = omega arith
count-take-le (suc n) v [] = omega arith
count-take-le (suc n) v (x ∷ xs) = omega (arith, count-take-le n v xs)

pub length-take_pos : (n : ℕ) (xs : List String) → 0 < n → 0 < length xs → 0 < length (take n xs)
length-take_pos zero xs p q = absurd (omega arith)
length-take_pos (suc n) [] p q = absurd (omega arith)
length-take_pos (suc n) (x ∷ xs) p q = omega arith

module _ (str : Value → String) where
  pub selection_error :
      (nmap : Dict GraphNode) (nid : String) (output : NodeOutput) {e : Error}
      → selection str nmap nid output ≡ err e
      → e ≡ type_error
  unfolding selection branch_value
  selection_error nmap nid output h = ground arith

  record_selection_kept :
      (nid : String) (b : Option Value) (st : ExecState)
      → ((record_selection str nid b st).completed ≡ st.completed)
        × ((record_selection str nid b st).pending ≡ st.pending)
  unfolding record_selection
  record_selection_kept nid none st = (refl, refl)
  record_selection_kept nid (some b) st = (refl, refl)

module _ (g : ActionGraph) (base : List String) (total : String → ℕ)
    (once : (v : String) → total v ≤ 1) where
  -- The nodes of a list are pending, each with all of its predecessors completed.
  pub record CanPlace (st : ExecState) (xs : List String) : Type 0 where
    pub pends : (v : String) → count v xs ≤ count v st.pending
    pub closed : (v : String) → 0 < count v xs → count_if (open_into st.completed v) g.edges ≡ 0

  pub CanPlace-le :
      (st : ExecState) (xs ys : List String)
      → ((v : String) → count v ys ≤ count v xs)
      → CanPlace st xs
      → CanPlace st ys
  CanPlace-le st xs ys le c = record {
    pends = λ v. omega (arith, c.pends v, le v);
    closed = λ v k. c.closed v (omega (arith, le v));
  }

  CanPlace-head :
      (st : ExecState) (x : String) (xs : List String)
      → CanPlace st (x ∷ xs)
      → has x st.pending ≡ true
  CanPlace-head st x xs c = has_of_count x st.pending (ground (arith, c.pends x, eq_refl x))

  CanPlace-head_closed :
      (st : ExecState) (x : String) (xs : List String)
      → CanPlace st (x ∷ xs)
      → count_if (open_into st.completed x) g.edges ≡ 0
  CanPlace-head_closed st x xs c = c.closed x (ground (arith, eq_refl x))

  -- After the first node has been placed, the rest can be placed.
  CanPlace-tail :
      (st st' : ExecState) (x : String) (xs : List String)
      → st'.completed ≡ st.completed ++ x ∷ []
      → st'.pending ≡ remove_first x st.pending
      → CanPlace st (x ∷ xs)
      → CanPlace st' xs
  CanPlace-tail st st' x xs ec ep c = record {
    pends = λ v. ground (
      arith,
      c.pends v,
      count-remove_first x v st.pending (CanPlace-head st x xs c),
      ap (count v) ep,
    );
    closed = λ v k.
        open_mono st.completed st'.completed v g.edges
          (λ s h. ground (arith, has-append s x st.completed, ap (has s) ec))
          (c.closed v (ground arith));
  }

  pub record Skipped (st : ExecState) (xs : List String) (st' : ExecState) : Type 0 where
    pub inv : Inv g base total st'
    pub fewer : length st'.pending + length xs ≡ length st.pending
    pub same_results : st'.results ≡ st.results
    pub still : (v : String) → count v st'.pending + count v xs ≡ count v st.pending
    pub grown : (s : String) → has s st.completed ≡ true → has s st'.completed ≡ true

  pub skip_all-Skipped :
      (xs : List String) (st : ExecState)
      → Inv g base total st
      → CanPlace st xs
      → ((v : String)
          → 0 < count v xs
          → in_unselected v g.conditional_branches st.selected_branches ≡ true)
      → Skipped st xs (skip_all xs st)
  unfolding skip_all
  skip_all-Skipped [] st inv c pruned = record {
    inv = inv;
    fewer = omega arith;
    same_results = refl;
    still = λ v. omega arith;
    grown = λ s h. h;
  }
  skip_all-Skipped (x ∷ xs) st inv c pruned =
      let here = CanPlace-head st x xs c in
      let st' : ExecState = record st {
        completed = st.completed ++ x ∷ [];
        pending = remove_first x st.pending;
      } in
      let inv' =
        skip-Inv g base total once x st inv here (CanPlace-head_closed st x xs c)
          (pruned x (ground (arith, eq_refl x))) in
      let rest =
        skip_all-Skipped xs st' inv' (CanPlace-tail st st' x xs refl refl c)
          (λ v k. pruned v (ground arith)) in
      record {
        inv = rest.inv;
        fewer = omega (arith, rest.fewer, length-remove_first x st.pending here);
        same_results = rest.same_results;
        still = λ v. ground (arith, rest.still v, count-remove_first x v st.pending here);
        grown = λ s h. rest.grown s (ground (arith, has-append s x st.completed));
      }

  -- What storing a batch leads to: only a branch parameter of the wrong type can stop it.
  unfoldable pub Committed : ExecState → ℕ → Result ExecState → Type 0
  Committed st n (ok st') = Inv g base total st' × (length st'.pending + n ≡ length st.pending)
  Committed st n (err e) = e ≡ type_error

  Committed-shift :
      (st st' : ExecState) (n : ℕ) (r : Result ExecState)
      → length st'.pending + 1 ≡ length st.pending
      → Committed st' n r
      → Committed st (suc n) r
  unfolding Committed
  Committed-shift st st' n (ok st'') e c = (c.0, omega (arith, c.1))
  Committed-shift st st' n (err x) e c = c

  module _ (str : Value → String) where
    pub commit_all-Committed :
        (rs : Dict NodeOutput) (st : ExecState)
        → Inv g base total st
        → CanPlace st (keys rs)
        → Committed st (length (keys rs)) (commit_all str (node_map g) rs st)
    unfolding commit_all Committed commit
    commit_all-Committed [] st inv c = (inv, omega arith)
    commit_all-Committed ((x, out) ∷ rs) st inv c =
        elim (Result-cases (selection str (node_map g) x out)) [
          | inr (e, bad) ↦ rw (bad, commit) (selection_error str (node_map g) x out bad)
          | inl (b, good) ↦
              let here = CanPlace-head st x (keys rs) c in
              let stored : ExecState = record st {
                results = insert x out st.results;
                completed = st.completed ++ x ∷ [];
                pending = remove_first x st.pending;
              } in
              let st' = record_selection str x b stored in
              let kept = record_selection_kept str x b stored in
              let inv' =
                commit-Inv g base total once x st inv here (CanPlace-head_closed st x (keys rs) c)
                  str out b in
              let rest =
                commit_all-Committed rs st' inv'
                  (CanPlace-tail st st' x (keys rs) kept.0 kept.1 c) in
              rw (good, commit)
                (Committed-shift st st' (length (keys rs)) _
                  (ground
                    (arith, ap (length {A = String}) kept.1, length-remove_first x st.pending here))
                  rest)
        ]

-- What a node has raised.
abbrev pub Raised : (Dict NodeOutput → String → Result NodeOutput) → Error → Type 0
Raised run_node e = (results : Dict NodeOutput) × (nid : String) × (run_node results nid ≡ err e)

-- What a node of the graph has raised.
abbrev pub RaisedIn : ActionGraph → (Dict NodeOutput → String → Result NodeOutput) → Error → Type 0
RaisedIn g run_node e =
    (results : Dict NodeOutput) × (nid : String) × (contains nid (node_map g) ≡ true)
    × (run_node results nid ≡ err e)

pub keys-outputs_of :
    (run : String → Result NodeOutput) (xs : List String) (rs : Dict NodeOutput)
    → outputs_of run xs ≡ ok rs
    → keys rs ≡ xs
unfolding outputs_of
keys-outputs_of run [] rs h = ground (arith, h)
keys-outputs_of run (x ∷ xs) rs h =
    let (out, p, h') = >>=-eq-ok (run x) _ h in
    let (outs, q, h'') = >>=-eq-ok (outputs_of run xs) _ h' in
    subst (λ r. keys r ≡ x ∷ xs) (ok-injective h'')
      (ap (λ ys. x ∷ ys) (keys-outputs_of run xs outs q))

-- An exception of the nodes is one of a node among them.
pub outputs_of_error :
    (run : String → Result NodeOutput) (xs : List String) (e : Error)
    → outputs_of run xs ≡ err e
    → (nid : String) × (0 < count nid xs) × (run nid ≡ err e)
unfolding outputs_of
outputs_of_error run [] e h = absurd (cc h)
outputs_of_error run (x ∷ xs) e h = elim (Result-cases (run x)) [
  | inr (f, bad) ↦
      let same : f ≡ e = ground (arith, bad, h) in
      (x, ground (arith, eq_refl x), subst (λ y. run x ≡ err y) same bad)
  | inl (out, good) ↦ elim (Result-cases (outputs_of run xs)) [
    | inr (f, bad) ↦
        let rest = outputs_of_error run xs f bad in
        let same : f ≡ e = ground (arith, good, bad, h) in
        (rest.0, omega (arith, rest.1), subst (λ y. run rest.0 ≡ err y) same rest.2)
    | inl (outs, fine) ↦ absurd (ground (arith, good, fine, h))
  ]
]

-- When the nodes all return, none of them has raised.
pub outputs_of_ok :
    (run : String → Result NodeOutput) (xs : List String) (rs : Dict NodeOutput)
    → outputs_of run xs ≡ ok rs
    → (v : String) (e : Error) → 0 < count v xs
    → run v ≡ err e
    → ⊥
unfolding outputs_of
outputs_of_ok run [] rs h v e c bad = omega arith
outputs_of_ok run (x ∷ xs) rs h v e c bad =
    let (out, p, h') = >>=-eq-ok (run x) _ h in
    let (outs, q, h'') = >>=-eq-ok (outputs_of run xs) _ h' in
    elim (Bool-cases (str_eq x v)) [
      | inl here ↦
          let same : x ≡ v = ground (arith, eq_iff x v) in ground (arith, p, bad, ap run same)
      | inr other ↦ outputs_of_ok run xs outs q v e (ground arith) bad
    ]
