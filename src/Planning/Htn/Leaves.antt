-- ===== src/Planning/Htn/Leaves.antt =====
-- What the decomposition comes to: it ends, and its leaves depend on the context alone.
use neuronium.Prelude.{
  ℕ, suc, sym, subst, String, Bool, true, false, none, List, [], ◌∷◌, ◌++◌, ◌≡◌, refl, ◌⊎◌, inl,
  inr, Result, ok, err, value_error, ltb, ◌&&◌, if◌then◌else◌, length, ◌+◌, ◌≤◌, arith,
}
use neuronium.Prelude.Value.{Fields}
use neuronium.Planning.Htn.{
  collect_inputs, read_docs, synthesize, verify, ContextKind, docs, web, file, plain, MethodId,
  HtnSubgoal, HtnLeafOperator, BackendOptions, Given, child, rule_based_method, candidate,
  chosen_method,
}
use neuronium.Planning.Htn.Expand.{web_leaves, doc_leaves, draft_leaves, critic_leaves}
use neuronium.Planning.Htn.Limits.{Exceeds, count_distinct-le, WithinLimits, decompose-WithinLimits}
use neuronium.Planning.Htn.Decompose.{
  Progress, root_goal, select_method, unless, checked_total, expanded, decompose_loop, decompose,
}

abbrev collect_goal : String → HtnSubgoal
collect_goal objective =
    child (root_goal objective) ".collect" "Collect input evidence" collect_inputs

abbrev read_goal : String → HtnSubgoal
read_goal objective = child (collect_goal objective) ".read_docs" "Read document set" read_docs

abbrev draft_goal : String → HtnSubgoal
draft_goal objective =
    child (root_goal objective) ".synthesize" "Draft output from collected evidence" synthesize

abbrev verify_goal : String → HtnSubgoal
verify_goal objective = child (root_goal objective) ".verify" "Verify output quality" verify

-- A result, or a limit that is exceeded.
abbrev Within : BackendOptions → List HtnLeafOperator → Result Progress → Type 0
Within options leaves r =
    ((r ≡ err value_error) × Exceeds options leaves)
    ⊎ ((p : Progress) × (r ≡ ok p) × (p.leaves ≡ leaves))

length-append : (xs ys : List HtnLeafOperator) → length (xs ++ ys) ≡ length xs + length ys
length-append [] ys = omega arith
length-append (x ∷ xs) ys = omega (arith, length-append xs ys)

module _ (given : Given) (options : BackendOptions) (metadata : Fields) where
  -- The leaves for a context, in the order in which they are found.
  abbrev pub leaves_for : ContextKind → String → List HtnLeafOperator
  leaves_for docs objective =
      (draft_leaves given metadata docs (draft_goal objective)
        ++ critic_leaves given metadata docs (verify_goal objective))
      ++ doc_leaves given metadata (read_goal objective)
  leaves_for web objective =
      (web_leaves given metadata (collect_goal objective)
        ++ draft_leaves given metadata web (draft_goal objective))
      ++ critic_leaves given metadata web (verify_goal objective)
  leaves_for context objective =
      draft_leaves given metadata context (draft_goal objective)
      ++ critic_leaves given metadata context (verify_goal objective)

  unless-Within :
      (context : ContextKind) (leaves : List HtnLeafOperator) (b : Bool) (r : Result Progress)
      → (b ≡ true → Exceeds options leaves)
      → Within options leaves r
      → Within options leaves (unless given options metadata context b r)
  unless-Within context leaves true r limit h = inl (refl, limit refl)
  unless-Within context leaves false r limit h = h

  -- A model is never asked how inputs are collected.
  select_method-rule :
      (context : ContextKind) (s : HtnSubgoal) (calls : ℕ) (b : Bool)
      → chosen_method collect_inputs context
          (if b then candidate collect_inputs (given.answer calls s) else none)
        ≡ (rule_based_method collect_inputs context, false)
  select_method-rule context s calls true = refl
  select_method-rule context s calls false = refl

  collect-rule :
      (context : ContextKind) (objective : String) (calls : ℕ)
      → select_method given options metadata context (collect_goal objective) calls
        ≡ (rule_based_method collect_inputs context, false)
  unfolding select_method
  collect-rule context objective calls =
      select_method-rule context (collect_goal objective) calls
        (options.model_assisted_method_selection && ltb calls options.model_assisted_max_calls)

  abbrev progress :
      List HtnSubgoal → List HtnSubgoal → List MethodId → List HtnLeafOperator → ℕ → Progress
  progress queue subgoals methods leaves calls = record {
    queue = queue;
    subgoals = subgoals;
    method_path = methods;
    leaves = leaves;
    planner_calls = calls;
  }

  -- One round of the loop.
  step :
      (context : ContextKind) (wanted : List HtnLeafOperator) (fuel : ℕ) (current : HtnSubgoal)
      (rest subgoals : List HtnSubgoal) (methods : List MethodId) (leaves : List HtnLeafOperator)
      (calls : ℕ) (chosen : MethodId × Bool)
      → select_method given options metadata context current calls ≡ chosen
      → length (current ∷ rest) ≤ 3
      → current.depth ≤ 2
      → length
          (expanded given options metadata context
            (progress (current ∷ rest) subgoals methods leaves calls)
            current
            rest
            chosen).leaves
        ≤ length wanted
      → Within options wanted (
          decompose_loop given options metadata context fuel (
            expanded given options metadata context
              (progress (current ∷ rest) subgoals methods leaves calls)
              current
              rest
              chosen))
      → Within options wanted (
          decompose_loop given options metadata context
            (suc fuel)
            (progress (current ∷ rest) subgoals methods leaves calls))
  unfolding decompose_loop
  step context wanted fuel current rest subgoals methods leaves calls chosen e few shallow part h =
      unless-Within context wanted _ _ (λ b. inl (ground (arith, b, few)))
        (unless-Within context wanted _ _ (λ b. inr (inl (ground (arith, b, shallow))))
          (subst
            (λ c. Within options wanted (
              checked_total given options metadata context
                (decompose_loop given options metadata context fuel)
                (expanded given options metadata context
                  (progress (current ∷ rest) subgoals methods leaves calls) current rest c)))
            (sym e)
            (unless-Within context wanted _ _
              (λ b. inr (
                inr (
                  ground (
                    arith,
                    b,
                    part,
                    count_distinct-le
                        (expanded given options metadata context
                          (progress (current ∷ rest) subgoals methods leaves calls) current rest
                          chosen).leaves,
                  ))))
              h)))

  done :
      (context : ContextKind) (wanted : List HtnLeafOperator) (fuel : ℕ)
      (subgoals : List HtnSubgoal) (methods : List MethodId) (calls : ℕ)
      → Within options wanted (
          decompose_loop given options metadata context
            (suc fuel)
            (progress [] subgoals methods wanted calls))
  unfolding decompose_loop
  done context wanted fuel subgoals methods calls = inr (_, refl, refl)

  decompose-docs :
      (objective : String)
      → Within options (leaves_for docs objective) (decompose given options metadata docs objective)
  unfolding decompose rule_based_method
  decompose-docs objective =
      let d = draft_leaves given metadata docs (draft_goal objective) in
      let c = critic_leaves given metadata docs (verify_goal objective) in
      let r = doc_leaves given metadata (read_goal objective) in
      let some_d : length d ≤ length ((d ++ c) ++ r) =
        omega (arith, length-append (d ++ c) r, length-append d c) in
      let some_dc : length (d ++ c) ≤ length ((d ++ c) ++ r) =
        omega (arith, length-append (d ++ c) r) in
      step docs _ 5 _ _ _ _ _ _ _ refl (omega arith) (omega arith) (omega arith) (
        step docs _ 4 _ _ _ _ _ _ _ (collect-rule docs objective _) (omega arith) (omega arith)
          (omega arith)
          (step docs _ 3 _ _ _ _ _ _ _ refl (omega arith) (omega arith) some_d (
            step docs _ 2 _ _ _ _ _ _ _ refl (omega arith) (omega arith) some_dc (
              step docs _ 1 _ _ _ _ _ _ _ refl (omega arith) (omega arith) (omega arith)
                (done docs _ 0 _ _ _)))))

  decompose-web :
      (objective : String)
      → Within options (leaves_for web objective) (decompose given options metadata web objective)
  unfolding decompose rule_based_method
  decompose-web objective =
      let w = web_leaves given metadata (collect_goal objective) in
      let d = draft_leaves given metadata web (draft_goal objective) in
      let c = critic_leaves given metadata web (verify_goal objective) in
      let some_w : length w ≤ length ((w ++ d) ++ c) =
        omega (arith, length-append (w ++ d) c, length-append w d) in
      let some_wd : length (w ++ d) ≤ length ((w ++ d) ++ c) =
        omega (arith, length-append (w ++ d) c) in
      step web _ 5 _ _ _ _ _ _ _ refl (omega arith) (omega arith) (omega arith) (
        step web _ 4 _ _ _ _ _ _ _ (collect-rule web objective _) (omega arith) (omega arith) some_w
          (step web _ 3 _ _ _ _ _ _ _ refl (omega arith) (omega arith) some_wd (
            step web _ 2 _ _ _ _ _ _ _ refl (omega arith) (omega arith) (omega arith)
              (done web _ 1 _ _ _))))

  -- Without documents and without the web, the draft and the critic are all.
  some_draft :
      (context : ContextKind) (objective : String)
      → length (draft_leaves given metadata context (draft_goal objective))
        ≤ length (
            draft_leaves given metadata context (draft_goal objective)
            ++ critic_leaves given metadata context (verify_goal objective))
  some_draft context objective = omega (
    arith,
    length-append (draft_leaves given metadata context (draft_goal objective))
        (critic_leaves given metadata context (verify_goal objective)),
  )

  decompose-file :
      (objective : String)
      → Within options (leaves_for file objective) (decompose given options metadata file objective)
  unfolding decompose rule_based_method
  decompose-file objective =
      step file _ 5 _ _ _ _ _ _ _ refl (omega arith) (omega arith) (omega arith) (
        step file _ 4 _ _ _ _ _ _ _ (collect-rule file objective _) (omega arith) (omega arith)
          (omega arith)
          (step file _ 3 _ _ _ _ _ _ _ refl (omega arith) (omega arith) (some_draft file objective)
            (step file _ 2 _ _ _ _ _ _ _ refl (omega arith) (omega arith) (omega arith)
              (done file _ 1 _ _ _))))

  decompose-plain :
      (objective : String)
      → Within options
          (leaves_for plain objective)
          (decompose given options metadata plain objective)
  unfolding decompose rule_based_method
  decompose-plain objective =
      step plain _ 5 _ _ _ _ _ _ _ refl (omega arith) (omega arith) (omega arith) (
        step plain _ 4 _ _ _ _ _ _ _ (collect-rule plain objective _) (omega arith) (omega arith)
          (omega arith)
          (step plain _ 3 _ _ _ _ _ _ _ refl (omega arith) (omega arith)
            (some_draft plain objective)
            (step plain _ 2 _ _ _ _ _ _ _ refl (omega arith) (omega arith) (omega arith)
              (done plain _ 1 _ _ _))))

  decompose-Within :
      (context : ContextKind) (objective : String)
      → Within options
          (leaves_for context objective)
          (decompose given options metadata context objective)
  decompose-Within docs objective = decompose-docs objective
  decompose-Within web objective = decompose-web objective
  decompose-Within file objective = decompose-file objective
  decompose-Within plain objective = decompose-plain objective

pub decompose-leaves :
    (given : Given) (options : BackendOptions) (metadata : Fields) (context : ContextKind)
    (objective : String)
    → let r = decompose given options metadata context objective in
      let leaves = leaves_for given options metadata context objective in
      ((r ≡ err value_error) × Exceeds options leaves)
      ⊎ ((p : Progress) × ((r ≡ ok p)
            × (p.leaves ≡ leaves)
            × WithinLimits given options metadata context p))
decompose-leaves given options metadata context objective =
    elim (decompose-Within given options metadata context objective) [
      | inl failed ↦ inl failed
      | inr (p, good, same) ↦
          inr (
            p,
            (good, same, decompose-WithinLimits given options metadata context objective p good),
          )
    ]
