-- ===== src/Planning/Htn/Decompose.antt =====
-- `_select_method` and the loop of `plan` over the queue of subgoals. The steps and choices that only the
-- decision trace shows are kept as the lists of subgoals and of methods.
use neuronium.Prelude.{
  ℕ, zero, suc, ◌+◌, Bool, true, false, ◌&&◌, none, List, [], ◌∷◌, ◌++◌, length, ltb, has,
  if◌then◌else◌, Result, ok, err, value_error, out_of_fuel, String,
}
use neuronium.Prelude.Value.{Fields}
use neuronium.Planning.Htn.{
  root, ContextKind, MethodId, HtnSubgoal, HtnLeafOperator, BackendOptions, Given, candidate,
  chosen_method, ids,
}
use neuronium.Planning.Htn.Expand.{expand_subgoal}

pub record Progress : Type 0 where
  pub queue : List HtnSubgoal
  pub subgoals : List HtnSubgoal
  pub method_path : List MethodId
  pub leaves : List HtnLeafOperator
  pub planner_calls : ℕ

abbrev pub root_goal : String → HtnSubgoal
root_goal objective = record {
  subgoal_id = "sg_root";
  title = objective;
  depth = 0;
  parent_subgoal_id = none;
  kind = root;
}

abbrev pub first_progress : String → Progress
first_progress objective = record {
  queue = root_goal objective ∷ [];
  subgoals = root_goal objective ∷ [];
  method_path = [];
  leaves = [];
  planner_calls = 0;
}

-- `len({leaf.node_id for leaf in leaves})`
unfoldable pub count_distinct : List String → ℕ
count_distinct [] = 0
count_distinct (x ∷ xs) = let rest = count_distinct xs in if has x xs then rest else rest + 1

module _ (given : Given) (options : BackendOptions) (metadata : Fields)
    (context : ContextKind) where
  -- The method of a subgoal, and whether a model has named it.
  unfoldable pub select_method : HtnSubgoal → ℕ → MethodId × Bool
  select_method s calls = chosen_method s.kind context (
      if options.model_assisted_method_selection && ltb calls options.model_assisted_max_calls
      then candidate s.kind (given.answer calls s)
      else none)

  -- One subgoal, with the rest of the queue.
  abbrev pub expanded : Progress → HtnSubgoal → List HtnSubgoal → MethodId × Bool → Progress
  expanded p current rest (method, assisted) =
      let (children, leaves) = expand_subgoal given metadata context current method in
      record {
        queue = rest ++ children;
        subgoals = p.subgoals ++ children;
        method_path = p.method_path ++ method ∷ [];
        leaves = p.leaves ++ leaves;
        planner_calls = if assisted then p.planner_calls + 1 else p.planner_calls;
      }

  -- `if ...: raise ValueError(...)`
  abbrev pub unless : Bool → Result Progress → Result Progress
  unless true r = err value_error
  unless false r = r

  abbrev pub checked_total : (Progress → Result Progress) → Progress → Result Progress
  checked_total go p = unless (ltb options.max_total_nodes (count_distinct (ids p.leaves))) (go p)

  abbrev pub take_subgoal :
      (Progress → Result Progress) → Progress → List HtnSubgoal → Result Progress
  take_subgoal go p [] = ok p
  take_subgoal go p (current ∷ rest) = unless (ltb options.max_frontier (length (current ∷ rest))) (
      unless (ltb options.max_depth current.depth)
        (checked_total go (expanded p current rest (select_method current p.planner_calls))))

  -- `while queue`
  unfoldable pub decompose_loop : ℕ → Progress → Result Progress
  decompose_loop zero p = err out_of_fuel
  decompose_loop (suc fuel) p = take_subgoal (decompose_loop fuel) p p.queue

  -- At most five subgoals are expanded.
  unfoldable pub decompose : String → Result Progress
  decompose objective = decompose_loop 6 (first_progress objective)
