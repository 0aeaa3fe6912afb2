-- ===== src/Planning/Htn/Limits.antt =====
-- What the limits of the options do in the loop over the subgoals: the checks that raise a ValueError.
use neuronium.Prelude.{
  ℕ, zero, suc, ◌<◌, ◌≤◌, String, Bool, true, false, List, [], ◌∷◌, ◌≡◌, arith, length, ltb,
  ok-injective, ap, Result, ok, ◌⊎◌,
}
use neuronium.Prelude.Value.{Fields}
use neuronium.Planning.Htn.{ContextKind, HtnSubgoal, HtnLeafOperator, BackendOptions, Given, ids}
use neuronium.Planning.Htn.Decompose.{
  Progress, take_subgoal, count_distinct, first_progress, select_method, expanded, unless,
  decompose_loop, decompose,
}

pub count_distinct-le :
    (leaves : List HtnLeafOperator) → count_distinct (ids leaves) ≤ length leaves
unfolding count_distinct
count_distinct-le [] = omega arith
count_distinct-le (x ∷ xs) = ground (arith, count_distinct-le xs)

-- A limit that the decomposition of a context exceeds: its subgoals are at most three at a time and at
-- most two levels below the root.
abbrev pub Exceeds : BackendOptions → List HtnLeafOperator → Type 0
Exceeds options leaves =
    (options.max_frontier < 3) ⊎ (options.max_depth < 2) ⊎ (options.max_total_nodes < length leaves)

module _ (given : Given) (options : BackendOptions) (metadata : Fields)
    (context : ContextKind) where
  -- A check that has not raised.
  unless-ok :
      (b : Bool) (r : Result Progress) (p : Progress)
      → unless given options metadata context b r ≡ ok p
      → (b ≡ false) × (r ≡ ok p)
  unless-ok true r p h = absurd (cc h)
  unless-ok false r p h = ground (arith, h)

  -- What every further round keeps, one round keeps.
  taken_total :
      (go : Progress → Result Progress) (p last : Progress) (queue : List HtnSubgoal)
      → ((q : Progress)
          → count_distinct (ids q.leaves) ≤ options.max_total_nodes
          → go q ≡ ok last
          → count_distinct (ids last.leaves) ≤ options.max_total_nodes)
      → count_distinct (ids p.leaves) ≤ options.max_total_nodes
      → take_subgoal given options metadata context go p queue ≡ ok last
      → count_distinct (ids last.leaves) ≤ options.max_total_nodes
  taken_total go p last [] later m h =
      let same : p ≡ last = ok-injective h in
      omega (arith, m, ap (λ (q : Progress). count_distinct (ids q.leaves)) same)
  taken_total go p last (current ∷ rest) later m h =
      let next =
        expanded given options metadata context p current rest
          (select_method given options metadata context current p.planner_calls) in
      let (_, h1) = unless-ok (ltb options.max_frontier (length (current ∷ rest))) _ last h in
      let (_, h2) = unless-ok (ltb options.max_depth current.depth) _ last h1 in
      let (below, h3) =
        unless-ok (ltb options.max_total_nodes (count_distinct (ids next.leaves))) _ last h2 in
      later next (ground (arith, below)) h3

  loop_total :
      (fuel : ℕ) (p last : Progress)
      → count_distinct (ids p.leaves) ≤ options.max_total_nodes
      → decompose_loop given options metadata context fuel p ≡ ok last
      → count_distinct (ids last.leaves) ≤ options.max_total_nodes
  unfolding decompose_loop
  loop_total zero p last m h = absurd (cc h)
  loop_total (suc fuel) p last m h =
      taken_total (decompose_loop given options metadata context fuel) p last p.queue
        (λ q. loop_total fuel q last) m h

  -- A decomposition that ends within the limits.
  pub record WithinLimits (p : Progress) : Type 0 where
    pub depth_limit : 1 ≤ options.max_depth
    pub frontier_limit : 3 ≤ options.max_frontier
    pub total_limit : count_distinct (ids p.leaves) ≤ options.max_total_nodes

  pub decompose-WithinLimits :
      (objective : String) (p : Progress)
      → decompose given options metadata context objective ≡ ok p
      → WithinLimits p
  unfolding decompose decompose_loop count_distinct
  decompose-WithinLimits objective p h =
      let (_, h1) = unless-ok (ltb options.max_frontier 1) _ p h in
      let (_, h2) = unless-ok (ltb options.max_depth 0) _ p h1 in
      let (_, h3) = unless-ok (ltb options.max_total_nodes 0) _ p h2 in
      let (wide, h4) = unless-ok (ltb options.max_frontier 3) _ p h3 in
      let (deep, _) = unless-ok (ltb options.max_depth 1) _ p h4 in
      record {
        depth_limit = ground (arith, deep);
        frontier_limit = ground (arith, wide);
        total_limit = loop_total 6 (first_progress objective) p (omega arith) h;
      }
