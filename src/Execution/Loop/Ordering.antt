-- ===== src/Execution/Loop/Ordering.antt =====
-- When the predecessors of a node are completed, in terms of the edges that are still open.
use neuronium.Prelude.{
  ◌<◌, String, ◌≡◌, refl, Bool, true, false, ◌&&◌, List, [], ◌∷◌, ◌++◌, arith, str_eq, eq_iff,
  eq_refl, count, count_if, has, has-append, all_of, get_or, remove_first, keep, Bool-cases, inl,
  inr,
}
use neuronium.Planning.Dag.{GraphEdge, ActionGraph, predecessors}
use neuronium.Planning.Dag.Degrees.{open_into, predecessors_lem}
use neuronium.Planning.Dag.Order.{IsOrdered}
use neuronium.Execution.Loop.Defs.{satisfied}

abbrev edge_to : String → String → GraphEdge → Bool
edge_to v s e = str_eq e.target v && str_eq e.source s

open_zero :
    (completed : List String) (v : String) (es : List GraphEdge)
    → ((s : String) → 0 < count_if (edge_to v s) es → has s completed ≡ true)
    → count_if (open_into completed v) es ≡ 0
open_zero completed v [] h = refl
open_zero completed v (e ∷ es) h =
    ground
      (arith, eq_refl e.source, h e.source, open_zero completed v es (λ s c. h s (omega arith)))

open_zero_source :
    (completed : List String) (v s : String) (es : List GraphEdge)
    → count_if (open_into completed v) es ≡ 0
    → 0 < count_if (edge_to v s) es
    → has s completed ≡ true
open_zero_source completed v s [] z c = elim c [ ]
open_zero_source completed v s (e ∷ es) z c =
    ground (arith, eq_iff e.source s, open_zero_source completed v s es)

all_of-count :
    (completed : List String) (s : String) (xs : List String)
    → all_of (λ p. has p completed) xs ≡ true
    → 0 < count s xs
    → has s completed ≡ true
all_of-count completed s [] h c = elim c [ ]
all_of-count completed s (x ∷ xs) h c = ground (arith, eq_iff x s, all_of-count completed s xs)

all_of_intro :
    (completed xs : List String)
    → ((s : String) → 0 < count s xs → has s completed ≡ true)
    → all_of (λ p. has p completed) xs ≡ true
all_of_intro completed [] h = refl
all_of_intro completed (x ∷ xs) h =
    ground (arith, eq_refl x, h x, all_of_intro completed xs (λ s c. h s (omega arith)))

module _ (g : ActionGraph) (completed : List String) (v : String) where
  -- All predecessors are completed exactly when no edge into the node is open.
  pub open_of_satisfied :
      satisfied (predecessors g) completed v ≡ true → count_if (open_into completed v) g.edges ≡ 0
  unfolding satisfied
  open_of_satisfied h = open_zero completed v g.edges (λ s c.
      all_of-count completed s (get_or (predecessors g) v []) h
        (omega (arith, predecessors_lem g s v)))

  pub satisfied_of_open :
      count_if (open_into completed v) g.edges ≡ 0 → satisfied (predecessors g) completed v ≡ true
  unfolding satisfied
  satisfied_of_open z =
      all_of_intro completed (get_or (predecessors g) v [])
        (λ s c. open_zero_source completed v s g.edges z (omega (arith, predecessors_lem g s v)))

-- Edges stay closed while more nodes are completed.
pub open_mono :
    (a b : List String) (v : String) (es : List GraphEdge)
    → ((s : String) → has s a ≡ true → has s b ≡ true)
    → count_if (open_into a v) es ≡ 0
    → count_if (open_into b v) es ≡ 0
open_mono a b v [] sub h = refl
open_mono a b v (e ∷ es) sub h = ground (arith, sub e.source, open_mono a b v es sub)

pub IsOrdered_mono :
    (edges : List GraphEdge) (a b xs : List String)
    → ((s : String) → has s a ≡ true → has s b ≡ true)
    → IsOrdered edges a xs
    → IsOrdered edges b xs
IsOrdered_mono edges a b [] sub h = tt
IsOrdered_mono edges a b (x ∷ xs) sub h = (
  open_mono a b x edges sub h.0,
  IsOrdered_mono edges (a ++ x ∷ []) (b ++ x ∷ []) xs
      (λ s k. ground (arith, has-append s x a, has-append s x b, sub s)) h.1,
)

-- What waits still waits in order when one of its nodes is completed.
pub IsOrdered-remove_first :
    (edges : List GraphEdge) (a b xs : List String) (v : String)
    → ((s : String) → has s a ≡ true → has s b ≡ true)
    → has v b ≡ true
    → IsOrdered edges a xs
    → IsOrdered edges b (remove_first v xs)
IsOrdered-remove_first edges a b [] v sub hv h = tt
IsOrdered-remove_first edges a b (x ∷ xs) v sub hv h = elim (Bool-cases (str_eq x v)) [
  | inl same ↦
      rw (same, remove_first)
        (IsOrdered_mono edges (a ++ x ∷ []) b xs
          (λ s k. ground (arith, has-append s x a, sub s, eq_iff x v, eq_iff x s)) h.1)
  | inr other ↦
      rw (other, remove_first)
        (
          open_mono a b x edges sub h.0,
          IsOrdered-remove_first edges (a ++ x ∷ []) (b ++ x ∷ []) xs v
              (λ s k. ground (arith, has-append s x a, has-append s x b, sub s))
              (ground (arith, has-append v x b)) h.1,
        )
]

-- What is left of an order after taking away nodes that are completed.
pub IsOrdered-keep :
    (edges : List GraphEdge) (p : String → Bool) (a b xs : List String)
    → ((s : String) → has s a ≡ true → has s b ≡ true)
    → ((s : String) → p s ≡ false → has s b ≡ true)
    → IsOrdered edges a xs
    → IsOrdered edges b (keep p xs)
IsOrdered-keep edges p a b [] sub drop h = tt
IsOrdered-keep edges p a b (x ∷ xs) sub drop h = elim (Bool-cases (p x)) [
  | inl kept ↦
      rw (kept, keep)
        (
          open_mono a b x edges sub h.0,
          IsOrdered-keep edges p (a ++ x ∷ []) (b ++ x ∷ []) xs
              (λ s k. ground (arith, has-append s x a, has-append s x b, sub s))
              (λ s k. ground (arith, has-append s x b, drop s)) h.1,
        )
  | inr dropped ↦
      rw (dropped, keep)
        (IsOrdered-keep edges p (a ++ x ∷ []) b xs
          (λ s k. ground (arith, has-append s x a, sub s, drop x dropped, eq_iff x s)) drop h.1)
]
