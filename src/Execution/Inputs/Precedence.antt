-- ===== src/Execution/Inputs/Precedence.antt =====
-- Where the inputs of a node come from.
use neuronium.Prelude.{
  String, ◌≡◌, refl, sym, ap, ◌∙◌, subst, true, false, not, ◌&&◌, Option, none, some, List, [], ◌∷◌,
  arith, has, is_some, if◌then◌else◌, str_eq, eq_iff, eq_refl, Dict, get_or, ok, >>=-eq-ok,
  ok-injective, Bool-cases, Option-cases, inl, inr,
}
use neuronium.Prelude.Value.{
  get_field-put_field, Value, Fields, end, field, str, get_field, put_field,
}
use neuronium.Planning.Dag.{ActionGraph, GraphNode, predecessors}
use neuronium.Nodes.{NodeOutput}
use neuronium.Execution.Inputs.Defs.{
  preserved_keys, merge_outputs, add_defaults, preserve, is_model, add_prompt, add_code,
  merged_inputs, gather_inputs, prompt_for,
}

-- `x if x is not missing else y`
abbrev pub first_given : Option Value → Option Value → Option Value
first_given none y = y
first_given (some v) y = some v

get_field-add_defaults :
    (j : String) (inputs initial : Fields)
    → get_field j (add_defaults inputs initial)
      ≡ first_given (get_field j inputs) (get_field j initial)
unfolding add_defaults get_field
get_field-add_defaults j inputs end = ground arith
get_field-add_defaults j inputs (field k v initial) =
    elim (Bool-cases (is_some (get_field k inputs))) [
      | inl e ↦
          rw (e, add_defaults)
            (ground (arith, e, eq_iff k j, get_field-add_defaults j inputs initial))
      | inr e ↦
          rw (e, add_defaults)
            (ground (
              arith,
              e,
              eq_iff k j,
              get_field-add_defaults j (put_field k v inputs) initial,
              get_field-put_field k j v inputs,
            ))
    ]

get_field-preserve :
    (j : String) (ks : List String) (initial inputs : Fields)
    → get_field j (preserve ks initial inputs) ≡ (
        if has j ks
        then first_given (get_field j initial) (get_field j inputs)
        else get_field j inputs)
unfolding preserve
get_field-preserve j [] initial inputs = refl
get_field-preserve j (k ∷ ks) initial inputs = elim (Option-cases (get_field k initial)) [
  | inl e ↦ rw (e, preserve) (ground (arith, e, eq_iff k j, get_field-preserve j ks initial inputs))
  | inr (v, e) ↦
      rw (e, preserve)
        (ground (
          arith,
          e,
          eq_iff k j,
          get_field-preserve j ks initial (put_field k v inputs),
          get_field-put_field k j v inputs,
        ))
]

-- The value of a key among the merged inputs.
abbrev pub source_of : String → Fields → Fields → Option Value
source_of k outputs initial =
    if has k preserved_keys && is_some (get_field k initial)
    then get_field k initial
    else first_given (get_field k outputs) (get_field k initial)

get_field-merged_inputs :
    (text dumps : Value → String) (k : String) (results : Dict NodeOutput) (preds : List String)
    (initial : Fields)
    → get_field k (merged_inputs text dumps results preds initial)
      ≡ source_of k (merge_outputs results preds end) initial
unfolding merged_inputs
get_field-merged_inputs text dumps k results preds initial =
    let outputs = merge_outputs results preds end in
    ground (
      arith,
      get_field-preserve k preserved_keys initial (add_defaults outputs initial),
      get_field-add_defaults k outputs initial,
    )

not_code : str_eq "code" "prompt" ≡ false
not_code = refl

add_code_other :
    (text dumps : Value → String) (n : GraphNode) (k : String) (inputs : Fields)
    → str_eq "code" k ≡ false
    → get_field k (add_code text dumps n inputs) ≡ get_field k inputs
unfolding add_code
add_code_other text dumps n k inputs c = elim (Option-cases (get_field "content" inputs)) [
  | inl e ↦ ground (arith, e)
  | inr (v, e) ↦ ground (arith, e, get_field-put_field "code" k v inputs)
]

-- A prompt that was added, and the inputs otherwise.
record Prompted (n : GraphNode) (before after : Fields) : Type 0 where
  others : (k : String) → str_eq "prompt" k ≡ false → get_field k after ≡ get_field k before
  there : is_model n.node_type ≡ true → is_some (get_field "prompt" after) ≡ true

add_prompt-Prompted :
    (text dumps : Value → String) (n : GraphNode) (before after : Fields)
    → add_prompt text dumps n before ≡ ok after
    → Prompted n before after
unfolding add_prompt
add_prompt-Prompted text dumps n before after h =
    elim (Bool-cases (is_model n.node_type && not (is_some (get_field "prompt" before)))) [
      | inl e ↦
          let (p, q, h') = >>=-eq-ok (prompt_for text dumps n before) _ (rw e at h) in
          subst (Prompted n before) (ok-injective h') (record {
            others = λ k d. ground (arith, d, get_field-put_field "prompt" k (str p) before);
            there = λ m.
                ground
                  (arith, eq_refl "prompt", get_field-put_field "prompt" "prompt" (str p) before);
          })
      | inr e ↦
          subst (Prompted n before) (ok-injective (rw e at h))
            (record { others = λ k d. refl; there = λ m. ground (arith, e, m) })
    ]

module _ (text dumps : Value → String) (g : ActionGraph) (results : Dict NodeOutput)
    (node_id : String) (node : Option GraphNode) (initial inputs : Fields) where
  abbrev preds : List String
  preds = get_or (predecessors g) node_id []

  pub gather_inputs-source_of :
      (k : String)
      → str_eq "prompt" k ≡ false
      → str_eq "code" k ≡ false
      → gather_inputs text dumps g results node_id node initial ≡ ok inputs
      → get_field k inputs ≡ source_of k (merge_outputs results preds end) initial
  unfolding gather_inputs
  gather_inputs-source_of k p c h =
      let merged = merged_inputs text dumps results preds initial in
      let base = get_field-merged_inputs text dumps k results preds initial in
      elim (Option-cases node) [
        | inl e ↦ ap (get_field k) (sym (ok-injective (rw e at h))) ∙ base
        | inr (n, e) ↦
            let (after, a, h') = >>=-eq-ok (add_prompt text dumps n merged) _ (rw e at h) in
            ap (get_field k) (sym (ok-injective h'))
            ∙ add_code_other text dumps n k after c
            ∙ (add_prompt-Prompted text dumps n merged after a).others k p
            ∙ base
      ]

  -- A model node whose inputs are gathered is always given a "prompt".
  pub gather_inputs-prompt :
      (n : GraphNode)
      → node ≡ some n
      → is_model n.node_type ≡ true
      → gather_inputs text dumps g results node_id node initial ≡ ok inputs
      → is_some (get_field "prompt" inputs) ≡ true
  unfolding gather_inputs
  gather_inputs-prompt n e m h =
      let merged = merged_inputs text dumps results preds initial in
      let (after, a, h') = >>=-eq-ok (add_prompt text dumps n merged) _ (rw e at h) in
      ap (λ fs. is_some (get_field "prompt" fs)) (sym (ok-injective h'))
      ∙ ap (is_some {A = Value}) (add_code_other text dumps n "prompt" after not_code)
      ∙ (add_prompt-Prompted text dumps n merged after a).there m
