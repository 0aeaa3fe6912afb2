-- ===== src/Execution/Inputs/Defs.antt =====
-- `_gather_inputs`.
use neuronium.Prelude.{
  String, Bool, true, false, not, ◌&&◌, Option, none, some, List, [], ◌∷◌, is_some, if◌then◌else◌,
  Dict, lookup, get_or, Result, ok, ◌>>=◌,
}
use neuronium.Prelude.Value.{
  get_value, Value, Fields, end, field, null, str, get_field, put_field, update_fields, truthy,
}
use neuronium.Planning.Dag.{ActionGraph, GraphNode, NodeType, predecessors}
use neuronium.Nodes.{NodeOutput}
use neuronium.Execution.Inputs.Prompts.{build_critic_prompt}
use neuronium.Execution.Inputs.Feedback.{build_fix_prompt, build_default_prompt}

abbrev pub preserved_keys : List String
preserved_keys =
    "clarification_request_artifact_id" ∷ "clarification_response_artifact_id"
    ∷ "clarification_evidence_artifact_ids" ∷ "clarification_context_envelope" ∷ []

-- `for pred_id in preds.get(node_id, [])`
unfoldable pub merge_outputs : Dict NodeOutput → List String → Fields → Fields
merge_outputs results [] inputs = inputs
merge_outputs results (pred ∷ preds) inputs = elim (lookup pred results) [
  | none ↦ merge_outputs results preds inputs
  | some out ↦ merge_outputs results preds (update_fields inputs out.outputs)
]

-- `for k, v in initial_inputs.items(): inputs.setdefault(k, v)`
unfoldable pub add_defaults : Fields → Fields → Fields
add_defaults inputs end = inputs
add_defaults inputs (field k v initial) =
    add_defaults (if is_some (get_field k inputs) then inputs else put_field k v inputs) initial

-- `for key in _PRESERVE_INITIAL_CONTEXT_KEYS`
unfoldable pub preserve : List String → Fields → Fields → Fields
preserve [] initial inputs = inputs
preserve (k ∷ ks) initial inputs =
    preserve ks initial
      (elim (get_field k initial) [ none ↦ inputs | some v ↦ put_field k v inputs ])

abbrev pub is_model : NodeType → Bool
is_model NodeType.model = true
is_model _ = false

abbrev pub is_code : NodeType → Bool
is_code NodeType.code = true
is_code _ = false

module _ (text dumps : Value → String) where
  -- The prompt of a model node that was given none.
  unfoldable pub prompt_for : GraphNode → Fields → Result String
  prompt_for node inputs =
      if truthy (get_value "json_schema" null node.parameters)
      then build_critic_prompt text dumps inputs node.parameters
      else if truthy (get_value "previous_code" null inputs)
      then build_fix_prompt text dumps inputs
      else build_default_prompt text dumps inputs

  unfoldable pub add_prompt : GraphNode → Fields → Result Fields
  add_prompt node inputs =
      if is_model node.node_type && not (is_some (get_field "prompt" inputs))
      then (prompt_for node inputs >>= λ p. ok (put_field "prompt" (str p) inputs))
      else ok inputs

  unfoldable pub add_code : GraphNode → Fields → Fields
  add_code node inputs =
      if is_code node.node_type && not (is_some (get_field "code" inputs))
      then (elim (get_field "content" inputs) [
        | none ↦ inputs
        | some v ↦ put_field "code" v inputs
      ])
      else inputs

  -- The inputs that come from the predecessors and from the run.
  unfoldable pub merged_inputs : Dict NodeOutput → List String → Fields → Fields
  merged_inputs results preds initial =
      preserve preserved_keys initial (add_defaults (merge_outputs results preds end) initial)

  unfoldable pub gather_inputs :
      ActionGraph → Dict NodeOutput → String → Option GraphNode → Fields → Result Fields
  gather_inputs g results node_id node initial =
      let inputs = merged_inputs results (get_or (predecessors g) node_id []) initial in
      elim node [
        | none ↦ ok inputs
        | some n ↦ add_prompt n inputs >>= λ with_prompt. ok (add_code n with_prompt)
      ]
