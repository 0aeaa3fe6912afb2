-- ===== src/Tests/Prompted.antt =====
-- The inputs of a model node that follows another one.
use neuronium.Prelude.{◌≡◌, refl, some, [], ◌∷◌, Dict, ok, lookup, insert}
use neuronium.Prelude.Value.{Fields, end, field, str, get_field, put_field, update_fields}
use neuronium.Planning.Dag.{ActionGraph, model, code, predecessors, link, collect}
use neuronium.Nodes.{NodeOutput}
use neuronium.Execution.Inputs.{
  gather_inputs, merge_outputs, add_prompt, merged_inputs, preserve, add_defaults, add_code,
}
use neuronium.Execution.Inputs.Precedence.{source_of, gather_inputs-source_of}
use neuronium.Tests.Samples.{a_graph, a_node, an_edge, an_output, text_of}

abbrev two_nodes : ActionGraph
two_nodes = a_graph (a_node "a" code 0 ∷ a_node "m" model 0 ∷ []) (an_edge "a" "m" ∷ []) []

abbrev outputs : Dict NodeOutput
outputs = ("a", an_output (field "prompt" (str "say hi") (field "objective" (str "x") end))) ∷ []

abbrev the_run : Fields
the_run = field "objective" (str "y") (field "clarification_context_envelope" (str "z") end)

abbrev the_inputs : Fields
the_inputs =
    field "prompt" (str "say hi")
      (field "objective" (str "x") (field "clarification_context_envelope" (str "z") end))

gathers :
    gather_inputs text_of text_of two_nodes outputs "m" (some (a_node "m" model 0)) the_run
    ≡ ok the_inputs
unfolding gather_inputs add_prompt get_field merged_inputs preserve put_field add_defaults
    merge_outputs lookup predecessors link insert collect update_fields add_code
gathers = refl

gather_inputs-source_of_example :
    get_field "objective" the_inputs
    ≡ source_of "objective" (merge_outputs outputs ("a" ∷ []) end) the_run
unfolding lookup predecessors link insert collect
gather_inputs-source_of_example =
    gather_inputs-source_of text_of text_of two_nodes outputs "m" (some (a_node "m" model 0))
      the_run the_inputs "objective" refl refl gathers
