-- ===== src/Tests/Gates.antt =====
-- A stage with a critic.
use neuronium.Prelude.{
  is_empty, String, ◌≡◌, refl, true, false, Option, none, some, [], ◌∷◌, Dict, lookup, ok, err,
  attribute_error, arith, ◌&&◌, if◌then◌else◌,
}
use neuronium.Prelude.Value.{
  get_value, truthy, Value, Fields, nil, cons, end, field, bool, float, str, arr, obj, get_field,
}
use neuronium.Nodes.{NodeOutput}
use neuronium.Core.Gate.{
  DemoCriticVerdict, StageSuccessGate, pass, fails, says_pass, completed_output, extract_verdict,
  build_gate_snapshot, critic_entries, snapshot_of, loaded_fields, evaluate_gate, downgrade,
}
use neuronium.Core.Gate.Passes.{
  Passed, Copies, evaluate_gate-Passed, extract_verdict-evidence, evaluate_gate-build_gate_snapshot,
}
use neuronium.Tests.Samples.{an_output}

-- No text is JSON, and a dict is a verdict if it says PASS with evidence.
abbrev no_json : String → Option Value
no_json s = none

abbrev passing : DemoCriticVerdict
passing = record {
  verdict = pass;
  confidence = float "1.0";
  evidence = "it ran" ∷ [];
  gaps = [];
  suggestions = [];
}

abbrev failing : DemoCriticVerdict
failing = record {
  verdict = fails;
  confidence = float "1.0";
  evidence = [];
  gaps = [];
  suggestions = [];
}

-- A reader of verdicts that takes a dict only if it says PASS and has evidence.
abbrev read_pass : Fields → Option DemoCriticVerdict
read_pass fs =
    if says_pass (get_field "verdict" fs) && truthy (get_value "evidence" (arr nil) fs)
    then some passing
    else none

read_pass_copies : Copies no_json read_pass
read_pass_copies fs v h = (ground arith, ground arith)

abbrev said : Fields
said = field "verdict" (str "PASS") (field "evidence" (arr (cons (str "it ran") nil)) end)

abbrev the_output : NodeOutput
the_output = an_output (field "parsed" (obj said) end)

abbrev the_results : Dict NodeOutput
the_results = ("critic", the_output) ∷ []

abbrev the_gate : StageSuccessGate
the_gate = record { required_completed_nodes = "critic" ∷ []; critic_node_id = some "critic" }

extracts : extract_verdict no_json read_pass the_results "critic" ≡ ok passing
unfolding extract_verdict completed_output lookup get_field downgrade
extracts = refl

abbrev the_snapshot : Fields
the_snapshot = field "required_nodes_ok" (bool true) (snapshot_of no_json read_pass said)

builds : build_gate_snapshot no_json read_pass the_results the_gate ≡ ok the_snapshot
unfolding build_gate_snapshot critic_entries completed_output lookup get_field
builds = refl

passes : evaluate_gate the_results the_gate (some passing) none ≡ true
unfolding evaluate_gate completed_output lookup
passes = refl

found : completed_output the_results "critic" ≡ some the_output
unfolding completed_output lookup
found = refl

parsed : get_field "parsed" the_output.outputs ≡ some (obj said)
unfolding get_field
parsed = refl

reads : read_pass said ≡ some passing
unfolding get_field
reads = refl

evaluate_gate-Passed_example : Passed the_results the_gate (some passing)
evaluate_gate-Passed_example =
    evaluate_gate-Passed the_results the_gate (some passing) none refl passes

extract_verdict-evidence_example : is_empty passing.evidence ≡ false
extract_verdict-evidence_example =
    extract_verdict-evidence no_json read_pass the_results "critic" passing extracts refl

evaluate_gate-build_gate_snapshot_example :
    evaluate_gate the_results the_gate (some passing) none
    ≡ evaluate_gate [] the_gate none (some the_snapshot)
evaluate_gate-build_gate_snapshot_example =
    evaluate_gate-build_gate_snapshot no_json read_pass read_pass_copies the_results the_gate
      "critic" the_output said passing passing the_snapshot refl refl found parsed reads extracts
      builds

-- A critic whose text is the JSON list `[]`: the verdict is UNCERTAIN, but the snapshot raises.
list_content_raises :
    build_gate_snapshot
      (λ s. some (arr nil))
      read_pass
      (("critic", an_output (field "content" (str "[]") end)) ∷ [])
      the_gate
    ≡ err attribute_error
unfolding build_gate_snapshot critic_entries completed_output lookup get_field loaded_fields
list_content_raises = refl
