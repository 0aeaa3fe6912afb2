-- ===== src/Core/Gate/Defs.antt =====
-- `_extract_verdict`, `_build_gate_snapshot`, `_evaluate_gate` and `parse_critic_verdict`. Parameters are
-- `json.loads`, and the construction of a DemoCriticVerdict from the fields of a dict; each gives
-- `none` where the call raises.
use neuronium.Prelude.{
  is_empty, String, Bool, true, false, not, ◌&&◌, Option, none, some, List, [], ◌∷◌, all_of,
  if◌then◌else◌, str_eq, Dict, lookup, Result, ok, err, type_error, attribute_error, ◌>>=◌,
}
use neuronium.Prelude.Value.{
  get_value, truthy, Value, Items, Fields, nil, end, field, null, bool, float, str, arr, obj,
  get_field,
}
use neuronium.Nodes.{NodeOutput, is_completed}

pub data VerdictKind : Type 0 where
  pass fails uncertain : VerdictKind

-- What the gaps say.
pub data Gap : Type 0 where
  said : String → Gap
  not_parsed critic_failed no_evidence : Gap

pub record DemoCriticVerdict : Type 0 where
  pub verdict : VerdictKind
  pub confidence : Value
  pub evidence : List String
  pub gaps : List Gap
  pub suggestions : List Value

pub record StageSuccessGate : Type 0 where
  pub required_completed_nodes : List String
  pub critic_node_id : Option String

abbrev pub is_pass : VerdictKind → Bool
is_pass pass = true
is_pass _ = false

abbrev pub uncertain_with : Value → Gap → DemoCriticVerdict
uncertain_with confidence gap = record {
  verdict = uncertain;
  confidence = confidence;
  evidence = [];
  gaps = gap ∷ [];
  suggestions = [];
}

-- A PASS without evidence is downgraded.
unfoldable pub downgrade : DemoCriticVerdict → DemoCriticVerdict
downgrade v =
    if is_pass v.verdict && is_empty v.evidence then uncertain_with v.confidence no_evidence else v

-- `if gate.critic_node_id`
abbrev pub critic_of : StageSuccessGate → Option String
critic_of gate = elim gate.critic_node_id [
  | none ↦ none
  | some c ↦ if str_eq c "" then none else some c
]

-- `out is not None and out.status == "COMPLETED"`
unfoldable pub completed_output : Dict NodeOutput → String → Option NodeOutput
completed_output results nid = elim (lookup nid results) [
  | none ↦ none
  | some out ↦ if is_completed out.status then some out else none
]

abbrev pub is_done : Dict NodeOutput → String → Bool
is_done results nid = elim (completed_output results nid) [ none ↦ false | some out ↦ true ]

module _ (json_loads : String → Option Value) (as_verdict : Fields → Option DemoCriticVerdict) where
  abbrev pub verdict_of : Option Value → Option DemoCriticVerdict
  verdict_of (some (obj fs)) = as_verdict fs
  verdict_of _ = none

  -- A content that is no text fails to parse too, and then `raw_content[:200]` is a TypeError for
  -- anything but a list.
  unfoldable pub parse_critic_verdict : Value → Result DemoCriticVerdict
  parse_critic_verdict (str raw) = ok (elim (verdict_of (json_loads raw)) [
    | none ↦ uncertain_with (float "0.0") not_parsed
    | some v ↦ downgrade v
  ])
  parse_critic_verdict (arr xs) = ok (uncertain_with (float "0.0") not_parsed)
  parse_critic_verdict _ = err type_error

  unfoldable pub extract_verdict : Dict NodeOutput → String → Result DemoCriticVerdict
  extract_verdict results critic_id = elim (completed_output results critic_id) [
    | none ↦ ok (uncertain_with (float "0.0") critic_failed)
    | some out ↦
        let raw = parse_critic_verdict (get_value "content" (str "") out.outputs) in
        elim (verdict_of (get_field "parsed" out.outputs)) [
          | none ↦ raw
          | some v ↦ ok (downgrade v)
        ]
  ]

  -- The critic's entries of the snapshot.
  unfoldable pub snapshot_of : Fields → Fields
  snapshot_of d = field "critic_verdict" (get_value "verdict" (str "UNCERTAIN") d) (
      field "critic_confidence" (get_value "confidence" (float "0.0") d) (
        field "critic_evidence" (get_value "evidence" (arr nil) d) (
          field "critic_gaps" (get_value "gaps" (arr nil) d)
            (field "critic_suggestions" (get_value "suggestions" (arr nil) d) end))))

  -- `d.get(...)` on a JSON value that is no dict is an AttributeError.
  unfoldable pub loaded_fields : Value → Result Fields
  loaded_fields (str raw) = elim (json_loads raw) [
    | none ↦ ok end
    | some v ↦ elim v [ obj fs ↦ ok fs | _ ↦ err attribute_error ]
  ]
  loaded_fields _ = ok end

  unfoldable pub critic_entries : NodeOutput → Result Fields
  critic_entries out =
      let from_text =
        loaded_fields (get_value "content" (str "") out.outputs) >>= λ d. ok (snapshot_of d) in
      elim (get_field "parsed" out.outputs) [
        | none ↦ from_text
        | some v ↦ elim v [ obj fs ↦ ok (snapshot_of fs) | _ ↦ from_text ]
      ]

  unfoldable pub build_gate_snapshot : Dict NodeOutput → StageSuccessGate → Result Fields
  build_gate_snapshot results gate =
      let required = bool (all_of (is_done results) gate.required_completed_nodes) in
      elim (critic_of gate) [
        | none ↦ ok (field "required_nodes_ok" required end)
        | some critic ↦ elim (completed_output results critic) [
          | none ↦ ok (
              field "required_nodes_ok" required (
                field "critic_verdict" (str "UNCERTAIN") (
                  field "critic_confidence" (float "0.0") (
                    field "critic_evidence" (arr nil) (
                      field "critic_gaps"
                        (arr (Items.cons (str "critic node did not complete") nil))
                        (field "critic_suggestions" (arr nil) end))))))
          | some out ↦ critic_entries out >>= λ es. ok (field "required_nodes_ok" required es)
        ]
      ]

-- `v == "PASS"`
abbrev pub says_pass : Option Value → Bool
says_pass (some (str s)) = str_eq s "PASS"
says_pass _ = false

unfoldable pub evaluate_gate :
    Dict NodeOutput → StageSuccessGate → Option DemoCriticVerdict → Option Fields → Bool
evaluate_gate results gate verdict snapshot =
    let required : Bool =
      if not (is_empty results)
      then all_of (is_done results) gate.required_completed_nodes
      else elim snapshot [
        | none ↦ false
        | some s ↦ truthy (get_value "required_nodes_ok" (bool false) s)
      ] in
    let critic : Bool = elim verdict [
      | some v ↦ is_pass v.verdict && not (is_empty v.evidence)
      | none ↦ elim snapshot [
        | none ↦ false
        | some s ↦
            says_pass (get_field "critic_verdict" s) && truthy (get_value "critic_evidence" null s)
      ]
    ] in
    required && (elim (critic_of gate) [ none ↦ true | some c ↦ critic ])
