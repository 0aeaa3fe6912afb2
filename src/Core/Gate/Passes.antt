-- ===== src/Core/Gate/Passes.antt =====
-- What a gate that passes guarantees, and that a resumed run decides as the live one did.
use neuronium.Prelude.{
  is_empty, String, ◌≡◌, subst, Bool, true, false, not, Option, none, some, List, [], ◌∷◌, arith,
  all_of, has, eq_iff, Dict, ok, Option-cases, inl, inr,
}
use neuronium.Prelude.Value.{
  get_value, truthy, Value, Fields, nil, field, null, bool, int, float, str, arr, obj, get_field,
}
use neuronium.Nodes.{NodeOutput}
use neuronium.Core.Gate.Defs.{
  DemoCriticVerdict, StageSuccessGate, is_pass, says_pass, downgrade, critic_of, completed_output,
  is_done, verdict_of, parse_critic_verdict, extract_verdict, snapshot_of, critic_entries,
  build_gate_snapshot, evaluate_gate,
}

all_of-has :
    (p : String → Bool) (nid : String) (xs : List String)
    → all_of p xs ≡ true
    → has nid xs ≡ true
    → p nid ≡ true
all_of-has p nid [] h k = absurd (cc)
all_of-has p nid (x ∷ xs) h k = ground (arith, eq_iff x nid, all_of-has p nid xs)

-- What a live gate that passes has seen.
pub record Passed (results : Dict NodeOutput) (gate : StageSuccessGate)
    (verdict : Option DemoCriticVerdict) : Type 0 where
  pub required :
      (nid : String) → has nid gate.required_completed_nodes ≡ true → is_done results nid ≡ true
  pub approved :
      (critic : String)
      → critic_of gate ≡ some critic
      → (v : DemoCriticVerdict) → verdict ≡ some v
      → (is_pass v.verdict ≡ true) × (is_empty v.evidence ≡ false)

pub evaluate_gate-Passed :
    (results : Dict NodeOutput) (gate : StageSuccessGate) (verdict : Option DemoCriticVerdict)
    (snapshot : Option Fields)
    → is_empty results ≡ false
    → evaluate_gate results gate verdict snapshot ≡ true
    → Passed results gate verdict
unfolding evaluate_gate
evaluate_gate-Passed results gate verdict snapshot e h = record {
  required =
      λ nid k. all_of-has (is_done results) nid gate.required_completed_nodes (ground arith) k;
  approved = λ critic c v d. ground (arith, c, d);
}

downgrade_evidence :
    (v : DemoCriticVerdict)
    → is_pass (downgrade v).verdict ≡ true
    → is_empty (downgrade v).evidence ≡ false
unfolding downgrade
downgrade_evidence v h = ground arith

module _ (json_loads : String → Option Value) (as_verdict : Fields → Option DemoCriticVerdict) where
  parse_evidence :
      (raw : Value) (v : DemoCriticVerdict)
      → parse_critic_verdict json_loads as_verdict raw ≡ ok v
      → is_pass v.verdict ≡ true
      → is_empty v.evidence ≡ false
  unfolding parse_critic_verdict
  parse_evidence (str raw) v h p =
      elim (Option-cases (verdict_of json_loads as_verdict (json_loads raw))) [
        | inl e ↦ absurd (ground (arith, e))
        | inr (w, e) ↦ ground (arith, e, downgrade_evidence w)
      ]
  parse_evidence (arr xs) v h p = absurd (ground arith)
  parse_evidence null v h p = absurd (cc)
  parse_evidence (bool b) v h p = absurd (cc)
  parse_evidence (int z) v h p = absurd (cc)
  parse_evidence (float t) v h p = absurd (cc)
  parse_evidence (obj fs) v h p = absurd (cc)

  -- A verdict that is extracted from the critic's output says PASS only with evidence, whatever the
  -- JSON reader and the validation of the verdict return.
  pub extract_verdict-evidence :
      (results : Dict NodeOutput) (critic : String) (v : DemoCriticVerdict)
      → extract_verdict json_loads as_verdict results critic ≡ ok v
      → is_pass v.verdict ≡ true
      → is_empty v.evidence ≡ false
  unfolding extract_verdict
  extract_verdict-evidence results critic v h p =
      elim (Option-cases (completed_output results critic)) [
        | inl e ↦ absurd (ground (arith, e))
        | inr (out, e) ↦
            elim (Option-cases
              (verdict_of json_loads as_verdict (get_field "parsed" out.outputs))) [
                | inl n ↦
                    ground
                      (arith, e, n, parse_evidence (get_value "content" (str "") out.outputs) v)
                | inr (w, n) ↦ ground (arith, e, n, downgrade_evidence w)
              ]
      ]

  -- What the construction of a verdict from a dict relies on: it copies the verdict and the evidence.
  abbrev pub Copies : Type 0
  Copies =
      (fs : Fields) (v : DemoCriticVerdict)
      → as_verdict fs ≡ some v
      → (is_pass v.verdict ≡ says_pass (get_field "verdict" fs))
        × (not (is_empty v.evidence) ≡ truthy (get_value "evidence" (arr nil) fs))

  extracted :
      (results : Dict NodeOutput) (critic : String) (out : NodeOutput) (fs : Fields)
      (valid verdict : DemoCriticVerdict)
      → completed_output results critic ≡ some out
      → get_field "parsed" out.outputs ≡ some (obj fs)
      → as_verdict fs ≡ some valid
      → extract_verdict json_loads as_verdict results critic ≡ ok verdict
      → downgrade valid ≡ verdict
  unfolding extract_verdict
  extracted results critic out fs valid verdict o p a e = ground (arith, o, p, a, e)

  built :
      (results : Dict NodeOutput) (gate : StageSuccessGate) (critic : String) (out : NodeOutput)
      (fs snapshot : Fields)
      → critic_of gate ≡ some critic
      → completed_output results critic ≡ some out
      → get_field "parsed" out.outputs ≡ some (obj fs)
      → build_gate_snapshot json_loads as_verdict results gate ≡ ok snapshot
      → field "required_nodes_ok"
          (bool (all_of (is_done results) gate.required_completed_nodes))
          (snapshot_of json_loads as_verdict fs)
        ≡ snapshot
  unfolding build_gate_snapshot critic_entries
  built results gate critic out fs snapshot c o p s = ground (arith, c, o, p, s)

  -- If a gate names a critic that is COMPLETED and whose output holds a dict that is a valid
  -- verdict, the gate decided from the snapshot of a checkpoint, with no results and no verdict,
  -- passes exactly when the live gate passes with the verdict that was extracted. The construction
  -- of verdicts copies the verdict and the evidence that it is given.
  pub evaluate_gate-build_gate_snapshot :
      Copies
      → (results : Dict NodeOutput) (gate : StageSuccessGate) (critic : String) (out : NodeOutput)
        (fs : Fields) (valid : DemoCriticVerdict) (verdict : DemoCriticVerdict) (snapshot : Fields)
      → is_empty results ≡ false
      → critic_of gate ≡ some critic
      → completed_output results critic ≡ some out
      → get_field "parsed" out.outputs ≡ some (obj fs)
      → as_verdict fs ≡ some valid
      → extract_verdict json_loads as_verdict results critic ≡ ok verdict
      → build_gate_snapshot json_loads as_verdict results gate ≡ ok snapshot
      → evaluate_gate results gate (some verdict) none ≡ evaluate_gate [] gate none (some snapshot)
  unfolding evaluate_gate snapshot_of downgrade get_field
  evaluate_gate-build_gate_snapshot copies results gate critic out fs valid verdict snapshot
        some_results c o p a e s =
      let same = copies fs valid a in
      let v : downgrade valid ≡ verdict = extracted results critic out fs valid verdict o p a e in
      let w : field "required_nodes_ok"
            (bool (all_of (is_done results) gate.required_completed_nodes))
            (snapshot_of json_loads as_verdict fs)
          ≡ snapshot =
        built results gate critic out fs snapshot c o p s in
      subst
        (λ vd.
          evaluate_gate results gate (some vd) none ≡ evaluate_gate [] gate none (some snapshot))
        v
        (subst
          (λ sn.
            evaluate_gate results gate (some (downgrade valid)) none
            ≡ evaluate_gate [] gate none (some sn))
          w (ground (arith, some_results, c, same.0, same.1)))
