-- ===== src/Execution/Inputs/Feedback.antt =====
-- `_build_fix_prompt` and `_build_default_prompt`, with the feedback of a critic.
use neuronium.Prelude.{
  is_empty, String, Bool, true, false, not, ◌&&◌, Option, none, some, List, [], ◌∷◌, ◌++◌,
  if◌then◌else◌, str_eq, is_some, Result, ok, ◌>>=◌,
}
use neuronium.Prelude.Text.{append, strip}
use neuronium.Prelude.Value.{
  get_value, Value, Fields, nil, null, str, arr, obj, get_field, truthy, items,
}
use neuronium.Execution.Inputs.Prompts.{
  join, field_keys, part_if, iterate, keys_except, or_value, titled, if_given, context_parts,
}

module _ (text dumps : Value → String) where
  -- `[f"- {x}" for x in xs]`
  unfoldable pub bullets : List Value → List String
  bullets [] = []
  bullets (v ∷ vs) = append "- " (text v) ∷ bullets vs

  abbrev pub optional_note : String → String → Value → String
  optional_note before after v = if truthy v then append before (append (text v) after) else ""

  abbrev pub expected_of : Fields → Value
  expected_of fs = get_value "expected_improvement" (get_value "expectedImprovement" (str "") fs) fs

  abbrev pub effort_of : Fields → Value
  effort_of fs = get_value "effort_estimate" (get_value "effortEstimate" (str "") fs) fs

  -- One line of the suggestions; only the default prompt adds the effort.
  unfoldable pub suggestion : Bool → Value → String
  suggestion with_effort v = elim v [
    | obj fs ↦ append "- " (
        append (text (get_value "action" (str "") fs)) (
          append (optional_note " (expected: " ")" (expected_of fs))
            (if with_effort then optional_note " [effort: " "]" (effort_of fs) else "")))
    | w ↦ append "- " (text w)
  ]

  unfoldable pub suggestion_lines : Bool → List Value → List String
  suggestion_lines with_effort [] = []
  suggestion_lines with_effort (v ∷ vs) = suggestion with_effort v ∷ suggestion_lines with_effort vs

  abbrev pub gaps_of : Fields → Value
  gaps_of inputs =
      let previous = get_value "previous_gaps" (arr nil) inputs in
      elim (get_field "verdict_fix" inputs) [
        | none ↦ previous
        | some v ↦ elim v [ obj fs ↦ or_value (get_value "gaps" null fs) previous | _ ↦ previous ]
      ]

  abbrev pub suggestions_of : Fields → Value
  suggestions_of inputs = elim (get_field "verdict_fix" inputs) [
    | none ↦ arr nil
    | some v ↦ elim v [
      | obj fs ↦ or_value (get_value "suggestions" null fs) (arr nil)
      | _ ↦ arr nil
    ]
  ]

  -- `for x in v`, if the value is truthy
  abbrev pub iterate_if : Value → Result (List Value)
  iterate_if v = if truthy v then iterate v else ok []

  unfoldable pub build_fix_prompt : Fields → Result String
  build_fix_prompt inputs = iterate_if (gaps_of inputs) >>= λ gaps.
      iterate_if (suggestions_of inputs) >>= λ suggestions. ok (
        join "\n\n" (
          titled text dumps "OBJECTIVE:\n" (get_value "objective" (str "") inputs)
          ++ titled text dumps "PREVIOUS CODE (buggy):\n"
              (get_value "previous_code" (str "") inputs)
          ++ titled text dumps "ERROR (stderr):\n" (get_value "previous_stderr" (str "") inputs)
          ++ titled text dumps "PREVIOUS STDOUT:\n" (get_value "previous_stdout" (str "") inputs)
          ++ if_given text dumps "EXIT_CODE: " (get_value "previous_exit_code" null inputs)
          ++ part_if (truthy (gaps_of inputs))
              (append "GAPS IDENTIFIED BY CRITIC:\n" (join "\n" (bullets gaps)))
          ++ part_if (truthy (suggestions_of inputs)) "SUGGESTIONS:"
          ++ suggestion_lines false suggestions
          ++ "Fix the code above.  Make the MINIMAL change to resolve the error.  Output ONLY the corrected Python code."
            ∷ []))

  unfoldable pub texts_shown : List Value → List String
  texts_shown [] = []
  texts_shown (v ∷ vs) = text v ∷ texts_shown vs

  abbrev pub constraints_shown : Value → List String
  constraints_shown v = elim v [
    | arr xs ↦
        part_if (not (is_empty (items xs)))
          (append "CONSTRAINTS:\n" (join "\n" (texts_shown (items xs))))
    | w ↦ titled text dumps "CONSTRAINTS:\n" w
  ]

  -- The fields of `verdict_fix`, if it is a dict that is not empty.
  abbrev pub feedback_of : Fields → Option Fields
  feedback_of inputs = elim (get_field "verdict_fix" inputs) [
    | none ↦ none
    | some v ↦ elim v [ obj fs ↦ if is_empty (field_keys fs) then none else some fs | _ ↦ none ]
  ]

  unfoldable pub feedback_parts : Option Fields → Result (List String)
  feedback_parts none = ok []
  feedback_parts (some fs) =
      let given_gaps = get_value "gaps" null fs in
      let given = get_value "suggestions" null fs in
      iterate_if given_gaps >>= λ gaps. iterate_if given >>= λ suggestions. ok (
        "PREVIOUS ATTEMPT FEEDBACK (address these to pass the gate):"
        ∷ (part_if (truthy given_gaps) "Gaps identified:"
            ++ bullets gaps
            ++ part_if (truthy given) "Suggestions:"
            ++ suggestion_lines true suggestions))

  abbrev pub default_skipped : List String
  default_skipped = "prompt" ∷ "objective" ∷ "constraints" ∷ "verdict_fix" ∷ []

  unfoldable pub build_default_prompt : Fields → Result String
  build_default_prompt inputs =
      let given = get_value "objective" (str "") inputs in
      let objective : String = if truthy given then text given else "" in
      let constraints = get_value "constraints" null inputs in
      let extra = keys_except default_skipped inputs in
      let feedback = feedback_of inputs in
      let full = feedback_parts feedback >>= λ fs. ok (
        strip (
          join "\n\n" (
            part_if (not (str_eq objective "")) (append "OBJECTIVE:\n" objective)
            ++ constraints_shown constraints
            ++ fs
            ++ part_if (not (is_empty extra)) "CONTEXT:"
            ++ context_parts text dumps 4000 inputs extra))) in
      if not (str_eq objective "")
        && not (truthy constraints)
        && is_empty extra
        && not (is_some feedback)
      then ok objective
      else full
