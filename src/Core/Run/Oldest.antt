-- ===== src/Core/Run/Oldest.antt =====
-- Which answer wins when the metadata of a run are inferred from several revise commands.
use neuronium.Prelude.{
  String, Bool, true, false, not, ◌&&◌, Option, none, some, List, [], ◌∷◌, ◌++◌, ◌≡◌, ◌∙◌, refl,
  subst, sym, arith, all_of, is_empty, str_eq, Bool-cases, Option-cases, inl, inr,
}
use neuronium.Prelude.Value.{
  Value, Fields, nil, cons, end, field, str, arr, obj, is_null, get_field, get_value,
  get_field-put_field,
}
use neuronium.Planning.Patch.{
  apply_patch, validate_by_op, decode_pointer, apply_op, at_parent, apply_add,
}
use neuronium.Prelude.Text.{is_infix}
use neuronium.Schemas.Pointer.{split_slash, unescape_token, replace_tilde}
use neuronium.Core.Run.Answers.{normalise_patch_ops, normalise_all, normalise_op}
use neuronium.Core.State.{AgentState}
use neuronium.Core.Run.World.{event}
use neuronium.Core.Run.Infer.{
  Inferred, patch_metadata, see_revise, see_decision, see_described, see_request, see_evidence,
  see_escalation, see_paths, text_at, given_texts, texts_of, decision_payload, revise_ops,
  infer_from, infer_runbook_metadata,
}

-- The one operation that sets the entry "answer".
abbrev pub add_answer : Value → Value
add_answer v = obj (field "op" (str "add") (field "path" (str "/answer") (field "value" v end)))

-- The event that `_record_control_decision` records for a revise command.
abbrev pub revise_payload : Fields → Fields
revise_payload payload =
    field "description" (str "control_command: revise")
      (field "command" (str "revise") (field "payload" (obj payload) end))

abbrev pub revise_event : AgentState → Fields → Fields
revise_event agent payload = event agent "decision" (revise_payload payload)

patched :
    (v : Value) (fs : Fields)
    → is_null v ≡ false
    → get_field "answer" (patch_metadata (normalise_patch_ops (arr (cons (add_answer v) nil))) fs)
      ≡ some v
unfolding normalise_patch_ops normalise_all normalise_op patch_metadata apply_patch validate_by_op
    decode_pointer apply_op at_parent apply_add get_field split_slash unescape_token replace_tilde
patched v fs h = rw h (rw h (get_field-put_field "answer" "answer" v fs))

normalised :
    (v : Value)
    → is_null v ≡ false
    → is_empty (normalise_patch_ops (arr (cons (add_answer v) nil))) ≡ false
unfolding normalise_patch_ops normalise_all normalise_op get_field
normalised v h = rw h refl

revise_ops-patch :
    (v : Value) (payload : Fields)
    → is_null v ≡ false
    → get_field "patch" payload ≡ some (arr (cons (add_answer v) nil))
    → revise_ops payload ≡ normalise_patch_ops (arr (cons (add_answer v) nil))
revise_ops-patch v payload h p = rw (p, normalised v h) refl

-- The answer among the metadata that are inferred.
abbrev answer : Inferred → Option Value
answer s = get_field "answer" s.inferred

answer-see_request : (aid : String) (s : Inferred) → answer (see_request aid s) ≡ answer s
answer-see_request aid s =
    elim (Bool-cases (not (str_eq aid "") && not s.seen_clarification_request)) [
      | inl e ↦
          rw e
            (get_field-put_field "clarification_request_artifact_id" "answer" (str aid) s.inferred)
      | inr e ↦ rw e refl
    ]

module _ (str_of : Value → String) where
  answer-see_evidence : (v : Value) (s : Inferred) → answer (see_evidence str_of v s) ≡ answer s
  answer-see_evidence (arr xs) s = elim (Bool-cases s.seen_clarification_evidence) [
    | inl e ↦ rw e refl
    | inr e ↦ rw e (
        get_field-put_field "clarification_evidence_artifact_ids" "answer"
          (arr (given_texts str_of xs)) s.inferred)
  ]
  answer-see_evidence Value.null s = refl
  answer-see_evidence (Value.bool b) s = refl
  answer-see_evidence (Value.int z) s = refl
  answer-see_evidence (Value.float t) s = refl
  answer-see_evidence (str t) s = refl
  answer-see_evidence (obj fs) s = refl

  answer-see_paths :
      (b : Bool) (v : Value) (s : Inferred) → answer (see_paths str_of b v s) ≡ answer s
  answer-see_paths true (arr xs) s =
      get_field-put_field "doc_paths" "answer" (arr (texts_of str_of xs)) s.inferred
  answer-see_paths true Value.null s = refl
  answer-see_paths true (Value.bool b) s = refl
  answer-see_paths true (Value.int z) s = refl
  answer-see_paths true (Value.float t) s = refl
  answer-see_paths true (str t) s = refl
  answer-see_paths true (obj fs) s = refl
  answer-see_paths false v s = refl

  answer-see_escalation :
      (payload : Fields) (s : Inferred) → answer (see_escalation str_of payload s) ≡ answer s
  unfolding see_escalation
  answer-see_escalation payload s =
      let aid = text_at str_of "clarification_request_artifact_id" payload in
      answer-see_evidence (get_value "evidence_artifact_ids" (arr nil) payload) (see_request aid s)
      ∙ answer-see_request aid s

  -- A decision with another description leaves the answer as it is.
  answer-see_described :
      (runbook_id description : String) (payload : Fields) (s : Inferred)
      → str_eq description "control_command: revise" ≡ false
      → answer (see_described str_of runbook_id description payload s) ≡ answer s
  unfolding see_described
  answer-see_described runbook_id description payload s other =
      rw other (elim (Bool-cases (str_eq description "Escalation requested")) [
        | inl e ↦ rw e (answer-see_paths _ _ _ ∙ answer-see_escalation payload s)
        | inr e ↦ rw e (answer-see_paths _ _ _)
      ])

  -- An event is no revise command: it is no decision, or one with another description.
  abbrev pub not_revise : Fields → Bool
  not_revise ev = elim (decision_payload ev) [
    | none ↦ true
    | some payload ↦
        not (str_eq (str_of (get_value "description" (str "") payload)) "control_command: revise")
  ]

  answer-see_decision :
      (runbook_id : String) (ev : Fields) (s : Inferred)
      → not_revise ev ≡ true
      → answer (see_decision str_of runbook_id (decision_payload ev) s) ≡ answer s
  unfolding see_decision
  answer-see_decision runbook_id ev s h = elim (Option-cases (decision_payload ev)) [
    | inl e ↦ rw e refl
    | inr (payload, e) ↦ rw e (
        answer-see_described runbook_id (str_of (get_value "description" (str "") payload)) payload
          s (ground (arith, e, h)))
  ]

  answer-before :
      (runbook_id : String) (before rest : List Fields)
      → all_of not_revise before ≡ true
      → answer (infer_from str_of runbook_id (before ++ rest))
        ≡ answer (infer_from str_of runbook_id rest)
  unfolding infer_from
  answer-before runbook_id [] rest h = refl
  answer-before runbook_id (ev ∷ before) rest h =
      answer-see_decision runbook_id ev _ (ground arith)
      ∙ answer-before runbook_id before rest (ground arith)

module _ (str_of : Value → String) (texts : (s : String) → str_of (str s) ≡ s) where
  revised :
      (v : Value) (payload : Fields) (s : Inferred)
      → is_null v ≡ false
      → get_field "patch" payload ≡ some (arr (cons (add_answer v) nil))
      → answer (see_revise str_of (obj payload) s) ≡ some v
  unfolding see_revise
  revised v payload s h p = rw (revise_ops-patch v payload h p) (patched v _ h)

  described :
      (v : Value) (payload : Fields) (s : Inferred) (runbook_id : String)
      → is_null v ≡ false
      → get_field "patch" payload ≡ some (arr (cons (add_answer v) nil))
      → answer
          (see_described str_of runbook_id "control_command: revise" (revise_payload payload) s)
        ≡ some v
  unfolding see_described get_field is_infix
  described v payload s runbook_id h p = revised v payload s h p

  -- If the first revise command of a trace sets the entry "answer" to a value other than null, by a
  -- patch of one operation, the inferred metadata have that value, whatever was recorded before it
  -- that is no revise command, and whatever the later events are: so also if a later revise command
  -- sets the entry. The hypothesis on `str` is that it leaves a text as it is.
  pub infer_runbook_metadata-oldest :
      (v : Value) (agent : AgentState) (payload : Fields) (before later : List Fields)
      (runbook_id : String)
      → is_null v ≡ false
      → get_field "patch" payload ≡ some (arr (cons (add_answer v) nil))
      → all_of (not_revise str_of) before ≡ true
      → get_field "answer"
          (infer_runbook_metadata str_of (before ++ revise_event agent payload ∷ later) runbook_id)
        ≡ some v
  unfolding infer_runbook_metadata infer_from see_decision get_field
  infer_runbook_metadata-oldest v agent payload before later runbook_id h p quiet =
      answer-before str_of runbook_id before (revise_event agent payload ∷ later) quiet
      ∙ subst
          (λ d.
            answer (
              see_described str_of runbook_id d (revise_payload payload)
                (infer_from str_of runbook_id later))
            ≡ some v)
          (sym (texts "control_command: revise")) (described v payload _ runbook_id h p)
