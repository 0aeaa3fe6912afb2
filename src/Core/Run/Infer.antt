-- ===== src/Core/Run/Infer.antt =====
-- `_infer_runbook_id` and `_infer_runbook_metadata`. The events are read from the last to the first, so
-- what is made of an event comes on top of what was made of the later ones. `apply_patch` raises
-- nothing but StatePatchError, which is caught.
use neuronium.Prelude.{
  String, Bool, true, false, not, ◌&&◌, ◌||◌, Option, none, some, List, [], ◌∷◌, is_empty,
  if◌then◌else◌, str_eq, Result, ok, err, patch_error, ◌>>=◌,
}
use neuronium.Prelude.Text.{codes, is_infix, strip}
use neuronium.Prelude.Value.{
  truthy, Value, Items, Fields, nil, cons, end, field, null, str, arr, obj, get_value, put_field,
}
use neuronium.Planning.Patch.{PatchOp, PatchOperation, apply_patch}
use neuronium.Core.Run.Answers.{normalise_patch_ops, legacy_answers_to_patch}

abbrev pub is_text : String → Value → Bool
is_text s (str t) = str_eq t s
is_text s v = false

-- The payload of a decision, if it is a dict.
abbrev pub decision_payload : Fields → Option Fields
decision_payload ev =
    if is_text "decision" (get_value "kind" null ev)
    then elim (get_value "payload" (obj end) ev) [ obj fs ↦ some fs | _ ↦ none ]
    else none

abbrev pub op_of : Value → Result PatchOp
op_of v =
    if is_text "add" v
    then ok PatchOp.add
    else if is_text "replace" v
    then ok PatchOp.replace
    else if is_text "remove" v
    then ok PatchOp.remove
    else err patch_error

abbrev pub path_of : Value → Result String
path_of (str s) = ok s
path_of v = err patch_error

-- `PatchOperation.model_validate`; the rest of it is the first step of `apply_patch`.
abbrev pub operation_of : Value → Result PatchOperation
operation_of (obj fs) = do
  op ← op_of (get_value "op" null fs)
  path ← path_of (get_value "path" null fs)
  ok (record { op = op; path = path; value = get_value "value" null fs })
operation_of v = err patch_error

abbrev pub operations_of : List Value → Result (List PatchOperation)
operations_of [] = ok []
operations_of (v ∷ vs) =
    let rest = operations_of vs in operation_of v >>= λ op. rest >>= λ ops. ok (op ∷ ops)

abbrev pub patched_or : Fields → Result Value → Fields
patched_or metadata (ok (obj fs)) = fs
patched_or metadata r = metadata

unfoldable pub patch_metadata : List Value → Fields → Fields
patch_metadata vs metadata =
    patched_or metadata (operations_of vs >>= λ ops. apply_patch ops (obj metadata))

-- The metadata, and which of its entries have been found.
pub record Inferred : Type 0 where
  pub inferred : Fields
  pub seen_clarification_request : Bool
  pub seen_clarification_response : Bool
  pub seen_clarification_evidence : Bool

abbrev pub see_request : String → Inferred → Inferred
see_request aid s =
    if not (str_eq aid "") && not s.seen_clarification_request
    then record s {
      inferred = put_field "clarification_request_artifact_id" (str aid) s.inferred;
      seen_clarification_request = true;
    }
    else s

abbrev pub see_response : String → Inferred → Inferred
see_response aid s =
    if not (str_eq aid "") && not s.seen_clarification_response
    then record s {
      inferred = put_field "clarification_response_artifact_id" (str aid) s.inferred;
      seen_clarification_response = true;
    }
    else s

-- The operations of a revise command's payload.
abbrev pub revise_ops : Fields → List Value
revise_ops payload =
    let given = normalise_patch_ops (get_value "patch" null payload) in
    if not (is_empty given) then given else elim (get_value "answers" (obj end) payload) [
      | obj answers ↦ legacy_answers_to_patch answers
      | _ ↦ []
    ]

abbrev pub patch_inferred : List Value → Inferred → Inferred
patch_inferred ops s = record s { inferred = patch_metadata ops s.inferred }

module _ (str_of : Value → String) where
  abbrev pub text_at : String → Fields → String
  text_at key fs = strip (str_of (get_value key (str "") fs))

  abbrev pub texts_of : Items → Items
  texts_of nil = nil
  texts_of (cons v xs) = cons (str (str_of v)) (texts_of xs)

  unfoldable pub see_revise : Value → Inferred → Inferred
  see_revise (obj cp) s = patch_inferred (revise_ops cp) (
      see_response (text_at "clarification_response_artifact_id" cp)
        (see_request (text_at "clarification_request_artifact_id" cp) s))
  see_revise v s = s

  -- `[str(aid) for aid in evidence_ids if str(aid).strip()]`
  abbrev pub given_texts : Items → Items
  given_texts nil = nil
  given_texts (cons v xs) =
      if str_eq (strip (str_of v)) ""
      then given_texts xs
      else cons (str (str_of v)) (given_texts xs)

  abbrev pub see_evidence : Value → Inferred → Inferred
  see_evidence (arr xs) s = if s.seen_clarification_evidence then s else record s {
    inferred = put_field "clarification_evidence_artifact_ids" (arr (given_texts xs)) s.inferred;
    seen_clarification_evidence = true;
  }
  see_evidence v s = s

  unfoldable pub see_escalation : Fields → Inferred → Inferred
  see_escalation payload s =
      see_evidence (get_value "evidence_artifact_ids" (arr nil) payload)
        (see_request (text_at "clarification_request_artifact_id" payload) s)

  abbrev pub see_paths : Bool → Value → Inferred → Inferred
  see_paths true (arr xs) s = record s {
    inferred = put_field "doc_paths" (arr (texts_of xs)) s.inferred;
  }
  see_paths b v s = s

  unfoldable pub see_described : String → String → Fields → Inferred → Inferred
  see_described runbook_id description payload s =
      let revised =
        if str_eq description "control_command: revise"
        then see_revise (get_value "payload" (obj end) payload) s
        else s in
      let asked =
        if str_eq description "Escalation requested"
        then see_escalation payload revised
        else revised in
      see_paths
        (is_text runbook_id (get_value "runbook_id" null payload)
          || is_infix (codes "Plan created") (codes description))
        (get_value "doc_paths" null payload) asked

  -- One decision.
  unfoldable pub see_decision : String → Option Fields → Inferred → Inferred
  see_decision runbook_id none s = s
  see_decision runbook_id (some payload) s =
      see_described runbook_id (str_of (get_value "description" (str "") payload)) payload s

  unfoldable pub infer_from : String → List Fields → Inferred
  infer_from runbook_id [] = record {
    inferred = field "runbook_id" (str runbook_id) end;
    seen_clarification_request = false;
    seen_clarification_response = false;
    seen_clarification_evidence = false;
  }
  infer_from runbook_id (ev ∷ evs) =
      see_decision runbook_id (decision_payload ev) (infer_from runbook_id evs)

  unfoldable pub infer_runbook_metadata : List Fields → String → Fields
  infer_runbook_metadata events runbook_id = (infer_from runbook_id events).inferred

  abbrev pub own_id : Option Fields → Option String
  own_id none = none
  own_id (some payload) =
      let v = get_value "runbook_id" null payload in if truthy v then some (str_of v) else none

  unfoldable pub infer_runbook_id : List Fields → Option String
  infer_runbook_id [] = none
  infer_runbook_id (ev ∷ evs) = elim (infer_runbook_id evs) [
    | some id ↦ some id
    | none ↦ own_id (decision_payload ev)
  ]
