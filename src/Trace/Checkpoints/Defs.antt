-- ===== src/Trace/Checkpoints/Defs.antt =====
-- `get_latest_phase_boundary_checkpoint`, `load_state_from_checkpoint` and `build_checkpoint_payload`.
-- Parameters are `AgentState.model_validate` (an error if it raises) and `state.model_dump`.
use neuronium.Prelude.{
  String, Bool, true, false, ◌&&◌, Option, none, some, List, [], ◌∷◌, keep, all_of, is_some, has,
  if◌then◌else◌, str_eq, or_else, Result, ok, err, type_error, attribute_error, checkpoint_error,
  guard, ◌>>=◌, ◌>>◌,
}
use neuronium.Prelude.Value.{
  update_fields, Value, Items, Fields, nil, cons, end, field, str, arr, obj, get_field,
}
use neuronium.Core.State.{AgentState}

abbrev pub phase_boundaries : List String
phase_boundaries =
    "after_commit_iter1" ∷ "after_execute_iter1" ∷ "after_control_iter1" ∷ "after_adapt_iter1"
    ∷ "after_commit_iter2" ∷ "after_execute_iter2" ∷ "after_control_iter2" ∷ "final" ∷ "paused"
    ∷ "paused_mid_execute" ∷ "cancelled_mid_execute" ∷ []

abbrev pub mid_execute_required_keys : List String
mid_execute_required_keys =
    "stage_index" ∷ "iteration" ∷ "plan_id" ∷ "runbook_id" ∷ "completed_node_results"
    ∷ "pending_node_ids" ∷ []

-- `v.get` needs a dict.
abbrev pub as_dict : Value → Result Fields
as_dict (obj fs) = ok fs
as_dict v = err attribute_error

abbrev pub get_dict : String → Fields → Result Fields
get_dict key fs = as_dict (or_else (get_field key fs) (obj end))

-- `v in PHASE_BOUNDARIES`: a list or a dict is not hashable.
unfoldable pub is_boundary : Option Value → Result Bool
is_boundary (some (str s)) = ok (has s phase_boundaries)
is_boundary (some (arr xs)) = err type_error
is_boundary (some (obj fs)) = err type_error
is_boundary v = ok false

-- `e.get("kind") == "checkpoint"`
unfoldable pub is_kind : String → Fields → Bool
is_kind kind event = elim (get_field "kind" event) [
  | none ↦ false
  | some v ↦ elim v [ str s ↦ str_eq s kind | _ ↦ false ]
]

-- `reversed(xs)`, followed by `ys`
abbrev pub reverse_onto : List Fields → List Fields → List Fields
reverse_onto [] ys = ys
reverse_onto (x ∷ xs) ys = reverse_onto xs (x ∷ ys)

-- `for cp in reversed(checkpoints)`
unfoldable pub first_boundary : List Fields → Result (Option Fields)
first_boundary [] = ok none
first_boundary (cp ∷ cps) =
    let rest = first_boundary cps in
    get_dict "payload" cp >>= λ payload. get_dict "resume_context" payload >>= λ rc.
    is_boundary (get_field "phase_boundary" rc) >>= λ valid.
    if valid then ok (some payload) else rest

unfoldable pub latest_checkpoint : List Fields → Result (Option Fields)
latest_checkpoint events = first_boundary (reverse_onto (keep (is_kind "checkpoint") events) [])

abbrev pub is_text : Value → Bool
is_text (str s) = true
is_text v = false

abbrev pub all_text : Items → Bool
all_text nil = true
all_text (cons v xs) = is_text v && all_text xs

abbrev pub is_dict : Option Value → Bool
is_dict (some (obj fs)) = true
is_dict v = false

abbrev pub is_text_list : Option Value → Bool
is_text_list (some (arr xs)) = all_text xs
is_text_list v = false

-- `_validate_mid_execute_resume_context`
unfoldable pub validate_mid_execute : Fields → Result (Unit {0})
validate_mid_execute ctx = do
  guard (all_of (λ k. is_some (get_field k ctx)) mid_execute_required_keys) checkpoint_error
  guard (is_dict (get_field "completed_node_results" ctx)) checkpoint_error
  guard (is_text_list (get_field "pending_node_ids" ctx)) checkpoint_error

-- `isinstance(v, dict)`, else a CheckpointError
abbrev pub need_dict : Option Value → Result Fields
need_dict (some (obj fs)) = ok fs
need_dict v = err checkpoint_error

abbrev pub is_mid_execute : Option Value → Bool
is_mid_execute (some (str s)) = str_eq s "paused_mid_execute"
is_mid_execute v = false

unfoldable pub check_mid_execute : Fields → Result (Unit {0})
check_mid_execute ctx =
    if is_mid_execute (get_field "phase_boundary" ctx) then validate_mid_execute ctx else ok tt

unfoldable pub load_state : (Fields → Result AgentState) → Fields → Result (AgentState × Fields)
load_state model_validate payload = do
  agent_data ← need_dict (get_field "agent_state" payload)
  ctx ← need_dict (some (or_else (get_field "resume_context" payload) (obj end)))
  valid ← is_boundary (get_field "phase_boundary" ctx)
  guard valid checkpoint_error
  check_mid_execute ctx
  st ← model_validate agent_data
  ok (st, ctx)

unfoldable pub build_checkpoint_payload :
    (AgentState → Fields)
    → AgentState
    → (iteration : Value) → (phase_boundary : String) → (extra : Fields) → Fields
build_checkpoint_payload model_dump st iteration phase_boundary extra =
    field "agent_state" (obj (model_dump st)) (
      field "resume_context"
        (obj (
          update_fields
            (field "iteration" iteration (field "phase_boundary" (str phase_boundary) end)) extra))
        end)
