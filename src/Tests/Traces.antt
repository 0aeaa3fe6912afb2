-- ===== src/Tests/Traces.antt =====
-- Checkpoints and recorded responses of a small trace.
use neuronium.Prelude.{
  ◌<◌, String, ◌≡◌, refl, true, false, Bool, none, some, [], ◌∷◌, ◌++◌, Dict, contains, ok, Result,
  inl, ◌↔◌, if◌then◌else◌,
}
use neuronium.Prelude.Int.{pos}
use neuronium.Prelude.Value.{
  cons, nil, arr, update_fields, Fields, end, field, int, str, obj, get_field,
}
use neuronium.Core.State.{AgentState, RunState}
use neuronium.Trace.Checkpoints.{
  latest_checkpoint, is_kind, is_boundary, load_state, build_checkpoint_payload,
  validate_mid_execute,
}
use neuronium.Trace.Checkpoints.Restore.{
  load_state-build_checkpoint_payload, validate_mid_execute_iff, MidExecute,
}
use neuronium.Trace.Checkpoints.Latest.{boundary_of, latest_checkpoint-append}
use neuronium.Trace.Replay.{Provider, Injection, inject, inject_all, no_injection}
use neuronium.Trace.Replay.Injected.{IsInjected, capable, inject_strict}

abbrev saved : AgentState
saved = record {
  trace_id = "t";
  execution_id = "e";
  run_state = RunState.paused;
  intention = none;
  progress = "0.0";
  current_node_ref = none;
  message = none;
}

-- A validation that accepts any dict, and a dump of one field.
abbrev accept : Fields → Result AgentState
accept fs = ok saved

abbrev dump : AgentState → Fields
dump st = field "trace_id" (str st.trace_id) end

abbrev note : Fields
note = field "stage_id" (str "plan") end

no_boundary : get_field "phase_boundary" note ≡ none
unfolding get_field
no_boundary = refl

load_state-build_checkpoint_payload_example :
    load_state accept (build_checkpoint_payload dump saved (int (pos 1)) "paused" note)
    ≡ ok (
      saved,
      update_fields
          (field "iteration" (int (pos 1)) (field "phase_boundary" (str "paused") end))
          note,
    )
load_state-build_checkpoint_payload_example =
    load_state-build_checkpoint_payload accept dump saved (int (pos 1)) "paused" note refl
      no_boundary refl (inl refl)

abbrev paused_note : Fields
paused_note = field "stage_index" (int (pos 0)) (
    field "iteration" (int (pos 1)) (
      field "plan_id" (str "p") (
        field "runbook_id" (str "r") (
          field "completed_node_results" (obj end)
            (field "pending_node_ids" (arr (cons (str "n") nil)) end)))))

validate_mid_execute_iff_example : validate_mid_execute paused_note ≡ ok tt ↔ MidExecute paused_note
validate_mid_execute_iff_example = validate_mid_execute_iff paused_note

paused_note_passes : validate_mid_execute paused_note ≡ ok tt
unfolding validate_mid_execute get_field
paused_note_passes = refl

abbrev a_payload : Fields
a_payload = field "resume_context" (obj (field "phase_boundary" (str "final") end)) end

abbrev an_event : Fields
an_event = field "kind" (str "checkpoint") (field "payload" (obj a_payload) end)

bounded : boundary_of an_event ≡ ok (a_payload, some (str "final"))
unfolding get_field
bounded = refl

valid : is_boundary (some (str "final")) ≡ ok true
unfolding is_boundary
valid = refl

latest_checkpoint-append_example :
    latest_checkpoint ([] ++ an_event ∷ [])
    ≡ (if is_kind "checkpoint" an_event then ok (some a_payload) else latest_checkpoint [])
latest_checkpoint-append_example =
    latest_checkpoint-append [] an_event a_payload (some (str "final")) true bounded valid

abbrev a_provider : Provider
a_provider = record {
  replay_data = ("llm", str "hi" ∷ []) ∷ [];
  node_end_fallback = ("code", str "out" ∷ []) ∷ [];
  catalog_hashes = [];
}

abbrev a_registry : Dict Bool
a_registry = ("llm", true) ∷ ("code", true) ∷ ("join", false) ∷ []

inject_strict_example :
    (((v : String) → 0 < capable v a_registry → contains v a_provider.replay_data ≡ true)
      → inject true a_provider a_registry ≡ ok (inject_all true a_provider a_registry no_injection))
    × ((i : Injection)
        → inject true a_provider a_registry ≡ ok i
        → ((v : String) → 0 < capable v a_registry → contains v a_provider.replay_data ≡ true)
          × IsInjected true a_provider a_registry i)
inject_strict_example = inject_strict a_provider a_registry
