-- ===== src/Core/Run/Resume.antt =====
-- `_run_runbook`: where a resumed run starts. The code writes whole numbers as `stage_index` and
-- `stage_retry_count`; anything else that a checkpoint holds there counts as a TypeError.
use Prim.Native.String.{String}
use neuronium.Core.Run.Env.{ActionGraphStage}
use neuronium.Core.Run.Planner.{nat}
use neuronium.Prelude.Value.{Value, Fields, end, field, int, str, obj, get_value}
use neuronium.Prelude.{
  ℕ, Bool, true, false, not, ◌&&◌, ◌||◌, Option, none, some, List, Result, ok, err, value_error,
  type_error,
}
use neuronium.Prelude.Int.{pos}
use neuronium.Prelude.Text.{append}
use neuronium.Core.State.{RunState}
use neuronium.Core.Run.World.{Action, pure, ◌>>◌, move_to, update_run_state}
use neuronium.Core.Run.Attempts.{StageRun, label, is_boundary_text}

-- `if resume_ctx`
abbrev pub resuming : Option Fields → Bool
resuming none = false
resuming (some end) = false
resuming (some (field k v fs)) = true

abbrev pub as_index : Value → Result ℕ
as_index (int (pos n)) = ok n
as_index v = err type_error

unfoldable pub resume_index : Option Fields → Result ℕ
resume_index none = ok 0
resume_index (some ctx) = as_index (get_value "stage_index" (nat 0) ctx)

-- Which phases of the stage that a run resumes in are skipped.
pub record Skips : Type 0 where
  pub commit : Bool
  pub execute : Bool
  pub control : Bool

unfoldable pub skips : StageRun → Skips
skips sr = elim sr.resume [
  | none ↦ record { commit = false; execute = false; control = false }
  | some ctx ↦
      let boundary = get_value "phase_boundary" (str "") ctx in
      let past_control = is_boundary_text (label "after_control_iter" sr) boundary in
      let past_commit = is_boundary_text (label "after_execute_iter" sr) boundary || past_control in
      let mid = is_boundary_text "paused_mid_execute" boundary in
      record {
        commit = mid || past_commit;
        execute = not mid && past_commit;
        control = past_control;
      }
]

unfoldable pub start_retry_count : StageRun → Result ℕ
start_retry_count sr = elim sr.resume [
  | none ↦ ok 0
  | some ctx ↦ as_index (get_value "stage_retry_count" (nat 0) ctx)
]

abbrev pub need_planned : Value → Result Fields
need_planned (obj fs) = ok fs
need_planned v = err value_error

-- A run that does not resume starts.
unfoldable pub start_running : Bool → String → Action (Unit {0})
start_running true runbook_id = pure tt
start_running false runbook_id = do
  move_to RunState.running (append "Runbook: " (append runbook_id " started"))
  update_run_state RunState.running

abbrev pub StageBuilder : Type 0
StageBuilder = String → List Value → Fields → String → Result (List ActionGraphStage)
