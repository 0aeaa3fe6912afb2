-- ===== src/Core/Run/Pausing.antt =====
-- What a pause leaves: the checkpoint that a resumed run starts from, and the state of a run that another
-- thread has paused while its graph was being executed.
use neuronium.Prelude.{
  String, true, false, Option, none, some, List, [], ◌∷◌, ◌++◌, ◌≡◌, refl, ap, ◌∙◌, str_eq, Result,
  ok, err, arith, Bool-cases, inl, inr, sym, subst,
}
use neuronium.Prelude.Int.{pos}
use neuronium.Prelude.Value.{
  Value, Fields, end, field, int, str, obj, truthy, get_field, update_fields, get_field-put_field,
  get_value,
}
use neuronium.Core.State.{AgentState, RunState, transition_to}
use neuronium.Execution.Loop.{ExecutionOutcome}
use neuronium.Trace.Checkpoints.{latest_checkpoint, is_boundary, is_kind, build_checkpoint_payload}
use neuronium.Trace.Checkpoints.Latest.{latest_checkpoint-append}
use neuronium.Trace.Checkpoints.Restore.{get_field-update_fields}
use neuronium.Core.Run.World.{
  World, Action, gets, try_call, called, go_on, ◌>>=◌, event, record_event, move_to,
  update_run_state,
}
use neuronium.Core.Run.Env.{Env}
use neuronium.Core.Run.Decisions.{
  put_dict, put_truthy, latest_context, boundary_label, write_checkpoint, record_control_decision,
}
use neuronium.Core.Run.Attempts.{StageRun, Attempt}
use neuronium.Core.Run.Execute.{full_checkpoint, on_pause}

get_field-put_dict :
    (k j : String) (v : Option Value) (d : Fields)
    → str_eq k j ≡ false
    → get_field j (put_dict k v d) ≡ get_field j d
get_field-put_dict k j none d e = refl
get_field-put_dict k j (some (obj fs)) d e = get_field-put_field k j (obj fs) d ∙ (rw e)
get_field-put_dict k j (some v) d e = refl

get_field-put_truthy :
    (k j : String) (v : Option Value) (d : Fields)
    → str_eq k j ≡ false
    → get_field j (put_truthy k v d) ≡ get_field j d
get_field-put_truthy k j none d e = refl
get_field-put_truthy k j (some v) d e = elim (Bool-cases (truthy v)) [
  | inl t ↦ rw t (get_field-put_field k j v d ∙ (rw e))
  | inr f ↦ rw f
]

-- The extra entries of a control command's checkpoint.
abbrev control_extra : String → Fields → Fields → Fields
control_extra cmd payload ctx = put_dict "metadata" (get_field "metadata" ctx) (
    put_truthy "runbook_id" (get_field "runbook_id" ctx)
      (field "control_command" (str cmd) (field "control_payload" (obj payload) end)))

extra_lacks :
    (k cmd : String) (payload ctx : Fields)
    → str_eq "metadata" k ≡ false
    → str_eq "runbook_id" k ≡ false
    → get_field k (field "control_command" (str cmd) (field "control_payload" (obj payload) end))
      ≡ none
    → get_field k (control_extra cmd payload ctx) ≡ none
extra_lacks k cmd payload ctx m r e =
    get_field-put_dict "metadata" k (get_field "metadata" ctx) _ m
    ∙ (get_field-put_truthy "runbook_id" k (get_field "runbook_id" ctx) _ r ∙ e)

-- The resume context of a control command's checkpoint in a paused run.
abbrev control_context : Value → String → Fields → Fields → Fields
control_context iteration cmd payload ctx =
    update_fields (field "iteration" iteration (field "phase_boundary" (str "paused") end))
      (control_extra cmd payload ctx)

context_lacks :
    (k : String) (iteration : Value) (cmd : String) (payload ctx : Fields)
    → str_eq "metadata" k ≡ false
    → str_eq "runbook_id" k ≡ false
    → get_field k (field "control_command" (str cmd) (field "control_payload" (obj payload) end))
      ≡ none
    → get_field k (control_context iteration cmd payload ctx)
      ≡ get_field k (field "iteration" iteration (field "phase_boundary" (str "paused") end))
context_lacks k iteration cmd payload ctx m r e =
    get_field-update_fields k _ _ (extra_lacks k cmd payload ctx m r e)

-- Adding the checkpoint of a command to the trace of a paused run makes it the latest one.
module _ (env : Env) (trace : List Fields) (st : AgentState) (iteration : Value) (cmd : String)
    (payload ctx : Fields) where
  abbrev command_checkpoint : Fields
  command_checkpoint =
      build_checkpoint_payload env.model_dump st iteration "paused" (control_extra cmd payload ctx)

  latest_is_command :
      latest_checkpoint (trace ++ event st "checkpoint" command_checkpoint ∷ [])
      ≡ ok (some command_checkpoint)
  unfolding is_kind is_boundary get_field build_checkpoint_payload
  latest_is_command =
      let label : get_field "phase_boundary" (control_context iteration cmd payload ctx)
          ≡ some (str "paused") =
        context_lacks "phase_boundary" iteration cmd payload ctx refl refl refl in
      latest_checkpoint-append trace _ command_checkpoint (some (str "paused")) true (rw label) refl

-- What the latest checkpoint says: its run is paused, and neither a stage nor results are noted.
abbrev pub PausedPlainly : List Fields → Type 0
PausedPlainly trace =
    (payload resume : Fields) × (latest_checkpoint trace ≡ ok (some payload))
    × (get_field "resume_context" payload ≡ some (obj resume))
    × (get_field "phase_boundary" resume ≡ some (str "paused"))
    × (get_field "stage_index" resume ≡ none)
    × (get_field "completed_node_results" resume ≡ none)

plainly :
    (env : Env) (trace : List Fields) (st : AgentState) (iteration : Value) (cmd : String)
    (payload ctx : Fields)
    → PausedPlainly (
        trace
        ++ event st "checkpoint" (command_checkpoint env trace st iteration cmd payload ctx) ∷ [])
unfolding build_checkpoint_payload get_field
plainly env trace st iteration cmd payload ctx = (
  command_checkpoint env trace st iteration cmd payload ctx,
  control_context iteration cmd payload ctx,
  latest_is_command env trace st iteration cmd payload ctx,
  refl,
  context_lacks "phase_boundary" iteration cmd payload ctx refl refl refl,
  context_lacks "stage_index" iteration cmd payload ctx refl refl refl,
  context_lacks "completed_node_results" iteration cmd payload ctx refl refl refl,
)

module _ {A B : Type 0} where
  -- Inversion of a block that has ended well.
  pub go_on-eq-ok :
      (r : Result A × World) (f : A → Action B) {b : B} {w' : World}
      → go_on r f ≡ (ok b, w')
      → (a : A) × (w1 : World) × (r ≡ (ok a, w1)) × (f a w1 ≡ (ok b, w'))
  go_on-eq-ok (ok a, w1) f h = (a, w1, refl, h)
  go_on-eq-ok (err e, w1) f h = cc

-- The trace with a control command's checkpoint at the end.
abbrev with_checkpoint : Env → World → String → Fields → Fields → String → List Fields
with_checkpoint env w cmd payload ctx boundary =
    w.trace
    ++ event w.agent "checkpoint" (
        build_checkpoint_payload env.model_dump w.agent
          (get_value "iteration" (int (pos 0)) payload) boundary (control_extra cmd payload ctx))
      ∷ []

moved_state :
    (target : RunState) (message : String) (x y z : World)
    → move_to target message x ≡ (ok tt, y)
    → update_run_state target y ≡ (ok tt, z)
    → z.agent.run_state ≡ target
unfolding move_to transition_to update_run_state
moved_state target message x y z p q = ground (arith, p, q)

module _ (env : Env) where
  decision-plainly :
      (cmd : String) (payload : Fields) (w w' : World)
      → w.agent.run_state ≡ RunState.paused
      → record_control_decision env cmd payload w ≡ (ok tt, w')
      → PausedPlainly w'.trace
  unfolding record_control_decision ◌>>=◌ record_event gets try_call write_checkpoint
  decision-plainly cmd payload w w' p h =
      let (ctx, w1, e, h1) = go_on-eq-ok (called (latest_context env _), _) _ h in
      let s : w1.agent.run_state ≡ RunState.paused =
        sym (ap (λ (r : Result Fields × World). r.1.agent.run_state) e) ∙ p in
      let label : boundary_label env w1.agent.run_state ≡ "paused" = ap (boundary_label env) s in
      let at : with_checkpoint env w1 cmd payload ctx (boundary_label env w1.agent.run_state)
          ≡ w'.trace =
        ap (λ (r : Result (Unit {0}) × World). r.1.trace) h1 in
      subst PausedPlainly (sym (ap (with_checkpoint env w1 cmd payload ctx) label) ∙ at)
        (plainly env w1.trace w1.agent _ cmd payload ctx)

  -- After a pause in the middle of an execution that raises nothing, the latest checkpoint is not
  -- the one with the results and the stage but that of the pause command: it has the boundary
  -- "paused" and neither a stage index nor node results.
  pub on_pause-PausedPlainly :
      (sr : StageRun) (a : Attempt) (o : ExecutionOutcome) (w w' : World)
      → on_pause env sr a o w ≡ (ok tt, w')
      → PausedPlainly w'.trace
  unfolding on_pause ◌>>=◌
  on_pause-PausedPlainly sr a o w w' h =
      let (u1, w1, e1, h1) = go_on-eq-ok (full_checkpoint env sr a o w) _ h in
      let (u2, w2, e2, h2) = go_on-eq-ok (move_to _ _ w1) _ h1 in
      let (u3, w3, e3, h3) = go_on-eq-ok (update_run_state _ w2) _ h2 in
      decision-plainly "pause" end w3 w' (paused_after w1 w2 w3 e2 e3) h3
    where
      paused_after :
          (x y z : World)
          → move_to RunState.paused "User command: pause (mid-execution)" x ≡ (ok tt, y)
          → update_run_state RunState.paused y ≡ (ok tt, z)
          → z.agent.run_state ≡ RunState.paused
      paused_after x y z p q = moved_state RunState.paused _ x y z p q
