-- ===== src/Core/Run/Launching.antt =====
-- However a run is started or resumed, it ends, and its row says how.
use neuronium.Prelude.{
  ℕ, String, Bool, true, false, Option, none, some, List, ◌≡◌, refl, is_some, Result, ok, err,
  Error, ap, sym, ◌∙◌, arith, ◌⊎◌, inl, inr, ◌<◌, ◌+◌,
}
use neuronium.Prelude.Value.{Fields, field, end, str, arr, of_items}
use neuronium.Core.State.{AgentState, RunState, transition_to, valid_transitions}
use neuronium.Core.Run.World.{
  World, ◌>>=◌, ◌>>◌, gets, modify, move_to, update_run_state, record_event, record_decision,
}
use neuronium.Core.Run.Env.{Env, ControlCommand}
use neuronium.Core.Run.Control.{run_commands, Session}
use neuronium.Core.Run.Resume.{StageBuilder}
use neuronium.Core.Run.Runbook.{run_runbook}
use neuronium.Core.Run.Rules.{On, Agrees}
use neuronium.Core.Run.Commands.{run_commands-On}
use neuronium.Core.Run.Endings.{is_live, Ended}
use neuronium.Core.Run.Finished.{run_runbook-settles}
use neuronium.Core.Run.Fuel.{Enough}
use neuronium.Core.Run.Launch.{
  RunRequest, NewIds, new_world, finished, run_action, dispatch, live, request_id, start,
  resume_with, resume_loaded, resume_run, resume_found, resume_latest, resume_row, left_behind,
}

-- Whether a run that is launched returns: the runbook is known, or the state may still become FAILED.
abbrev May : Option StageBuilder → RunState → Type 0
May (some build) s = Unit {0}
May none s = is_live s ≡ true

known-May : (found : Option StageBuilder) (s : RunState) → is_some found ≡ true → May found s
known-May none s h = absurd (cc h)
known-May (some build) s h = tt

live-May : (found : Option StageBuilder) (s : RunState) → is_live s ≡ true → May found s
live-May none s h = h
live-May (some build) s h = tt

module _ (env : Env) (calm : env.recovery.allow_auto_replan ≡ false) (fuel : ℕ)
    (p : Enough env fuel) where
  abbrev Launched : Result (Unit {0}) × World → Type 0
  Launched r = On Ended r.1

  finished-Ended :
      (x : Bool × World)
      → x.0 ≡ true
      → On Ended x.1
      → On Ended (finished x).1 × ((finished x).0 ≡ ok tt)
  finished-Ended (true, w) e q = (q, refl)
  finished-Ended (false, w) e q = absurd (cc e)

  run_action-Ended :
      (runbook_id : String) (md : List Fields → Fields) (ctx : Option Fields) (w : World)
      → On Agrees w
      → On Ended (run_action env fuel runbook_id md ctx w).1
        × ((run_action env fuel runbook_id md ctx w).0 ≡ ok tt)
  unfolding run_action
  run_action-Ended runbook_id md ctx w agree =
      let s = run_runbook-settles env fuel runbook_id (md w.trace) ctx w calm p (rw agree refl) in
      finished-Ended (run_runbook env fuel runbook_id (md w.trace) ctx w) s.0 (s.1, s.2)

  dispatch-Ended :
      (runbook_id suffix : String) (md : List Fields → Fields) (ctx : Option Fields)
      (found : Option StageBuilder) (w : World)
      → On Agrees w
      → On Ended (dispatch env fuel runbook_id suffix md ctx found w).1
        × (May found w.agent.run_state
            → (dispatch env fuel runbook_id suffix md ctx found w).0 ≡ ok tt)
  unfolding dispatch move_to transition_to valid_transitions update_run_state record_event ◌>>=◌
  dispatch-Ended runbook_id suffix md ctx (some build) w agree =
      let r = run_action-Ended runbook_id md ctx w agree in (r.0, λ m. r.1)
  dispatch-Ended runbook_id suffix md ctx none w agree =
      (ground (arith, agree), λ m. ground (arith, m))

abbrev begun : Env → ℕ → RunRequest → NewIds → World
begun env fuel request ids =
    ((do
      record_decision "Intention committed" (
          field "objective" (str request.objective)
            (field "constraints" (arr (of_items request.constraints)) end))
      record_decision "Runbook selected"
          (field "runbook_id" (str (request_id env fuel request)) end))
      (new_world ids request.objective request.constraints)).1

-- Without automatic replanning and with more fuel than the configured fixes and retries of a stage
-- together, every started run ends in a state that is neither PENDING nor RUNNING, and its row says the
-- same, for any request and any commands that the owner of the handle gives before the runbook starts. If
-- there is such a runbook, `start` then returns.
pub start-Ended :
    (env : Env) (fuel : ℕ) (request : RunRequest) (ids : NewIds) (ready : List ControlCommand)
    → env.recovery.allow_auto_replan ≡ false
    → env.max_verdict_fix_attempts + env.recovery.max_stage_retries < fuel
    → let (r, w) = start env fuel request ids ready in
      (w.row ≡ some w.agent.run_state)
      × (is_live w.agent.run_state ≡ false)
      × (is_some (env.get_runbook (request_id env fuel request)) ≡ true → r ≡ ok tt)
unfolding start record_event modify ◌>>=◌
start-Ended env fuel request ids ready calm p =
    let agree : On Agrees (run_commands env ready (begun env fuel request ids)) =
      run_commands-On env Agrees (λ row x q. rw q refl) (λ t row x q. q.0 ∙ ap some (sym q.1)) ready
        (begun env fuel request ids) refl in
    let d =
      dispatch-Ended (live env) calm fuel p _ _ _ _ (env.get_runbook (request_id env fuel request))
        _ agree in
    (d.0.0, d.0.1, λ known. d.1 (known-May _ _ known))

-- What a resumption does: nothing, with an exception, or a run that has ended.
abbrev Resumed : Session → Result (Unit {0}) × Session → Type 0
Resumed s r =
    ((e : Error) × (r.0 ≡ err e) × (r.1 ≡ s))
    ⊎ ((r.0 ≡ ok tt)
        × (st : AgentState) × (r.1.memory ≡ some st)
        × (r.1.row ≡ some st.run_state)
        × (is_live st.run_state ≡ false)
        × (s.row ≡ some RunState.running))

module _ (env : Env) (calm : env.recovery.allow_auto_replan ≡ false) (fuel : ℕ)
    (p : Enough env fuel) where
  loaded-Ended :
      (ctx : Fields) (w : World)
      → w.row ≡ some RunState.running
      → w.agent.run_state ≡ RunState.running
      → On Ended (resume_loaded env fuel ctx w).1 × ((resume_loaded env fuel ctx w).0 ≡ ok tt)
  unfolding resume_loaded resume_with record_event gets ◌>>=◌
  loaded-Ended ctx w row running =
      let d =
        dispatch-Ended (live env) calm fuel p _ _ _ _ (env.get_runbook _) _
          (row ∙ ap some (sym running)) in
      (d.0, d.1 (live-May _ _ (rw running refl)))

  loaded-Resumed :
      (s : Session) (ctx : Fields) (w : World)
      → s.row ≡ some RunState.running
      → w.row ≡ some RunState.running
      → w.agent.run_state ≡ RunState.running
      → Resumed s (left_behind env fuel (resume_loaded env fuel ctx w))
  loaded-Resumed s ctx w old row running =
      let d = loaded-Ended ctx w row running in
      inr (d.1, (resume_loaded env fuel ctx w).1.agent, refl, d.0.0, d.0.1, old)

  found-Resumed :
      (s : Session)
      → s.row ≡ some RunState.running
      → (x : Result (AgentState × Fields)) → Resumed s (resume_found env fuel s x)
  found-Resumed s row (err e) = inl (e, refl, refl)
  found-Resumed s row (ok (st, ctx)) = loaded-Resumed s ctx _ row row refl

  checkpoint-Resumed :
      (s : Session)
      → s.row ≡ some RunState.running
      → (x : Result (Option Fields)) → Resumed s (resume_latest env fuel s x)
  checkpoint-Resumed s row (err e) = inl (e, refl, refl)
  checkpoint-Resumed s row (ok none) = inl (Error.checkpoint_error, refl, refl)
  checkpoint-Resumed s row (ok (some payload)) = found-Resumed s row _

  row-Resumed :
      (s : Session) (row : Option RunState) → s.row ≡ row → Resumed s (resume_row env fuel s row)
  row-Resumed s none e = inl (Error.checkpoint_error, refl, refl)
  row-Resumed s (some RunState.running) e = checkpoint-Resumed s e _
  row-Resumed s (some RunState.pending) e = inl (Error.checkpoint_error, refl, refl)
  row-Resumed s (some RunState.paused) e = inl (Error.checkpoint_error, refl, refl)
  row-Resumed s (some RunState.completed) e = inl (Error.checkpoint_error, refl, refl)
  row-Resumed s (some RunState.failed) e = inl (Error.checkpoint_error, refl, refl)
  row-Resumed s (some RunState.cancelled) e = inl (Error.checkpoint_error, refl, refl)

-- Without automatic replanning and with more fuel than the configured fixes and retries of a stage
-- together, a resumption either raises and changes nothing, or it returns: then the row said RUNNING
-- before, and the run has ended in a state that is neither PENDING nor RUNNING, with a row that says the
-- same.
pub resume_run-Resumed :
    (env : Env) (fuel : ℕ) (s : Session)
    → env.recovery.allow_auto_replan ≡ false
    → env.max_verdict_fix_attempts + env.recovery.max_stage_retries < fuel
    → let (r, s') = resume_run env fuel s in
      ((e : Error) × (r ≡ err e) × (s' ≡ s))
      ⊎ ((r ≡ ok tt)
          × (st : AgentState) × (s'.memory ≡ some st)
          × (s'.row ≡ some st.run_state)
          × (is_live st.run_state ≡ false)
          × (s.row ≡ some RunState.running))
unfolding resume_run
resume_run-Resumed env fuel s calm p = row-Resumed env calm fuel p s s.row refl
