-- ===== src/Core/Run/Interrupting.antt =====
-- A control command that another thread gives while a graph is being executed, and what the run makes of
-- the interrupt that the command has asked for.
use neuronium.Prelude.{String, true, Option, some, ◌≡◌, is_some, Result, ok, err, Error, arith}
use neuronium.Prelude.Value.{Fields, str, get_value}
use neuronium.Core.State.{RunState, transition_to, valid_transitions}
use neuronium.Nodes.{InterruptRequest, InterruptCommand, InterruptMode, pause, stop}
use neuronium.Execution.Loop.{ExecutionOutcome}
use neuronium.Core.Run.World.{
  World, Action, try_call, modify, ◌>>◌, record_event, move_to, update_run_state,
}
use neuronium.Core.Run.Env.{Env}
use neuronium.Core.Run.Decisions.{mode_of, record_control_decision}
use neuronium.Core.Run.Control.{pause_command, stop_command}
use neuronium.Core.Run.Attempts.{StageRun, Attempt}
use neuronium.Core.Run.Execute.{on_command, on_interrupt, on_pause, on_stop}
use neuronium.Core.Run.Runbook.{on_exception, handle}
use neuronium.Core.Run.Rules.{
  Pred, On, HasRow, Moved, Settled, Post, Does, bind, steady, update_run_state-Settled,
}
use neuronium.Core.Run.Commands.{Steady-control_decision}
use neuronium.Core.Run.Endings.{Never, Steady-full, Steady-stop_checkpoint}
use neuronium.Core.Run.Total.{Fueled, Total-bind, Total-modify}
use neuronium.Core.Run.TotalStages.{Total-command}

-- The state that a command moves the run to.
abbrev pub state_of : InterruptCommand → RunState
state_of pause = RunState.paused
state_of stop = RunState.cancelled

abbrev pub interrupt_command : Env → Fields → InterruptCommand → Action (Unit {0})
interrupt_command env payload pause = pause_command env payload
interrupt_command env payload stop = stop_command env payload

starts :
    (k : InterruptCommand) (message : String) (R : Pred)
    → Does (Moved RunState.running) (move_to (state_of k) message) (λ _. Moved (state_of k)) R
unfolding move_to transition_to valid_transitions
starts k message R w p = ground (arith, p)

-- Neither PAUSED nor CANCELLED can be entered twice.
stuck :
    (k : InterruptCommand) (message : String)
    → Does (Moved (state_of k)) (move_to (state_of k) message) (λ _. Never) HasRow
unfolding move_to transition_to valid_transitions
stuck k message w p = ground (arith, p)

call_ok {ℓ} :
    {A : Type ℓ} (φ R : Pred) (r : Result A) (a : A) → r ≡ ok a → Does φ (try_call r) (λ _. φ) R
unfolding try_call
call_ok φ R r a e w p = rw e p

module _ (env : Env) where
  settled_then :
      (k : InterruptCommand) (cmd : String) (payload : Fields)
      → Does
          (Moved (state_of k))
          (update_run_state (state_of k) >> record_control_decision env cmd payload)
          (λ _. Moved (state_of k))
          (Moved (state_of k))
  settled_then k cmd payload =
      bind _ _ (λ _. Settled (state_of k)) _ _ _ (update_run_state-Settled (state_of k) _)
        λ _ w p. after _ (
          steady (Settled (state_of k)) (Settled (state_of k)) (λ row s q. q)
            (record_control_decision env cmd payload) (Steady-control_decision env cmd payload) w p)
    where
      after :
          (r : Result (Unit {0}) × World)
          → Post (λ _. Settled (state_of k)) (Settled (state_of k)) r
          → Post (λ _. Moved (state_of k)) (Moved (state_of k)) r
      after (ok d, w) q = ground (arith, q)
      after (err e, w) q = ground (arith, q)

  -- A pause or a stop of a RUNNING run moves it, whatever becomes of the rest of the command.
  command_moves :
      (k : InterruptCommand) (payload : Fields) (mode : InterruptMode)
      → mode_of (get_value "mode" (str "graceful") payload) ≡ ok mode
      → Does
          (Moved RunState.running)
          (interrupt_command env payload k)
          (λ _. Moved (state_of k))
          (Moved (state_of k))
  unfolding pause_command stop_command modify
  command_moves pause payload mode e =
      bind _ _ (λ _. Moved RunState.running) _ _ _ (λ w p. p)
        λ _.
          bind _ _ (λ _. Moved RunState.paused) _ _ _ (starts pause _ _)
            λ _. settled_then pause "pause" payload
  command_moves stop payload mode e =
      bind _ _ (λ _. Moved RunState.running) _ _ _ (call_ok _ _ _ mode e)
        λ m.
          bind _ _ (λ _. Moved RunState.running) _ _ _ (λ w p. p)
            λ _.
              bind _ _ (λ _. Moved RunState.cancelled) _ _ _ (starts stop _ _)
                λ _. settled_then stop "stop" payload

  moved_row :
      (k : InterruptCommand) (row : Option RunState) (s : RunState)
      → Moved (state_of k) row s
      → HasRow row s
  moved_row k row s p = p.0

  -- The run then cannot answer its interrupt.
  interrupt_stuck :
      (sr : StageRun) (a : Attempt) (o : ExecutionOutcome) (mode : InterruptMode)
      (k : InterruptCommand)
      → Does (Moved (state_of k)) (on_command env sr a o mode k) (λ _. Never) HasRow
  unfolding on_command on_pause on_stop
  interrupt_stuck sr a o mode pause =
      bind _ _ (λ _. Moved RunState.paused) _ _ _
        (steady _ _ (moved_row pause) _ (Steady-full env sr a o))
        λ _. bind _ _ (λ _. Never) _ _ _ (stuck pause _) (λ _ w p. absurd p)
  interrupt_stuck sr a o mode stop =
      bind _ _ (λ _. Moved RunState.cancelled) _ _ _
        (steady _ _ (moved_row stop) _ (Steady-stop_checkpoint env sr a o mode))
        λ _. bind _ _ (λ _. Never) _ _ _ (stuck stop _) (λ _ w p. absurd p)

  on_exception-Failed :
      (e : Error) (w : World)
      → HasRow w.row w.agent.run_state
      → On (Settled RunState.failed) (on_exception env e w)
  unfolding on_exception move_to transition_to update_run_state record_event
  on_exception-Failed e w p = ground arith

  handle-Failed :
      (r : Result (Unit {0}) × World)
      → Fueled r
      → Post (λ _. Never) HasRow r
      → On (Settled RunState.failed) (handle env r).1
  unfolding handle
  handle-Failed (ok d, w) f p = absurd p
  handle-Failed (err e, w) f p = failed_by e w f p
    where
      failed_by :
          (e : Error) (w : World)
          → Fueled {A = Unit {0}} (err e, w)
          → HasRow w.row w.agent.run_state
          → On (Settled RunState.failed) (handle env (err e, w)).1
      failed_by e w f p = let q = on_exception-Failed e w p in ground (arith, q)

  -- A pause or a stop that another thread gives while a RUNNING run executes a graph makes the run FAILED:
  -- the command has moved the state already, so the transition by which the run answers the interrupt
  -- is refused, and the handler of exceptions forces FAILED, in the state and in its row.
  pub interrupt_command-on_interrupt :
      (k : InterruptCommand) (payload : Fields) (mode : InterruptMode) (sr : StageRun) (a : Attempt)
      (o : ExecutionOutcome) (request : InterruptRequest) (w : World)
      → mode_of (get_value "mode" (str "graceful") payload) ≡ ok mode
      → request.command ≡ k
      → is_some w.row ≡ true
      → w.agent.run_state ≡ RunState.running
      → let w1 = (interrupt_command env payload k w).1 in
        let w2 = (handle env (on_interrupt env sr a o request w1)).1 in
        (w2.row ≡ some RunState.failed) × (w2.agent.run_state ≡ RunState.failed)
  unfolding on_interrupt
  interrupt_command-on_interrupt k payload mode sr a o request w m e row running =
      let at : On (Moved (state_of k)) (interrupt_command env payload k w).1 =
        either (interrupt_command env payload k w)
          (command_moves k payload mode m w (row, running)) in
      let refused : Does (Moved (state_of request.command))
          (on_command env sr a o request.mode request.command) (λ _. Never) HasRow =
        interrupt_stuck sr a o request.mode request.command in
      handle-Failed _
        (Total-bind _ _ (Total-command env sr a o request.mode request.command)
          (λ _. Total-modify _) _)
        (bind _ _ (λ _. Never) (λ _. Never) _ _ refused (λ _ w3 p. absurd p) _ (rw e at))
    where
      either :
          (r : Result (Unit {0}) × World)
          → Post (λ _. Moved (state_of k)) (Moved (state_of k)) r
          → On (Moved (state_of k)) r.1
      either (ok d, w3) q = q
      either (err x, w3) q = q
