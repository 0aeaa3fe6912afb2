-- ===== src/Core/Run/Commands.antt =====
-- What the control commands do to the state of the run and to its row in the store.
use neuronium.Prelude.{
  String, true, Option, none, some, List, [], ◌∷◌, ◌≡◌, refl, is_some, Result, ok, err, ap, ◌∙◌,
  sym,
}
use neuronium.Prelude.Value.{Value, Fields, truthy}
use neuronium.Core.State.{AgentState, RunState, Intention}
use neuronium.Core.Run.World.{World, Action, ◌>>◌, move_to, update_run_state}
use neuronium.Core.Run.Env.{
  Env, ControlKind, ControlCommand, pause, continue_run, stop, replan, revise, escalate,
}
use neuronium.Core.Run.Decisions.{
  write_checkpoint, record_control_decision, extend_constraints, extend_by_intention,
}
use neuronium.Core.Run.Control.{
  pause_command, continue_command, stop_command, replan_command, escalate_command, revise_command,
  run_command, run_commands, Session, enter, control_done, apply_control,
}
use neuronium.Core.Run.Rules.{
  Pred, On, Agrees, Moved, Settled, Post, Does, Steady, bind, Steady-bind, steady, Steady-when,
  Steady-call, Steady-gets, Steady-pure, Steady-modify, move_to-Moved, update_run_state-Settled,
  steady_rules, Keeps, Keeps-Steady, Keeps-bind,
}

module _ {ℓ} {A : Type ℓ} where
  pub weaken :
      (φ R : Pred) (Q Q' : A → Pred) (m : Action A)
      → ((a : A) (row : Option RunState) (s : RunState) → Q a row s → Q' a row s)
      → Does φ m Q R
      → Does φ m Q' R
  weaken φ R Q Q' m f d w p = weaken_post (m w) (d w p)
    where
      weaken_post : (r : Result A × World) → Post Q R r → Post Q' R r
      weaken_post (ok a, w1) q = f a _ _ q
      weaken_post (err e, w1) q = q

  -- A move to a state, its row, and what changes neither.
  pub arrive :
      (R : Pred)
      → ((row : Option RunState) (s : RunState) → R row s → is_some row ≡ true)
      → ((target : RunState) (row : Option RunState) (s : RunState)
          → Settled target row s
          → R row s)
      → (target : RunState) (message : String) (rest : Action A) → Steady rest
      → Does R (move_to target message >> (update_run_state target >> rest)) (λ _. Settled target) R
  arrive R there after target message rest h =
      bind R R (λ _. Moved target) (λ _. Settled target) (move_to target message) (λ _. _)
        (move_to-Moved target message R there)
        λ _.
          bind (Moved target) R (λ _. Settled target) (λ _. Settled target)
            (update_run_state target) (λ _. rest) (update_run_state-Settled target R)
            λ _. steady (Settled target) R (after target) rest h

  pub arrive-Keeps :
      (R : Pred)
      → ((row : Option RunState) (s : RunState) → R row s → is_some row ≡ true)
      → ((target : RunState) (row : Option RunState) (s : RunState)
          → Settled target row s
          → R row s)
      → (target : RunState) (message : String) (rest : Action A) → Steady rest
      → Keeps R (move_to target message >> (update_run_state target >> rest))
  arrive-Keeps R there after target message rest h =
      weaken R R (λ _. Settled target) (λ _. R) _ (λ a. after target)
        (arrive R there after target message rest h)

extend_by : (v : Value) (o : Option Intention) → Steady (extend_by_intention v o)
unfolding extend_by_intention
extend_by v none w = Steady-pure (tt {0}) w
extend_by v (some i) w =
    Steady-when (truthy v) _
      (Steady-bind _ _ (Steady-call _) (λ xs. Steady-modify _ (λ w1. (refl, refl)))) w

Steady-constraints : (v : Value) → Steady (extend_constraints v)
unfolding extend_constraints
Steady-constraints v = Steady-bind _ _ (Steady-gets _) (λ st. extend_by v st.intention)

module _ (env : Env) where
  pub Steady-checkpoint :
      (iteration : Value) (boundary : String) (extra : Fields)
      → Steady (write_checkpoint env iteration boundary extra)
  unfolding write_checkpoint
  Steady-checkpoint iteration boundary extra = search (steady_rules)

  pub Steady-control_decision :
      (cmd : String) (payload : Fields) → Steady (record_control_decision env cmd payload)
  unfolding record_control_decision
  Steady-control_decision cmd payload = search (steady_rules, Steady-checkpoint)

  Steady-replan : (payload : Fields) → Steady (replan_command env payload)
  unfolding replan_command
  Steady-replan payload = search (steady_rules, Steady-control_decision)

  revise-Steady : (payload : Fields) → Steady (revise_command env payload)
  unfolding revise_command
  revise-Steady payload =
      search (steady_rules, Steady-constraints, Steady-control_decision) depth 14

  -- A command moves the state and the row together, or neither.
  module _ (R : Pred)
      (there : (row : Option RunState) (s : RunState) → R row s → is_some row ≡ true)
      (after : (target : RunState) (row : Option RunState) (s : RunState)
        → Settled target row s
        → R row s) where
    pause-Keeps : (payload : Fields) → Keeps R (pause_command env payload)
    unfolding pause_command
    pause-Keeps payload =
        Keeps-bind R _ _ (Keeps-Steady R _ (Steady-modify _ (λ w. (refl, refl))))
          λ _. arrive-Keeps R there after _ _ _ (Steady-control_decision "pause" payload)

    stop-Keeps : (payload : Fields) → Keeps R (stop_command env payload)
    unfolding stop_command
    stop-Keeps payload = Keeps-bind R _ _ (Keeps-Steady R _ (Steady-call _)) λ mode.
        Keeps-bind R _ _ (Keeps-Steady R _ (Steady-modify _ (λ w. (refl, refl))))
          λ _. arrive-Keeps R there after _ _ _ (Steady-control_decision "stop" payload)

    continue-Keeps : (payload : Fields) → Keeps R (continue_command env payload)
    unfolding continue_command
    continue-Keeps payload = arrive-Keeps R there after _ _ _ (Steady-control_decision _ payload)

    escalate-Keeps : (payload : Fields) → Keeps R (escalate_command env payload)
    unfolding escalate_command
    escalate-Keeps payload = arrive-Keeps R there after _ _ _ (Steady-control_decision _ payload)

    revise-Keeps : (payload : Fields) → Keeps R (revise_command env payload)
    unfolding revise_command
    revise-Keeps payload = Keeps-Steady R _ (revise-Steady payload)

    pub run_command-Keeps : (c : ControlCommand) → Keeps R (run_command env c)
    unfolding run_command
    run_command-Keeps c = keeps_kind c.kind c.payload
      where
        keeps_kind :
            (k : ControlKind) (payload : Fields)
            → Keeps R (run_command env (record { kind = k; payload = payload }))
        keeps_kind pause payload = pause-Keeps payload
        keeps_kind continue_run payload = continue-Keeps payload
        keeps_kind stop payload = stop-Keeps payload
        keeps_kind replan payload = Keeps-Steady R _ (Steady-replan payload)
        keeps_kind revise payload = revise-Keeps payload
        keeps_kind escalate payload = escalate-Keeps payload

    keeps_Post : (r : Result (Unit {0}) × World) → Post (λ _. R) R r → On R r.1
    keeps_Post (ok a, w) p = p
    keeps_Post (err e, w) p = p

    -- So does a list of commands, whichever of them raise.
    pub run_commands-On :
        (cs : List ControlCommand) (w : World) → On R w → On R (run_commands env cs w)
    unfolding run_commands
    run_commands-On [] w p = p
    run_commands-On (c ∷ cs) w p = run_commands-On cs _ (keeps_Post _ (run_command-Keeps c w p))

-- A control command for a run in memory, whose row agrees with its state, leaves the run in memory and
-- its row in agreement, also when it raises: an invalid transition, an invalid mode of a stop, a
-- malformed trace or payload.
pub apply_control-Agrees :
    (env : Env) (c : ControlCommand) (s : Session) (st : AgentState)
    → s.memory ≡ some st
    → s.row ≡ some st.run_state
    → let s' = (apply_control env c s).1 in
      (st' : AgentState) × (s'.memory ≡ some st') × (s'.row ≡ some st'.run_state)
unfolding apply_control
apply_control-Agrees env c s st m r = rw m (
    after_command (run_command env c (enter st s)) (
      run_command-Keeps env Agrees (λ row x p. rw p refl) (λ t row x p. p.0 ∙ ap some (sym p.1)) c
        (enter st s) r))
  where
    after_command :
        (x : Result (Unit {0}) × World)
        → Post (λ _. Agrees) Agrees x
        → let s' = (control_done x).1 in
          (st' : AgentState) × (s'.memory ≡ some st') × (s'.row ≡ some st'.run_state)
    after_command (ok d, w) p = (w.agent, refl, p)
    after_command (err e, w) p = (w.agent, refl, p)
