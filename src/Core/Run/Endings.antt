-- ===== src/Core/Run/Endings.antt =====
-- How the parts of a stage leave the state of the run and its row: a part that ends the run has moved
-- both to the same final or paused state, any other keeps the row.
use neuronium.Prelude.{
  ℕ, ◌+◌, String, Bool, true, false, Option, none, some, ◌≡◌, refl, is_some, Dict, Result,
  if◌then◌else◌, arith,
}
use neuronium.Prelude.Value.{Value, Fields}
use neuronium.Core.State.{RunState}
use neuronium.Core.Gate.{DemoCriticVerdict}
use neuronium.Nodes.{
  NodeOutput, InterruptRequest, InterruptMode, InterruptCommand, pause, stop, graceful, immediate,
}
use neuronium.Planning.Dag.{ActionGraph}
use neuronium.Execution.Loop.{ExecutionOutcome}
use neuronium.Core.Run.World.{Action, pure, modify, ◌>>=◌, ◌>>◌, move_to, update_run_state}
use neuronium.Core.Run.Env.{
  Env, DynamicPlannerSpec, PlannerRequest, PlannerEscalation, PlannerOutcome, planned, escalated,
}
use neuronium.Core.Run.Planner.{
  ask_backend, plan_dynamic_graph, pause_for_planner_escalation, need_intention, conclude_planning,
}
use neuronium.Core.Run.Attempts.{
  StageRun, Attempt, Executed, stopped_early, executed, run_graph, inject_replay, take_commands,
}
use neuronium.Core.Run.Execute.{
  on_pause, on_stop, on_interrupt, full_checkpoint, stop_checkpoint, on_command, close_execution,
}
use neuronium.Core.Run.Verdicts.{After, leave, next, again}
use neuronium.Core.Run.Rules.{
  Pred, On, HasRow, Moved, Settled, Post, Does, Steady, Keeps, bind, steady, Steady-bind,
  Keeps-Steady, Keeps-bind, Steady-modify, move_to-Moved, update_run_state-Settled, steady_rules,
  Steady-call, Steady-pure, Steady-event, Steady-gets, Steady-all,
}
use neuronium.Core.Run.Commands.{
  weaken, Steady-checkpoint, Steady-control_decision, run_commands-On,
}

abbrev pub is_live : RunState → Bool
is_live RunState.pending = true
is_live RunState.running = true
is_live _ = false

-- The run is over or paused, and the store says so.
abbrev pub Ended : Pred
Ended row s = (row ≡ some s) × (is_live s ≡ false)

abbrev pub Closed : After → Pred
Closed leave = Ended
Closed (next results verdict) = HasRow
Closed (again a) = HasRow

abbrev pub Never : Pred
Never row s = ⊥

-- The same for the whole retry loop, which does not ask to go on.
abbrev pub Over : After → Pred
Over leave = Ended
Over (next results verdict) = HasRow
Over (again a) = Never

-- Actions that are known to end the run, whatever they return.
abbrev pub Ends {ℓ} : {A : Type ℓ} → (A → Pred) → Action A → Type 0
Ends Q m = Does Ended m Q HasRow

abbrev pub Leads {ℓ} : {A : Type ℓ} → (A → Pred) → Action A → Type 0
Leads Q m = Does HasRow m Q HasRow

pub there : (row : Option RunState) (s : RunState) → HasRow row s → is_some row ≡ true
there row s p = p

pub settled-HasRow :
    (target : RunState) (row : Option RunState) (s : RunState) → Settled target row s → HasRow row s
settled-HasRow target row s p = rw p.0 refl

ended-HasRow : (row : Option RunState) (s : RunState) → Ended row s → HasRow row s
ended-HasRow row s p = rw p.0 refl

module _ {ℓ κ} {A : Type ℓ} {B : Type κ} where
  pub Leads-bind :
      (Q : B → Pred) (m : Action A) (f : A → Action B)
      → Keeps HasRow m
      → ((a : A) → Leads Q (f a))
      → Leads Q (m >>= f)
  Leads-bind Q m f p h = bind HasRow HasRow (λ _. HasRow) Q m f p h

  pub Leads-Steady :
      (Q : B → Pred) (m : Action A) (f : A → Action B)
      → Steady m
      → ((a : A) → Leads Q (f a))
      → Leads Q (m >>= f)
  Leads-Steady Q m f p h = Leads-bind Q m f (Keeps-Steady HasRow m p) h

  pub Ends-bind :
      (Q : B → Pred) (m : Action A) (f : A → Action B)
      → Steady m
      → ((a : A) → Ends Q (f a))
      → Ends Q (m >>= f)
  Ends-bind Q m f p h =
      bind Ended HasRow (λ _. Ended) Q m f (steady Ended HasRow ended-HasRow m p) h

module _ {ℓ} {A : Type ℓ} where
  pub goes :
      (Q : A → Pred) (target : RunState) (message : String) (rest : Action A)
      → is_live target ≡ false
      → Ends Q rest
      → Leads Q (move_to target message >> (update_run_state target >> rest))
  goes Q target message rest dead h =
      bind HasRow HasRow (λ _. Moved target) Q (move_to target message) (λ _. _)
        (move_to-Moved target message HasRow there)
        λ _.
          bind (Moved target) HasRow (λ _. Settled target) Q (update_run_state target) (λ _. rest)
            (update_run_state-Settled target HasRow) λ _ w p. h w (rw p.1 (p.0, dead))

  pub Leads-if :
      (Q : A → Pred) (b : Bool) (m k : Action A)
      → Leads Q m
      → Leads Q k
      → Leads Q (if b then m else k)
  Leads-if Q true m k h j = h
  Leads-if Q false m k h j = j

  pub Leads-Keeps : (m : Action A) → Keeps HasRow m → Leads (λ _. HasRow) m
  Leads-Keeps m h = h

  pub Ends-Steady : (m : Action A) → Steady m → Ends (λ _. Ended) m
  Ends-Steady m h = steady Ended HasRow ended-HasRow m h

  pub keeps : (m : Action A) → Steady m → Keeps HasRow m
  keeps m h = Keeps-Steady HasRow m h

pub Ends-leave : Ends Closed (pure leave)
unfolding pure
Ends-leave w p = p

pub Leads-next :
    (results : Dict NodeOutput) (verdict : Option DemoCriticVerdict)
    → Leads Closed (pure (next results verdict))
unfolding pure
Leads-next results verdict w p = p

pub Leads-again : (a : Attempt) → Leads Closed (pure (again a))
unfolding pure
Leads-again a w p = p

pub Ends-over : Ends Over (pure leave)
unfolding pure
Ends-over w p = p

pub over_next :
    (results : Dict NodeOutput) (verdict : Option DemoCriticVerdict)
    → Leads Over (pure (next results verdict))
unfolding pure
over_next results verdict w p = p

pub Steady-intention : Steady need_intention
Steady-intention w = (refl, refl)

pub ruleset lead_rules = (
  Leads-bind, Ends-bind, goes, Leads-if, Leads-next, Leads-again, Ends-leave, keeps, steady_rules,
  Steady-checkpoint, Steady-control_decision, Steady-intention,
)

module _ (env : Env) where
  pub Steady-backend : (request : PlannerRequest) → Steady (ask_backend env request)
  unfolding ask_backend
  Steady-backend request = Steady-bind _ _ (Steady-gets _) λ n.
      Steady-bind _ _ (Steady-modify _ (λ w. (refl, refl)))
        λ _. Steady-bind _ _ (Steady-all _) (λ _. Steady-call _)

  pub pause_for_planner-Ends :
      (iteration : ℕ) (runbook_id : String) (metadata : Fields) (stage_id : String)
      (stage_index : ℕ) (e : PlannerEscalation)
      → Leads
          (λ _. Ended)
          (pause_for_planner_escalation env iteration runbook_id metadata stage_id stage_index e)
  unfolding pause_for_planner_escalation
  pause_for_planner-Ends iteration runbook_id metadata stage_id stage_index e =
      search (Leads-bind, goes, keeps, steady_rules, Ends-Steady, Steady-checkpoint, arith) depth 12

  Steady-conclude :
      (runbook_id stage_id : String) (spec : DynamicPlannerSpec) (o : PlannerOutcome)
      → Steady (conclude_planning env runbook_id stage_id spec o)
  unfolding conclude_planning
  Steady-conclude runbook_id stage_id spec (escalated e) = search (steady_rules)
  Steady-conclude runbook_id stage_id spec (planned r) = search (steady_rules)

  pub Steady-planning :
      (runbook_id stage_id : String) (metadata : Fields) (spec : DynamicPlannerSpec)
      → Steady (plan_dynamic_graph env runbook_id stage_id metadata spec)
  unfolding plan_dynamic_graph
  Steady-planning runbook_id stage_id metadata spec =
      search (steady_rules, Steady-intention, Steady-backend, Steady-conclude) depth 14

  Steady-inject :
      (o : Option (ActionGraph → Result Fields)) (g : ActionGraph) → Steady (inject_replay o g)
  unfolding inject_replay
  Steady-inject none g w = Steady-pure (tt {0}) w
  Steady-inject (some inject) g w =
      Steady-bind _ _ (Steady-call _) (λ report. Steady-event "decision" _) w

  Keeps-commands : (n : ℕ) → Keeps HasRow (take_commands env n)
  unfolding take_commands modify
  Keeps-commands n w p = run_commands-On env HasRow there settled-HasRow (env.arrivals n) w p

  Keeps-count : (n : ℕ) → Keeps HasRow (modify (λ w. record w { executions = n }))
  Keeps-count n = keeps _ (Steady-modify _ (λ w. (refl, refl)))

  pub Keeps-graph :
      (g : ActionGraph) (inputs : Fields) (initial : Dict NodeOutput) (model : Option String)
      → Keeps HasRow (run_graph env g inputs initial model)
  unfolding run_graph
  Keeps-graph g inputs initial model = Leads-Steady _ _ _ (Steady-gets _) λ n.
      Leads-bind _ _ _ (Keeps-count (n + 1)) λ _.
        Leads-Steady _ _ _ (Steady-inject env.injection g) λ _.
          Leads-Steady _ _ _ Steady-intention λ i. Leads-Steady _ _ _ (Steady-gets _) λ before.
            Leads-bind _ _ _ (Keeps-commands n) λ _. Leads-Steady _ _ _ (Steady-gets _) λ after.
              Leads-Steady _ _ _ (Steady-all (env.node_events n))
                λ _. keeps _ (search (steady_rules))

  -- A stage's interrupted execution ends the run.
  module _ (sr : StageRun) (a : Attempt) where
    pub Steady-full : (o : ExecutionOutcome) → Steady (full_checkpoint env sr a o)
    Steady-full o = Steady-bind _ _ (Steady-call _) (λ snapshot. Steady-checkpoint env _ _ _)

    pub Steady-stop_checkpoint :
        (o : ExecutionOutcome) (mode : InterruptMode) → Steady (stop_checkpoint env sr a o mode)
    unfolding stop_checkpoint
    Steady-stop_checkpoint o graceful = Steady-full o
    Steady-stop_checkpoint o immediate = Steady-checkpoint env _ _ _

    on_command-Ended :
        (o : ExecutionOutcome) (mode : InterruptMode) (c : InterruptCommand)
        → Leads (λ _. Ended) (on_command env sr a o mode c)
    unfolding on_command on_pause on_stop
    on_command-Ended o mode pause =
        Leads-Steady _ _ _ (Steady-full o)
          λ _. goes _ _ _ _ refl (Ends-Steady _ (Steady-control_decision env _ _))
    on_command-Ended o mode stop =
        Leads-Steady _ _ _ (Steady-stop_checkpoint o mode)
          λ _. goes _ _ _ _ refl (Ends-Steady _ (Steady-control_decision env _ _))

    -- What an execution leaves, by how it ended.
    abbrev pub Stops : Executed → Pred
    Stops stopped_early = Ended
    Stops (executed results snapshot) = HasRow

    pub Leads-executed :
        (results : Dict NodeOutput) (snapshot : Value)
        → Leads Stops (pure (executed results snapshot))
    unfolding pure
    Leads-executed results snapshot w p = p

    Ends-stopped : Ends Stops (pure stopped_early)
    unfolding pure
    Ends-stopped w p = p

    pub close-Stops :
        (o : ExecutionOutcome) (r : Option InterruptRequest)
        → Leads Stops (close_execution env sr a o r)
    unfolding close_execution on_interrupt
    close-Stops o none =
        Leads-Steady _ _ _ (Steady-call _)
          λ snapshot. Leads-Steady _ _ _ (Steady-checkpoint env _ _ _) λ _. Leads-executed _ _
    close-Stops o (some request) =
        bind HasRow HasRow (λ _. Ended) _ _ _
          (bind HasRow HasRow (λ _. Ended) (λ _. Ended) _ _
            (on_command-Ended o request.mode request.command)
            λ _. Ends-Steady _ (Steady-modify _ (λ w. (refl, refl))))
          λ _. Ends-stopped
