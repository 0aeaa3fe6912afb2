-- ===== src/Core/Run/Passes.antt =====
-- What one pass of a stage's retry loop returns: the loop goes on only while retries or fixes are left,
-- and a stage is done only when its gate passes or it may be skipped.
use neuronium.Prelude.{
  ℕ, ◌+◌, ◌-◌, ◌<◌, String, Bool, true, false, Option, none, some, ◌≡◌, refl, Dict, Error, Result,
  ok, err, if◌then◌else◌, arith, ◌⊎◌, inl, inr,
}
use neuronium.Prelude.Value.{Value, Fields, obj}
use neuronium.Core.Gate.{
  DemoCriticVerdict, evaluate_gate, build_gate_snapshot, extract_verdict, critic_of,
}
use neuronium.Nodes.{NodeOutput}
use neuronium.Recovery.Policy.{
  RecoveryDecision, RecoveryAction, Failures, retry_stage, escalate, fail, replan,
}
use neuronium.Core.Run.World.{World, Action, pure, try_call, go_on, ◌>>=◌}
use neuronium.Core.Run.Env.{Env, DynamicPlannerSpec, PlannerOutcome, planned, escalated}
use neuronium.Core.Run.Attempts.{StageRun, Attempt, resumed_value}
use neuronium.Core.Run.Verdicts.{After, leave, next, again, snapshot_fields, stage_verdict}
use neuronium.Core.Run.Recover.{
  pass_stage, fail_run, pause_run, take_plan, replan_stage, apply_action, recover_stage, fix_stage,
  wants_fix,
}
use neuronium.Core.Run.Adapt.{fail_stage, adapt_phase}

module _ {ℓ} {A : Type ℓ} where
  abbrev pub Returns : (A → Type 0) → Result A × World → Type 0
  Returns Q (ok a, w) = Q a
  Returns Q (err e, w) = Unit {0}

  -- Whatever the action returns satisfies Q.
  abbrev pub Gives : (A → Type 0) → Action A → Type 0
  Gives Q m = (w : World) → Returns Q (m w)

  pub Returns-le :
      (P Q : A → Type 0) (r : Result A × World) → ((a : A) → P a → Q a) → Returns P r → Returns Q r
  Returns-le P Q (ok a, w) h p = h a p
  Returns-le P Q (err e, w) h p = tt

  pub Gives-pure : (Q : A → Type 0) (a : A) → Q a → Gives Q (pure a)
  unfolding pure
  Gives-pure Q a q w = q

  pub Gives-if :
      (Q : A → Type 0) (b : Bool) (m k : Action A)
      → (b ≡ true → Gives Q m)
      → (b ≡ false → Gives Q k)
      → Gives Q (if b then m else k)
  Gives-if Q true m k h j = h refl
  Gives-if Q false m k h j = j refl

module _ {ℓ κ} {A : Type ℓ} {B : Type κ} where
  Returns-bind :
      (Q : B → Type 0) (r : Result A × World) (f : A → Action B)
      → ((a : A) → Gives Q (f a))
      → Returns Q (go_on r f)
  Returns-bind Q (ok a, w) f h = h a w
  Returns-bind Q (err e, w) f h = tt

  pub Gives-bind :
      (Q : B → Type 0) (m : Action A) (f : A → Action B)
      → ((a : A) → Gives Q (f a))
      → Gives Q (m >>= f)
  unfolding ◌>>=◌
  Gives-bind Q m f h w = Returns-bind Q (m w) f h

  pub go_on_same :
      (Q : A → Type 0) (r : Result A × World) (f g : A → Action B)
      → Returns Q r
      → ((a : A) (w : World) → Q a → f a w ≡ g a w)
      → go_on r f ≡ go_on r g
  go_on_same Q (ok a, w) f g q h = h a w q
  go_on_same Q (err e, w) f g q h = refl

  Returns-after :
      (P : A → Type 0) (Q : B → Type 0) (r : Result A × World) (f : A → Action B)
      → Returns P r
      → ((a : A) → P a → Gives Q (f a))
      → Returns Q (go_on r f)
  Returns-after P Q (ok a, w) f p h = h a p w
  Returns-after P Q (err e, w) f p h = tt

  pub Gives-after :
      (P : A → Type 0) (Q : B → Type 0) (m : Action A) (f : A → Action B)
      → Gives P m
      → ((a : A) → P a → Gives Q (f a))
      → Gives Q (m >>= f)
  unfolding ◌>>=◌
  Gives-after P Q m f p h w = Returns-after P Q (m w) f (p w) h

-- What a call returns is its value.
pub Gives-try : {A : Type 0} → (r : Result A) → Gives (λ a. r ≡ ok a) (try_call r)
unfolding try_call
Gives-try (ok a) w = refl
Gives-try (err Error.value_error) w = tt
Gives-try (err Error.key_error) w = tt
Gives-try (err Error.runtime_error) w = tt
Gives-try (err Error.type_error) w = tt
Gives-try (err Error.attribute_error) w = tt
Gives-try (err Error.out_of_fuel) w = tt
Gives-try (err Error.unbound_local_error) w = tt
Gives-try (err Error.patch_error) w = tt
Gives-try (err Error.checkpoint_error) w = tt
Gives-try (err Error.replay_error) w = tt

-- The snapshot by which a pass judges its gate: the one that is built from the results, or the one of
-- the checkpoint, if the pass has skipped its execution.
abbrev pub SnapshotOf : Env → StageRun → Attempt → Dict NodeOutput → Value → Type 0
SnapshotOf env sr a results snapshot =
    ((fs : Fields) × (build_gate_snapshot env.json_loads env.as_verdict results
          sr.stage.success_gate
        ≡ ok fs)
      × (snapshot ≡ obj fs))
    ⊎ ((a.skip_execute ≡ true)
        × (results ≡ a.results)
        × (snapshot ≡ resumed_value "gate_snapshot" sr))

-- A verdict that was extracted from the results, if the gate names a critic.
abbrev pub LiveVerdict : Env → StageRun → Dict NodeOutput → Option DemoCriticVerdict → Type 0
LiveVerdict env sr results verdict =
    ((critic_of sr.stage.success_gate ≡ none) × (verdict ≡ none))
    ⊎ ((critic : String) × (v : DemoCriticVerdict) × ((critic_of sr.stage.success_gate
            ≡ some critic)
          × (extract_verdict env.json_loads env.as_verdict results critic ≡ ok v)
          × (verdict ≡ some v)))

-- The verdict by which a pass judges its gate.
abbrev pub VerdictOf :
    Env → StageRun → Attempt → Dict NodeOutput → Value → Option DemoCriticVerdict → Type 0
VerdictOf env sr a results snapshot verdict =
    LiveVerdict env sr results verdict
    ⊎ ((a.skip_control ≡ true) × (verdict ≡ a.verdict))
    ⊎ ((a.skip_execute ≡ true) × (stage_verdict env sr a results snapshot ≡ ok verdict))

-- The gate has passed, or the stage may be left with a failed gate.
abbrev pub GateDone : Env → StageRun → Attempt → Dict NodeOutput → Option DemoCriticVerdict → Type 0
GateDone env sr a results verdict =
    (sr.stage.proceed_to_next_stage_on_fail ≡ true)
    ⊎ ((snapshot : Value) × (found : Option Fields) × (SnapshotOf env sr a results snapshot
          × VerdictOf env sr a results snapshot verdict
          × (snapshot_fields snapshot ≡ ok found)
          × (evaluate_gate results sr.stage.success_gate verdict found ≡ true)))

-- How many more passes the retry loop may ask for.
abbrev pub passes_left : Env → Attempt → ℕ
passes_left env a =
    (env.max_verdict_fix_attempts - a.fix_attempts)
    + (env.recovery.max_stage_retries - a.retry_count)

-- A stage that is done has passed its gate; the next pass skips nothing.
abbrev pub NextDone : Env → StageRun → Attempt → After → Type 0
NextDone env sr a (next results verdict) = GateDone env sr a results verdict
NextDone env sr a (again a') = (a'.skip_execute ≡ false) × (a'.skip_control ≡ false)
NextDone env sr a leave = Unit {0}

abbrev pub Fewer : Env → Attempt → After → Type 0
Fewer env a (again a') = passes_left env a' < passes_left env a
Fewer env a _ = Unit {0}

module _ (env : Env) (sr : StageRun) (a : Attempt) (results : Dict NodeOutput)
    (verdict : Option DemoCriticVerdict) where
  -- Nothing that leaves the run, or only goes on, returns a finished stage.
  module _ (Q : After → Type 0) (left : Q leave) where
    pub Gives-fail : (d : RecoveryDecision) → Gives Q (fail_run env sr results d)
    unfolding fail_run
    Gives-fail d = Gives-bind Q _ _ λ _. Gives-bind Q _ _ λ _.
        Gives-bind Q _ _ λ _. Gives-bind Q _ _ λ _. Gives-bind Q _ _ λ _. Gives-pure Q leave left

    pub Gives-pause :
        (title : String) (context : Fields) (d : RecoveryDecision)
        → Gives Q (pause_run env title context sr a results d)
    unfolding pause_run
    Gives-pause title context d = Gives-bind Q _ _ λ _. Gives-bind Q _ _ λ _.
        Gives-bind Q _ _ λ _. Gives-bind Q _ _ λ _. Gives-bind Q _ _ λ _. Gives-pure Q leave left

    pub Gives-pass : Q (next results verdict) → Gives Q (pass_stage env sr results verdict)
    unfolding pass_stage
    Gives-pass q =
        Gives-if Q sr.stage.exit_run_on_success _ _
          (λ _. Gives-bind Q _ _ (λ _. Gives-pure Q leave left))
          (λ _. Gives-pure Q (next results verdict) q)

    Gives-take :
        ((a' : Attempt) → a'.skip_execute ≡ false → a'.skip_control ≡ false → Q (again a'))
        → (d : RecoveryDecision) (o : PlannerOutcome) → Gives Q (take_plan env sr a verdict d o)
    unfolding take_plan
    Gives-take q d (escalated e) = Gives-bind Q _ _ (λ _. Gives-pure Q leave left)
    Gives-take q d (planned r) =
        Gives-bind Q _ _ λ _. Gives-bind Q _ _ λ _. Gives-pure Q _ (q _ refl refl)

    Gives-replan :
        ((a' : Attempt) → a'.skip_execute ≡ false → a'.skip_control ≡ false → Q (again a'))
        → (failed : Failures) (d : RecoveryDecision) (spec : Option DynamicPlannerSpec)
        → Gives Q (replan_stage env sr a results verdict failed d spec)
    unfolding replan_stage
    Gives-replan q failed d none = Gives-pause _ _ d
    Gives-replan q failed d (some spec) = Gives-bind Q _ _ (λ o. Gives-take q d o)

  done_action :
      (failed : Failures) (d : RecoveryDecision) (act : RecoveryAction)
      → Gives (NextDone env sr a) (apply_action env sr a results verdict failed d act)
  unfolding apply_action
  done_action failed d fail = Gives-fail (NextDone env sr a) tt d
  done_action failed d escalate = Gives-pause (NextDone env sr a) tt _ _ d
  done_action failed d replan = Gives-replan (NextDone env sr a) tt (λ a' e c. (e, c)) failed d _
  done_action failed d retry_stage = Gives-pure (NextDone env sr a) _ (refl, refl)

  done_recover : Gives (NextDone env sr a) (recover_stage env sr a results verdict)
  unfolding recover_stage
  done_recover =
      Gives-bind _ _ _ λ scope. Gives-bind _ _ _ λ _. Gives-bind _ _ _ λ _. done_action _ _ _

  done_fix : Gives (NextDone env sr a) (fix_stage env sr a results verdict)
  unfolding fix_stage
  done_fix = Gives-bind _ _ _ (λ _. Gives-pure (NextDone env sr a) _ (refl, refl))

  done_fail : Gives (NextDone env sr a) (fail_stage env sr a results verdict)
  unfolding fail_stage
  done_fail =
      Gives-if (NextDone env sr a) sr.stage.proceed_to_next_stage_on_fail _ _
        (λ e. Gives-bind _ _ _ (λ _. Gives-pure (NextDone env sr a) _ (inl e)))
        (λ _.
          Gives-if (NextDone env sr a) (wants_fix env sr a verdict) _ _ (λ _. done_fix)
            (λ _. done_recover))

  pub done_adapt :
      (snapshot : Value)
      → SnapshotOf env sr a results snapshot
      → VerdictOf env sr a results snapshot verdict
      → Gives (NextDone env sr a) (adapt_phase env sr a results snapshot verdict)
  unfolding adapt_phase
  done_adapt snapshot seen said = Gives-bind _ _ _ λ _.
      Gives-after (λ found. snapshot_fields snapshot ≡ ok found) _ _ _
        (Gives-try (snapshot_fields snapshot))
        (λ found read. Gives-bind _ _ _ λ _.
          Gives-if (NextDone env sr a) (evaluate_gate results sr.stage.success_gate verdict found)
            (pass_stage env sr results verdict) (fail_stage env sr a results verdict)
            (λ e. Gives-pass (NextDone env sr a) tt (inr (snapshot, found, (seen, said, read, e))))
            (λ _. done_fail))

pub wants_fix-lt :
    (env : Env) (sr : StageRun) (a : Attempt) (verdict : Option DemoCriticVerdict)
    → wants_fix env sr a verdict ≡ true
    → a.fix_attempts < env.max_verdict_fix_attempts
unfolding wants_fix
wants_fix-lt env sr a verdict h = ground (arith, h)
