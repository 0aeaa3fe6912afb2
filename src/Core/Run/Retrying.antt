-- ===== src/Core/Run/Retrying.antt =====
-- The retry loop of a stage ends: it makes a limited number of passes, and what it returns does not depend
-- on the fuel once that is enough.
use neuronium.Prelude.{
  ℕ, zero, suc, ◌<◌, Bool, true, false, Option, some, ◌≡◌, refl, Dict, Result, ok, err, subst,
  ok-injective, arith, inl, inr, none, Bool-cases, Option-cases, Result-cases,
}
use neuronium.Prelude.Value.{Value, Fields}
use neuronium.Core.Gate.{
  DemoCriticVerdict, evaluate_gate, build_gate_snapshot, extract_verdict, critic_of,
}
use neuronium.Nodes.{NodeOutput, InterruptRequest}
use neuronium.Execution.Loop.{ExecutionOutcome}
use neuronium.Recovery.Policy.{
  RecoveryAction, RollbackScope, Failures, retry_stage, escalate, fail, replan, decide_recovery,
}
use neuronium.Recovery.Policy.Decisions.{decide_recovery_retry, decide_recovery_replan}
use neuronium.Core.Run.World.{World, Action, raise, ◌>>=◌}
use neuronium.Core.Run.Env.{Env}
use neuronium.Core.Run.Attempts.{StageRun, Attempt, Executed, stopped_early, executed}
use neuronium.Core.Run.Verdicts.{After, leave, next, again, stage_verdict, control_phase}
use neuronium.Core.Run.Execute.{execute_or_skip, execute_phase, close_execution}
use neuronium.Core.Run.Recover.{apply_action, recover_stage, pass_stage, fix_stage, wants_fix}
use neuronium.Core.Run.Adapt.{fail_stage, adapt_phase, judge, attempt_once, go_round, attempts}
use neuronium.Core.Run.Passes.{
  Returns, Gives, Gives-pure, Gives-if, Gives-bind, Gives-after, go_on_same, GateDone, NextDone,
  Fewer, passes_left, wants_fix-lt, Gives-fail, Gives-pause, Gives-pass, done_adapt, Gives-try,
  Returns-le, SnapshotOf, VerdictOf,
}

-- A pass that the loop asks for has one more fix or one more retry behind it.
module _ (env : Env) (sr : StageRun) (a : Attempt)
    (calm : env.recovery.allow_auto_replan ≡ false) where
  module _ (results : Dict NodeOutput) (verdict : Option DemoCriticVerdict) where
    Fewer-action :
        (failed : Failures) (critic : Bool) (scope : Option RollbackScope) (planner : Bool)
        (act : RecoveryAction)
        → let d =
            decide_recovery failed a.retry_count env.recovery critic a.history scope planner in
          d.action ≡ act → Gives (Fewer env a) (apply_action env sr a results verdict failed d act)
    unfolding apply_action
    Fewer-action failed critic scope planner fail e =
        Gives-fail env sr a results verdict (Fewer env a) tt _
    Fewer-action failed critic scope planner escalate e =
        Gives-pause env sr a results verdict (Fewer env a) tt _ _ _
    Fewer-action failed critic scope planner replan e =
        let p =
          (decide_recovery_replan failed a.retry_count env.recovery critic a.history scope
              planner).0
            e in
        absurd (cc (p.0, calm))
    Fewer-action failed critic scope planner retry_stage e =
        let p =
          (decide_recovery_retry failed a.retry_count env.recovery critic a.history scope planner).0
            e in
        Gives-pure (Fewer env a) _ (omega (arith, p.3))

    Fewer-recover : Gives (Fewer env a) (recover_stage env sr a results verdict)
    unfolding recover_stage
    Fewer-recover =
        Gives-bind _ _ _ λ scope.
          Gives-bind _ _ _ λ _. Gives-bind _ _ _ λ _. Fewer-action _ _ (some scope) _ _ refl

    Fewer-fix :
        wants_fix env sr a verdict ≡ true → Gives (Fewer env a) (fix_stage env sr a results verdict)
    unfolding fix_stage
    Fewer-fix e = Gives-bind _ _ _ λ _. Gives-pure (Fewer env a) _ (omega (arith, fixes_left e))
      where
        fixes_left :
            wants_fix env sr a verdict ≡ true → a.fix_attempts < env.max_verdict_fix_attempts
        fixes_left h = wants_fix-lt env sr a verdict h

    Fewer-fail : Gives (Fewer env a) (fail_stage env sr a results verdict)
    unfolding fail_stage
    Fewer-fail =
        Gives-if (Fewer env a) sr.stage.proceed_to_next_stage_on_fail _ _
          (λ _. Gives-bind _ _ _ (λ _. Gives-pure (Fewer env a) _ tt))
          (λ _.
            Gives-if (Fewer env a) (wants_fix env sr a verdict) (fix_stage env sr a results verdict)
              (recover_stage env sr a results verdict) Fewer-fix (λ _. Fewer-recover))

    Fewer-adapt :
        (snapshot : Value) → Gives (Fewer env a) (adapt_phase env sr a results snapshot verdict)
    unfolding adapt_phase
    Fewer-adapt snapshot = Gives-bind _ _ _ λ _. Gives-bind _ _ _ λ found. Gives-bind _ _ _ λ _.
        Gives-if (Fewer env a) (evaluate_gate results sr.stage.success_gate verdict found)
          (pass_stage env sr results verdict) (fail_stage env sr a results verdict)
          (λ _. Gives-pass env sr a results verdict (Fewer env a) tt tt) (λ _. Fewer-fail)

  Fewer-judge : (e : Executed) → Gives (Fewer env a) (judge env sr a e)
  unfolding judge
  Fewer-judge stopped_early = Gives-pure (Fewer env a) leave tt
  Fewer-judge (executed results snapshot) =
      Gives-bind _ _ _ (λ verdict. Fewer-adapt results verdict snapshot)

  pub Fewer-attempt : (builder : Fields) → Gives (Fewer env a) (attempt_once env sr builder a)
  unfolding attempt_once
  Fewer-attempt builder = Gives-bind _ _ _ Fewer-judge

module _ (env : Env) (sr : StageRun) (builder : Fields) where
  -- What the execute phase hands on.
  abbrev Handed : Attempt → Executed → Type 0
  Handed a stopped_early = Unit {0}
  Handed a (executed results snapshot) = SnapshotOf env sr a results snapshot

  done_close :
      (a : Attempt) (o : ExecutionOutcome) (request : Option InterruptRequest)
      → Gives (Handed a) (close_execution env sr a o request)
  unfolding close_execution
  done_close a o none =
      Gives-after
        (λ fs.
          build_gate_snapshot env.json_loads env.as_verdict o.results sr.stage.success_gate ≡ ok fs)
        _ _ _ (Gives-try _)
        (λ fs built. Gives-bind _ _ _ λ _. Gives-pure (Handed a) _ (inl (fs, built, refl)))
  done_close a o (some request) =
      Gives-bind (Handed a) _ _ (λ _. Gives-pure (Handed a) stopped_early tt)

  done_execute : (a : Attempt) → Gives (Handed a) (execute_or_skip env sr builder a)
  unfolding execute_or_skip execute_phase
  done_execute a =
      Gives-if (Handed a) a.skip_execute _ _ (λ e. Gives-pure (Handed a) _ (inr (e, refl, refl)))
        (λ _.
          Gives-bind _ _ _
            λ _. Gives-bind _ _ _ λ _. Gives-bind _ _ _ λ o. done_close a o o.interrupted)

  stage_verdict-VerdictOf :
      (a : Attempt) (results : Dict NodeOutput) (snapshot : Value)
      (verdict : Option DemoCriticVerdict)
      → stage_verdict env sr a results snapshot ≡ ok verdict
      → VerdictOf env sr a results snapshot verdict
  unfolding stage_verdict
  stage_verdict-VerdictOf a results snapshot verdict h = elim (Bool-cases a.skip_execute) [
    | inl skipped ↦ inr (inr (skipped, h))
    | inr live ↦ elim (Option-cases (critic_of sr.stage.success_gate)) [
      | inl none_named ↦ inl (inl (none_named, ground (arith, none_named, h)))
      | inr (critic, named) ↦
          elim (Result-cases (extract_verdict env.json_loads env.as_verdict results critic)) [
            | inl (v, good) ↦
                inl (inr (critic, v, (named, good, ground (arith, named, live, good, h))))
            | inr (e, bad) ↦ absurd (ground (arith, named, live, bad, h))
          ]
    ]
  ]

  done_control :
      (a : Attempt) (results : Dict NodeOutput) (snapshot : Value)
      → Gives (VerdictOf env sr a results snapshot) (control_phase env sr a results snapshot)
  unfolding control_phase
  done_control a results snapshot =
      Gives-if (VerdictOf env sr a results snapshot) a.skip_control _ _
        (λ e. Gives-pure (VerdictOf env sr a results snapshot) a.verdict (inr (inl (e, refl))))
        (λ _. Gives-bind _ _ _ λ _.
          Gives-after (λ verdict. stage_verdict env sr a results snapshot ≡ ok verdict) _ _ _
            (Gives-try _)
            (λ verdict said. Gives-bind _ _ _ λ _. Gives-bind _ _ _ λ _.
              Gives-pure (VerdictOf env sr a results snapshot) verdict
                (stage_verdict-VerdictOf a results snapshot verdict said)))

  done_judge :
      (a : Attempt) (e : Executed) → Handed a e → Gives (NextDone env sr a) (judge env sr a e)
  unfolding judge
  done_judge a stopped_early q = Gives-pure (NextDone env sr a) leave tt
  done_judge a (executed results snapshot) q =
      Gives-after (VerdictOf env sr a results snapshot) _ _ _ (done_control a results snapshot)
        (λ verdict said. done_adapt env sr a results verdict snapshot q said)

  done_attempt : (a : Attempt) → Gives (NextDone env sr a) (attempt_once env sr builder a)
  unfolding attempt_once
  done_attempt a = Gives-after (Handed a) (NextDone env sr a) _ _ (done_execute a) (done_judge a)

  -- A pass that skips nothing has judged by its own results.
  done_later :
      (a a' : Attempt) (x : After)
      → NextDone env sr a (again a')
      → NextDone env sr a' x
      → NextDone env sr a x
  done_later a a' leave q h = tt
  done_later a a' (again a'') q h = h
  done_later a a' (next results verdict) q (inl flag) = inl flag
  done_later a a' (next results verdict) q (inr (snapshot, found, (seen, said, read, passed))) =
      let seen' : SnapshotOf env sr a results snapshot = elim seen [
        | inl built ↦ inl built
        | inr (skipped, _, _) ↦ absurd (cc (q.0, skipped))
      ] in
      let said' : VerdictOf env sr a results snapshot verdict = elim said [
        | inl live ↦ inl live
        | inr (inl (skipped, _)) ↦ absurd (cc (q.1, skipped))
        | inr (inr (skipped, _)) ↦ absurd (cc (q.0, skipped))
      ] in
      inr (snapshot, found, (seen', said', read, passed))

  done_round :
      (a : Attempt) (rest : Attempt → Action After) (x : After)
      → NextDone env sr a x
      → ((a' : Attempt) → Gives (NextDone env sr a') (rest a'))
      → Gives (NextDone env sr a) (go_round env rest x)
  done_round a rest leave q h w = Gives-pure (NextDone env sr a) leave tt w
  done_round a rest (next results verdict) q h w =
      Gives-pure (NextDone env sr a) (next results verdict) q w
  done_round a rest (again a') q h w =
      Returns-le _ _ (rest a' w) (λ x. done_later a a' x q) (h a' w)

  done_attempts :
      (fuel : ℕ) (a : Attempt) → Gives (NextDone env sr a) (attempts env fuel sr builder a)
  unfolding attempts raise
  done_attempts zero a w = tt
  done_attempts (suc fuel) a w =
      Gives-after (NextDone env sr a) (NextDone env sr a) _ _ (done_attempt a)
        (λ x q. done_round a _ x q (done_attempts fuel)) w

  pub attempts-GateDone :
      (fuel : ℕ) (a : Attempt) (w : World) (results : Dict NodeOutput)
      (verdict : Option DemoCriticVerdict)
      → (attempts env fuel sr builder a w).0 ≡ ok (next results verdict)
      → GateDone env sr a results verdict
  attempts-GateDone fuel a w results verdict e =
      returned (attempts env fuel sr builder a w) e (done_attempts fuel a w)
    where
      returned :
          (r : Result After × World)
          → r.0 ≡ ok (next results verdict)
          → Returns (NextDone env sr a) r
          → GateDone env sr a results verdict
      returned (ok x, w1) e q =
          let same : x ≡ next results verdict = ok-injective e in subst (NextDone env sr a) same q
      returned (err f, w1) e q = absurd (cc e)

  same_round :
      (f g : Attempt → Action After) (a : Attempt) (x : After) (w : World)
      → Fewer env a x
      → ((a' : Attempt) → passes_left env a' < passes_left env a → f a' w ≡ g a' w)
      → go_round env f x w ≡ go_round env g x w
  same_round f g a leave w q h = refl
  same_round f g a (next results verdict) w q h = refl
  same_round f g a (again a') w q h = h a' q

  -- Without automatic replanning, the retry loop of a stage needs at most as much fuel as there are
  -- fixes and retries left, and one: with more it returns, raises and leaves behind just the same.
  pub attempts-same :
      (f g : ℕ) (a : Attempt) (w : World)
      → env.recovery.allow_auto_replan ≡ false
      → passes_left env a < f
      → passes_left env a < g
      → attempts env f sr builder a w ≡ attempts env g sr builder a w
  unfolding attempts ◌>>=◌
  attempts-same zero g a w calm p q = absurd (omega arith)
  attempts-same (suc f) zero a w calm p q = absurd (omega arith)
  attempts-same (suc f) (suc g) a w calm p q =
      go_on_same (Fewer env a) _ _ _ (Fewer-attempt env sr a calm builder w) λ x w1 less.
        same_round _ _ a x w1 less
          (λ a' l. attempts-same f g a' w1 calm (omega (arith, l)) (omega (arith, l)))
