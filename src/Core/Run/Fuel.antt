-- ===== src/Core/Run/Fuel.antt =====
-- How much fuel a run of a runbook needs.
use neuronium.Prelude.{
  ℕ, ◌+◌, ◌<◌, String, Bool, true, false, not, ◌&&◌, Option, none, some, List, [], ◌∷◌, ◌≡◌, refl,
  ap, ◌∙◌, Dict, Result, ok, err, if◌then◌else◌, arith, ltb, is_some,
}
use neuronium.Prelude.Value.{Fields}
use neuronium.Core.Gate.{DemoCriticVerdict}
use neuronium.Nodes.{NodeOutput}
use neuronium.Planning.Dag.{ActionGraph}
use neuronium.Core.Run.World.{World, Action, go_on, ◌>>=◌}
use neuronium.Core.Run.Env.{Env, ActionGraphStage, BuilderContext}
use neuronium.Core.Run.Attempts.{StageRun}
use neuronium.Core.Run.Verdicts.{After, leave, next, again}
use neuronium.Core.Run.Resume.{StageBuilder, resuming}
use neuronium.Core.Run.Runbook.{
  attempt_stage, run_stage, go_to_next, run_stages, run_found, runbook_body, handle, run_runbook,
}
use neuronium.Core.Run.Retrying.{attempts-same}

module _ {ℓ κ} {A : Type ℓ} {B : Type κ} where
  go_on_ext :
      (r : Result A × World) (f g : A → Action B)
      → ((a : A) (w : World) → f a w ≡ g a w)
      → go_on r f ≡ go_on r g
  go_on_ext (ok a, w) f g h = h a w
  go_on_ext (err e, w) f g h = refl

  same_bind :
      (m : Action A) (f g : A → Action B)
      → ((a : A) (w : World) → f a w ≡ g a w)
      → (w : World) → (m >>= f) w ≡ (m >>= g) w
  unfolding ◌>>=◌
  same_bind m f g h w = go_on_ext (m w) f g h

  same_both :
      (m m' : Action A) (f g : A → Action B)
      → ((w : World) → m w ≡ m' w)
      → ((a : A) (w : World) → f a w ≡ g a w)
      → (w : World) → (m >>= f) w ≡ (m' >>= g) w
  unfolding ◌>>=◌
  same_both m m' f g e h w = ap (λ (r : Result A × World). go_on r f) (e w) ∙ go_on_ext (m' w) f g h

same_if {ℓ} :
    {A : Type ℓ} (b : Bool) (m k k' : Action A)
    → ((w : World) → k w ≡ k' w)
    → (w : World) → (if b then m else k) w ≡ (if b then m else k') w
same_if true m k k' h w = refl
same_if false m k k' h w = h w

same_if_both {ℓ} :
    {A : Type ℓ} (b : Bool) (m m' k k' : Action A)
    → ((w : World) → m w ≡ m' w)
    → ((w : World) → k w ≡ k' w)
    → (w : World) → (if b then m else k) w ≡ (if b then m' else k') w
same_if_both true m m' k k' h j w = h w
same_if_both false m m' k k' h j w = j w

-- More fuel than there can be fixes and retries in one stage.
abbrev pub Enough : Env → ℕ → Type 0
Enough env fuel = env.max_verdict_fix_attempts + env.recovery.max_stage_retries < fuel

module _ (env : Env) (calm : env.recovery.allow_auto_replan ≡ false) (f g : ℕ) (p : Enough env f)
    (q : Enough env g) where
  stage_rest-same :
      (sr : StageRun) (builder : Fields) (retries : ℕ) (x : Option ActionGraph) (w : World)
      → attempt_stage env f sr builder retries x w ≡ attempt_stage env g sr builder retries x w
  unfolding attempt_stage
  stage_rest-same sr builder retries none w = refl
  stage_rest-same sr builder retries (some graph) w =
      attempts-same env sr builder f g _ w calm (omega (arith, p)) (omega (arith, q))

  run_stage-same :
      (sr : StageRun) (ctx : BuilderContext) (w : World)
      → run_stage env f sr ctx w ≡ run_stage env g sr ctx w
  unfolding run_stage
  run_stage-same sr ctx = same_bind _ _ _ λ built. same_bind _ _ _ λ graph.
      same_bind _ _ _
        λ _. same_bind _ _ _ λ retries. same_bind _ _ _ λ x. stage_rest-same sr built.1 retries x

  next-same :
      (r r' : Dict NodeOutput
        → Option DemoCriticVerdict
        → Action (Option (Option (Dict NodeOutput))))
      (x : After)
      → ((results : Dict NodeOutput) (verdict : Option DemoCriticVerdict) (w : World)
          → r results verdict w ≡ r' results verdict w)
      → (w : World) → go_to_next env r x w ≡ go_to_next env r' x w
  next-same r r' leave h w = refl
  next-same r r' (next results verdict) h w = h results verdict w
  next-same r r' (again a) h w = refl

  stages-same :
      (runbook_id : String) (metadata : Fields) (ctx : Option Fields) (target index : ℕ)
      (stages : List ActionGraphStage) (b : BuilderContext) (last : Option (Dict NodeOutput))
      (w : World)
      → run_stages env f runbook_id metadata ctx target index stages b last w
        ≡ run_stages env g runbook_id metadata ctx target index stages b last w
  unfolding run_stages
  stages-same runbook_id metadata ctx target index [] b last w = refl
  stages-same runbook_id metadata ctx target index (stage ∷ stages) b last w =
      same_if_both (resuming ctx && ltb index target) _ _ _ _
        (stages-same runbook_id metadata ctx target (index + 1) stages b last)
        (same_both _ _ _ _ (run_stage-same _ b) (λ x.
          next-same _ _ x
            (λ results verdict. stages-same runbook_id metadata ctx target (index + 1) stages _ _)))
        w

  found-same :
      (runbook_id : String) (metadata : Fields) (ctx : Option Fields) (r : Option StageBuilder)
      (w : World)
      → run_found env f runbook_id metadata ctx r w ≡ run_found env g runbook_id metadata ctx r w
  unfolding run_found
  found-same runbook_id metadata ctx none w = refl
  found-same runbook_id metadata ctx (some build) w =
      same_bind _ _ _
        (λ _. same_bind _ _ _ λ i. same_bind _ _ _ λ st. same_bind _ _ _ λ stages.
          same_bind _ _ _ λ target.
            same_both _ _ _ _ (stages-same runbook_id metadata ctx target 0 stages _ none)
              (λ x w1. refl))
        w

  body-same :
      (runbook_id : String) (metadata : Fields) (ctx : Option Fields) (w : World)
      → runbook_body env f runbook_id metadata ctx w ≡ runbook_body env g runbook_id metadata ctx w
  unfolding runbook_body
  body-same runbook_id metadata ctx w =
      same_if (not (is_some env.injection) && not env.llm_available) _ _ _
        (found-same runbook_id metadata ctx (env.get_runbook runbook_id)) w

  -- Without automatic replanning, a run of a runbook with more fuel than the configured fixes and retries
  -- of a stage together is the same for any such fuel: what it returns and all that it leaves behind.
  pub run_runbook-same :
      (runbook_id : String) (metadata : Fields) (ctx : Option Fields) (w : World)
      → run_runbook env f runbook_id metadata ctx w ≡ run_runbook env g runbook_id metadata ctx w
  unfolding run_runbook
  run_runbook-same runbook_id metadata ctx w =
      ap (handle env) (body-same runbook_id metadata ctx (record w { interrupt = none }))
