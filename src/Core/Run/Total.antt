-- ===== src/Core/Run/Total.antt =====
-- Rules for actions that never run out of fuel.
use neuronium.Prelude.{
  String, Bool, true, false, List, [], ◌∷◌, Result, ok, err, Error, if◌then◌else◌, arith,
}
use neuronium.Prelude.Value.{Fields}
use neuronium.Core.State.{RunState, IntentionPhase, transition_to}
use neuronium.Core.Run.World.{
  World, Action, pure, raise, called, gets, try_call, modify, go_on, ◌>>=◌, when, move_to,
  update_run_state, record_event, record_all, set_phase,
}
use neuronium.Core.Run.Planner.{need_intention}
use neuronium.Core.Run.Passes.{Returns, Gives}

abbrev pub Fueled {ℓ} : {A : Type ℓ} → Result A × World → Type 0
Fueled (ok a, w) = Unit {0}
Fueled (err Error.out_of_fuel, w) = ⊥
Fueled (err e, w) = Unit {0}

-- The action never runs out of fuel.
abbrev pub Total {ℓ} : {A : Type ℓ} → Action A → Type 0
Total m = (w : World) → Fueled (m w)

module _ {ℓ} {A : Type ℓ} where
  Returns-any : (r : Result A × World) → Returns (λ (a : A). Unit {0}) r
  Returns-any (ok a, w) = tt
  Returns-any (err e, w) = tt

module _ {ℓ κ} {A : Type ℓ} {B : Type κ} where
  Fueled-bind :
      (Q : A → Type 0) (r : Result A × World) (f : A → Action B)
      → Fueled r
      → Returns Q r
      → ((a : A) → Q a → Total (f a))
      → Fueled (go_on r f)
  Fueled-bind Q (ok a, w) f p q h = h a q w
  Fueled-bind Q (err e, w) f p q h = ground (arith, p)

  pub Total-bind :
      (m : Action A) (f : A → Action B) → Total m → ((a : A) → Total (f a)) → Total (m >>= f)
  unfolding ◌>>=◌
  Total-bind m f p h w = Fueled-bind (λ a. Unit {0}) (m w) f (p w) (Returns-any (m w)) (λ a q. h a)

  -- With what is known of the value that the first part returns.
  pub Total-after :
      (Q : A → Type 0) (m : Action A) (f : A → Action B)
      → Total m
      → Gives Q m
      → ((a : A) → Q a → Total (f a))
      → Total (m >>= f)
  unfolding ◌>>=◌
  Total-after Q m f p q h w = Fueled-bind Q (m w) f (p w) (q w) h

module _ {ℓ} {A : Type ℓ} where
  pub Total-pure : (a : A) → Total (pure a)
  unfolding pure
  Total-pure a w = tt

  pub Total-gets : (f : World → A) → Total (gets f)
  unfolding gets
  Total-gets f w = tt

  Fueled-call : (r : Result A) (w : World) → Fueled (called r, w)
  Fueled-call (ok a) w = tt
  Fueled-call (err e) w = ground arith

  pub Total-call : (r : Result A) → Total (try_call r)
  unfolding try_call
  Total-call r w = Fueled-call r w

  pub Total-if : (b : Bool) (m k : Action A) → Total m → Total k → Total (if b then m else k)
  Total-if true m k h j = h
  Total-if false m k h j = j

pub Total-raise : Total (raise {A = Unit {0}} Error.value_error)
unfolding raise
Total-raise w = tt

pub Total-modify : (f : World → World) → Total (modify f)
unfolding modify
Total-modify f w = tt

pub Total-when : (b : Bool) (m : Action (Unit {0})) → Total m → Total (when b m)
unfolding pure
Total-when true m h w = h w
Total-when false m h w = tt

pub Total-event : (kind : String) (payload : Fields) → Total (record_event kind payload)
unfolding record_event
Total-event kind payload w = tt

pub Total-all : (es : List (String × Fields)) → Total (record_all es)
unfolding record_all
Total-all [] = Total-pure tt
Total-all ((kind, payload) ∷ es) = Total-bind _ _ (Total-event kind payload) (λ _. Total-all es)

pub Total-move : (target : RunState) (message : String) → Total (move_to target message)
unfolding move_to transition_to
Total-move target message w = ground arith

pub Total-update : (target : RunState) → Total (update_run_state target)
unfolding update_run_state
Total-update target w = tt

pub Total-phase : (p : IntentionPhase) → Total (set_phase p)
unfolding set_phase
Total-phase p w = ground arith

pub Total-intention : Total need_intention
Total-intention w = ground arith

pub ruleset total_rules = (
  Total-bind, Total-pure, Total-gets, Total-call, Total-if, Total-modify, Total-when, Total-event,
  Total-all, Total-move, Total-update, Total-phase, Total-intention,
)
