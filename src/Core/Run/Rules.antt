-- ===== src/Core/Run/Rules.antt =====
-- Rules for what the actions of a run do to the state of the run and to its row in the store.
use neuronium.Prelude.{
  String, Bool, true, false, Option, some, List, [], ◌∷◌, ◌≡◌, refl, is_some, Result, ok, err,
  Error, arith, if◌then◌else◌,
}
use neuronium.Prelude.Value.{Fields}
use neuronium.Core.State.{RunState, IntentionPhase, transition_to}
use neuronium.Core.Run.World.{
  World, Action, pure, raise, gets, try_call, modify, go_on, ◌>>=◌, when, record_event, record_all,
  move_to, update_run_state, set_phase, set_phase_if,
}

-- A predicate on the row and the state.
abbrev pub Pred : Type 1
Pred = Option RunState → RunState → Type 0

abbrev pub On : Pred → World → Type 0
On φ w = φ w.row w.agent.run_state

-- The row is there.
abbrev pub HasRow : Pred
HasRow row s = is_some row ≡ true

-- The row says what the state is.
abbrev pub Agrees : Pred
Agrees row s = row ≡ some s

abbrev pub Moved : RunState → Pred
Moved target row s = (is_some row ≡ true) × (s ≡ target)

abbrev pub Settled : RunState → Pred
Settled target row s = (row ≡ some target) × (s ≡ target)

abbrev pub Nothing : Pred
Nothing row s = Unit {0}

-- What holds after an action, by how it ended.
abbrev pub Post {ℓ} : {A : Type ℓ} → (A → Pred) → Pred → Result A × World → Type 0
Post Q R (ok a, w) = On (Q a) w
Post Q R (err e, w) = On R w

-- From a world with φ the action ends with Q, or raises with R.
abbrev pub Does {ℓ} : {A : Type ℓ} → Pred → Action A → (A → Pred) → Pred → Type 0
Does φ m Q R = (w : World) → On φ w → Post Q R (m w)

-- An action that changes neither the state nor the row.
abbrev pub Steady {ℓ} : {A : Type ℓ} → Action A → Type 0
Steady m = (w : World) → ((m w).1.row ≡ w.row) × ((m w).1.agent.run_state ≡ w.agent.run_state)

module _ {ℓ κ} {A : Type ℓ} {B : Type κ} where
  Post-bind :
      (φ R : Pred) (Q : A → Pred) (Q' : B → Pred) (r : Result A × World) (f : A → Action B)
      → Post Q R r
      → ((a : A) → Does (Q a) (f a) Q' R)
      → Post Q' R (go_on r f)
  Post-bind φ R Q Q' (ok a, w) f p h = h a w p
  Post-bind φ R Q Q' (err e, w) f p h = p

  pub bind :
      (φ R : Pred) (Q : A → Pred) (Q' : B → Pred) (m : Action A) (f : A → Action B)
      → Does φ m Q R
      → ((a : A) → Does (Q a) (f a) Q' R)
      → Does φ (m >>= f) Q' R
  unfolding ◌>>=◌
  bind φ R Q Q' m f p h w x = Post-bind φ R Q Q' (m w) f (p w x) h

  Steady-bind_post :
      (r : Result A × World) (f : A → Action B)
      → ((a : A) → Steady (f a))
      → ((go_on r f).1.row ≡ r.1.row) × ((go_on r f).1.agent.run_state ≡ r.1.agent.run_state)
  Steady-bind_post (ok a, w) f h = h a w
  Steady-bind_post (err e, w) f h = (refl, refl)

  pub Steady-bind :
      (m : Action A) (f : A → Action B) → Steady m → ((a : A) → Steady (f a)) → Steady (m >>= f)
  unfolding ◌>>=◌
  Steady-bind m f p h w =
      let q = Steady-bind_post (m w) f h in let p' = p w in ground (arith, q, p')

module _ {ℓ} {A : Type ℓ} where
  Post-steady : (φ R : Pred) (r : Result A × World) → On φ r.1 → On R r.1 → Post (λ _. φ) R r
  Post-steady φ R (ok a, w) p q = p
  Post-steady φ R (err e, w) p q = q

  -- A steady action keeps any predicate on the state and the row.
  pub steady :
      (φ R : Pred)
      → ((row : Option RunState) (s : RunState) → φ row s → R row s)
      → (m : Action A) → Steady m
      → Does φ m (λ _. φ) R
  steady φ R weaken m h w p =
      let q : On φ (m w).1 = rw (h w).0 (rw (h w).1 p) in Post-steady φ R (m w) q (weaken _ _ q)

pub Steady-event : (kind : String) (payload : Fields) → Steady (record_event kind payload)
unfolding record_event
Steady-event kind payload w = (refl, refl)

pub Steady-all : (es : List (String × Fields)) → Steady (record_all es)
unfolding record_all pure
Steady-all [] w = (refl, refl)
Steady-all ((kind, payload) ∷ es) w =
    Steady-bind (record_event kind payload) (λ _. record_all es) (Steady-event kind payload)
      (λ _. Steady-all es) w

pub Steady-phase : (p : IntentionPhase) → Steady (set_phase p)
unfolding set_phase
Steady-phase p w = ground arith

pub Steady-phase_if : (p : IntentionPhase) → Steady (set_phase_if p)
unfolding set_phase_if modify
Steady-phase_if p w = (refl, refl)

pub Steady-when : (b : Bool) (m : Action (Unit {0})) → Steady m → Steady (when b m)
unfolding pure
Steady-when true m h w = h w
Steady-when false m h w = (refl, refl)

pub Steady-call {ℓ} : {A : Type ℓ} (r : Result A) → Steady (try_call r)
unfolding try_call
Steady-call r w = (refl, refl)

pub Steady-pure {ℓ} : {A : Type ℓ} (a : A) → Steady (pure a)
unfolding pure
Steady-pure a w = (refl, refl)

pub Steady-raise {ℓ} : (A : Type ℓ) (e : Error) → Steady (raise {A = A} e)
unfolding raise
Steady-raise A e w = (refl, refl)

pub Steady-gets {ℓ} : {A : Type ℓ} (f : World → A) → Steady (gets f)
unfolding gets
Steady-gets f w = (refl, refl)

pub Steady-if {ℓ} :
    {A : Type ℓ} (b : Bool) (m k : Action A) → Steady m → Steady k → Steady (if b then m else k)
Steady-if true m k h j = h
Steady-if false m k h j = j

-- A change of something else.
pub Steady-modify :
    (f : World → World)
    → ((w : World) → ((f w).row ≡ w.row) × ((f w).agent.run_state ≡ w.agent.run_state))
    → Steady (modify f)
unfolding modify
Steady-modify f h w = h w

-- A transition either raises and changes nothing, or reaches its target.
pub move_to-Moved :
    (target : RunState) (message : String) (φ : Pred)
    → ((row : Option RunState) (s : RunState) → φ row s → is_some row ≡ true)
    → Does φ (move_to target message) (λ _. Moved target) φ
unfolding move_to transition_to
move_to-Moved target message φ there w p = ground (arith, there w.row w.agent.run_state p)

pub update_run_state-Settled :
    (target : RunState) (R : Pred)
    → Does (Moved target) (update_run_state target) (λ _. Settled target) R
unfolding update_run_state
update_run_state-Settled target R w p = ground arith

-- What every action of a command or a stage keeps.
abbrev pub Keeps {ℓ} : {A : Type ℓ} → Pred → Action A → Type 0
Keeps R m = Does R m (λ _. R) R

pub Keeps-Steady {ℓ} : {A : Type ℓ} (R : Pred) (m : Action A) → Steady m → Keeps R m
Keeps-Steady R m h = steady R R (λ row s p. p) m h

pub Keeps-bind {ℓ κ} :
    {A : Type ℓ} {B : Type κ} (R : Pred) (m : Action A) (f : A → Action B)
    → Keeps R m
    → ((a : A) → Keeps R (f a))
    → Keeps R (m >>= f)
Keeps-bind R m f p h = bind R R (λ _. R) (λ _. R) m f p h

pub ruleset steady_rules = (
  Steady-bind, Steady-event, Steady-all, Steady-phase, Steady-phase_if, Steady-when, Steady-call,
  Steady-pure, Steady-raise, Steady-gets, Steady-if,
)
