-- ===== src/Planning/Patch/Writes.antt =====
-- What `apply_patch` does to a state, as `_state_value_at_pointer` reads it.
use Prim.Native.String.{String}
use neuronium.Prelude.{
  ◌≡◌, ◌≢◌, refl, sym, ap, ◌∙◌, Bool, false, Option, some, List, [], ◌∷◌, is_some, str_eq, Result,
  ok, patch_error, ◌>>=◌, >>=-eq-ok, or_raise-eq-ok, ok-injective, Option-cases, inl, inr,
  Result-cases,
}
use neuronium.Prelude.Value.{Value}
use neuronium.Planning.Patch.Defs.{at_parent, child_at, put_child, step_into, value_at}
use neuronium.Planning.Patch.Access.{is_ok, child_at-step_into}
use neuronium.Planning.Patch.Steps.{step_into-put_child, put_child-put_child}

-- The last token is "-", which names the place after the end of a list.
abbrev pub ends_in_dash : List String → Bool
ends_in_dash [] = false
ends_in_dash (key ∷ []) = str_eq key "-"
ends_in_dash (token ∷ next ∷ tokens) = ends_in_dash (next ∷ tokens)

-- A write below the first token: the child that was found and the child that replaces it.
record Below (change : String → Value → Result Value) (token : String) (tokens : List String)
    (v v' : Value) : Type 0 where
  child : Value
  child' : Value
  found : step_into token v ≡ some child
  changed : at_parent change tokens child ≡ ok child'
  put : v' ≡ put_child token child' v

at_parent-Below :
    (change : String → Value → Result Value) (token next : String) (tokens : List String)
    (v v' : Value)
    → at_parent change (token ∷ next ∷ tokens) v ≡ ok v'
    → Below change token (next ∷ tokens) v v'
unfolding at_parent
at_parent-Below change token next tokens v v' h =
    let (child, c, h') = >>=-eq-ok (child_at token v) _ h in
    let (child', a, h'') = >>=-eq-ok (at_parent change (next ∷ tokens) child) _ h' in
    record {
      child = child;
      child' = child';
      found = or_raise-eq-ok (step_into token v) patch_error (sym (child_at-step_into token v) ∙ c);
      changed = a;
      put = sym (ok-injective h'');
    }

is_ok_bind :
    (change : String → Value → Result Value) (c : Value) (token : String) (v : Value)
    (tokens : List String)
    → is_ok (at_parent change tokens c >>= λ child'. ok (put_child token child' v))
      ≡ is_ok (at_parent change tokens c)
is_ok_bind change c token v tokens = elim (Result-cases (at_parent change tokens c)) [
  | inl (x, e) ↦ rw e
  | inr (x, e) ↦ rw e
]

-- A write whose last step can be read back can be read back below any tokens.
pub value_at-at_parent :
    (change : String → Value → Result Value) (value : Value)
    → ((key : String) (v v' : Value)
        → str_eq key "-" ≡ false
        → change key v ≡ ok v'
        → step_into key v' ≡ some value)
    → (tokens : List String) (v v' : Value) → ends_in_dash tokens ≡ false
    → at_parent change tokens v ≡ ok v'
    → value_at tokens v' ≡ some value
unfolding at_parent value_at
value_at-at_parent change value reads [] v v' d h = absurd (cc)
value_at-at_parent change value reads (key ∷ []) v v' d h = rw (reads key v v' d h, value_at)
value_at-at_parent change value reads (token ∷ next ∷ tokens) v v' d h =
    let b = at_parent-Below change token next tokens v v' h in
    rw (b.put) (
      rw (step_into-put_child token b.child' v b.found, value_at)
        (value_at-at_parent change value reads (next ∷ tokens) b.child b.child' d b.changed))

-- A write that succeeds exactly where its last step finds a value succeeds exactly where the state
-- has one.
pub is_ok-at_parent :
    (change : String → Value → Result Value)
    → ((key : String) (v : Value) → is_ok (change key v) ≡ is_some (step_into key v))
    → (tokens : List String) (v : Value) → tokens ≢ []
    → is_ok (at_parent change tokens v) ≡ is_some (value_at tokens v)
unfolding at_parent value_at
is_ok-at_parent change here [] v n = absurd (n refl)
is_ok-at_parent change here (key ∷ []) v n = elim (Option-cases (step_into key v)) [
  | inl e ↦ rw (e, value_at) (here key v ∙ ap (is_some {A = Value}) e)
  | inr (c, e) ↦ rw (e, value_at) (here key v ∙ ap (is_some {A = Value}) e)
]
is_ok-at_parent change here (token ∷ next ∷ tokens) v n = elim (Option-cases (step_into token v)) [
  | inl e ↦ rw (child_at-step_into token v) (rw (e, value_at))
  | inr (c, e) ↦
      let rest = is_ok-at_parent change here (next ∷ tokens) c (λ x. cc) in
      rw (child_at-step_into token v)
        (rw (e, value_at) (is_ok_bind change c token v (next ∷ tokens) ∙ rest))
]

step_of_value_at : (key : String) (v : Value) → step_into key v ≡ value_at (key ∷ []) v
unfolding value_at
step_of_value_at key v = elim (Option-cases (step_into key v)) [
  | inl e ↦ rw (e, value_at)
  | inr (c, e) ↦ rw (e, value_at)
]

-- A write whose last step can be undone can be undone below any tokens.
pub at_parent_undo :
    (change undo : String → Value → Result Value) (before : Option Value)
    → ((key : String) (v v' : Value)
        → str_eq key "-" ≡ false
        → step_into key v ≡ before
        → change key v ≡ ok v'
        → undo key v' ≡ ok v)
    → (tokens : List String) (v v' : Value) → ends_in_dash tokens ≡ false
    → value_at tokens v ≡ before
    → at_parent change tokens v ≡ ok v'
    → at_parent undo tokens v' ≡ ok v
unfolding at_parent value_at
at_parent_undo change undo before here [] v v' d r h = absurd (cc)
at_parent_undo change undo before here (key ∷ []) v v' d r h =
    here key v v' d (step_of_value_at key v ∙ r) h
at_parent_undo change undo before here (token ∷ next ∷ tokens) v v' d r h =
    let b = at_parent-Below change token next tokens v v' h in
    let found' = step_into-put_child token b.child' v b.found in
    let rest =
      at_parent_undo change undo before here (next ∷ tokens) b.child b.child' d
        (rw (b.found, value_at) at r) b.changed in
    rw (b.put) (
      rw (child_at-step_into token (put_child token b.child' v)) (
        rw (found')
          (rw rest (ap (λ x. ok x) (put_child-put_child token b.child' v b.child b.found)))))
