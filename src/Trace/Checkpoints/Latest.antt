-- ===== src/Trace/Checkpoints/Latest.antt =====
-- Which checkpoint a resumed run starts from, as the trace grows.
use neuronium.Prelude.{
  ◌≡◌, refl, ap, ◌∙◌, Bool, Option, some, List, [], ◌∷◌, ◌++◌, keep, if◌then◌else◌, Result, ok,
  ok-injective, >>=-eq-ok, ◌>>=◌, Bool-cases, inl, inr,
}
use mathlib.Core.List.{append-nil}
use neuronium.Prelude.Value.{Value, Fields, get_field}
use neuronium.Trace.Checkpoints.Defs.{
  get_dict, is_boundary, is_kind, reverse_onto, first_boundary, latest_checkpoint,
}

reverse_onto-append :
    (xs ys : List Fields) (x : Fields) → reverse_onto (xs ++ x ∷ []) ys ≡ x ∷ reverse_onto xs ys
reverse_onto-append [] ys x = refl
reverse_onto-append (y ∷ xs) ys x = reverse_onto-append xs (y ∷ ys) x

keep-append :
    (p : Fields → Bool) (xs : List Fields) (x : Fields)
    → keep p (xs ++ x ∷ []) ≡ keep p xs ++ (if p x then x ∷ [] else [])
keep-append p [] x = refl
keep-append p (y ∷ xs) x = elim (Bool-cases (p y)) [
  | inl e ↦ rw (e, keep) (ap (λ l. y ∷ l) (keep-append p xs x))
  | inr e ↦ rw (e, keep) (keep-append p xs x)
]

-- The label of the boundary of a checkpoint event, which is an error if the event is malformed.
abbrev pub boundary_of : Fields → Result (Fields × Option Value)
boundary_of event = get_dict "payload" event >>= λ payload.
    get_dict "resume_context" payload >>= λ rc. ok (payload, get_field "phase_boundary" rc)

first_boundary_cons :
    (event payload : Fields) (label : Option Value) (valid : Bool) (rest : List Fields)
    → boundary_of event ≡ ok (payload, label)
    → is_boundary label ≡ ok valid
    → first_boundary (event ∷ rest) ≡ (if valid then ok (some payload) else first_boundary rest)
unfolding first_boundary
first_boundary_cons event payload label valid rest b v =
    let (fs, p, b') = >>=-eq-ok (get_dict "payload" event) _ b in
    let (rc, r, b'') = >>=-eq-ok (get_dict "resume_context" fs) _ b' in
    let q = ok-injective b'' in
    rw p (
      rw r (
        rw (ap (λ (x : Fields × Option Value). x.1) q)
          (rw v (rw (ap (λ (x : Fields × Option Value). x.0) q)))))

-- After a well-formed event has been added to a trace, a checkpoint with a valid boundary is the
-- latest one; a checkpoint with another boundary, or an event of another kind, changes nothing.
pub latest_checkpoint-append :
    (events : List Fields) (event payload : Fields) (label : Option Value) (valid : Bool)
    → boundary_of event ≡ ok (payload, label)
    → is_boundary label ≡ ok valid
    → latest_checkpoint (events ++ event ∷ []) ≡ (
        if is_kind "checkpoint" event
        then (if valid then ok (some payload) else latest_checkpoint events)
        else latest_checkpoint events)
unfolding latest_checkpoint
latest_checkpoint-append events event payload label valid b v =
    rw (keep-append (is_kind "checkpoint") events event)
      (elim (Bool-cases (is_kind "checkpoint" event)) [
        | inr e ↦ rw e (
            ap (λ l. first_boundary (reverse_onto l []))
              (append-nil (keep (is_kind "checkpoint") events)))
        | inl e ↦ rw e (
            ap first_boundary (reverse_onto-append (keep (is_kind "checkpoint") events) [] event)
            ∙ first_boundary_cons event payload label valid
                (reverse_onto (keep (is_kind "checkpoint") events) []) b v)
      ])
