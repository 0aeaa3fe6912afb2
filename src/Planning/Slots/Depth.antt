-- ===== src/Planning/Slots/Depth.antt =====
-- The visit of a schema ends: the nesting of the schema is enough fuel.
use neuronium.Prelude.{
  ℕ, zero, suc, ◌<◌, ◌≤◌, String, ◌≡◌, refl, ap, Option, none, some, List, [], ◌∷◌, ◌++◌, arith,
  str_eq, Result, ok, Bool-cases, Option-cases, inl, inr,
}
use neuronium.Prelude.Value.{
  Value, Fields, end, field, null, bool, int, float, str, arr, obj, get_field,
}
use neuronium.Schemas.Pointer.{pointer_join}
use neuronium.Planning.Slots.Defs.{
  fields_of, list_of, visit_names, visit_schema, depth, depth_fields,
}

depth-get_field :
    (k : String) (fs : Fields) {v : Value} → get_field k fs ≡ some v → depth v ≤ depth_fields fs
unfolding depth get_field
depth-get_field k end h = absurd (cc)
depth-get_field k (field j w fs) {v} h = elim (Bool-cases (str_eq j k)) [
  | inl e ↦ let same : w ≡ v = ground (arith, e) in omega (arith, ap depth same)
  | inr e ↦ omega (arith, depth-get_field k fs {v = v} (ground (arith, e)))
]

obj_of_fields : (o : Option Value) {gs : Fields} → fields_of o ≡ some gs → o ≡ some (obj gs)
obj_of_fields none h = absurd (cc)
obj_of_fields (some (obj fs)) h = ground arith
obj_of_fields (some null) h = absurd (cc)
obj_of_fields (some (bool b)) h = absurd (cc)
obj_of_fields (some (int z)) h = absurd (cc)
obj_of_fields (some (float t)) h = absurd (cc)
obj_of_fields (some (str t)) h = absurd (cc)
obj_of_fields (some (arr xs)) h = absurd (cc)

pub fields_of-get_field :
    (k : String) (fs : Fields) {gs : Fields}
    → fields_of (get_field k fs) ≡ some gs
    → suc (depth_fields gs) ≤ depth_fields fs
unfolding depth
fields_of-get_field k fs {gs} h =
    depth-get_field k fs {v = obj gs} (obj_of_fields (get_field k fs) h)

visit_names-ok :
    (visit_child : Fields → String → Result (List String)) (props : Fields)
    → ((child : Fields) (path : String)
        → suc (depth_fields child) ≤ depth_fields props
        → (ps : List String) × (visit_child child path ≡ ok ps))
    → (vs : List Value) (pointer : String)
    → (ps : List String) × (visit_names visit_child props vs pointer ≡ ok ps)
unfolding visit_names
visit_names-ok vc props total [] pointer = ([], refl)
visit_names-ok vc props total (str name ∷ vs) pointer =
    let (rs, r) = visit_names-ok vc props total vs pointer in
    let path = pointer_join pointer name in
    elim (Option-cases (fields_of (get_field name props))) [
      | inl e ↦ (path ∷ rs, simp (e, r))
      | inr (child, e) ↦
          let (bs, b) = total child path (fields_of-get_field name props e) in
          (path ∷ (bs ++ rs), simp (e, b, r))
    ]
visit_names-ok vc props total (null ∷ vs) pointer = visit_names-ok vc props total vs pointer
visit_names-ok vc props total (bool b ∷ vs) pointer = visit_names-ok vc props total vs pointer
visit_names-ok vc props total (int z ∷ vs) pointer = visit_names-ok vc props total vs pointer
visit_names-ok vc props total (float t ∷ vs) pointer = visit_names-ok vc props total vs pointer
visit_names-ok vc props total (arr xs ∷ vs) pointer = visit_names-ok vc props total vs pointer
visit_names-ok vc props total (obj fs ∷ vs) pointer = visit_names-ok vc props total vs pointer

pub visit_schema-ok :
    (fuel : ℕ) (schema : Fields) (pointer : String)
    → depth_fields schema < fuel
    → (ps : List String) × (visit_schema fuel schema pointer ≡ ok ps)
unfolding visit_schema
visit_schema-ok zero schema pointer h = absurd (omega arith)
visit_schema-ok (suc fuel) schema pointer h =
    elim (Option-cases (fields_of (get_field "properties" schema))) [
      | inl e ↦ ([], rw (e, visit_schema))
      | inr (props, e) ↦
          let below = fields_of-get_field "properties" schema e in
          let (ps, p) =
            visit_names-ok (visit_schema fuel) props
              (λ child path d. visit_schema-ok fuel child path (omega (arith, below)))
              (list_of (get_field "required" schema)) pointer in
          (ps, rw (e, visit_schema) p)
    ]
