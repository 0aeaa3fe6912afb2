-- ===== src/Tests/Slots.antt =====
-- Missing slots of small states.
use neuronium.Prelude.{String, ◌≡◌, refl, List, [], ◌∷◌, ok, has, true, ◌↔◌, sort_by, insert_by}
use neuronium.Prelude.Text.{append}
use neuronium.Prelude.Value.{Fields, nil, cons, end, field, str, null, obj, arr, get_field, items}
use neuronium.Schemas.Pointer.{
  pointer_join, pointer_tokens, escape_token, unescape_token, replace_char, replace_tilde,
  split_slash,
}
use neuronium.Planning.Dag.{str_le}
use neuronium.Planning.Patch.{value_at, step_into}
use neuronium.Planning.Slots.{
  value_missing, value_null, compute_missing_slots, required_pointers, visit_schema, visit_names,
  unique, collect_slots, slot_at, has_missing_ancestor, parents_from, fragment_at,
  schema_allows_null, any_of_null, depth,
}
use neuronium.Planning.Slots.Required.{Required, required_pointers-Required}
use neuronium.Planning.Slots.Reported.{Reports, compute_missing_slots-Reports}

-- An object with one required property of the given schema.
abbrev requiring : String → Fields → Fields
requiring name schema =
    field "properties" (obj (field name (obj schema) end))
      (field "required" (arr (cons (str name) nil)) end)

abbrev nested : Fields
nested = requiring "a" (requiring "b" end)

nothing_given :
    compute_missing_slots (obj end) nested ""
    ≡ ok (record { path = "/a"; expected_schema = requiring "b" end; reason = value_missing } ∷ [])
unfolding compute_missing_slots required_pointers visit_schema visit_names unique collect_slots
    slot_at has_missing_ancestor parents_from fragment_at depth get_field items sort_by insert_by
    str_le pointer_join pointer_tokens escape_token unescape_token replace_char replace_tilde
    split_slash append value_at step_into
nothing_given = refl

-- A nullable property that is null is no missing slot, but under a base pointer it is reported, since
-- the fragment is looked up by the whole pointer.
abbrev nullable : Fields
nullable = requiring "x" (field "type" (arr (cons (str "null") nil)) end)

null_allowed : compute_missing_slots (obj (field "x" null end)) nullable "" ≡ ok []
unfolding compute_missing_slots required_pointers visit_schema visit_names unique collect_slots
    slot_at has_missing_ancestor parents_from fragment_at schema_allows_null depth get_field items
    sort_by insert_by str_le pointer_join pointer_tokens escape_token unescape_token replace_char
    replace_tilde split_slash append value_at step_into
null_allowed = refl

null_refused_below_base :
    compute_missing_slots (obj (field "inputs" (obj (field "x" null end)) end)) nullable "/inputs"
    ≡ ok (record { path = "/inputs/x"; expected_schema = end; reason = value_null } ∷ [])
unfolding compute_missing_slots required_pointers visit_schema visit_names unique collect_slots
    slot_at has_missing_ancestor parents_from fragment_at schema_allows_null any_of_null depth
    get_field items sort_by insert_by str_le pointer_join pointer_tokens escape_token unescape_token
    replace_char replace_tilde split_slash append value_at step_into
null_refused_below_base = refl

required_pointers-Required_example :
    (ps : List String) × (required_pointers nested "/inputs" ≡ ok ps)
    × ((p : String) → has p ps ≡ true ↔ Required nested "/inputs" p)
required_pointers-Required_example = required_pointers-Required nested "/inputs"

compute_missing_slots-Reports_example :
    Reports
      (obj end)
      nested
      ""
      (record { path = "/a"; expected_schema = requiring "b" end; reason = value_missing } ∷ [])
compute_missing_slots-Reports_example =
    compute_missing_slots-Reports (obj end) nested ""
      (record { path = "/a"; expected_schema = requiring "b" end; reason = value_missing } ∷ [])
      nothing_given
