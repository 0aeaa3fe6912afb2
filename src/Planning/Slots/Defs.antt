-- ===== src/Planning/Slots/Defs.antt =====
-- `extract_required_json_pointers`, `schema_fragment_at_pointer` and `compute_missing_slots`.
use neuronium.Prelude.{
  ℕ, zero, suc, ◌+◌, String, Bool, false, not, ◌&&◌, ◌||◌, Option, none, some, List, [], ◌∷◌, ◌++◌,
  has, any_of, sort_by, if◌then◌else◌, str_eq, Result, ok, err, out_of_fuel, ◌>>=◌,
}
use neuronium.Prelude.Text.{append}
use neuronium.Prelude.Value.{Value, Items, Fields, end, str, arr, obj, get_field, items, is_null}
use neuronium.Planning.Dag.{str_le}
use neuronium.Planning.Patch.{value_at}
use neuronium.Schemas.Pointer.{pointer_join, pointer_tokens, split_slash}

abbrev pub fields_of : Option Value → Option Fields
fields_of (some (obj fs)) = some fs
fields_of v = none

abbrev pub list_of : Option Value → List Value
list_of (some (arr xs)) = items xs
list_of v = []

-- `for raw_name in required`, with the visit of a child schema handed in.
unfoldable pub visit_names :
    (Fields → String → Result (List String)) → Fields → List Value → String → Result (List String)
visit_names visit_child props [] pointer = ok []
visit_names visit_child props (v ∷ vs) pointer =
    let rest = visit_names visit_child props vs pointer in
    elim v [
      | str name ↦
          let path = pointer_join pointer name in
          let below : Result (List String) = elim (fields_of (get_field name props)) [
            | none ↦ ok []
            | some child ↦ visit_child child path
          ] in
          below >>= λ bs. rest >>= λ rs. ok (path ∷ (bs ++ rs))
      | _ ↦ rest
    ]

-- `visit`; the fuel bounds the nesting of the schema.
unfoldable pub visit_schema : ℕ → Fields → String → Result (List String)
visit_schema zero schema pointer = err out_of_fuel
visit_schema (suc fuel) schema pointer = elim (fields_of (get_field "properties" schema)) [
  | none ↦ ok []
  | some props ↦
      visit_names (visit_schema fuel) props (list_of (get_field "required" schema)) pointer
]

-- `set(xs)`, in the order of the last occurrences
unfoldable pub unique : List String → List String
unique [] = []
unique (x ∷ xs) = let rest = unique xs in if has x rest then rest else x ∷ rest

-- The nesting of a value.
unfoldable mutual
  pub depth : Value → ℕ
  depth (arr xs) = suc (depth_items xs)
  depth (obj fs) = suc (depth_fields fs)
  depth v = 0

  pub depth_items : Items → ℕ
  depth_items Items.nil = 0
  depth_items (Items.cons v xs) = depth v + depth_items xs

  pub depth_fields : Fields → ℕ
  depth_fields end = 0
  depth_fields (Fields.field k v fs) = depth v + depth_fields fs

unfoldable pub required_pointers : Fields → String → Result (List String)
required_pointers schema base =
    visit_schema (suc (depth_fields schema)) schema base >>= λ ps. ok (sort_by str_le (unique ps))

-- The schema that a pointer leads to, or an empty one.
unfoldable pub fragment_at : List String → Fields → Fields
fragment_at [] schema = schema
fragment_at (token ∷ tokens) schema = elim (fields_of (get_field "properties" schema)) [
  | none ↦ end
  | some props ↦ elim (fields_of (get_field token props)) [
    | none ↦ end
    | some child ↦ fragment_at tokens child
  ]
]

abbrev pub is_null_type : Value → Bool
is_null_type (str s) = str_eq s "null"
is_null_type v = false

abbrev pub null_branch : Value → Bool
null_branch (obj fs) = elim (get_field "type" fs) [ none ↦ false | some v ↦ is_null_type v ]
null_branch v = false

unfoldable pub any_of_null : Fields → Bool
any_of_null fragment = any_of null_branch (list_of (get_field "anyOf" fragment))

unfoldable pub schema_allows_null : Fields → Bool
schema_allows_null fragment = elim (get_field "type" fragment) [
  | none ↦ any_of_null fragment
  | some v ↦ elim v [
    | arr xs ↦ any_of is_null_type (items xs)
    | w ↦ is_null_type w || any_of_null fragment
  ]
]

pub data SlotReason : Type 0 where
  value_missing value_null : SlotReason

pub record MissingSlot : Type 0 where
  pub path : String
  pub expected_schema : Fields
  pub reason : SlotReason

-- `"/".join(parts[:idx])` for each idx from 2 to len(parts) - 1; `seen` is the text of the first parts.
unfoldable pub parents_from : String → List String → List String
parents_from seen [] = []
parents_from seen (p ∷ []) = []
parents_from seen (p ∷ q ∷ ps) =
    let here = append seen (append "/" p) in here ∷ parents_from here (q ∷ ps)

abbrev pub parents_of : List String → List String
parents_of [] = []
parents_of (first ∷ ps) = parents_from first ps

unfoldable pub has_missing_ancestor : String → List String → Bool
has_missing_ancestor path missing =
    any_of (λ parent. has parent missing) (parents_of (split_slash path))

-- Whether a required path is a missing slot of the state.
unfoldable pub slot_at : Value → Fields → String → Result (Option MissingSlot)
slot_at state schema path = pointer_tokens path >>= λ tokens.
    let fragment = fragment_at tokens schema in
    let slot : SlotReason → Option MissingSlot =
      λ r. some (record { path = path; expected_schema = fragment; reason = r }) in
    ok (elim (value_at tokens state) [
      | none ↦ slot value_missing
      | some v ↦ if is_null v && not (schema_allows_null fragment) then slot value_null else none
    ])

-- `for path in required_paths`, with the paths that are missing so far.
unfoldable pub collect_slots :
    Value → Fields → List String → List String → Result (List MissingSlot)
collect_slots state schema [] missing = ok []
collect_slots state schema (path ∷ paths) missing =
    if has_missing_ancestor path missing
    then collect_slots state schema paths missing
    else (slot_at state schema path >>= λ found. elim found [
      | none ↦ collect_slots state schema paths missing
      | some slot ↦
          collect_slots state schema paths (missing ++ path ∷ []) >>= λ rest. ok (slot ∷ rest)
    ])

-- The slots come in the order of their paths, which is the order in which they are found.
unfoldable pub compute_missing_slots : Value → Fields → String → Result (List MissingSlot)
compute_missing_slots state schema base =
    required_pointers schema base >>= λ paths. collect_slots state schema paths []
