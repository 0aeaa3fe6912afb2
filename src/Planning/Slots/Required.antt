-- ===== src/Planning/Slots/Required.antt =====
-- Which pointers are required: the visit of a schema finds those of its required names, at every depth.
use neuronium.Prelude.{
  ℕ, zero, suc, ◌<◌, String, Bool, true, false, ◌≡◌, refl, ap, subst, sym, ◌∙◌, ◌||◌, some, List,
  [], ◌∷◌, ◌++◌, arith, sort_by, insert_by, has, str_eq, eq_iff, eq_refl, Result, ok, >>=-eq-ok,
  ok-injective, Bool-cases, Option-cases, inl, inr, ◌⊎◌, ◌↔◌,
}
use neuronium.Prelude.Value.{Value, Fields, null, bool, int, float, str, arr, obj, get_field}
use neuronium.Planning.Dag.{str_le}
use neuronium.Schemas.Pointer.{pointer_join}
use neuronium.Planning.Slots.Defs.{
  fields_of, list_of, visit_names, visit_schema, unique, depth_fields, required_pointers,
}
use neuronium.Planning.Slots.Depth.{visit_schema-ok, fields_of-get_field}

-- A text among the values of a list.
abbrev pub names : String → List Value → Bool
names name [] = false
names name (str s ∷ vs) = str_eq s name || names name vs
names name (v ∷ vs) = names name vs

-- A pointer that a schema requires: that of a required name, or one that the schema of a required
-- property requires below it. A schema without properties requires none.
pub data Required : Fields → String → String → Type 0 where
  here :
      {schema props : Fields} {base : String} (name : String)
      → fields_of (get_field "properties" schema) ≡ some props
      → names name (list_of (get_field "required" schema)) ≡ true
      → Required schema base (pointer_join base name)
  below :
      {schema props child : Fields} {base pointer : String} (name : String)
      → fields_of (get_field "properties" schema) ≡ some props
      → names name (list_of (get_field "required" schema)) ≡ true
      → fields_of (get_field name props) ≡ some child
      → Required child (pointer_join base name) pointer
      → Required schema base pointer

has-append_both : (p : String) (xs ys : List String) → has p (xs ++ ys) ≡ (has p xs || has p ys)
has-append_both p [] ys = refl
has-append_both p (x ∷ xs) ys = ground (arith, has-append_both p xs ys)

has-unique : (p : String) (xs : List String) → has p (unique xs) ≡ has p xs
unfolding unique
has-unique p [] = refl
has-unique p (x ∷ xs) = elim (Bool-cases (has x (unique xs))) [
  | inr e ↦ ground (arith, e, has-unique p xs)
  | inl e ↦ elim (Bool-cases (str_eq x p)) [
    | inl same ↦
        let at_p : has p (unique xs) ≡ true =
          subst (λ q. has q (unique xs) ≡ true) ((eq_iff x p).0 same) e in
        ground (arith, e, at_p, same)
    | inr other ↦ ground (arith, e, other, has-unique p xs)
  ]
]

has-insert_by :
    (p x : String) (xs : List String) → has p (insert_by str_le x xs) ≡ (str_eq x p || has p xs)
unfolding insert_by
has-insert_by p x [] = ground arith
has-insert_by p x (y ∷ ys) = ground (arith, has-insert_by p x ys)

has-sort_by : (p : String) (xs : List String) → has p (sort_by str_le xs) ≡ has p xs
unfolding sort_by
has-sort_by p [] = refl
has-sort_by p (x ∷ xs) = ground (arith, has-insert_by p x (sort_by str_le xs), has-sort_by p xs)

-- What a visit of the names finds.
abbrev Found :
    (Fields → String → Result (List String)) → Fields → List Value → String → String → Type 0
Found visit_child props vs pointer p =
    (name : String) × (names name vs ≡ true)
    × ((p ≡ pointer_join pointer name)
        ⊎ ((child : Fields) × (fields_of (get_field name props) ≡ some child)
            × ((bs : List String) × (visit_child child (pointer_join pointer name) ≡ ok bs)
                × (has p bs ≡ true))))

module _ (visit_child : Fields → String → Result (List String)) (props : Fields)
    (pointer p : String) where
  Found-later :
      (v : Value) (vs : List Value)
      → Found visit_child props vs pointer p
      → Found visit_child props (v ∷ vs) pointer p
  Found-later (str s) vs (name, k, how) = (name, ground arith, how)
  Found-later null vs f = f
  Found-later (bool b) vs f = f
  Found-later (int z) vs f = f
  Found-later (float t) vs f = f
  Found-later (arr xs) vs f = f
  Found-later (obj fs) vs f = f

  visit_names-Found :
      (vs : List Value) (ps : List String)
      → visit_names visit_child props vs pointer ≡ ok ps
      → has p ps ≡ true
      → Found visit_child props vs pointer p
  unfolding visit_names
  visit_names-Found [] ps h k = absurd (ground (arith, h, k))
  visit_names-Found (str name ∷ vs) ps h k =
      let path = pointer_join pointer name in
      let this : names name (str name ∷ vs) ≡ true = ground (arith, eq_refl name) in
      elim (Option-cases (fields_of (get_field name props))) [
        | inl e ↦
            let (rs, r, h') =
              >>=-eq-ok (visit_names visit_child props vs pointer) _ (rw (e, visit_names) at h) in
            elim (Bool-cases (str_eq path p)) [
              | inl same ↦ (name, this, inl (ground (arith, eq_iff path p, same)))
              | inr other ↦ Found-later (str name) vs (
                  visit_names-Found vs rs r
                    (ground (arith, other, k, ap (has p) (ok-injective h'))))
            ]
        | inr (child, e) ↦
            let (bs, b, h') = >>=-eq-ok (visit_child child path) _ (rw (e, visit_names) at h) in
            let (rs, r, h'') = >>=-eq-ok (visit_names visit_child props vs pointer) _ h' in
            let parts = ap (has p) (ok-injective h'') in
            elim (Bool-cases (str_eq path p)) [
              | inl same ↦ (name, this, inl (ground (arith, eq_iff path p, same)))
              | inr other ↦ elim (Bool-cases (has p bs)) [
                | inl under ↦ (name, this, inr (child, e, (bs, b, under)))
                | inr apart ↦ Found-later (str name) vs (
                    visit_names-Found vs rs r
                      (ground (arith, other, apart, k, parts, has-append_both p bs rs)))
              ]
            ]
      ]
  visit_names-Found (null ∷ vs) ps h k = visit_names-Found vs ps h k
  visit_names-Found (bool b ∷ vs) ps h k = visit_names-Found vs ps h k
  visit_names-Found (int z ∷ vs) ps h k = visit_names-Found vs ps h k
  visit_names-Found (float t ∷ vs) ps h k = visit_names-Found vs ps h k
  visit_names-Found (arr xs ∷ vs) ps h k = visit_names-Found vs ps h k
  visit_names-Found (obj fs ∷ vs) ps h k = visit_names-Found vs ps h k

  -- What follows from the first name, and from the later ones.
  Found-visit_names :
      (vs : List Value) (ps : List String)
      → visit_names visit_child props vs pointer ≡ ok ps
      → Found visit_child props vs pointer p
      → has p ps ≡ true
  unfolding visit_names
  Found-visit_names [] ps h (name, k, how) = absurd (cc k)
  Found-visit_names (str s ∷ vs) ps h (name, k, how) =
      let path = pointer_join pointer s in
      elim (Option-cases (fields_of (get_field s props))) [
        | inl e ↦
            let (rs, r, h') =
              >>=-eq-ok (visit_names visit_child props vs pointer) _ (rw (e, visit_names) at h) in
            let parts = ap (has p) (ok-injective h') in
            elim (Bool-cases (str_eq s name)) [
              | inr other ↦
                  ground (arith, parts, Found-visit_names vs rs r (name, ground arith, how))
              | inl same ↦
                  let is : s ≡ name = (eq_iff s name).0 same in
                  elim how [
                    | inl at ↦
                        let there : p ≡ path = ground (arith, at, is) in
                        ground (arith, parts, ap (str_eq path) there, eq_refl path)
                    | inr (child, c, _) ↦ absurd (ground (arith, e, c, is))
                  ]
            ]
        | inr (child, e) ↦
            let (bs, b, h') = >>=-eq-ok (visit_child child path) _ (rw (e, visit_names) at h) in
            let (rs, r, h'') = >>=-eq-ok (visit_names visit_child props vs pointer) _ h' in
            let parts = ap (has p) (ok-injective h'') in
            let both = has-append_both p bs rs in
            elim (Bool-cases (str_eq s name)) [
              | inr other ↦
                  ground (arith, parts, both, Found-visit_names vs rs r (name, ground arith, how))
              | inl same ↦
                  let is : s ≡ name = (eq_iff s name).0 same in
                  elim how [
                    | inl at ↦
                        let there : p ≡ path = ground (arith, at, is) in
                        ground (arith, parts, ap (str_eq path) there, eq_refl path)
                    | inr (child', c, (bs', b', under)) ↦
                        let twin : child' ≡ child = ground (arith, e, c, is) in
                        let at_twin : visit_child child path ≡ ok bs' =
                          ground (arith, twin, is, b') in
                        let like : bs ≡ bs' = ground (arith, b, at_twin) in
                        ground (arith, parts, both, under, ap (has p) like)
                  ]
            ]
      ]
  Found-visit_names (null ∷ vs) ps h f = Found-visit_names vs ps h f
  Found-visit_names (bool b ∷ vs) ps h f = Found-visit_names vs ps h f
  Found-visit_names (int z ∷ vs) ps h f = Found-visit_names vs ps h f
  Found-visit_names (float t ∷ vs) ps h f = Found-visit_names vs ps h f
  Found-visit_names (arr xs ∷ vs) ps h f = Found-visit_names vs ps h f
  Found-visit_names (obj fs ∷ vs) ps h f = Found-visit_names vs ps h f

visit_schema-Required :
    (fuel : ℕ) (schema : Fields) (pointer p : String) (ps : List String)
    → visit_schema fuel schema pointer ≡ ok ps
    → has p ps ≡ true
    → Required schema pointer p
unfolding visit_schema
visit_schema-Required zero schema pointer p ps h k = absurd (cc h)
visit_schema-Required (suc fuel) schema pointer p ps h k =
    elim (Option-cases (fields_of (get_field "properties" schema))) [
      | inl e ↦ absurd (ground (arith, e, h, k))
      | inr (props, e) ↦
          let (name, named, how) =
            visit_names-Found (visit_schema fuel) props pointer p
              (list_of (get_field "required" schema)) ps (rw (e, visit_schema) at h) k in
          elim how [
            | inl at ↦ subst (Required schema pointer) (sym at) (here name e named)
            | inr (child, c, (bs, b, under)) ↦
                below name e named c
                  (visit_schema-Required fuel child (pointer_join pointer name) p bs b under)
          ]
    ]

Required-visit_schema :
    (fuel : ℕ) (schema : Fields) (pointer p : String) (ps : List String)
    → Required schema pointer p
    → depth_fields schema < fuel
    → visit_schema fuel schema pointer ≡ ok ps
    → has p ps ≡ true
unfolding visit_schema
Required-visit_schema zero schema pointer p ps r d h = absurd (omega arith)
Required-visit_schema (suc fuel) schema pointer p ps (here {props = props} name e named) d h =
    Found-visit_names (visit_schema fuel) props pointer (pointer_join pointer name)
      (list_of (get_field "required" schema)) ps (rw (e, visit_schema) at h) (name, named, inl refl)
Required-visit_schema (suc fuel) schema pointer p ps
      (below {props = props} {child = child} name e named c r) d h =
    let less = fields_of-get_field "properties" schema e in
    let lesser = fields_of-get_field name props c in
    let (bs, b) =
      visit_schema-ok fuel child (pointer_join pointer name) (omega (arith, d, less, lesser)) in
    let under =
      Required-visit_schema fuel child (pointer_join pointer name) p bs r
        (omega (arith, d, less, lesser)) b in
    Found-visit_names (visit_schema fuel) props pointer p (list_of (get_field "required" schema)) ps
      (rw (e, visit_schema) at h) (name, named, inr (child, c, (bs, b, under)))

-- The required pointers of a schema are found for every schema and base: they are exactly the pointers
-- that the schema requires, of its required properties and of those below them at every depth.
pub required_pointers-Required :
    (schema : Fields) (base : String)
    → (ps : List String) × (required_pointers schema base ≡ ok ps)
      × ((p : String) → has p ps ≡ true ↔ Required schema base p)
unfolding required_pointers
required_pointers-Required schema base =
    let (ps, h) = visit_schema-ok (suc (depth_fields schema)) schema base (omega arith) in
    let same : (p : String) → has p (sort_by str_le (unique ps)) ≡ has p ps =
      λ p. has-sort_by p (unique ps) ∙ has-unique p ps in
    (
      sort_by str_le (unique ps),
      rw h refl,
      λ p. (
        λ k. visit_schema-Required _ schema base p ps h (sym (same p) ∙ k),
        λ r. same p ∙ Required-visit_schema _ schema base p ps r (omega arith) h,
      ),
    )
