-- ===== src/Config/Layers.antt =====
-- Which layer wins.
use neuronium.Prelude.{
  ℕ, ◌+◌, ◌≤◌, String, ◌≡◌, refl, sym, ap, ◌∙◌, Option, none, some, List, [], ◌∷◌, arith,
  if◌then◌else◌, str_eq, eq_iff, eq_refl, ok, >>=-eq-ok, ok-injective, Bool-cases, inl, inr, Bool,
  true, false, subst, ◌⊎◌,
}
use neuronium.Prelude.Value.{
  get_field-put_field, Value, Fields, end, field, obj, get_field, put_field,
}
use neuronium.Config.Defs.{deep_merge, merge_value, nested_dict, is_last, set_nested}

-- How often a key stands in a dict: at most once in a Python dict.
abbrev pub times_in : String → Fields → ℕ
times_in k end = 0
times_in k (field j v fs) = (if str_eq j k then 1 else 0) + times_in k fs

absent_none : (k : String) (fs : Fields) → times_in k fs ≡ 0 → get_field k fs ≡ none
unfolding get_field
absent_none k end h = refl
absent_none k (field j v fs) h = ground (arith, absent_none k fs)

-- The merged value of a key.
abbrev merged : Option Value → Option Value → Option Value
merged old none = old
merged old (some v) = some (merge_value old v)

get_field-merged :
    (k : String) (base override : Fields)
    → times_in k override ≤ 1
    → get_field k (deep_merge base override) ≡ merged (get_field k base) (get_field k override)
unfolding deep_merge get_field
get_field-merged k base end h = refl
get_field-merged k base (field j v rest) h =
    let put = get_field-put_field j k (merge_value (get_field j base) v) base in
    let rec = get_field-merged k (put_field j (merge_value (get_field j base) v) base) rest in
    elim (Bool-cases (str_eq j k)) [
      | inl e ↦
          let absent = absent_none k rest (ground (arith, e, h)) in
          rw e (
            rec (ground (arith, e, h))
            ∙ (rw absent (
                put
                ∙ (rw e (ap (λ i. some (merge_value (get_field i base) v)) ((eq_iff j k).0 e))))))
      | inr e ↦
          rw e
            (rec (ground (arith, e, h)) ∙ ap (λ o. merged o (get_field k rest)) (put ∙ rw e refl))
    ]

abbrev pub both_dicts : Option Value → Value → Bool
both_dicts (some (obj fs)) (obj os) = true
both_dicts old v = false

-- The value under a key of the merge.
abbrev pub Layered : (old new result : Option Value) → Type 0
Layered old new result =
    ((new ≡ none) × (result ≡ old))
    ⊎ ((fs : Fields) × (os : Fields) × ((old ≡ some (obj fs))
          × (new ≡ some (obj os))
          × (result ≡ some (obj (deep_merge fs os)))))
    ⊎ ((v : Value) × ((new ≡ some v) × (both_dicts old v ≡ false) × (result ≡ some v)))

merged-Layered : (old new : Option Value) → Layered old new (merged old new)
unfolding merge_value
merged-Layered old none = inl (refl, refl)
merged-Layered (some (obj fs)) (some (obj os)) = inr (inl (fs, os, (refl, refl, refl)))
merged-Layered none (some v) = inr (inr (v, (refl, refl, refl)))
merged-Layered (some (obj fs)) (some v) = inr (inr (v, (refl, refl, refl)))
merged-Layered (some w) (some v) = inr (inr (v, (refl, refl, refl)))

-- What the merge holds under a key that stands at most once in the override: the base's value, if the
-- override has none; the merge of the two dicts, if both have a dict there; else the override's value.
pub get_field-deep_merge :
    (k : String) (base override : Fields)
    → times_in k override ≤ 1
    → Layered (get_field k base) (get_field k override) (get_field k (deep_merge base override))
get_field-deep_merge k base override h =
    subst (Layered (get_field k base) (get_field k override))
      (sym (get_field-merged k base override h))
      (merged-Layered (get_field k base) (get_field k override))

-- The value at a path of keys through nested dicts.
abbrev pub inside : Option Value → Fields
inside (some (obj fs)) = fs
inside v = end

unfoldable pub path_value : List String → Fields → Option Value
path_value [] settings = none
path_value (part ∷ []) settings = get_field part settings
path_value (part ∷ next ∷ path) settings =
    path_value (next ∷ path) (inside (get_field part settings))

-- A nested key that was set is read back, whatever the settings held before.
pub path_value-set_nested :
    (part : String) (path : List String) (value : Value) (settings out : Fields)
    → set_nested (part ∷ path) value settings ≡ ok out
    → path_value (part ∷ path) out ≡ some value
unfolding set_nested path_value
path_value-set_nested part [] value settings out h =
    ap (get_field part) (sym (ok-injective h))
    ∙ get_field-put_field part part value settings
    ∙ rw (eq_refl part) refl
path_value-set_nested part (next ∷ path) value settings out h =
    let (inner, a, h') =
      >>=-eq-ok (nested_dict (get_field part settings) (is_last (next ∷ path))) _ h in
    let (inner', b, h'') = >>=-eq-ok (set_nested (next ∷ path) value inner) _ h' in
    let read : get_field part out ≡ some (obj inner') =
      ap (get_field part) (sym (ok-injective h''))
      ∙ get_field-put_field part part (obj inner') settings
      ∙ rw (eq_refl part) refl in
    rw read (path_value-set_nested next path value inner inner' b)
