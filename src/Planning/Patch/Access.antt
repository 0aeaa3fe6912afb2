-- ===== src/Planning/Patch/Access.antt =====
-- Containers under a write: what one step of a pointer reads after one change.
use Prim.Native.String.{String}
use neuronium.Prelude.{
  ◌∙◌, ℕ, zero, suc, ◌≡◌, refl, ap, Bool, true, false, none, some, arith, is_some, leb, ltb, str_eq,
  eq_iff, eq_refl, Result, ok, err, patch_error, or_raise, Bool-cases, inl, inr,
}
use neuronium.Prelude.Value.{
  get_field-put_field, Value, Items, Fields, nil, cons, end, field, obj, arr, null, bool, int,
  float, str, get_field, put_field, drop_field,
}
use neuronium.Prelude.Sequences.{count_items, item_at, set_item, insert_item, drop_item}
use neuronium.Planning.Patch.Defs.{index_of, read_digits, child_at, step_into}

abbrev pub is_ok : Result Value → Bool
is_ok (ok v) = true
is_ok (err e) = false

pub get_field-put_field_self :
    (k : String) (v : Value) (fs : Fields) → get_field k (put_field k v fs) ≡ some v
get_field-put_field_self k v fs = get_field-put_field k k v fs ∙ rw (eq_refl k) refl

-- Writing back the old value restores the dict, its order included.
pub put_field-put_field :
    (k : String) (v w : Value) (fs : Fields)
    → get_field k fs ≡ some w
    → put_field k w (put_field k v fs) ≡ fs
unfolding get_field put_field
put_field-put_field k v w end h = absurd (cc)
put_field-put_field k v w (field j u fs) h = elim (Bool-cases (str_eq j k)) [
  | inl e ↦ rw (e, put_field) (rw (e, put_field) (ap (λ x. field j x fs) (ground (arith, e))))
  | inr e ↦
      rw (e, put_field)
        (rw (e, put_field) (ap (field j u) (put_field-put_field k v w fs (ground (arith, e)))))
]

-- A new key goes to the end, and deleting it restores the dict.
pub drop_field-put_field :
    (k : String) (v : Value) (fs : Fields)
    → get_field k fs ≡ none
    → drop_field k (put_field k v fs) ≡ fs
unfolding get_field put_field drop_field
drop_field-put_field k v end h = rw (eq_refl k, drop_field)
drop_field-put_field k v (field j u fs) h =
    let e : str_eq j k ≡ false = ground arith in
    rw (e, put_field)
      (rw (e, drop_field) (ap (field j u) (drop_field-put_field k v fs (ground (arith, e)))))

pub is_some-item_at : (i : ℕ) (xs : Items) → is_some (item_at i xs) ≡ ltb i (count_items xs)
unfolding item_at count_items
is_some-item_at i nil = ground arith
is_some-item_at zero (cons v xs) = ground arith
is_some-item_at (suc i) (cons v xs) = ground (arith, is_some-item_at i xs)

pub item_at-set_item :
    (i : ℕ) (w : Value) (xs : Items)
    → ltb i (count_items xs) ≡ true
    → item_at i (set_item i w xs) ≡ some w
unfolding item_at set_item count_items
item_at-set_item i w nil h = absurd (ground arith)
item_at-set_item zero w (cons v xs) h = refl
item_at-set_item (suc i) w (cons v xs) h = item_at-set_item i w xs (ground arith)

pub set_item-set_item :
    (i : ℕ) (v w : Value) (xs : Items) → item_at i xs ≡ some w → set_item i w (set_item i v xs) ≡ xs
unfolding item_at set_item
set_item-set_item i v w nil h = refl
set_item-set_item zero v w (cons x xs) h = ap (λ y. cons y xs) (ground arith)
set_item-set_item (suc i) v w (cons x xs) h = ap (cons x) (set_item-set_item i v w xs h)

pub count_items-set_item :
    (i : ℕ) (w : Value) (xs : Items) → count_items (set_item i w xs) ≡ count_items xs
unfolding set_item count_items
count_items-set_item i w nil = refl
count_items-set_item zero w (cons v xs) = refl
count_items-set_item (suc i) w (cons v xs) = omega (arith, count_items-set_item i w xs)

pub item_at-insert_item :
    (i : ℕ) (w : Value) (xs : Items)
    → leb i (count_items xs) ≡ true
    → item_at i (insert_item i w xs) ≡ some w
unfolding item_at insert_item count_items
item_at-insert_item zero w nil h = refl
item_at-insert_item (suc i) w nil h = absurd (ground arith)
item_at-insert_item zero w (cons v xs) h = refl
item_at-insert_item (suc i) w (cons v xs) h = item_at-insert_item i w xs (ground arith)

pub count_items-insert_item :
    (i : ℕ) (w : Value) (xs : Items) → count_items (insert_item i w xs) ≡ suc (count_items xs)
unfolding insert_item count_items
count_items-insert_item zero w nil = refl
count_items-insert_item (suc i) w nil = refl
count_items-insert_item zero w (cons v xs) = refl
count_items-insert_item (suc i) w (cons v xs) = omega (arith, count_items-insert_item i w xs)

pub drop_item-insert_item :
    (i : ℕ) (w : Value) (xs : Items)
    → leb i (count_items xs) ≡ true
    → drop_item i (insert_item i w xs) ≡ xs
unfolding drop_item insert_item count_items
drop_item-insert_item zero w nil h = refl
drop_item-insert_item (suc i) w nil h = absurd (ground arith)
drop_item-insert_item zero w (cons v xs) h = refl
drop_item-insert_item (suc i) w (cons v xs) h =
    ap (cons v) (drop_item-insert_item i w xs (ground arith))

pub dash_no_index : (token : String) → str_eq token "-" ≡ true → index_of token ≡ none
unfolding index_of read_digits
dash_no_index token e = rw ((eq_iff token "-").0 e)

-- `_resolve_parent` finds a child exactly where the reader does.
pub child_at-step_into :
    (token : String) (v : Value) → child_at token v ≡ or_raise (step_into token v) patch_error
unfolding child_at step_into
child_at-step_into token (obj fs) = refl
child_at-step_into token (arr xs) = ground (arith, dash_no_index token)
child_at-step_into token null = refl
child_at-step_into token (bool b) = refl
child_at-step_into token (int z) = refl
child_at-step_into token (float t) = refl
child_at-step_into token (str t) = refl
