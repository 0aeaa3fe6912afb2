-- ===== src/Planning/Patch/Steps.antt =====
-- One change of a container, by the last token of a pointer.
use Prim.Native.String.{String}
use neuronium.Prelude.{
  ◌≡◌, refl, ap, false, none, some, arith, is_some, str_eq, ok, Option-cases, inl, inr,
}
use neuronium.Prelude.Value.{Value, obj, arr, null, bool, int, float, str}
use neuronium.Planning.Patch.Defs.{
  index_of, put_child, apply_add, apply_replace, apply_remove, step_into,
}
use neuronium.Planning.Patch.Access.{
  is_ok, get_field-put_field_self, put_field-put_field, drop_field-put_field, is_some-item_at,
  item_at-set_item, set_item-set_item, count_items-set_item, item_at-insert_item,
  count_items-insert_item, drop_item-insert_item, dash_no_index,
}

pub step_into-put_child :
    (token : String) (w v : Value) {c : Value}
    → step_into token v ≡ some c
    → step_into token (put_child token w v) ≡ some w
unfolding step_into put_child
step_into-put_child token w (obj fs) h = get_field-put_field_self token w fs
step_into-put_child token w (arr xs) h = elim (Option-cases (index_of token)) [
  | inl e ↦ absurd (ground (arith, e))
  | inr (i, e) ↦ ground (arith, e, item_at-set_item i w xs, is_some-item_at i xs)
]
step_into-put_child token w null h = absurd (cc)
step_into-put_child token w (bool b) h = absurd (cc)
step_into-put_child token w (int z) h = absurd (cc)
step_into-put_child token w (float t) h = absurd (cc)
step_into-put_child token w (str t) h = absurd (cc)

pub put_child-put_child :
    (token : String) (w v c : Value)
    → step_into token v ≡ some c
    → put_child token c (put_child token w v) ≡ v
unfolding step_into put_child
put_child-put_child token w (obj fs) c h = ap obj (put_field-put_field token w c fs h)
put_child-put_child token w (arr xs) c h = elim (Option-cases (index_of token)) [
  | inl e ↦ absurd (ground (arith, e))
  | inr (i, e) ↦ ground (arith, e, set_item-set_item i w c xs)
]
put_child-put_child token w null c h = refl
put_child-put_child token w (bool b) c h = refl
put_child-put_child token w (int z) c h = refl
put_child-put_child token w (float t) c h = refl
put_child-put_child token w (str t) c h = refl

pub step_into-apply_add :
    (value : Value) (key : String) (v : Value) {v' : Value}
    → apply_add value key v ≡ ok v'
    → str_eq key "-" ≡ false
    → step_into key v' ≡ some value
unfolding step_into apply_add
step_into-apply_add value key (obj fs) h d = ground (arith, get_field-put_field_self key value fs)
step_into-apply_add value key (arr xs) h d = elim (Option-cases (index_of key)) [
  | inl e ↦ absurd (ground (arith, e, d))
  | inr (i, e) ↦ ground (arith, e, d, item_at-insert_item i value xs)
]
step_into-apply_add value key null h d = absurd (cc)
step_into-apply_add value key (bool b) h d = absurd (cc)
step_into-apply_add value key (int z) h d = absurd (cc)
step_into-apply_add value key (float t) h d = absurd (cc)
step_into-apply_add value key (str t) h d = absurd (cc)

pub step_into-apply_replace :
    (value : Value) (key : String) (v : Value) {v' : Value}
    → apply_replace value key v ≡ ok v'
    → step_into key v' ≡ some value
unfolding step_into apply_replace
step_into-apply_replace value key (obj fs) h = ground (arith, get_field-put_field_self key value fs)
step_into-apply_replace value key (arr xs) h = elim (Option-cases (index_of key)) [
  | inl e ↦ absurd (ground (arith, e))
  | inr (i, e) ↦ ground (arith, e, dash_no_index key, item_at-set_item i value xs)
]
step_into-apply_replace value key null h = absurd (cc)
step_into-apply_replace value key (bool b) h = absurd (cc)
step_into-apply_replace value key (int z) h = absurd (cc)
step_into-apply_replace value key (float t) h = absurd (cc)
step_into-apply_replace value key (str t) h = absurd (cc)

pub is_ok-apply_replace :
    (w : Value) (key : String) (v : Value)
    → is_ok (apply_replace w key v) ≡ is_some (step_into key v)
unfolding step_into apply_replace
is_ok-apply_replace w key (obj fs) = ground arith
is_ok-apply_replace w key (arr xs) = elim (Option-cases (index_of key)) [
  | inl e ↦ ground (arith, e)
  | inr (i, e) ↦ ground (arith, e, dash_no_index key, is_some-item_at i xs)
]
is_ok-apply_replace w key null = refl
is_ok-apply_replace w key (bool b) = refl
is_ok-apply_replace w key (int z) = refl
is_ok-apply_replace w key (float t) = refl
is_ok-apply_replace w key (str t) = refl

pub is_ok-apply_remove :
    (key : String) (v : Value) → is_ok (apply_remove key v) ≡ is_some (step_into key v)
unfolding step_into apply_remove
is_ok-apply_remove key (obj fs) = ground arith
is_ok-apply_remove key (arr xs) = elim (Option-cases (index_of key)) [
  | inl e ↦ ground (arith, e)
  | inr (i, e) ↦ ground (arith, e, dash_no_index key, is_some-item_at i xs)
]
is_ok-apply_remove key null = refl
is_ok-apply_remove key (bool b) = refl
is_ok-apply_remove key (int z) = refl
is_ok-apply_remove key (float t) = refl
is_ok-apply_remove key (str t) = refl

-- Removing what was added where nothing was.
pub apply_remove-apply_add :
    (value : Value) (key : String) (v : Value) {v' : Value}
    → str_eq key "-" ≡ false
    → step_into key v ≡ none
    → apply_add value key v ≡ ok v'
    → apply_remove key v' ≡ ok v
unfolding step_into apply_add apply_remove
apply_remove-apply_add value key (obj fs) d n h =
    ground (arith, get_field-put_field_self key value fs, drop_field-put_field key value fs)
apply_remove-apply_add value key (arr xs) d n h = elim (Option-cases (index_of key)) [
  | inl e ↦ absurd (ground (arith, e, d))
  | inr (i, e) ↦
      ground (arith, e, d, count_items-insert_item i value xs, drop_item-insert_item i value xs)
]
apply_remove-apply_add value key null d n h = absurd (cc)
apply_remove-apply_add value key (bool b) d n h = absurd (cc)
apply_remove-apply_add value key (int z) d n h = absurd (cc)
apply_remove-apply_add value key (float t) d n h = absurd (cc)
apply_remove-apply_add value key (str t) d n h = absurd (cc)

-- Replacing a value and then replacing it by the old one.
pub apply_replace-apply_replace :
    (w old : Value) (key : String) (v : Value) {v' : Value}
    → step_into key v ≡ some old
    → apply_replace w key v ≡ ok v'
    → apply_replace old key v' ≡ ok v
unfolding step_into apply_replace
apply_replace-apply_replace w old key (obj fs) n h =
    ground (arith, get_field-put_field_self key w fs, put_field-put_field key w old fs)
apply_replace-apply_replace w old key (arr xs) n h = elim (Option-cases (index_of key)) [
  | inl e ↦ absurd (ground (arith, e))
  | inr (i, e) ↦
      ground
        (arith, e, dash_no_index key, count_items-set_item i w xs, set_item-set_item i w old xs)
]
apply_replace-apply_replace w old key null n h = absurd (cc)
apply_replace-apply_replace w old key (bool b) n h = absurd (cc)
apply_replace-apply_replace w old key (int z) n h = absurd (cc)
apply_replace-apply_replace w old key (float t) n h = absurd (cc)
apply_replace-apply_replace w old key (str t) n h = absurd (cc)
