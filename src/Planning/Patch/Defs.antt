-- ===== src/Planning/Patch/Defs.antt =====
-- `apply_patch` and its helpers, and `_state_value_at_pointer` of planning/missing_slots.py, which
-- reads a state by the same pointers. A state is a JSON value that nothing else refers to, so a
-- function from the old one to the new one stands for the changes in place. `str.isdigit` and `int` are
-- modelled on the ASCII digits.
use Prim.Native.Char.{code}
use Prim.Native.String.{String}
use neuronium.Prelude.{
  ℕ, ◌+◌, ◌-◌, ◌*◌, Bool, true, false, not, ◌&&◌, Option, none, some, List, [], ◌∷◌, map, is_some,
  leb, ltb, if◌then◌else◌, str_eq, Result, ok, err, patch_error, or_raise, guard, ◌>>=◌, ◌>>◌,
}
use neuronium.Prelude.Value.{is_null, Value, obj, arr, get_field, put_field, drop_field}
use neuronium.Prelude.Sequences.{
  count_items, item_at, set_item, insert_item, append_item, drop_item,
}
use neuronium.Schemas.Pointer.{is_char, split_slash, unescape_token}

pub data PatchOp : Type 0 where
  add replace remove : PatchOp

-- A missing value is None.
pub record PatchOperation : Type 0 where
  pub op : PatchOp
  pub path : String
  pub value : Value

abbrev pub starts_with_slash : String → Bool
starts_with_slash String.[] = false
starts_with_slash (String.◌∷◌ c s) = is_char b'/' c

abbrev pub needs_value : PatchOp → Bool
needs_value PatchOp.remove = false
needs_value _ = true

-- `_validate_by_op`
unfoldable pub validate_by_op : PatchOperation → Result (Unit {0})
validate_by_op op = do
  guard (starts_with_slash op.path) patch_error
  guard (not (needs_value op.op && is_null op.value)) patch_error

unfoldable pub decode_pointer : String → Result (List String)
decode_pointer String.[] = err patch_error
decode_pointer (String.◌∷◌ c s) =
    if is_char b'/' c then ok (map unescape_token (split_slash s)) else err patch_error

-- `int(token)` if `token.isdigit()`
unfoldable pub read_digits : ℕ → String → Option ℕ
read_digits n String.[] = some n
read_digits n (String.◌∷◌ c s) =
    let rest = read_digits (n * 10 + (code c - b'0')) s in
    if leb b'0' (code c) && leb (code c) b'9' then rest else none

unfoldable pub index_of : String → Option ℕ
index_of String.[] = none
index_of (String.◌∷◌ c s) = read_digits 0 (String.◌∷◌ c s)

-- One step of `_resolve_parent`.
unfoldable pub child_at : String → Value → Result Value
child_at token (obj fs) = or_raise (get_field token fs) patch_error
child_at token (arr xs) = do
  i ← or_raise (index_of token) patch_error
  or_raise (item_at i xs) patch_error
child_at token v = err patch_error

-- The container with that child replaced.
unfoldable pub put_child : String → Value → Value → Value
put_child token w (obj fs) = obj (put_field token w fs)
put_child token w (arr xs) = elim (index_of token) [
  | none ↦ arr xs
  | some i ↦ arr (set_item i w xs)
]
put_child token w v = v

-- A change of the parent that `_resolve_parent` finds, with the last token.
unfoldable pub at_parent : (String → Value → Result Value) → List String → Value → Result Value
at_parent change [] v = err patch_error
at_parent change (token ∷ []) v = change token v
at_parent change (token ∷ next ∷ tokens) v = do
  child ← child_at token v
  child' ← at_parent change (next ∷ tokens) child
  ok (put_child token child' v)

unfoldable pub apply_add : Value → String → Value → Result Value
apply_add value key (obj fs) = ok (obj (put_field key value fs))
apply_add value key (arr xs) = if str_eq key "-" then ok (arr (append_item value xs)) else (do
  i ← or_raise (index_of key) patch_error
  guard (leb i (count_items xs)) patch_error
  ok (arr (insert_item i value xs)))
apply_add value key v = err patch_error

unfoldable pub apply_replace : Value → String → Value → Result Value
apply_replace value key (obj fs) = do
  guard (is_some (get_field key fs)) patch_error
  ok (obj (put_field key value fs))
apply_replace value key (arr xs) = do
  i ← or_raise (index_of key) patch_error
  guard (ltb i (count_items xs)) patch_error
  ok (arr (set_item i value xs))
apply_replace value key v = err patch_error

unfoldable pub apply_remove : String → Value → Result Value
apply_remove key (obj fs) = do
  guard (is_some (get_field key fs)) patch_error
  ok (obj (drop_field key fs))
apply_remove key (arr xs) = do
  i ← or_raise (index_of key) patch_error
  guard (ltb i (count_items xs)) patch_error
  ok (arr (drop_item i xs))
apply_remove key v = err patch_error

unfoldable pub apply_op : PatchOperation → List String → Value → Result Value
apply_op op tokens st = elim op.op [
  | PatchOp.add ↦ at_parent (apply_add op.value) tokens st
  | PatchOp.replace ↦ at_parent (apply_replace op.value) tokens st
  | PatchOp.remove ↦ at_parent apply_remove tokens st
]

unfoldable pub apply_patch : List PatchOperation → Value → Result Value
apply_patch [] st = ok st
apply_patch (op ∷ ops) st = do
  _ ← validate_by_op op
  tokens ← decode_pointer op.path
  st' ← apply_op op tokens st
  apply_patch ops st'

-- `_state_value_at_pointer`, on the tokens
unfoldable pub step_into : String → Value → Option Value
step_into token (obj fs) = get_field token fs
step_into token (arr xs) =
    if str_eq token "-" then none else elim (index_of token) [ none ↦ none | some i ↦ item_at i xs ]
step_into token v = none

unfoldable pub value_at : List String → Value → Option Value
value_at [] v = some v
value_at (token ∷ tokens) v = elim (step_into token v) [ none ↦ none | some c ↦ value_at tokens c ]
