-- ===== src/Tests/Patches.antt =====
-- Patches of a small state, and pointers.
use neuronium.Prelude.{◌≡◌, refl, none, some, [], ◌∷◌, ok, is_some}
use neuronium.Prelude.Value.{
  Value, nil, cons, end, field, null, str, arr, obj, get_field, put_field,
}
use neuronium.Prelude.Sequences.{count_items, item_at, set_item, insert_item}
use neuronium.Schemas.Pointer.{
  pointer_tokens, pointer_join, unescape_token, replace_tilde, split_slash,
}
use neuronium.Schemas.Pointer.Roundtrip.{pointer_tokens-pointer_join}
use neuronium.Planning.Patch.{
  PatchOp, validate_by_op, decode_pointer, at_parent, child_at, put_child, index_of, read_digits,
  apply_add, apply_replace, apply_op, apply_patch, step_into, value_at,
}
use neuronium.Planning.Patch.Access.{is_ok}
use neuronium.Planning.Patch.Laws.{
  patch_of, apply_patch-value_at, apply_patch_iff, apply_patch_undo_add,
}

abbrev a_state : Value
a_state = obj (field "inputs" (obj (field "urls" (arr (cons (str "u") nil)) end)) end)

abbrev longer_state : Value
longer_state =
    obj (field "inputs" (obj (field "urls" (arr (cons (str "u") (cons (str "v") nil))) end)) end)

abbrev other_state : Value
other_state = obj (field "inputs" (obj (field "urls" (arr (cons (str "w") nil)) end)) end)

adds : apply_patch (patch_of PatchOp.add "/inputs/urls/1" (str "v")) a_state ≡ ok longer_state
unfolding apply_patch validate_by_op decode_pointer split_slash unescape_token replace_tilde
    apply_op at_parent child_at put_child apply_add index_of read_digits get_field put_field
    count_items insert_item
adds = refl

replaces :
    apply_patch (patch_of PatchOp.replace "/inputs/urls/0" (str "w")) a_state ≡ ok other_state
unfolding apply_patch validate_by_op decode_pointer split_slash unescape_token replace_tilde
    apply_op at_parent child_at put_child apply_replace index_of read_digits get_field put_field
    count_items set_item
replaces = refl

reads_1 : decode_pointer "/inputs/urls/1" ≡ ok ("inputs" ∷ "urls" ∷ "1" ∷ [])
unfolding decode_pointer split_slash unescape_token replace_tilde
reads_1 = refl

reads_0 : decode_pointer "/inputs/urls/0" ≡ ok ("inputs" ∷ "urls" ∷ "0" ∷ [])
unfolding decode_pointer split_slash unescape_token replace_tilde
reads_0 = refl

nothing_there : value_at ("inputs" ∷ "urls" ∷ "1" ∷ []) a_state ≡ none
unfolding value_at step_into get_field index_of read_digits item_at
nothing_there = refl

something_there : value_at ("inputs" ∷ "urls" ∷ "0" ∷ []) a_state ≡ some (str "u")
unfolding value_at step_into get_field index_of read_digits item_at
something_there = refl

apply_patch-value_at_example : value_at ("inputs" ∷ "urls" ∷ "1" ∷ []) longer_state ≡ some (str "v")
apply_patch-value_at_example =
    apply_patch-value_at (record { op = PatchOp.add; path = "/inputs/urls/1"; value = str "v" })
      ("inputs" ∷ "urls" ∷ "1" ∷ []) a_state longer_state refl reads_1 refl adds

apply_patch_iff_example :
    is_ok (apply_patch (patch_of PatchOp.remove "/inputs/urls/1" (str "")) a_state)
    ≡ is_some (value_at ("inputs" ∷ "urls" ∷ "1" ∷ []) a_state)
apply_patch_iff_example =
    apply_patch_iff PatchOp.remove "/inputs/urls/1" (str "") ("inputs" ∷ "urls" ∷ "1" ∷ []) a_state
      (λ e. cc) refl reads_1

apply_patch_undo_add_example :
    apply_patch (patch_of PatchOp.remove "/inputs/urls/1" null) longer_state ≡ ok a_state
apply_patch_undo_add_example =
    apply_patch_undo_add "/inputs/urls/1" (str "v") ("inputs" ∷ "urls" ∷ "1" ∷ []) a_state
      longer_state reads_1 refl nothing_there adds

a_pointer : pointer_tokens "/inputs/a~1b" ≡ ok ("inputs" ∷ "a/b" ∷ [])
unfolding pointer_tokens split_slash unescape_token replace_tilde
a_pointer = refl

pointer_tokens-pointer_join_example :
    pointer_tokens (pointer_join "/inputs/a~1b" "c~d/e") ≡ ok ("inputs" ∷ "a/b" ∷ "c~d/e" ∷ [])
pointer_tokens-pointer_join_example =
    pointer_tokens-pointer_join "/inputs/a~1b" "c~d/e" ("inputs" ∷ "a/b" ∷ []) a_pointer
