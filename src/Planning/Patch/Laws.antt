-- ===== src/Planning/Patch/Laws.antt =====
-- The laws of `apply_patch`, for a patch of one operation.
use Prim.Native.String.{String}
use neuronium.Prelude.{
  ◌≡◌, ◌≢◌, refl, ◌∙◌, true, false, ◌&&◌, none, some, List, [], ◌∷◌, map, arith, is_some,
  if◌then◌else◌, ok, err, patch_error, Bool-cases, inl, inr, Result-cases,
}
use neuronium.Prelude.Value.{is_null, Value, null}
use neuronium.Schemas.Pointer.{split_slash, unescape_token}
use neuronium.Schemas.Pointer.Roundtrip.{split_slash-some}
use neuronium.Planning.Patch.Defs.{
  PatchOp, PatchOperation, validate_by_op, decode_pointer, at_parent, apply_add, apply_replace,
  apply_remove, apply_op, apply_patch, value_at, needs_value, starts_with_slash,
}
use neuronium.Planning.Patch.Access.{is_ok}
use neuronium.Planning.Patch.Steps.{
  step_into-apply_add, step_into-apply_replace, is_ok-apply_replace, is_ok-apply_remove,
  apply_remove-apply_add, apply_replace-apply_replace,
}
use neuronium.Planning.Patch.Writes.{
  ends_in_dash, value_at-at_parent, is_ok-at_parent, at_parent_undo,
}

abbrev pub patch_of : PatchOp → String → Value → List PatchOperation
patch_of kind path value = record { op = kind; path = path; value = value } ∷ []

map_some : (f : String → String) (xs : List String) → xs ≢ [] → map f xs ≢ []
map_some f [] n h = n refl
map_some f (x ∷ xs) n h = cc

decode_some : (path : String) (tokens : List String) → decode_pointer path ≡ ok tokens → tokens ≢ []
unfolding decode_pointer
decode_some String.[] tokens h n = absurd (cc)
decode_some (String.◌∷◌ c s) tokens h n =
    map_some unescape_token (split_slash s) (split_slash-some s) (ground arith)

decode_starts :
    (path : String) (tokens : List String)
    → decode_pointer path ≡ ok tokens
    → starts_with_slash path ≡ true
unfolding decode_pointer
decode_starts String.[] tokens h = absurd (cc)
decode_starts (String.◌∷◌ c s) tokens h = ground arith

-- Apart from the check of the operation, a patch of one operation is that operation.
one_op :
    (op : PatchOperation) (tokens : List String) (st : Value)
    → decode_pointer op.path ≡ ok tokens
    → apply_patch (op ∷ []) st
      ≡ (if needs_value op.op && is_null op.value then err patch_error else apply_op op tokens st)
unfolding apply_patch validate_by_op
one_op op tokens st h = elim (Bool-cases (needs_value op.op && is_null op.value)) [
  | inl e ↦ simp (decode_starts op.path tokens h, e)
  | inr e ↦ elim (Result-cases (apply_op op tokens st)) [
    | inl (v, good) ↦ simp (decode_starts op.path tokens h, e, h, good)
    | inr (x, bad) ↦ simp (decode_starts op.path tokens h, e, h, bad)
  ]
]

one_op_ok :
    (op : PatchOperation) (tokens : List String) (st st' : Value)
    → decode_pointer op.path ≡ ok tokens
    → apply_patch (op ∷ []) st ≡ ok st'
    → apply_op op tokens st ≡ ok st'
one_op_ok op tokens st st' d h = ground (arith, one_op op tokens st d)

written :
    (kind : PatchOp) (path : String) (value : Value) (tokens : List String) (st st' : Value)
    → needs_value kind ≡ true
    → decode_pointer path ≡ ok tokens
    → ends_in_dash tokens ≡ false
    → apply_patch (patch_of kind path value) st ≡ ok st'
    → value_at tokens st' ≡ some value
unfolding apply_op
written PatchOp.add path value tokens st st' n d e h =
    value_at-at_parent (apply_add value) value (λ key v v' x y. step_into-apply_add value key v y x)
      tokens st st' e
      (one_op_ok (record { op = PatchOp.add; path = path; value = value }) tokens st st' d h)
written PatchOp.replace path value tokens st st' n d e h =
    value_at-at_parent (apply_replace value) value
      (λ key v v' x y. step_into-apply_replace value key v y) tokens st st' e
      (one_op_ok (record { op = PatchOp.replace; path = path; value = value }) tokens st st' d h)
written PatchOp.remove path value tokens st st' n d e h = absurd (cc)

-- After a patch that adds or replaces a value at a well-formed pointer has been applied, the
-- pointer reads that value, unless its last token is "-", the place after the end of a list.
pub apply_patch-value_at :
    (op : PatchOperation) (tokens : List String) (st st' : Value)
    → needs_value op.op ≡ true
    → decode_pointer op.path ≡ ok tokens
    → ends_in_dash tokens ≡ false
    → apply_patch (op ∷ []) st ≡ ok st'
    → value_at tokens st' ≡ some op.value
apply_patch-value_at op tokens st st' n d e h = written op.op op.path op.value tokens st st' n d e h

-- A patch that replaces a value (by one that is not null) or removes one at a well-formed pointer,
-- and carries a value that is not null, is applied exactly when the pointer reads a value, which
-- may be null.
pub apply_patch_iff :
    (kind : PatchOp) (path : String) (value : Value) (tokens : List String) (st : Value)
    → kind ≢ PatchOp.add
    → is_null value ≡ false
    → decode_pointer path ≡ ok tokens
    → is_ok (apply_patch (patch_of kind path value) st) ≡ is_some (value_at tokens st)
unfolding apply_op
apply_patch_iff PatchOp.add path value tokens st a n d = absurd (a refl)
apply_patch_iff PatchOp.replace path value tokens st a n d =
    rw (one_op (record { op = PatchOp.replace; path = path; value = value }) tokens st d) (
      rw n (
        is_ok-at_parent (apply_replace value) (is_ok-apply_replace value) tokens st
          (decode_some path tokens d)))
apply_patch_iff PatchOp.remove path value tokens st a n d =
    rw (one_op (record { op = PatchOp.remove; path = path; value = value }) tokens st d)
      (is_ok-at_parent apply_remove is_ok-apply_remove tokens st (decode_some path tokens d))

-- If a well-formed pointer reads nothing in a state and does not end in the token "-", removing
-- what a patch has added there restores the state, the order of its keys and items included.
pub apply_patch_undo_add :
    (path : String) (value : Value) (tokens : List String) (st st' : Value)
    → decode_pointer path ≡ ok tokens
    → ends_in_dash tokens ≡ false
    → value_at tokens st ≡ none
    → apply_patch (patch_of PatchOp.add path value) st ≡ ok st'
    → apply_patch (patch_of PatchOp.remove path null) st' ≡ ok st
unfolding apply_op
apply_patch_undo_add path value tokens st st' d e n h =
    let added : at_parent (apply_add value) tokens st ≡ ok st' =
      one_op_ok (record { op = PatchOp.add; path = path; value = value }) tokens st st' d h in
    one_op (record { op = PatchOp.remove; path = path; value = null }) tokens st' d
    ∙ at_parent_undo (apply_add value) apply_remove none
        (λ key v v' x y z. apply_remove-apply_add value key v x y z) tokens st st' e n added

-- If a well-formed pointer that does not end in the token "-" reads a value that is not null,
-- replacing it and then replacing the new value by the old one restores the state.
pub apply_patch_undo_replace :
    (path : String) (value old : Value) (tokens : List String) (st st' : Value)
    → decode_pointer path ≡ ok tokens
    → ends_in_dash tokens ≡ false
    → is_null old ≡ false
    → value_at tokens st ≡ some old
    → apply_patch (patch_of PatchOp.replace path value) st ≡ ok st'
    → apply_patch (patch_of PatchOp.replace path old) st' ≡ ok st
unfolding apply_op
apply_patch_undo_replace path value old tokens st st' d e k n h =
    let replaced : at_parent (apply_replace value) tokens st ≡ ok st' =
      one_op_ok (record { op = PatchOp.replace; path = path; value = value }) tokens st st' d h in
    one_op (record { op = PatchOp.replace; path = path; value = old }) tokens st' d
    ∙ rw k (
        at_parent_undo (apply_replace value) (apply_replace old) (some old)
          (λ key v v' x y z. apply_replace-apply_replace value old key v y z) tokens st st' e n
          replaced)
