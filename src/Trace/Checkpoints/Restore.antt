-- ===== src/Trace/Checkpoints/Restore.antt =====
-- A checkpoint that was written can be loaded again.
use neuronium.Prelude.{
  String, ◌≡◌, refl, ◌∙◌, true, false, none, some, arith, has, is_some, str_eq, Result, ok, Option,
  List, [], ◌∷◌, ap, ◌↔◌, ◌⊎◌,
}
use neuronium.Prelude.Value.{
  Value, Items, arr, obj, get_field-put_field, update_fields, Fields, end, field, str, get_field,
  put_field,
}
use neuronium.Core.State.{AgentState}
use neuronium.Trace.Checkpoints.Defs.{
  phase_boundaries, is_boundary, validate_mid_execute, is_dict, is_text_list, all_text,
  check_mid_execute, load_state, build_checkpoint_payload,
}

pub get_field-update_fields :
    (j : String) (d e : Fields)
    → get_field j e ≡ none
    → get_field j (update_fields d e) ≡ get_field j d
unfolding update_fields get_field
get_field-update_fields j d end h = refl
get_field-update_fields j d (field k v e) h =
    let other : str_eq k j ≡ false = ground arith in
    get_field-update_fields j (put_field k v d) e (ground (arith, other))
    ∙ get_field-put_field k j v d
    ∙ rw other refl

abbrev context : Value → String → Fields → Fields
context iteration boundary extra =
    update_fields (field "iteration" iteration (field "phase_boundary" (str boundary) end)) extra

check_passes :
    (ctx : Fields) (boundary : String)
    → get_field "phase_boundary" ctx ≡ some (str boundary)
    → (str_eq boundary "paused_mid_execute" ≡ false) ⊎ (validate_mid_execute ctx ≡ ok tt)
    → check_mid_execute ctx ≡ ok tt
unfolding check_mid_execute
check_passes ctx boundary kept m = ground (arith, kept, m)

-- Loading a checkpoint that was built from a state gives that state and its resume context, for each
-- boundary of the list but "paused_mid_execute", and for that one if the context passes the check of
-- its keys. It needs a validation that reads back what a state dumps, and extra keys that do not
-- overwrite the boundary.
pub load_state-build_checkpoint_payload :
    (model_validate : Fields → Result AgentState) (model_dump : AgentState → Fields)
    (st : AgentState) (iteration : Value) (boundary : String) (extra : Fields)
    → model_validate (model_dump st) ≡ ok st
    → get_field "phase_boundary" extra ≡ none
    → has boundary phase_boundaries ≡ true
    → (str_eq boundary "paused_mid_execute" ≡ false)
      ⊎ (validate_mid_execute (context iteration boundary extra) ≡ ok tt)
    → load_state model_validate (build_checkpoint_payload model_dump st iteration boundary extra)
      ≡ ok (st, context iteration boundary extra)
unfolding load_state build_checkpoint_payload is_boundary get_field
load_state-build_checkpoint_payload model_validate model_dump st iteration boundary extra v e b m =
    let kept : get_field "phase_boundary" (context iteration boundary extra) ≡ some (str boundary) =
      get_field-update_fields "phase_boundary" _ extra e in
    let checked = check_passes (context iteration boundary extra) boundary kept m in
    simp (kept, b, checked, v)

-- A list of texts, as a value.
abbrev pub from_texts : List String → Items
from_texts [] = Items.nil
from_texts (s ∷ ss) = Items.cons (str s) (from_texts ss)

-- What a run that was paused in the middle of an execution needs to go on.
pub record MidExecute (ctx : Fields) : Type 0 where
  pub stage_index : (v : Value) × (get_field "stage_index" ctx ≡ some v)
  pub iteration : (v : Value) × (get_field "iteration" ctx ≡ some v)
  pub plan_id : (v : Value) × (get_field "plan_id" ctx ≡ some v)
  pub runbook_id : (v : Value) × (get_field "runbook_id" ctx ≡ some v)
  pub results : (rs : Fields) × (get_field "completed_node_results" ctx ≡ some (obj rs))
  pub pending :
      (ids : List String) × (get_field "pending_node_ids" ctx ≡ some (arr (from_texts ids)))

texts_in : (xs : Items) → all_text xs ≡ true → (ids : List String) × (xs ≡ from_texts ids)
texts_in Items.nil h = ([], refl)
texts_in (Items.cons (str s) xs) h =
    let (ids, e) = texts_in xs h in (s ∷ ids, ap (λ ys. Items.cons (str s) ys) e)
texts_in (Items.cons Value.null xs) h = absurd (cc)
texts_in (Items.cons (Value.bool b) xs) h = absurd (cc)
texts_in (Items.cons (Value.int z) xs) h = absurd (cc)
texts_in (Items.cons (Value.float t) xs) h = absurd (cc)
texts_in (Items.cons (arr ys) xs) h = absurd (cc)
texts_in (Items.cons (obj fs) xs) h = absurd (cc)

all_text-from_texts : (ids : List String) → all_text (from_texts ids) ≡ true
all_text-from_texts [] = refl
all_text-from_texts (s ∷ ids) = all_text-from_texts ids

a_text_list :
    (o : Option Value)
    → is_text_list o ≡ true
    → (ids : List String) × (o ≡ some (arr (from_texts ids)))
a_text_list none h = absurd (cc)
a_text_list (some (arr xs)) h = let (ids, e) = texts_in xs h in (ids, ap (λ ys. some (arr ys)) e)
a_text_list (some Value.null) h = absurd (cc)
a_text_list (some (Value.bool b)) h = absurd (cc)
a_text_list (some (Value.int z)) h = absurd (cc)
a_text_list (some (Value.float t)) h = absurd (cc)
a_text_list (some (str s)) h = absurd (cc)
a_text_list (some (obj fs)) h = absurd (cc)

a_dict : (o : Option Value) → is_dict o ≡ true → (fs : Fields) × (o ≡ some (obj fs))
a_dict none h = absurd (cc)
a_dict (some (obj fs)) h = (fs, refl)
a_dict (some Value.null) h = absurd (cc)
a_dict (some (Value.bool b)) h = absurd (cc)
a_dict (some (Value.int z)) h = absurd (cc)
a_dict (some (Value.float t)) h = absurd (cc)
a_dict (some (str s)) h = absurd (cc)
a_dict (some (arr xs)) h = absurd (cc)

a_value : (o : Option Value) → is_some o ≡ true → (v : Value) × (o ≡ some v)
a_value none h = absurd (cc)
a_value (some v) h = (v, refl)

-- The check of a mid-execution context passes exactly when it has a stage index, an iteration, a plan
-- id and a runbook id, its results are a dict and its pending ids a list of texts.
pub validate_mid_execute_iff : (ctx : Fields) → validate_mid_execute ctx ≡ ok tt ↔ MidExecute ctx
unfolding validate_mid_execute
validate_mid_execute_iff ctx = (
  λ h. record {
    stage_index = a_value _ (ground (arith, h));
    iteration = a_value _ (ground (arith, h));
    plan_id = a_value _ (ground (arith, h));
    runbook_id = a_value _ (ground (arith, h));
    results = a_dict _ (ground (arith, h));
    pending = a_text_list _ (ground (arith, h));
  },
  λ m.
      rw
        (
          m.stage_index.1,
          m.iteration.1,
          m.plan_id.1,
          m.runbook_id.1,
          m.results.1,
          m.pending.1,
          all_text-from_texts m.pending.0,
        )
        refl,
)
