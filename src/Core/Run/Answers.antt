-- ===== src/Core/Run/Answers.antt =====
-- `_normalise_patch_ops`, `_legacy_answers_to_patch`, `_normalize_legacy_answer_value` and
-- `_pointer_escape_token`. Payloads are JSON values, so a patch holds no PatchOperation object.
use Prim.Native.Char.{code}
use Prim.Native.String.{String}
use neuronium.Prelude.{Option, none, some, List, [], ◌∷◌, ◌++◌, if◌then◌else◌, str_eq, nat_eq}
use neuronium.Prelude.Text.{strip}
use neuronium.Prelude.Value.{
  is_null, Value, Items, Fields, nil, cons, end, field, null, str, arr, obj, get_field, get_value,
}
use neuronium.Planning.Patch.{starts_with_slash}
use neuronium.Schemas.Pointer.{escape_token}

-- One entry that PatchOperation accepts, or nothing.
unfoldable pub normalise_op : Value → Option Value
normalise_op (obj fs) = elim (get_field "op" fs) [
  | none ↦ none
  | some v ↦ elim v [
    | str op ↦ elim (get_value "path" null fs) [
      | str path ↦
          let value = get_value "value" null fs in
          if starts_with_slash path
          then (if str_eq op "remove"
              then some (obj (field "op" (str op) (field "path" (str path) end)))
              else if str_eq op "add"
              then (if is_null value
                  then none
                  else some (
                      obj
                        (field "op" (str op) (field "path" (str path) (field "value" value end)))))
              else if str_eq op "replace"
              then (if is_null value
                  then none
                  else some (
                      obj
                        (field "op" (str op) (field "path" (str path) (field "value" value end)))))
              else none)
          else none
      | _ ↦ none
    ]
    | _ ↦ none
  ]
]
normalise_op v = none

abbrev pub cons_some : Option Value → List Value → List Value
cons_some none vs = vs
cons_some (some v) vs = v ∷ vs

unfoldable pub normalise_all : Items → List Value
normalise_all nil = []
normalise_all (cons v xs) = cons_some (normalise_op v) (normalise_all xs)

unfoldable pub normalise_patch_ops : Value → List Value
normalise_patch_ops (arr xs) = normalise_all xs
normalise_patch_ops v = []

-- `[p.strip() for p in s.split(",") if p.strip()]`; `seen` is the part before the point that is read.
abbrev pub add_part : String → List String → List String
add_part part parts = if str_eq (strip part) "" then parts else strip part ∷ parts

abbrev pub head_part : List String → String
head_part [] = ""
head_part (p ∷ ps) = p

abbrev pub tail_parts : List String → List String
tail_parts [] = []
tail_parts (p ∷ ps) = ps

-- `s.split(",")`
unfoldable pub split_comma : String → List String
split_comma String.[] = String.[] ∷ []
split_comma (String.◌∷◌ c s) =
    let rest = split_comma s in
    if nat_eq (code c) b','
    then String.[] ∷ rest
    else String.◌∷◌ c (head_part rest) ∷ tail_parts rest

abbrev pub texts : List String → Items
texts [] = nil
texts (p ∷ ps) = cons (str p) (texts ps)

unfoldable pub strip_parts : List String → List String
strip_parts [] = []
strip_parts (p ∷ ps) = add_part p (strip_parts ps)

-- Texts are stripped and dropped if empty, None is dropped, all else is kept.
unfoldable pub clean_items : Items → Items
clean_items nil = nil
clean_items (cons (str s) xs) =
    if str_eq (strip s) "" then clean_items xs else cons (str (strip s)) (clean_items xs)
clean_items (cons null xs) = clean_items xs
clean_items (cons v xs) = cons v (clean_items xs)

-- `xs or None`
abbrev pub list_or_none : Items → Value
list_or_none nil = null
list_or_none (cons v xs) = arr (cons v xs)

abbrev pub text_or_none : String → Value
text_or_none s = if str_eq s "" then null else str s

unfoldable pub normalize_legacy_answer_value : String → Value → Value
normalize_legacy_answer_value key (str s) =
    if str_eq key "doc_paths"
    then list_or_none (texts (strip_parts (split_comma s)))
    else text_or_none (strip s)
normalize_legacy_answer_value key (arr xs) = list_or_none (clean_items xs)
normalize_legacy_answer_value key v = v

abbrev pub add_op : String → Value → Value
add_op path value = obj (field "op" (str "add") (field "path" (str path) (field "value" value end)))

-- The text "/urls" is written besides "/url", for consumers that read both.
abbrev pub url_ops : String → Value → List Value
url_ops key (str s) = if str_eq key "url" then add_op "/urls" (arr (cons (str s) nil)) ∷ [] else []
url_ops key v = []

unfoldable pub answer_ops : String → Value → List Value
answer_ops key value =
    if str_eq key ""
    then []
    else if is_null value
    then []
    else add_op (String.◌∷◌ "/" (escape_token key)) value ∷ url_ops key value

unfoldable pub legacy_answers_to_patch : Fields → List Value
legacy_answers_to_patch end = []
legacy_answers_to_patch (field raw_key raw_value rest) =
    answer_ops (strip raw_key) (normalize_legacy_answer_value (strip raw_key) raw_value)
    ++ legacy_answers_to_patch rest
