-- ===== src/Execution/Inputs/Prompts.antt =====
-- `_build_critic_prompt`, `_format_context_value` and what the prompts share.
-- Parameters are `str(v)` as an f-string shows a value, and `json.dumps` with its fallback.
use neuronium.Prelude.{
  is_empty, ℕ, zero, suc, String, Bool, true, false, not, none, some, List, [], ◌∷◌, ◌++◌, keep,
  has, sort_by, if◌then◌else◌, str_eq, Result, ok, err, type_error, ◌>>=◌,
}
use neuronium.Prelude.Text.{append}
use neuronium.Prelude.Value.{
  is_null, get_value, Value, Fields, end, field, null, str, arr, obj, get_field, truthy, items,
}
use neuronium.Planning.Dag.{str_le}

-- `sep.join(parts)`
unfoldable pub join : String → List String → String
join sep [] = ""
join sep (p ∷ []) = p
join sep (p ∷ q ∷ ps) = append p (append sep (join sep (q ∷ ps)))

abbrev pub field_keys : Fields → List String
field_keys end = []
field_keys (field k v fs) = k ∷ field_keys fs

-- `s[:n]`, on code points
unfoldable pub take_text : ℕ → String → String
take_text zero s = String.[]
take_text (suc n) String.[] = String.[]
take_text (suc n) (String.◌∷◌ c s) = String.◌∷◌ c (take_text n s)

-- `len(s) > n`
unfoldable pub longer_than : ℕ → String → Bool
longer_than n String.[] = false
longer_than zero (String.◌∷◌ c s) = true
longer_than (suc n) (String.◌∷◌ c s) = longer_than n s

-- A part of a prompt that is there under a condition.
abbrev pub part_if : Bool → String → List String
part_if true s = s ∷ []
part_if false s = []

abbrev pub letters : String → List Value
letters String.[] = []
letters (String.◌∷◌ c s) = str (String.◌∷◌ c String.[]) ∷ letters s

abbrev pub texts : List String → List Value
texts [] = []
texts (k ∷ ks) = str k ∷ texts ks

-- `for x in v`
unfoldable pub iterate : Value → Result (List Value)
iterate (arr xs) = ok (items xs)
iterate (str s) = ok (letters s)
iterate (obj fs) = ok (texts (field_keys fs))
iterate v = err type_error

abbrev pub critic_excluded : List String
critic_excluded =
    "objective" ∷ "constraints" ∷ "content" ∷ "previous_code" ∷ "exit_code" ∷ "previous_exit_code"
    ∷ "stdout" ∷ "previous_stdout" ∷ "stderr" ∷ "previous_stderr" ∷ "prompt" ∷ "tool_name"
    ∷ "tool_args" ∷ []

-- The keys of the inputs that are not listed, sorted.
unfoldable pub keys_except : List String → Fields → List String
keys_except skip inputs = sort_by str_le (keep (λ k. not (has k skip)) (field_keys inputs))

-- `x or y`
abbrev pub or_value : Value → Value → Value
or_value x y = if truthy x then x else y

module _ (text dumps : Value → String) where
  unfoldable pub format_context_value : ℕ → Value → String
  format_context_value max_len v =
      let s : String = elim v [ str t ↦ t | w ↦ dumps w ] in
      if longer_than max_len s then append (take_text max_len s) "…" else s

  -- `f"{title}{v}"`, if the value is truthy
  abbrev pub titled : String → Value → List String
  titled title v = part_if (truthy v) (append title (text v))

  abbrev pub if_given : String → Value → List String
  if_given title v = part_if (not (is_null v)) (append title (text v))

  -- The items that `"\n".join` takes must be texts.
  unfoldable pub texts_of : List Value → Result (List String)
  texts_of [] = ok []
  texts_of (v ∷ vs) = elim v [ str s ↦ texts_of vs >>= λ rest. ok (s ∷ rest) | _ ↦ err type_error ]

  unfoldable pub constraints_part : Value → Result (List String)
  constraints_part v = elim v [
    | arr xs ↦ texts_of (items xs) >>= λ ts.
        ok (part_if (not (is_empty ts)) (append "CONSTRAINTS:\n" (join "\n" ts)))
    | w ↦ ok (titled "CONSTRAINTS:\n" w)
  ]

  unfoldable pub context_parts : ℕ → Fields → List String → List String
  context_parts max_len inputs [] = []
  context_parts max_len inputs (k ∷ ks) =
      append k (append ":\n" (format_context_value max_len (get_value k null inputs)))
      ∷ context_parts max_len inputs ks

  unfoldable pub context_kind : Fields → List String
  context_kind parameters = elim (get_field "context_kind" parameters) [
    | none ↦ []
    | some v ↦ elim v [ str s ↦ part_if (not (str_eq s "")) (append "CONTEXT_KIND: " s) | _ ↦ [] ]
  ]

  unfoldable pub source_context : Fields → List String
  source_context inputs =
      let ks = keys_except critic_excluded inputs in
      if is_empty ks
      then []
      else "SOURCE CONTEXT:" ∷ context_parts 2000 inputs (keep (λ k. not (str_eq k "html")) ks)

  unfoldable pub build_critic_prompt : Fields → Fields → Result String
  build_critic_prompt inputs parameters =
      constraints_part (get_value "constraints" null inputs) >>= λ constraints.
      let parts =
        titled "OBJECTIVE:\n" (get_value "objective" (str "") inputs)
        ++ titled "CODE:\n" (get_value "content" (get_value "previous_code" (str "") inputs) inputs)
        ++ if_given "EXIT_CODE: "
            (get_value "exit_code" (get_value "previous_exit_code" null inputs) inputs)
        ++ titled "STDOUT:\n"
            (get_value "stdout" (get_value "previous_stdout" (str "") inputs) inputs)
        ++ titled "STDERR:\n"
            (get_value "stderr" (get_value "previous_stderr" (str "") inputs) inputs)
        ++ constraints
        ++ context_kind parameters
        ++ source_context inputs in
      ok (if is_empty parts then "Evaluate the execution result." else join "\n\n" parts)
