-- ===== src/Tests/Settings.antt =====
-- Layers of a small configuration.
use neuronium.Prelude.{◌≡◌, refl, true, [], ◌∷◌, ok, arith}
use neuronium.Prelude.Text.{lower_code}
use neuronium.Prelude.Value.{Fields, end, field, str, bool, obj, get_field, put_field}
use neuronium.Config.{deep_merge, set_nested, coerce}
use neuronium.Config.Layers.{Layered, get_field-deep_merge}

abbrev a_file : Fields
a_file = field "llm" (obj (field "model" (str "m") (field "provider" (str "p") end))) end

abbrev overrides : Fields
overrides = field "llm" (obj (field "model" (str "n") end)) end

abbrev changed : Fields
changed = field "llm" (obj (field "model" (str "n") (field "provider" (str "p") end))) end

merges : deep_merge a_file overrides ≡ changed
unfolding deep_merge get_field put_field
merges = refl

sets : set_nested ("llm" ∷ "model" ∷ []) (str "n") a_file ≡ ok changed
unfolding set_nested get_field put_field
sets = refl

turns_true : coerce "YES" ≡ bool true
unfolding coerce lower_code
turns_true = refl

get_field-deep_merge_example :
    Layered
      (get_field "llm" a_file)
      (get_field "llm" overrides)
      (get_field "llm" (deep_merge a_file overrides))
get_field-deep_merge_example = get_field-deep_merge "llm" a_file overrides (omega arith)
