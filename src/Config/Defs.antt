-- ===== src/Config/Defs.antt =====
-- `_deep_merge`, `_set_nested` and `_apply_env_overrides`, with the environment as a dict. Reading the
-- TOML file and the validation of the result are not modelled.
use neuronium.Prelude.{
  ℕ, String, Bool, true, false, ◌||◌, Option, none, some, List, [], ◌∷◌, if◌then◌else◌, nat_eq,
  ◌&&◌, Dict, lookup, Result, ok, err, attribute_error, type_error, ◌>>=◌,
}
use neuronium.Prelude.Text.{codes, lower}
use neuronium.Prelude.Value.{Value, Fields, end, field, bool, str, obj, get_field, put_field}

-- `_deep_merge`, and the value that it gives a key.
unfoldable mutual
  pub deep_merge : Fields → Fields → Fields
  deep_merge base end = base
  deep_merge base (field k v rest) =
      deep_merge (put_field k (merge_value (get_field k base) v) base) rest

  pub merge_value : Option Value → Value → Value
  merge_value (some (obj fs)) (obj os) = obj (deep_merge fs os)
  merge_value old v = v

abbrev pub same_codes : List ℕ → List ℕ → Bool
same_codes [] [] = true
same_codes (c ∷ s) (d ∷ t) = nat_eq c d && same_codes s t
same_codes _ _ = false

abbrev pub lower_is : String → String → Bool
lower_is s t = same_codes (lower s) (codes t)

-- A text that means a boolean becomes one.
unfoldable pub coerce : String → Value
coerce s =
    if lower_is s "true" || lower_is s "1" || lower_is s "yes"
    then bool true
    else if lower_is s "false" || lower_is s "0" || lower_is s "no"
    then bool false
    else str s

-- `d.setdefault(part, {})`, which the next step needs to be a dict.
abbrev pub nested_dict : Option Value → Bool → Result Fields
nested_dict none last = ok end
nested_dict (some (obj fs)) last = ok fs
nested_dict (some v) true = err type_error
nested_dict (some v) false = err attribute_error

abbrev pub is_last : List String → Bool
is_last (part ∷ []) = true
is_last _ = false

unfoldable pub set_nested : List String → Value → Fields → Result Fields
set_nested [] value settings = ok settings
set_nested (part ∷ []) value settings = ok (put_field part value settings)
set_nested (part ∷ next ∷ path) value settings =
    nested_dict (get_field part settings) (is_last (next ∷ path)) >>= λ inner.
    set_nested (next ∷ path) value inner >>= λ inner'. ok (put_field part (obj inner') settings)

-- The sections of `_FLAT_ENV_MAP`: each name stands for a section and a key.
abbrev pub flat_env_map : List (String × List String)
flat_env_map =
    ("NEURONIUM_PROJECT_NAME", "project" ∷ "name" ∷ [])
    ∷ ("NEURONIUM_PROJECT_DATA_DIR", "project" ∷ "data_dir" ∷ [])
    ∷ ("NEURONIUM_STORAGE_BLOB_BACKEND", "storage" ∷ "blob_backend" ∷ [])
    ∷ ("NEURONIUM_STORAGE_FS_CAS_ROOT", "storage" ∷ "fs_cas_root" ∷ [])
    ∷ ("NEURONIUM_STORAGE_INDEX_BACKEND", "storage" ∷ "index_backend" ∷ [])
    ∷ ("NEURONIUM_STORAGE_SQLITE_PATH", "storage" ∷ "sqlite_path" ∷ [])
    ∷ ("NEURONIUM_STORAGE_POSTGRES_DSN", "storage" ∷ "postgres_dsn" ∷ [])
    ∷ ("NEURONIUM_STORAGE_POSTGRES_SCHEMA", "storage" ∷ "postgres_schema" ∷ [])
    ∷ ("NEURONIUM_QUEUE_ENABLED", "queue" ∷ "enabled" ∷ [])
    ∷ ("NEURONIUM_QUEUE_REDIS_URL", "queue" ∷ "redis_url" ∷ [])
    ∷ ("NEURONIUM_QUEUE_QUEUE_NAME", "queue" ∷ "queue_name" ∷ [])
    ∷ ("NEURONIUM_RUNTIME_MODE", "runtime" ∷ "mode" ∷ [])
    ∷ (
      "NEURONIUM_RUNTIME_PAUSE_GRACE_PERIOD_SECONDS",
      "runtime" ∷ "pause_grace_period_seconds" ∷ [],
    )
    ∷ ("NEURONIUM_RUNTIME_STOP_GRACE_PERIOD_SECONDS", "runtime" ∷ "stop_grace_period_seconds" ∷ [])
    ∷ ("NEURONIUM_RUNTIME_NL_PATCH_MIN_CONFIDENCE", "runtime" ∷ "nl_patch_min_confidence" ∷ [])
    ∷ ("NEURONIUM_LLM_PROVIDER", "llm" ∷ "provider" ∷ [])
    ∷ ("NEURONIUM_LLM_MODEL", "llm" ∷ "model" ∷ [])
    ∷ ("NEURONIUM_LLM_BASE_URL", "llm" ∷ "base_url" ∷ [])
    ∷ ("NEURONIUM_LOGGING_LEVEL", "logging" ∷ "level" ∷ [])
    ∷ ("NEURONIUM_RECOVERY_MAX_NODE_RETRIES", "recovery" ∷ "max_node_retries" ∷ [])
    ∷ ("NEURONIUM_RECOVERY_MAX_STAGE_RETRIES", "recovery" ∷ "max_stage_retries" ∷ [])
    ∷ ("NEURONIUM_RECOVERY_MAX_VERDICT_FIX_ATTEMPTS", "recovery" ∷ "max_verdict_fix_attempts" ∷ [])
    ∷ ("NEURONIUM_MODEL_CATALOG_DEFAULT_MODEL_ID", "model_catalog" ∷ "default_model_id" ∷ [])
    ∷ []

unfoldable pub apply_overrides : List (String × List String) → Dict String → Fields → Result Fields
apply_overrides [] env settings = ok settings
apply_overrides ((name, path) ∷ rest) env settings = elim (lookup name env) [
  | none ↦ apply_overrides rest env settings
  | some v ↦ set_nested path (coerce v) settings >>= λ settings'. apply_overrides rest env settings'
]

unfoldable pub apply_env_overrides : Dict String → Fields → Result Fields
apply_env_overrides env settings = apply_overrides flat_env_map env settings
