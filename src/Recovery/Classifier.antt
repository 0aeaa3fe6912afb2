-- ===== src/Recovery/Classifier.antt =====
-- neuronium_agent/recovery/classifier.py
use neuronium.Prelude.{
  ℕ, ◌<◌, String, ◌≡◌, ◌↔◌, Bool, true, false, Option, none, some, List, [], ◌∷◌, arith, leb,
  any_of, str_eq, if◌then◌else◌,
}
use neuronium.Prelude.Text.{codes, lower, is_infix}
use neuronium.Nodes.{
  FailureKind, FailureClass, Message, transient, persistent, systemic, critical, error_text,
  default_text, after_retries,
}

abbrev pub critical_phrases : List String
critical_phrases =
    "permission denied" ∷ "access denied" ∷ "security" ∷ "oom" ∷ "out of memory" ∷ "memory limit"
    ∷ "killed" ∷ "sigkill" ∷ []

abbrev pub transient_phrases : List String
transient_phrases =
    "timeout" ∷ "timed out" ∷ "rate limit" ∷ "rate_limit" ∷ "too many requests"
    ∷ "connection refused" ∷ "connection reset" ∷ "temporary" ∷ "unavailable" ∷ "503" ∷ "502"
    ∷ "504" ∷ []

abbrev pub persistent_phrases : List String
persistent_phrases =
    "invalid" ∷ "validation" ∷ "authentication" ∷ "unauthorized" ∷ "forbidden" ∷ "not found"
    ∷ "no such file" ∷ "syntax error" ∷ "typeerror" ∷ "valueerror" ∷ "keyerror"
    ∷ "no implementation registered" ∷ []

abbrev pub systemic_phrases : List String
systemic_phrases = "constraint" ∷ "unsatisfiable" ∷ "inapplicable" ∷ "deadlock" ∷ "cycle" ∷ []

-- `any(phrase in error_lower for phrase in phrases)`
unfoldable pub mentions : List String → List ℕ → Bool
mentions phrases text = any_of (λ phrase. is_infix (codes phrase) text) phrases

-- `error or default`
unfoldable pub message_or : Option String → Message → Message
message_or none m = m
message_or (some e) m = if str_eq e "" then m else error_text e

-- `(error or "").lower()`
unfoldable pub error_lower : Option String → List ℕ
error_lower none = []
error_lower (some e) = lower e

abbrev failure : FailureKind → Message → Bool → FailureClass
failure k m r = record { kind = k; message = m; retryable = r }

unfoldable pub classify_failure : Option String → (retry_count threshold : ℕ) → FailureClass
classify_failure error retry_count threshold =
    if mentions critical_phrases (error_lower error)
    then failure critical (message_or error (default_text "Critical failure")) false
    else if leb threshold retry_count
    then failure persistent (message_or error (after_retries retry_count)) false
    else if mentions transient_phrases (error_lower error)
    then failure transient (message_or error (default_text "Transient failure")) true
    else if mentions persistent_phrases (error_lower error)
    then failure persistent (message_or error (default_text "Persistent failure")) false
    else if mentions systemic_phrases (error_lower error)
    then failure systemic (message_or error (default_text "Systemic failure")) false
    else failure persistent (message_or error (default_text "Unclassified failure")) false

-- A failure is classified as retryable exactly when its class is TRANSIENT, and that is exactly when
-- the error mentions a transient phrase and no critical one and the retries are below the threshold.
pub classify_failure-retryable :
    (error : Option String) (retry_count threshold : ℕ)
    → ((classify_failure error retry_count threshold).retryable ≡ true
        ↔ (classify_failure error retry_count threshold).kind ≡ transient)
      × ((classify_failure error retry_count threshold).retryable ≡ true
          ↔ (mentions transient_phrases (error_lower error) ≡ true)
            × (mentions critical_phrases (error_lower error) ≡ false)
            × (retry_count < threshold))
unfolding classify_failure
classify_failure-retryable error n t = ground arith

-- The class is CRITICAL exactly when the error mentions a critical phrase, whatever the retries.
pub classify_failure-critical :
    (error : Option String) (retry_count threshold : ℕ)
    → (classify_failure error retry_count threshold).kind ≡ critical
      ↔ mentions critical_phrases (error_lower error) ≡ true
unfolding classify_failure
classify_failure-critical error n t = ground arith
