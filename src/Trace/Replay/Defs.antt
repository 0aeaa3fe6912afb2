-- ===== src/Trace/Replay/Defs.antt =====
-- `ReplayProvider` and `load_replay_events`. A node is known by its id and by whether it can replay
-- (`set_replay_responses`); what the node does with its responses is not modelled. A parameter is
-- `str(v).strip()`.
use neuronium.Prelude.{
  is_empty, String, Bool, false, not, ◌&&◌, Option, none, some, List, [], ◌∷◌, ◌++◌, if◌then◌else◌,
  str_eq, Dict, insert, get_or, contains, Result, ok, err, type_error, replay_error, ◌>>=◌,
}
use neuronium.Prelude.Value.{get_value, Value, Items, Fields, end, field, str, arr, obj, items}
use neuronium.Trace.Checkpoints.{get_dict, is_kind}

pub record Provider : Type 0 where
  pub replay_data : Dict (List Value)
  pub node_end_fallback : Dict (List Value)
  pub catalog_hashes : List String

pub record Report : Type 0 where
  pub injected : List String
  pub injected_fallback : List String
  pub missing : List String

-- A node id that is used as a key, if it is a text that is not empty. A list or a dict that is not empty
-- is not hashable; any other value is never the id of a node.
unfoldable pub key_of : Value → Result (Option String)
key_of (str s) = ok (if str_eq s "" then none else some s)
key_of (arr xs) = if is_empty (items xs) then ok none else err type_error
key_of (obj end) = ok none
key_of (obj fs) = err type_error
key_of v = ok none

abbrev pub list_items : Value → List Value
list_items (arr xs) = items xs
list_items v = []

-- `d.setdefault(k, []).extend(vs)`
abbrev pub extend_at : String → List Value → Dict (List Value) → Dict (List Value)
extend_at k vs d = insert k (get_or d k [] ++ vs) d

-- The entry that a `node_end` event stands for.
abbrev pub fallback_of : Fields → Value
fallback_of payload = obj (
    field "outputs" (get_value "outputs_summary" (get_value "outputs" (obj end) payload) payload) (
      field "status" (get_value "status" (str "COMPLETED") payload)
        (field "quality_signals" (obj end) end)))

unfoldable pub add_replay_data : Fields → Provider → Result Provider
add_replay_data payload p =
    let recs = list_items (get_value "recorded_responses" (arr Items.nil) payload) in
    if is_empty recs
    then ok p
    else (key_of (get_value "node_id" (str "") payload) >>= λ k. ok (elim k [
      | none ↦ p
      | some nid ↦ record p { replay_data = extend_at nid recs p.replay_data }
    ]))

unfoldable pub add_node_end : Fields → Provider → Result Provider
add_node_end payload p = key_of (get_value "node_id" (str "") payload) >>= λ k. ok (elim k [
  | none ↦ p
  | some nid ↦ record p {
    node_end_fallback = extend_at nid (fallback_of payload ∷ []) p.node_end_fallback;
  }
])

abbrev pub is_envelope : Value → Bool
is_envelope (str s) = str_eq s "Planner request envelope"
is_envelope v = false

module _ (str_strip : Value → String) where
  unfoldable pub add_decision : Fields → Provider → Provider
  add_decision payload p =
      let hash = str_strip (get_value "operator_catalog_hash" (str "") payload) in
      if is_envelope (get_value "description" (str "") payload) && not (str_eq hash "")
      then record p { catalog_hashes = p.catalog_hashes ++ hash ∷ [] }
      else p

  unfoldable pub read_event : Fields → Provider → Result Provider
  read_event event p =
      if is_kind "replay_data" event
      then (get_dict "payload" event >>= λ payload. add_replay_data payload p)
      else if is_kind "node_end" event
      then (get_dict "payload" event >>= λ payload. add_node_end payload p)
      else if is_kind "decision" event
      then (get_dict "payload" event >>= λ payload. ok (add_decision payload p))
      else ok p

  -- `for ev in events`
  unfoldable pub read_events : List Fields → Provider → Result Provider
  read_events [] p = ok p
  read_events (event ∷ events) p = read_event event p >>= λ p'. read_events events p'

-- A node that gets its responses, and the report so far.
pub record Injection : Type 0 where
  pub responses : Dict (List Value)
  pub report : Report

-- The body of `for nid, node in node_registry.items()`.
unfoldable pub inject_node : Bool → Provider → String → Bool → Injection → Injection
inject_node strict p nid can_replay i =
    let r = i.report in
    if not can_replay
    then i
    else if contains nid p.replay_data
    then record {
      responses = insert nid (get_or p.replay_data nid []) i.responses;
      report = record r { injected = r.injected ++ nid ∷ [] };
    }
    else if not strict && contains nid p.node_end_fallback
    then record {
      responses = insert nid (get_or p.node_end_fallback nid []) i.responses;
      report = record r { injected_fallback = r.injected_fallback ++ nid ∷ [] };
    }
    else record i { report = record r { missing = r.missing ++ nid ∷ [] } }

unfoldable pub inject_all : Bool → Provider → Dict Bool → Injection → Injection
inject_all strict p [] i = i
inject_all strict p ((nid, can_replay) ∷ registry) i =
    inject_all strict p registry (inject_node strict p nid can_replay i)

abbrev pub no_injection : Injection
no_injection = record {
  responses = [];
  report = record { injected = []; injected_fallback = []; missing = [] };
}

unfoldable pub inject : Bool → Provider → Dict Bool → Result Injection
inject strict p registry =
    let i = inject_all strict p registry no_injection in
    if strict && not (is_empty i.report.missing) then err replay_error else ok i

unfoldable pub latest_operator_catalog_hash : List String → Option String
latest_operator_catalog_hash [] = none
latest_operator_catalog_hash (h ∷ []) = some h
latest_operator_catalog_hash (h ∷ k ∷ hs) = latest_operator_catalog_hash (k ∷ hs)

unfoldable pub load_replay_events : List Fields → Result (List Fields)
load_replay_events events = if is_empty events then err replay_error else ok events
