-- ===== src/Planning/Htn.antt =====
-- neuronium_agent/planning/htn_recursive_backend.py: the decomposition of an objective into leaf
-- operators. The kinds of subgoals, the kinds of context and the methods are data types in place of the
-- texts that the code compares. Parameters are `str`, the prompts and the schema of the critics, and what
-- a model answers when it is asked for a method.
use neuronium.Prelude.{
  ℕ, zero, suc, ◌+◌, String, Bool, true, false, not, ◌&&◌, Option, none, some, List, [], ◌∷◌, ◌++◌,
  length, ltb, is_empty, if◌then◌else◌, str_eq, sort_by, map, Result, ok, err, value_error,
  out_of_fuel,
}
use neuronium.Prelude.Text.{append, strip, show}
use neuronium.Prelude.Value.{
  Value, Items, Fields, nil, cons, end, field, null, bool, str, arr, obj, items, get_value,
}
use neuronium.Planning.Dag.{NodeType, model, mcp, aggregate, str_le}
pub mod Expand
pub mod Decompose
pub mod Limits
pub mod Leaves
pub mod Build
pub mod Closed
pub mod Ordered

pub data SubgoalKind : Type 0 where
  root collect_inputs read_docs synthesize verify generic : SubgoalKind

pub data ContextKind : Type 0 where
  docs web file plain : ContextKind

pub data MethodId : Type 0 where
  root_docs_pipeline root_web_pipeline root_generic_pipeline : MethodId
  collect_docs collect_web collect_generic : MethodId
  expand_read_docs draft_direct critic_standard noop : MethodId

pub record HtnSubgoal : Type 0 where
  pub subgoal_id : String
  pub title : String
  pub depth : ℕ
  pub parent_subgoal_id : Option String
  pub kind : SubgoalKind

pub record HtnLeafOperator : Type 0 where
  pub subgoal_id : String
  pub node_id : String
  pub node_type : NodeType
  pub tool_name : Option String
  pub parameters : Fields
  pub depends_on : List String

pub record BackendOptions : Type 0 where
  pub max_depth : ℕ
  pub max_frontier : ℕ
  pub max_total_nodes : ℕ
  pub model_assisted_method_selection : Bool
  pub model_assisted_max_calls : ℕ

-- What the expansion asks for and does not compute.
pub record Given : Type 0 where
  pub str_of : Value → String
  pub lower_text : String → String
  -- `request.execution_id[:12]`
  pub run_id : String
  pub critic_prompt : ContextKind → String
  pub critic_schema : Value
  -- the method that a model names in the n-th call, if it names one
  pub answer : ℕ → HtnSubgoal → Option MethodId

abbrev pub is_filled : Value → Bool
is_filled (arr nil) = false
is_filled (arr (cons v xs)) = true
is_filled v = false

abbrev pub is_written : Value → Bool
is_written (str s) = not (str_eq (strip s) "")
is_written v = false

-- `_context_kind`
unfoldable pub context_kind : Fields → ContextKind
context_kind metadata =
    if is_filled (get_value "urls" null metadata)
    then web
    else if is_written (get_value "url" null metadata)
    then web
    else if is_filled (get_value "doc_paths" null metadata)
    then docs
    else if is_written (get_value "output_filename" null metadata)
    then file
    else plain

-- `_rule_based_method`
unfoldable pub rule_based_method : SubgoalKind → ContextKind → MethodId
rule_based_method root docs = root_docs_pipeline
rule_based_method root web = root_web_pipeline
rule_based_method root context = root_generic_pipeline
rule_based_method collect_inputs docs = collect_docs
rule_based_method collect_inputs web = collect_web
rule_based_method collect_inputs context = collect_generic
rule_based_method read_docs context = expand_read_docs
rule_based_method synthesize context = draft_direct
rule_based_method verify context = critic_standard
rule_based_method generic context = noop

-- `if method_id in candidates: return method_id`
abbrev pub candidate : SubgoalKind → Option MethodId → Option MethodId
candidate root (some root_docs_pipeline) = some root_docs_pipeline
candidate root (some root_web_pipeline) = some root_web_pipeline
candidate root (some root_generic_pipeline) = some root_generic_pipeline
candidate synthesize (some draft_direct) = some draft_direct
candidate kind answered = none

abbrev pub chosen_method : SubgoalKind → ContextKind → Option MethodId → MethodId × Bool
chosen_method kind context (some m) = (m, true)
chosen_method kind context none = (rule_based_method kind context, false)

abbrev pub child : HtnSubgoal → String → String → SubgoalKind → HtnSubgoal
child parent suffix title kind = record {
  subgoal_id = append parent.subgoal_id suffix;
  title = title;
  depth = parent.depth + 1;
  parent_subgoal_id = some parent.subgoal_id;
  kind = kind;
}

abbrev pub tool_leaf : HtnSubgoal → String → String → Fields → List String → HtnLeafOperator
tool_leaf subgoal node_id tool args deps = record {
  subgoal_id = subgoal.subgoal_id;
  node_id = node_id;
  node_type = mcp;
  tool_name = some tool;
  parameters = field "tool_name" (str tool) (field "tool_args" (obj args) end);
  depends_on = deps;
}

abbrev pub model_leaf : HtnSubgoal → String → Fields → List String → HtnLeafOperator
model_leaf subgoal node_id parameters deps = record {
  subgoal_id = subgoal.subgoal_id;
  node_id = node_id;
  node_type = model;
  tool_name = none;
  parameters = parameters;
  depends_on = deps;
}

-- `f"{idx:03d}"`
unfoldable pub three_digits : ℕ → String
three_digits n =
    if ltb n 10 then append "00" (show n) else if ltb n 100 then append "0" (show n) else show n

unfoldable pub read_leaves : HtnSubgoal → ℕ → List String → List HtnLeafOperator
read_leaves subgoal idx [] = []
read_leaves subgoal idx (path ∷ paths) =
    tool_leaf subgoal (append "read_" (three_digits idx)) "fs.read_text"
      (field "path" (str path) (field "out_key" (str (append "doc_" (three_digits idx))) end)) []
    ∷ read_leaves subgoal (idx + 1) paths

abbrev pub ids : List HtnLeafOperator → List String
ids [] = []
ids (l ∷ ls) = l.node_id ∷ ids ls

-- The ids of the leaves that a draft needs.
abbrev pub draft_deps : ContextKind → List String
draft_deps docs = "merge_docs" ∷ []
draft_deps web = "extract_article" ∷ []
draft_deps context = []

abbrev pub critic_deps : ContextKind → List String
critic_deps docs = "draft_report" ∷ "merge_docs" ∷ []
critic_deps web = "draft_report" ∷ "extract_article" ∷ "fetch_html" ∷ []
critic_deps context = "draft_report" ∷ []

abbrev pub or_text : String → String → String
or_text s default = if str_eq s "" then default else s

abbrev pub text_or_empty : Value → String
text_or_empty (str s) = s
text_or_empty v = ""
