-- ===== src/Planning/Htn/Expand.antt =====
-- `_expand_subgoal`: the children and the leaf operators of one subgoal.
use neuronium.Prelude.{String, none, List, [], ◌∷◌, ◌++◌, if◌then◌else◌, sort_by, map, has, true}
use neuronium.Prelude.Text.{append, strip}
use neuronium.Prelude.Value.{Value, Fields, end, field, null, bool, str, arr, get_value, items}
use neuronium.Planning.Dag.{aggregate, str_le}
use neuronium.Planning.Htn.{
  SubgoalKind, root, collect_inputs, read_docs, synthesize, verify, generic, ContextKind, web, file,
  MethodId, collect_docs, collect_web, HtnSubgoal, HtnLeafOperator, Given, child, tool_leaf,
  model_leaf, read_leaves, ids, draft_deps, critic_deps, or_text, text_or_empty,
}

abbrev pub root_children : HtnSubgoal → List HtnSubgoal
root_children s =
    child s ".collect" "Collect input evidence" collect_inputs
    ∷ child s ".synthesize" "Draft output from collected evidence" synthesize
    ∷ child s ".verify" "Verify output quality" verify
    ∷ []

module _ (given : Given) (metadata : Fields) where
  abbrev pub written : String → String
  written key = strip (given.str_of (get_value key (str "") metadata))

  unfoldable pub web_leaves : HtnSubgoal → List HtnLeafOperator
  web_leaves s =
      tool_leaf s "fetch_html" "web.fetch_html" (field "url" (str (written "url")) end) []
      ∷ tool_leaf s "extract_article" "web.extract_article" (field "url" (str (written "url")) end)
          ("fetch_html" ∷ [])
      ∷ []

  abbrev pub merge_leaf : HtnSubgoal → List String → HtnLeafOperator
  merge_leaf s deps = record {
    subgoal_id = s.subgoal_id;
    node_id = "merge_docs";
    node_type = aggregate;
    tool_name = none;
    parameters = end;
    depends_on = deps;
  }

  abbrev pub reads : HtnSubgoal → List Value → List HtnLeafOperator
  reads s paths = read_leaves s 0 (sort_by str_le (map given.str_of paths))

  abbrev pub doc_leaves_of : HtnSubgoal → List Value → List HtnLeafOperator
  doc_leaves_of s [] = []
  doc_leaves_of s (p ∷ ps) = reads s (p ∷ ps) ++ merge_leaf s (ids (reads s (p ∷ ps))) ∷ []

  unfoldable pub doc_leaves : HtnSubgoal → List HtnLeafOperator
  doc_leaves s = elim (get_value "doc_paths" null metadata) [
    | arr xs ↦ doc_leaves_of s (items xs)
    | _ ↦ []
  ]

  abbrev pub prompt_only : String → Fields
  prompt_only text = field "system_prompt" (str text) end

  abbrev pub file_leaves : HtnSubgoal → List HtnLeafOperator
  file_leaves s =
      tool_leaf s "write_file" "export.write_text"
        (field "run_id" (str given.run_id) (
          field "filename" (str (or_text (written "output_filename") "output.txt")) (
            field "text" (str (text_or_empty (get_value "output_text" null metadata)))
              (field "encoding" (str "utf-8") (field "overwrite" (bool true) end)))))
        []
      ∷ model_leaf s "draft_report"
          (prompt_only
            "You are a helpful assistant.\nConfirm the file action performed and briefly summarize what was written.\nBe concise.")
          ("write_file" ∷ [])
      ∷ []

  -- The ending of an output file's name.
  abbrev pub ext : String
  ext =
      let format = given.lower_text (written "output_format") in
      if has format ("html" ∷ "htm" ∷ [])
      then "html"
      else if has format ("txt" ∷ "text" ∷ [])
      then "txt"
      else "md"

  abbrev pub export_leaf : HtnSubgoal → HtnLeafOperator
  export_leaf s =
      tool_leaf s "export_user_output" "export.write_text"
        (field "run_id" (str given.run_id) (
          field "kind" (str "news_summary") (
            field "filename" (str (or_text (written "output_filename") (append "summary." ext)))
              (field "overwrite" (bool true) end))))
        ("draft_report" ∷ draft_deps web)

  abbrev pub draft_leaf : ContextKind → HtnSubgoal → HtnLeafOperator
  draft_leaf context s =
      model_leaf s "draft_report"
        (prompt_only
          "You are an operations analyst. Produce a concise report using the provided inputs.")
        (draft_deps context)

  unfoldable pub draft_leaves : ContextKind → HtnSubgoal → List HtnLeafOperator
  draft_leaves file s = file_leaves s
  draft_leaves web s = draft_leaf web s ∷ export_leaf s ∷ []
  draft_leaves context s = draft_leaf context s ∷ []

  unfoldable pub critic_leaves : ContextKind → HtnSubgoal → List HtnLeafOperator
  critic_leaves context s =
      model_leaf s "critic_report"
        (field "system_prompt" (str (given.critic_prompt context))
          (field "json_schema" given.critic_schema end))
        (critic_deps context)
      ∷ []

  -- What a collecting subgoal becomes, by the method.
  abbrev pub collect_by : HtnSubgoal → MethodId → List HtnSubgoal × List HtnLeafOperator
  collect_by s collect_docs = (child s ".read_docs" "Read document set" read_docs ∷ [], [])
  collect_by s collect_web = ([], web_leaves s)
  collect_by s method = ([], [])

  abbrev pub expand_kind :
      SubgoalKind → ContextKind → HtnSubgoal → MethodId → List HtnSubgoal × List HtnLeafOperator
  expand_kind root context s method = (root_children s, [])
  expand_kind collect_inputs context s method = collect_by s method
  expand_kind read_docs context s method = ([], doc_leaves s)
  expand_kind synthesize context s method = ([], draft_leaves context s)
  expand_kind verify context s method = ([], critic_leaves context s)
  expand_kind generic context s method = ([], [])

  abbrev pub expand_subgoal :
      ContextKind → HtnSubgoal → MethodId → List HtnSubgoal × List HtnLeafOperator
  expand_subgoal context s method = expand_kind s.kind context s method
