-- ===== src/Workbench/Retrieval.antt =====
-- backend/services/workbench_legacy_retrieval_executor.py: one pass over the sources of a task.
pub mod Steps
pub mod Citations
use Prim.Native.Char.{char}
use goat_ai.Prelude.{
  ℕ, zero, suc, String, Bool, true, false, not, ◌&&◌, ◌||◌, Option, none, some, List, [], ◌∷◌, ◌++◌,
  map, select, length, leb, if◌then◌else◌, or_else, str_eq,
}
use goat_ai.Prelude.Json.{pos, Json, int, str, obj, arr, end, field, nil, cons, Items}
use goat_ai.Prelude.Text.{append_text, join}
use goat_ai.Prelude.Text.Strip.{strip, take_text, replace_char}
use goat_ai.Prelude.Text.Decimal.{decimal}
use goat_ai.Authz.{AuthorizationContext}
use goat_ai.Workbench.Store.{strings}
use goat_ai.Workbench.Calls.{text_or}
use goat_ai.Workbench.Sources.{
  Descriptor, Sources, found, permission_error, value_error, comma_join, has_any,
  resolve_requested_sources,
}
use goat_ai.Workbench.Runs.{
  Answer, value, raises, Failure, other_exception, Citation, SearchRequest, SearchResponse, WebHit,
  WebAnswer, web_hits, web_search_error, web_raises, Tools, Surroundings, World, Attempt,
  append_running_event, fail_task, complete_task,
}
use goat_ai.Workbench.{TaskRecord}

abbrev pub key_of : Citation → String × String
key_of c = (c.document_id, c.chunk_id)

abbrev pub same_key : String × String → String × String → Bool
same_key (d, c) (d', c') = str_eq d d' && str_eq c c'

-- `key in seen`
abbrev pub seen_before : String × String → List (String × String) → Bool
seen_before k [] = false
seen_before k (j ∷ seen) = same_key k j || seen_before k seen

unfoldable pub dedupe_unseen : List (String × String) → List Citation → List Citation
dedupe_unseen seen [] = []
dedupe_unseen seen (c ∷ cs) =
    let known = seen_before (key_of c) seen in
    let rest = dedupe_unseen (if known then seen else key_of c ∷ seen) cs in
    if known then rest else c ∷ rest

unfoldable pub dedupe_citations : List Citation → List Citation
dedupe_citations citations = dedupe_unseen [] citations

-- `model_dump(mode="python")`
abbrev pub citation_json : Citation → Json
citation_json c = obj (
    field "chunk_id" (str c.chunk_id) (
      field "document_id" (str c.document_id) (
        field "filename" (str c.filename)
          (field "score" c.score (field "snippet" (str c.snippet) end)))))

-- An entry of `skipped`.
pub record Skipped : Type 0 where
  pub source_id : String
  pub deny_reason : String

abbrev pub skipped_source : Descriptor → Skipped
skipped_source source = record {
  source_id = source.source_id;
  deny_reason = text_or (or_else source.deny_reason "") "not_runtime_ready";
}

abbrev pub source_json : String → String → Json
source_json source_id deny_reason =
    obj (field "deny_reason" (str deny_reason) (field "source_id" (str source_id) end))

abbrev pub skipped_items : List Skipped → Items
skipped_items [] = nil
skipped_items (s ∷ ss) = cons (source_json s.source_id s.deny_reason) (skipped_items ss)

abbrev pub newline : String
newline = "\n"

-- `"\n".join(lines)`
abbrev pub join_lines : List String → String
join_lines [] = ""
join_lines (x ∷ []) = x
join_lines (x ∷ y ∷ rest) = append_text x (append_text newline (join_lines (y ∷ rest)))

abbrev pub reason_text : Skipped → String
reason_text s = join (s.source_id ∷ " (" ∷ s.deny_reason ∷ ")" ∷ [])

abbrev pub is_url : String → Bool
is_url s = str_eq (take_text 7 s) "http://" || str_eq (take_text 8 s) "https://"

-- snippet.strip().replace("\n", " ")[:220].strip()
abbrev pub bounded_snippet : String → String
bounded_snippet s = strip (take_text 220 (replace_char (char 10 tt) (char 32 tt) (strip s)))

abbrev pub citation_line : Citation → String
citation_line c =
    if is_url c.document_id
    then join ("- [" ∷ c.filename ∷ "](" ∷ c.document_id ∷ "): " ∷ bounded_snippet c.snippet ∷ [])
    else join ("- " ∷ c.filename ∷ ": " ∷ bounded_snippet c.snippet ∷ [])

abbrev pub deferred_line : List Skipped → List String
deferred_line [] = []
deferred_line (s ∷ ss) =
    append_text "- Deferred sources: " (comma_join (map reason_text (s ∷ ss))) ∷ []

abbrev pub gap_lines : TaskRecord → List String
gap_lines task =
    if str_eq task.task_kind "deep_research"
    then "" ∷ "## Gaps"
      ∷ "- Current runtime performs one bounded retrieval pass rather than iterative agentic research."
      ∷ "- Treat this as an evidence brief, not a full autonomous long-horizon investigation." ∷ []
    else []

abbrev pub evidence_lines : TaskRecord → List Citation → List String
evidence_lines task [] =
    "" ∷ "## Evidence" ∷ "- No relevant context was found in the currently runnable sources." ∷ []
evidence_lines task (c ∷ cs) = "" ∷ "## Evidence" ∷ map citation_line (c ∷ cs) ++ gap_lines task

unfoldable pub compose_retrieval_result :
    TaskRecord → List Citation → List String → List Skipped → String
compose_retrieval_result task citations runnable_source_ids skipped =
    let heading = if str_eq task.task_kind "browse" then "Browse Summary" else "Research Brief" in
    join_lines (
      append_text "## " heading
        ∷ append_text "- Query: " task.prompt
        ∷ append_text "- Runnable sources: " (text_or (comma_join runnable_source_ids) "none")
        ∷ deferred_line skipped
      ++ evidence_lines task citations)

abbrev pub web_hit_to_citation : Tools → WebHit → Citation
web_hit_to_citation tools hit = record {
  document_id = hit.url;
  chunk_id = hit.url;
  filename = hit.title;
  snippet = hit.snippet;
  score = tools.web_score hit.rank;
}

abbrev pub resolve_web_result_limit : String → Tools → ℕ
resolve_web_result_limit task_kind tools =
    let default_limit = if str_eq task_kind "deep_research" then 8 else 5 in
    if leb default_limit tools.workbench_web_max_results
    then default_limit
    else tools.workbench_web_max_results

-- The first hit that names its provider, or the configured one.
abbrev pub resolve_workbench_web_provider : List WebHit → Tools → String
resolve_workbench_web_provider [] tools = tools.workbench_web_provider
resolve_workbench_web_provider (hit ∷ hits) tools =
    let rest = resolve_workbench_web_provider hits tools in
    if str_eq hit.provider "" then rest else hit.provider

-- `all_citations` and `completed_sources`.
pub record Gathered : Type 0 where
  pub citations : List Citation
  pub completed : List String

abbrev pub gathered_nothing : Gathered
gathered_nothing = record { citations = []; completed = [] }

abbrev pub gather : Gathered → List Citation → String → Gathered
gather g more source_id = record {
  citations = g.citations ++ more;
  completed = g.completed ++ source_id ∷ [];
}

abbrev pub search_request : TaskRecord → SearchRequest
search_request task =
    let deep = str_eq task.task_kind "deep_research" in
    record {
      query = task.prompt;
      document_ids = task.knowledge_document_ids;
      top_k = if deep then 8 else 5;
      retrieval_profile = if deep then "rag3_quality" else "default";
    }

unfoldable pub knowledge_answered :
    Surroundings → TaskRecord → Gathered → Answer SearchResponse → World → World × Answer Gathered
knowledge_answered env task g (raises e) w = (w, raises e)
knowledge_answered env task g (value response) w =
    let count = length response.hits in
    (
      append_running_event env task.id "retrieval.step.completed"
          (join ("Source knowledge returned " ∷ decimal count ∷ " citations." ∷ []))
          (obj (
            field "citation_count" (int (pos count)) (
              field "effective_query"
                (str (text_or (or_else response.effective_query "") task.prompt))
                (field "retrieval_profile" (str (search_request task).retrieval_profile)
                  (field "source_id" (str "knowledge") end)))))
          w,
      value (gather g response.hits "knowledge"),
    )

-- hits[:n]
abbrev pub first_hits : ℕ → List WebHit → List WebHit
first_hits zero hits = []
first_hits (suc n) [] = []
first_hits (suc n) (h ∷ hits) = h ∷ first_hits n hits

unfoldable pub web_answered :
    Surroundings → Tools → TaskRecord → Gathered → WebAnswer → World → World × Answer Gathered
web_answered env tools task g (web_raises e) w = (w, raises e)
web_answered env tools task g web_search_error w = (
  append_running_event env task.id "retrieval.step.skipped" "Source web failed to return results."
      (obj (
        field "deny_reason" (str "provider_error") (
          field "provider" (str tools.workbench_web_provider) (field "source_id" (str "web") end))))
      w,
  value g,
)
web_answered env tools task g (web_hits hits) w =
    let count = length hits in
    (
      append_running_event env task.id "retrieval.step.completed"
          (join ("Source web returned " ∷ decimal count ∷ " citations." ∷ []))
          (obj (
            field "citation_count" (int (pos count)) (
              field "max_results" (int (pos (resolve_web_result_limit task.task_kind tools))) (
                field "provider" (str (resolve_workbench_web_provider hits tools)) (
                  field "source_id" (str "web")
                    (field "urls" (strings (map (λ h. h.url) (first_hits 5 hits))) end))))))
          w,
      value (gather g (map (web_hit_to_citation tools) hits) "web"),
    )
