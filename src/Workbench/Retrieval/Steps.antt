-- ===== src/Workbench/Retrieval/Steps.antt =====
-- backend/services/workbench_legacy_retrieval_executor.py, execute_legacy_retrieval_task: the loop over
-- the sources and how the task ends.
use goat_ai.Prelude.{String, not, none, some, List, [], ◌∷◌, map, select, if◌then◌else◌, str_eq}
use goat_ai.Prelude.Json.{obj, arr, field, end}
use goat_ai.Prelude.Text.{join}
use goat_ai.Authz.{AuthorizationContext}
use goat_ai.Workbench.Store.{strings}
use goat_ai.Workbench.Sources.{
  Descriptor, Sources, found, permission_error, value_error, has_any, resolve_requested_sources,
}
use goat_ai.Workbench.Runs.{
  Answer, value, raises, other_exception, Tools, Surroundings, World, Attempt, append_running_event,
  fail_task, complete_task,
}
use goat_ai.Workbench.Retrieval.{
  Skipped, skipped_source, skipped_items, source_json, Gathered, gathered_nothing, search_request,
  resolve_web_result_limit, knowledge_answered, web_answered, dedupe_citations, citation_json,
  compose_retrieval_result,
}
use goat_ai.Workbench.{TaskRecord}

unfoldable pub note_skipped : Surroundings → String → List Skipped → World → World
note_skipped env task_id [] w = w
note_skipped env task_id (s ∷ ss) w = note_skipped env task_id ss (
    append_running_event env task_id "retrieval.step.skipped"
      (join ("Skipped source " ∷ s.source_id ∷ " (" ∷ s.deny_reason ∷ ")." ∷ []))
      (source_json s.source_id s.deny_reason) w)

-- One round of the loop.
unfoldable pub retrieve_source :
    Surroundings
    → Tools
    → AuthorizationContext
    → TaskRecord
    → Gathered
    → Descriptor
    → World
    → World × Answer Gathered
retrieve_source env tools ctx task g source w =
    if str_eq source.source_id "knowledge"
    then knowledge_answered env task g (tools.knowledge_search (search_request task) ctx) w
    else if str_eq source.source_id "web"
    then web_answered env tools task g
        (tools.web_search task.prompt (resolve_web_result_limit task.task_kind tools)) w
    else (
      append_running_event env task.id "retrieval.step.skipped"
          (join ("Source " ∷ source.source_id ∷ " is registered but has no executor yet." ∷ []))
          (source_json source.source_id "no_executor") w,
      value g,
    )

unfoldable pub retrieve_each :
    Surroundings
    → Tools
    → AuthorizationContext
    → TaskRecord
    → List Descriptor
    → World × Answer Gathered
    → World × Answer Gathered
retrieve_each env tools ctx task sources (w, raises e) = (w, raises e)
retrieve_each env tools ctx task [] (w, value g) = (w, value g)
retrieve_each env tools ctx task (source ∷ sources) (w, value g) =
    retrieve_each env tools ctx task sources (retrieve_source env tools ctx task g source w)

-- From `if not completed_sources` on.
unfoldable pub finish_retrieval :
    Surroundings → TaskRecord → List Descriptor → List Skipped → World × Answer Gathered → Attempt
finish_retrieval env task runnable skipped (w, raises e) = (w, some e)
finish_retrieval env task runnable skipped (w, value g) =
    if has_any g.completed
    then (
      let deduped = dedupe_citations g.citations in
          complete_task env task.id
            (compose_retrieval_result task deduped (map (λ d. d.source_id) runnable) skipped)
            (some (map citation_json deduped)) 0 w,
      none,
    )
    else (fail_task env task.id "Retrieval execution failed." w, none)

-- `if not runnable`, and the loop.
unfoldable pub retrieve_runnable :
    Surroundings
    → Tools
    → AuthorizationContext
    → TaskRecord
    → List Descriptor
    → List Skipped
    → World
    → Attempt
retrieve_runnable env tools ctx task [] skipped w =
    (fail_task env task.id "No runnable retrieval sources are currently available." w, none)
retrieve_runnable env tools ctx task (source ∷ sources) skipped w =
    finish_retrieval env task (source ∷ sources) skipped
      (retrieve_each env tools ctx task (source ∷ sources) (w, value gathered_nothing))

abbrev pub runnable_sources : List Descriptor → List Descriptor
runnable_sources = select (λ d. d.runtime_ready)

abbrev pub skipped_sources : List Descriptor → List Skipped
skipped_sources ds = map skipped_source (select (λ d. not d.runtime_ready) ds)

unfoldable pub retrieve_resolved :
    Surroundings → Tools → AuthorizationContext → TaskRecord → Sources → World → Attempt
retrieve_resolved env tools ctx task (permission_error message) w = (w, some other_exception)
retrieve_resolved env tools ctx task (value_error message) w = (w, some other_exception)
retrieve_resolved env tools ctx task (found ds) w =
    let runnable = runnable_sources ds in
    let skipped = skipped_sources ds in
    let resolved =
      append_running_event env task.id "retrieval.sources_resolved" "Retrieval sources resolved."
        (obj (
          field "requested_source_ids" (strings task.source_ids) (
            field "runnable_source_ids" (strings (map (λ d. d.source_id) runnable))
              (field "skipped_sources" (arr (skipped_items skipped)) end))))
        w in
    retrieve_runnable env tools ctx task runnable skipped
      (note_skipped env task.id skipped resolved)

unfoldable pub execute_legacy_retrieval_task :
    Surroundings → Tools → AuthorizationContext → TaskRecord → World → Attempt
execute_legacy_retrieval_task env tools ctx task w =
    retrieve_resolved env tools ctx task
      (resolve_requested_sources task.source_ids tools.sources ctx) w
