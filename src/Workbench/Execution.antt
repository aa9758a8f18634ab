-- ===== src/Workbench/Execution.antt =====
-- backend/services/workbench_execution_service.py: one run of a task, and what is done at start-up about
-- the tasks that an earlier process left behind.
pub mod Kept
pub mod Parts
pub mod Ends
pub mod Recovery
use goat_ai.Prelude.{
  ℕ, suc, String, Bool, true, false, ◌&&◌, ◌||◌, Option, none, some, List, [], ◌∷◌, map,
  if◌then◌else◌, str_eq,
}
use goat_ai.Authz.{AuthorizationContext}
use goat_ai.Workbench.Calls.{
  text_or, Call, apply_all, claim_task_for_execution, list_task_ids_by_status,
}
use goat_ai.Workbench.Sources.{has_any}
use goat_ai.Workbench.Runs.{
  Failure, ollama_unavailable, knowledge_document_not_found, other_exception, ResearchEnd,
  researched, no_runnable_sources, execution_failed, research_raises, ResearchRun, Tools,
  Surroundings, World, Attempt, fail_task, complete_task,
}
use goat_ai.Workbench.Retrieval.{citation_json}
use goat_ai.Workbench.Retrieval.Steps.{execute_legacy_retrieval_task}
use goat_ai.Workbench.PlanCanvas.{plan_text, plan_answered, execute_canvas_task}
use goat_ai.Workbench.{TaskRecord, Database, is_queued, is_running}

-- _build_execution_auth_context
unfoldable pub build_execution_auth_context : TaskRecord → AuthorizationContext
build_execution_auth_context task = record {
  principal_id = record { value = task.principal_id };
  tenant_id = record { value = task.tenant_id };
  scopes = task.auth_scopes;
  credential_id = task.credential_id;
  legacy_owner_id = task.owner_id;
  auth_mode = text_or task.auth_mode "api_key";
}

-- claimed.task_kind in {"browse", "deep_research"}
abbrev pub is_retrieval_kind : String → Bool
is_retrieval_kind kind = str_eq kind "browse" || str_eq kind "deep_research"

unfoldable pub research_ended : Surroundings → String → ResearchEnd → World → Attempt
research_ended env task_id (research_raises e) w = (w, some e)
research_ended env task_id no_runnable_sources w =
    (fail_task env task_id "No runnable retrieval sources are currently available." w, none)
research_ended env task_id execution_failed w =
    (fail_task env task_id "Retrieval execution failed." w, none)
research_ended env task_id (researched result_text citations) w =
    (complete_task env task_id result_text (some (map citation_json citations)) 0 w, none)

unfoldable pub research_run : Surroundings → String → ResearchRun → World → Attempt
research_run env task_id run w =
    research_ended env task_id run.ending (record w { db = apply_all run.calls w.db })

-- The body of the `try`.
unfoldable pub run_task :
    Surroundings → Tools → AuthorizationContext → String → TaskRecord → World → Attempt
run_task env tools ctx task_id task w =
    if is_retrieval_kind task.task_kind
    then if tools.sources.workbench_langgraph_enabled && tools.langgraph_runtime_available
      then research_run env task_id (tools.research task w.db) w
      else execute_legacy_retrieval_task env tools ctx task w
    else if str_eq task.task_kind "canvas"
    then execute_canvas_task env tools ctx task w
    else if str_eq task.task_kind "plan"
    then plan_answered env task_id (plan_text tools ctx task) w
    else (fail_task env task_id "Task kind is not implemented yet." w, none)

unfoldable pub failure_detail : TaskRecord → Failure → String
failure_detail task ollama_unavailable = "AI backend unavailable."
failure_detail task knowledge_document_not_found = "Knowledge document not found."
failure_detail task other_exception =
    if is_retrieval_kind task.task_kind
    then "Retrieval execution failed."
    else if str_eq task.task_kind "canvas"
    then "Canvas generation failed."
    else if has_any task.knowledge_document_ids
    then "Knowledge retrieval failed."
    else "Plan execution failed."

-- The `except` clauses.
unfoldable pub handle_failure : Surroundings → String → TaskRecord → Attempt → World
handle_failure env task_id task (w, none) = w
handle_failure env task_id task (w, some e) = fail_task env task_id (failure_detail task e) w

-- `if claimed is None: return`
unfoldable pub run_claimed : Surroundings → Tools → String → Option TaskRecord → World → World
run_claimed env tools task_id none w = w
run_claimed env tools task_id (some task) w =
    handle_failure env task_id task
      (run_task env tools (build_execution_auth_context task) task_id task w)

unfoldable pub execute_workbench_task : Surroundings → Tools → String → World → World
execute_workbench_task env tools task_id w =
    let (db, claimed) =
      claim_task_for_execution task_id (env.clock w.readings)
        (apply_all (env.others w.readings) w.db) in
    run_claimed env tools task_id claimed (record { db = db; readings = suc w.readings })

-- _TASK_INTERRUPTED
abbrev pub task_interrupted : String
task_interrupted = "Task execution was interrupted during a previous process lifetime."

unfoldable pub interrupt_each : Surroundings → List String → World → World
interrupt_each env [] w = w
interrupt_each env (task_id ∷ ids) w =
    interrupt_each env ids (fail_task env task_id task_interrupted w)

unfoldable pub replay_each : Surroundings → Tools → List String → World → World
replay_each env tools [] w = w
replay_each env tools (task_id ∷ ids) w =
    replay_each env tools ids (execute_workbench_task env tools task_id w)

-- WorkbenchRecoveryResult
pub record RecoveryResult : Type 0 where
  pub replayed_task_ids : List String
  pub interrupted_task_ids : List String

-- `meanwhile` is what others do before the second list is read.
unfoldable pub recover_workbench_tasks :
    Surroundings → Tools → List Call → World → World × RecoveryResult
recover_workbench_tasks env tools meanwhile w =
    let interrupted = list_task_ids_by_status is_running w.db in
    let w' = interrupt_each env interrupted w in
    let db' = apply_all meanwhile w'.db in
    let replayed = list_task_ids_by_status is_queued db' in
    (
      replay_each env tools replayed (record w' { db = db' }),
      record { replayed_task_ids = replayed; interrupted_task_ids = interrupted },
    )
