-- ===== src/Workbench/Tests.antt =====
-- backend/services/workbench_task_store.py and workbench_execution_service.py: one task from its
-- creation to its end.
use goat_ai.Prelude.{
  ◌≤◌, ◌≡◌, refl, ◌&&◌, ◌||◌, not, String, true, false, none, some, [], ◌∷◌, ◌++◌, ◌==◌,
  if◌then◌else◌, map, str_eq, member, All,
}
use goat_ai.Prelude.Json.{null}
use goat_ai.Prelude.Table.{fetch, put}
use goat_ai.Prelude.Text.Strip.{strip}
use goat_ai.Authz.{AuthorizationContext, full_scopes, has_scope, authorize_workbench_source_read}
use goat_ai.Workbench.Store.{new_task, claim_row, complete_row}
use goat_ai.Workbench.Calls.{Call, notes, claims, fails, cancels, apply_all}
use goat_ai.Workbench.Lifecycle.{claim_count, claim_count-le-one, ended_task_stays}
use goat_ai.Workbench.Sources.{
  SourceSettings, knowledge_source, source_decision, has_any, resolve_requested_sources,
  resolve_with, build_workbench_source_catalog_by_id, normalize_requested_source_ids,
  build_workbench_source_catalog, index_sources, resolve_each, resolve_one, conclude_sources,
}
use goat_ai.Workbench.Sources.Requested.{
  Distinct, Clean, normalize-Normal, resolve-allowed, resolve-conceals, visible_to,
}
use goat_ai.Workbench.Runs.{
  Citation, value, web_hits, no_runnable_sources, Tools, Surroundings, World,
}
use goat_ai.Workbench.Retrieval.{dedupe_citations}
use goat_ai.Workbench.Retrieval.Citations.{CitedOnce, first_with, dedupe-first}
use goat_ai.Workbench.Execution.{execute_workbench_task, recover_workbench_tasks}
use goat_ai.Workbench.Execution.Parts.{TaskBegun, TaskEnded}
use goat_ai.Workbench.Execution.Ends.{execute-TaskEnded}
use goat_ai.Workbench.Execution.Recovery.{recover-tasks}
use goat_ai.Workbench.Postgres.Outcomes.{Compares, apply_to_postgres-Compares}
use goat_ai.Workbench.{queued, running, TaskRow, TaskCreatePayload, Database, task_by_id}

abbrev pub task_id : String
task_id = "wb-1"

abbrev payload : TaskCreatePayload
payload = record {
  task_id = task_id;
  task_kind = "plan";
  prompt = "Plan the release.";
  session_id = none;
  project_id = none;
  knowledge_document_ids = [];
  connector_ids = [];
  source_ids = [];
  created_at = 1;
  updated_at = 1;
  owner_id = "alice";
  tenant_id = "";
  principal_id = "";
  auth_scopes = some full_scopes;
  credential_id = "";
  auth_mode = "api_key";
  status = queued;
  error_detail = none;
}

abbrev pub waiting : TaskRow
waiting = new_task payload

abbrev pub ended : TaskRow
ended = complete_row 3 "Done." none (claim_row 2 waiting)

abbrev pub with_task : TaskRow → Database
with_task r = record { tasks = r ∷ []; events = []; outputs = [] }

abbrev pub settings : SourceSettings
settings = record {
  workbench_langgraph_enabled = false;
  langgraph_importable = false;
  web_runtime_ready = true;
  web_deny_reason = none;
  web_description = "";
  connector_bindings = [];
  require_session_owner = false;
}

abbrev pub caller : AuthorizationContext
caller = record {
  principal_id = record { value = "p" };
  tenant_id = record { value = "t" };
  scopes = full_scopes;
  credential_id = "c";
  legacy_owner_id = "alice";
  auth_mode = "api_key";
}

abbrev tools : Tools
tools = record {
  sources = settings;
  workbench_web_provider = "duckduckgo";
  workbench_web_max_results = 5;
  knowledge_search =
      λ request ctx. value (record { query = request.query; hits = []; effective_query = none });
  web_search = λ query limit. web_hits [];
  web_score = λ rank. null;
  context_builder = λ query ids top_k ctx. value (record { context_block = ""; citations = [] });
  list_model_names = value [];
  generate_completion = λ model prompt. value " 1. Ship it. ";
  new_hex = λ n. "ab";
  langgraph_runtime_available = false;
  research = λ task db. record { calls = []; ending = no_runnable_sources };
}

-- Nobody else is at work until the third reading, when another worker tries to claim the task.
abbrev surroundings : Surroundings
surroundings = record { clock = λ n. n; others = λ n. if n == 2 then claims task_id 9 ∷ [] else [] }

abbrev world : TaskRow → World
world r = record { db = with_task r; readings = 0 }

claim_count_example :
    claim_count task_id (claims task_id 2 ∷ claims task_id 3 ∷ []) (with_task waiting) ≤ 1
claim_count_example =
    claim_count-le-one task_id (claims task_id 2 ∷ claims task_id 3 ∷ []) (with_task waiting)

ended_task_stays_example :
    fetch task_by_id task_id
      (apply_all (fails task_id 4 "late" ∷ claims task_id 5 ∷ []) (with_task ended)).tasks
    ≡ some ended
unfolding fetch
ended_task_stays_example =
    ended_task_stays (fails task_id 4 "late" ∷ claims task_id 5 ∷ []) task_id (with_task ended)
      ended refl refl

execute-TaskEnded_example :
    TaskEnded task_id (execute_workbench_task surroundings tools task_id (world waiting)).db
unfolding fetch apply_all
execute-TaskEnded_example =
    execute-TaskEnded surroundings tools task_id (world waiting) waiting refl refl

recover-tasks_example :
    let after =
      (recover_workbench_tasks surroundings tools
        (cancels task_id 2 "stop" ∷ [])
        (world waiting)).0.db in
    ((waiting.status ≡ running) → TaskEnded task_id after)
    × ((waiting.status ≡ queued) → TaskBegun task_id after)
unfolding fetch
recover-tasks_example =
    recover-tasks surroundings tools (cancels task_id 2 "stop" ∷ []) task_id (world waiting) waiting
      refl

normalize-Normal_example :
    let ids = normalize_requested_source_ids (" web" ∷ "" ∷ "web" ∷ []) [] ("doc" ∷ []) in
    Distinct ids
    × All Clean ids
    × ((b : String)
        → member b ids ≡ (
            (member b (map strip ((" web" ∷ "" ∷ "web" ∷ []) ++ [])) && not (str_eq b ""))
            || (str_eq b "knowledge" && has_any ("doc" ∷ []))))
normalize-Normal_example = normalize-Normal (" web" ∷ "" ∷ "web" ∷ []) [] ("doc" ∷ [])

resolve-allowed_example :
    (map (λ d. d.source_id) (knowledge_source ∷ []) ≡ "knowledge" ∷ [])
    × All (λ d. (source_decision settings caller d).allowed ≡ true) (knowledge_source ∷ [])
unfolding resolve_requested_sources resolve_with build_workbench_source_catalog_by_id
    build_workbench_source_catalog index_sources fetch put resolve_each resolve_one conclude_sources
    authorize_workbench_source_read has_scope
resolve-allowed_example =
    resolve-allowed ("knowledge" ∷ []) settings caller (knowledge_source ∷ []) refl

resolve-conceals_example :
    resolve_requested_sources ("knowledge" ∷ "crm" ∷ []) settings caller
    ≡ resolve_with settings caller
        (λ id. visible_to settings caller (build_workbench_source_catalog_by_id settings id))
        ("knowledge" ∷ "crm" ∷ [])
resolve-conceals_example = resolve-conceals settings caller ("knowledge" ∷ "crm" ∷ [])

abbrev cited : Citation
cited = record { document_id = "d"; chunk_id = "1"; filename = "a.md"; snippet = "x"; score = null }

dedupe-first_example :
    CitedOnce (dedupe_citations (cited ∷ cited ∷ []))
    × ((k : String × String)
        → first_with k (dedupe_citations (cited ∷ cited ∷ [])) ≡ first_with k (cited ∷ cited ∷ []))
dedupe-first_example = dedupe-first (cited ∷ cited ∷ [])

-- An event for a task that is not there.
abbrev orphan_note : Call
orphan_note = notes "wb-none" "task.note" 2 none none none

apply_to_postgres-Compares_example : Compares orphan_note (with_task waiting)
apply_to_postgres-Compares_example = apply_to_postgres-Compares orphan_note (with_task waiting)
