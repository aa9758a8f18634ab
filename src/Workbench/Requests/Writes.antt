-- ===== src/Workbench/Requests/Writes.antt =====
-- backend/application/workbench_task_lifecycle.py: the requests that change a task. Each comes back with
-- the database.
pub mod Settled
pub mod Created
use goat_ai.Prelude.{
  ℕ, String, Bool, true, false, not, ◌&&◌, ◌||◌, Option, none, some, List, [], ◌∷◌, ◌++◌, map,
  select, if◌then◌else◌, member, str_eq,
}
use goat_ai.Prelude.Json.{obj, end, field, str}
use goat_ai.Prelude.Sort.{text_before, sort_by}
use goat_ai.Prelude.Text.{append_text, join}
use goat_ai.Authz.{AuthorizationContext, workbench_write_policy_allowed}
use goat_ai.Workbench.Store.{append_task_event}
use goat_ai.Workbench.Calls.{
  Call, apply_all, get_task, TaskCreated, create_task, mark_task_cancelled,
}
use goat_ai.Workbench.Sources.{
  Descriptor, Sources, found, permission_error, value_error, comma_join, distinct, has_any,
  normalize_requested_source_ids, resolve_requested_sources,
}
use goat_ai.Workbench.Execution.{is_retrieval_kind}
use goat_ai.Workbench.Requests.{
  RequestError, Reply, ok, error, feature_not_available, task_not_found, task_conflict,
  persistence_error, runtime_error, permission_denied, source_validation, RequestSettings,
  TaskRequest, AcceptedResponse, StatusResponse, to_accepted_response, status_response, write,
  load_visible_task,
}
use goat_ai.Workbench.{queued, TaskRecord, TaskCreatePayload, Database, is_queued, is_terminal}

-- From the read after the cancellation on.
abbrev pub cancelled_reply :
    RequestSettings → AuthorizationContext → Database → Option TaskRecord → Reply StatusResponse
cancelled_reply settings ctx db none = error runtime_error
cancelled_reply settings ctx db (some updated) = ok (status_response settings ctx updated db)

-- `others` are the calls that others make between the check and the cancellation.
unfoldable pub cancel_loaded :
    RequestSettings
    → AuthorizationContext
    → ℕ
    → List Call
    → Reply TaskRecord
    → Database
    → Database × Reply StatusResponse
cancel_loaded settings ctx now others (error e) db = (db, error e)
cancel_loaded settings ctx now others (ok task) db =
    let db' =
      mark_task_cancelled task.id now "Task cancelled before execution." (apply_all others db) in
    if is_queued task.status
    then (db', cancelled_reply settings ctx db' (get_task task.id db'))
    else (db, error task_conflict)

unfoldable pub cancel_workbench_task :
    RequestSettings
    → AuthorizationContext
    → ℕ
    → List Call
    → String
    → Database
    → Database × Reply StatusResponse
cancel_workbench_task settings ctx now others task_id db =
    cancel_loaded settings ctx now others (load_visible_task settings ctx write task_id db) db

abbrev pub ids_without : String → List Descriptor → List String
ids_without task_kind ds =
    map (λ d. d.source_id) (select (λ d. not (member task_kind d.task_kinds)) ds)

-- The error of sources that do not serve the kind of task. `{task_kind!r}` puts quotes around it.
abbrev pub ensure_sources_support_task_kind : String → List Descriptor → Option RequestError
ensure_sources_support_task_kind task_kind ds =
    let incompatible = sort_by text_before (ids_without task_kind ds) in
    if has_any incompatible
    then some (
        source_validation (
          join (
            "Requested workbench sources do not support task kind '"
            ∷ task_kind
            ∷ "': "
            ∷ comma_join incompatible
            ∷ "."
            ∷ [])))
    else none

abbrev pub needs_project : List Descriptor → Bool
needs_project [] = false
needs_project (d ∷ ds) = d.requires_project_id || needs_project ds

-- `not project_id`
abbrev pub no_text : Option String → Bool
no_text none = true
no_text (some s) = str_eq s ""

abbrev pub ensure_source_requirements : Option String → List Descriptor → Option RequestError
ensure_source_requirements project_id ds =
    if needs_project ds && no_text project_id
    then some (source_validation "Requested workbench sources require project_id: project_memory.")
    else none

abbrev pub any_ready : List Descriptor → Bool
any_ready [] = false
any_ready (d ∷ ds) = d.runtime_ready || any_ready ds

abbrev pub ensure_ready : String → List Descriptor → Option RequestError
ensure_ready task_kind ds =
    if is_retrieval_kind task_kind && not (any_ready ds)
    then some (
        source_validation
          "At least one runtime-ready retrieval source is required for this task kind.")
    else none

-- The first error, if there is one.
abbrev pub first_error : Option RequestError → Option RequestError → Option RequestError
first_error none e = e
first_error (some e) _ = some e

-- `sorted(auth_context.scopes)`
abbrev pub sorted_scopes : AuthorizationContext → List String
sorted_scopes ctx = sort_by text_before (distinct ctx.scopes)

-- build_task_create_payload, of what a request or an earlier task asks for.
abbrev pub build_task_create_payload :
    AuthorizationContext → String → ℕ → TaskRequest → List Descriptor → TaskCreatePayload
build_task_create_payload ctx task_id created_at asked ds = record {
  task_id = task_id;
  task_kind = asked.task_kind;
  prompt = asked.prompt;
  session_id = asked.session_id;
  project_id = asked.project_id;
  knowledge_document_ids = asked.knowledge_document_ids;
  connector_ids = asked.connector_ids;
  source_ids = map (λ d. d.source_id) ds;
  created_at = created_at;
  updated_at = created_at;
  owner_id = ctx.legacy_owner_id;
  tenant_id = ctx.tenant_id.value;
  principal_id = ctx.principal_id.value;
  auth_scopes = some (sorted_scopes ctx);
  credential_id = ctx.credential_id;
  auth_mode = ctx.auth_mode;
  status = queued;
  error_detail = none;
}

abbrev pub accepted_reply : Database → TaskCreated → Database × Reply AcceptedResponse
accepted_reply db none = (db, error persistence_error)
accepted_reply db (some (db', task)) = (db', ok (to_accepted_response task))

abbrev pub create_checked :
    AuthorizationContext
    → String
    → ℕ
    → TaskRequest
    → List Descriptor
    → Option RequestError
    → Database
    → Database × Reply AcceptedResponse
create_checked ctx new_id now asked ds (some e) db = (db, error e)
create_checked ctx new_id now asked ds none db =
    accepted_reply db (create_task (build_task_create_payload ctx new_id now asked ds) db)

unfoldable pub create_resolved :
    AuthorizationContext
    → String
    → ℕ
    → TaskRequest
    → Sources
    → Database
    → Database × Reply AcceptedResponse
create_resolved ctx new_id now asked (permission_error message) db =
    (db, error (permission_denied message))
create_resolved ctx new_id now asked (value_error message) db =
    (db, error (source_validation message))
create_resolved ctx new_id now asked (found ds) db =
    create_checked ctx new_id now asked ds
      (first_error (ensure_sources_support_task_kind asked.task_kind ds) (
        first_error (ensure_source_requirements asked.project_id ds)
          (ensure_ready asked.task_kind ds)))
      db

-- A request of a kind that retrieves asks for the web where it names no source.
abbrev pub requested_ids : TaskRequest → List String
requested_ids asked =
    let ids =
      normalize_requested_source_ids asked.source_ids asked.connector_ids
        asked.knowledge_document_ids in
    if is_retrieval_kind asked.task_kind && not (has_any ids) then ids ++ "web" ∷ [] else ids

unfoldable pub create_workbench_task :
    RequestSettings
    → AuthorizationContext
    → String
    → ℕ
    → TaskRequest
    → Database
    → Database × Reply AcceptedResponse
create_workbench_task settings ctx new_hex now asked db =
    if not settings.agent_workbench_enabled
    then (db, error feature_not_available)
    else if not (workbench_write_policy_allowed ctx)
    then (
      db,
      error (permission_denied "Caller lacks the scopes required to create workbench tasks."),
    )
    else create_resolved ctx (append_text "wb-" new_hex) now asked
        (resolve_requested_sources (requested_ids asked) settings.sources ctx) db

-- The two events of a retry.
unfoldable pub retry_events : ℕ → TaskRecord → TaskRecord → Database → Database
retry_events now task retried db =
    append_task_event retried.id "task.retry_created" now (some queued)
      (some "Task created from retry.") (some (obj (field "source_task_id" (str task.id) end)))
      (append_task_event task.id "task.retry_requested" now (some task.status)
        (some "Retry requested.") (some (obj (field "retry_task_id" (str retried.id) end))) db)

abbrev pub retried_reply :
    ℕ → TaskRecord → Database → TaskCreated → Database × Reply AcceptedResponse
retried_reply now task db none = (db, error persistence_error)
retried_reply now task db (some (db', retried)) =
    (retry_events now task retried db', ok (to_accepted_response retried))

-- What a retry asks for.
abbrev pub asked_again : TaskRecord → TaskRequest
asked_again task = record {
  task_kind = task.task_kind;
  prompt = task.prompt;
  session_id = task.session_id;
  project_id = task.project_id;
  knowledge_document_ids = task.knowledge_document_ids;
  source_ids = task.source_ids;
  connector_ids = task.connector_ids;
}

abbrev pub retry_checked :
    AuthorizationContext
    → String
    → ℕ
    → TaskRecord
    → List Descriptor
    → Option RequestError
    → Database
    → Database × Reply AcceptedResponse
retry_checked ctx new_id now task ds (some e) db = (db, error e)
retry_checked ctx new_id now task ds none db =
    retried_reply now task db
      (create_task (build_task_create_payload ctx new_id now (asked_again task) ds) db)

unfoldable pub retry_resolved :
    AuthorizationContext
    → String
    → ℕ
    → TaskRecord
    → Sources
    → Database
    → Database × Reply AcceptedResponse
retry_resolved ctx new_id now task (permission_error message) db =
    (db, error (permission_denied message))
retry_resolved ctx new_id now task (value_error message) db =
    (db, error (source_validation message))
retry_resolved ctx new_id now task (found ds) db =
    retry_checked ctx new_id now task ds
      (first_error (ensure_sources_support_task_kind task.task_kind ds)
        (ensure_source_requirements task.project_id ds))
      db

unfoldable pub retry_loaded :
    RequestSettings
    → AuthorizationContext
    → String
    → ℕ
    → Reply TaskRecord
    → Database
    → Database × Reply AcceptedResponse
retry_loaded settings ctx new_id now (error e) db = (db, error e)
retry_loaded settings ctx new_id now (ok task) db =
    if is_terminal task.status
    then retry_resolved ctx new_id now task
        (resolve_requested_sources task.source_ids settings.sources ctx) db
    else (db, error task_conflict)

unfoldable pub retry_workbench_task :
    RequestSettings
    → AuthorizationContext
    → String
    → ℕ
    → String
    → Database
    → Database × Reply AcceptedResponse
retry_workbench_task settings ctx new_hex now task_id db =
    retry_loaded settings ctx (append_text "wb-" new_hex) now
      (load_visible_task settings ctx write task_id db) db
