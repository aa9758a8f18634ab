-- ===== src/Workbench/Requests.antt =====
-- backend/application/workbench_task_lifecycle.py and workbench_shared.py: the requests about tasks. An
-- exception is a value. The gate of the feature is a setting; the dispatcher is handed the id that is
-- returned; the times, the new ids and the calls that others make in between are parameters.
pub mod Writes
pub mod Hidden
mod Tests
use goat_ai.Prelude.{
  ℕ, String, Bool, true, false, not, ◌&&◌, ◌||◌, Option, none, some, List, [], ◌∷◌, ◌++◌, map,
  select, if◌then◌else◌, or_else, member, str_eq,
}
use goat_ai.Prelude.Json.{Json, arr, obj, Items, nil, cons, Fields, end, field, str}
use goat_ai.Prelude.Sort.{text_before, sort_by}
use goat_ai.Prelude.Text.{join}
use goat_ai.Authz.Ownership.{Resource, owned}
use goat_ai.Authz.{
  AuthorizationContext, AuthorizationDecision, authorize_workbench_task_read,
  authorize_workbench_task_write, authorize_workbench_output_read, workbench_write_policy_allowed,
}
use goat_ai.Workbench.Store.{append_task_event}
use goat_ai.Workbench.Calls.{
  Call, apply_all, get_task, list_task_events, list_workspace_outputs, TaskCreated, create_task,
  mark_task_cancelled,
}
use goat_ai.Workbench.Sources.{
  Descriptor, SourceSettings, Sources, found, permission_error, value_error, comma_join, distinct,
  has_any, normalize_requested_source_ids, resolve_requested_sources,
}
use goat_ai.Workbench.Execution.{is_retrieval_kind}
use goat_ai.Workbench.{
  Status, queued, TaskRecord, TaskEventRecord, OutputRecord, TaskCreatePayload, Database, is_queued,
  is_terminal,
}

-- What a request raises, with its message where the code composes one.
pub data RequestError : Type 0 where
  feature_not_available task_not_found task_conflict persistence_error runtime_error : RequestError
  permission_denied source_validation : String → RequestError

pub data Reply (A : Type 0) : Type 0 where
  ok : A → Reply A
  error : RequestError → Reply A

pub record RequestSettings : Type 0 where
  pub agent_workbench_enabled : Bool
  pub sources : SourceSettings

-- WorkbenchTaskRequest
pub record TaskRequest : Type 0 where
  pub task_kind : String
  pub prompt : String
  pub session_id : Option String
  pub project_id : Option String
  pub knowledge_document_ids : List String
  pub source_ids : List String
  pub connector_ids : List String

-- WorkbenchTaskAcceptedResponse
pub record AcceptedResponse : Type 0 where
  pub task_id : String
  pub task_kind : String
  pub status : Status
  pub created_at : ℕ

-- WorkbenchWorkspaceOutputPayload
pub record OutputPayload : Type 0 where
  pub output_id : String
  pub output_kind : String
  pub title : String
  pub content_format : String
  pub content : String
  pub created_at : ℕ
  pub updated_at : ℕ
  pub metadata : Fields
  pub artifacts : List Json

-- WorkbenchTaskStatusResponse, with the content and the citations of WorkbenchTaskResultPayload.
pub record StatusResponse : Type 0 where
  pub task_id : String
  pub task_kind : String
  pub status : Status
  pub created_at : ℕ
  pub updated_at : ℕ
  pub error_detail : Option String
  pub result : Option (String × List Json)
  pub workspace_outputs : List OutputPayload

abbrev pub to_accepted_response : TaskRecord → AcceptedResponse
to_accepted_response task = record {
  task_id = task.id;
  task_kind = task.task_kind;
  status = task.status;
  created_at = task.created_at;
}

abbrev pub task_result : Option String → Option (List Json) → Option (String × List Json)
task_result none citations = none
task_result (some content) citations = some (content, or_else citations [])

abbrev pub metadata_fields : Option Json → Fields
metadata_fields (some (obj fields)) = fields
metadata_fields _ = end

-- `metadata.pop(name, [])`, the value and what is left.
abbrev pub pop_field : String → Fields → Option Json × Fields
pop_field name end = (none, end)
pop_field name (field key value fields) =
    let (popped, rest) = pop_field name fields in
    if str_eq key name then (some value, rest) else (popped, field key value rest)

-- `if isinstance(item, dict)`
abbrev pub dict_items : Items → List Json
dict_items nil = []
dict_items (cons (obj fields) items) = obj fields ∷ dict_items items
dict_items (cons _ items) = dict_items items

abbrev pub artifact_items : Option Json → List Json
artifact_items (some (arr items)) = dict_items items
artifact_items _ = []

unfoldable pub to_workspace_output_payload : OutputRecord → OutputPayload
to_workspace_output_payload output =
    let (artifacts, rest) = pop_field "artifacts" (metadata_fields output.metadata) in
    record {
      output_id = output.id;
      output_kind = output.output_kind;
      title = output.title;
      content_format = output.content_format;
      content = output.content_text;
      created_at = output.created_at;
      updated_at = output.updated_at;
      metadata = rest;
      artifacts = artifact_items artifacts;
    }

abbrev pub output_resource : OutputRecord → Resource
output_resource o =
    owned (record { owner_id = o.owner_id; tenant_id = o.tenant_id; principal_id = o.principal_id })

unfoldable pub filter_visible_workspace_outputs :
    RequestSettings → AuthorizationContext → List OutputRecord → List OutputPayload
filter_visible_workspace_outputs settings ctx outputs = map to_workspace_output_payload (
    select
      (λ o.
        (authorize_workbench_output_read ctx (output_resource o)
          settings.sources.require_session_owner).allowed)
      outputs)

-- `to_status_response`, with the outputs that the caller may see.
unfoldable pub status_response :
    RequestSettings → AuthorizationContext → TaskRecord → Database → StatusResponse
status_response settings ctx task db = record {
  task_id = task.id;
  task_kind = task.task_kind;
  status = task.status;
  created_at = task.created_at;
  updated_at = task.updated_at;
  error_detail = task.error_detail;
  result = task_result task.result_text task.result_citations;
  workspace_outputs =
      filter_visible_workspace_outputs settings ctx (list_workspace_outputs task.id db);
}

abbrev pub task_resource : TaskRecord → Resource
task_resource task = owned (record {
  owner_id = task.owner_id;
  tenant_id = task.tenant_id;
  principal_id = task.principal_id;
})

-- access_mode
pub data Access : Type 0 where
  read write : Access

abbrev pub task_decision :
    RequestSettings → AuthorizationContext → Access → TaskRecord → AuthorizationDecision
task_decision settings ctx read task =
    authorize_workbench_task_read ctx (task_resource task) settings.sources.require_session_owner
task_decision settings ctx write task =
    authorize_workbench_task_write ctx (task_resource task) settings.sources.require_session_owner

abbrev pub decided_task : AuthorizationDecision → TaskRecord → Reply TaskRecord
decided_task decision task =
    if decision.allowed
    then ok task
    else if str_eq decision.reason_code "scope_missing"
    then error (permission_denied "Caller lacks the scopes required for this workbench task.")
    else error task_not_found

abbrev pub found_task :
    RequestSettings → AuthorizationContext → Access → Option TaskRecord → Reply TaskRecord
found_task settings ctx access none = error task_not_found
found_task settings ctx access (some task) =
    decided_task (task_decision settings ctx access task) task

unfoldable pub load_visible_task :
    RequestSettings → AuthorizationContext → Access → String → Database → Reply TaskRecord
load_visible_task settings ctx access task_id db =
    if settings.agent_workbench_enabled
    then found_task settings ctx access (get_task task_id db)
    else error feature_not_available

abbrev pub status_reply :
    RequestSettings → AuthorizationContext → Database → Reply TaskRecord → Reply StatusResponse
status_reply settings ctx db (error e) = error e
status_reply settings ctx db (ok task) = ok (status_response settings ctx task db)

unfoldable pub get_workbench_task :
    RequestSettings → AuthorizationContext → String → Database → Reply StatusResponse
get_workbench_task settings ctx task_id db =
    status_reply settings ctx db (load_visible_task settings ctx read task_id db)

abbrev pub events_reply : Database → Reply TaskRecord → Reply (String × List TaskEventRecord)
events_reply db (error e) = error e
events_reply db (ok task) = ok (task.id, list_task_events task.id db)

unfoldable pub get_workbench_task_events :
    RequestSettings
    → AuthorizationContext
    → String
    → Database
    → Reply (String × List TaskEventRecord)
get_workbench_task_events settings ctx task_id db =
    events_reply db (load_visible_task settings ctx read task_id db)
