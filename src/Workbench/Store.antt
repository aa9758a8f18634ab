-- ===== src/Workbench/Store.antt =====
-- backend/services/workbench_task_store.py and workbench_workspace_output_store.py: the statements of
-- one transaction each. `none` is a row count of 0, after which the caller rolls back. JSON objects
-- list their keys in order, as `sort_keys` writes them.
use goat_ai.Prelude.{
  ℕ, String, Bool, true, Option, none, some, List, [], ◌∷◌, ◌++◌, or_else, length,
}
use goat_ai.Prelude.Json.{pos, Json, Items, null, int, str, obj, arr, nil, cons, end, field}
use goat_ai.Prelude.Table.{fetch, insert, update_where}
use goat_ai.Prelude.Sequence.{next_scoped_sequence}
use goat_ai.Prelude.Text.{append_text}
use goat_ai.Workbench.{
  Status, running, completed, failed, cancelled, TaskRow, OutputRow, TaskCreatePayload,
  OutputCreatePayload, Database, task_by_id, output_by_id, task_events, is_queued, is_running,
  is_open,
}

-- _append_event
unfoldable pub append_task_event :
    String → String → ℕ → Option Status → Option String → Option Json → Database → Database
append_task_event task_id event_type created_at status message metadata db = record db {
  events =
      db.events
      ++ record {
        task_id = task_id;
        sequence = next_scoped_sequence task_events task_id db.events;
        event_type = event_type;
        created_at = created_at;
        status = status;
        message = message;
        metadata = metadata;
      }
        ∷ [];
}

-- UPDATE workbench_tasks SET change WHERE id = ? AND guard
abbrev pub with_tasks : Database → Option (List TaskRow) → Option Database
with_tasks db none = none
with_tasks db (some rows) = some (record db { tasks = rows })

unfoldable pub update_task :
    String → (Status → Bool) → (TaskRow → TaskRow) → Database → Option Database
update_task task_id guard change db =
    with_tasks db (update_where task_by_id task_id (λ r. guard r.status) change db.tasks)

-- `if cursor.rowcount == 0: return False`, then the event.
abbrev pub then_event : Option Database → (Database → Database) → Option Database
then_event none event = none
then_event (some db) event = some (event db)

-- `if not updated: conn.rollback()`
abbrev pub commit_or_rollback : Database → Option Database → Database
commit_or_rollback db none = db
commit_or_rollback db (some db') = db'

abbrev pub option_str : Option String → Json
option_str none = null
option_str (some s) = str s

abbrev pub str_items : List String → Items
str_items [] = nil
str_items (s ∷ ss) = cons (str s) (str_items ss)

abbrev pub strings : List String → Json
strings ss = arr (str_items ss)

abbrev pub new_task : TaskCreatePayload → TaskRow
new_task payload = record {
  id = payload.task_id;
  task_kind = payload.task_kind;
  status = payload.status;
  prompt = payload.prompt;
  session_id = payload.session_id;
  project_id = payload.project_id;
  knowledge_document_ids = payload.knowledge_document_ids;
  connector_ids = payload.connector_ids;
  source_ids = payload.source_ids;
  error_detail = payload.error_detail;
  result_text = none;
  result_citations = none;
  created_at = payload.created_at;
  updated_at = payload.updated_at;
  auth_scopes = or_else payload.auth_scopes [];
  credential_id = payload.credential_id;
  auth_mode = payload.auth_mode;
  owner_id = payload.owner_id;
  tenant_id = payload.tenant_id;
  principal_id = payload.principal_id;
}

abbrev pub queued_metadata : TaskCreatePayload → Json
queued_metadata payload = obj (
    field "project_id" (option_str payload.project_id) (
      field "session_id" (option_str payload.session_id) (
        field "source_ids" (strings payload.source_ids)
          (field "task_kind" (str payload.task_kind) end))))

-- `none` is the IntegrityError of a second row with the id.
unfoldable pub create_task_in_transaction : TaskCreatePayload → Database → Option Database
create_task_in_transaction payload db =
    then_event (with_tasks db (insert task_by_id (new_task payload) db.tasks)) (
      append_task_event payload.task_id "task.queued" payload.created_at (some payload.status)
        (some "Task accepted.") (some (queued_metadata payload)))

abbrev pub claim_row : ℕ → TaskRow → TaskRow
claim_row updated_at r = record r { status = running; updated_at = updated_at }

-- The UPDATE and the event of a claim, where the row was read first.
unfoldable pub claim_found : String → ℕ → Option TaskRow → Database → Option Database
claim_found task_id updated_at none db = none
claim_found task_id updated_at (some current) db =
    then_event (update_task task_id is_queued (claim_row updated_at) db) (
      append_task_event task_id "task.started" updated_at (some running)
        (some "Task execution started.")
        (some (obj (field "task_kind" (str current.task_kind) end))))

unfoldable pub claim_task_for_execution_in_transaction : String → ℕ → Database → Option Database
claim_task_for_execution_in_transaction task_id updated_at db =
    claim_found task_id updated_at (fetch task_by_id task_id db.tasks) db

-- `encode_json(result_citations) if result_citations else None`
abbrev pub citations_column : Option (List Json) → Option (List Json)
citations_column none = none
citations_column (some []) = none
citations_column (some (c ∷ cs)) = some (c ∷ cs)

abbrev pub complete_row : ℕ → String → Option (List Json) → TaskRow → TaskRow
complete_row updated_at result_text citations r = record r {
  status = completed;
  updated_at = updated_at;
  error_detail = none;
  result_text = some result_text;
  result_citations = citations;
}

abbrev pub completed_metadata : Option (List Json) → Option ℕ → Json
completed_metadata result_citations workspace_output_count = obj (
    field "citation_count" (int (pos (length (or_else result_citations [])))) (
      field "result_format" (str "markdown")
        (field "workspace_output_count" (int (pos (or_else workspace_output_count 0))) end)))

unfoldable pub mark_task_completed_in_transaction :
    String → ℕ → String → Option (List Json) → Option ℕ → Database → Option Database
mark_task_completed_in_transaction task_id updated_at result_text result_citations
      workspace_output_count db =
    then_event
      (update_task task_id is_running
        (complete_row updated_at result_text (citations_column result_citations)) db)
      (append_task_event task_id "task.completed" updated_at (some completed)
        (some "Task execution completed.")
        (some (completed_metadata result_citations workspace_output_count)))

abbrev pub fail_row : ℕ → String → TaskRow → TaskRow
fail_row updated_at error_detail r = record r {
  status = failed;
  updated_at = updated_at;
  error_detail = some error_detail;
  result_text = none;
  result_citations = none;
}

unfoldable pub mark_task_failed_in_transaction : String → ℕ → String → Database → Option Database
mark_task_failed_in_transaction task_id updated_at error_detail db =
    then_event (update_task task_id is_open (fail_row updated_at error_detail) db) (
      append_task_event task_id "task.failed" updated_at (some failed) (some error_detail)
        (some (obj end)))

abbrev pub cancel_row : ℕ → String → TaskRow → TaskRow
cancel_row updated_at error_detail r = record r {
  status = cancelled;
  updated_at = updated_at;
  error_detail = some error_detail;
  result_text = none;
  result_citations = none;
}

unfoldable pub mark_task_cancelled_in_transaction : String → ℕ → String → Database → Option Database
mark_task_cancelled_in_transaction task_id updated_at error_detail db =
    then_event (update_task task_id is_queued (cancel_row updated_at error_detail) db) (
      append_task_event task_id "task.cancelled" updated_at (some cancelled) (some error_detail)
        (some (obj end)))

abbrev pub new_output : OutputCreatePayload → OutputRow
new_output payload = record {
  id = payload.output_id;
  task_id = payload.task_id;
  output_kind = payload.output_kind;
  title = payload.title;
  content_format = payload.content_format;
  content_text = payload.content_text;
  metadata = payload.metadata;
  created_at = payload.created_at;
  updated_at = payload.updated_at;
  owner_id = payload.owner_id;
  tenant_id = payload.tenant_id;
  principal_id = payload.principal_id;
}

abbrev pub with_outputs : Database → Option (List OutputRow) → Option Database
with_outputs db none = none
with_outputs db (some rows) = some (record db { outputs = rows })

abbrev pub output_message : OutputCreatePayload → String
output_message payload = append_text "Workspace output " (append_text payload.output_id " created.")

unfoldable pub create_workspace_output_in_transaction :
    OutputCreatePayload → Database → Option Database
create_workspace_output_in_transaction payload db =
    then_event (with_outputs db (insert output_by_id (new_output payload) db.outputs)) (
      append_task_event payload.task_id "workspace_output.created" payload.created_at (some running)
        (some (output_message payload))
        (some (
          obj (
            field "content_format" (str payload.content_format) (
              field "output_id" (str payload.output_id)
                (field "output_kind" (str payload.output_kind) end))))))

unfoldable pub replace_metadata : String → Json → ℕ → Database → Option Database
replace_metadata output_id metadata updated_at db = with_outputs db (
    update_where output_by_id output_id (λ o. true)
      (λ o. record o { metadata = some metadata; updated_at = updated_at }) db.outputs)
