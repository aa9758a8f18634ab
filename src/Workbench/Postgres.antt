-- ===== src/Workbench/Postgres.antt =====
-- backend/services/workbench_runtime.py, PostgresWorkbenchTaskRepository: each method is one transaction,
-- which lock_parent_row puts in a line with the others on the same task. An update that hits no row ends
-- it before the event. The events and the outputs have the task's id as a FOREIGN KEY
-- (backend/alembic/versions/20260413_01_runtime_metadata_baseline.py): an INSERT for an id that no task
-- has is refused, and the exception ends the transaction.
pub mod Parent
pub mod Agreement
pub mod Outcomes
use goat_ai.Prelude.{
  ℕ, String, Bool, true, Option, none, some, List, [], ◌∷◌, ◌++◌, if◌then◌else◌, or_else, map,
  select, length, str_eq,
}
use goat_ai.Prelude.Json.{pos, Json, int, str, obj, field, end}
use goat_ai.Prelude.Table.{fetch, insert, update_where}
use goat_ai.Prelude.Sequence.{rows_of, next_scoped_sequence, order_by_seq}
use goat_ai.Prelude.Sort.{sort_by}
use goat_ai.Workbench.Store.{
  update_task, with_tasks, with_outputs, commit_or_rollback, option_str, strings, new_task,
  claim_row, complete_row, fail_row, cancel_row, new_output, output_message,
}
use goat_ai.Workbench.Calls.{
  Call, creates, claims, completes, fails, cancels, notes, outputs, replaces, text_or, task_before,
  join_tasks, older_first, first_output, column_is, TaskCreated, after_create, OutputCreated,
  after_output, payload_output,
}
use goat_ai.Workbench.{
  Status, running, completed, failed, cancelled, TaskRow, TaskRecord, TaskEventRecord, OutputRecord,
  TaskCreatePayload, OutputCreatePayload, Database, task_by_id, output_by_id, task_events,
  is_queued, is_open,
}

-- _row_to_task
unfoldable pub row_to_task_postgres : TaskRow → TaskRecord
row_to_task_postgres r = record {
  id = r.id;
  task_kind = r.task_kind;
  status = r.status;
  prompt = r.prompt;
  session_id = r.session_id;
  project_id = r.project_id;
  knowledge_document_ids = r.knowledge_document_ids;
  connector_ids = r.connector_ids;
  source_ids = r.source_ids;
  created_at = r.created_at;
  updated_at = r.updated_at;
  error_detail = r.error_detail;
  result_text = r.result_text;
  result_citations = r.result_citations;
  auth_scopes = r.auth_scopes;
  credential_id = r.credential_id;
  auth_mode = r.auth_mode;
  owner_id = r.owner_id;
  tenant_id = text_or r.tenant_id "tenant:default";
  principal_id = r.principal_id;
}

abbrev pub read_task_postgres : Option TaskRow → Option TaskRecord
read_task_postgres none = none
read_task_postgres (some r) = some (row_to_task_postgres r)

unfoldable pub get_task_postgres : String → Database → Option TaskRecord
get_task_postgres task_id db = read_task_postgres (fetch task_by_id task_id db.tasks)

-- WHERE status = ANY(statuses); `wanted` is the test of the list of statuses.
unfoldable pub list_task_ids_by_status_postgres : (Status → Bool) → Database → List String
list_task_ids_by_status_postgres wanted db =
    map (λ r. r.id) (sort_by task_before (select (λ r. wanted r.status) db.tasks))

unfoldable pub list_task_events_postgres : String → Database → List TaskEventRecord
list_task_events_postgres task_id db =
    order_by_seq task_events (rows_of task_events task_id db.events)

-- _list_workspace_outputs: the one order of all four reads.
unfoldable pub list_outputs_postgres : (OutputRecord → Bool) → Database → List OutputRecord
list_outputs_postgres wanted db =
    sort_by older_first (select wanted (join_tasks db.tasks db.outputs))

unfoldable pub list_workspace_outputs_postgres : String → Database → List OutputRecord
list_workspace_outputs_postgres task_id = list_outputs_postgres (λ o. str_eq o.task_id task_id)

unfoldable pub get_workspace_output_postgres : String → Database → Option OutputRecord
get_workspace_output_postgres output_id db =
    first_output (list_outputs_postgres (λ o. str_eq o.id output_id) db)

unfoldable pub list_workspace_outputs_for_session_postgres : String → Database → List OutputRecord
list_workspace_outputs_for_session_postgres session_id =
    list_outputs_postgres (λ o. column_is o.session_id session_id)

unfoldable pub list_workspace_outputs_for_project_postgres : String → Database → List OutputRecord
list_workspace_outputs_for_project_postgres project_id =
    list_outputs_postgres (λ o. column_is o.project_id project_id)

-- The FOREIGN KEY of an INSERT into a table of the task's: `none` is the exception.
unfoldable pub insert_task_child :
    String → (Database → Option Database) → Database → Option Database
insert_task_child task_id statement db = elim (fetch task_by_id task_id db.tasks) [
  | none ↦ none
  | some parent ↦ statement db
]

-- A statement of a transaction that may raise, after statements that may have ended it.
abbrev pub then_insert : Option Database → (Database → Option Database) → Option Database
then_insert none statement = none
then_insert (some db) statement = statement db

-- INSERT INTO workbench_task_events
unfoldable pub add_event_postgres :
    String → String → ℕ → Option Status → Option String → Option Json → Database → Database
add_event_postgres task_id event_type created_at status message metadata db = record db {
  events =
      db.events
      ++ record {
        task_id = task_id;
        sequence = next_scoped_sequence task_events task_id db.events;
        event_type = event_type;
        created_at = created_at;
        status = status;
        message = message;
        metadata = metadata;
      }
        ∷ [];
}

-- append_task_event, by _append_task_event_in_transaction
unfoldable pub append_task_event_postgres :
    String → String → ℕ → Option Status → Option String → Option Json → Database → Option Database
append_task_event_postgres task_id event_type created_at status message metadata =
    insert_task_child task_id
      (λ db. some (add_event_postgres task_id event_type created_at status message metadata db))

unfoldable pub insert_task_postgres : TaskCreatePayload → Database → Option Database
insert_task_postgres payload db =
    then_insert (with_tasks db (insert task_by_id (new_task payload) db.tasks)) (
      append_task_event_postgres payload.task_id "task.queued" payload.created_at
        (some payload.status) (some "Task accepted.")
        (some (
          obj (
            field "project_id" (option_str payload.project_id) (
              field "session_id" (option_str payload.session_id) (
                field "source_ids" (strings payload.source_ids)
                  (field "task_kind" (str payload.task_kind) end)))))))

unfoldable pub task_created_postgres : TaskCreatePayload → Option Database → TaskCreated
task_created_postgres payload none = none
task_created_postgres payload (some db) = some (
  db,
  elim (get_task_postgres payload.task_id db) [
    | none ↦ row_to_task_postgres (new_task payload)
    | some t ↦ t
  ],
)

unfoldable pub create_task_postgres : TaskCreatePayload → Database → TaskCreated
create_task_postgres payload db = task_created_postgres payload (insert_task_postgres payload db)

-- From the row that is read FOR UPDATE on.
unfoldable pub claim_found_postgres : String → ℕ → Option TaskRow → Database → Option Database
claim_found_postgres task_id updated_at none db = none
claim_found_postgres task_id updated_at (some row) db =
    then_insert (update_task task_id is_queued (claim_row updated_at) db) (
      append_task_event_postgres task_id "task.started" updated_at (some running)
        (some "Task execution started.") (some (obj (field "task_kind" (str row.task_kind) end))))

unfoldable pub claimed_postgres : Database → String → Option Database → Database × Option TaskRecord
claimed_postgres db task_id none = (db, none)
claimed_postgres db task_id (some db') = (db', get_task_postgres task_id db')

unfoldable pub claim_task_for_execution_postgres :
    String → ℕ → Database → Database × Option TaskRecord
claim_task_for_execution_postgres task_id updated_at db =
    claimed_postgres db task_id
      (claim_found_postgres task_id updated_at (fetch task_by_id task_id db.tasks) db)

-- The citations are stored as they come, an empty list included.
unfoldable pub mark_task_completed_postgres :
    String → ℕ → String → Option (List Json) → Option ℕ → Database → Database
mark_task_completed_postgres task_id updated_at result_text result_citations workspace_output_count
      db =
    commit_or_rollback db (
      then_insert
        (update_task task_id is_open (complete_row updated_at result_text result_citations) db)
        (append_task_event_postgres task_id "task.completed" updated_at (some completed)
          (some "Task execution completed.")
          (some (
            obj (
              field "citation_count" (int (pos (length (or_else result_citations [])))) (
                field "result_format" (str "markdown") (
                  field "workspace_output_count" (int (pos (or_else workspace_output_count 0)))
                    end)))))))

unfoldable pub mark_task_failed_postgres : String → ℕ → String → Database → Database
mark_task_failed_postgres task_id updated_at error_detail db = commit_or_rollback db (
    then_insert (update_task task_id is_open (fail_row updated_at error_detail) db) (
      append_task_event_postgres task_id "task.failed" updated_at (some failed) (some error_detail)
        (some (obj end))))

unfoldable pub mark_task_cancelled_postgres : String → ℕ → String → Database → Database
mark_task_cancelled_postgres task_id updated_at error_detail db = commit_or_rollback db (
    then_insert (update_task task_id is_queued (cancel_row updated_at error_detail) db) (
      append_task_event_postgres task_id "task.cancelled" updated_at (some cancelled)
        (some error_detail) (some (obj end))))

unfoldable pub insert_output_postgres : OutputCreatePayload → Database → Option Database
insert_output_postgres payload db =
    then_insert
      (insert_task_child payload.task_id
        (λ d. with_outputs d (insert output_by_id (new_output payload) d.outputs)) db)
      (append_task_event_postgres payload.task_id "workspace_output.created" payload.created_at
        (some running) (some (output_message payload))
        (some (
          obj (
            field "content_format" (str payload.content_format) (
              field "output_id" (str payload.output_id)
                (field "output_kind" (str payload.output_kind) end))))))

unfoldable pub output_created_postgres : OutputCreatePayload → Option Database → OutputCreated
output_created_postgres payload none = none
output_created_postgres payload (some db) = some (
  db,
  elim (get_workspace_output_postgres payload.output_id db) [
    | none ↦ payload_output payload
    | some o ↦ o
  ],
)

unfoldable pub create_workspace_output_postgres : OutputCreatePayload → Database → OutputCreated
create_workspace_output_postgres payload db =
    output_created_postgres payload (insert_output_postgres payload db)

unfoldable pub replace_workspace_output_metadata_postgres : String → Json → ℕ → Database → Database
replace_workspace_output_metadata_postgres output_id metadata updated_at db =
    commit_or_rollback db (
      with_outputs db (
        update_where output_by_id output_id (λ o. true)
          (λ o. record o { metadata = some metadata; updated_at = updated_at }) db.outputs))

-- The calls, as the Postgres repository carries them out.
unfoldable pub apply_to_postgres : Call → Database → Database
apply_to_postgres (creates payload) db = after_create db (create_task_postgres payload db)
apply_to_postgres (claims id updated_at) db = (claim_task_for_execution_postgres id updated_at db).0
apply_to_postgres (completes id updated_at result_text citations count) db =
    mark_task_completed_postgres id updated_at result_text citations count db
apply_to_postgres (fails id updated_at detail) db =
    mark_task_failed_postgres id updated_at detail db
apply_to_postgres (cancels id updated_at detail) db =
    mark_task_cancelled_postgres id updated_at detail db
apply_to_postgres (notes id event_type created_at status message metadata) db =
    commit_or_rollback db
      (append_task_event_postgres id event_type created_at status message metadata db)
apply_to_postgres (outputs payload) db =
    after_output db (create_workspace_output_postgres payload db)
apply_to_postgres (replaces id metadata updated_at) db =
    replace_workspace_output_metadata_postgres id metadata updated_at db
