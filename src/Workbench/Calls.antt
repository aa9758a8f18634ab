-- ===== src/Workbench/Calls.antt =====
-- backend/services/workbench_runtime.py, SQLiteWorkbenchTaskRepository with its two stores: the
-- methods of the repository, each a transaction that is committed or rolled back, and the reads.
use goat_ai.Prelude.{
  ◌≡◌, refl, ℕ, String, Bool, true, false, Option, none, some, List, [], ◌∷◌, if◌then◌else◌, map,
  select, ltb, str_eq,
}
use goat_ai.Prelude.Json.{Json}
use goat_ai.Prelude.Table.{fetch}
use goat_ai.Prelude.Sequence.{rows_of, order_by_seq}
use goat_ai.Prelude.Sort.{text_before, sort_by}
use goat_ai.Workbench.Store.{
  commit_or_rollback, new_task, append_task_event, create_task_in_transaction,
  claim_task_for_execution_in_transaction, mark_task_completed_in_transaction,
  mark_task_failed_in_transaction, mark_task_cancelled_in_transaction,
  create_workspace_output_in_transaction, replace_metadata,
}
use goat_ai.Workbench.{
  Status, TaskRow, TaskRecord, OutputRow, OutputRecord, TaskCreatePayload, OutputCreatePayload,
  TaskEventRecord, Database, task_by_id, task_events,
}

-- `text or other`
abbrev pub text_or : String → String → String
text_or s other = if str_eq s "" then other else s

-- _row_to_task
unfoldable pub row_to_task : TaskRow → TaskRecord
row_to_task r = record {
  id = r.id;
  task_kind = r.task_kind;
  status = r.status;
  prompt = r.prompt;
  session_id = r.session_id;
  project_id = r.project_id;
  knowledge_document_ids = r.knowledge_document_ids;
  connector_ids = r.connector_ids;
  source_ids = r.source_ids;
  created_at = r.created_at;
  updated_at = r.updated_at;
  error_detail = r.error_detail;
  result_text = r.result_text;
  result_citations = r.result_citations;
  auth_scopes = r.auth_scopes;
  credential_id = r.credential_id;
  auth_mode = r.auth_mode;
  owner_id = r.owner_id;
  tenant_id = text_or r.tenant_id "tenant:default";
  principal_id = r.principal_id;
}

abbrev pub read_task : Option TaskRow → Option TaskRecord
read_task none = none
read_task (some r) = some (row_to_task r)

unfoldable pub get_task : String → Database → Option TaskRecord
get_task task_id db = read_task (fetch task_by_id task_id db.tasks)

unfoldable pub list_task_events : String → Database → List TaskEventRecord
list_task_events task_id db = order_by_seq task_events (rows_of task_events task_id db.events)

-- ORDER BY created_at ASC, id ASC
abbrev pub task_before : TaskRow → TaskRow → Bool
task_before a b =
    if ltb a.created_at b.created_at
    then true
    else if ltb b.created_at a.created_at
    then false
    else text_before a.id b.id

-- WHERE status IN statuses; `wanted` is the test of the list of statuses.
unfoldable pub list_task_ids_by_status : (Status → Bool) → Database → List String
list_task_ids_by_status wanted db =
    map (λ r. r.id) (sort_by task_before (select (λ r. wanted r.status) db.tasks))

-- _row_to_workspace_output, of an output and the task that it is joined with.
unfoldable pub row_to_workspace_output : OutputRow → TaskRow → OutputRecord
row_to_workspace_output o task = record {
  id = o.id;
  task_id = o.task_id;
  output_kind = o.output_kind;
  title = o.title;
  content_format = o.content_format;
  content_text = o.content_text;
  created_at = o.created_at;
  updated_at = o.updated_at;
  metadata = o.metadata;
  session_id = task.session_id;
  project_id = task.project_id;
  owner_id = o.owner_id;
  tenant_id = text_or o.tenant_id "tenant:default";
  principal_id = o.principal_id;
}

abbrev pub join_found : OutputRow → Option TaskRow → List OutputRecord → List OutputRecord
join_found o none rest = rest
join_found o (some task) rest = row_to_workspace_output o task ∷ rest

-- JOIN workbench_tasks AS tasks ON tasks.id = outputs.task_id
unfoldable pub join_tasks : List TaskRow → List OutputRow → List OutputRecord
join_tasks tasks [] = []
join_tasks tasks (o ∷ outputs) =
    join_found o (fetch task_by_id o.task_id tasks) (join_tasks tasks outputs)

-- ORDER BY outputs.created_at ASC, outputs.id ASC
abbrev pub older_first : OutputRecord → OutputRecord → Bool
older_first a b =
    if ltb a.created_at b.created_at
    then true
    else if ltb b.created_at a.created_at
    then false
    else text_before a.id b.id

-- ORDER BY outputs.updated_at DESC, outputs.id ASC
abbrev pub newer_first : OutputRecord → OutputRecord → Bool
newer_first a b =
    if ltb b.updated_at a.updated_at
    then true
    else if ltb a.updated_at b.updated_at
    then false
    else text_before a.id b.id

unfoldable pub list_workspace_outputs : String → Database → List OutputRecord
list_workspace_outputs task_id db =
    sort_by older_first (select (λ o. str_eq o.task_id task_id) (join_tasks db.tasks db.outputs))

abbrev pub first_output : List OutputRecord → Option OutputRecord
first_output [] = none
first_output (o ∷ os) = some o

unfoldable pub get_workspace_output : String → Database → Option OutputRecord
get_workspace_output output_id db =
    first_output (select (λ o. str_eq o.id output_id) (join_tasks db.tasks db.outputs))

-- column = ?, where the column may be NULL
abbrev pub column_is : Option String → String → Bool
column_is none value = false
column_is (some s) value = str_eq s value

unfoldable pub list_workspace_outputs_for_session : String → Database → List OutputRecord
list_workspace_outputs_for_session session_id db =
    sort_by newer_first
      (select (λ o. column_is o.session_id session_id) (join_tasks db.tasks db.outputs))

unfoldable pub list_workspace_outputs_for_project : String → Database → List OutputRecord
list_workspace_outputs_for_project project_id db =
    sort_by newer_first
      (select (λ o. column_is o.project_id project_id) (join_tasks db.tasks db.outputs))

-- `none` is the PersistenceWriteError.
abbrev pub TaskCreated : Type 0
TaskCreated = Option (Database × TaskRecord)

unfoldable pub task_created : TaskCreatePayload → Option Database → TaskCreated
task_created payload none = none
task_created payload (some db) =
    some (
      db,
      elim (get_task payload.task_id db) [ none ↦ row_to_task (new_task payload) | some t ↦ t ],
    )

unfoldable pub create_task : TaskCreatePayload → Database → TaskCreated
create_task payload db = task_created payload (create_task_in_transaction payload db)

abbrev pub after_create : Database → TaskCreated → Database
after_create db none = db
after_create db (some (db', t)) = db'

-- The record, or None where nothing was claimed.
unfoldable pub claimed : Database → String → Option Database → Database × Option TaskRecord
claimed db task_id none = (db, none)
claimed db task_id (some db') = (db', get_task task_id db')

unfoldable pub claim_task_for_execution : String → ℕ → Database → Database × Option TaskRecord
claim_task_for_execution task_id updated_at db =
    claimed db task_id (claim_task_for_execution_in_transaction task_id updated_at db)

unfoldable pub mark_task_completed :
    String → ℕ → String → Option (List Json) → Option ℕ → Database → Database
mark_task_completed task_id updated_at result_text result_citations workspace_output_count db =
    commit_or_rollback db (
      mark_task_completed_in_transaction task_id updated_at result_text result_citations
        workspace_output_count db)

unfoldable pub mark_task_failed : String → ℕ → String → Database → Database
mark_task_failed task_id updated_at error_detail db =
    commit_or_rollback db (mark_task_failed_in_transaction task_id updated_at error_detail db)

unfoldable pub mark_task_cancelled : String → ℕ → String → Database → Database
mark_task_cancelled task_id updated_at error_detail db =
    commit_or_rollback db (mark_task_cancelled_in_transaction task_id updated_at error_detail db)

-- The record that is returned where no row is found: that of the payload.
abbrev pub payload_output : OutputCreatePayload → OutputRecord
payload_output payload = record {
  id = payload.output_id;
  task_id = payload.task_id;
  output_kind = payload.output_kind;
  title = payload.title;
  content_format = payload.content_format;
  content_text = payload.content_text;
  created_at = payload.created_at;
  updated_at = payload.updated_at;
  metadata = payload.metadata;
  session_id = none;
  project_id = none;
  owner_id = payload.owner_id;
  tenant_id = payload.tenant_id;
  principal_id = payload.principal_id;
}

-- `none` is the PersistenceWriteError.
abbrev pub OutputCreated : Type 0
OutputCreated = Option (Database × OutputRecord)

unfoldable pub output_created : OutputCreatePayload → Option Database → OutputCreated
output_created payload none = none
output_created payload (some db) = some (
  db,
  elim (get_workspace_output payload.output_id db) [ none ↦ payload_output payload | some o ↦ o ],
)

unfoldable pub create_workspace_output : OutputCreatePayload → Database → OutputCreated
create_workspace_output payload db =
    output_created payload (create_workspace_output_in_transaction payload db)

abbrev pub after_output : Database → OutputCreated → Database
after_output db none = db
after_output db (some (db', o)) = db'

unfoldable pub replace_workspace_output_metadata : String → Json → ℕ → Database → Database
replace_workspace_output_metadata output_id metadata updated_at db =
    commit_or_rollback db (replace_metadata output_id metadata updated_at db)

-- The calls that may change the database, from any thread or process.
pub data Call : Type 0 where
  creates : TaskCreatePayload → Call
  claims : String → ℕ → Call
  completes : String → ℕ → String → Option (List Json) → Option ℕ → Call
  fails cancels : String → ℕ → String → Call
  notes : String → String → ℕ → Option Status → Option String → Option Json → Call
  outputs : OutputCreatePayload → Call
  replaces : String → Json → ℕ → Call

unfoldable pub apply : Call → Database → Database
apply (creates payload) db = after_create db (create_task payload db)
apply (claims id updated_at) db = (claim_task_for_execution id updated_at db).0
apply (completes id updated_at result_text citations count) db =
    mark_task_completed id updated_at result_text citations count db
apply (fails id updated_at detail) db = mark_task_failed id updated_at detail db
apply (cancels id updated_at detail) db = mark_task_cancelled id updated_at detail db
apply (notes id event_type created_at status message metadata) db =
    append_task_event id event_type created_at status message metadata db
apply (outputs payload) db = after_output db (create_workspace_output payload db)
apply (replaces id metadata updated_at) db =
    replace_workspace_output_metadata id metadata updated_at db

unfoldable pub apply_all : List Call → Database → Database
apply_all [] db = db
apply_all (c ∷ calls) db = apply_all calls (apply c db)

pub task_created-committed :
    (payload : TaskCreatePayload) (db : Database) (inserted : Option Database)
    → after_create db (task_created payload inserted) ≡ commit_or_rollback db inserted
unfolding task_created
task_created-committed payload db none = refl
task_created-committed payload db (some db') = refl

pub output_created-committed :
    (payload : OutputCreatePayload) (db : Database) (inserted : Option Database)
    → after_output db (output_created payload inserted) ≡ commit_or_rollback db inserted
unfolding output_created
output_created-committed payload db none = refl
output_created-committed payload db (some db') = refl

pub claimed-committed :
    (db : Database) (task_id : String) (updated : Option Database)
    → (claimed db task_id updated).0 ≡ commit_or_rollback db updated
unfolding claimed
claimed-committed db task_id none = refl
claimed-committed db task_id (some db') = refl
