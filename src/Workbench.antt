-- ===== src/Workbench.antt =====
-- backend/services/workbench_runtime.py: the rows and records of durable workbench tasks, their events
-- and their outputs. A timestamp is a number of microseconds; a JSON column holds the value that it
-- encodes.
pub mod Store
pub mod Calls
pub mod Effect
pub mod Lifecycle
pub mod Sources
pub mod Runs
pub mod Retrieval
pub mod PlanCanvas
pub mod Execution
pub mod Postgres
pub mod Requests
mod Tests
use goat_ai.Prelude.{ℕ, String, Bool, true, false, ◌||◌, Option, List, str_eq, eq_iff}
use goat_ai.Prelude.Json.{Json}
use goat_ai.Prelude.Table.{Keyed}
use goat_ai.Prelude.Sequence.{Sequenced}

-- WorkbenchTaskStatus
pub data Status : Type 0 where
  queued running completed failed cancelled : Status

-- A row of `workbench_tasks`.
pub record TaskRow : Type 0 where
  pub id : String
  pub task_kind : String
  pub status : Status
  pub prompt : String
  pub session_id : Option String
  pub project_id : Option String
  pub knowledge_document_ids : List String
  pub connector_ids : List String
  pub source_ids : List String
  pub error_detail : Option String
  pub result_text : Option String
  pub result_citations : Option (List Json)
  pub created_at : ℕ
  pub updated_at : ℕ
  pub auth_scopes : List String
  pub credential_id : String
  pub auth_mode : String
  pub owner_id : String
  pub tenant_id : String
  pub principal_id : String

-- WorkbenchTaskRecord
pub record TaskRecord : Type 0 where
  pub id : String
  pub task_kind : String
  pub status : Status
  pub prompt : String
  pub session_id : Option String
  pub project_id : Option String
  pub knowledge_document_ids : List String
  pub connector_ids : List String
  pub source_ids : List String
  pub created_at : ℕ
  pub updated_at : ℕ
  pub error_detail : Option String
  pub result_text : Option String
  pub result_citations : Option (List Json)
  pub auth_scopes : List String
  pub credential_id : String
  pub auth_mode : String
  pub owner_id : String
  pub tenant_id : String
  pub principal_id : String

-- WorkbenchTaskEventRecord
pub record TaskEventRecord : Type 0 where
  pub task_id : String
  pub sequence : ℕ
  pub event_type : String
  pub created_at : ℕ
  pub status : Option Status
  pub message : Option String
  pub metadata : Option Json

-- A row of `workbench_workspace_outputs`.
pub record OutputRow : Type 0 where
  pub id : String
  pub task_id : String
  pub output_kind : String
  pub title : String
  pub content_format : String
  pub content_text : String
  pub metadata : Option Json
  pub created_at : ℕ
  pub updated_at : ℕ
  pub owner_id : String
  pub tenant_id : String
  pub principal_id : String

-- WorkbenchWorkspaceOutputRecord
pub record OutputRecord : Type 0 where
  pub id : String
  pub task_id : String
  pub output_kind : String
  pub title : String
  pub content_format : String
  pub content_text : String
  pub created_at : ℕ
  pub updated_at : ℕ
  pub metadata : Option Json
  pub session_id : Option String
  pub project_id : Option String
  pub owner_id : String
  pub tenant_id : String
  pub principal_id : String

-- WorkbenchTaskCreatePayload
pub record TaskCreatePayload : Type 0 where
  pub task_id : String
  pub task_kind : String
  pub prompt : String
  pub session_id : Option String
  pub project_id : Option String
  pub knowledge_document_ids : List String
  pub connector_ids : List String
  pub source_ids : List String
  pub created_at : ℕ
  pub updated_at : ℕ
  pub owner_id : String
  pub tenant_id : String
  pub principal_id : String
  pub auth_scopes : Option (List String)
  pub credential_id : String
  pub auth_mode : String
  pub status : Status
  pub error_detail : Option String

-- WorkbenchWorkspaceOutputCreatePayload. `none` stands for no metadata and for an empty dict.
pub record OutputCreatePayload : Type 0 where
  pub output_id : String
  pub task_id : String
  pub output_kind : String
  pub title : String
  pub content_format : String
  pub content_text : String
  pub created_at : ℕ
  pub updated_at : ℕ
  pub metadata : Option Json
  pub owner_id : String
  pub tenant_id : String
  pub principal_id : String

pub record Database : Type 0 where
  pub tasks : List TaskRow
  pub events : List TaskEventRecord
  pub outputs : List OutputRow

abbrev pub task_by_id : Keyed String TaskRow
task_by_id = record { key = λ t. t.id; beq = str_eq; beq_iff = eq_iff }

abbrev pub output_by_id : Keyed String OutputRow
output_by_id = record { key = λ o. o.id; beq = str_eq; beq_iff = eq_iff }

abbrev pub task_events : Sequenced TaskEventRecord
task_events = record { scope = λ e. e.task_id; seq = λ e. e.sequence }

abbrev pub is_queued : Status → Bool
is_queued queued = true
is_queued _ = false

abbrev pub is_running : Status → Bool
is_running running = true
is_running _ = false

-- status IN ('queued', 'running')
abbrev pub is_open : Status → Bool
is_open s = is_queued s || is_running s

-- task.status in {"completed", "failed", "cancelled"}
abbrev pub is_terminal : Status → Bool
is_terminal completed = true
is_terminal failed = true
is_terminal cancelled = true
is_terminal _ = false
