-- ===== src/Sandbox.antt =====
-- backend/services/code_sandbox_runtime.py: the rows and records of durable sandbox executions.
-- A timestamp is a number of microseconds; a JSON column holds the value that it encodes.
pub mod Store
pub mod Calls
pub mod Effect
pub mod Lifecycle
pub mod Timeline
pub mod Output
pub mod Run
pub mod Recovery
pub mod Supervisor
pub mod Postgres
mod Tests
use goat_ai.Prelude.{ℕ, String, Bool, true, false, ◌||◌, Option, List, str_eq, eq_iff}
use goat_ai.Prelude.Json.{ℤ, Json}
use goat_ai.Prelude.Table.{Keyed}
use goat_ai.Prelude.Sequence.{Sequenced}

-- The values that the code writes into `status`.
pub data Status : Type 0 where
  queued running completed failed denied cancelled : Status

pub data LogStreamName : Type 0 where
  out err : LogStreamName

-- A row of `code_sandbox_executions`.
pub record Row : Type 0 where
  pub id : String
  pub status : Status
  pub execution_mode : String
  pub runtime_preset : String
  pub network_policy : String
  pub timeout_sec : ℕ
  pub code : Option String
  pub command : Option String
  pub stdin_text : Option String
  pub inline_files : List Json
  pub created_at : ℕ
  pub queued_at : ℕ
  pub updated_at : ℕ
  pub started_at : Option ℕ
  pub finished_at : Option ℕ
  pub exit_code : Option ℤ
  pub stdout : String
  pub stderr : String
  pub timed_out : Bool
  pub error_detail : Option String
  pub output_files : Option (List Json)
  pub provider_name : String
  pub last_log_seq : ℕ
  pub owner_id : String
  pub tenant_id : String
  pub principal_id : String
  pub auth_scopes : List String
  pub credential_id : String
  pub auth_mode : String

-- CodeSandboxExecutionRecord
pub record ExecutionRecord : Type 0 where
  pub id : String
  pub status : Status
  pub execution_mode : String
  pub runtime_preset : String
  pub network_policy : String
  pub timeout_sec : ℕ
  pub code : Option String
  pub command : Option String
  pub stdin : Option String
  pub inline_files : List Json
  pub created_at : ℕ
  pub queued_at : ℕ
  pub updated_at : ℕ
  pub started_at : Option ℕ
  pub finished_at : Option ℕ
  pub exit_code : Option ℤ
  pub stdout : String
  pub stderr : String
  pub timed_out : Bool
  pub error_detail : Option String
  pub output_files : List Json
  pub provider_name : String
  pub last_log_seq : ℕ
  pub owner_id : String
  pub tenant_id : String
  pub principal_id : String
  pub auth_scopes : List String
  pub credential_id : String
  pub auth_mode : String

-- CodeSandboxExecutionEventRecord
pub record EventRecord : Type 0 where
  pub execution_id : String
  pub sequence : ℕ
  pub event_type : String
  pub created_at : ℕ
  pub status : Option Status
  pub message : Option String
  pub metadata : Option Json

-- CodeSandboxLogChunkRecord
pub record LogChunkRecord : Type 0 where
  pub execution_id : String
  pub sequence : ℕ
  pub stream_name : LogStreamName
  pub created_at : ℕ
  pub chunk_text : String

-- CodeSandboxExecutionCreatePayload
pub record CreatePayload : Type 0 where
  pub execution_id : String
  pub execution_mode : String
  pub runtime_preset : String
  pub network_policy : String
  pub timeout_sec : ℕ
  pub code : Option String
  pub command : Option String
  pub stdin : Option String
  pub inline_files : List Json
  pub created_at : ℕ
  pub queued_at : ℕ
  pub updated_at : ℕ
  pub provider_name : String
  pub owner_id : String
  pub tenant_id : String
  pub principal_id : String
  pub auth_scopes : Option (List String)
  pub credential_id : String
  pub auth_mode : String
  pub status : Status

pub record Database : Type 0 where
  pub executions : List Row
  pub events : List EventRecord
  pub logs : List LogChunkRecord

abbrev pub by_id : Keyed String Row
by_id = record { key = λ r. r.id; beq = str_eq; beq_iff = eq_iff }

abbrev pub event_rows : Sequenced EventRecord
event_rows = record { scope = λ e. e.execution_id; seq = λ e. e.sequence }

abbrev pub log_rows : Sequenced LogChunkRecord
log_rows = record { scope = λ l. l.execution_id; seq = λ l. l.sequence }

abbrev pub is_queued : Status → Bool
is_queued queued = true
is_queued _ = false

abbrev pub is_running : Status → Bool
is_running running = true
is_running _ = false

-- status IN ('queued', 'running')
abbrev pub is_open : Status → Bool
is_open s = is_queued s || is_running s

-- _is_terminal_status
abbrev pub is_terminal_status : Status → Bool
is_terminal_status completed = true
is_terminal_status failed = true
is_terminal_status denied = true
is_terminal_status cancelled = true
is_terminal_status _ = false
