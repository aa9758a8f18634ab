-- ===== src/Sandbox/Calls.antt =====
-- backend/services/code_sandbox_execution_store.py: the methods of the repository, each a transaction
-- that is committed or rolled back, and the reads.
pub mod Listed
use goat_ai.Prelude.{
  ◌≡◌, refl, ℕ, String, Bool, true, false, Option, none, some, List, [], ◌∷◌, if◌then◌else◌,
  or_else, map, select, ltb, str_eq,
}
use goat_ai.Prelude.Json.{Json}
use goat_ai.Prelude.Table.{fetch}
use goat_ai.Prelude.Sort.{text_before}
use goat_ai.Prelude.Sequence.{rows_of, order_by_seq}
use goat_ai.Sandbox.Store.{
  Outcome, commit_or_rollback, new_row, append_execution_event, create_execution_in_transaction,
  mark_execution_started_in_transaction, mark_execution_completed_in_transaction,
  mark_execution_failed_in_transaction, mark_execution_denied_in_transaction,
  mark_execution_cancelled_in_transaction, append_log_chunk_in_transaction,
}
use goat_ai.Sandbox.{
  Status, LogStreamName, Row, ExecutionRecord, EventRecord, LogChunkRecord, CreatePayload, Database,
  by_id, event_rows, log_rows,
}

-- `text or other`
abbrev pub text_or : String → String → String
text_or s other = if str_eq s "" then other else s

-- _row_to_execution
unfoldable pub row_to_execution : Row → ExecutionRecord
row_to_execution r = record {
  id = r.id;
  status = r.status;
  execution_mode = r.execution_mode;
  runtime_preset = r.runtime_preset;
  network_policy = r.network_policy;
  timeout_sec = r.timeout_sec;
  code = r.code;
  command = r.command;
  stdin = r.stdin_text;
  inline_files = r.inline_files;
  created_at = r.created_at;
  queued_at = r.queued_at;
  updated_at = r.updated_at;
  started_at = r.started_at;
  finished_at = r.finished_at;
  exit_code = r.exit_code;
  stdout = r.stdout;
  stderr = r.stderr;
  timed_out = r.timed_out;
  error_detail = r.error_detail;
  output_files = or_else r.output_files [];
  provider_name = r.provider_name;
  last_log_seq = r.last_log_seq;
  owner_id = r.owner_id;
  tenant_id = text_or r.tenant_id "tenant:default";
  principal_id = r.principal_id;
  auth_scopes = r.auth_scopes;
  credential_id = r.credential_id;
  auth_mode = r.auth_mode;
}

abbrev read_row : Option Row → Option ExecutionRecord
read_row none = none
read_row (some r) = some (row_to_execution r)

unfoldable pub get_execution : String → Database → Option ExecutionRecord
unfolding row_to_execution
get_execution execution_id db = read_row (fetch by_id execution_id db.executions)

unfoldable pub list_execution_events : String → Database → List EventRecord
list_execution_events execution_id db =
    order_by_seq event_rows (rows_of event_rows execution_id db.events)

unfoldable pub list_log_chunks : String → ℕ → Database → List LogChunkRecord
list_log_chunks execution_id after_sequence db =
    order_by_seq log_rows
      (select (λ l. ltb after_sequence l.sequence) (rows_of log_rows execution_id db.logs))

-- ORDER BY queued_at ASC, created_at ASC, id ASC
pub row_before : Row → Row → Bool
unfolding text_before
row_before a b =
    if ltb a.queued_at b.queued_at
    then true
    else if ltb b.queued_at a.queued_at
    then false
    else if ltb a.created_at b.created_at
    then true
    else if ltb b.created_at a.created_at
    then false
    else text_before a.id b.id

pub insert_row : Row → List Row → List Row
unfolding row_before
insert_row r [] = r ∷ []
insert_row r (x ∷ xs) = if row_before r x then r ∷ x ∷ xs else x ∷ insert_row r xs

unfoldable pub order_rows : List Row → List Row
unfolding insert_row
order_rows [] = []
order_rows (r ∷ rs) = insert_row r (order_rows rs)

-- WHERE status IN statuses; `wanted` is the test of the list of statuses.
pub list_execution_ids_by_status : (Status → Bool) → Database → List String
unfolding order_rows
list_execution_ids_by_status wanted db =
    map (λ r. r.id) (order_rows (select (λ r. wanted r.status) db.executions))

-- `none` is the PersistenceWriteError.
abbrev pub Created : Type 0
Created = Option (Database × ExecutionRecord)

unfoldable pub created : CreatePayload → Option Database → Created
unfolding row_to_execution
created payload none = none
created payload (some db) = some (
  db,
  elim (get_execution payload.execution_id db) [
    | none ↦ row_to_execution (new_row payload)
    | some r ↦ r
  ],
)

unfoldable pub create_execution : CreatePayload → Database → Created
create_execution payload db = created payload (create_execution_in_transaction payload db)

abbrev pub after_create : Database → Created → Database
after_create db none = db
after_create db (some (db', r)) = db'

pub created-committed :
    (payload : CreatePayload) (db : Database) (inserted : Option Database)
    → after_create db (created payload inserted) ≡ commit_or_rollback db inserted
unfolding created
created-committed payload db none = refl
created-committed payload db (some db') = refl

-- The record, or None where the row was not queued.
unfoldable pub started : Database → String → Option Database → Database × Option ExecutionRecord
started db execution_id none = (db, none)
started db execution_id (some db') = (db', get_execution execution_id db')

unfoldable pub mark_execution_started :
    String → ℕ → String → Database → Database × Option ExecutionRecord
mark_execution_started execution_id updated_at provider_name db =
    started db execution_id
      (mark_execution_started_in_transaction execution_id updated_at provider_name db)

pub started-committed :
    (db : Database) (execution_id : String) (updated : Option Database)
    → (started db execution_id updated).0 ≡ commit_or_rollback db updated
unfolding started
started-committed db execution_id none = refl
started-committed db execution_id (some db') = refl

unfoldable pub mark_execution_completed : String → Outcome → Database → Database
mark_execution_completed execution_id outcome db =
    commit_or_rollback db (mark_execution_completed_in_transaction execution_id outcome db)

unfoldable pub mark_execution_failed : String → Outcome → Database → Database
mark_execution_failed execution_id outcome db =
    commit_or_rollback db (mark_execution_failed_in_transaction execution_id outcome db)

unfoldable pub mark_execution_denied : String → ℕ → ℕ → String → Database → Database
mark_execution_denied execution_id updated_at finished_at error_detail db =
    commit_or_rollback db
      (mark_execution_denied_in_transaction execution_id updated_at finished_at error_detail db)

unfoldable pub mark_execution_cancelled :
    String → ℕ → ℕ → String → Option (List Json) → Database → Database
mark_execution_cancelled execution_id updated_at finished_at error_detail output_files db =
    commit_or_rollback db (
      mark_execution_cancelled_in_transaction execution_id updated_at finished_at error_detail
        output_files db)

unfoldable pub append_log_chunk : String → ℕ → LogStreamName → String → Database → Database × ℕ
append_log_chunk execution_id created_at stream_name chunk_text db =
    append_log_chunk_in_transaction execution_id created_at stream_name chunk_text db

-- The calls that may change the database, from any thread or process.
pub data Call : Type 0 where
  creates : CreatePayload → Call
  starts : String → ℕ → String → Call
  completes fails : String → Outcome → Call
  denies : String → ℕ → ℕ → String → Call
  cancels : String → ℕ → ℕ → String → Option (List Json) → Call
  notes : String → String → ℕ → Option Status → Option String → Option Json → Call
  logs : String → ℕ → LogStreamName → String → Call

unfoldable pub apply : Call → Database → Database
apply (creates payload) db = after_create db (create_execution payload db)
apply (starts id updated_at provider_name) db =
    (mark_execution_started id updated_at provider_name db).0
apply (completes id outcome) db = mark_execution_completed id outcome db
apply (fails id outcome) db = mark_execution_failed id outcome db
apply (denies id updated_at finished_at detail) db =
    mark_execution_denied id updated_at finished_at detail db
apply (cancels id updated_at finished_at detail files) db =
    mark_execution_cancelled id updated_at finished_at detail files db
apply (notes id event_type created_at status message metadata) db =
    append_execution_event id event_type created_at status message metadata db
apply (logs id created_at stream_name chunk_text) db =
    (append_log_chunk id created_at stream_name chunk_text db).0

unfoldable pub apply_all : List Call → Database → Database
apply_all [] db = db
apply_all (c ∷ calls) db = apply_all calls (apply c db)
