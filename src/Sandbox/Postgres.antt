-- ===== src/Sandbox/Postgres.antt =====
-- backend/services/code_sandbox_runtime.py, PostgresCodeSandboxExecutionRepository: each method is one
-- transaction, which lock_parent_row puts in a line with the others on the same execution. An update
-- that hits no row ends it before the event. The events and the logs have the execution's id as a
-- FOREIGN KEY (backend/alembic/versions/20260413_01_runtime_metadata_baseline.py): an INSERT for an id
-- that no execution has is refused, and the exception ends the transaction.
pub mod Parent
pub mod Agreement
pub mod Outcomes
mod Tests
use Prim.Native.String.{len}
use goat_ai.Prelude.{
  ℕ, String, Bool, true, false, Option, none, some, List, [], ◌∷◌, ◌++◌, if◌then◌else◌, or_else,
  map, select, ltb, str_eq,
}
use goat_ai.Prelude.Json.{pos, Json, bool, int, str, obj, end, field}
use goat_ai.Prelude.Table.{fetch, insert}
use goat_ai.Prelude.Sequence.{rows_of, next_scoped_sequence, order_by_seq}
use goat_ai.Sandbox.Store.{
  Outcome, with_rows, then_event, commit_or_rollback, update_execution, option_int, count_json,
  new_row, start_row, finish_row, deny_row, cancel_row, log_row, stream_text, log_event_type,
}
use goat_ai.Sandbox.Calls.{
  Call, creates, starts, completes, fails, denies, cancels, notes, logs, Created, after_create,
  text_or, order_rows,
}
use goat_ai.Sandbox.{
  Status, running, completed, failed, denied, cancelled, LogStreamName, Row, ExecutionRecord,
  EventRecord, LogChunkRecord, CreatePayload, Database, by_id, event_rows, log_rows, is_queued,
  is_open,
}

-- _row_to_execution
unfoldable pub row_to_execution_postgres : Row → ExecutionRecord
row_to_execution_postgres r = record {
  id = r.id;
  status = r.status;
  execution_mode = r.execution_mode;
  runtime_preset = r.runtime_preset;
  network_policy = r.network_policy;
  timeout_sec = r.timeout_sec;
  code = r.code;
  command = r.command;
  stdin = r.stdin_text;
  inline_files = r.inline_files;
  created_at = r.created_at;
  queued_at = r.queued_at;
  updated_at = r.updated_at;
  started_at = r.started_at;
  finished_at = r.finished_at;
  exit_code = r.exit_code;
  stdout = r.stdout;
  stderr = r.stderr;
  timed_out = r.timed_out;
  error_detail = r.error_detail;
  output_files = or_else r.output_files [];
  provider_name = r.provider_name;
  last_log_seq = r.last_log_seq;
  owner_id = r.owner_id;
  tenant_id = text_or r.tenant_id "tenant:default";
  principal_id = r.principal_id;
  auth_scopes = r.auth_scopes;
  credential_id = r.credential_id;
  auth_mode = r.auth_mode;
}

unfoldable pub get_execution_postgres : String → Database → Option ExecutionRecord
get_execution_postgres execution_id db = elim (fetch by_id execution_id db.executions) [
  | none ↦ none
  | some r ↦ some (row_to_execution_postgres r)
]

unfoldable pub list_execution_events_postgres : String → Database → List EventRecord
list_execution_events_postgres execution_id db =
    order_by_seq event_rows (rows_of event_rows execution_id db.events)

unfoldable pub list_log_chunks_postgres : String → ℕ → Database → List LogChunkRecord
list_log_chunks_postgres execution_id after_sequence db =
    order_by_seq log_rows
      (select (λ l. ltb after_sequence l.sequence) (rows_of log_rows execution_id db.logs))

-- status = ANY(statuses); `wanted` is the test of the list of statuses.
unfoldable pub list_execution_ids_by_status_postgres : (Status → Bool) → Database → List String
list_execution_ids_by_status_postgres wanted db =
    map (λ r. r.id) (order_rows (select (λ r. wanted r.status) db.executions))

-- The FOREIGN KEY of an INSERT into a table of the execution's: `none` is the exception.
unfoldable pub insert_execution_child : String → (Database → Database) → Database → Option Database
insert_execution_child execution_id added db = elim (fetch by_id execution_id db.executions) [
  | none ↦ none
  | some parent ↦ some (added db)
]

-- A statement of a transaction that may raise, after statements that may have ended it.
abbrev pub then_insert : Option Database → (Database → Option Database) → Option Database
then_insert none statement = none
then_insert (some db) statement = statement db

-- INSERT INTO code_sandbox_execution_events
unfoldable pub add_event_postgres :
    String → String → ℕ → Option Status → Option String → Option Json → Database → Database
add_event_postgres execution_id event_type created_at status message metadata db =
    let seq = next_scoped_sequence event_rows execution_id db.events in
    record db {
      events =
          db.events
          ++ record {
            execution_id = execution_id;
            sequence = seq;
            event_type = event_type;
            created_at = created_at;
            status = status;
            message = message;
            metadata = metadata;
          }
            ∷ [];
    }

-- append_execution_event, by _append_execution_event_in_transaction
unfoldable pub append_execution_event_postgres :
    String → String → ℕ → Option Status → Option String → Option Json → Database → Option Database
append_execution_event_postgres execution_id event_type created_at status message metadata =
    insert_execution_child execution_id
      (add_event_postgres execution_id event_type created_at status message metadata)

-- The statements of create_execution; `none` is the unique violation of a second row with the id.
unfoldable pub insert_execution_postgres : CreatePayload → Database → Option Database
insert_execution_postgres payload db =
    then_insert (with_rows db (insert by_id (new_row payload) db.executions)) (
      append_execution_event_postgres payload.execution_id "execution.queued" payload.queued_at
        (some payload.status) (some "Execution accepted.")
        (some (
          obj (
            field "execution_mode" (str payload.execution_mode) (
              field "network_policy" (str payload.network_policy)
                (field "runtime_preset" (str payload.runtime_preset) end))))))

unfoldable pub created_postgres : CreatePayload → Option Database → Created
created_postgres payload none = none
created_postgres payload (some db) = some (
  db,
  elim (get_execution_postgres payload.execution_id db) [
    | none ↦ row_to_execution_postgres (new_row payload)
    | some r ↦ r
  ],
)

unfoldable pub create_execution_postgres : CreatePayload → Database → Created
create_execution_postgres payload db =
    created_postgres payload (insert_execution_postgres payload db)

-- `if cursor.rowcount == 0: return None`, and the record otherwise.
unfoldable pub started_postgres :
    Database → String → Option Database → Database × Option ExecutionRecord
started_postgres db execution_id none = (db, none)
started_postgres db execution_id (some db') = (db', get_execution_postgres execution_id db')

unfoldable pub mark_execution_started_postgres :
    String → ℕ → String → Database → Database × Option ExecutionRecord
mark_execution_started_postgres execution_id updated_at provider_name db =
    started_postgres db execution_id (
      then_insert (update_execution execution_id is_queued (start_row updated_at provider_name) db)
        (append_execution_event_postgres execution_id "execution.started" updated_at (some running)
          (some "Execution started.") (some (obj (field "provider_name" (str provider_name) end)))))

-- The metadata of the end of a run.
abbrev pub end_metadata_postgres : Outcome → Json
end_metadata_postgres outcome = obj (
    field "exit_code" (option_int outcome.exit_code) (
      field "output_file_count" (count_json outcome.output_files)
        (field "timed_out" (bool outcome.timed_out) end)))

unfoldable pub mark_execution_completed_postgres : String → Outcome → Database → Database
mark_execution_completed_postgres execution_id outcome db = commit_or_rollback db (
    then_insert (update_execution execution_id is_open (finish_row completed outcome) db) (
      append_execution_event_postgres execution_id "execution.completed" outcome.finished_at
        (some completed) (some "Execution completed.") (some (end_metadata_postgres outcome))))

unfoldable pub mark_execution_failed_postgres : String → Outcome → Database → Database
mark_execution_failed_postgres execution_id outcome db = commit_or_rollback db (
    then_insert (update_execution execution_id is_open (finish_row failed outcome) db) (
      append_execution_event_postgres execution_id "execution.failed" outcome.finished_at
        (some failed) outcome.error_detail (some (end_metadata_postgres outcome))))

unfoldable pub mark_execution_denied_postgres : String → ℕ → ℕ → String → Database → Database
mark_execution_denied_postgres execution_id updated_at finished_at error_detail db =
    commit_or_rollback db (
      then_insert
        (update_execution execution_id is_queued (deny_row updated_at finished_at error_detail) db)
        (append_execution_event_postgres execution_id "execution.denied" finished_at (some denied)
          (some error_detail) none))

unfoldable pub mark_execution_cancelled_postgres :
    String → ℕ → ℕ → String → Option (List Json) → Database → Database
mark_execution_cancelled_postgres execution_id updated_at finished_at error_detail output_files db =
    commit_or_rollback db (
      then_insert
        (update_execution execution_id is_open
          (cancel_row updated_at finished_at error_detail (or_else output_files [])) db)
        (append_execution_event_postgres execution_id "execution.cancelled" finished_at
          (some cancelled) (some error_detail) none))

unfoldable pub add_chunk_postgres : String → ℕ → LogStreamName → String → ℕ → Database → Database
add_chunk_postgres execution_id created_at stream_name chunk_text next_seq db = record db {
  logs =
      db.logs
      ++ record {
        execution_id = execution_id;
        sequence = next_seq;
        stream_name = stream_name;
        created_at = created_at;
        chunk_text = chunk_text;
      }
        ∷ [];
}

-- The statements of append_log_chunk. The UPDATE's rowcount is not read.
unfoldable pub insert_chunk_postgres :
    String → ℕ → LogStreamName → String → ℕ → Database → Option Database
insert_chunk_postgres execution_id created_at stream_name chunk_text next_seq db =
    then_insert
      (then_event
        (insert_execution_child execution_id
          (add_chunk_postgres execution_id created_at stream_name chunk_text next_seq) db)
        (λ chunked. commit_or_rollback chunked (
          update_execution execution_id (λ s. true)
            (log_row stream_name created_at next_seq chunk_text) chunked)))
      (append_execution_event_postgres execution_id (log_event_type stream_name) created_at
        (some running) none
        (some (
          obj (
            field "byte_size" (int (pos (len chunk_text))) (
              field "log_sequence" (int (pos next_seq))
                (field "stream_name" (str (stream_text stream_name)) end))))))

-- The sequence that is returned, unless an exception is raised.
abbrev pub chunk_result : ℕ → Option Database → Option (Database × ℕ)
chunk_result next_seq none = none
chunk_result next_seq (some db) = some (db, next_seq)

unfoldable pub append_log_chunk_postgres :
    String → ℕ → LogStreamName → String → Database → Option (Database × ℕ)
append_log_chunk_postgres execution_id created_at stream_name chunk_text db =
    let next_seq = next_scoped_sequence log_rows execution_id db.logs in
    chunk_result next_seq
      (insert_chunk_postgres execution_id created_at stream_name chunk_text next_seq db)

-- What is stored after the call: nothing of it, where it raises.
abbrev pub after_chunk : Database → Option (Database × ℕ) → Database
after_chunk db none = db
after_chunk db (some (db', next_seq)) = db'

-- The calls of Sandbox.Calls, made on this repository.
unfoldable pub apply_postgres : Call → Database → Database
apply_postgres (creates payload) db = after_create db (create_execution_postgres payload db)
apply_postgres (starts id updated_at provider_name) db =
    (mark_execution_started_postgres id updated_at provider_name db).0
apply_postgres (completes id outcome) db = mark_execution_completed_postgres id outcome db
apply_postgres (fails id outcome) db = mark_execution_failed_postgres id outcome db
apply_postgres (denies id updated_at finished_at detail) db =
    mark_execution_denied_postgres id updated_at finished_at detail db
apply_postgres (cancels id updated_at finished_at detail files) db =
    mark_execution_cancelled_postgres id updated_at finished_at detail files db
apply_postgres (notes id event_type created_at status message metadata) db =
    commit_or_rollback db
      (append_execution_event_postgres id event_type created_at status message metadata db)
apply_postgres (logs id created_at stream_name chunk_text) db =
    after_chunk db (append_log_chunk_postgres id created_at stream_name chunk_text db)
