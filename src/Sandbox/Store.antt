-- ===== src/Sandbox/Store.antt =====
-- backend/services/code_sandbox_execution_store.py and code_sandbox_log_store.py, the statements of
-- one transaction each. `none` is a row count of 0, after which the caller rolls back. JSON objects
-- list their keys in order, as `sort_keys` writes them.
use Prim.Native.String.{len}
use goat_ai.Prelude.{
  ℕ, String, Bool, true, false, Option, none, some, List, [], ◌∷◌, ◌++◌, if◌then◌else◌, or_else,
  length,
}
use goat_ai.Prelude.Json.{ℤ, pos, Json, null, bool, int, str, obj, end, field}
use goat_ai.Prelude.Table.{insert, update_where}
use goat_ai.Prelude.Sequence.{next_scoped_sequence}
use goat_ai.Prelude.Text.{append_text}
use goat_ai.Sandbox.{
  Status, running, completed, failed, denied, cancelled, LogStreamName, out, err, Row,
  CreatePayload, Database, by_id, event_rows, log_rows, is_queued, is_running, is_open,
}

-- _append_event: the next number of the execution.
unfoldable pub append_execution_event :
    String → String → ℕ → Option Status → Option String → Option Json → Database → Database
append_execution_event execution_id event_type created_at status message metadata db = record db {
  events =
      db.events
      ++ record {
        execution_id = execution_id;
        sequence = next_scoped_sequence event_rows execution_id db.events;
        event_type = event_type;
        created_at = created_at;
        status = status;
        message = message;
        metadata = metadata;
      }
        ∷ [];
}

abbrev pub with_rows : Database → Option (List Row) → Option Database
with_rows db none = none
with_rows db (some rows) = some (record db { executions = rows })

-- UPDATE code_sandbox_executions SET change WHERE id = ? AND guard
unfoldable pub update_execution :
    String → (Status → Bool) → (Row → Row) → Database → Option Database
update_execution execution_id guard change db =
    with_rows db (update_where by_id execution_id (λ r. guard r.status) change db.executions)

-- `if cursor.rowcount == 0: return False`, then the event.
abbrev pub then_event : Option Database → (Database → Database) → Option Database
then_event none event = none
then_event (some db) event = some (event db)

-- What is stored after a statement that may have hit no row; `if not updated: conn.rollback()`.
abbrev pub commit_or_rollback : Database → Option Database → Database
commit_or_rollback db none = db
commit_or_rollback db (some db') = db'

abbrev pub option_int : Option ℤ → Json
option_int none = null
option_int (some n) = int n

abbrev pub count_json : List Json → Json
count_json files = int (pos (length files))

abbrev pub new_row : CreatePayload → Row
new_row payload = record {
  id = payload.execution_id;
  status = payload.status;
  execution_mode = payload.execution_mode;
  runtime_preset = payload.runtime_preset;
  network_policy = payload.network_policy;
  timeout_sec = payload.timeout_sec;
  code = payload.code;
  command = payload.command;
  stdin_text = payload.stdin;
  inline_files = payload.inline_files;
  created_at = payload.created_at;
  queued_at = payload.queued_at;
  updated_at = payload.updated_at;
  started_at = none;
  finished_at = none;
  exit_code = none;
  stdout = "";
  stderr = "";
  timed_out = false;
  error_detail = none;
  output_files = none;
  provider_name = payload.provider_name;
  last_log_seq = 0;
  owner_id = payload.owner_id;
  tenant_id = payload.tenant_id;
  principal_id = payload.principal_id;
  auth_scopes = or_else payload.auth_scopes [];
  credential_id = payload.credential_id;
  auth_mode = payload.auth_mode;
}

-- `none` is the IntegrityError of a second row with the id.
unfoldable pub create_execution_in_transaction : CreatePayload → Database → Option Database
create_execution_in_transaction payload db = elim (insert by_id (new_row payload) db.executions) [
  | none ↦ none
  | some rows ↦ some (
      append_execution_event payload.execution_id "execution.queued" payload.queued_at
        (some payload.status) (some "Execution accepted.")
        (some (
          obj (
            field "execution_mode" (str payload.execution_mode) (
              field "network_policy" (str payload.network_policy)
                (field "runtime_preset" (str payload.runtime_preset) end)))))
        (record db { executions = rows }))
]

abbrev pub start_row : ℕ → String → Row → Row
start_row updated_at provider_name r = record r {
  status = running;
  updated_at = updated_at;
  started_at = some (or_else r.started_at updated_at);
  provider_name = provider_name;
}

unfoldable pub mark_execution_started_in_transaction :
    String → ℕ → String → Database → Option Database
mark_execution_started_in_transaction execution_id updated_at provider_name db =
    then_event (update_execution execution_id is_queued (start_row updated_at provider_name) db) (
      append_execution_event execution_id "execution.started" updated_at (some running)
        (some "Execution started.") (some (obj (field "provider_name" (str provider_name) end))))

-- What the end of a run records.
pub record Outcome : Type 0 where
  pub updated_at : ℕ
  pub finished_at : ℕ
  pub exit_code : Option ℤ
  pub stdout : String
  pub stderr : String
  pub timed_out : Bool
  pub error_detail : Option String
  pub output_files : List Json

abbrev pub finish_row : Status → Outcome → Row → Row
finish_row status outcome r = record r {
  status = status;
  updated_at = outcome.updated_at;
  finished_at = some outcome.finished_at;
  exit_code = outcome.exit_code;
  stdout = outcome.stdout;
  stderr = outcome.stderr;
  timed_out = outcome.timed_out;
  error_detail = outcome.error_detail;
  output_files = some outcome.output_files;
}

unfoldable pub mark_execution_completed_in_transaction :
    String → Outcome → Database → Option Database
mark_execution_completed_in_transaction execution_id outcome db =
    then_event (update_execution execution_id is_running (finish_row completed outcome) db) (
      append_execution_event execution_id "execution.completed" outcome.finished_at (some completed)
        (some "Execution completed successfully.")
        (some (
          obj (
            field "exit_code" (option_int outcome.exit_code)
              (field "output_file_count" (count_json outcome.output_files) end)))))

unfoldable pub mark_execution_failed_in_transaction : String → Outcome → Database → Option Database
mark_execution_failed_in_transaction execution_id outcome db =
    then_event (update_execution execution_id is_open (finish_row failed outcome) db) (
      append_execution_event execution_id
        (if outcome.timed_out then "execution.timed_out" else "execution.failed")
        outcome.finished_at (some failed) outcome.error_detail
        (some (
          obj (
            field "exit_code" (option_int outcome.exit_code) (
              field "output_file_count" (count_json outcome.output_files)
                (field "timed_out" (bool outcome.timed_out) end))))))

abbrev pub deny_row : ℕ → ℕ → String → Row → Row
deny_row updated_at finished_at error_detail r = record r {
  status = denied;
  updated_at = updated_at;
  finished_at = some finished_at;
  timed_out = false;
  error_detail = some error_detail;
}

unfoldable pub mark_execution_denied_in_transaction :
    String → ℕ → ℕ → String → Database → Option Database
mark_execution_denied_in_transaction execution_id updated_at finished_at error_detail db =
    then_event
      (update_execution execution_id is_queued (deny_row updated_at finished_at error_detail) db)
      (append_execution_event execution_id "execution.denied" finished_at (some denied)
        (some error_detail) none)

abbrev pub cancel_row : ℕ → ℕ → String → List Json → Row → Row
cancel_row updated_at finished_at error_detail output_files r = record r {
  status = cancelled;
  updated_at = updated_at;
  finished_at = some finished_at;
  timed_out = false;
  error_detail = some error_detail;
  output_files = some output_files;
}

unfoldable pub mark_execution_cancelled_in_transaction :
    String → ℕ → ℕ → String → Option (List Json) → Database → Option Database
mark_execution_cancelled_in_transaction execution_id updated_at finished_at error_detail
      output_files db =
    then_event
      (update_execution execution_id is_open
        (cancel_row updated_at finished_at error_detail (or_else output_files [])) db)
      (append_execution_event execution_id "execution.cancelled" finished_at (some cancelled)
        (some error_detail) none)

-- {stream_name} = COALESCE({stream_name}, '') || ?
abbrev pub log_row : LogStreamName → ℕ → ℕ → String → Row → Row
log_row out created_at next_seq chunk_text r = record r {
  updated_at = created_at;
  last_log_seq = next_seq;
  stdout = append_text r.stdout chunk_text;
}
log_row err created_at next_seq chunk_text r = record r {
  updated_at = created_at;
  last_log_seq = next_seq;
  stderr = append_text r.stderr chunk_text;
}

abbrev pub stream_text : LogStreamName → String
stream_text out = "stdout"
stream_text err = "stderr"

abbrev pub log_event_type : LogStreamName → String
log_event_type out = "execution.log.stdout"
log_event_type err = "execution.log.stderr"

-- INSERT INTO code_sandbox_execution_logs
unfoldable pub add_chunk : String → ℕ → LogStreamName → String → Database → Database
add_chunk execution_id created_at stream_name chunk_text db = record db {
  logs =
      db.logs
      ++ record {
        execution_id = execution_id;
        sequence = next_scoped_sequence log_rows execution_id db.logs;
        stream_name = stream_name;
        created_at = created_at;
        chunk_text = chunk_text;
      }
        ∷ [];
}

-- The chunk, the row of the execution if there is one, and an event.
unfoldable pub append_log_chunk_in_transaction :
    String → ℕ → LogStreamName → String → Database → Database × ℕ
append_log_chunk_in_transaction execution_id created_at stream_name chunk_text db =
    let next_seq = next_scoped_sequence log_rows execution_id db.logs in
    let chunked = add_chunk execution_id created_at stream_name chunk_text db in
    let updated =
      update_execution execution_id (λ s. true) (log_row stream_name created_at next_seq chunk_text)
        chunked in
    (
      append_execution_event execution_id (log_event_type stream_name) created_at (some running)
          none
          (some (
            obj (
              field "byte_size" (int (pos (len chunk_text))) (
                field "log_sequence" (int (pos next_seq))
                  (field "stream_name" (str (stream_text stream_name)) end)))))
          (commit_or_rollback chunked updated),
      next_seq,
    )
