-- ===== src/Sandbox/Recovery.antt =====
-- backend/services/code_sandbox_execution_service.py: what is done at start-up about the executions
-- that an earlier process left queued or running.
pub mod Startup
use goat_ai.Prelude.{
  ℕ, ◌+◌, ◌*◌, String, Bool, true, false, Option, none, some, List, [], ◌∷◌, if◌then◌else◌, leb,
}
use goat_ai.Prelude.Json.{obj, field, bool, end}
use goat_ai.Sandbox.Store.{append_execution_event}
use goat_ai.Sandbox.Calls.{get_execution, list_execution_ids_by_status, mark_execution_failed}
use goat_ai.Sandbox.Run.{Setting, execute_code_sandbox_execution}
use goat_ai.Sandbox.{Status, running, ExecutionRecord, Database, is_queued, is_running}

-- `supervisor=None`: nobody asks for a cancellation.
abbrev pub unsupervised : Setting → Setting
unsupervised setting = record setting { cancel_first = false; cancel_last = false }

unfoldable pub recover_each : (String → Setting) → List String → Database → Database
recover_each settings [] db = db
recover_each settings (execution_id ∷ ids) db =
    recover_each settings ids
      (execute_code_sandbox_execution execution_id (unsupervised (settings execution_id)) db)

-- The database, and the ids that are returned.
unfoldable pub recover_queued_code_sandbox_executions :
    (String → Setting) → Database → Database × List String
recover_queued_code_sandbox_executions settings db =
    let ids = list_execution_ids_by_status is_queued db in (recover_each settings ids db, ids)

-- elapsed_sec >= record.timeout_sec
abbrev pub timed_out_at : ℕ → Option ℕ → ℕ → Bool
timed_out_at now none timeout_sec = false
timed_out_at now (some started_at) timeout_sec = leb (started_at + timeout_sec * 1_000_000) now

unfoldable pub reap_record : ℕ → String → ExecutionRecord → Database → Database
reap_record now execution_id found db =
    let timed_out = timed_out_at now found.started_at found.timeout_sec in
    mark_execution_failed execution_id
      (record {
        updated_at = now;
        finished_at = now;
        exit_code = found.exit_code;
        stdout = found.stdout;
        stderr = found.stderr;
        timed_out = timed_out;
        error_detail = some (
            if timed_out
            then "Execution timed out before recovery completed."
            else "Execution interrupted by runtime restart before completion.");
        output_files = found.output_files;
      })
      (append_execution_event execution_id "execution.recovered_after_restart" now (some running)
        (some "Recovering abandoned running execution after restart.")
        (some (obj (field "timed_out" (bool timed_out) end))) db)

-- `if record is None: continue`
unfoldable pub reap_found : ℕ → String → Option ExecutionRecord → Database → Database
reap_found now execution_id none db = db
reap_found now execution_id (some found) db = reap_record now execution_id found db

abbrev pub with_id : String → Option ExecutionRecord → List String → List String
with_id execution_id none ids = ids
with_id execution_id (some found) ids = execution_id ∷ ids

unfoldable pub reap_each : ℕ → List String → Database → Database × List String
reap_each now [] db = (db, [])
reap_each now (execution_id ∷ ids) db =
    let found = get_execution execution_id db in
    let (db', recovered_ids) = reap_each now ids (reap_found now execution_id found db) in
    (db', with_id execution_id found recovered_ids)

unfoldable pub reap_abandoned_running_code_sandbox_executions :
    ℕ → Database → Database × List String
reap_abandoned_running_code_sandbox_executions now db =
    reap_each now (list_execution_ids_by_status is_running db) db
