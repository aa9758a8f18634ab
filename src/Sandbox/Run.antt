-- ===== src/Sandbox/Run.antt =====
-- backend/services/code_sandbox_execution_service.py, execute_code_sandbox_execution: one run of an
-- execution over the repository. The provider, the supervisor's answers and the clock are parameters;
-- between the provider's items, other threads and processes may make calls of their own.
pub mod Reaches
pub mod Ends
mod Tests
use goat_ai.Prelude.{
  ℕ, zero, String, Bool, true, false, not, ◌&&◌, ◌||◌, Option, none, some, List, [], ◌∷◌,
  if◌then◌else◌, or_else, str_eq,
}
use goat_ai.Prelude.Json.{ℤ, pos, negsuc, Json}
use goat_ai.Sandbox.Store.{Outcome}
use goat_ai.Sandbox.Calls.{
  Call, apply_all, get_execution, mark_execution_started, mark_execution_completed,
  mark_execution_failed, mark_execution_cancelled, append_log_chunk,
}
use goat_ai.Sandbox.Output.{Accumulator, fresh, text, append}
use goat_ai.Sandbox.{LogStreamName, out, err, ExecutionRecord, Database, is_terminal_status}

-- SandboxProviderResult
pub record ProviderResult : Type 0 where
  pub exit_code : Option ℤ
  pub stdout : String
  pub stderr : String
  pub timed_out : Bool
  pub cancelled : Bool
  pub error_detail : Option String
  pub output_files : List Json

-- SandboxProviderEvent
pub data ProviderEvent : Type 0 where
  log_chunk : LogStreamName → ℕ → String → ProviderEvent
  result : ProviderResult → ProviderEvent

-- How the stream ends: at its end, or with an exception.
pub data Ending : Type 0 where
  exhausted raised : Ending

-- Each item with the calls that others make before it, and the calls that they make after the last.
pub record Stream : Type 0 where
  pub items : List (List Call × ProviderEvent)
  pub last_calls : List Call
  pub ending : Ending

-- What a run is given: the answers of `cancel_requested` before the start and after the stream, the
-- provider, the limit of the output, and the times that it reads.
pub record Setting : Type 0 where
  pub cancel_first : Bool
  pub cancel_last : Bool
  pub provider_name : String
  pub run_stream : ExecutionRecord → Stream
  pub max_output_bytes : ℕ
  pub cancelled_at : ℕ
  pub started_at : ℕ
  pub stdout_at : ℕ
  pub stderr_at : ℕ
  pub ended_at : ℕ

-- The two accumulators and the provider's result, once there is one.
pub record Progress : Type 0 where
  pub stdout_acc : Accumulator
  pub stderr_acc : Accumulator
  pub terminal : Option ProviderResult

abbrev pub start_progress : ℕ → Progress
start_progress max_bytes = record {
  stdout_acc = fresh max_bytes;
  stderr_acc = fresh max_bytes;
  terminal = none;
}

-- `if clipped: repository.append_log_chunk(...)`
unfoldable pub log_clipped : String → ℕ → LogStreamName → Option String → Database → Database
log_clipped execution_id created_at stream_name none db = db
log_clipped execution_id created_at stream_name (some clipped) db =
    if str_eq clipped ""
    then db
    else (append_log_chunk execution_id created_at stream_name clipped db).0

-- The accumulator of the stream takes the text, and what it keeps is logged.
unfoldable pub log_text :
    String → ℕ → LogStreamName → String → Progress → Database → Database × Progress
log_text execution_id created_at out s progress db =
    let (acc, clipped) = append progress.stdout_acc s in
    (log_clipped execution_id created_at out clipped db, record progress { stdout_acc = acc })
log_text execution_id created_at err s progress db =
    let (acc, clipped) = append progress.stderr_acc s in
    (log_clipped execution_id created_at err clipped db, record progress { stderr_acc = acc })

unfoldable pub handle : String → ProviderEvent → Progress → Database → Database × Progress
handle execution_id (log_chunk stream_name created_at s) progress db =
    log_text execution_id created_at stream_name s progress db
handle execution_id (result r) progress db = (db, record progress { terminal = some r })

-- `for item in provider.run_stream(...)`
unfoldable pub consume :
    String → List (List Call × ProviderEvent) → Progress → Database → Database × Progress
consume execution_id [] progress db = (db, progress)
consume execution_id ((others, event) ∷ items) progress db =
    let (db', progress') = handle execution_id event progress (apply_all others db) in
    consume execution_id items progress' db'

-- `text or other`
abbrev pub detail_or : Option String → String → String
detail_or none other = other
detail_or (some s) other = if str_eq s "" then other else s

abbrev pub has_detail : Option String → Bool
has_detail none = false
has_detail (some s) = not (str_eq s "")

-- exit_code in (0, None)
abbrev pub exit_ok : Option ℤ → Bool
exit_ok none = true
exit_ok (some (pos zero)) = true
exit_ok (some _) = false

abbrev pub is_failure : ProviderResult → Bool
is_failure r = r.timed_out || (not (exit_ok r.exit_code) || has_detail r.error_detail)

unfoldable pub fail_run : String → ℕ → String → Progress → Database → Database
fail_run execution_id failed_at error_detail progress = mark_execution_failed execution_id (record {
  updated_at = failed_at;
  finished_at = failed_at;
  exit_code = none;
  stdout = text progress.stdout_acc;
  stderr = text progress.stderr_acc;
  timed_out = false;
  error_detail = some error_detail;
  output_files = [];
})

unfoldable pub cancel_run : String → ℕ → String → Database → Database
cancel_run execution_id cancelled_at error_detail =
    mark_execution_cancelled execution_id cancelled_at cancelled_at error_detail (some [])

-- Without a result: cancelled where that was requested, and else failed.
unfoldable pub settle_without_result : String → Setting → String → Progress → Database → Database
settle_without_result execution_id setting error_detail progress db =
    if setting.cancel_last
    then cancel_run execution_id setting.ended_at "Execution cancelled by request." db
    else fail_run execution_id setting.ended_at error_detail progress db

-- `if terminal.stdout:` and `if terminal.stderr:`
unfoldable pub log_rest :
    String → ℕ → LogStreamName → String → Progress → Database → Database × Progress
log_rest execution_id created_at stream_name s progress db =
    if str_eq s ""
    then (db, progress)
    else log_text execution_id created_at stream_name s progress db

abbrev pub outcome_of : ProviderResult → ℕ → Progress → Outcome
outcome_of r finished_at progress = record {
  updated_at = finished_at;
  finished_at = finished_at;
  exit_code = r.exit_code;
  stdout = text progress.stdout_acc;
  stderr = text progress.stderr_acc;
  timed_out = r.timed_out;
  error_detail = some (detail_or r.error_detail "Execution failed.");
  output_files = r.output_files;
}

-- From `finished_at = _utc_now()` on.
unfoldable pub settle : String → ℕ → ProviderResult → Progress → Database → Database
settle execution_id finished_at r progress db =
    if r.cancelled
    then mark_execution_cancelled execution_id finished_at finished_at
        (detail_or r.error_detail "Execution cancelled by request.") (some r.output_files) db
    else if is_failure r
    then mark_execution_failed execution_id (outcome_of r finished_at progress) db
    else mark_execution_completed execution_id
        (record (outcome_of r finished_at progress) {
          exit_code = some (or_else r.exit_code (pos 0));
          timed_out = false;
          error_detail = none;
        })
        db

unfoldable pub conclude :
    String → Setting → Ending → Option ProviderResult → Progress → Database → Database
conclude execution_id setting raised terminal progress db =
    settle_without_result execution_id setting "Sandbox runtime failed before completion." progress
      db
conclude execution_id setting exhausted none progress db =
    settle_without_result execution_id setting "Sandbox provider returned no terminal result."
      progress db
conclude execution_id setting exhausted (some r) progress db =
    let (db', progress') = log_rest execution_id setting.stdout_at out r.stdout progress db in
    let (db'', progress'') = log_rest execution_id setting.stderr_at err r.stderr progress' db' in
    settle execution_id setting.ended_at r progress'' db''

-- From the first item of the stream on.
unfoldable pub run : String → Setting → Stream → Database → Database
run execution_id setting stream db =
    let (db', progress) =
      consume execution_id stream.items (start_progress setting.max_output_bytes) db in
    conclude execution_id setting stream.ending progress.terminal progress
      (apply_all stream.last_calls db')

-- `if provider_request is None: return`
unfoldable pub request : String → Setting → Option ExecutionRecord → Database → Database
request execution_id setting none db = db
request execution_id setting (some record_now) db =
    run execution_id setting (setting.run_stream record_now) db

-- `if started is None: return`
unfoldable pub launch : String → Setting → Database × Option ExecutionRecord → Database
launch execution_id setting (db, none) = db
launch execution_id setting (db, some started_record) =
    request execution_id setting (get_execution execution_id db) db

-- The run of an execution whose record was read.
unfoldable pub begin : String → Setting → Option ExecutionRecord → Database → Database
begin execution_id setting none db = db
begin execution_id setting (some found) db =
    if is_terminal_status found.status
    then db
    else if setting.cancel_first
    then cancel_run execution_id setting.cancelled_at "Execution cancelled before start." db
    else launch execution_id setting
        (mark_execution_started execution_id setting.started_at setting.provider_name db)

unfoldable pub execute_code_sandbox_execution : String → Setting → Database → Database
execute_code_sandbox_execution execution_id setting db =
    begin execution_id setting (get_execution execution_id db) db
