-- ===== src/Sandbox/Tests.antt =====
-- backend/services/code_sandbox_execution_store.py: one execution from its creation to its end.
use goat_ai.Prelude.{◌≤◌, ◌≡◌, refl, String, true, none, some, List, [], ◌∷◌}
use goat_ai.Prelude.Table.{fetch, insert, update_where, replace}
use goat_ai.Prelude.Sequence.{Counts, rows_of, next_scoped_sequence, max_seq}
use goat_ai.Sandbox.Store.{
  Outcome, new_row, append_execution_event, update_execution, create_execution_in_transaction,
  start_row, finish_row, mark_execution_started_in_transaction,
  mark_execution_failed_in_transaction, mark_execution_completed_in_transaction,
  append_log_chunk_in_transaction, add_chunk,
}
use goat_ai.Sandbox.Calls.{
  Call, creates, starts, completes, fails, logs, apply, apply_all, created, started,
  create_execution, mark_execution_started, mark_execution_completed, mark_execution_failed,
  append_log_chunk, list_execution_events, list_log_chunks,
}
use goat_ai.Sandbox.Lifecycle.{
  Moves, Settled, apply-Moves, terminal_absorbs, start_count, start_count-le-one,
}
use goat_ai.Sandbox.Timeline.{history, empty_database, events_listed, chunks_resume, drop}
use goat_ai.Sandbox.{
  queued, failed, out, err, Row, CreatePayload, Database, by_id, event_rows, log_rows,
}

abbrev pub run_id : String
run_id = "cs-1"

abbrev pub payload : CreatePayload
payload = record {
  execution_id = run_id;
  execution_mode = "sync";
  runtime_preset = "shell";
  network_policy = "disabled";
  timeout_sec = 8;
  code = some "echo hi";
  command = none;
  stdin = none;
  inline_files = [];
  created_at = 1;
  queued_at = 1;
  updated_at = 1;
  provider_name = "docker";
  owner_id = "alice";
  tenant_id = "";
  principal_id = "";
  auth_scopes = none;
  credential_id = "";
  auth_mode = "api_key";
  status = queued;
}

abbrev pub outcome : Outcome
outcome = record {
  updated_at = 9;
  finished_at = 9;
  exit_code = none;
  stdout = "hi";
  stderr = "";
  timed_out = true;
  error_detail = some "Execution timed out.";
  output_files = [];
}

abbrev pub accepted : Row
accepted = new_row payload

abbrev pub one_queued : Database
one_queued = record { executions = accepted ∷ []; events = []; logs = [] }

abbrev pub ended : Row
ended = finish_row failed outcome (start_row 2 "docker" accepted)

abbrev pub one_failed : Database
one_failed = record { executions = ended ∷ []; events = []; logs = [] }

abbrev whole_run : List Call
whole_run =
    creates payload
    ∷ starts run_id 2 "docker"
    ∷ starts run_id 3 "docker"
    ∷ logs run_id 4 out "h"
    ∷ logs run_id 5 err "e"
    ∷ logs run_id 6 out "i"
    ∷ fails run_id outcome
    ∷ completes run_id outcome
    ∷ []

abbrev after_whole_run : Row
after_whole_run = record ended { last_log_seq = 3 }

-- The second start and the late completion change nothing.
whole_run-fetch : fetch by_id run_id (history whole_run).executions ≡ some after_whole_run
unfolding fetch apply_all apply create_execution mark_execution_started mark_execution_completed
    mark_execution_failed append_log_chunk create_execution_in_transaction created started
    mark_execution_started_in_transaction mark_execution_failed_in_transaction
    mark_execution_completed_in_transaction append_log_chunk_in_transaction add_chunk
    append_execution_event update_execution insert update_where replace next_scoped_sequence max_seq
whole_run-fetch = refl

apply-Moves_example :
    (r' : Row) × (fetch by_id run_id (apply (fails run_id outcome) one_queued).executions ≡ some r')
    × Moves queued r'.status
unfolding fetch
apply-Moves_example = apply-Moves (fails run_id outcome) run_id one_queued accepted refl

terminal_absorbs_example :
    (r' : Row) × (fetch by_id run_id (apply_all whole_run one_failed).executions ≡ some r')
    × Settled ended r'
unfolding fetch
terminal_absorbs_example = terminal_absorbs whole_run run_id one_failed ended refl refl

start_count_example : start_count run_id whole_run empty_database ≤ 1
start_count_example = start_count-le-one run_id whole_run empty_database

events_listed_example :
    let listed = list_execution_events run_id (history whole_run) in
    (listed ≡ rows_of event_rows run_id (history whole_run).events) × Counts event_rows 0 listed
events_listed_example = events_listed whole_run run_id

chunks_resume_example :
    list_log_chunks run_id 1 (history whole_run)
    ≡ drop 1 (rows_of log_rows run_id (history whole_run).logs)
chunks_resume_example = chunks_resume whole_run run_id 1
