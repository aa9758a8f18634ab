-- ===== src/Sandbox/Effect.antt =====
-- backend/services/code_sandbox_execution_store.py and code_sandbox_log_store.py: what each call does
-- to the row of one execution.
use goat_ai.Prelude.{
  ℕ, ◌≡◌, refl, ◌∙◌, inl, inr, String, Bool, true, ◌&&◌, Option, none, some, List, [],
  if◌then◌else◌, or_else, str_eq, eq_iff, Bool-cases, Option-cases,
}
use goat_ai.Prelude.Table.{fetch, insert, update_where, fetch-insert}
use goat_ai.Prelude.Table.Update.{or_unchanged, fetch-updated}
use goat_ai.Prelude.Sequence.{next_scoped_sequence}
use goat_ai.Sandbox.Store.{
  commit_or_rollback, new_row, append_execution_event, update_execution, with_rows, then_event,
  create_execution_in_transaction, start_row, finish_row, deny_row, cancel_row, log_row,
  mark_execution_started_in_transaction, mark_execution_completed_in_transaction,
  mark_execution_failed_in_transaction, mark_execution_denied_in_transaction,
  mark_execution_cancelled_in_transaction, append_log_chunk_in_transaction, add_chunk,
}
use goat_ai.Sandbox.Calls.{
  Call, creates, starts, completes, fails, denies, cancels, notes, logs, apply, created-committed,
  started-committed, create_execution, mark_execution_started, mark_execution_completed,
  mark_execution_failed, mark_execution_denied, mark_execution_cancelled, append_log_chunk,
}
use goat_ai.Sandbox.{
  Status, completed, failed, LogStreamName, out, err, CreatePayload, Row, Database, by_id, log_rows,
  is_queued, is_running, is_open,
}

-- The row of execution `id` after a call; `next_seq` is the next number of its log.
abbrev pub effect : Call → String → ℕ → Row → Row
effect (creates payload) id next_seq r = r
effect (starts j updated_at provider_name) id next_seq r =
    if str_eq id j && is_queued r.status then start_row updated_at provider_name r else r
effect (completes j outcome) id next_seq r =
    if str_eq id j && is_running r.status then finish_row completed outcome r else r
effect (fails j outcome) id next_seq r =
    if str_eq id j && is_open r.status then finish_row failed outcome r else r
effect (denies j updated_at finished_at detail) id next_seq r =
    if str_eq id j && is_queued r.status then deny_row updated_at finished_at detail r else r
effect (cancels j updated_at finished_at detail files) id next_seq r =
    if str_eq id j && is_open r.status
    then cancel_row updated_at finished_at detail (or_else files []) r
    else r
effect (notes j event_type created_at status message metadata) id next_seq r = r
effect (logs j created_at stream_name chunk_text) id next_seq r =
    if str_eq id j && true then log_row stream_name created_at next_seq chunk_text r else r

committed :
    (db : Database) (event : Database → Database) (rows : Option (List Row))
    → ((d : Database) → (event d).executions ≡ d.executions)
    → (commit_or_rollback db (then_event (with_rows db rows) event)).executions
      ≡ or_unchanged db.executions rows
unfolding or_unchanged
committed db event none quiet = refl
committed db event (some rows) quiet = quiet (record db { executions = rows })

committed_alone :
    (db : Database) (rows : Option (List Row))
    → (commit_or_rollback db (with_rows db rows)).executions ≡ or_unchanged db.executions rows
unfolding or_unchanged
committed_alone db none = refl
committed_alone db (some rows) = refl

-- A guarded update with its event, seen from the row of any execution.
pub mark-fetch :
    (id j : String) (guard : Status → Bool) (change : Row → Row) (db : Database)
    (event : Database → Database) (r : Row)
    → ((v : Row) → (change v).id ≡ v.id)
    → ((d : Database) → (event d).executions ≡ d.executions)
    → fetch by_id id db.executions ≡ some r
    → fetch by_id id
        (commit_or_rollback db (then_event (update_execution j guard change db) event)).executions
      ≡ some (if str_eq id j && guard r.status then change r else r)
unfolding update_execution
mark-fetch id j guard change db event r same quiet e =
    rw (committed db event (update_where by_id j (λ v. guard v.status) change db.executions) quiet)
      (fetch-updated by_id id j (λ v. guard v.status) change db.executions r same e)

create-fetch :
    (id : String) (payload : CreatePayload) (db : Database) (r : Row)
    → fetch by_id id db.executions ≡ some r
    → fetch by_id id (commit_or_rollback db (create_execution_in_transaction payload db)).executions
      ≡ some r
unfolding create_execution_in_transaction append_execution_event
create-fetch id payload db r e =
    elim (Option-cases (insert by_id (new_row payload) db.executions)) [
      | inl refused ↦ rw (refused, create_execution_in_transaction) e
      | inr (rows, added) ↦
          rw (added, create_execution_in_transaction)
            (fetch-insert by_id id (new_row payload) db.executions rows added ∙ rw e)
    ]

log_row-id :
    (stream_name : LogStreamName) (created_at next_seq : ℕ) (chunk_text : String) (v : Row)
    → (log_row stream_name created_at next_seq chunk_text v).id ≡ v.id
log_row-id out created_at next_seq chunk_text v = refl
log_row-id err created_at next_seq chunk_text v = refl

logs-fetch :
    (id j : String) (created_at : ℕ) (stream_name : LogStreamName) (chunk_text : String)
    (db : Database) (r : Row)
    → fetch by_id id db.executions ≡ some r
    → fetch by_id id (append_log_chunk j created_at stream_name chunk_text db).0.executions
      ≡ some (
          if str_eq id j && true
          then log_row stream_name created_at
              (next_scoped_sequence log_rows id db.logs)
              chunk_text
              r
          else r)
unfolding append_log_chunk append_log_chunk_in_transaction add_chunk append_execution_event
    update_execution
logs-fetch id j created_at stream_name chunk_text db r e =
    let change =
      log_row stream_name created_at (next_scoped_sequence log_rows j db.logs) chunk_text in
    let seen =
      fetch-updated by_id id j (λ v. true) change db.executions r
        (log_row-id stream_name created_at _ chunk_text) e in
    rw (committed_alone _ (update_where by_id j (λ v. true) change db.executions)) (
      seen ∙ elim (Bool-cases (str_eq id j)) [
        | inl hit ↦ rw hit (rw ((eq_iff id j).0 hit))
        | inr miss ↦ rw miss
      ])

-- The row that any call leaves is the one that `effect` says, for every execution.
pub apply-fetch :
    (c : Call) (id : String) (db : Database) (r : Row)
    → fetch by_id id db.executions ≡ some r
    → fetch by_id id (apply c db).executions
      ≡ some (effect c id (next_scoped_sequence log_rows id db.logs) r)
unfolding apply create_execution mark_execution_started mark_execution_completed
    mark_execution_failed mark_execution_denied mark_execution_cancelled
    mark_execution_started_in_transaction mark_execution_completed_in_transaction
    mark_execution_failed_in_transaction mark_execution_denied_in_transaction
    mark_execution_cancelled_in_transaction append_execution_event
apply-fetch (creates payload) id db r e =
    rw (created-committed payload db (create_execution_in_transaction payload db))
      (create-fetch id payload db r e)
apply-fetch (starts j updated_at provider_name) id db r e = rw (started-committed db j _) (
    mark-fetch id j is_queued (start_row updated_at provider_name) db _ r (λ v. refl) (λ d. refl) e)
apply-fetch (completes j outcome) id db r e =
    mark-fetch id j is_running (finish_row completed outcome) db _ r (λ v. refl) (λ d. refl) e
apply-fetch (fails j outcome) id db r e =
    mark-fetch id j is_open (finish_row failed outcome) db _ r (λ v. refl) (λ d. refl) e
apply-fetch (denies j updated_at finished_at detail) id db r e =
    mark-fetch id j is_queued (deny_row updated_at finished_at detail) db _ r (λ v. refl)
      (λ d. refl) e
apply-fetch (cancels j updated_at finished_at detail files) id db r e =
    mark-fetch id j is_open (cancel_row updated_at finished_at detail (or_else files [])) db _ r
      (λ v. refl) (λ d. refl) e
apply-fetch (notes j event_type created_at status message metadata) id db r e = e
apply-fetch (logs j created_at stream_name chunk_text) id db r e =
    logs-fetch id j created_at stream_name chunk_text db r e
