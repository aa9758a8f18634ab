-- ===== src/Sandbox/Postgres/Parent.antt =====
-- backend/services/code_sandbox_runtime.py: the FOREIGN KEY of the events and the logs holds after a
-- statement that has written the execution, and refuses what is written for an id that has none.
use goat_ai.Prelude.{
  ℕ, ◌≡◌, refl, ap, ◌∙◌, String, Bool, true, Option, none, some, inl, inr, Bool-cases, Option-cases,
}
use goat_ai.Prelude.Json.{Json}
use goat_ai.Prelude.Table.{
  fetch, insert, update_where, fetch-insert_self, fetch-replace_self, key-fetch,
}
use goat_ai.Prelude.Table.Update.{update_where_hit}
use goat_ai.Sandbox.Store.{
  with_rows, then_event, commit_or_rollback, update_execution, append_execution_event,
  append_log_chunk_in_transaction, add_chunk, log_row,
}
use goat_ai.Sandbox.Calls.{append_log_chunk}
use goat_ai.Sandbox.Postgres.{
  insert_execution_child, then_insert, add_event_postgres, append_execution_event_postgres,
  add_chunk_postgres, insert_chunk_postgres, append_log_chunk_postgres, chunk_result,
}
use goat_ai.Prelude.Sequence.{next_scoped_sequence}
use goat_ai.Sandbox.{log_rows, Status, LogStreamName, out, err, Row, Database, by_id}

same_event :
    (id kind : String) (a : ℕ) (status : Option Status) (message : Option String)
    (metadata : Option Json) (db : Database)
    → add_event_postgres id kind a status message metadata db
      ≡ append_execution_event id kind a status message metadata db
unfolding add_event_postgres append_execution_event
same_event id kind a status message metadata db = refl

child_of_row :
    (id : String) (added : Database → Database) (db : Database) (r : Row)
    → fetch by_id id db.executions ≡ some r
    → insert_execution_child id added db ≡ some (added db)
unfolding insert_execution_child
child_of_row id added db r e = rw (e, insert_execution_child) refl

child_refused :
    (id : String) (added : Database → Database) (db : Database)
    → fetch by_id id db.executions ≡ none
    → insert_execution_child id added db ≡ none
unfolding insert_execution_child
child_refused id added db e = rw (e, insert_execution_child) refl

-- An event of an execution that exists is added as SQLite adds it.
pub event_of_row :
    (id kind : String) (a : ℕ) (status : Option Status) (message : Option String)
    (metadata : Option Json) (db : Database) (r : Row)
    → fetch by_id id db.executions ≡ some r
    → append_execution_event_postgres id kind a status message metadata db
      ≡ some (append_execution_event id kind a status message metadata db)
unfolding append_execution_event_postgres
event_of_row id kind a status message metadata db r e =
    child_of_row id (add_event_postgres id kind a status message metadata) db r e
    ∙ ap some (same_event id kind a status message metadata db)

-- An UPDATE that hits leaves the execution in place, so that its event is added.
pub event_after_update :
    (id : String) (guard : Status → Bool) (change : Row → Row) (db : Database) (kind : String)
    (a : ℕ) (status : Option Status) (message : Option String) (metadata : Option Json)
    → ((r : Row) → (change r).id ≡ r.id)
    → then_insert
        (update_execution id guard change db)
        (append_execution_event_postgres id kind a status message metadata)
      ≡ then_event
          (update_execution id guard change db)
          (append_execution_event id kind a status message metadata)
unfolding update_execution update_where
event_after_update id guard change db kind a status message metadata kept =
    elim (Option-cases (fetch by_id id db.executions)) [
      | inl missing ↦ rw (missing, update_where) refl
      | inr (r, e) ↦ elim (Bool-cases (guard r.status)) [
        | inr refused ↦ rw (e, update_where) (rw refused refl)
        | inl hit ↦
            rw (e, update_where)
              (rw hit (
                event_of_row id kind a status message metadata _ (change r) (
                  fetch-replace_self by_id id (change r) db.executions r
                    (kept r ∙ key-fetch by_id id db.executions r e) e)))
      ]
    ]

-- The INSERT of an execution leaves its row in place.
pub event_after_insert :
    (v : Row) (db : Database) (kind : String) (a : ℕ) (status : Option Status)
    (message : Option String) (metadata : Option Json)
    → then_insert
        (with_rows db (insert by_id v db.executions))
        (append_execution_event_postgres v.id kind a status message metadata)
      ≡ then_event
          (with_rows db (insert by_id v db.executions))
          (append_execution_event v.id kind a status message metadata)
event_after_insert v db kind a status message metadata =
    elim (Option-cases (insert by_id v db.executions)) [
      | inl taken ↦ rw taken refl
      | inr (rows, e) ↦ rw e (
          event_of_row v.id kind a status message metadata (record db { executions = rows }) v
            (fetch-insert_self by_id v db.executions rows e).0)
    ]

-- The UPDATE of append_log_chunk hits the execution, and leaves it in place.
chunk_counted :
    (id : String) (change : Row → Row) (db : Database) (r : Row)
    → ((v : Row) → (change v).id ≡ v.id)
    → fetch by_id id db.executions ≡ some r
    → fetch by_id id (commit_or_rollback db (update_execution id (λ s. true) change db)).executions
      ≡ some (change r)
unfolding update_execution
chunk_counted id change db r kept e =
    rw (update_where_hit by_id id (λ v. true) change db.executions r e refl) (
      fetch-replace_self by_id id (change r) db.executions r
        (kept r ∙ key-fetch by_id id db.executions r e) e)

log_row_id :
    (stream_name : LogStreamName) (a next_seq : ℕ) (chunk_text : String) (v : Row)
    → (log_row stream_name a next_seq chunk_text v).id ≡ v.id
log_row_id out a next_seq chunk_text v = refl
log_row_id err a next_seq chunk_text v = refl

-- A chunk of an execution that exists is added as SQLite adds it.
pub chunk_of_row :
    (id : String) (a : ℕ) (stream_name : LogStreamName) (chunk_text : String) (db : Database)
    (r : Row)
    → fetch by_id id db.executions ≡ some r
    → append_log_chunk_postgres id a stream_name chunk_text db
      ≡ some (append_log_chunk id a stream_name chunk_text db)
unfolding append_log_chunk_postgres insert_chunk_postgres append_log_chunk
    append_log_chunk_in_transaction add_chunk add_chunk_postgres
chunk_of_row id a stream_name chunk_text db r e =
    let next_seq = next_scoped_sequence log_rows id db.logs in
    let chunked = add_chunk_postgres id a stream_name chunk_text next_seq db in
    let counted =
      chunk_counted id (log_row stream_name a next_seq chunk_text) chunked r
        (log_row_id stream_name a next_seq chunk_text) e in
    rw (child_of_row id (add_chunk_postgres id a stream_name chunk_text next_seq) db r e)
      (ap (chunk_result next_seq) (event_of_row id _ a _ _ _ _ _ counted))

-- What is written for an id that no execution has is refused.
pub event_refused :
    (id kind : String) (a : ℕ) (status : Option Status) (message : Option String)
    (metadata : Option Json) (db : Database)
    → fetch by_id id db.executions ≡ none
    → append_execution_event_postgres id kind a status message metadata db ≡ none
unfolding append_execution_event_postgres
event_refused id kind a status message metadata db e = child_refused id _ db e

pub chunk_refused :
    (id : String) (a : ℕ) (stream_name : LogStreamName) (chunk_text : String) (db : Database)
    → fetch by_id id db.executions ≡ none
    → append_log_chunk_postgres id a stream_name chunk_text db ≡ none
unfolding append_log_chunk_postgres insert_chunk_postgres
chunk_refused id a stream_name chunk_text db e =
    rw (child_refused id (add_chunk_postgres id a stream_name chunk_text _) db e) refl
