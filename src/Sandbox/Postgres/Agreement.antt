-- ===== src/Sandbox/Postgres/Agreement.antt =====
-- backend/services/code_sandbox_runtime.py: where the Postgres repository does what the SQLite
-- repository does, and where it does not.
use goat_ai.Prelude.{
  ℕ, ◌≡◌, refl, ap, ◌∙◌, String, Bool, true, false, Option, none, some, List, [], ◌∷◌, ◌++◌, arith,
  map, or_else, inl, inr, Option-cases,
}
use goat_ai.Prelude.Json.{Json}
use goat_ai.Prelude.Table.{fetch, insert, update_where, fetch-replace_self, key-fetch}
use goat_ai.Prelude.Table.Update.{update_where-guards, update_where_hit, update_where_miss}
use goat_ai.Sandbox.Store.{
  Outcome, new_row, then_event, with_rows, commit_or_rollback, update_execution, start_row,
  deny_row, cancel_row, finish_row, create_execution_in_transaction,
  mark_execution_started_in_transaction, mark_execution_completed_in_transaction,
  mark_execution_failed_in_transaction, mark_execution_denied_in_transaction,
  mark_execution_cancelled_in_transaction, append_execution_event,
}
use goat_ai.Sandbox.Calls.{
  Call, creates, starts, completes, fails, denies, cancels, notes, logs, apply, created, started,
  create_execution, mark_execution_started, mark_execution_completed, mark_execution_failed,
  mark_execution_denied, mark_execution_cancelled, after_create,
}
use goat_ai.Sandbox.Postgres.Parent.{
  event_after_update, event_after_insert, event_of_row, chunk_of_row,
}
use goat_ai.Sandbox.Postgres.{
  then_insert, after_chunk, append_execution_event_postgres, insert_execution_postgres,
  created_postgres, create_execution_postgres, started_postgres, mark_execution_started_postgres,
  mark_execution_completed_postgres, mark_execution_failed_postgres, mark_execution_denied_postgres,
  mark_execution_cancelled_postgres, apply_postgres,
}
use goat_ai.Sandbox.{
  Status, queued, completed, failed, CreatePayload, Row, EventRecord, Database, by_id, is_queued,
  is_running, is_open,
}

-- An event without its type, message and metadata.
abbrev pub stamp : EventRecord → String × ℕ × ℕ × Option Status
stamp e = (e.execution_id, e.sequence, e.created_at, e.status)

-- Equal executions and logs, and events that differ in their type, message and metadata at most.
pub record IsLike (a b : Database) : Type 0 where
  pub executions : a.executions ≡ b.executions
  pub logs : a.logs ≡ b.logs
  pub events : map stamp a.events ≡ map stamp b.events

stamp-append :
    (es : List EventRecord) (a b : EventRecord)
    → stamp a ≡ stamp b
    → map stamp (es ++ a ∷ []) ≡ map stamp (es ++ b ∷ [])
stamp-append [] a b e = ap (λ s. s ∷ []) e
stamp-append (x ∷ es) a b e = ap (λ l. stamp x ∷ l) (stamp-append es a b e)

IsLike-refl : (db : Database) → IsLike db db
IsLike-refl db = record { executions = refl; logs = refl; events = refl }

equal-IsLike : (a b : Database) → a ≡ b → IsLike a b
equal-IsLike a b p = rw p (IsLike-refl b)

-- Two updates with like events.
mark-IsLike :
    (db : Database) (rows : Option (List Row)) (event event' : Database → Database)
    → ((d : Database) → IsLike (event d) (event' d))
    → IsLike
        (commit_or_rollback db (then_event (with_rows db rows) event))
        (commit_or_rollback db (then_event (with_rows db rows) event'))
mark-IsLike db none event event' like = IsLike-refl db
mark-IsLike db (some rows) event event' like = like (record db { executions = rows })

event-IsLike :
    (id kind kind' : String) (a : ℕ) (status : Option Status) (message message' : Option String)
    (metadata metadata' : Option Json) (db : Database)
    → IsLike
        (append_execution_event id kind a status message metadata db)
        (append_execution_event id kind' a status message' metadata' db)
unfolding append_execution_event
event-IsLike id kind kind' a status message message' metadata metadata' db = record {
  executions = refl;
  logs = refl;
  events = stamp-append db.events _ _ refl;
}

abbrev pub HasRow : String → Database → Type 0
HasRow id db = (r : Row) × (fetch by_id id db.executions ≡ some r)

-- A completion that no queued execution gets, and an event or a chunk for an execution that exists;
-- any other call.
abbrev pub IsCommon : Call → Database → Type 0
IsCommon (completes id outcome) db =
    (r : Row) → fetch by_id id db.executions ≡ some r → is_queued r.status ≡ false
IsCommon (notes id event_type created_at status message metadata) db = HasRow id db
IsCommon (logs id created_at stream_name chunk_text) db = HasRow id db
IsCommon _ db = Unit {0}

running_open : (s : Status) → is_queued s ≡ false → is_open s ≡ is_running s
running_open queued h = cc
running_open _ h = refl

create-like :
    (payload : CreatePayload) (db : Database)
    → insert_execution_postgres payload db ≡ create_execution_in_transaction payload db
unfolding insert_execution_postgres create_execution_in_transaction
create-like payload db =
    event_after_insert (new_row payload) db _ _ _ _ _
    ∙ elim (Option-cases (insert by_id (new_row payload) db.executions)) [
      | inl taken ↦ rw (taken, create_execution_in_transaction) refl
      | inr (rows, e) ↦ rw (e, create_execution_in_transaction) refl
    ]

created-like :
    (payload : CreatePayload) (db : Database) (inserted : Option Database)
    → after_create db (created_postgres payload inserted)
      ≡ after_create db (created payload inserted)
unfolding created_postgres created
created-like payload db none = refl
created-like payload db (some db') = refl

started-like :
    (db : Database) (id : String) (updated : Option Database)
    → (started_postgres db id updated).0 ≡ (started db id updated).0
unfolding started_postgres started
started-like db id none = refl
started-like db id (some db') = refl

-- One update of an execution and its event, with another type, message and metadata.
update-IsLike :
    (id : String) (guard : Status → Bool) (change : Row → Row) (db : Database) (kind kind' : String)
    (a : ℕ) (status : Option Status) (message message' : Option String)
    (metadata metadata' : Option Json)
    → ((r : Row) → (change r).id ≡ r.id)
    → IsLike
        (commit_or_rollback db (
          then_insert
            (update_execution id guard change db)
            (append_execution_event_postgres id kind a status message metadata)))
        (commit_or_rollback db (
          then_event
            (update_execution id guard change db)
            (append_execution_event id kind' a status message' metadata')))
unfolding update_execution
update-IsLike id guard change db kind kind' a status m m' d d' kept =
    rw (event_after_update id guard change db kind a status m d kept) (
      mark-IsLike db (update_where by_id id (λ r. guard r.status) change db.executions) _ _
        (event-IsLike id kind kind' a status m m' d d'))

completed-guards :
    (id : String) (o : Outcome) (db : Database)
    → IsCommon (completes id o) db
    → update_execution id is_open (finish_row completed o) db
      ≡ update_execution id is_running (finish_row completed o) db
unfolding update_execution
completed-guards id o db h = ap (with_rows db) (
    update_where-guards by_id id (λ r. is_open r.status) (λ r. is_running r.status)
      (finish_row completed o) db.executions (λ r e. running_open r.status (h r e)))

-- A call has the same effect on the executions and on the logs as it has with SQLite, and adds the same
-- number of events with the same times and statuses, unless it is one of two: a completion may differ
-- where the execution is still queued, and so may an event or a chunk for an id that no execution has.
pub apply_postgres-IsLike :
    (c : Call) (db : Database) → IsCommon c db → IsLike (apply_postgres c db) (apply c db)
unfolding apply_postgres apply create_execution create_execution_postgres
    mark_execution_started_postgres mark_execution_started mark_execution_started_in_transaction
    mark_execution_completed_postgres mark_execution_completed
    mark_execution_completed_in_transaction mark_execution_failed_postgres mark_execution_failed
    mark_execution_failed_in_transaction mark_execution_denied_postgres mark_execution_denied
    mark_execution_denied_in_transaction mark_execution_cancelled_postgres mark_execution_cancelled
    mark_execution_cancelled_in_transaction
apply_postgres-IsLike (creates payload) db h = equal-IsLike _ _ (
    ap (λ x. after_create db (created_postgres payload x)) (create-like payload db)
    ∙ created-like payload db (create_execution_in_transaction payload db))
apply_postgres-IsLike (starts id a p) db h = equal-IsLike _ _ (
    ap (λ updated. (started_postgres db id updated).0)
      (event_after_update id is_queued (start_row a p) db _ a _ _ _ (λ r. refl))
    ∙ started-like db id _)
apply_postgres-IsLike (completes id o) db h =
    rw (completed-guards id o db h)
      (update-IsLike id is_running (finish_row completed o) db _ _ _ _ _ _ _ _ (λ r. refl))
apply_postgres-IsLike (fails id o) db h =
    update-IsLike id is_open (finish_row failed o) db _ _ _ _ _ _ _ _ (λ r. refl)
apply_postgres-IsLike (denies id u f d) db h =
    update-IsLike id is_queued (deny_row u f d) db _ _ _ _ _ _ _ _ (λ r. refl)
apply_postgres-IsLike (cancels id u f d files) db h =
    update-IsLike id is_open (cancel_row u f d (or_else files [])) db _ _ _ _ _ _ _ _ (λ r. refl)
apply_postgres-IsLike (notes id e a s m d) db (r, found) =
    equal-IsLike _ _ (ap (commit_or_rollback db) (event_of_row id e a s m d db r found))
apply_postgres-IsLike (logs id a s t) db (r, found) =
    equal-IsLike _ _ (ap (after_chunk db) (chunk_of_row id a s t db r found))

pub completes_queued-differ :
    (id : String) (o : Outcome) (db : Database) (r : Row)
    → fetch by_id id db.executions ≡ some r
    → is_queued r.status ≡ true
    → (apply (completes id o) db ≡ db)
      × (fetch by_id id (apply_postgres (completes id o) db).executions
          ≡ some (finish_row completed o r))
unfolding apply_postgres apply mark_execution_completed_postgres mark_execution_completed
    mark_execution_completed_in_transaction update_execution append_execution_event
completes_queued-differ id o db r e h = (
  rw (
      update_where_miss by_id id (λ v. is_running v.status) (finish_row completed o) db.executions r
        e (ground arith)),
  rw (event_after_update id is_open (finish_row completed o) db _ _ _ _ _ (λ v. refl)) (
      rw
        (update_where_hit by_id id (λ v. is_open v.status) (finish_row completed o) db.executions r
          e (ground arith))
        (fetch-replace_self by_id id (finish_row completed o r) db.executions r
          (key-fetch by_id id db.executions r e) e)),
)
