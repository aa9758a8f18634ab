-- ===== src/Sandbox/Timeline.antt =====
-- backend/services/code_sandbox_execution_store.py and code_sandbox_log_store.py: the numbers of the
-- events and of the log chunks of each execution.
use goat_ai.Prelude.{
  subst, ℕ, zero, suc, ◌+◌, ◌≤◌, ◌≡◌, refl, inl, inr, String, Bool, true, Option, none, some, List,
  [], ◌∷◌, arith, ltb, Option-cases, select,
}
use goat_ai.Prelude.Json.{Json}
use goat_ai.Prelude.Table.{insert, update_where}
use goat_ai.Prelude.Sequence.{
  IsNumbered, Counts, rows_of, next_scoped_sequence, append-IsNumbered, order_by_seq-Counts,
}
use goat_ai.Sandbox.Store.{
  commit_or_rollback, new_row, append_execution_event, update_execution, with_rows, then_event,
  create_execution_in_transaction, log_row, mark_execution_started_in_transaction,
  mark_execution_completed_in_transaction, mark_execution_failed_in_transaction,
  mark_execution_denied_in_transaction, mark_execution_cancelled_in_transaction,
  append_log_chunk_in_transaction, add_chunk,
}
use goat_ai.Sandbox.Calls.{
  Call, creates, starts, completes, fails, denies, cancels, notes, logs, apply, apply_all,
  created-committed, started-committed, create_execution, mark_execution_started,
  mark_execution_completed, mark_execution_failed, mark_execution_denied, mark_execution_cancelled,
  append_log_chunk, list_execution_events, list_log_chunks,
}
use goat_ai.Sandbox.{
  Status, LogStreamName, Row, LogChunkRecord, CreatePayload, Database, by_id, event_rows, log_rows,
}

-- The events and the chunks of every execution are numbered 1, 2, 3, … as they were written.
pub record IsInOrder (db : Database) : Type 0 where
  pub events : (id : String) → IsNumbered event_rows id db.events
  pub logs : (id : String) → IsNumbered log_rows id db.logs

abbrev KeepsOrder : (Database → Database) → Type 0
KeepsOrder f = (db : Database) → IsInOrder db → IsInOrder (f db)

event-KeepsOrder :
    (id event_type : String) (created_at : ℕ) (status : Option Status) (message : Option String)
    (metadata : Option Json)
    → KeepsOrder (append_execution_event id event_type created_at status message metadata)
unfolding append_execution_event
event-KeepsOrder id event_type created_at status message metadata db o = record {
  events = λ j. append-IsNumbered event_rows j db.events _ refl (o.events j);
  logs = o.logs;
}

with_rows-IsInOrder :
    (db : Database) (event : Database → Database) (rows : Option (List Row))
    → KeepsOrder event
    → IsInOrder db
    → IsInOrder (commit_or_rollback db (then_event (with_rows db rows) event))
with_rows-IsInOrder db event none keeps o = o
with_rows-IsInOrder db event (some rows) keeps o =
    keeps (record db { executions = rows }) (record { events = o.events; logs = o.logs })

mark-IsInOrder :
    (id : String) (guard : Status → Bool) (change : Row → Row) (event : Database → Database)
    (db : Database)
    → KeepsOrder event
    → IsInOrder db
    → IsInOrder (commit_or_rollback db (then_event (update_execution id guard change db) event))
unfolding update_execution
mark-IsInOrder id guard change event db keeps o = with_rows-IsInOrder db event _ keeps o

create-IsInOrder :
    (payload : CreatePayload) (db : Database)
    → IsInOrder db
    → IsInOrder (commit_or_rollback db (create_execution_in_transaction payload db))
unfolding create_execution_in_transaction
create-IsInOrder payload db o = elim (Option-cases (insert by_id (new_row payload) db.executions)) [
  | inl refused ↦ rw (refused, create_execution_in_transaction) o
  | inr (rows, added) ↦
      rw (added, create_execution_in_transaction)
        (event-KeepsOrder _ _ _ _ _ _ (record db { executions = rows })
          (record { events = o.events; logs = o.logs }))
]

rows-IsInOrder :
    (db : Database) (rows : Option (List Row))
    → IsInOrder db
    → IsInOrder (commit_or_rollback db (with_rows db rows))
rows-IsInOrder db none o = o
rows-IsInOrder db (some rows) o = record { events = o.events; logs = o.logs }

add_chunk-KeepsOrder :
    (id : String) (created_at : ℕ) (stream_name : LogStreamName) (chunk_text : String)
    → KeepsOrder (add_chunk id created_at stream_name chunk_text)
unfolding add_chunk
add_chunk-KeepsOrder id created_at stream_name chunk_text db o = record {
  events = o.events;
  logs = λ j. append-IsNumbered log_rows j db.logs _ refl (o.logs j);
}

chunk-IsInOrder :
    (id : String) (created_at : ℕ) (stream_name : LogStreamName) (chunk_text : String)
    → KeepsOrder (λ db. (append_log_chunk id created_at stream_name chunk_text db).0)
unfolding append_log_chunk append_log_chunk_in_transaction update_execution
chunk-IsInOrder id created_at stream_name chunk_text db o =
    let chunked = add_chunk id created_at stream_name chunk_text db in
    let change =
      log_row stream_name created_at (next_scoped_sequence log_rows id db.logs) chunk_text in
    event-KeepsOrder id _ created_at _ _ _ _ (
      rows-IsInOrder chunked (update_where by_id id (λ r. true) change chunked.executions)
        (add_chunk-KeepsOrder id created_at stream_name chunk_text db o))

-- Every call keeps the numbering of every execution.
pub apply-IsInOrder : (c : Call) → KeepsOrder (apply c)
unfolding apply create_execution mark_execution_started mark_execution_completed
    mark_execution_failed mark_execution_denied mark_execution_cancelled
    mark_execution_started_in_transaction mark_execution_completed_in_transaction
    mark_execution_failed_in_transaction mark_execution_denied_in_transaction
    mark_execution_cancelled_in_transaction
apply-IsInOrder (creates payload) db o =
    rw (created-committed payload db (create_execution_in_transaction payload db))
      (create-IsInOrder payload db o)
apply-IsInOrder (starts id u p) db o =
    rw (started-committed db id _) (mark-IsInOrder id _ _ _ db (event-KeepsOrder _ _ _ _ _ _) o)
apply-IsInOrder (completes id outcome) db o =
    mark-IsInOrder id _ _ _ db (event-KeepsOrder _ _ _ _ _ _) o
apply-IsInOrder (fails id outcome) db o =
    mark-IsInOrder id _ _ _ db (event-KeepsOrder _ _ _ _ _ _) o
apply-IsInOrder (denies id u f d) db o = mark-IsInOrder id _ _ _ db (event-KeepsOrder _ _ _ _ _ _) o
apply-IsInOrder (cancels id u f d files) db o =
    mark-IsInOrder id _ _ _ db (event-KeepsOrder _ _ _ _ _ _) o
apply-IsInOrder (notes id e a s m d) db o = event-KeepsOrder id e a s m d db o
apply-IsInOrder (logs id a s t) db o = chunk-IsInOrder id a s t db o

apply_all-IsInOrder : (calls : List Call) → KeepsOrder (apply_all calls)
unfolding apply_all
apply_all-IsInOrder [] db o = o
apply_all-IsInOrder (c ∷ calls) db o =
    apply_all-IsInOrder calls (apply c db) (apply-IsInOrder c db o)

abbrev pub empty_database : Database
empty_database = record { executions = []; events = []; logs = [] }

abbrev pub history : List Call → Database
history calls = apply_all calls empty_database

pub history-IsInOrder : (calls : List Call) → IsInOrder (history calls)
history-IsInOrder calls =
    apply_all-IsInOrder calls empty_database (record { events = λ id. tt; logs = λ id. tt })

-- After any history of calls, the events of an execution are listed in the order in which they were
-- written, and are numbered 1, 2, 3, … without a gap.
pub events_listed :
    (calls : List Call) (id : String)
    → let listed = list_execution_events id (history calls) in
      (listed ≡ rows_of event_rows id (history calls).events) × Counts event_rows 0 listed
unfolding list_execution_events
events_listed calls id =
    let numbered = (history-IsInOrder calls).events id in
    let same = order_by_seq-Counts event_rows 0 _ numbered in (same, rw same numbered)

abbrev pub drop {ℓ} : {A : Type ℓ} → ℕ → List A → List A
drop zero xs = xs
drop (suc n) [] = []
drop (suc n) (x ∷ xs) = drop n xs

abbrev above : ℕ → List LogChunkRecord → List LogChunkRecord
above m = select λ l. ltb m l.sequence

above_all : (n m : ℕ) (ls : List LogChunkRecord) → m ≤ n → Counts log_rows n ls → above m ls ≡ ls
above_all n m [] h c = refl
above_all n m (l ∷ ls) h c = ground (arith, above_all (suc n) m ls (omega arith) c.1)

-- Of rows numbered from n + 1 on, those above n + k are the rows without the first k.
above-drop :
    (k n m : ℕ) (ls : List LogChunkRecord)
    → m ≡ n + k
    → Counts log_rows n ls
    → (above m ls ≡ drop k ls) × Counts log_rows m (drop k ls)
above-drop zero n m ls e c =
    (above_all n m ls (omega arith) c, subst (λ i. Counts log_rows i ls) (omega arith) c)
above-drop (suc k) n m [] e c = (refl, tt)
above-drop (suc k) n m (l ∷ ls) e c =
    let (rest, counts) = above-drop k (suc n) m ls (omega arith) c.1 in (ground arith, counts)

-- After any history of calls, a reader that has seen the first n chunks of an execution gets exactly
-- the chunks after them, in the order in which they were written: none is missed and none comes twice.
pub chunks_resume :
    (calls : List Call) (id : String) (n : ℕ)
    → list_log_chunks id n (history calls) ≡ drop n (rows_of log_rows id (history calls).logs)
unfolding list_log_chunks
chunks_resume calls id n =
    let (seen, counts) =
      above-drop n 0 n (rows_of log_rows id (history calls).logs) (omega arith)
        ((history-IsInOrder calls).logs id) in
    rw seen (order_by_seq-Counts log_rows n _ counts)
