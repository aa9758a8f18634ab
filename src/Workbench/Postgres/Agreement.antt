-- ===== src/Workbench/Postgres/Agreement.antt =====
-- backend/services/workbench_runtime.py: where the Postgres repository does what the SQLite repository
-- does, and where it does not.
use goat_ai.Prelude.{
  ℕ, ◌≡◌, refl, sym, ap, ◌∙◌, String, true, false, Option, none, some, List, arith,
}
use goat_ai.Prelude.Json.{Json}
use goat_ai.Prelude.Table.{fetch, fetch-replace_self, key-fetch}
use goat_ai.Prelude.Table.Update.{update_where-guards, update_where_hit, update_where_miss}
use goat_ai.Workbench.Store.{
  update_task, with_tasks, commit_or_rollback, append_task_event, create_task_in_transaction,
  claim_found, claim_task_for_execution_in_transaction, complete_row, fail_row, cancel_row,
  claim_row, new_task, citations_column, mark_task_completed_in_transaction,
  mark_task_failed_in_transaction, mark_task_cancelled_in_transaction,
  create_workspace_output_in_transaction, replace_metadata,
}
use goat_ai.Workbench.Calls.{
  Call, creates, claims, completes, fails, cancels, notes, outputs, replaces, apply, create_task,
  claim_task_for_execution, mark_task_completed, mark_task_failed, mark_task_cancelled,
  create_workspace_output, replace_workspace_output_metadata, after_create, after_output,
  task_created-committed, output_created-committed, claimed-committed,
}
use goat_ai.Workbench.Postgres.Parent.{
  event_of_row, event_after_update, event_after_insert, output_of_row,
}
use goat_ai.Workbench.Postgres.{
  insert_task_postgres, task_created_postgres, create_task_postgres, claim_found_postgres,
  claimed_postgres, claim_task_for_execution_postgres, mark_task_completed_postgres,
  mark_task_failed_postgres, mark_task_cancelled_postgres, insert_output_postgres,
  output_created_postgres, create_workspace_output_postgres,
  replace_workspace_output_metadata_postgres, apply_to_postgres,
}
use goat_ai.Workbench.{
  Status, queued, TaskRow, TaskCreatePayload, OutputCreatePayload, Database, task_by_id, is_queued,
  is_running, is_open,
}

abbrev pub HasTask : String → Database → Type 0
HasTask id db = (r : TaskRow) × (fetch task_by_id id db.tasks ≡ some r)

-- A completion that no queued task gets, with no citations or with some, and not with an empty list; an
-- event or an output of a task that exists; any other call.
abbrev pub IsCommon : Call → Database → Type 0
IsCommon (completes id updated_at result_text citations count) db =
    ((r : TaskRow) → fetch task_by_id id db.tasks ≡ some r → is_queued r.status ≡ false)
    × (citations_column citations ≡ citations)
IsCommon (notes id event_type created_at status message metadata) db = HasTask id db
IsCommon (outputs payload) db = HasTask payload.task_id db
IsCommon _ db = Unit {0}

claimed_open : (s : Status) → is_queued s ≡ false → is_open s ≡ is_running s
claimed_open queued h = cc
claimed_open _ h = refl

completed_guards :
    (id : String) (change : TaskRow → TaskRow) (db : Database)
    → ((r : TaskRow) → fetch task_by_id id db.tasks ≡ some r → is_queued r.status ≡ false)
    → update_task id is_open change db ≡ update_task id is_running change db
unfolding update_task
completed_guards id change db h = ap (with_tasks db) (
    update_where-guards task_by_id id (λ r. is_open r.status) (λ r. is_running r.status) change
      db.tasks (λ r e. claimed_open r.status (h r e)))

task_created_postgres-committed :
    (payload : TaskCreatePayload) (db : Database) (inserted : Option Database)
    → after_create db (task_created_postgres payload inserted) ≡ commit_or_rollback db inserted
unfolding task_created_postgres
task_created_postgres-committed payload db none = refl
task_created_postgres-committed payload db (some db') = refl

output_created_postgres-committed :
    (payload : OutputCreatePayload) (db : Database) (inserted : Option Database)
    → after_output db (output_created_postgres payload inserted) ≡ commit_or_rollback db inserted
unfolding output_created_postgres
output_created_postgres-committed payload db none = refl
output_created_postgres-committed payload db (some db') = refl

claimed_postgres-committed :
    (db : Database) (id : String) (updated : Option Database)
    → (claimed_postgres db id updated).0 ≡ commit_or_rollback db updated
unfolding claimed_postgres
claimed_postgres-committed db id none = refl
claimed_postgres-committed db id (some db') = refl

claim_found-same :
    (id : String) (a : ℕ) (found : Option TaskRow) (db : Database)
    → claim_found_postgres id a found db ≡ claim_found id a found db
unfolding claim_found_postgres claim_found
claim_found-same id a none db = refl
claim_found-same id a (some r) db =
    event_after_update id is_queued (claim_row a) db _ a _ _ _ (λ v. refl)

-- A call leaves the same tasks, outputs and events as it leaves with SQLite, unless it is one of two: a
-- completion may differ where the task is still queued, or where the list of citations is given and
-- empty, and an event or an output may differ for an id that no task has.
pub apply_to_postgres-same :
    (c : Call) (db : Database) → IsCommon c db → apply_to_postgres c db ≡ apply c db
unfolding apply_to_postgres apply create_task_postgres create_task insert_task_postgres
    create_task_in_transaction claim_task_for_execution_postgres claim_task_for_execution
    claim_task_for_execution_in_transaction mark_task_completed_postgres mark_task_completed
    mark_task_completed_in_transaction mark_task_failed_postgres mark_task_failed
    mark_task_failed_in_transaction mark_task_cancelled_postgres mark_task_cancelled
    mark_task_cancelled_in_transaction create_workspace_output_postgres create_workspace_output
    replace_workspace_output_metadata_postgres replace_workspace_output_metadata replace_metadata
apply_to_postgres-same (creates payload) db h =
    task_created_postgres-committed payload db (insert_task_postgres payload db)
    ∙ ap (commit_or_rollback db) (event_after_insert (new_task payload) db _ _ _ _ _)
    ∙ sym (task_created-committed payload db (create_task_in_transaction payload db))
apply_to_postgres-same (claims id a) db h =
    claimed_postgres-committed db id _
    ∙ ap (commit_or_rollback db) (claim_found-same id a (fetch task_by_id id db.tasks) db)
    ∙ sym (claimed-committed db id _)
apply_to_postgres-same (completes id a text citations count) db (later, full) =
    rw (full, completed_guards id (complete_row a text citations) db later)
      (ap (commit_or_rollback db)
        (event_after_update id is_running (complete_row a text citations) db _ a _ _ _ (λ r. refl)))
apply_to_postgres-same (fails id a detail) db h =
    ap (commit_or_rollback db)
      (event_after_update id is_open (fail_row a detail) db _ a _ _ _ (λ r. refl))
apply_to_postgres-same (cancels id a detail) db h =
    ap (commit_or_rollback db)
      (event_after_update id is_queued (cancel_row a detail) db _ a _ _ _ (λ r. refl))
apply_to_postgres-same (notes id kind a s m d) db (r, found) =
    ap (commit_or_rollback db) (event_of_row id kind a s m d db r found)
apply_to_postgres-same (outputs payload) db (r, found) =
    output_created_postgres-committed payload db (insert_output_postgres payload db)
    ∙ ap (commit_or_rollback db) (output_of_row payload db r found)
    ∙ sym (output_created-committed payload db (create_workspace_output_in_transaction payload db))
apply_to_postgres-same (replaces id m a) db h = refl

-- A completion of a task that is still queued is stored by the Postgres repository, and changes nothing
-- in the SQLite repository.
pub completes_unclaimed-differ :
    (id : String) (a : ℕ) (text : String) (citations : Option (List Json)) (count : Option ℕ)
    (db : Database) (r : TaskRow)
    → fetch task_by_id id db.tasks ≡ some r
    → is_queued r.status ≡ true
    → (apply (completes id a text citations count) db ≡ db)
      × (fetch task_by_id id (apply_to_postgres (completes id a text citations count) db).tasks
          ≡ some (complete_row a text citations r))
unfolding apply_to_postgres apply mark_task_completed_postgres mark_task_completed
    mark_task_completed_in_transaction update_task append_task_event
completes_unclaimed-differ id a text citations count db r e h = (
  rw (
      update_where_miss task_by_id id (λ v. is_running v.status)
        (complete_row a text (citations_column citations)) db.tasks r e (ground arith)),
  rw (event_after_update id is_open (complete_row a text citations) db _ a _ _ _ (λ v. refl)) (
      rw
        (update_where_hit task_by_id id (λ v. is_open v.status) (complete_row a text citations)
          db.tasks r e (ground arith))
        (fetch-replace_self task_by_id id (complete_row a text citations r) db.tasks r
          (key-fetch task_by_id id db.tasks r e) e)),
)
