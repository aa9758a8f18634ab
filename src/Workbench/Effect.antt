-- ===== src/Workbench/Effect.antt =====
-- backend/services/workbench_task_store.py: what each call does to the row of one task.
use goat_ai.Prelude.{
  ℕ, ◌≡◌, refl, ap, ◌∙◌, inl, inr, String, Bool, false, ◌&&◌, Option, none, some, List, arith,
  if◌then◌else◌, str_eq, eq_iff, Bool-cases, Option-cases,
}
use goat_ai.Prelude.Json.{Json}
use goat_ai.Prelude.Table.{fetch, insert, update_where, fetch-insert}
use goat_ai.Prelude.Table.Update.{or_unchanged, fetch-updated}
use goat_ai.Workbench.Store.{
  commit_or_rollback, new_task, append_task_event, update_task, with_tasks, with_outputs,
  then_event, create_task_in_transaction, claim_row, claim_found,
  claim_task_for_execution_in_transaction, complete_row, citations_column,
  mark_task_completed_in_transaction, fail_row, mark_task_failed_in_transaction, cancel_row,
  mark_task_cancelled_in_transaction, create_workspace_output_in_transaction, replace_metadata,
}
use goat_ai.Workbench.Calls.{
  Call, creates, claims, completes, fails, cancels, notes, outputs, replaces, apply, create_task,
  claim_task_for_execution, mark_task_completed, mark_task_failed, mark_task_cancelled,
  create_workspace_output, replace_workspace_output_metadata, task_created-committed,
  output_created-committed, claimed-committed,
}
use goat_ai.Workbench.{
  Status, TaskRow, OutputRow, TaskCreatePayload, Database, task_by_id, is_queued, is_running,
  is_open,
}

-- The row of task `id` after a call.
abbrev pub effect : Call → String → TaskRow → TaskRow
effect (claims j updated_at) id r =
    if str_eq id j && is_queued r.status then claim_row updated_at r else r
effect (completes j updated_at result_text citations count) id r =
    if str_eq id j && is_running r.status
    then complete_row updated_at result_text (citations_column citations) r
    else r
effect (fails j updated_at detail) id r =
    if str_eq id j && is_open r.status then fail_row updated_at detail r else r
effect (cancels j updated_at detail) id r =
    if str_eq id j && is_queued r.status then cancel_row updated_at detail r else r
effect _ id r = r

abbrev Quiet : (Database → Database) → Type 0
Quiet event = (d : Database) → (event d).tasks ≡ d.tasks

committed :
    (db : Database) (event : Database → Database) (rows : Option (List TaskRow))
    → Quiet event
    → (commit_or_rollback db (then_event (with_tasks db rows) event)).tasks
      ≡ or_unchanged db.tasks rows
unfolding or_unchanged
committed db event none quiet = refl
committed db event (some rows) quiet = quiet (record db { tasks = rows })

-- A guarded update with its event, seen from the row of any task.
pub mark-fetch :
    (id j : String) (guard : Status → Bool) (change : TaskRow → TaskRow) (db : Database)
    (event : Database → Database) (r : TaskRow)
    → ((v : TaskRow) → (change v).id ≡ v.id)
    → Quiet event
    → fetch task_by_id id db.tasks ≡ some r
    → fetch task_by_id id
        (commit_or_rollback db (then_event (update_task j guard change db) event)).tasks
      ≡ some (if str_eq id j && guard r.status then change r else r)
unfolding update_task
mark-fetch id j guard change db event r same quiet e =
    rw (committed db event (update_where task_by_id j (λ v. guard v.status) change db.tasks) quiet)
      (fetch-updated task_by_id id j (λ v. guard v.status) change db.tasks r same e)

event-Quiet :
    (id kind : String) (a : ℕ) (s : Option Status) (m : Option String) (d : Option Json)
    → Quiet (append_task_event id kind a s m d)
unfolding append_task_event
event-Quiet id kind a s m d db = refl

kept :
    (id : String) (new : TaskRow) (rows rows' : List TaskRow) (r : TaskRow)
    → insert task_by_id new rows ≡ some rows'
    → fetch task_by_id id rows ≡ some r
    → fetch task_by_id id rows' ≡ some r
kept id new rows rows' r added e = rw (fetch-insert task_by_id id new rows rows' added) (rw e)

create-fetch :
    (id : String) (payload : TaskCreatePayload) (db : Database) (r : TaskRow)
    → fetch task_by_id id db.tasks ≡ some r
    → fetch task_by_id id (commit_or_rollback db (create_task_in_transaction payload db)).tasks
      ≡ some r
unfolding create_task_in_transaction
create-fetch id payload db r e =
    elim (Option-cases (insert task_by_id (new_task payload) db.tasks)) [
      | inl refused ↦ rw refused e
      | inr (rows, added) ↦ rw added (
          ap (fetch task_by_id id) (event-Quiet _ _ _ _ _ _ (record db { tasks = rows }))
          ∙ kept id (new_task payload) db.tasks rows r added e)
    ]

-- The outputs are a table of their own.
outputs-tasks :
    (db : Database) (rows : Option (List OutputRow)) (event : Database → Database)
    → Quiet event
    → (commit_or_rollback db (then_event (with_outputs db rows) event)).tasks ≡ db.tasks
outputs-tasks db none event quiet = refl
outputs-tasks db (some rows) event quiet = quiet (record db { outputs = rows })

replaced-tasks :
    (db : Database) (rows : Option (List OutputRow))
    → (commit_or_rollback db (with_outputs db rows)).tasks ≡ db.tasks
replaced-tasks db none = refl
replaced-tasks db (some rows) = refl

other :
    (id j : String) (rows : List TaskRow) (r : TaskRow)
    → fetch task_by_id j rows ≡ none
    → fetch task_by_id id rows ≡ some r
    → str_eq id j ≡ false
other id j rows r missing e = elim (Bool-cases (str_eq id j)) [
  | inl same ↦ let found = (rw ((eq_iff id j).0 same) at e) in cc
  | inr differ ↦ differ
]

claim-fetch :
    (id j : String) (updated_at : ℕ) (db : Database) (r : TaskRow)
    → fetch task_by_id id db.tasks ≡ some r
    → fetch task_by_id id
        (commit_or_rollback db (claim_task_for_execution_in_transaction j updated_at db)).tasks
      ≡ some (if str_eq id j && is_queued r.status then claim_row updated_at r else r)
unfolding claim_task_for_execution_in_transaction claim_found
claim-fetch id j updated_at db r e = elim (Option-cases (fetch task_by_id j db.tasks)) [
  | inl missing ↦
      rw missing (ground (arith, eq_iff id j, e, missing, other id j db.tasks r missing e))
  | inr (current, found) ↦ rw found (
      mark-fetch id j is_queued (claim_row updated_at) db _ r (λ v. refl) (event-Quiet _ _ _ _ _ _)
        e)
]

-- The row that any call leaves is the one that `effect` says, for every task.
pub apply-fetch :
    (c : Call) (id : String) (db : Database) (r : TaskRow)
    → fetch task_by_id id db.tasks ≡ some r
    → fetch task_by_id id (apply c db).tasks ≡ some (effect c id r)
unfolding apply create_task claim_task_for_execution mark_task_completed mark_task_failed
    mark_task_cancelled create_workspace_output replace_workspace_output_metadata
    mark_task_completed_in_transaction mark_task_failed_in_transaction
    mark_task_cancelled_in_transaction create_workspace_output_in_transaction replace_metadata
apply-fetch (creates payload) id db r e =
    rw (task_created-committed payload db (create_task_in_transaction payload db))
      (create-fetch id payload db r e)
apply-fetch (claims j a) id db r e = rw (claimed-committed db j _) (claim-fetch id j a db r e)
apply-fetch (completes j a text citations count) id db r e =
    mark-fetch id j is_running (complete_row a text (citations_column citations)) db _ r (λ v. refl)
      (event-Quiet _ _ _ _ _ _) e
apply-fetch (fails j a detail) id db r e =
    mark-fetch id j is_open (fail_row a detail) db _ r (λ v. refl) (event-Quiet _ _ _ _ _ _) e
apply-fetch (cancels j a detail) id db r e =
    mark-fetch id j is_queued (cancel_row a detail) db _ r (λ v. refl) (event-Quiet _ _ _ _ _ _) e
apply-fetch (notes j kind a s m d) id db r e =
    ap (fetch task_by_id id) (event-Quiet j kind a s m d db) ∙ e
apply-fetch (outputs payload) id db r e =
    rw (output_created-committed payload db (create_workspace_output_in_transaction payload db))
      (ap (fetch task_by_id id) (outputs-tasks db _ _ (event-Quiet _ _ _ _ _ _)) ∙ e)
apply-fetch (replaces j m a) id db r e = ap (fetch task_by_id id) (replaced-tasks db _) ∙ e
