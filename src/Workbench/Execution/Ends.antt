-- ===== src/Workbench/Execution/Ends.antt =====
-- backend/services/workbench_execution_service.py, execute_workbench_task: what becomes of the task that
-- is run.
use goat_ai.Prelude.{ℕ, ◌≡◌, subst, String, Bool, true, false, Option, none, some, arith, eq_refl}
use goat_ai.Prelude.Table.{fetch, key-fetch}
use goat_ai.Prelude.Table.Update.{update_where_hit}
use goat_ai.Workbench.Store.{
  claim_row, claim_found, claim_task_for_execution_in_transaction, update_task,
}
use goat_ai.Workbench.Calls.{
  claims, apply, apply_all, claim_task_for_execution, claimed, get_task, row_to_task,
}
use goat_ai.Workbench.Effect.{effect, apply-fetch}
use goat_ai.Workbench.Runs.{Tools, Surroundings, World}
use goat_ai.Workbench.Execution.Parts.{
  TaskBegun, TaskEnded, run_task-Done, handle_failure-TaskEnded,
}
use goat_ai.Workbench.Execution.{
  run_task, handle_failure, run_claimed, execute_workbench_task, build_execution_auth_context,
}
use goat_ai.Workbench.{queued, TaskRow, TaskRecord, Database, task_by_id, is_queued}

abbrev committed : Option Database → Bool
committed none = false
committed (some db) = true

read_back :
    (db : Database) (id : String) (u : Option Database) (v : TaskRow)
    → committed u ≡ true
    → fetch task_by_id id (claimed db id u).0.tasks ≡ some v
    → (claimed db id u).1 ≡ some (row_to_task v)
unfolding claimed get_task
read_back db id none v hit e = cc
read_back db id (some y) v hit e = rw e

claim_transaction-hit :
    (id : String) (now : ℕ) (db : Database) (r : TaskRow)
    → fetch task_by_id id db.tasks ≡ some r
    → is_queued r.status ≡ true
    → committed (claim_task_for_execution_in_transaction id now db) ≡ true
unfolding claim_task_for_execution_in_transaction claim_found update_task
claim_transaction-hit id now db r e h =
    rw e
      (rw (update_where_hit task_by_id id (λ v. is_queued v.status) (claim_row now) db.tasks r e h))

-- The claim of a queued task returns its record.
claim-hit :
    (id : String) (now : ℕ) (db : Database) (r : TaskRow)
    → fetch task_by_id id db.tasks ≡ some r
    → is_queued r.status ≡ true
    → (task : TaskRecord) × (task.id ≡ id) × ((claim_task_for_execution id now db).1 ≡ some task)
unfolding claim_task_for_execution apply row_to_task
claim-hit id now db r e h =
    let hit = claim_transaction-hit id now db r e h in
    let after = apply-fetch (claims id now) id db r e in
    (
      row_to_task (effect (claims id now) id r),
      key-fetch task_by_id id _ _ after,
      read_back db id _ _ hit after,
    )

run_claimed-TaskEnded :
    (env : Surroundings) (tools : Tools) (id : String) (task : TaskRecord) (w : World)
    → task.id ≡ id
    → TaskBegun id w.db
    → TaskEnded id (run_claimed env tools id (some task) w).db
unfolding run_claimed
run_claimed-TaskEnded env tools id task w same b =
    subst
      (λ i.
        TaskBegun i w.db
        → TaskEnded i
            (handle_failure env i task
              (run_task env tools (build_execution_auth_context task) i task w)).db)
      same
      (λ begun.
        handle_failure-TaskEnded env task.id task _
          (run_task-Done env tools (build_execution_auth_context task) task w begun))
      b

-- A task that is queued when its run claims it has ended when the run returns: whatever its kind, with an
-- answer, an empty one or an exception of the language model, the knowledge base, the web search or the
-- research runtime, and whatever calls others make meanwhile.
pub execute-TaskEnded :
    (env : Surroundings) (tools : Tools) (id : String) (w : World) (r : TaskRow)
    → fetch task_by_id id (apply_all (env.others w.readings) w.db).tasks ≡ some r
    → r.status ≡ queued
    → TaskEnded id (execute_workbench_task env tools id w).db
unfolding execute_workbench_task apply
execute-TaskEnded env tools id w r e h =
    let now = env.clock w.readings in
    let db = apply_all (env.others w.readings) w.db in
    let waits : is_queued r.status ≡ true = rw h in
    let (task, same, hit) = claim-hit id now db r e waits in
    rw hit (
      run_claimed-TaskEnded env tools id task _ same
        (_, apply-fetch (claims id now) id db r e, ground (arith, eq_refl id)))
