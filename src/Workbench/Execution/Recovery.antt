-- ===== src/Workbench/Execution/Recovery.antt =====
-- backend/services/workbench_execution_service.py, recover_workbench_tasks: what recovery leaves.
use goat_ai.Prelude.{
  ◌≡◌, refl, ◌∙◌, subst, inl, inr, String, Bool, true, false, some, List, [], ◌∷◌, arith, member,
  select, str_eq, eq_iff, Bool-cases,
}
use goat_ai.Prelude.Sort.{sort_by-member}
use goat_ai.Prelude.Table.{fetch}
use goat_ai.Prelude.Table.Select.{select-member}
use goat_ai.Workbench.Calls.{Call, apply, apply_all, list_task_ids_by_status, task_before}
use goat_ai.Workbench.Effect.{apply-fetch}
use goat_ai.Workbench.Lifecycle.{ended_task_stays}
use goat_ai.Workbench.Runs.{Tools, Surroundings, World, fail_task}
use goat_ai.Workbench.Execution.{
  task_interrupted, execute_workbench_task, interrupt_each, replay_each, recover_workbench_tasks,
}
use goat_ai.Workbench.Execution.Parts.{TaskBegun, TaskEnded, begun_kept, fail_task-TaskEnded}
use goat_ai.Workbench.Execution.Ends.{execute-TaskEnded}
use goat_ai.Workbench.Execution.Kept.{
  apply_all-Kept, execute-Kept, execute_after-Kept, interrupt_each-Kept, replay_each-Kept,
}
use goat_ai.Workbench.{
  Status, queued, running, TaskRow, Database, task_by_id, is_queued, is_running, is_terminal,
}

-- A task is listed under its status.
task_ids-member :
    (id : String) (wanted : Status → Bool) (db : Database) (r : TaskRow)
    → fetch task_by_id id db.tasks ≡ some r
    → wanted r.status ≡ true
    → member id (list_task_ids_by_status wanted db) ≡ true
unfolding list_task_ids_by_status
task_ids-member id wanted db r e h =
    sort_by-member task_before (λ v. v.id) id (select (λ v. wanted v.status) db.tasks)
    ∙ select-member (λ v. v.id) (λ v. wanted v.status) id db.tasks r e h

abbrev TaskStored : String → Database → Type 0
TaskStored id db = (r : TaskRow) × (fetch task_by_id id db.tasks ≡ some r)

stored_kept :
    (id : String) (c : Call) (db : Database) → TaskStored id db → TaskStored id (apply c db)
stored_kept id c db (r, e) = (_, apply-fetch c id db r e)

ended_kept : (id : String) (c : Call) (db : Database) → TaskEnded id db → TaskEnded id (apply c db)
unfolding apply_all
ended_kept id c db (r, e, h) = (r, ended_task_stays (c ∷ []) id db r e h, h)

is_queued-queued_task : (s : Status) → is_queued s ≡ true → s ≡ queued
is_queued-queued_task queued h = refl
is_queued-queued_task _ h = cc

ended_begun : (s : Status) → is_terminal s ≡ true → is_queued s ≡ false
ended_begun queued h = cc
ended_begun _ h = refl

-- A task that is stored has left the queue once it was run.
execute-TaskBegun :
    (env : Surroundings) (tools : Tools) (id : String) (w : World)
    → TaskStored id w.db
    → TaskBegun id (execute_workbench_task env tools id w).db
execute-TaskBegun env tools id w s =
    let others = env.others w.readings in
    let (r, e) = apply_all-Kept (TaskStored id) (stored_kept id) others w.db s in
    elim (Bool-cases (is_queued r.status)) [
      | inl waits ↦
          let (q, found, over) =
            execute-TaskEnded env tools id w r e (is_queued-queued_task r.status waits) in
          (q, found, ended_begun q.status over)
      | inr left ↦ execute_after-Kept (TaskBegun id) (begun_kept id) env tools id w (r, e, left)
    ]

interrupt_each-member :
    (env : Surroundings) (ids : List String) (id : String) (w : World)
    → TaskBegun id w.db
    → member id ids ≡ true
    → TaskEnded id (interrupt_each env ids w).db
unfolding interrupt_each
interrupt_each-member env [] id w b h = cc
interrupt_each-member env (j ∷ ids) id w b h = elim (Bool-cases (str_eq id j)) [
  | inl mine ↦
      interrupt_each-Kept (TaskEnded id) (ended_kept id) env ids
        (fail_task env j task_interrupted w)
        (subst (λ i. TaskEnded id (fail_task env i task_interrupted w).db) ((eq_iff id j).0 mine)
          (fail_task-TaskEnded env id _ w b))
  | inr other ↦
      interrupt_each-member env ids id _
        (interrupt_each-Kept (TaskBegun id) (begun_kept id) env (j ∷ []) w b) (ground arith)
]

replay_each-member :
    (env : Surroundings) (tools : Tools) (ids : List String) (id : String) (w : World)
    → TaskStored id w.db
    → member id ids ≡ true
    → TaskBegun id (replay_each env tools ids w).db
unfolding replay_each
replay_each-member env tools [] id w s h = cc
replay_each-member env tools (j ∷ ids) id w s h = elim (Bool-cases (str_eq id j)) [
  | inl mine ↦ replay_each-Kept (TaskBegun id) (begun_kept id) env tools ids _ (
      subst (λ i. TaskBegun id (execute_workbench_task env tools i w).db) ((eq_iff id j).0 mine)
        (execute-TaskBegun env tools id w s))
  | inr other ↦
      replay_each-member env tools ids id _
        (execute-Kept (TaskStored id) (stored_kept id) env tools j w s) (ground arith)
]

-- Recovery at start-up ends every task that an earlier process left running, and leaves none in the
-- queue that was there when it began, whatever the tools answer and whatever calls others make meanwhile.
pub recover-tasks :
    (env : Surroundings) (tools : Tools) (meanwhile : List Call) (id : String) (w : World)
    (r : TaskRow)
    → fetch task_by_id id w.db.tasks ≡ some r
    → let after = (recover_workbench_tasks env tools meanwhile w).0.db in
      (r.status ≡ running → TaskEnded id after) × (r.status ≡ queued → TaskBegun id after)
unfolding recover_workbench_tasks
recover-tasks env tools meanwhile id w r e =
    let ids = list_task_ids_by_status is_running w.db in
    let w' = interrupt_each env ids w in
    let db' = apply_all meanwhile w'.db in
    let replayed = list_task_ids_by_status is_queued db' in
    let (q, found) =
      apply_all-Kept (TaskStored id) (stored_kept id) meanwhile w'.db
        (interrupt_each-Kept (TaskStored id) (stored_kept id) env ids w (r, e)) in
    (
      λ h. replay_each-Kept (TaskEnded id) (ended_kept id) env tools replayed _ (
          apply_all-Kept (TaskEnded id) (ended_kept id) meanwhile w'.db (
            interrupt_each-member env ids id w (r, e, rw h)
              (task_ids-member id is_running w.db r e (rw h)))),
      λ h. elim (Bool-cases (is_queued q.status)) [
        | inl waits ↦
            replay_each-member env tools replayed id _ (q, found)
              (task_ids-member id is_queued db' q found waits)
        | inr left ↦
            replay_each-Kept (TaskBegun id) (begun_kept id) env tools replayed _ (q, found, left)
      ],
    )
