-- ===== src/Workbench/Postgres/Parent.antt =====
-- backend/services/workbench_runtime.py: the FOREIGN KEY of the events and the outputs holds after a
-- statement that has written the task, and refuses what is written for an id that has none.
use goat_ai.Prelude.{
  ℕ, ◌≡◌, refl, ◌∙◌, String, Bool, Option, none, some, inl, inr, Bool-cases, Option-cases,
}
use goat_ai.Prelude.Json.{Json}
use goat_ai.Prelude.Table.{
  fetch, insert, update_where, fetch-insert_self, fetch-replace_self, key-fetch,
}
use goat_ai.Workbench.Store.{
  with_tasks, with_outputs, then_event, update_task, append_task_event,
  create_workspace_output_in_transaction, new_output,
}
use goat_ai.Workbench.Postgres.{
  insert_task_child, then_insert, add_event_postgres, append_task_event_postgres,
  insert_output_postgres,
}
use goat_ai.Workbench.{Status, TaskRow, OutputCreatePayload, Database, task_by_id, output_by_id}

child_of_row :
    (id : String) (statement : Database → Option Database) (db : Database) (r : TaskRow)
    → fetch task_by_id id db.tasks ≡ some r
    → insert_task_child id statement db ≡ statement db
unfolding insert_task_child
child_of_row id statement db r e = rw (e, insert_task_child) refl

child_refused :
    (id : String) (statement : Database → Option Database) (db : Database)
    → fetch task_by_id id db.tasks ≡ none
    → insert_task_child id statement db ≡ none
unfolding insert_task_child
child_refused id statement db e = rw (e, insert_task_child) refl

-- An event of a task that exists is added as SQLite adds it.
pub event_of_row :
    (id kind : String) (a : ℕ) (status : Option Status) (message : Option String)
    (metadata : Option Json) (db : Database) (r : TaskRow)
    → fetch task_by_id id db.tasks ≡ some r
    → append_task_event_postgres id kind a status message metadata db
      ≡ some (append_task_event id kind a status message metadata db)
unfolding append_task_event_postgres add_event_postgres append_task_event
event_of_row id kind a status message metadata db r e =
    child_of_row id (λ d. some (add_event_postgres id kind a status message metadata d)) db r e

-- An UPDATE that hits leaves the task in place, so that its event is added.
pub event_after_update :
    (id : String) (guard : Status → Bool) (change : TaskRow → TaskRow) (db : Database)
    (kind : String) (a : ℕ) (status : Option Status) (message : Option String)
    (metadata : Option Json)
    → ((r : TaskRow) → (change r).id ≡ r.id)
    → then_insert
        (update_task id guard change db)
        (append_task_event_postgres id kind a status message metadata)
      ≡ then_event
          (update_task id guard change db)
          (append_task_event id kind a status message metadata)
unfolding update_task update_where
event_after_update id guard change db kind a status message metadata kept =
    elim (Option-cases (fetch task_by_id id db.tasks)) [
      | inl missing ↦ rw (missing, update_where) refl
      | inr (r, e) ↦ elim (Bool-cases (guard r.status)) [
        | inr refused ↦ rw (e, update_where) (rw refused refl)
        | inl hit ↦
            rw (e, update_where)
              (rw hit (
                event_of_row id kind a status message metadata _ (change r) (
                  fetch-replace_self task_by_id id (change r) db.tasks r
                    (kept r ∙ key-fetch task_by_id id db.tasks r e) e)))
      ]
    ]

-- The INSERT of a task leaves its row in place.
pub event_after_insert :
    (v : TaskRow) (db : Database) (kind : String) (a : ℕ) (status : Option Status)
    (message : Option String) (metadata : Option Json)
    → then_insert
        (with_tasks db (insert task_by_id v db.tasks))
        (append_task_event_postgres v.id kind a status message metadata)
      ≡ then_event
          (with_tasks db (insert task_by_id v db.tasks))
          (append_task_event v.id kind a status message metadata)
event_after_insert v db kind a status message metadata =
    elim (Option-cases (insert task_by_id v db.tasks)) [
      | inl taken ↦ rw taken refl
      | inr (rows, e) ↦ rw e (
          event_of_row v.id kind a status message metadata (record db { tasks = rows }) v
            (fetch-insert_self task_by_id v db.tasks rows e).0)
    ]

-- An output of a task that exists is added as SQLite adds it.
pub output_of_row :
    (payload : OutputCreatePayload) (db : Database) (r : TaskRow)
    → fetch task_by_id payload.task_id db.tasks ≡ some r
    → insert_output_postgres payload db ≡ create_workspace_output_in_transaction payload db
unfolding insert_output_postgres create_workspace_output_in_transaction
output_of_row payload db r e =
    rw
      (child_of_row payload.task_id
        (λ d. with_outputs d (insert output_by_id (new_output payload) d.outputs)) db r e)
      (elim (Option-cases (insert output_by_id (new_output payload) db.outputs)) [
        | inl taken ↦ rw taken refl
        | inr (rows, f) ↦
            rw f (event_of_row payload.task_id _ _ _ _ _ (record db { outputs = rows }) r e)
      ])

-- What is written for an id that no task has is refused.
pub event_refused :
    (id kind : String) (a : ℕ) (status : Option Status) (message : Option String)
    (metadata : Option Json) (db : Database)
    → fetch task_by_id id db.tasks ≡ none
    → append_task_event_postgres id kind a status message metadata db ≡ none
unfolding append_task_event_postgres
event_refused id kind a status message metadata db e = child_refused id _ db e

pub output_refused :
    (payload : OutputCreatePayload) (db : Database)
    → fetch task_by_id payload.task_id db.tasks ≡ none
    → insert_output_postgres payload db ≡ none
unfolding insert_output_postgres
output_refused payload db e =
    rw
      (child_refused payload.task_id
        (λ d. with_outputs d (insert output_by_id (new_output payload) d.outputs)) db e)
      refl
