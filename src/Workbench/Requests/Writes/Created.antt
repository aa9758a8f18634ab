-- ===== src/Workbench/Requests/Writes/Created.antt =====
-- backend/application/workbench_task_lifecycle.py: the task that a retry creates.
use goat_ai.Prelude.{
  ℕ, ◌≡◌, refl, sym, subst, ap, ◌∙◌, inl, inr, String, true, Option, none, some, List, Bool-cases,
}
use goat_ai.Prelude.Table.{fetch, insert, fetch-insert, fetch-insert_self, key-fetch}
use goat_ai.Prelude.Text.{append_text}
use goat_ai.Authz.{AuthorizationContext}
use goat_ai.Workbench.Store.{
  new_task, with_tasks, then_event, append_task_event, create_task_in_transaction,
}
use goat_ai.Workbench.Calls.{TaskCreated, create_task, task_created, get_task, row_to_task}
use goat_ai.Workbench.Sources.{Descriptor, Sources, found, permission_error, value_error}
use goat_ai.Workbench.Requests.{
  RequestError, Reply, ok, error, RequestSettings, AcceptedResponse, write, task_decision,
  load_visible_task,
}
use goat_ai.Workbench.Requests.Writes.{
  build_task_create_payload, asked_again, retry_events, retried_reply, retry_checked,
  retry_resolved, retry_loaded, retry_workbench_task,
}
use goat_ai.Workbench.Requests.Writes.Settled.{Loaded, load-Loaded}
use goat_ai.Workbench.{
  queued, TaskRow, TaskRecord, TaskCreatePayload, Database, task_by_id, is_terminal,
}

-- A task that another is a new attempt at, for a caller.
pub record IsRetryOf (ctx : AuthorizationContext) (old new : TaskRow) : Type 0 where
  pub status : new.status ≡ queued
  pub task_kind : new.task_kind ≡ old.task_kind
  pub prompt : new.prompt ≡ old.prompt
  pub session_id : new.session_id ≡ old.session_id
  pub project_id : new.project_id ≡ old.project_id
  pub documents : new.knowledge_document_ids ≡ old.knowledge_document_ids
  pub owner_id : new.owner_id ≡ ctx.legacy_owner_id
  pub tenant_id : new.tenant_id ≡ ctx.tenant_id.value
  pub principal_id : new.principal_id ≡ ctx.principal_id.value
  pub result_text : new.result_text ≡ none

-- What a request to retry leaves: an error and the same database; or a caller that may write the task,
-- which had ended and stays as it is, and a new task under the id of the reply.
abbrev pub RetrySettled :
    RequestSettings
    → AuthorizationContext
    → String
    → Database
    → Database × Reply AcceptedResponse
    → Type 0
RetrySettled settings ctx id db (db', error e) = db' ≡ db
RetrySettled settings ctx id db (db', ok accepted) =
    (r new : TaskRow) × (fetch task_by_id id db.tasks ≡ some r)
    × ((task_decision settings ctx write (row_to_task r)).allowed ≡ true)
    × (is_terminal r.status ≡ true)
    × (fetch task_by_id id db'.tasks ≡ some r)
    × (fetch task_by_id accepted.task_id db.tasks ≡ none)
    × (fetch task_by_id accepted.task_id db'.tasks ≡ some new)
    × IsRetryOf ctx r new

-- What a creation that is accepted leaves.
abbrev Created : TaskCreatePayload → Database → TaskCreated → Type 0
Created payload db none = Unit {0}
Created payload db (some (db', task)) =
    (task ≡ row_to_task (new_task payload))
    × (fetch task_by_id payload.task_id db.tasks ≡ none)
    × (fetch task_by_id payload.task_id db'.tasks ≡ some (new_task payload))
    × ((id : String) (r : TaskRow)
        → fetch task_by_id id db.tasks ≡ some r
        → fetch task_by_id id db'.tasks ≡ some r)

inserted-Created :
    (payload : TaskCreatePayload) (db : Database) (rows : Option (List TaskRow))
    → insert task_by_id (new_task payload) db.tasks ≡ rows
    → (event : Database → Database) → ((d : Database) → (event d).tasks ≡ d.tasks)
    → Created payload db (task_created payload (then_event (with_tasks db rows) event))
unfolding task_created get_task
inserted-Created payload db none e event quiet = tt
inserted-Created payload db (some rows) e event quiet =
    let (mine, free) = fetch-insert_self task_by_id (new_task payload) db.tasks rows e in
    let same = quiet (record db { tasks = rows }) in
    let stored = ap (fetch task_by_id payload.task_id) same ∙ mine in
    (
      rw stored,
      free,
      stored,
      λ id r f.
          ap (fetch task_by_id id) same
          ∙ rw (fetch-insert task_by_id id (new_task payload) db.tasks rows e) (rw f),
    )

create_task-Created :
    (payload : TaskCreatePayload) (db : Database) → Created payload db (create_task payload db)
unfolding create_task create_task_in_transaction append_task_event
create_task-Created payload db = inserted-Created payload db _ refl _ (λ d. refl)

retried-Settled :
    (settings : RequestSettings) (ctx : AuthorizationContext) (new_id : String) (now : ℕ)
    (r : TaskRow) (ds : List Descriptor) (created : TaskCreated) (db : Database)
    → fetch task_by_id r.id db.tasks ≡ some r
    → (task_decision settings ctx write (row_to_task r)).allowed ≡ true
    → is_terminal r.status ≡ true
    → Created (build_task_create_payload ctx new_id now (asked_again (row_to_task r)) ds) db created
    → RetrySettled settings ctx r.id db (retried_reply now (row_to_task r) db created)
unfolding retry_events append_task_event row_to_task
retried-Settled settings ctx new_id now r ds none db e granted over c = refl
retried-Settled settings ctx new_id now r ds (some (db', task)) db e granted over
      (is, free, stored, others) =
    (
      r,
      new_task (build_task_create_payload ctx new_id now (asked_again (row_to_task r)) ds),
      e,
      granted,
      over,
      others r.id r e,
      ap (λ t. fetch task_by_id t.id db.tasks) is ∙ free,
      ap (λ t. fetch task_by_id t.id db'.tasks) is ∙ stored,
      record {
        status = refl;
        task_kind = refl;
        prompt = refl;
        session_id = refl;
        project_id = refl;
        documents = refl;
        owner_id = refl;
        tenant_id = refl;
        principal_id = refl;
        result_text = refl;
      },
    )

checked-Settled :
    (settings : RequestSettings) (ctx : AuthorizationContext) (new_id : String) (now : ℕ)
    (r : TaskRow) (ds : List Descriptor) (wrong : Option RequestError) (db : Database)
    → fetch task_by_id r.id db.tasks ≡ some r
    → (task_decision settings ctx write (row_to_task r)).allowed ≡ true
    → is_terminal r.status ≡ true
    → RetrySettled settings ctx r.id db (retry_checked ctx new_id now (row_to_task r) ds wrong db)
checked-Settled settings ctx new_id now r ds (some x) db e granted over = refl
checked-Settled settings ctx new_id now r ds none db e granted over =
    retried-Settled settings ctx new_id now r ds _ db e granted over (create_task-Created _ db)

resolved-Settled :
    (settings : RequestSettings) (ctx : AuthorizationContext) (new_id : String) (now : ℕ)
    (r : TaskRow) (sources : Sources) (db : Database)
    → fetch task_by_id r.id db.tasks ≡ some r
    → (task_decision settings ctx write (row_to_task r)).allowed ≡ true
    → is_terminal r.status ≡ true
    → RetrySettled settings ctx r.id db (retry_resolved ctx new_id now (row_to_task r) sources db)
unfolding retry_resolved
resolved-Settled settings ctx new_id now r (permission_error m) db e granted over = refl
resolved-Settled settings ctx new_id now r (value_error m) db e granted over = refl
resolved-Settled settings ctx new_id now r (found ds) db e granted over =
    checked-Settled settings ctx new_id now r ds _ db e granted over

retry_row-Settled :
    (settings : RequestSettings) (ctx : AuthorizationContext) (new_id : String) (now : ℕ)
    (r : TaskRow) (db : Database)
    → (task_decision settings ctx write (row_to_task r)).allowed ≡ true
    → fetch task_by_id r.id db.tasks ≡ some r
    → RetrySettled settings ctx r.id db
        (retry_loaded settings ctx new_id now (ok (row_to_task r)) db)
unfolding retry_loaded row_to_task
retry_row-Settled settings ctx new_id now r db granted e =
    elim (Bool-cases (is_terminal r.status)) [
      | inl over ↦ rw over (resolved-Settled settings ctx new_id now r _ db e granted over)
      | inr open_still ↦ rw open_still refl
    ]

not_loaded :
    (settings : RequestSettings) (ctx : AuthorizationContext) (new_id : String) (now : ℕ)
    (id : String) (x : RequestError) (db : Database)
    → RetrySettled settings ctx id db (retry_loaded settings ctx new_id now (error x) db)
unfolding retry_loaded
not_loaded settings ctx new_id now id x db = refl

retry_loaded-Settled :
    (settings : RequestSettings) (ctx : AuthorizationContext) (new_id : String) (now : ℕ)
    (id : String) (loaded : Reply TaskRecord) (db : Database)
    → Loaded settings ctx id db loaded
    → RetrySettled settings ctx id db (retry_loaded settings ctx new_id now loaded db)
retry_loaded-Settled settings ctx new_id now id (error x) db l =
    not_loaded settings ctx new_id now id x db
retry_loaded-Settled settings ctx new_id now id (ok task) db (r, e, is, granted) =
    subst (λ t. RetrySettled settings ctx id db (retry_loaded settings ctx new_id now (ok t) db))
      (sym is)
      (subst
        (λ i.
          fetch task_by_id i db.tasks ≡ some r
          → RetrySettled settings ctx i db
              (retry_loaded settings ctx new_id now (ok (row_to_task r)) db))
        (key-fetch task_by_id id db.tasks r e)
        (retry_row-Settled settings ctx new_id now r db
          (subst (λ t. (task_decision settings ctx write t).allowed ≡ true) is granted))
        e)

-- A request to retry a task either raises and changes nothing, or it comes from a caller that may write
-- the task, which had ended and stays as it is; and the id of the reply, which was free, is that of a new
-- queued task without a result, of the same kind, prompt, session, project and documents, which belongs
-- to the caller.
pub retry-settles :
    (settings : RequestSettings) (ctx : AuthorizationContext) (new_hex : String) (now : ℕ)
    (id : String) (db : Database)
    → RetrySettled settings ctx id db (retry_workbench_task settings ctx new_hex now id db)
unfolding retry_workbench_task
retry-settles settings ctx new_hex now id db =
    retry_loaded-Settled settings ctx (append_text "wb-" new_hex) now id
      (load_visible_task settings ctx write id db) db (load-Loaded settings ctx id db)
