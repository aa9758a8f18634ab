-- ===== src/Workbench/Requests/Hidden.antt =====
-- backend/application/workbench_shared.py, load_visible_task, with backend/services/authorizer.py: what a
-- caller learns of a task that it may not see.
use goat_ai.Prelude.{ℕ, ◌≡◌, refl, String, true, none, some, List}
use goat_ai.Prelude.Table.{fetch}
use goat_ai.Authz.Allowed.{Visible}
use goat_ai.Authz.Isolation.{Concealed, task-Concealed}
use goat_ai.Authz.{
  AuthorizationContext, AuthorizationDecision, has_scope, workbench_read_scope,
  workbench_write_scope,
}
use goat_ai.Workbench.Calls.{Call, row_to_task, get_task}
use goat_ai.Workbench.Requests.{
  error, task_not_found, RequestSettings, read, write, Access, task_resource, task_decision,
  decided_task, load_visible_task, get_workbench_task, get_workbench_task_events,
}
use goat_ai.Workbench.Requests.Writes.{
  cancel_loaded, cancel_workbench_task, retry_loaded, retry_workbench_task,
}
use goat_ai.Workbench.{TaskRow, TaskRecord, Database, task_by_id}

decided_task_unknown :
    (d : AuthorizationDecision) (task : TaskRecord)
    → Concealed d
    → decided_task d task ≡ error task_not_found
decided_task_unknown d task (refused, untold) = rw (refused, untold)

load_hidden :
    (settings : RequestSettings) (ctx : AuthorizationContext) (access : Access) (id : String)
    (db : Database) (r : TaskRow)
    → settings.agent_workbench_enabled ≡ true
    → fetch task_by_id id db.tasks ≡ some r
    → Concealed (task_decision settings ctx access (row_to_task r))
    → load_visible_task settings ctx access id db ≡ error task_not_found
unfolding load_visible_task get_task
load_hidden settings ctx access id db r on e concealed =
    rw (on, e)
      (decided_task_unknown (task_decision settings ctx access (row_to_task r)) (row_to_task r)
        concealed)

load_missing :
    (settings : RequestSettings) (ctx : AuthorizationContext) (access : Access) (id : String)
    (db : Database)
    → settings.agent_workbench_enabled ≡ true
    → fetch task_by_id id db.tasks ≡ none
    → load_visible_task settings ctx access id db ≡ error task_not_found
unfolding load_visible_task get_task
load_missing settings ctx access id db on e = rw (on, e) refl

-- To read the task or its events, to cancel it and to retry it are all answered "not found", and nothing
-- is changed.
abbrev pub IsNotFound :
    RequestSettings → AuthorizationContext → ℕ → List Call → String → Database → String → Type 0
IsNotFound settings ctx now others new_hex db id =
    (get_workbench_task settings ctx id db ≡ error task_not_found)
    × (get_workbench_task_events settings ctx id db ≡ error task_not_found)
    × (cancel_workbench_task settings ctx now others id db ≡ (db, error task_not_found))
    × (retry_workbench_task settings ctx new_hex now id db ≡ (db, error task_not_found))

unloaded-IsNotFound :
    (settings : RequestSettings) (ctx : AuthorizationContext) (now : ℕ) (others : List Call)
    (new_hex : String) (db : Database) (id : String)
    → ((access : Access) → load_visible_task settings ctx access id db ≡ error task_not_found)
    → IsNotFound settings ctx now others new_hex db id
unfolding get_workbench_task get_workbench_task_events cancel_workbench_task cancel_loaded
    retry_workbench_task retry_loaded
unloaded-IsNotFound settings ctx now others new_hex db id unloaded =
    (rw (unloaded read), rw (unloaded read), rw (unloaded write), rw (unloaded write))

task_decision-Concealed :
    (settings : RequestSettings) (ctx : AuthorizationContext) (access : Access) (r : TaskRow)
    → has_scope ctx workbench_read_scope ≡ true
    → has_scope ctx workbench_write_scope ≡ true
    → ¬ Visible ctx (task_resource (row_to_task r)) settings.sources.require_session_owner
    → Concealed (task_decision settings ctx access (row_to_task r))
task_decision-Concealed settings ctx read r reads writes hidden =
    let owner = settings.sources.require_session_owner in
    let (on_read, on_write) = task-Concealed ctx (task_resource (row_to_task r)) owner hidden in
    on_read reads
task_decision-Concealed settings ctx write r reads writes hidden =
    let owner = settings.sources.require_session_owner in
    let (on_read, on_write) = task-Concealed ctx (task_resource (row_to_task r)) owner hidden in
    on_write writes

-- While the feature is on, a caller that holds the scopes of the workbench is answered the same for a
-- task that is not visible to it as for an id that no task has: to read the task or its events, to
-- cancel it and to retry it are all answered "not found", for the one id and for the other, and nothing
-- is changed.
pub hidden-IsNotFound :
    (settings : RequestSettings) (ctx : AuthorizationContext) (now : ℕ) (others : List Call)
    (new_hex : String) (db : Database) (id missing : String) (r : TaskRow)
    → settings.agent_workbench_enabled ≡ true
    → has_scope ctx workbench_read_scope ≡ true
    → has_scope ctx workbench_write_scope ≡ true
    → fetch task_by_id id db.tasks ≡ some r
    → ¬ Visible ctx (task_resource (row_to_task r)) settings.sources.require_session_owner
    → fetch task_by_id missing db.tasks ≡ none
    → IsNotFound settings ctx now others new_hex db id
      × IsNotFound settings ctx now others new_hex db missing
hidden-IsNotFound settings ctx now others new_hex db id missing r on reads writes e hidden
      none_has =
    (
      unloaded-IsNotFound settings ctx now others new_hex db id (λ access.
          load_hidden settings ctx access id db r on e
            (task_decision-Concealed settings ctx access r reads writes hidden)),
      unloaded-IsNotFound settings ctx now others new_hex db missing
          (λ access. load_missing settings ctx access missing db on none_has),
    )
