-- ===== src/Workbench/Requests/Writes/Settled.antt =====
-- backend/application/workbench_task_lifecycle.py: what a request that changes a task leaves.
use goat_ai.Prelude.{
  ℕ, ◌≡◌, refl, sym, subst, inl, inr, String, Bool, true, false, some, List, [], ◌∷◌, arith,
  if◌then◌else◌, str_eq, eq_refl, Bool-cases, Option-cases,
}
use goat_ai.Prelude.Table.{fetch, key-fetch}
use goat_ai.Authz.{AuthorizationContext}
use goat_ai.Workbench.Calls.{Call, cancels, apply, apply_all, get_task, row_to_task}
use goat_ai.Workbench.Effect.{effect, apply-fetch}
use goat_ai.Workbench.Requests.{
  RequestError, Reply, ok, error, RequestSettings, StatusResponse, status_response, write,
  task_decision, decided_task, load_visible_task,
}
use goat_ai.Workbench.Requests.Writes.{cancel_loaded, cancel_workbench_task}
use goat_ai.Workbench.{TaskRow, TaskRecord, Database, task_by_id, is_queued}

-- What is known of a task that was loaded for writing.
abbrev pub Loaded :
    RequestSettings → AuthorizationContext → String → Database → Reply TaskRecord → Type 0
Loaded settings ctx id db (error e) = Unit {0}
Loaded settings ctx id db (ok task) =
    (r : TaskRow) × (fetch task_by_id id db.tasks ≡ some r)
    × (task ≡ row_to_task r)
    × ((task_decision settings ctx write task).allowed ≡ true)

decided-Loaded :
    (settings : RequestSettings) (ctx : AuthorizationContext) (id : String) (db : Database)
    (r : TaskRow)
    → fetch task_by_id id db.tasks ≡ some r
    → Loaded settings ctx id db
        (decided_task (task_decision settings ctx write (row_to_task r)) (row_to_task r))
decided-Loaded settings ctx id db r e =
    elim (Bool-cases (task_decision settings ctx write (row_to_task r)).allowed) [
      | inl granted ↦ rw granted (r, e, refl, granted)
      | inr refused ↦ rw refused (
          told settings ctx id db
            (str_eq (task_decision settings ctx write (row_to_task r)).reason_code "scope_missing")
            _ _)
    ]
  where
    told :
        (settings : RequestSettings) (ctx : AuthorizationContext) (id : String) (db : Database)
        (b : Bool) (x y : RequestError)
        → Loaded settings ctx id db (if b then error x else error y)
    told settings ctx id db true x y = tt
    told settings ctx id db false x y = tt

pub load-Loaded :
    (settings : RequestSettings) (ctx : AuthorizationContext) (id : String) (db : Database)
    → Loaded settings ctx id db (load_visible_task settings ctx write id db)
unfolding load_visible_task get_task
load-Loaded settings ctx id db = elim (Bool-cases settings.agent_workbench_enabled) [
  | inr off ↦ rw off tt
  | inl on ↦ elim (Option-cases (fetch task_by_id id db.tasks)) [
    | inl missing ↦ rw (on, missing) tt
    | inr (r, e) ↦ rw (on, e) (decided-Loaded settings ctx id db r e)
  ]
]

-- What a request to cancel leaves: an error and the same database; or the task out of the queue, the
-- status that the reply tells, and a caller that may write the task, which was queued.
abbrev pub CancelSettled :
    RequestSettings
    → AuthorizationContext
    → String
    → Database
    → Database × Reply StatusResponse
    → Type 0
CancelSettled settings ctx id db (db', error e) = db' ≡ db
CancelSettled settings ctx id db (db', ok response) =
    (r r' : TaskRow) × (fetch task_by_id id db.tasks ≡ some r)
    × ((task_decision settings ctx write (row_to_task r)).allowed ≡ true)
    × (is_queued r.status ≡ true)
    × (fetch task_by_id id db'.tasks ≡ some r')
    × (is_queued r'.status ≡ false)
    × (response.status ≡ r'.status)

stored_later :
    (calls : List Call) (id : String) (db : Database) (r : TaskRow)
    → fetch task_by_id id db.tasks ≡ some r
    → (q : TaskRow) × (fetch task_by_id id (apply_all calls db).tasks ≡ some q)
unfolding apply_all
stored_later [] id db r e = (r, e)
stored_later (c ∷ calls) id db r e = stored_later calls id (apply c db) _ (apply-fetch c id db r e)

cancel-left_queue :
    (id : String) (now : ℕ) (detail : String) (q : TaskRow)
    → is_queued (effect (cancels id now detail) id q).status ≡ false
cancel-left_queue id now detail q = ground (arith, eq_refl id)

cancel_row-Settled :
    (settings : RequestSettings) (ctx : AuthorizationContext) (now : ℕ) (others : List Call)
    (r : TaskRow) (db : Database)
    → (task_decision settings ctx write (row_to_task r)).allowed ≡ true
    → fetch task_by_id r.id db.tasks ≡ some r
    → CancelSettled settings ctx r.id db
        (cancel_loaded settings ctx now others (ok (row_to_task r)) db)
unfolding cancel_loaded row_to_task get_task status_response apply
cancel_row-Settled settings ctx now others r db granted e =
    let (q, f) = stored_later others r.id db r e in
    let detail : String = "Task cancelled before execution." in
    let after = apply-fetch (cancels r.id now detail) r.id (apply_all others db) q f in
    elim (Bool-cases (is_queued r.status)) [
      | inl waits ↦
          rw (waits, after)
            (
              r,
              effect (cancels r.id now detail) r.id q,
              e,
              granted,
              waits,
              after,
              cancel-left_queue r.id now detail q,
              refl,
            )
      | inr busy ↦ rw busy refl
    ]

failed :
    (settings : RequestSettings) (ctx : AuthorizationContext) (now : ℕ) (others : List Call)
    (id : String) (e : RequestError) (db : Database)
    → CancelSettled settings ctx id db (cancel_loaded settings ctx now others (error e) db)
unfolding cancel_loaded
failed settings ctx now others id e db = refl

loaded-Settled :
    (settings : RequestSettings) (ctx : AuthorizationContext) (now : ℕ) (others : List Call)
    (id : String) (loaded : Reply TaskRecord) (db : Database)
    → Loaded settings ctx id db loaded
    → CancelSettled settings ctx id db (cancel_loaded settings ctx now others loaded db)
loaded-Settled settings ctx now others id (error e) db l = failed settings ctx now others id e db
loaded-Settled settings ctx now others id (ok task) db (r, e, is, granted) =
    subst (λ t. CancelSettled settings ctx id db (cancel_loaded settings ctx now others (ok t) db))
      (sym is)
      (subst
        (λ i.
          fetch task_by_id i db.tasks ≡ some r
          → CancelSettled settings ctx i db
              (cancel_loaded settings ctx now others (ok (row_to_task r)) db))
        (key-fetch task_by_id id db.tasks r e)
        (cancel_row-Settled settings ctx now others r db
          (subst (λ t. (task_decision settings ctx write t).allowed ≡ true) is granted))
        e)

-- A request to cancel a task either raises and changes nothing, or it comes from a caller that may write
-- the task, the task was queued, and it is out of the queue afterwards with the status that the reply
-- tells, whatever calls others make between the check and the cancellation.
pub cancel-settles :
    (settings : RequestSettings) (ctx : AuthorizationContext) (now : ℕ) (others : List Call)
    (id : String) (db : Database)
    → CancelSettled settings ctx id db (cancel_workbench_task settings ctx now others id db)
unfolding cancel_workbench_task
cancel-settles settings ctx now others id db =
    loaded-Settled settings ctx now others id (load_visible_task settings ctx write id db) db
      (load-Loaded settings ctx id db)
