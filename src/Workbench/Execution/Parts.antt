-- ===== src/Workbench/Execution/Parts.antt =====
-- backend/services/workbench_execution_service.py, run_task: a part of a run that returns has ended the
-- task, one that raises has not put it back.
use goat_ai.Prelude.{
  ℕ, ◌≡◌, String, true, false, Option, none, some, List, [], ◌∷◌, arith, str_eq, eq_refl,
}
use goat_ai.Prelude.Json.{Json}
use goat_ai.Prelude.Table.{fetch}
use goat_ai.Authz.{AuthorizationContext}
use goat_ai.Workbench.Calls.{Call, completes, fails, apply, apply_all, OutputCreated}
use goat_ai.Workbench.Effect.{effect, apply-fetch}
use goat_ai.Workbench.Lifecycle.{effect-left_queue}
use goat_ai.Workbench.Sources.{Descriptor, Sources, found, permission_error, value_error, has_any}
use goat_ai.Workbench.Runs.{
  Answer, value, raises, ResearchEnd, researched, no_runnable_sources, execution_failed,
  research_raises, Tools, Surroundings, World, Attempt, perform, append_running_event, fail_task,
  complete_task,
}
use goat_ai.Workbench.Retrieval.{Skipped, Gathered}
use goat_ai.Workbench.Retrieval.Steps.{
  finish_retrieval, retrieve_runnable, retrieve_resolved, execute_legacy_retrieval_task,
}
use goat_ai.Workbench.PlanCanvas.{
  plan_answered, canvas_stored, canvas_answered, execute_canvas_task,
}
use goat_ai.Workbench.Execution.Kept.{
  either, Held, apply_all-Kept, perform-Kept, note_skipped-Kept, each-Held,
}
use goat_ai.Workbench.Execution.{research_ended, research_run, run_task, handle_failure}
use goat_ai.Workbench.{TaskRow, TaskRecord, Database, task_by_id, is_queued, is_terminal}

-- The task has left the queue.
abbrev pub TaskBegun : String → Database → Type 0
TaskBegun id db =
    (r : TaskRow) × (fetch task_by_id id db.tasks ≡ some r) × (is_queued r.status ≡ false)

abbrev pub TaskEnded : String → Database → Type 0
TaskEnded id db =
    (r : TaskRow) × (fetch task_by_id id db.tasks ≡ some r) × (is_terminal r.status ≡ true)

apply-TaskBegun :
    (c : Call) (id : String) (db : Database) → TaskBegun id db → TaskBegun id (apply c db)
apply-TaskBegun c id db (r, e, h) = (_, apply-fetch c id db r e, effect-left_queue c id r h)

pub begun_kept :
    (id : String) (c : Call) (db : Database) → TaskBegun id db → TaskBegun id (apply c db)
begun_kept id c db b = apply-TaskBegun c id db b

pub apply_all-TaskBegun :
    (calls : List Call) (id : String) (db : Database)
    → TaskBegun id db
    → TaskBegun id (apply_all calls db)
apply_all-TaskBegun calls id db b = apply_all-Kept (TaskBegun id) (begun_kept id) calls db b

perform-TaskBegun :
    (env : Surroundings) (c : ℕ → Call) (id : String) (w : World)
    → TaskBegun id w.db
    → TaskBegun id (perform env c w).db
perform-TaskBegun env c id w b = perform-Kept (TaskBegun id) (begun_kept id) env c w b

-- A call that ends every task that has left the queue.
perform-TaskEnded :
    (env : Surroundings) (c : ℕ → Call) (id : String) (w : World)
    → ((now : ℕ) (r : TaskRow)
        → is_queued r.status ≡ false
        → is_terminal (effect (c now) id r).status ≡ true)
    → TaskBegun id w.db
    → TaskEnded id (perform env c w).db
unfolding perform
perform-TaskEnded env c id w ends b =
    let now = env.clock w.readings in
    let (r, e, h) = apply_all-TaskBegun (env.others w.readings) id w.db b in
    (_, apply-fetch (c now) id _ r e, ends now r h)

pub fail_task-TaskEnded :
    (env : Surroundings) (id detail : String) (w : World)
    → TaskBegun id w.db
    → TaskEnded id (fail_task env id detail w).db
unfolding fail_task
fail_task-TaskEnded env id detail w b =
    perform-TaskEnded env (λ now. fails id now detail) id w (λ now r h. ground (arith, eq_refl id))
      b

complete_task-TaskEnded :
    (env : Surroundings) (id text : String) (citations : Option (List Json)) (count : ℕ) (w : World)
    → TaskBegun id w.db
    → TaskEnded id (complete_task env id text citations count w).db
unfolding complete_task
complete_task-TaskEnded env id text citations count w b =
    perform-TaskEnded env (λ now. completes id now text citations (some count)) id w
      (λ now r h. ground (arith, eq_refl id)) b

-- A part of a run that returns has ended the task; one that raises has not put it back.
pub Done : String → Attempt → Type 0
Done id (w, none) = TaskEnded id w.db
Done id (w, some e) = TaskBegun id w.db

ended-Done : (id : String) (w : World) → TaskEnded id w.db → Done id (w, none)
unfolding Done
ended-Done id w e = e

finish-Done :
    (env : Surroundings) (task : TaskRecord) (runnable : List Descriptor) (skipped : List Skipped)
    (a : World × Answer Gathered)
    → Held (TaskBegun task.id) a
    → Done task.id (finish_retrieval env task runnable skipped a)
unfolding finish_retrieval Done Held
finish-Done env task runnable skipped (w, raises e) b = b
finish-Done env task runnable skipped (w, value g) b =
    either (Done task.id) (has_any g.completed) _ _ (complete_task-TaskEnded env task.id _ _ 0 w b)
      (fail_task-TaskEnded env task.id _ w b)

runnable-Done :
    (env : Surroundings) (tools : Tools) (ctx : AuthorizationContext) (task : TaskRecord)
    (sources : List Descriptor) (skipped : List Skipped) (w : World)
    → TaskBegun task.id w.db
    → Done task.id (retrieve_runnable env tools ctx task sources skipped w)
unfolding retrieve_runnable Done Held
runnable-Done env tools ctx task [] skipped w b = fail_task-TaskEnded env task.id _ w b
runnable-Done env tools ctx task (s ∷ ss) skipped w b =
    finish-Done env task (s ∷ ss) skipped _
      (each-Held (TaskBegun task.id) (begun_kept task.id) env tools ctx task (s ∷ ss) _ b)

resolved-Done :
    (env : Surroundings) (tools : Tools) (ctx : AuthorizationContext) (task : TaskRecord)
    (sources : Sources) (w : World)
    → TaskBegun task.id w.db
    → Done task.id (retrieve_resolved env tools ctx task sources w)
unfolding retrieve_resolved Done append_running_event
resolved-Done env tools ctx task (permission_error m) w b = b
resolved-Done env tools ctx task (value_error m) w b = b
resolved-Done env tools ctx task (found ds) w b = runnable-Done env tools ctx task _ _ _ (
    note_skipped-Kept (TaskBegun task.id) (begun_kept task.id) env task.id _ _
      (perform-TaskBegun env _ task.id w b))

canvas_stored-Done :
    (env : Surroundings) (task : TaskRecord) (content : String) (stored : OutputCreated) (w : World)
    → TaskBegun task.id w.db
    → Done task.id (canvas_stored env task content stored w)
unfolding Done
canvas_stored-Done env task content none w b = b
canvas_stored-Done env task content (some s) w b =
    complete_task-TaskEnded env task.id content none 1 w b

canvas-Done :
    (env : Surroundings) (tools : Tools) (task : TaskRecord) (a : Answer String) (w : World)
    → TaskBegun task.id w.db
    → Done task.id (canvas_answered env tools task a w)
unfolding canvas_answered Done
canvas-Done env tools task (raises e) w b = b
canvas-Done env tools task (value content) w b =
    either (Done task.id) (str_eq content "") _ _ (fail_task-TaskEnded env task.id _ w b)
      (canvas_stored-Done env task content _ _ (perform-TaskBegun env _ task.id w b))

plan-Done :
    (env : Surroundings) (id : String) (a : Answer String) (w : World)
    → TaskBegun id w.db
    → Done id (plan_answered env id a w)
unfolding plan_answered Done
plan-Done env id (raises e) w b = b
plan-Done env id (value text) w b =
    either (Done id) (str_eq text "") _ _ (fail_task-TaskEnded env id _ w b)
      (complete_task-TaskEnded env id text none 0 w b)

research-Done :
    (env : Surroundings) (id : String) (ending : ResearchEnd) (w : World)
    → TaskBegun id w.db
    → Done id (research_ended env id ending w)
unfolding research_ended Done
research-Done env id (research_raises e) w b = b
research-Done env id no_runnable_sources w b = fail_task-TaskEnded env id _ w b
research-Done env id execution_failed w b = fail_task-TaskEnded env id _ w b
research-Done env id (researched text citations) w b = complete_task-TaskEnded env id text _ 0 w b

pub run_task-Done :
    (env : Surroundings) (tools : Tools) (ctx : AuthorizationContext) (task : TaskRecord)
    (w : World)
    → TaskBegun task.id w.db
    → Done task.id (run_task env tools ctx task.id task w)
unfolding run_task research_run execute_legacy_retrieval_task execute_canvas_task
run_task-Done env tools ctx task w b =
    either (Done task.id) _ _ _
      (either (Done task.id) _ _ _
        (research-Done env task.id _ _ (apply_all-TaskBegun _ task.id w.db b))
        (resolved-Done env tools ctx task _ w b))
      (either (Done task.id) _ _ _ (canvas-Done env tools task _ w b) (
        either (Done task.id) _ _ _ (plan-Done env task.id _ w b)
          (ended-Done task.id _ (fail_task-TaskEnded env task.id _ w b))))

pub handle_failure-TaskEnded :
    (env : Surroundings) (id : String) (task : TaskRecord) (a : Attempt)
    → Done id a
    → TaskEnded id (handle_failure env id task a).db
unfolding handle_failure Done
handle_failure-TaskEnded env id task (w, none) d = d
handle_failure-TaskEnded env id task (w, some e) d = fail_task-TaskEnded env id _ w d
