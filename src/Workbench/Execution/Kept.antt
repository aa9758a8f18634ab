-- ===== src/Workbench/Execution/Kept.antt =====
-- backend/services/workbench_execution_service.py: a run changes the database by calls of the
-- repository alone, so it keeps what every call keeps.
use goat_ai.Prelude.{
  ℕ, ◌≡◌, refl, ap, ◌∙◌, String, Bool, true, false, Option, none, some, List, [], ◌∷◌, ◌++◌,
  if◌then◌else◌, str_eq,
}
use goat_ai.Prelude.Json.{Json}
use goat_ai.Authz.{AuthorizationContext}
use goat_ai.Workbench.Calls.{Call, claims, apply, apply_all, OutputCreated}
use goat_ai.Workbench.Sources.{Descriptor, Sources, found, permission_error, value_error, has_any}
use goat_ai.Workbench.Runs.{
  Answer, value, raises, SearchResponse, WebAnswer, web_hits, web_search_error, web_raises,
  ResearchEnd, researched, no_runnable_sources, execution_failed, research_raises, Tools,
  Surroundings, World, Attempt, perform, append_running_event, fail_task, complete_task,
}
use goat_ai.Workbench.Retrieval.{Skipped, Gathered, knowledge_answered, web_answered}
use goat_ai.Workbench.Retrieval.Steps.{
  note_skipped, retrieve_source, retrieve_each, finish_retrieval, retrieve_runnable,
  retrieve_resolved, execute_legacy_retrieval_task,
}
use goat_ai.Workbench.PlanCanvas.{
  plan_answered, canvas_stored, canvas_answered, execute_canvas_task,
}
use goat_ai.Workbench.Execution.{
  build_execution_auth_context, research_ended, research_run, run_task, handle_failure, run_claimed,
  execute_workbench_task, interrupt_each, replay_each,
}
use goat_ai.Workbench.{TaskRecord, Database}

-- What holds of both branches of a test.
pub either : {A : Type 0} (Q : A → Type 0) (b : Bool) (x y : A) → Q x → Q y → Q (if b then x else y)
either Q true x y p q = p
either Q false x y p q = q

-- A property of the database that a part of a run leaves.
unfoldable pub Held : (Database → Type 0) → {A : Type 0} → World × A → Type 0
Held P a = P a.0.db

module _ (P : Database → Type 0) (keep : (c : Call) (db : Database) → P db → P (apply c db)) where
  pub apply_all-Kept : (calls : List Call) (db : Database) → P db → P (apply_all calls db)
  unfolding apply_all
  apply_all-Kept [] db p = p
  apply_all-Kept (c ∷ calls) db p = apply_all-Kept calls (apply c db) (keep c db p)

  pub perform-Kept :
      (env : Surroundings) (c : ℕ → Call) (w : World) → P w.db → P (perform env c w).db
  unfolding perform
  perform-Kept env c w p =
      keep (c (env.clock w.readings)) _ (apply_all-Kept (env.others w.readings) w.db p)

  event-Kept :
      (env : Surroundings) (id kind message : String) (metadata : Json) (w : World)
      → P w.db
      → P (append_running_event env id kind message metadata w).db
  unfolding append_running_event
  event-Kept env id kind message metadata w p = perform-Kept env _ w p

  fail_task-Kept :
      (env : Surroundings) (id detail : String) (w : World)
      → P w.db
      → P (fail_task env id detail w).db
  unfolding fail_task
  fail_task-Kept env id detail w p = perform-Kept env _ w p

  complete_task-Kept :
      (env : Surroundings) (id text : String) (citations : Option (List Json)) (count : ℕ)
      (w : World)
      → P w.db
      → P (complete_task env id text citations count w).db
  unfolding complete_task
  complete_task-Kept env id text citations count w p = perform-Kept env _ w p

  pub note_skipped-Kept :
      (env : Surroundings) (id : String) (skipped : List Skipped) (w : World)
      → P w.db
      → P (note_skipped env id skipped w).db
  unfolding note_skipped
  note_skipped-Kept env id [] w p = p
  note_skipped-Kept env id (s ∷ ss) w p =
      note_skipped-Kept env id ss _ (event-Kept env id _ _ _ w p)

  knowledge-Held :
      (env : Surroundings) (task : TaskRecord) (g : Gathered) (a : Answer SearchResponse)
      (w : World)
      → P w.db
      → Held P (knowledge_answered env task g a w)
  unfolding knowledge_answered Held
  knowledge-Held env task g (raises e) w p = p
  knowledge-Held env task g (value response) w p = event-Kept env task.id _ _ _ w p

  web-Held :
      (env : Surroundings) (tools : Tools) (task : TaskRecord) (g : Gathered) (a : WebAnswer)
      (w : World)
      → P w.db
      → Held P (web_answered env tools task g a w)
  unfolding web_answered Held
  web-Held env tools task g (web_raises e) w p = p
  web-Held env tools task g web_search_error w p = event-Kept env task.id _ _ _ w p
  web-Held env tools task g (web_hits hits) w p = event-Kept env task.id _ _ _ w p

  pair-Held : {A : Type 0} (w : World) (a : A) → P w.db → Held P (w, a)
  unfolding Held
  pair-Held w a p = p

  source-Held :
      (env : Surroundings) (tools : Tools) (ctx : AuthorizationContext) (task : TaskRecord)
      (g : Gathered) (source : Descriptor) (w : World)
      → P w.db
      → Held P (retrieve_source env tools ctx task g source w)
  unfolding retrieve_source
  source-Held env tools ctx task g source w p =
      either (Held P) (str_eq source.source_id "knowledge") _ _ (knowledge-Held env task g _ w p) (
        either (Held P) (str_eq source.source_id "web") _ _ (web-Held env tools task g _ w p)
          (pair-Held _ _ (event-Kept env task.id _ _ _ w p)))

  pub each-Held :
      (env : Surroundings) (tools : Tools) (ctx : AuthorizationContext) (task : TaskRecord)
      (sources : List Descriptor) (a : World × Answer Gathered)
      → Held P a
      → Held P (retrieve_each env tools ctx task sources a)
  unfolding retrieve_each Held
  each-Held env tools ctx task [] (w, raises e) p = p
  each-Held env tools ctx task (s ∷ ss) (w, raises e) p = p
  each-Held env tools ctx task [] (w, value g) p = p
  each-Held env tools ctx task (s ∷ ss) (w, value g) p =
      each-Held env tools ctx task ss _ (source-Held env tools ctx task g s w p)

  finish-Held :
      (env : Surroundings) (task : TaskRecord) (runnable : List Descriptor) (skipped : List Skipped)
      (a : World × Answer Gathered)
      → Held P a
      → Held P (finish_retrieval env task runnable skipped a)
  unfolding finish_retrieval Held
  finish-Held env task runnable skipped (w, raises e) p = p
  finish-Held env task runnable skipped (w, value g) p =
      either (Held P) (has_any g.completed) _ _ (complete_task-Kept env task.id _ _ 0 w p)
        (fail_task-Kept env task.id _ w p)

  runnable-Held :
      (env : Surroundings) (tools : Tools) (ctx : AuthorizationContext) (task : TaskRecord)
      (sources : List Descriptor) (skipped : List Skipped) (w : World)
      → P w.db
      → Held P (retrieve_runnable env tools ctx task sources skipped w)
  unfolding retrieve_runnable
  runnable-Held env tools ctx task [] skipped w p = pair-Held _ _ (fail_task-Kept env task.id _ w p)
  runnable-Held env tools ctx task (s ∷ ss) skipped w p =
      finish-Held env task (s ∷ ss) skipped _
        (each-Held env tools ctx task (s ∷ ss) _ (pair-Held _ _ p))

  retrieval-Held :
      (env : Surroundings) (tools : Tools) (ctx : AuthorizationContext) (task : TaskRecord)
      (sources : Sources) (w : World)
      → P w.db
      → Held P (retrieve_resolved env tools ctx task sources w)
  unfolding retrieve_resolved
  retrieval-Held env tools ctx task (permission_error m) w p = pair-Held _ _ p
  retrieval-Held env tools ctx task (value_error m) w p = pair-Held _ _ p
  retrieval-Held env tools ctx task (found ds) w p =
      runnable-Held env tools ctx task _ _ _
        (note_skipped-Kept env task.id _ _ (event-Kept env task.id _ _ _ w p))

  canvas_stored-Held :
      (env : Surroundings) (task : TaskRecord) (content : String) (stored : OutputCreated)
      (w : World)
      → P w.db
      → Held P (canvas_stored env task content stored w)
  unfolding Held
  canvas_stored-Held env task content none w p = p
  canvas_stored-Held env task content (some s) w p =
      complete_task-Kept env task.id content none 1 w p

  canvas-Held :
      (env : Surroundings) (tools : Tools) (task : TaskRecord) (a : Answer String) (w : World)
      → P w.db
      → Held P (canvas_answered env tools task a w)
  unfolding canvas_answered
  canvas-Held env tools task (raises e) w p = pair-Held _ _ p
  canvas-Held env tools task (value content) w p =
      either (Held P) (str_eq content "") _ _ (pair-Held _ _ (fail_task-Kept env task.id _ w p))
        (canvas_stored-Held env task content _ _ (perform-Kept env _ w p))

  plan-Held :
      (env : Surroundings) (id : String) (a : Answer String) (w : World)
      → P w.db
      → Held P (plan_answered env id a w)
  unfolding plan_answered
  plan-Held env id (raises e) w p = pair-Held _ _ p
  plan-Held env id (value text) w p =
      either (Held P) (str_eq text "") _ _ (pair-Held _ _ (fail_task-Kept env id _ w p))
        (pair-Held _ _ (complete_task-Kept env id text none 0 w p))

  research-Held :
      (env : Surroundings) (id : String) (ending : ResearchEnd) (w : World)
      → P w.db
      → Held P (research_ended env id ending w)
  unfolding research_ended Held
  research-Held env id (research_raises e) w p = p
  research-Held env id no_runnable_sources w p = fail_task-Kept env id _ w p
  research-Held env id execution_failed w p = fail_task-Kept env id _ w p
  research-Held env id (researched text citations) w p = complete_task-Kept env id text _ 0 w p

  run_task-Held :
      (env : Surroundings) (tools : Tools) (ctx : AuthorizationContext) (id : String)
      (task : TaskRecord) (w : World)
      → P w.db
      → Held P (run_task env tools ctx id task w)
  unfolding run_task research_run execute_legacy_retrieval_task execute_canvas_task
  run_task-Held env tools ctx id task w p =
      either (Held P) _ _ _
        (either (Held P) _ _ _
          (research-Held env id _ _ (apply_all-Kept (tools.research task w.db).calls w.db p))
          (retrieval-Held env tools ctx task _ w p))
        (either (Held P) _ _ _ (canvas-Held env tools task _ w p) (
          either (Held P) _ _ _ (plan-Held env id _ w p)
            (pair-Held _ _ (fail_task-Kept env id _ w p))))

  handle_failure-Kept :
      (env : Surroundings) (id : String) (task : TaskRecord) (a : Attempt)
      → Held P a
      → P (handle_failure env id task a).db
  unfolding handle_failure Held
  handle_failure-Kept env id task (w, none) p = p
  handle_failure-Kept env id task (w, some e) p = fail_task-Kept env id _ w p

  run_claimed-Kept :
      (env : Surroundings) (tools : Tools) (id : String) (claimed : Option TaskRecord) (w : World)
      → P w.db
      → P (run_claimed env tools id claimed w).db
  unfolding run_claimed
  run_claimed-Kept env tools id none w p = p
  run_claimed-Kept env tools id (some task) w p =
      handle_failure-Kept env id task _
        (run_task-Held env tools (build_execution_auth_context task) id task w p)

  -- What holds after the calls that others make before the claim.
  pub execute_after-Kept :
      (env : Surroundings) (tools : Tools) (id : String) (w : World)
      → P (apply_all (env.others w.readings) w.db)
      → P (execute_workbench_task env tools id w).db
  unfolding execute_workbench_task apply
  execute_after-Kept env tools id w p =
      run_claimed-Kept env tools id _ _ (keep (claims id (env.clock w.readings)) _ p)

  pub execute-Kept :
      (env : Surroundings) (tools : Tools) (id : String) (w : World)
      → P w.db
      → P (execute_workbench_task env tools id w).db
  execute-Kept env tools id w p =
      execute_after-Kept env tools id w (apply_all-Kept (env.others w.readings) w.db p)

  pub interrupt_each-Kept :
      (env : Surroundings) (ids : List String) (w : World)
      → P w.db
      → P (interrupt_each env ids w).db
  unfolding interrupt_each
  interrupt_each-Kept env [] w p = p
  interrupt_each-Kept env (id ∷ ids) w p =
      interrupt_each-Kept env ids _ (fail_task-Kept env id _ w p)

  pub replay_each-Kept :
      (env : Surroundings) (tools : Tools) (ids : List String) (w : World)
      → P w.db
      → P (replay_each env tools ids w).db
  unfolding replay_each
  replay_each-Kept env tools [] w p = p
  replay_each-Kept env tools (id ∷ ids) w p =
      replay_each-Kept env tools ids _ (execute-Kept env tools id w p)

-- A history of calls leads from one database to another.
abbrev pub TaskCalls : Database → Database → Type 0
TaskCalls db db' = (calls : List Call) × (apply_all calls db ≡ db')

apply_all-last :
    (calls : List Call) (c : Call) (db : Database)
    → apply_all (calls ++ c ∷ []) db ≡ apply c (apply_all calls db)
unfolding apply_all
apply_all-last [] c db = refl
apply_all-last (d ∷ calls) c db = apply_all-last calls c (apply d db)

-- A run of a task, with what others do meanwhile, is a history of calls of the repository: all that
-- holds of every history holds of it.
pub execute-TaskCalls :
    (env : Surroundings) (tools : Tools) (id : String) (w : World)
    → TaskCalls w.db (execute_workbench_task env tools id w).db
unfolding apply_all
execute-TaskCalls env tools id w =
    execute-Kept (TaskCalls w.db)
      (λ c db reached.
        (reached.0 ++ c ∷ [], apply_all-last reached.0 c w.db ∙ ap (apply c) reached.1))
      env tools id w ([], refl)
