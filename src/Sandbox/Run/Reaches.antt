-- ===== src/Sandbox/Run/Reaches.antt =====
-- backend/services/code_sandbox_execution_service.py, execute_code_sandbox_execution: a run changes the
-- database by the calls of the repository alone.
use goat_ai.Prelude.{
  ℕ, ◌≡◌, refl, ap, ◌∙◌, inl, inr, String, Bool, true, false, Option, none, some, List, [], ◌∷◌,
  ◌++◌, if◌then◌else◌, str_eq, Bool-cases,
}
use goat_ai.Sandbox.Calls.{
  Call, starts, completes, fails, cancels, logs, apply, apply_all, get_execution,
  mark_execution_started,
}
use goat_ai.Sandbox.Run.{
  ProviderResult, ProviderEvent, Ending, exhausted, raised, Setting, Progress, log_chunk, result,
  log_clipped, log_text, handle, consume, fail_run, cancel_run, settle_without_result, log_rest,
  settle, conclude, run, request, launch, begin, execute_code_sandbox_execution, is_failure,
}
use goat_ai.Sandbox.{LogStreamName, out, err, ExecutionRecord, Database, is_terminal_status}

-- A history of calls leads from one database to another.
abbrev pub Reaches : Database → Database → Type 0
Reaches db db' = (calls : List Call) × (apply_all calls db ≡ db')

pub Reaches-refl : (db : Database) → Reaches db db
unfolding apply_all
Reaches-refl db = ([], refl)

pub one_call : (c : Call) (db : Database) → Reaches db (apply c db)
unfolding apply_all
one_call c db = (c ∷ [], refl)

apply_all-append :
    (calls more : List Call) (db : Database)
    → apply_all (calls ++ more) db ≡ apply_all more (apply_all calls db)
unfolding apply_all
apply_all-append [] more db = refl
apply_all-append (c ∷ calls) more db = apply_all-append calls more (apply c db)

pub Reaches-trans : (a : Database) {b c : Database} → Reaches a b → Reaches b c → Reaches a c
Reaches-trans a (calls, p) (more, q) =
    (calls ++ more, apply_all-append calls more a ∙ ap (apply_all more) p ∙ q)

-- Both branches of a test.
branch :
    (db : Database) (b : Bool) (x y : Database)
    → Reaches db x
    → Reaches db y
    → Reaches db (if b then x else y)
branch db true x y p q = p
branch db false x y p q = q

log_clipped-Reaches :
    (id : String) (a : ℕ) (name : LogStreamName) (clipped : Option String) (db : Database)
    → Reaches db (log_clipped id a name clipped db)
unfolding log_clipped apply
log_clipped-Reaches id a name none db = Reaches-refl db
log_clipped-Reaches id a name (some s) db =
    branch db (str_eq s "") _ _ (Reaches-refl db) (one_call (logs id a name s) db)

log_text-Reaches :
    (id : String) (a : ℕ) (name : LogStreamName) (s : String) (progress : Progress) (db : Database)
    → Reaches db (log_text id a name s progress db).0
unfolding log_text
log_text-Reaches id a out s progress db = log_clipped-Reaches id a out _ db
log_text-Reaches id a err s progress db = log_clipped-Reaches id a err _ db

handle-Reaches :
    (id : String) (event : ProviderEvent) (progress : Progress) (db : Database)
    → Reaches db (handle id event progress db).0
unfolding handle
handle-Reaches id (log_chunk name a s) progress db = log_text-Reaches id a name s progress db
handle-Reaches id (result r) progress db = Reaches-refl db

pub consume-Reaches :
    (id : String) (items : List (List Call × ProviderEvent)) (progress : Progress) (db : Database)
    → Reaches db (consume id items progress db).0
unfolding consume
consume-Reaches id [] progress db = Reaches-refl db
consume-Reaches id ((others, event) ∷ items) progress db =
    let before = apply_all others db in
    Reaches-trans db (others, refl)
      (Reaches-trans before (handle-Reaches id event progress before) (
        consume-Reaches id items (handle id event progress before).1
          (handle id event progress before).0))

pub log_rest-Reaches :
    (id : String) (a : ℕ) (name : LogStreamName) (s : String) (progress : Progress) (db : Database)
    → Reaches db (log_rest id a name s progress db).0
unfolding log_rest
log_rest-Reaches id a name s progress db = elim (Bool-cases (str_eq s "")) [
  | inl empty ↦ rw empty (Reaches-refl db)
  | inr full ↦ rw full (log_text-Reaches id a name s progress db)
]

settle_without_result-Reaches :
    (id : String) (setting : Setting) (detail : String) (progress : Progress) (db : Database)
    → Reaches db (settle_without_result id setting detail progress db)
unfolding settle_without_result fail_run cancel_run apply
settle_without_result-Reaches id setting detail progress db =
    branch db setting.cancel_last _ _ (one_call (cancels id _ _ _ _) db) (one_call (fails id _) db)

settle-Reaches :
    (id : String) (a : ℕ) (res : ProviderResult) (progress : Progress) (db : Database)
    → Reaches db (settle id a res progress db)
unfolding settle apply
settle-Reaches id a res progress db =
    branch db res.cancelled _ _ (one_call (cancels id _ _ _ _) db)
      (branch db (is_failure res) _ _ (one_call (fails id _) db) (one_call (completes id _) db))

conclude-Reaches :
    (id : String) (setting : Setting) (ending : Ending) (terminal : Option ProviderResult)
    (progress : Progress) (db : Database)
    → Reaches db (conclude id setting ending terminal progress db)
unfolding conclude
conclude-Reaches id setting raised terminal progress db =
    settle_without_result-Reaches id setting _ progress db
conclude-Reaches id setting exhausted none progress db =
    settle_without_result-Reaches id setting _ progress db
conclude-Reaches id setting exhausted (some res) progress db =
    Reaches-trans db (log_rest-Reaches id _ out res.stdout progress db)
      (Reaches-trans _ (log_rest-Reaches id _ err res.stderr _ _) (settle-Reaches id _ res _ _))

request-Reaches :
    (id : String) (setting : Setting) (found : Option ExecutionRecord) (db : Database)
    → Reaches db (request id setting found db)
unfolding request run
request-Reaches id setting none db = Reaches-refl db
request-Reaches id setting (some found) db =
    let stream = setting.run_stream found in
    Reaches-trans db (consume-Reaches id stream.items _ db)
      (Reaches-trans _ (stream.last_calls, refl) (conclude-Reaches id setting stream.ending _ _ _))

launch-Reaches :
    (id : String) (setting : Setting) (after : Database × Option ExecutionRecord)
    → Reaches after.0 (launch id setting after)
unfolding launch
launch-Reaches id setting (db, none) = Reaches-refl db
launch-Reaches id setting (db, some found) = request-Reaches id setting (get_execution id db) db

begin-Reaches :
    (id : String) (setting : Setting) (found : Option ExecutionRecord) (db : Database)
    → Reaches db (begin id setting found db)
unfolding begin cancel_run apply
begin-Reaches id setting none db = Reaches-refl db
begin-Reaches id setting (some found) db =
    branch db (is_terminal_status found.status) _ _ (Reaches-refl db) (
      branch db setting.cancel_first _ _ (one_call (cancels id _ _ _ _) db) (
        Reaches-trans db (one_call (starts id setting.started_at setting.provider_name) db) (
          launch-Reaches id setting
            (mark_execution_started id setting.started_at setting.provider_name db))))

-- A run, with what others do meanwhile, is a history of calls of the repository: all that holds of
-- every history holds of it.
pub execute-Reaches :
    (id : String) (setting : Setting) (db : Database)
    → Reaches db (execute_code_sandbox_execution id setting db)
unfolding execute_code_sandbox_execution
execute-Reaches id setting db = begin-Reaches id setting (get_execution id db) db
