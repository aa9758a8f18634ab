-- ===== src/Sandbox/Run/Ends.antt =====
-- backend/services/code_sandbox_execution_service.py, execute_code_sandbox_execution: what becomes of
-- the execution that is run.
use goat_ai.Prelude.{
  ℕ, ◌≡◌, refl, ap, subst, ◌⊎◌, inl, inr, String, Bool, true, false, Option, none, some, List, [],
  ◌∷◌, arith, if◌then◌else◌, eq_refl, Bool-cases,
}
use goat_ai.Prelude.Table.{fetch}
use goat_ai.Prelude.Table.Update.{update_where_hit, update_where_miss}
use goat_ai.Prelude.Sequence.{next_scoped_sequence}
use goat_ai.Prelude.Json.{str, obj, field, end}
use goat_ai.Sandbox.Store.{
  then_event, with_rows, append_execution_event, start_row, update_execution,
  mark_execution_started_in_transaction,
}
use goat_ai.Sandbox.Calls.{
  Call, starts, completes, fails, cancels, apply, apply_all, get_execution, row_to_execution,
  started, mark_execution_started,
}
use goat_ai.Sandbox.Effect.{effect, apply-fetch}
use goat_ai.Sandbox.Lifecycle.{effect-not_queued}
use goat_ai.Sandbox.Run.Reaches.{Reaches, consume-Reaches, log_rest-Reaches}
use goat_ai.Sandbox.Run.{
  ProviderResult, Ending, exhausted, raised, Stream, Setting, Progress, fail_run, cancel_run,
  settle_without_result, settle, conclude, run, request, launch, begin,
  execute_code_sandbox_execution, is_failure,
}
use goat_ai.Sandbox.{
  queued, running, out, err, Row, ExecutionRecord, Database, by_id, log_rows, is_queued,
  is_terminal_status,
}

-- The execution has left the queue.
abbrev pub Begun : String → Database → Type 0
Begun id db = (r : Row) × (fetch by_id id db.executions ≡ some r) × (is_queued r.status ≡ false)

abbrev pub Ended : String → Database → Type 0
Ended id db =
    (r : Row) × (fetch by_id id db.executions ≡ some r) × (is_terminal_status r.status ≡ true)

apply-Begun : (c : Call) (id : String) (db : Database) → Begun id db → Begun id (apply c db)
apply-Begun c id db (r, e, h) = (
  _,
  apply-fetch c id db r e,
  effect-not_queued c id (next_scoped_sequence log_rows id db.logs) r h,
)

pub apply_all-Begun :
    (calls : List Call) (id : String) (db : Database) → Begun id db → Begun id (apply_all calls db)
unfolding apply_all
apply_all-Begun [] id db b = b
apply_all-Begun (c ∷ calls) id db b = apply_all-Begun calls id (apply c db) (apply-Begun c id db b)

pub Reaches-Begun : (id : String) (db db' : Database) → Reaches db db' → Begun id db → Begun id db'
Reaches-Begun id db db' (calls, p) b = subst (Begun id) p (apply_all-Begun calls id db b)

-- A call that ends an execution, of one that is not queued, leaves it ended.
ends :
    (c : Call) (id : String) (db : Database) (r : Row)
    → fetch by_id id db.executions ≡ some r
    → is_terminal_status (effect c id (next_scoped_sequence log_rows id db.logs) r).status ≡ true
    → Ended id (apply c db)
ends c id db r e h = (_, apply-fetch c id db r e, h)

cancel_run-Ended :
    (id : String) (a : ℕ) (detail : String) (db : Database)
    → (r : Row) → fetch by_id id db.executions ≡ some r
    → Ended id (cancel_run id a detail db)
unfolding cancel_run apply
cancel_run-Ended id a detail db r e =
    ends (cancels id a a detail (some [])) id db r e (ground (arith, eq_refl id))

settle_without_result-Ended :
    (id : String) (setting : Setting) (detail : String) (progress : Progress) (db : Database)
    → Begun id db
    → Ended id (settle_without_result id setting detail progress db)
unfolding settle_without_result fail_run apply
settle_without_result-Ended id setting detail progress db (r, e, h) =
    elim (Bool-cases setting.cancel_last) [
      | inl cancel ↦ rw cancel (cancel_run-Ended id setting.ended_at _ db r e)
      | inr go_on ↦ rw go_on (ends (fails id _) id db r e (ground (arith, eq_refl id)))
    ]

settle-Ended :
    (id : String) (a : ℕ) (res : ProviderResult) (progress : Progress) (db : Database)
    → Begun id db
    → Ended id (settle id a res progress db)
unfolding settle apply
settle-Ended id a res progress db (r, e, h) = elim (Bool-cases res.cancelled) [
  | inl cancel ↦ rw cancel (ends (cancels id a a _ _) id db r e (ground (arith, eq_refl id)))
  | inr went_on ↦ elim (Bool-cases (is_failure res)) [
    | inl bad ↦ rw (went_on, bad) (ends (fails id _) id db r e (ground (arith, eq_refl id)))
    | inr good ↦ rw (went_on, good) (ends (completes id _) id db r e (ground (arith, eq_refl id)))
  ]
]

conclude-Ended :
    (id : String) (setting : Setting) (ending : Ending) (terminal : Option ProviderResult)
    (progress : Progress) (db : Database)
    → Begun id db
    → Ended id (conclude id setting ending terminal progress db)
unfolding conclude
conclude-Ended id setting raised terminal progress db b =
    settle_without_result-Ended id setting _ progress db b
conclude-Ended id setting exhausted none progress db b =
    settle_without_result-Ended id setting _ progress db b
conclude-Ended id setting exhausted (some res) progress db b = settle-Ended id _ res _ _ (
    Reaches-Begun id _ _ (log_rest-Reaches id _ err res.stderr _ _)
      (Reaches-Begun id db _ (log_rest-Reaches id _ out res.stdout progress db) b))

run-Ended :
    (id : String) (setting : Setting) (stream : Stream) (db : Database)
    → Begun id db
    → Ended id (run id setting stream db)
unfolding run
run-Ended id setting stream db b = conclude-Ended id setting stream.ending _ _ _ (
    apply_all-Begun stream.last_calls id _
      (Reaches-Begun id db _ (consume-Reaches id stream.items _ db) b))

pub get_execution-found :
    (id : String) (db : Database) (r : Row)
    → fetch by_id id db.executions ≡ some r
    → get_execution id db ≡ some (row_to_execution r)
unfolding get_execution
get_execution-found id db r e = rw e

request-Ended :
    (id : String) (setting : Setting) (db : Database)
    → Begun id db
    → Ended id (request id setting (get_execution id db) db)
unfolding request
request-Ended id setting db (r, e, h) =
    rw (get_execution-found id db r e) (run-Ended id setting _ db (r, e, h))

started-some :
    (db : Database) (id : String) (updated : Option Database) (db' : Database)
    → updated ≡ some db'
    → started db id updated
      ≡ ((started db id updated).0, get_execution id (started db id updated).0)
unfolding started
started-some db id none db' e = cc
started-some db id (some db'') db' e = refl

mark_execution_started-hit :
    (id : String) (a : ℕ) (provider_name : String) (db : Database) (r : Row)
    → fetch by_id id db.executions ≡ some r
    → is_queued r.status ≡ true
    → let db' = apply (starts id a provider_name) db in
      mark_execution_started id a provider_name db ≡ (db', get_execution id db')
unfolding apply mark_execution_started mark_execution_started_in_transaction update_execution
mark_execution_started-hit id a provider_name db r e h =
    let hit =
      update_where_hit by_id id (λ v. is_queued v.status) (start_row a provider_name) db.executions
        r e h in
    started-some db id (mark_execution_started_in_transaction id a provider_name db) _ (
      ap
        (λ rows. then_event (with_rows db rows) (
          append_execution_event id "execution.started" a (some running) (some "Execution started.")
            (some (obj (field "provider_name" (str provider_name) end)))))
        hit)

launch-some :
    (id : String) (setting : Setting) (db : Database) (found : Option ExecutionRecord)
    (started_record : ExecutionRecord)
    → found ≡ some started_record
    → launch id setting (db, found) ≡ request id setting (get_execution id db) db
unfolding launch
launch-some id setting db found started_record e = rw e

launch-Ended :
    (id : String) (a : ℕ) (provider_name : String) (setting : Setting) (db : Database) (r : Row)
    → fetch by_id id db.executions ≡ some r
    → is_queued r.status ≡ true
    → Ended id (launch id setting (mark_execution_started id a provider_name db))
launch-Ended id a provider_name setting db r e h =
    let db' = apply (starts id a provider_name) db in
    let found = apply-fetch (starts id a provider_name) id db r e in
    let next = effect (starts id a provider_name) id (next_scoped_sequence log_rows id db.logs) r in
    let left : is_queued next.status ≡ false = ground (arith, eq_refl id) in
    rw (mark_execution_started-hit id a provider_name db r e h) (
      rw
        (launch-some id setting db' (get_execution id db') _
          (get_execution-found id db' next found))
        (request-Ended id setting db' (next, found, left)))

launch_refused :
    (id : String) (a : ℕ) (provider_name : String) (setting : Setting) (db : Database) (r : Row)
    → fetch by_id id db.executions ≡ some r
    → is_queued r.status ≡ false
    → launch id setting (mark_execution_started id a provider_name db) ≡ db
unfolding launch mark_execution_started started mark_execution_started_in_transaction
    update_execution
launch_refused id a provider_name setting db r e h = rw (
    update_where_miss by_id id (λ v. is_queued v.status) (start_row a provider_name) db.executions r
      e h)

-- What holds of both branches of a test, each under its answer.
either :
    (P : Database → Type 0) (b : Bool) (x y : Database)
    → (b ≡ true → P x)
    → (b ≡ false → P y)
    → P (if b then x else y)
either P true x y f g = f refl
either P false x y f g = g refl

-- An execution that is queued when it is run has ended when the run returns: whether cancellation
-- was requested before or during the run, whatever the provider sends, with a result, without one, or
-- broken off by an exception, and whatever calls others make while the provider works.
pub execute-Ended :
    (id : String) (setting : Setting) (db : Database) (r : Row)
    → fetch by_id id db.executions ≡ some r
    → r.status ≡ queued
    → Ended id (execute_code_sandbox_execution id setting db)
unfolding execute_code_sandbox_execution begin row_to_execution
execute-Ended id setting db r e h =
    let waits : is_queued r.status ≡ true = rw h in
    let going : is_terminal_status r.status ≡ false = rw h in
    rw (get_execution-found id db r e) (
      rw going (
        either (Ended id) setting.cancel_first _ _
          (λ cancel. cancel_run-Ended id setting.cancelled_at _ db r e)
          (λ go_on. launch-Ended id setting.started_at setting.provider_name setting db r e waits)))

-- A run of an execution that has ended, or that is running and not to be cancelled, changes nothing.
pub execute_unqueued :
    (id : String) (setting : Setting) (db : Database) (r : Row)
    → fetch by_id id db.executions ≡ some r
    → (is_terminal_status r.status ≡ true) ⊎ ((r.status ≡ running) × (setting.cancel_first ≡ false))
    → execute_code_sandbox_execution id setting db ≡ db
unfolding execute_code_sandbox_execution begin row_to_execution
execute_unqueued id setting db r e (inl over) = rw (get_execution-found id db r e) (rw over)
execute_unqueued id setting db r e (inr (h, keep)) =
    let going : is_terminal_status r.status ≡ false = rw h in
    let left : is_queued r.status ≡ false = rw h in
    rw (get_execution-found id db r e) (
      rw going (
        either (λ after. after ≡ db) setting.cancel_first _ _ (λ cancel. cc)
          (λ go_on.
            launch_refused id setting.started_at setting.provider_name setting db r e left)))
