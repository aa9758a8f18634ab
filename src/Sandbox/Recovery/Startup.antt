-- ===== src/Sandbox/Recovery/Startup.antt =====
-- backend/services/code_sandbox_execution_service.py: what recovery at start-up leaves.
use goat_ai.Prelude.{
  ℕ, ◌≡◌, refl, ◌∙◌, subst, ◌⊎◌, inl, inr, String, true, false, Option, none, some, List, [], ◌∷◌,
  arith, if◌then◌else◌, member, str_eq, eq_iff, eq_refl, Bool-cases, ◌&&◌,
}
use goat_ai.Prelude.Table.{fetch}
use goat_ai.Sandbox.Store.{Outcome, finish_row}
use goat_ai.Sandbox.Calls.{
  row_to_execution, Call, notes, fails, apply, apply_all, get_execution,
  list_execution_ids_by_status,
}
use goat_ai.Sandbox.Calls.Listed.{listed-member}
use goat_ai.Sandbox.Effect.{apply-fetch}
use goat_ai.Sandbox.Run.{Setting, execute_code_sandbox_execution}
use goat_ai.Sandbox.Run.Reaches.{execute-Reaches}
use goat_ai.Sandbox.Run.Ends.{Begun, Reaches-Begun, get_execution-found, execute-Ended}
use goat_ai.Sandbox.Recovery.{
  unsupervised, recover_each, recover_queued_code_sandbox_executions, reap_record, reap_found,
  reap_each, reap_abandoned_running_code_sandbox_executions,
}
use goat_ai.Sandbox.{
  Status, queued, running, failed, ExecutionRecord, Row, Database, by_id, is_queued, is_running,
  is_open, is_terminal_status,
}

-- The execution is stored.
abbrev Stored : String → Database → Type 0
Stored id db = (r : Row) × (fetch by_id id db.executions ≡ some r)

apply_all-Stored :
    (calls : List Call) (id : String) (db : Database)
    → Stored id db
    → Stored id (apply_all calls db)
unfolding apply_all
apply_all-Stored [] id db s = s
apply_all-Stored (c ∷ calls) id db (r, e) =
    apply_all-Stored calls id (apply c db) (_, apply-fetch c id db r e)

execute-Stored :
    (id j : String) (setting : Setting) (db : Database)
    → Stored id db
    → Stored id (execute_code_sandbox_execution j setting db)
execute-Stored id j setting db s =
    let (calls, p) = execute-Reaches j setting db in
    subst (Stored id) p (apply_all-Stored calls id db s)

recover_each-Begun :
    (ids : List String) (settings : String → Setting) (id : String) (db : Database)
    → Begun id db
    → Begun id (recover_each settings ids db)
unfolding recover_each
recover_each-Begun [] settings id db b = b
recover_each-Begun (j ∷ ids) settings id db b =
    recover_each-Begun ids settings id _
      (Reaches-Begun id db _ (execute-Reaches j (unsupervised (settings j)) db) b)

is_queued-queued : (s : Status) → is_queued s ≡ true → s ≡ queued
is_queued-queued queued h = refl
is_queued-queued _ h = cc

ended_left : (s : Status) → is_terminal_status s ≡ true → is_queued s ≡ false
ended_left queued h = cc
ended_left _ h = refl

execute-Begun :
    (id : String) (setting : Setting) (db : Database)
    → Stored id db
    → Begun id (execute_code_sandbox_execution id setting db)
execute-Begun id setting db (r, e) = elim (Bool-cases (is_queued r.status)) [
  | inl waits ↦
      let (r', e', over) = execute-Ended id setting db r e (is_queued-queued r.status waits) in
      (r', e', ended_left r'.status over)
  | inr left ↦ Reaches-Begun id db _ (execute-Reaches id setting db) (r, e, left)
]

recover_each-member :
    (ids : List String) (settings : String → Setting) (id : String) (db : Database)
    → Stored id db
    → member id ids ≡ true
    → Begun id (recover_each settings ids db)
unfolding recover_each
recover_each-member [] settings id db s h = cc
recover_each-member (j ∷ ids) settings id db s h = elim (Bool-cases (str_eq id j)) [
  | inl mine ↦ recover_each-Begun ids settings id _ (
      subst (λ i. Begun id (execute_code_sandbox_execution i (unsupervised (settings i)) db))
        ((eq_iff id j).0 mine) (execute-Begun id (unsupervised (settings id)) db s))
  | inr other ↦
      recover_each-member ids settings id _ (execute-Stored id j (unsupervised (settings j)) db s)
        (ground arith)
]

-- Recovery leaves no execution in the queue that was there when it began, whatever the providers do
-- and whatever calls others make meanwhile.
pub recover-Begun :
    (settings : String → Setting) (id : String) (db : Database) (r : Row)
    → fetch by_id id db.executions ≡ some r
    → is_queued r.status ≡ true
    → Begun id (recover_queued_code_sandbox_executions settings db).0
unfolding recover_queued_code_sandbox_executions
recover-Begun settings id db r e h =
    recover_each-member (list_execution_ids_by_status is_queued db) settings id db (r, e)
      (listed-member id is_queued db r e h)

-- One execution is reaped by an event and a failure.
reap_found-row :
    (now : ℕ) (id j : String) (found : ExecutionRecord) (db : Database) (r : Row)
    → fetch by_id id db.executions ≡ some r
    → (o : Outcome) × (fetch by_id id (reap_found now j (some found) db).executions
        ≡ some (if str_eq id j && is_open r.status then finish_row failed o r else r))
unfolding reap_found reap_record apply
reap_found-row now id j found db r e = (
  _,
  apply-fetch (fails j _) id _ r
      (apply-fetch (notes j "execution.recovered_after_restart" now (some running) _ _) id db r e),
)

-- The rows of other executions, and of one that has ended, stay.
reap_found-other :
    (now : ℕ) (id j : String) (found : Option ExecutionRecord) (db : Database) (r : Row)
    → fetch by_id id db.executions ≡ some r
    → (str_eq id j ≡ false) ⊎ (is_open r.status ≡ false)
    → fetch by_id id (reap_found now j found db).executions ≡ some r
unfolding reap_found
reap_found-other now id j none db r e h = e
reap_found-other now id j (some found) db r e h =
    let (o, row) = reap_found-row now id j found db r e in row ∙ ground arith

reap_each-ended :
    (now : ℕ) (ids : List String) (id : String) (db : Database) (r : Row)
    → fetch by_id id db.executions ≡ some r
    → is_open r.status ≡ false
    → fetch by_id id (reap_each now ids db).0.executions ≡ some r
unfolding reap_each
reap_each-ended now [] id db r e h = e
reap_each-ended now (j ∷ ids) id db r e h =
    reap_each-ended now ids id _ r (reap_found-other now id j _ db r e (inr h)) h

reap_found-failed :
    (now : ℕ) (id : String) (db : Database) (r : Row)
    → fetch by_id id db.executions ≡ some r
    → is_open r.status ≡ true
    → (o : Outcome) × (fetch by_id id (reap_found now id (get_execution id db) db).executions
        ≡ some (finish_row failed o r))
reap_found-failed now id db r e h =
    let (o, row) = reap_found-row now id id (row_to_execution r) db r e in
    (o, rw (get_execution-found id db r e) (row ∙ rw (eq_refl id, h)))

reap_each-failed :
    (now : ℕ) (ids : List String) (id : String) (db : Database) (r : Row)
    → fetch by_id id db.executions ≡ some r
    → is_open r.status ≡ true
    → member id ids ≡ true
    → (o : Outcome) × (fetch by_id id (reap_each now ids db).0.executions
        ≡ some (finish_row failed o r))
unfolding reap_each
reap_each-failed now [] id db r e h m = cc
reap_each-failed now (j ∷ ids) id db r e h m = elim (Bool-cases (str_eq id j)) [
  | inl mine ↦
      let (o, row) = reap_found-failed now id db r e h in
      (
        o,
        reap_each-ended now ids id _ _
            (subst
              (λ i.
                fetch by_id id (reap_found now i (get_execution i db) db).executions
                ≡ some (finish_row failed o r))
              ((eq_iff id j).0 mine) row)
            refl,
      )
  | inr other ↦
      reap_each-failed now ids id _ r (reap_found-other now id j _ db r e (inl other)) h
        (ground arith)
]

-- Reaping fails every execution that is running, and keeps the row of every one that has ended.
pub reap-settles :
    (now : ℕ) (id : String) (db : Database) (r : Row)
    → fetch by_id id db.executions ≡ some r
    → let after = (reap_abandoned_running_code_sandbox_executions now db).0 in
      (r.status ≡ running
        → (o : Outcome) × (fetch by_id id after.executions ≡ some (finish_row failed o r)))
      × (is_terminal_status r.status ≡ true → fetch by_id id after.executions ≡ some r)
unfolding reap_abandoned_running_code_sandbox_executions
reap-settles now id db r e =
    let ids = list_execution_ids_by_status is_running db in
    (
      λ h. reap_each-failed now ids id db r e (rw h) (listed-member id is_running db r e (rw h)),
      λ h. reap_each-ended now ids id db r e (ground arith),
    )
