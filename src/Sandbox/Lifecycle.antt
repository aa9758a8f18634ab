-- ===== src/Sandbox/Lifecycle.antt =====
-- backend/services/code_sandbox_execution_store.py: the states of an execution, under any history of
-- calls to the repository.
use goat_ai.Prelude.{
  ℕ, suc, ◌≤◌, ◌≡◌, refl, ◌∙◌, inl, inr, String, Bool, true, false, ◌&&◌, Option, none, some, List,
  [], ◌∷◌, arith, if◌then◌else◌, str_eq, eq_iff, Bool-cases, &&_iff,
}
use goat_ai.Prelude.Table.{fetch}
use goat_ai.Prelude.Table.Update.{update_where_cases}
use goat_ai.Prelude.Sequence.{next_scoped_sequence}
use goat_ai.Sandbox.Store.{start_row, update_execution, mark_execution_started_in_transaction}
use goat_ai.Sandbox.Calls.{
  Call, creates, starts, completes, fails, denies, cancels, notes, logs, apply, apply_all,
  mark_execution_started, started,
}
use goat_ai.Sandbox.Effect.{effect, apply-fetch}
use goat_ai.Sandbox.{
  Status, queued, running, completed, failed, denied, cancelled, out, err, Row, Database, by_id,
  log_rows, is_queued, is_open, is_terminal_status,
}

-- The transitions of an execution.
pub data Moves (s t : Status) : Type 0 where
  stay : t ≡ s → Moves s t
  start : s ≡ queued → t ≡ running → Moves s t
  complete : s ≡ running → t ≡ completed → Moves s t
  fail : is_open s ≡ true → t ≡ failed → Moves s t
  deny : s ≡ queued → t ≡ denied → Moves s t
  cancel : is_open s ≡ true → t ≡ cancelled → Moves s t

effect-Moves : (c : Call) (id : String) (n : ℕ) (r : Row) → Moves r.status (effect c id n r).status
effect-Moves (creates payload) id n r = stay refl
effect-Moves (starts j u p) id n r = grind (arith, stay, start)
effect-Moves (completes j o) id n r = grind (arith, stay, complete)
effect-Moves (fails j o) id n r = grind (arith, stay, fail)
effect-Moves (denies j u f d) id n r = grind (arith, stay, deny)
effect-Moves (cancels j u f d o) id n r = grind (arith, stay, cancel)
effect-Moves (notes j e a s m d) id n r = stay refl
effect-Moves (logs j a out t) id n r = stay (ground arith)
effect-Moves (logs j a err t) id n r = stay (ground arith)

-- No call loses an execution, and each keeps its status or makes one of the transitions: started from
-- queued; completed from running; failed or cancelled from queued or running; denied from queued.
pub apply-Moves :
    (c : Call) (id : String) (db : Database) (r : Row)
    → fetch by_id id db.executions ≡ some r
    → (r' : Row) × (fetch by_id id (apply c db).executions ≡ some r') × Moves r.status r'.status
apply-Moves c id db r e =
    (_, apply-fetch c id db r e, effect-Moves c id (next_scoped_sequence log_rows id db.logs) r)

-- What the end of an execution has settled.
pub record Settled (r r' : Row) : Type 0 where
  pub status : r'.status ≡ r.status
  pub started_at : r'.started_at ≡ r.started_at
  pub finished_at : r'.finished_at ≡ r.finished_at
  pub exit_code : r'.exit_code ≡ r.exit_code
  pub timed_out : r'.timed_out ≡ r.timed_out
  pub error_detail : r'.error_detail ≡ r.error_detail
  pub output_files : r'.output_files ≡ r.output_files

effect-Settled :
    (c : Call) (id : String) (n : ℕ) (r : Row)
    → is_terminal_status r.status ≡ true
    → Settled r (effect c id n r)
effect-Settled (logs j a out t) id n r h = ground arith
effect-Settled (logs j a err t) id n r h = ground arith
effect-Settled _ id n r h = ground arith

Settled-trans : {r s t : Row} → Settled r s → Settled s t → Settled r t
Settled-trans a b = record {
  status = b.status ∙ a.status;
  started_at = b.started_at ∙ a.started_at;
  finished_at = b.finished_at ∙ a.finished_at;
  exit_code = b.exit_code ∙ a.exit_code;
  timed_out = b.timed_out ∙ a.timed_out;
  error_detail = b.error_detail ∙ a.error_detail;
  output_files = b.output_files ∙ a.output_files;
}

Settled-refl : (r : Row) → Settled r r
Settled-refl r = record {
  status = refl;
  started_at = refl;
  finished_at = refl;
  exit_code = refl;
  timed_out = refl;
  error_detail = refl;
  output_files = refl;
}

-- An execution that has ended stays as it ended under every history of calls: its status, its start
-- and its end, exit code, error and output files are never written again.
pub terminal_absorbs :
    (calls : List Call) (id : String) (db : Database) (r : Row)
    → fetch by_id id db.executions ≡ some r
    → is_terminal_status r.status ≡ true
    → (r' : Row) × (fetch by_id id (apply_all calls db).executions ≡ some r') × Settled r r'
unfolding apply_all
terminal_absorbs [] id db r e h = (r, e, Settled-refl r)
terminal_absorbs (c ∷ calls) id db r e h =
    let n = next_scoped_sequence log_rows id db.logs in
    let once = effect-Settled c id n r h in
    let (r', found, later) =
      terminal_absorbs calls id (apply c db) (effect c id n r) (apply-fetch c id db r e)
        (rw once.status h) in
    (r', found, Settled-trans once later)

abbrev is_some : {A : Type 0} → Option A → Bool
is_some none = false
is_some (some a) = true

-- Whether a call starts the execution: `mark_execution_started` returns its record.
unfoldable pub starts_it : String → Call → Database → Bool
starts_it id (starts j updated_at provider_name) db =
    str_eq id j && is_some (mark_execution_started j updated_at provider_name db).1
starts_it id _ db = false

-- How often a history starts the execution.
unfoldable pub start_count : String → List Call → Database → ℕ
start_count id [] db = 0
start_count id (c ∷ calls) db =
    let rest = start_count id calls (apply c db) in if starts_it id c db then suc rest else rest

-- An execution is started only from queued.
starts_it-queued :
    (id : String) (c : Call) (db : Database)
    → starts_it id c db ≡ true
    → (r : Row) × (fetch by_id id db.executions ≡ some r)
      × (is_queued (effect c id (next_scoped_sequence log_rows id db.logs) r).status ≡ false)
      × (is_queued r.status ≡ true)
unfolding starts_it mark_execution_started started mark_execution_started_in_transaction
    update_execution
starts_it-queued id (starts j u p) db h =
    let (hit, won) = (&&_iff (str_eq id j) _).0 h in
    elim (update_where_cases by_id j (λ v. is_queued v.status) (start_row u p) db.executions) [
      | inl miss ↦ let lost = (rw miss at won) in cc
      | inr (r, found, was, changed) ↦ (r, rw ((eq_iff id j).0 hit) found, rw (hit, was), was)
    ]
starts_it-queued id _ db h = cc

pub effect-not_queued :
    (c : Call) (id : String) (n : ℕ) (r : Row)
    → is_queued r.status ≡ false
    → is_queued (effect c id n r).status ≡ false
effect-not_queued (logs j a out t) id n r h = ground arith
effect-not_queued (logs j a err t) id n r h = ground arith
effect-not_queued _ id n r h = ground arith

-- Once it has left the queue, an execution is started no more.
start_count_left :
    (id : String) (calls : List Call) (db : Database) (r : Row)
    → fetch by_id id db.executions ≡ some r
    → is_queued r.status ≡ false
    → start_count id calls db ≡ 0
unfolding start_count
start_count_left id [] db r e h = refl
start_count_left id (c ∷ calls) db r e h =
    let n = next_scoped_sequence log_rows id db.logs in
    let rest =
      start_count_left id calls (apply c db) (effect c id n r) (apply-fetch c id db r e)
        (effect-not_queued c id n r h) in
    elim (Bool-cases (starts_it id c db)) [
      | inl won ↦ let (q, found, after, was) = starts_it-queued id c db won in ground arith
      | inr lost ↦ rw lost rest
    ]

-- However the calls of any number of processes interleave, at most one of them starts an execution:
-- `mark_execution_started` returns a record at most once for an id.
pub start_count-le-one :
    (id : String) (calls : List Call) (db : Database) → start_count id calls db ≤ 1
unfolding start_count
start_count-le-one id [] db = omega arith
start_count-le-one id (c ∷ calls) db = elim (Bool-cases (starts_it id c db)) [
  | inl won ↦
      let (r, found, after, was) = starts_it-queued id c db won in
      rw won (
        omega (arith, start_count_left id calls (apply c db) _ (apply-fetch c id db r found) after))
  | inr lost ↦ rw lost (start_count-le-one id calls (apply c db))
]
