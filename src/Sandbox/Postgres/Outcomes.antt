-- ===== src/Sandbox/Postgres/Outcomes.antt =====
-- backend/services/code_sandbox_runtime.py: every call on the Postgres repository, beside the same call
-- on the SQLite repository.
use goat_ai.Prelude.{◌≡◌, ap, ◌⊎◌, inl, inr, true, some, none, Bool-cases, Option-cases}
use goat_ai.Prelude.Table.{fetch}
use goat_ai.Sandbox.Store.{finish_row, commit_or_rollback}
use goat_ai.Sandbox.Calls.{
  Call, creates, starts, completes, fails, denies, cancels, notes, logs, apply,
}
use goat_ai.Sandbox.Postgres.{apply_postgres, after_chunk}
use goat_ai.Sandbox.Postgres.Parent.{event_refused, chunk_refused}
use goat_ai.Sandbox.Postgres.Agreement.{
  IsLike, IsCommon, apply_postgres-IsLike, completes_queued-differ,
}
use goat_ai.Sandbox.{completed, Row, Database, by_id, is_queued}

-- An event or a chunk for an id that no execution has.
abbrev pub IsOrphan : Call → Database → Type 0
IsOrphan (notes id event_type created_at status message metadata) db =
    fetch by_id id db.executions ≡ none
IsOrphan (logs id created_at stream_name chunk_text) db = fetch by_id id db.executions ≡ none
IsOrphan _ db = ⊥

-- A completion of a queued execution that the Postgres repository stores.
abbrev pub StoresQueued : Call → Database → Type 0
StoresQueued (completes id outcome) db =
    (r : Row) × (fetch by_id id db.executions ≡ some r)
    × (is_queued r.status ≡ true)
    × (fetch by_id id (apply_postgres (completes id outcome) db).executions
        ≡ some (finish_row completed outcome r))
StoresQueued _ db = ⊥

-- The three outcomes, one for each kind of call.
abbrev pub Compares : Call → Database → Type 0
Compares c db =
    (IsCommon c db × IsLike (apply_postgres c db) (apply c db))
    ⊎ ((IsOrphan c db × (apply_postgres c db ≡ db)) ⊎ (StoresQueued c db × (apply c db ≡ db)))

common-Compares : (c : Call) (db : Database) → IsCommon c db → Compares c db
common-Compares c db common = inl (common, apply_postgres-IsLike c db common)

-- A call on the Postgres repository is one of three. A completion of a queued execution is stored, and
-- the SQLite repository ignores it. An event or a chunk for an id that no execution has is refused, and
-- leaves the database as it was. Any other call has the same effect on the executions and on the logs
-- as it has with SQLite, and adds the same number of events with the same times and statuses.
pub apply_postgres-Compares : (c : Call) (db : Database) → Compares c db
unfolding apply_postgres
apply_postgres-Compares (completes id outcome) db =
    elim (Option-cases (fetch by_id id db.executions)) [
      | inl missing ↦ common-Compares (completes id outcome) db (λ r e. cc (missing, e))
      | inr (r, e) ↦ elim (Bool-cases (is_queued r.status)) [
        | inl early ↦
            let (ignored, stored) = completes_queued-differ id outcome db r e early in
            inr (inr ((r, e, early, stored), ignored))
        | inr started ↦
            common-Compares (completes id outcome) db
              (λ v f. let same : r ≡ v = cc (e, f) in rw (← same) started)
      ]
    ]
apply_postgres-Compares (notes id event_type created_at status message metadata) db =
    elim (Option-cases (fetch by_id id db.executions)) [
      | inl missing ↦ inr (
          inl (
            missing,
            ap (commit_or_rollback db)
                (event_refused id event_type created_at status message metadata db missing),
          ))
      | inr row ↦ common-Compares (notes id event_type created_at status message metadata) db row
    ]
apply_postgres-Compares (logs id created_at stream_name chunk_text) db =
    elim (Option-cases (fetch by_id id db.executions)) [
      | inl missing ↦ inr (
          inl (
            missing,
            ap (after_chunk db) (chunk_refused id created_at stream_name chunk_text db missing),
          ))
      | inr row ↦ common-Compares (logs id created_at stream_name chunk_text) db row
    ]
apply_postgres-Compares (creates payload) db = common-Compares (creates payload) db tt
apply_postgres-Compares (starts id a p) db = common-Compares (starts id a p) db tt
apply_postgres-Compares (fails id o) db = common-Compares (fails id o) db tt
apply_postgres-Compares (denies id u f d) db = common-Compares (denies id u f d) db tt
apply_postgres-Compares (cancels id u f d files) db = common-Compares (cancels id u f d files) db tt
