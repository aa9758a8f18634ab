-- ===== src/Workbench/Postgres/Outcomes.antt =====
-- backend/services/workbench_runtime.py: every call on the Postgres repository, beside the same call on
-- the SQLite repository.
use goat_ai.Prelude.{
  ℕ, String, Option, List, ◌≡◌, refl, sym, ap, ◌∙◌, false, ◌⊎◌, inl, inr, true, some, none, [], ◌∷◌,
  Bool-cases, Option-cases,
}
use goat_ai.Prelude.Json.{Json}
use goat_ai.Prelude.Table.{fetch}
use goat_ai.Workbench.Store.{mark_task_completed_in_transaction, complete_row, commit_or_rollback}
use goat_ai.Workbench.Calls.{
  mark_task_completed, Call, creates, claims, completes, fails, cancels, notes, outputs, replaces,
  apply, after_output,
}
use goat_ai.Workbench.Postgres.{
  apply_to_postgres, create_workspace_output_postgres, output_created_postgres,
}
use goat_ai.Workbench.Postgres.Parent.{event_refused, output_refused}
use goat_ai.Workbench.Postgres.Agreement.{
  IsCommon, apply_to_postgres-same, completes_unclaimed-differ,
}
use goat_ai.Workbench.{TaskRow, Database, task_by_id, is_queued}

-- An event or an output for an id that no task has.
abbrev pub IsOrphan : Call → Database → Type 0
IsOrphan (notes id event_type created_at status message metadata) db =
    fetch task_by_id id db.tasks ≡ none
IsOrphan (outputs payload) db = fetch task_by_id payload.task_id db.tasks ≡ none
IsOrphan _ db = ⊥

-- A completion of a queued task that the Postgres repository stores and the SQLite repository ignores.
abbrev pub StoresQueued : Call → Database → Type 0
StoresQueued (completes id a text citations count) db =
    (r : TaskRow) × (fetch task_by_id id db.tasks ≡ some r)
    × (is_queued r.status ≡ true)
    × (apply (completes id a text citations count) db ≡ db)
    × (fetch task_by_id id (apply_to_postgres (completes id a text citations count) db).tasks
        ≡ some (complete_row a text citations r))
StoresQueued _ db = ⊥

-- A completion with an empty list of citations, which the SQLite repository carries out as the Postgres
-- repository does one without citations.
abbrev pub CitesNothing : Call → Database → Type 0
CitesNothing (completes id a text citations count) db =
    (citations ≡ some [])
    × (apply (completes id a text citations count) db
        ≡ apply_to_postgres (completes id a text none count) db)
CitesNothing _ db = ⊥

abbrev pub Compares : Call → Database → Type 0
Compares c db =
    (IsCommon c db × (apply_to_postgres c db ≡ apply c db))
    ⊎ ((IsOrphan c db × (apply_to_postgres c db ≡ db)) ⊎ (StoresQueued c db ⊎ CitesNothing c db))

common-Compares : (c : Call) (db : Database) → IsCommon c db → Compares c db
common-Compares c db common = inl (common, apply_to_postgres-same c db common)

-- The completion of a queued task, and any other as `later` has it.
completes-Compares :
    (id : String) (a : ℕ) (text : String) (citations : Option (List Json)) (count : Option ℕ)
    (db : Database)
    → (((r : TaskRow) → fetch task_by_id id db.tasks ≡ some r → is_queued r.status ≡ false)
        → Compares (completes id a text citations count) db)
    → Compares (completes id a text citations count) db
completes-Compares id a text citations count db later =
    elim (Option-cases (fetch task_by_id id db.tasks)) [
      | inl missing ↦ later (λ r e. cc (missing, e))
      | inr (r, e) ↦ elim (Bool-cases (is_queued r.status)) [
        | inl early ↦
            let (ignored, stored) =
              completes_unclaimed-differ id a text citations count db r e early in
            inr (inr (inl (r, e, early, ignored, stored)))
        | inr claimed ↦ later (λ v f. let same : r ≡ v = cc (e, f) in rw (← same) claimed)
      ]
    ]

-- An empty list is stored as none, and counts as many.
cites_nothing-same :
    (id : String) (a : ℕ) (text : String) (count : Option ℕ) (db : Database)
    → apply (completes id a text (some []) count) db ≡ apply (completes id a text none count) db
unfolding apply mark_task_completed mark_task_completed_in_transaction
cites_nothing-same id a text count db = refl

-- A call on the Postgres repository is one of four. A completion of a queued task is stored, and the
-- SQLite repository ignores it. An event or an output for an id that no task has is refused, and leaves
-- the database as it was. A completion of a task that is not queued, with an empty list of citations,
-- has with SQLite the effect that one without citations has here. Any other call leaves the same
-- tasks, outputs and events as it leaves with SQLite.
pub apply_to_postgres-Compares : (c : Call) (db : Database) → Compares c db
unfolding apply_to_postgres create_workspace_output_postgres output_created_postgres
apply_to_postgres-Compares (completes id a text none count) db =
    completes-Compares id a text none count db
      (λ later. common-Compares (completes id a text none count) db (later, refl))
apply_to_postgres-Compares (completes id a text (some []) count) db =
    completes-Compares id a text (some []) count db (λ later. inr (
      inr (
        inr (
          refl,
          cites_nothing-same id a text count db
              ∙ sym (apply_to_postgres-same (completes id a text none count) db (later, refl)),
        ))))
apply_to_postgres-Compares (completes id a text (some (x ∷ xs)) count) db =
    completes-Compares id a text (some (x ∷ xs)) count db
      (λ later. common-Compares (completes id a text (some (x ∷ xs)) count) db (later, refl))
apply_to_postgres-Compares (notes id event_type created_at status message metadata) db =
    elim (Option-cases (fetch task_by_id id db.tasks)) [
      | inl missing ↦ inr (
          inl (
            missing,
            ap (commit_or_rollback db)
                (event_refused id event_type created_at status message metadata db missing),
          ))
      | inr row ↦ common-Compares (notes id event_type created_at status message metadata) db row
    ]
apply_to_postgres-Compares (outputs payload) db =
    elim (Option-cases (fetch task_by_id payload.task_id db.tasks)) [
      | inl missing ↦ inr (
          inl (
            missing,
            ap (λ inserted. after_output db (output_created_postgres payload inserted))
                (output_refused payload db missing),
          ))
      | inr row ↦ common-Compares (outputs payload) db row
    ]
apply_to_postgres-Compares (creates payload) db = common-Compares (creates payload) db tt
apply_to_postgres-Compares (claims id a) db = common-Compares (claims id a) db tt
apply_to_postgres-Compares (fails id a d) db = common-Compares (fails id a d) db tt
apply_to_postgres-Compares (cancels id a d) db = common-Compares (cancels id a d) db tt
apply_to_postgres-Compares (replaces id m a) db = common-Compares (replaces id m a) db tt
