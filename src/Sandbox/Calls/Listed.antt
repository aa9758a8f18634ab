-- ===== src/Sandbox/Calls/Listed.antt =====
-- backend/services/code_sandbox_execution_store.py, list_execution_ids_by_status: which ids are listed.
use goat_ai.Prelude.{
  ◌≡◌, refl, ◌∙◌, ap, inl, inr, String, Bool, true, ◌||◌, some, List, [], ◌∷◌, arith, map, member,
  select, str_eq, eq_iff, Bool-cases,
}
use goat_ai.Prelude.Table.{fetch}
use goat_ai.Sandbox.Calls.{row_before, insert_row, order_rows, list_execution_ids_by_status}
use goat_ai.Sandbox.{Status, Row, Database, by_id}

abbrev ids : List Row → List String
ids = map λ r. r.id

insert_row-member :
    (id : String) (r : Row) (rows : List Row)
    → member id (ids (insert_row r rows)) ≡ str_eq id r.id || member id (ids rows)
unfolding insert_row
insert_row-member id r [] = refl
insert_row-member id r (x ∷ rows) = elim (Bool-cases (row_before r x)) [
  | inl first ↦ rw first
  | inr later ↦ rw later (ground (arith, insert_row-member id r rows))
]

order_rows-member :
    (id : String) (rows : List Row) → member id (ids (order_rows rows)) ≡ member id (ids rows)
unfolding order_rows
order_rows-member id [] = refl
order_rows-member id (r ∷ rows) =
    insert_row-member id r (order_rows rows)
    ∙ ap (λ b. str_eq id r.id || b) (order_rows-member id rows)

select-member :
    (id : String) (p : Row → Bool) (rows : List Row) (r : Row)
    → fetch by_id id rows ≡ some r
    → p r ≡ true
    → member id (ids (select p rows)) ≡ true
unfolding fetch
select-member id p [] r e h = cc
select-member id p (x ∷ rows) r e h =
    ground (arith, eq_iff x.id id, eq_iff id x.id, select-member id p rows r)

-- An execution is listed under its status.
pub listed-member :
    (id : String) (wanted : Status → Bool) (db : Database) (r : Row)
    → fetch by_id id db.executions ≡ some r
    → wanted r.status ≡ true
    → member id (list_execution_ids_by_status wanted db) ≡ true
unfolding list_execution_ids_by_status
listed-member id wanted db r e h =
    order_rows-member id (select (λ v. wanted v.status) db.executions)
    ∙ select-member id (λ v. wanted v.status) db.executions r e h
