-- ===== src/Idempotency/Postgres.antt =====
-- backend/services/idempotency_service.py, PostgresIdempotencyStore: INSERT … ON CONFLICT DO NOTHING,
-- and what other transactions may do between its statements.
pub mod Settled
use goat_ai.Prelude.{
  ℕ, ◌≡◌, refl, inl, inr, String, true, Option, none, some, List, arith, Option-cases,
}
use goat_ai.Prelude.Table.{fetch, insert, fetch-replace_self}
use goat_ai.Prelude.Table.Update.{or_unchanged, update_where_hit}
use goat_ai.Idempotency.Claim.{live_row, granted_row}
use goat_ai.Idempotency.{
  Slot, Row, ClaimResult, claimed, idempotency_keys, unexpired, pending_row, answer_row, claim,
}

-- What the other transactions do to the table between two statements of this one.
abbrev pub Others : Type 0
Others = List Row → List Row

-- The row that the last SELECT finds; `none` is the PersistenceWriteError.
finish : Slot → String → ℕ → ℕ → List Row → List Row × Option ClaimResult
finish slot request_hash now ttl_sec table = elim (fetch idempotency_keys slot table) [
  | none ↦ (table, none)
  | some row ↦
      let (table', result) = answer_row slot request_hash now ttl_sec row table in
      (table', some result)
]

-- The second attempt, for a row that went away after the first INSERT met it.
retry : Slot → String → ℕ → ℕ → Others → Others → List Row → List Row × Option ClaimResult
unfolding finish
retry slot request_hash now ttl_sec second third table =
    let before = second table in
    elim (insert idempotency_keys (pending_row slot request_hash now ttl_sec) before) [
      | some table' ↦ (table', some claimed)
      | none ↦ finish slot request_hash now ttl_sec (third before)
    ]

unfoldable pub claim_postgres :
    ℕ → Slot → String → ℕ → Others → Others → Others → List Row → List Row × Option ClaimResult
unfolding retry
claim_postgres ttl_sec slot request_hash now first second third table =
    let live = unexpired now table in
    elim (insert idempotency_keys (pending_row slot request_hash now ttl_sec) live) [
      | some table' ↦ (table', some claimed)
      | none ↦
          let seen = first live in
          elim (fetch idempotency_keys slot seen) [
            | none ↦ retry slot request_hash now ttl_sec second third seen
            | some row ↦
                let (table', result) = answer_row slot request_hash now ttl_sec row seen in
                (table', some result)
          ]
    ]

abbrev pub alone : Others
alone table = table

-- With nobody in between, the Postgres store does what the SQLite store does: the same table and the
-- same answer, and no error.
pub claim_postgres-alone :
    (ttl_sec : ℕ) (slot : Slot) (request_hash : String) (now : ℕ) (table : List Row)
    → let after = claim ttl_sec slot request_hash now table in
      claim_postgres ttl_sec slot request_hash now alone alone alone table ≡ (after.0, some after.1)
unfolding claim_postgres claim insert
claim_postgres-alone ttl_sec slot request_hash now table =
    elim (Option-cases (live_row slot now table)) [
      | inl e ↦ rw (e, claim_postgres, insert, claim)
      | inr (row, e) ↦ rw (e, claim_postgres, insert, claim) (rw e)
    ]

answer_row-claimed :
    (slot : Slot) (request_hash : String) (now ttl_sec : ℕ) (row : Row) (table : List Row)
    → fetch idempotency_keys slot table ≡ some row
    → (answer_row slot request_hash now ttl_sec row table).1 ≡ claimed
    → fetch idempotency_keys slot (answer_row slot request_hash now ttl_sec row table).0
      ≡ some (pending_row slot request_hash now ttl_sec)
unfolding answer_row or_unchanged
answer_row-claimed slot request_hash now ttl_sec row table e c = ground (
  arith,
  update_where_hit idempotency_keys slot (λ r. true)
      (λ r. pending_row slot request_hash now ttl_sec) table row e refl,
  fetch-replace_self idempotency_keys slot (pending_row slot request_hash now ttl_sec) table row
      refl e,
)

insert_claimed :
    (slot : Slot) (request_hash : String) (now ttl_sec : ℕ) (table table' : List Row)
    → insert idempotency_keys (pending_row slot request_hash now ttl_sec) table ≡ some table'
    → fetch idempotency_keys slot table' ≡ some (pending_row slot request_hash now ttl_sec)
unfolding insert
insert_claimed slot request_hash now ttl_sec table table' e =
    ground (arith, granted_row slot request_hash now ttl_sec table)

module _ (slot : Slot) (request_hash : String) (now ttl_sec : ℕ) where
  -- If the outcome is a grant, the slot has the pending row of this claim.
  abbrev LeavesOwnRow : List Row × Option ClaimResult → Type 0
  LeavesOwnRow (table, result) =
      result ≡ some claimed
      → fetch idempotency_keys slot table ≡ some (pending_row slot request_hash now ttl_sec)

  answered-LeavesOwnRow :
      (row : Row) (table : List Row)
      → fetch idempotency_keys slot table ≡ some row
      → let (table', result) = answer_row slot request_hash now ttl_sec row table in
        LeavesOwnRow (table', some result)
  answered-LeavesOwnRow row table e c =
      answer_row-claimed slot request_hash now ttl_sec row table e (ground arith)

  finish-LeavesOwnRow :
      (table : List Row) → LeavesOwnRow (finish slot request_hash now ttl_sec table)
  unfolding finish
  finish-LeavesOwnRow table = elim (Option-cases (fetch idempotency_keys slot table)) [
    | inl e ↦ rw (e, finish) (λ c. cc)
    | inr (row, e) ↦ rw (e, finish) (answered-LeavesOwnRow row table e)
  ]

  retry-LeavesOwnRow :
      (second third : Others) (table : List Row)
      → LeavesOwnRow (retry slot request_hash now ttl_sec second third table)
  unfolding retry
  retry-LeavesOwnRow second third table =
      let v = pending_row slot request_hash now ttl_sec in
      elim (Option-cases (insert idempotency_keys v (second table))) [
        | inl e ↦ rw (e, retry) (finish-LeavesOwnRow (third (second table)))
        | inr (t, e) ↦ rw (e, retry) (λ c. insert_claimed slot request_hash now ttl_sec _ t e)
      ]

-- Whatever the other transactions do in between, a claim that is granted leaves the slot with its own
-- pending row.
pub claim_postgres-granted :
    (ttl_sec : ℕ) (slot : Slot) (request_hash : String) (now : ℕ) (first second third : Others)
    (table : List Row)
    → (claim_postgres ttl_sec slot request_hash now first second third table).1 ≡ some claimed
    → fetch idempotency_keys slot
        (claim_postgres ttl_sec slot request_hash now first second third table).0
      ≡ some (pending_row slot request_hash now ttl_sec)
unfolding claim_postgres
claim_postgres-granted ttl_sec slot request_hash now first second third table =
    let v = pending_row slot request_hash now ttl_sec in
    let live = unexpired now table in
    elim (Option-cases (insert idempotency_keys v live)) [
      | inr (t, e) ↦
          rw (e, claim_postgres) (λ c. insert_claimed slot request_hash now ttl_sec live t e)
      | inl e ↦ elim (Option-cases (fetch idempotency_keys slot (first live))) [
        | inl m ↦
            rw (e, claim_postgres)
              (rw m (retry-LeavesOwnRow slot request_hash now ttl_sec second third (first live)))
        | inr (row, m) ↦
            rw (e, claim_postgres)
              (rw m (answered-LeavesOwnRow slot request_hash now ttl_sec row (first live) m))
      ]
    ]
