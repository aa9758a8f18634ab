-- ===== src/Idempotency/Postgres/Settled.antt =====
-- backend/services/idempotency_service.py, PostgresIdempotencyStore.store_completed and
-- release_pending: each is one statement in a transaction of its own, which may fail.
use goat_ai.Prelude.{
  ℕ, suc, ◌+◌, ◌<◌, ◌≤◌, ◌≡◌, refl, String, Bool, true, false, Option, none, some, List, [], ◌∷◌,
  arith, eq_refl, ltb, select, if◌then◌else◌,
}
use goat_ai.Prelude.Table.{fetch, insert}
use goat_ai.Prelude.Table.Select.{fetch-select-none, fetch-select-some}
use goat_ai.Idempotency.Claim.{answer, replayed, store_completed-fetch}
use goat_ai.Idempotency.Postgres.{Others, claim_postgres, claim_postgres-granted}
use goat_ai.Idempotency.{
  Slot, Row, CompletedResponse, ClaimResult, claimed, replay, in_progress, idempotency_keys, ttl,
  unexpired, pending_row, answer_row, complete, same_slot, same_slot_iff, store_completed,
  release_pending,
}

-- What the database makes of a transaction: `unconfirmed` is committed, but the client sees an
-- exception.
pub data Transaction : Type 0 where
  confirmed rolled_back unconfirmed : Transaction

abbrev pub lands : Transaction → Bool
lands rolled_back = false
lands _ = true

abbrev pub is_confirmed : Transaction → Bool
is_confirmed confirmed = true
is_confirmed _ = false

pub data Written : Type 0 where
  written persistence_write_error : Written

-- The table and what the caller sees after a transaction that writes `after`.
abbrev transact : Transaction → List Row → List Row → List Row × Written
transact confirmed table after = (after, written)
transact rolled_back table after = (table, persistence_write_error)
transact unconfirmed table after = (after, persistence_write_error)

unfoldable pub store_completed_postgres :
    Transaction → ℕ → Slot → String → ℕ → CompletedResponse → List Row → List Row × Written
store_completed_postgres transaction ttl_sec slot request_hash now response table =
    transact transaction table (store_completed ttl_sec slot request_hash now response table)

-- The exception is logged, and the caller sees none.
unfoldable pub release_pending_postgres :
    Transaction → Slot → String → List Row → List Row × Written
release_pending_postgres transaction slot request_hash table =
    ((transact transaction table (release_pending slot request_hash table)).0, written)

-- Other transactions that leave the row of a slot as it is.
abbrev pub Spares : Slot → Others → Type 0
Spares slot others =
    (table : List Row)
    → fetch idempotency_keys slot (others table) ≡ fetch idempotency_keys slot table

-- The primary key: a slot has one row at most.
unfoldable pub row_count : Slot → List Row → ℕ
row_count slot [] = 0
row_count slot (row ∷ table) =
    let rest = row_count slot table in if same_slot row.slot slot then suc rest else rest

module _ (slot : Slot) (p : Row → Bool) where
  row_count-none :
      (table : List Row)
      → row_count slot table < 1
      → fetch idempotency_keys slot (select p table) ≡ none
  unfolding row_count fetch
  row_count-none [] h = refl
  row_count-none (row ∷ table) h = ground (arith, row_count-none table)

  -- A DELETE that the only row of the slot does not survive.
  deleted-none :
      (table : List Row) (found : Row)
      → row_count slot table ≤ 1
      → fetch idempotency_keys slot table ≡ some found
      → p found ≡ false
      → fetch idempotency_keys slot (select p table) ≡ none
  unfolding row_count fetch
  deleted-none [] found one e h = refl
  deleted-none (row ∷ table) found one e h =
      ground (arith, row_count-none table, deleted-none table found)

claim_postgres_row :
    (ttl_sec : ℕ) (slot : Slot) (request_hash : String) (now : ℕ) (first second third : Others)
    (table : List Row) (row : Row)
    → Spares slot first
    → fetch idempotency_keys slot table ≡ some row
    → now < row.expires_at
    → (claim_postgres ttl_sec slot request_hash now first second third table).1
      ≡ some (answer request_hash row)
unfolding claim_postgres insert answer_row answer
claim_postgres_row ttl_sec slot request_hash now first second third table row spares e h =
    let live : fetch idempotency_keys slot (unexpired now table) ≡ some row =
      fetch-select-some idempotency_keys _ slot table row e (ground arith) in
    let seen : fetch idempotency_keys slot (first (unexpired now table)) ≡ some row =
      rw (spares (unexpired now table)) live in
    rw (live, claim_postgres, insert) (rw seen (ground arith))

claim_postgres_free :
    (ttl_sec : ℕ) (slot : Slot) (request_hash : String) (now : ℕ) (first second third : Others)
    (table : List Row)
    → fetch idempotency_keys slot table ≡ none
    → (claim_postgres ttl_sec slot request_hash now first second third table).1 ≡ some claimed
unfolding claim_postgres insert
claim_postgres_free ttl_sec slot request_hash now first second third table e =
    rw
      (
        fetch-select-none idempotency_keys (λ r. ltb now r.expires_at) slot table e,
        claim_postgres,
        insert,
      )
      refl

release_pending-none :
    (slot : Slot) (request_hash : String) (now ttl_sec : ℕ) (table : List Row)
    → row_count slot table ≤ 1
    → fetch idempotency_keys slot table ≡ some (pending_row slot request_hash now ttl_sec)
    → fetch idempotency_keys slot (release_pending slot request_hash table) ≡ none
unfolding release_pending
release_pending-none slot request_hash now ttl_sec table one e =
    deleted-none slot _ table (pending_row slot request_hash now ttl_sec) one e
      (ground (arith, same_slot_iff slot slot, eq_refl request_hash))

-- What a later claim answers, with other transactions between its statements.
abbrev pub later_answer :
    ℕ → Slot → String → ℕ → Others → Others → Others → List Row → Option ClaimResult
later_answer ttl_sec slot request_hash later first second third rows =
    (claim_postgres ttl_sec slot request_hash later first second third rows).1

-- The outcomes of a completion and of a release of the same claim, with what each makes a later
-- claim answer.
abbrev pub IsSettled :
    Transaction
    → (List Row → Option ClaimResult)
    → CompletedResponse
    → List Row × Written
    → List Row × Written
    → Type 0
IsSettled transaction answer_to response completion release =
    (answer_to completion.0
      ≡ some (if lands transaction then replay (replayed response) else in_progress))
    × (completion.1 ≡ (if is_confirmed transaction then written else persistence_write_error))
    × (answer_to release.0 ≡ some (if lands transaction then claimed else in_progress))
    × (release.1 ≡ written)

transact-IsSettled :
    (transaction : Transaction) (ttl_sec : ℕ) (slot : Slot) (request_hash : String) (done : ℕ)
    (response : CompletedResponse) (rows : List Row) (answer_to : List Row → Option ClaimResult)
    → answer_to rows ≡ some in_progress
    → answer_to (store_completed ttl_sec slot request_hash done response rows)
      ≡ some (replay (replayed response))
    → answer_to (release_pending slot request_hash rows) ≡ some claimed
    → IsSettled transaction answer_to response
        (store_completed_postgres transaction ttl_sec slot request_hash done response rows)
        (release_pending_postgres transaction slot request_hash rows)
unfolding store_completed_postgres release_pending_postgres
transact-IsSettled confirmed _ _ _ _ _ _ _ p r g = (r, refl, g, refl)
transact-IsSettled rolled_back _ _ _ _ _ _ _ p r g = (p, refl, p, refl)
transact-IsSettled unconfirmed _ _ _ _ _ _ _ p r g = (r, refl, g, refl)

pending-answer :
    (slot : Slot) (request_hash : String) (now ttl_sec : ℕ)
    → answer request_hash (pending_row slot request_hash now ttl_sec) ≡ in_progress
unfolding answer
pending-answer slot request_hash now ttl_sec = ground (arith, eq_refl request_hash)

completed-answer :
    (slot : Slot) (request_hash : String) (now done ttl_sec : ℕ) (response : CompletedResponse)
    → answer request_hash
        (complete response (done + ttl ttl_sec) (pending_row slot request_hash now ttl_sec))
      ≡ replay (replayed response)
unfolding answer
completed-answer slot request_hash now done ttl_sec response = ground (arith, eq_refl request_hash)

-- A granted claim is settled by its completion or its release, and each write may fail. A later claim
-- of the same request, made before the expiry of the pending row and of the response, is answered by
-- what the database kept: the response, if the completion is committed; a new grant, if the release
-- is committed; and that the request is in progress, if the write is rolled back. The caller sees an
-- error of the completion exactly if it is not confirmed, and none of the release. During the claims
-- other transactions may act, those of the later claim without changing the row of the slot, which is
-- its only row after the first claim, as the primary key demands.
pub claim_postgres-IsSettled :
    (transaction : Transaction) (ttl_sec : ℕ) (slot : Slot) (request_hash : String)
    (now done later : ℕ) (response : CompletedResponse) (first second third : Others)
    (first' second' third' : Others) (table : List Row)
    → let granted = claim_postgres ttl_sec slot request_hash now first second third table in
      granted.1 ≡ some claimed
      → row_count slot granted.0 ≤ 1
      → Spares slot first'
      → later < now + ttl ttl_sec
      → later < done + ttl ttl_sec
      → IsSettled transaction
          (later_answer ttl_sec slot request_hash later first' second' third')
          response
          (store_completed_postgres transaction ttl_sec slot request_hash done response granted.0)
          (release_pending_postgres transaction slot request_hash granted.0)
claim_postgres-IsSettled transaction ttl_sec slot request_hash now done later response first second
      third first' second' third' table granted one spares in_term in_time =
    let rows = (claim_postgres ttl_sec slot request_hash now first second third table).0 in
    let kept =
      claim_postgres-granted ttl_sec slot request_hash now first second third table granted in
    let answered = claim_postgres_row ttl_sec slot request_hash later first' second' third' in
    transact-IsSettled transaction ttl_sec slot request_hash done response rows
      (later_answer ttl_sec slot request_hash later first' second' third')
      (rw (answered rows _ spares kept in_term)
        (rw (pending-answer slot request_hash now ttl_sec) refl))
      (rw
        (answered _ _ spares
          (store_completed-fetch ttl_sec slot request_hash done response rows _ kept refl) in_time)
        (rw (completed-answer slot request_hash now done ttl_sec response) refl))
      (claim_postgres_free ttl_sec slot request_hash later first' second' third' _
        (release_pending-none slot request_hash now ttl_sec rows one kept))
