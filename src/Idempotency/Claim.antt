-- ===== src/Idempotency/Claim.antt =====
-- backend/services/idempotency_service.py: who is told to run a request, and what the others get.
use goat_ai.Prelude.{
  ℕ, ◌+◌, ◌<◌, ◌≡◌, ◌≢◌, refl, ◌⊎◌, inl, inr, String, true, not, Option, none, some, List, [], ◌∷◌,
  ◌++◌, arith, str_eq, eq_iff, ltb, if◌then◌else◌, Option-cases,
}
use goat_ai.Prelude.Table.{
  fetch, update_where, fetch-append, fetch-replace_self, key-fetch, beq_refl,
}
use goat_ai.Prelude.Table.Update.{or_unchanged}
use goat_ai.Prelude.Table.Select.{fetch-select-some, select-fetch}
use goat_ai.Idempotency.{
  Slot, Row, CompletedResponse, ClaimResult, claimed, conflict, idempotency_keys, ttl, unexpired,
  pending_row, content_type_or_json, answer_live, answer_row, claim, complete, store_completed,
}

-- The row of a slot that has not expired.
abbrev pub live_row : Slot → ℕ → List Row → Option Row
live_row slot now table = fetch idempotency_keys slot (unexpired now table)

-- What a claim answers about a row that has not expired.
unfoldable pub answer : String → Row → ClaimResult
unfolding answer_live
answer request_hash row =
    if not (str_eq row.request_hash request_hash)
    then conflict
    else answer_live row.status row.response_status row.response_content_type row.response_body

pub claim_free :
    (ttl_sec : ℕ) (slot : Slot) (request_hash : String) (now : ℕ) (table : List Row)
    → live_row slot now table ≡ none
    → claim ttl_sec slot request_hash now table
      ≡ (unexpired now table ++ pending_row slot request_hash now ttl_sec ∷ [], claimed)
unfolding claim
claim_free ttl_sec slot request_hash now table e = rw (e, claim)

pub claim_taken :
    (ttl_sec : ℕ) (slot : Slot) (request_hash : String) (now : ℕ) (table : List Row) (row : Row)
    → live_row slot now table ≡ some row
    → claim ttl_sec slot request_hash now table ≡ (unexpired now table, answer request_hash row)
unfolding claim answer_row answer
claim_taken ttl_sec slot request_hash now table row e =
    let alive : ltb now row.expires_at ≡ true = select-fetch idempotency_keys _ slot table row e in
    rw (e, claim) (ground arith)

pub granted_row :
    (slot : Slot) (request_hash : String) (now ttl_sec : ℕ) (table : List Row)
    → fetch idempotency_keys slot table ≡ none
    → fetch idempotency_keys slot (table ++ pending_row slot request_hash now ttl_sec ∷ [])
      ≡ some (pending_row slot request_hash now ttl_sec)
granted_row slot request_hash now ttl_sec table e =
    rw (fetch-append idempotency_keys slot table (pending_row slot request_hash now ttl_sec))
      (rw e (rw (beq_refl idempotency_keys slot)))

pub answer-ne-claimed : (request_hash : String) (row : Row) → answer request_hash row ≢ claimed
unfolding answer
answer-ne-claimed request_hash row = ground arith

-- A claim is granted exactly if the slot has no row that is still valid. A granted claim leaves a
-- pending row of its own for a full term; any other leaves every valid row as it is.
pub claim-claimed_iff :
    (ttl_sec : ℕ) (slot : Slot) (request_hash : String) (now : ℕ) (table : List Row)
    → let after = claim ttl_sec slot request_hash now table in
      ((after.1 ≡ claimed)
        × (live_row slot now table ≡ none)
        × (fetch idempotency_keys slot after.0 ≡ some (pending_row slot request_hash now ttl_sec)))
      ⊎ ((after.1 ≢ claimed)
          × ((row : Row) × (live_row slot now table ≡ some row)
              × (after.1 ≡ answer request_hash row))
          × (after.0 ≡ unexpired now table))
claim-claimed_iff ttl_sec slot request_hash now table =
    elim (Option-cases (live_row slot now table)) [
      | inl e ↦
          rw (claim_free ttl_sec slot request_hash now table e)
            (inl (refl, e, granted_row slot request_hash now ttl_sec _ e))
      | inr (row, e) ↦
          rw (claim_taken ttl_sec slot request_hash now table row e)
            (inr (answer-ne-claimed request_hash row, (row, e, refl), refl))
    ]

-- What a completed request answers later: the stored response, of a type that is not empty.
abbrev pub replayed : CompletedResponse → CompletedResponse
replayed response = record response {
  content_type = content_type_or_json (some response.content_type);
}

pub store_completed-fetch :
    (ttl_sec : ℕ) (slot : Slot) (request_hash : String) (now : ℕ) (response : CompletedResponse)
    (table : List Row) (row : Row)
    → fetch idempotency_keys slot table ≡ some row
    → row.request_hash ≡ request_hash
    → fetch idempotency_keys slot (store_completed ttl_sec slot request_hash now response table)
      ≡ some (complete response (now + ttl ttl_sec) row)
unfolding store_completed or_unchanged update_where
store_completed-fetch ttl_sec slot request_hash now response table row e h =
    rw (e, update_where)
      (rw ((eq_iff row.request_hash request_hash).1 h) (
        fetch-replace_self idempotency_keys slot _ table row
          (key-fetch idempotency_keys slot table row e) e))

pub claim_free-fetch :
    (ttl_sec : ℕ) (slot : Slot) (request_hash : String) (now : ℕ) (table : List Row)
    → live_row slot now table ≡ none
    → fetch idempotency_keys slot (claim ttl_sec slot request_hash now table).0
      ≡ some (pending_row slot request_hash now ttl_sec)
claim_free-fetch ttl_sec slot request_hash now table e =
    rw (claim_free ttl_sec slot request_hash now table e)
      (granted_row slot request_hash now ttl_sec _ e)

-- The answer of a claim, given the row of its slot and that the row is still valid.
pub claim_row :
    (ttl_sec : ℕ) (slot : Slot) (request_hash : String) (now : ℕ) (table : List Row) (row : Row)
    → fetch idempotency_keys slot table ≡ some row
    → now < row.expires_at
    → claim ttl_sec slot request_hash now table ≡ (unexpired now table, answer request_hash row)
claim_row ttl_sec slot request_hash now table row e h =
    claim_taken ttl_sec slot request_hash now table row
      (fetch-select-some idempotency_keys _ slot table row e (ground arith))
