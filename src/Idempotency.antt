-- ===== src/Idempotency.antt =====
-- backend/services/idempotency_service.py: claiming, completing and releasing an idempotency key.
-- Times are in microseconds since the epoch; the ISO texts of the table compare as these do.
pub mod Claim
pub mod Exclusive
pub mod Replay
pub mod Postgres
mod Tests
use goat_ai.Prelude.{
  ℕ, ◌+◌, ◌*◌, max, ◌≡◌, ◌↔◌, String, Bool, true, false, ◌&&◌, not, Option, none, some, List, [],
  ◌∷◌, ◌++◌, arith, str_eq, eq_iff, select, leb, ltb, if◌then◌else◌,
}
use goat_ai.Prelude.Table.{Keyed, fetch, update_where}
use goat_ai.Prelude.Table.Update.{or_unchanged}

-- The primary key of the table `idempotency_keys`.
pub record Slot : Type 0 where
  pub key : String
  pub route : String
  pub scope : String

pub data Status : Type 0 where
  pending completed : Status

pub record Row : Type 0 where
  pub slot : Slot
  pub request_hash : String
  pub status : Status
  pub response_status : Option ℕ
  pub response_content_type : Option String
  pub response_body : Option String
  pub created_at : ℕ
  pub expires_at : ℕ

pub record CompletedResponse : Type 0 where
  pub status_code : ℕ
  pub content_type : String
  pub body : String

pub data ClaimResult : Type 0 where
  claimed conflict in_progress : ClaimResult
  replay : CompletedResponse → ClaimResult

abbrev pub same_slot : Slot → Slot → Bool
same_slot a b = str_eq a.key b.key && (str_eq a.route b.route && str_eq a.scope b.scope)

pub same_slot_iff : (a b : Slot) → (same_slot a b ≡ true) ↔ (a ≡ b)
same_slot_iff a b = (
  ground (arith, eq_iff a.key b.key, eq_iff a.route b.route, eq_iff a.scope b.scope),
  ground (arith, eq_iff a.key b.key, eq_iff a.route b.route, eq_iff a.scope b.scope),
)

abbrev pub idempotency_keys : Keyed Slot Row
idempotency_keys = record { key = λ r. r.slot; beq = same_slot; beq_iff = same_slot_iff }

-- `max(1, ttl_sec)`, in microseconds.
abbrev pub ttl : ℕ → ℕ
ttl ttl_sec = max 1 ttl_sec * 1_000_000

-- DELETE FROM idempotency_keys WHERE expires_at <= now
abbrev pub unexpired : ℕ → List Row → List Row
unexpired now = select λ r. ltb now r.expires_at

abbrev pub pending_row : Slot → String → ℕ → ℕ → Row
pending_row slot request_hash now ttl_sec = record {
  slot = slot;
  request_hash = request_hash;
  status = pending;
  response_status = none;
  response_content_type = none;
  response_body = none;
  created_at = now;
  expires_at = now + ttl ttl_sec;
}

-- `str(response_content_type or "application/json")`
abbrev pub content_type_or_json : Option String → String
content_type_or_json none = "application/json"
content_type_or_json (some s) = if str_eq s "" then "application/json" else s

-- A row that is neither of another request nor expired: replayed once it is completed.
answer_live : Status → Option ℕ → Option String → Option String → ClaimResult
answer_live completed (some code) content_type (some body) =
    replay
      (record { status_code = code; content_type = content_type_or_json content_type; body = body })
answer_live _ _ _ _ = in_progress

-- What a claim does about the row that it found.
pub answer_row : Slot → String → ℕ → ℕ → Row → List Row → List Row × ClaimResult
unfolding answer_live or_unchanged
answer_row slot request_hash now ttl_sec row table =
    let restarted =
      update_where idempotency_keys slot (λ r. true)
        (λ r. pending_row slot request_hash now ttl_sec) table in
    if not (str_eq row.request_hash request_hash)
    then (table, conflict)
    else if leb row.expires_at now
    then (or_unchanged table restarted, claimed)
    else (
      table,
      answer_live row.status row.response_status row.response_content_type row.response_body,
    )

-- SQLiteIdempotencyStore.claim, one immediate transaction. The INSERT is of a key that was just
-- found to be free.
pub claim : ℕ → Slot → String → ℕ → List Row → List Row × ClaimResult
claim ttl_sec slot request_hash now table =
    let table' = unexpired now table in
    elim (fetch idempotency_keys slot table') [
      | none ↦ (table' ++ pending_row slot request_hash now ttl_sec ∷ [], claimed)
      | some row ↦ answer_row slot request_hash now ttl_sec row table'
    ]

abbrev pub complete : CompletedResponse → ℕ → Row → Row
complete response expires_at row = record row {
  status = completed;
  response_status = some response.status_code;
  response_content_type = some response.content_type;
  response_body = some response.body;
  expires_at = expires_at;
}

-- SQLiteIdempotencyStore.store_completed
pub store_completed : ℕ → Slot → String → ℕ → CompletedResponse → List Row → List Row
unfolding or_unchanged
store_completed ttl_sec slot request_hash now response table = or_unchanged table (
    update_where idempotency_keys slot (λ r. str_eq r.request_hash request_hash)
      (complete response (now + ttl ttl_sec)) table)

abbrev is_pending : Status → Bool
is_pending pending = true
is_pending completed = false

-- SQLiteIdempotencyStore.release_pending
pub release_pending : Slot → String → List Row → List Row
release_pending slot request_hash =
    select λ r.
      not (same_slot r.slot slot && (str_eq r.request_hash request_hash && is_pending r.status))
