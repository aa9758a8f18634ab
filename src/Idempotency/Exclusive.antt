-- ===== src/Idempotency/Exclusive.antt =====
-- backend/services/idempotency_service.py: histories of claims, completions and releases.
use goat_ai.Prelude.{
  ℕ, suc, ◌+◌, ◌≤◌, ◌<◌, ◌≡◌, ◌≢◌, refl, ap, ◌⊎◌, inl, inr, String, Bool, true, false, ◌&&◌, some,
  List, [], ◌∷◌, arith, str_eq, eq_iff, if◌then◌else◌, Bool-cases, Option-cases, All, &&_iff,
}
use goat_ai.Prelude.Table.{fetch, fetch-append, key-fetch}
use goat_ai.Prelude.Table.Update.{fetch-updated}
use goat_ai.Prelude.Table.Select.{fetch-select-some}
use goat_ai.Idempotency.Claim.{
  live_row, claim_free, claim_taken, claim_row, claim_free-fetch, answer-ne-claimed,
}
use goat_ai.Idempotency.{
  Slot, completed, Row, CompletedResponse, ClaimResult, claimed, idempotency_keys, ttl, unexpired,
  claim, complete, store_completed, release_pending, same_slot, same_slot_iff,
}

pub data Call : Type 0 where
  claims : Slot → String → Call
  completes : Slot → String → CompletedResponse → Call

-- A call at a time.
unfoldable pub step : ℕ → Call × ℕ → List Row → List Row
step ttl_sec (claims slot request_hash, now) table = (claim ttl_sec slot request_hash now table).0
step ttl_sec (completes slot request_hash response, now) table =
    store_completed ttl_sec slot request_hash now response table

abbrev is_claimed : ClaimResult → Bool
is_claimed claimed = true
is_claimed _ = false

not_claimed : (r : ClaimResult) → r ≢ claimed → is_claimed r ≡ false
not_claimed claimed h = absurd (h refl)
not_claimed _ h = refl

-- Whether a call grants a slot.
unfoldable pub grants : ℕ → Slot → Call × ℕ → List Row → Bool
grants ttl_sec slot (claims other request_hash, now) table =
    same_slot other slot && is_claimed (claim ttl_sec other request_hash now table).1
grants ttl_sec slot (completes other request_hash response, now) table = false

-- How often a history grants a slot.
unfoldable pub grant_count : ℕ → Slot → List (Call × ℕ) → List Row → ℕ
grant_count ttl_sec slot [] table = 0
grant_count ttl_sec slot (c ∷ calls) table =
    let rest = grant_count ttl_sec slot calls (step ttl_sec c table) in
    if grants ttl_sec slot c table then suc rest else rest

-- The slot has a row that is valid until `deadline` at least.
abbrev Held : Slot → ℕ → List Row → Type 0
Held slot deadline table =
    (row : Row) × (fetch idempotency_keys slot table ≡ some row) × (deadline ≤ row.expires_at)

claim-Held :
    (ttl_sec : ℕ) (slot other : Slot) (request_hash : String) (now deadline : ℕ) (table : List Row)
    → now < deadline
    → Held slot deadline table
    → Held slot deadline (claim ttl_sec other request_hash now table).0
claim-Held ttl_sec slot other request_hash now deadline table h (row, e, long) =
    elim (Option-cases (live_row other now table)) [
      | inl free ↦
          rw (claim_free ttl_sec other request_hash now table free)
            (row, rw (fetch-append idempotency_keys slot (unexpired now table) _) (rw kept), long)
      | inr (found, taken) ↦
          rw (claim_taken ttl_sec other request_hash now table found taken) (row, kept, long)
    ]
  where
    kept : fetch idempotency_keys slot (unexpired now table) ≡ some row
    kept = fetch-select-some idempotency_keys _ slot table row e (ground arith)

store_completed-Held :
    (ttl_sec : ℕ) (slot other : Slot) (request_hash : String) (now deadline : ℕ)
    (response : CompletedResponse) (table : List Row)
    → deadline ≤ now + ttl ttl_sec
    → Held slot deadline table
    → Held slot deadline (store_completed ttl_sec other request_hash now response table)
unfolding store_completed
store_completed-Held ttl_sec slot other request_hash now deadline response table h (row, e, long) =
    (
      if same_slot slot other && str_eq row.request_hash request_hash
          then complete response (now + ttl ttl_sec) row
          else row,
      fetch-updated idempotency_keys slot other _ _ table row (λ v. refl) e,
      ground arith,
    )

step-Held :
    (ttl_sec : ℕ) (slot : Slot) (start : ℕ) (c : Call × ℕ) (table : List Row)
    → start ≤ c.1
    → c.1 < start + ttl ttl_sec
    → Held slot (start + ttl ttl_sec) table
    → Held slot (start + ttl ttl_sec) (step ttl_sec c table)
unfolding step
step-Held ttl_sec slot start (claims other request_hash, now) table lo hi held =
    claim-Held ttl_sec slot other request_hash now _ table hi held
step-Held ttl_sec slot start (completes other request_hash response, now) table lo hi held =
    store_completed-Held ttl_sec slot other request_hash now _ response table (omega arith) held

-- A slot that is held is granted to nobody.
Held-grants :
    (ttl_sec : ℕ) (slot : Slot) (deadline : ℕ) (c : Call × ℕ) (table : List Row)
    → c.1 < deadline
    → Held slot deadline table
    → grants ttl_sec slot c table ≡ false
unfolding grants
Held-grants ttl_sec slot deadline (completes other request_hash response, now) table h held = refl
Held-grants ttl_sec slot deadline (claims other request_hash, now) table h (row, e, long) =
    elim (Bool-cases (same_slot other slot)) [
      | inl hit ↦ rw hit (
          rw ((same_slot_iff other slot).0 hit) (
            rw (claim_row ttl_sec slot request_hash now table row e (omega arith))
              (not_claimed _ (answer-ne-claimed request_hash row))))
      | inr miss ↦ rw miss
    ]

-- Times within one term of `start`.
abbrev pub Within : ℕ → ℕ → List (Call × ℕ) → Type 0
Within start term calls = All (λ c. (start ≤ c.1) × (c.1 < start + term)) calls

Held-grant_count :
    (ttl_sec : ℕ) (slot : Slot) (start : ℕ) (calls : List (Call × ℕ)) (table : List Row)
    → Within start (ttl ttl_sec) calls
    → Held slot (start + ttl ttl_sec) table
    → grant_count ttl_sec slot calls table ≡ 0
unfolding grant_count
Held-grant_count ttl_sec slot start [] table w held = refl
Held-grant_count ttl_sec slot start (c ∷ calls) table w held =
    rw (Held-grants ttl_sec slot _ c table w.0.1 held) (
      Held-grant_count ttl_sec slot start calls (step ttl_sec c table) w.1
        (step-Held ttl_sec slot start c table w.0.0 w.0.1 held))

-- A call that grants the slot holds it for a term.
grants-Held :
    (ttl_sec : ℕ) (slot : Slot) (start : ℕ) (c : Call × ℕ) (table : List Row)
    → start ≤ c.1
    → grants ttl_sec slot c table ≡ true
    → Held slot (start + ttl ttl_sec) (step ttl_sec c table)
unfolding grants step
grants-Held ttl_sec slot start (completes other request_hash response, now) table lo g = cc
grants-Held ttl_sec slot start (claims other request_hash, now) table lo g =
    let (hit, yea) = (&&_iff (same_slot other slot) _).0 g in
    elim (Option-cases (live_row other now table)) [
      | inl free ↦
          rw (← (same_slot_iff other slot).0 hit)
            (_, claim_free-fetch ttl_sec other request_hash now table free, omega arith)
      | inr (row, taken) ↦
          let refused = not_claimed _ (answer-ne-claimed request_hash row) in
          cc (
            yea,
            refused,
            ap (λ after. is_claimed after.1)
                (claim_taken ttl_sec other request_hash now table row taken),
          )
    ]

-- Over claims and completions of any slots, in any order, whose times lie within one term, a slot is
-- granted at most once: at most one of them is told to run the request.
pub grant_count-le-one :
    (ttl_sec : ℕ) (slot : Slot) (start : ℕ) (calls : List (Call × ℕ)) (table : List Row)
    → Within start (ttl ttl_sec) calls
    → grant_count ttl_sec slot calls table ≤ 1
unfolding grant_count
grant_count-le-one ttl_sec slot start [] table w = omega arith
grant_count-le-one ttl_sec slot start (c ∷ calls) table w =
    elim (Bool-cases (grants ttl_sec slot c table)) [
      | inl granted ↦ rw granted (
          omega (
            arith,
            Held-grant_count ttl_sec slot start calls (step ttl_sec c table) w.1
                (grants-Held ttl_sec slot start c table w.0.0 granted),
          ))
      | inr refused ↦
          rw refused (grant_count-le-one ttl_sec slot start calls (step ttl_sec c table) w.1)
    ]

-- A release never discards another request's row: the row of a slot is kept where it belongs to
-- another slot, is completed, or has another hash than the request that is released.
pub release_pending-fetch :
    (slot released : Slot) (request_hash : String) (table : List Row) (row : Row)
    → fetch idempotency_keys slot table ≡ some row
    → (slot ≢ released) ⊎ ((row.status ≡ completed) ⊎ (row.request_hash ≢ request_hash))
    → fetch idempotency_keys slot (release_pending released request_hash table) ≡ some row
unfolding release_pending
release_pending-fetch slot released request_hash table row e kept =
    let same = key-fetch idempotency_keys slot table row e in
    fetch-select-some idempotency_keys _ slot table row e
      (ground (arith, eq_iff row.request_hash request_hash, same_slot_iff row.slot released))
