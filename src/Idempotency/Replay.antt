-- ===== src/Idempotency/Replay.antt =====
-- backend/services/idempotency_service.py: what happens to the row of a request while others claim,
-- complete and release, and what a claim is told after the request's completion.
use goat_ai.Prelude.{
  ℕ, ◌+◌, ◌<◌, ◌≡◌, ◌≢◌, refl, subst, if◌then◌else◌, ◌⊎◌, inl, inr, String, false, ◌&&◌, none, some,
  List, [], ◌∷◌, arith, str_eq, eq_iff, eq_refl, All, Option-cases,
}
use goat_ai.Prelude.Table.{fetch, fetch-append}
use goat_ai.Prelude.Table.Update.{fetch-updated}
use goat_ai.Prelude.Table.Select.{fetch-select-some}
use goat_ai.Idempotency.Claim.{
  live_row, answer, replayed, claim_free, claim_taken, claim_row, claim_free-fetch,
  store_completed-fetch,
}
use goat_ai.Idempotency.Exclusive.{release_pending-fetch}
use goat_ai.Idempotency.{
  Slot, completed, Row, CompletedResponse, conflict, replay, idempotency_keys, ttl, unexpired,
  pending_row, claim, complete, store_completed, release_pending, same_slot,
}

-- The three operations, as any request may call them.
pub data Event : Type 0 where
  claims releases : Slot → String → Event
  completes : Slot → String → CompletedResponse → Event

unfoldable pub happen : ℕ → Event × ℕ → List Row → List Row
happen ttl_sec (claims slot request_hash, now) table = (claim ttl_sec slot request_hash now table).0
happen ttl_sec (completes slot request_hash response, now) table =
    store_completed ttl_sec slot request_hash now response table
happen ttl_sec (releases slot request_hash, now) table = release_pending slot request_hash table

unfoldable pub happen_all : ℕ → List (Event × ℕ) → List Row → List Row
happen_all ttl_sec [] table = table
happen_all ttl_sec (e ∷ events) table = happen_all ttl_sec events (happen ttl_sec e table)

-- An event that is not the completion of the row's own request, nor its release while it is pending.
abbrev pub Leaves : Row → Event → Type 0
Leaves row (claims slot request_hash) = Unit {0}
Leaves row (completes slot request_hash response) =
    (same_slot row.slot slot && str_eq row.request_hash request_hash) ≡ false
Leaves row (releases slot request_hash) =
    (row.slot ≢ slot) ⊎ ((row.status ≡ completed) ⊎ (row.request_hash ≢ request_hash))

-- Events of others, before the row expires.
abbrev pub AreOthers : Row → List (Event × ℕ) → Type 0
AreOthers row = All (λ e. Leaves row e.0 × (e.1 < row.expires_at))

claim-keeps :
    (ttl_sec : ℕ) (slot other : Slot) (request_hash : String) (now : ℕ) (table : List Row)
    (row : Row)
    → fetch idempotency_keys slot table ≡ some row
    → now < row.expires_at
    → fetch idempotency_keys slot (claim ttl_sec other request_hash now table).0 ≡ some row
claim-keeps ttl_sec slot other request_hash now table row e h =
    let kept : fetch idempotency_keys slot (unexpired now table) ≡ some row =
      fetch-select-some idempotency_keys _ slot table row e (ground arith) in
    elim (Option-cases (live_row other now table)) [
      | inl free ↦
          rw (claim_free ttl_sec other request_hash now table free)
            (rw (fetch-append idempotency_keys slot (unexpired now table) _) (rw kept))
      | inr (found, taken) ↦ rw (claim_taken ttl_sec other request_hash now table found taken) kept
    ]

happen-keeps :
    (ttl_sec : ℕ) (e : Event × ℕ) (table : List Row) (row : Row)
    → fetch idempotency_keys row.slot table ≡ some row
    → Leaves row e.0
    → e.1 < row.expires_at
    → fetch idempotency_keys row.slot (happen ttl_sec e table) ≡ some row
unfolding happen store_completed
happen-keeps ttl_sec (claims other request_hash, now) table row e leaves h =
    claim-keeps ttl_sec row.slot other request_hash now table row e h
happen-keeps ttl_sec (completes other request_hash response, now) table row e leaves h =
    subst
      (λ b.
        fetch idempotency_keys row.slot
          (store_completed ttl_sec other request_hash now response table)
        ≡ some (if b then complete response (now + ttl ttl_sec) row else row))
      leaves
      (fetch-updated idempotency_keys row.slot other (λ v. str_eq v.request_hash request_hash)
        (complete response (now + ttl ttl_sec)) table row (λ v. refl) e)
happen-keeps ttl_sec (releases other request_hash, now) table row e leaves h =
    release_pending-fetch row.slot other request_hash table row e leaves

happen_all-keeps :
    (ttl_sec : ℕ) (events : List (Event × ℕ)) (table : List Row) (row : Row)
    → fetch idempotency_keys row.slot table ≡ some row
    → AreOthers row events
    → fetch idempotency_keys row.slot (happen_all ttl_sec events table) ≡ some row
unfolding happen_all
happen_all-keeps ttl_sec [] table row e others = e
happen_all-keeps ttl_sec (v ∷ events) table row e ((leaves, h), others) =
    happen_all-keeps ttl_sec events (happen ttl_sec v table) row
      (happen-keeps ttl_sec v table row e leaves h) others

-- A request is granted a slot, and completes it. Before and after the completion, others claim, complete
-- and release, on this slot and on any other, in any order; they do not complete the request itself,
-- nor release it before its completion, and what comes before the completion comes within the term
-- of the grant, what comes after it within the term of the response. Then every claim of the same
-- request within that term is answered with the response, however many there were before, and every
-- claim of the slot by another request is a conflict. Neither is run.
pub completed_replay :
    (ttl_sec : ℕ) (slot : Slot) (request_hash other : String) (now done later : ℕ)
    (response : CompletedResponse) (before after : List (Event × ℕ)) (table : List Row)
    → let pending = pending_row slot request_hash now ttl_sec in
      live_row slot now table ≡ none
      → AreOthers pending before
      → AreOthers (complete response (done + ttl ttl_sec) pending) after
      → later < done + ttl ttl_sec
      → let granted = (claim ttl_sec slot request_hash now table).0 in
        let stored =
          store_completed ttl_sec slot request_hash done response
            (happen_all ttl_sec before granted) in
        let found = happen_all ttl_sec after stored in
        ((claim ttl_sec slot request_hash later found).1 ≡ replay (replayed response))
        × (other ≢ request_hash → (claim ttl_sec slot other later found).1 ≡ conflict)
unfolding answer
completed_replay ttl_sec slot request_hash other now done later response before after table free b a
      h =
    let row = pending_row slot request_hash now ttl_sec in
    let kept =
      happen_all-keeps ttl_sec before (claim ttl_sec slot request_hash now table).0 row
        (claim_free-fetch ttl_sec slot request_hash now table free) b in
    let stored = store_completed-fetch ttl_sec slot request_hash done response _ row kept refl in
    let found =
      happen_all-keeps ttl_sec after _ (complete response (done + ttl ttl_sec) row) stored a in
    (
      rw (claim_row ttl_sec slot request_hash later _ _ found h)
          (ground (arith, eq_refl request_hash)),
      λ differs.
          rw (claim_row ttl_sec slot other later _ _ found h)
            (ground (arith, eq_iff request_hash other)),
    )
