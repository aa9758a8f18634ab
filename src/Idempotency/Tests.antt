-- ===== src/Idempotency/Tests.antt =====
-- backend/services/idempotency_service.py at concrete requests.
use goat_ai.Prelude.{
  ℕ, ◌≤◌, ◌≡◌, refl, ◌≢◌, ◌⊎◌, inl, inr, String, none, some, List, [], ◌∷◌, arith,
}
use goat_ai.Prelude.Table.{fetch, insert}
use goat_ai.Idempotency.Claim.{live_row, answer, claim-claimed_iff, replayed}
use goat_ai.Idempotency.Replay.{happen_all, completed_replay}
use goat_ai.Idempotency.Replay.Event.{claims, releases}
use goat_ai.Idempotency.Exclusive.{Call, claims, completes, grant_count, grant_count-le-one}
use goat_ai.Idempotency.Postgres.Settled.{
  unconfirmed, IsSettled, later_answer, store_completed_postgres, release_pending_postgres,
  row_count, claim_postgres-IsSettled,
}
use goat_ai.Idempotency.Postgres.{Others, alone, claim_postgres, claim_postgres-alone}
use goat_ai.Idempotency.{
  Slot, Row, CompletedResponse, claimed, conflict, replay, idempotency_keys, unexpired, pending_row,
  complete, claim, store_completed,
}

abbrev upload : Slot
upload = record { key = "k1"; route = "/api/upload"; scope = "owner" }

abbrev other : String
other = "other"

abbrev hash : String
hash = "h"

abbrev created : CompletedResponse
created = record { status_code = 201; content_type = ""; body = "done" }

abbrev done : Row
done = complete created 90_000_000 (pending_row upload "h" 0 60)

claim-claimed_example :
    let after = claim 60 upload "h" 5 [] in
    ((after.1 ≡ claimed)
      × (live_row upload 5 [] ≡ none)
      × (fetch idempotency_keys upload after.0 ≡ some (pending_row upload "h" 5 60)))
    ⊎ ((after.1 ≢ claimed)
        × ((row : Row) × (live_row upload 5 [] ≡ some row) × (after.1 ≡ answer "h" row))
        × (after.0 ≡ unexpired 5 []))
claim-claimed_example = claim-claimed_iff 60 upload "h" 5 []

-- Another request claims the slot before the completion, and the request itself claims it again, and
-- is too late with its release.
completed_replay_example :
    let granted = (claim 60 upload hash 5 []).0 in
    let before = happen_all 60 ((claims upload other, 6) ∷ []) granted in
    let stored = store_completed 60 upload hash 20_000_000 created before in
    let found =
      happen_all 60
        ((claims upload hash, 30_000_000) ∷ (releases upload hash, 40_000_000) ∷ [])
        stored in
    ((claim 60 upload hash 70_000_000 found).1 ≡ replay (replayed created))
    × (other ≢ hash → (claim 60 upload other 70_000_000 found).1 ≡ conflict)
unfolding fetch
completed_replay_example =
    completed_replay 60 upload hash other 5 20_000_000 70_000_000 created
      ((claims upload other, 6) ∷ [])
      ((claims upload hash, 30_000_000) ∷ (releases upload hash, 40_000_000) ∷ []) [] refl
      ((tt, omega arith), tt) ((tt, omega arith), ((inr (inl refl), omega arith), tt)) (omega arith)

-- Two requests race for the slot, and the loser tries again after the winner's response.
abbrev race : List (Call × ℕ)
race =
    (claims upload "h", 5)
    ∷ (claims upload "h", 6)
    ∷ (completes upload "h" created, 30)
    ∷ (claims upload "h", 40)
    ∷ []

grant_count_example : grant_count 60 upload race [] ≤ 1
grant_count_example = grant_count-le-one 60 upload 5 race [] (omega arith)

claim_postgres-alone_example :
    claim_postgres 60 upload "h" 5 alone alone alone (done ∷ [])
    ≡ ((claim 60 upload "h" 5 (done ∷ [])).0, some (claim 60 upload "h" 5 (done ∷ [])).1)
claim_postgres-alone_example = claim_postgres-alone 60 upload "h" 5 (done ∷ [])

-- Another transaction deletes the row that the first INSERT met.
abbrev delete_all : Others
delete_all table = []

-- The upload is granted after the row that it met is deleted, and the commit of its completion or
-- release is not confirmed.
abbrev upload_granted : List Row
upload_granted = pending_row upload hash 5 60 ∷ []

claim_postgres-IsSettled_example :
    let granted = claim_postgres 60 upload hash 5 delete_all alone alone (done ∷ []) in
    IsSettled unconfirmed
      (later_answer 60 upload hash 40_000_000 alone alone alone)
      created
      (store_completed_postgres unconfirmed 60 upload hash 20_000_000 created granted.0)
      (release_pending_postgres unconfirmed upload hash granted.0)
unfolding claim_postgres fetch row_count insert
claim_postgres-IsSettled_example =
    claim_postgres-IsSettled unconfirmed 60 upload hash 5 20_000_000 40_000_000 created delete_all
      alone alone alone alone alone (done ∷ []) refl (omega arith) (λ table. refl) (omega arith)
      (omega arith)
