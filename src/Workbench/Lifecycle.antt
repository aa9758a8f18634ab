-- ===== src/Workbench/Lifecycle.antt =====
-- backend/services/workbench_task_store.py: the states of a task, under any history of calls to the
-- repository.
use goat_ai.Prelude.{
  ℕ, suc, ◌≤◌, ◌≡◌, refl, ◌∙◌, inl, inr, String, Bool, true, false, ◌&&◌, Option, none, some, List,
  [], ◌∷◌, arith, if◌then◌else◌, str_eq, eq_iff, Bool-cases, Option-cases, &&_iff,
}
use goat_ai.Prelude.Table.{fetch}
use goat_ai.Prelude.Table.Update.{update_where_cases}
use goat_ai.Workbench.Store.{
  claim_row, update_task, claim_found, claim_task_for_execution_in_transaction,
}
use goat_ai.Workbench.Calls.{
  Call, creates, claims, completes, fails, cancels, notes, outputs, replaces, apply, apply_all,
  claim_task_for_execution, claimed,
}
use goat_ai.Workbench.Effect.{effect, apply-fetch}
use goat_ai.Workbench.{
  Status, queued, running, completed, failed, cancelled, TaskRow, Database, task_by_id, is_queued,
  is_open, is_terminal,
}

-- The transitions of a task.
pub data TaskMoves (s t : Status) : Type 0 where
  keep : t ≡ s → TaskMoves s t
  claim : s ≡ queued → t ≡ running → TaskMoves s t
  complete : s ≡ running → t ≡ completed → TaskMoves s t
  fail : is_open s ≡ true → t ≡ failed → TaskMoves s t
  cancel : s ≡ queued → t ≡ cancelled → TaskMoves s t

effect-TaskMoves :
    (c : Call) (id : String) (r : TaskRow) → TaskMoves r.status (effect c id r).status
effect-TaskMoves (creates payload) id r = keep refl
effect-TaskMoves (claims j a) id r = grind (arith, keep, claim)
effect-TaskMoves (completes j a t c n) id r = grind (arith, keep, complete)
effect-TaskMoves (fails j a d) id r = grind (arith, keep, fail)
effect-TaskMoves (cancels j a d) id r = grind (arith, keep, cancel)
effect-TaskMoves (notes j k a s m d) id r = keep refl
effect-TaskMoves (outputs payload) id r = keep refl
effect-TaskMoves (replaces j m a) id r = keep refl

-- No call loses a task, and each keeps its status or makes one of the transitions: claimed from
-- queued; completed from running; failed from queued or running; cancelled from queued.
pub apply-TaskMoves :
    (c : Call) (id : String) (db : Database) (r : TaskRow)
    → fetch task_by_id id db.tasks ≡ some r
    → (r' : TaskRow) × (fetch task_by_id id (apply c db).tasks ≡ some r')
      × TaskMoves r.status r'.status
apply-TaskMoves c id db r e = (_, apply-fetch c id db r e, effect-TaskMoves c id r)

pub effect-ended :
    (c : Call) (id : String) (r : TaskRow) → is_terminal r.status ≡ true → effect c id r ≡ r
effect-ended (creates payload) id r h = refl
effect-ended (notes j k a s m d) id r h = refl
effect-ended (outputs payload) id r h = refl
effect-ended (replaces j m a) id r h = refl
effect-ended _ id r h = ground arith

-- A task that has ended is never written again: under every history of calls its whole row stays,
-- its status, result, citations, error and time of change included.
pub ended_task_stays :
    (calls : List Call) (id : String) (db : Database) (r : TaskRow)
    → fetch task_by_id id db.tasks ≡ some r
    → is_terminal r.status ≡ true
    → fetch task_by_id id (apply_all calls db).tasks ≡ some r
unfolding apply_all
ended_task_stays [] id db r e h = e
ended_task_stays (c ∷ calls) id db r e h =
    ended_task_stays calls id (apply c db) r (apply-fetch c id db r e ∙ rw (effect-ended c id r h))
      h

abbrev is_some : {A : Type 0} → Option A → Bool
is_some none = false
is_some (some a) = true

-- Whether a call claims the task: `claim_task_for_execution` returns its record.
unfoldable pub claims_it : String → Call → Database → Bool
claims_it id (claims j updated_at) db =
    str_eq id j && is_some (claim_task_for_execution j updated_at db).1
claims_it id _ db = false

-- How often a history claims the task.
unfoldable pub claim_count : String → List Call → Database → ℕ
claim_count id [] db = 0
claim_count id (c ∷ calls) db =
    let rest = claim_count id calls (apply c db) in if claims_it id c db then suc rest else rest

-- A task is claimed only from queued.
claims_it-queued :
    (id : String) (c : Call) (db : Database)
    → claims_it id c db ≡ true
    → (r : TaskRow) × (fetch task_by_id id db.tasks ≡ some r)
      × (is_queued (effect c id r).status ≡ false)
      × (is_queued r.status ≡ true)
unfolding claims_it claim_task_for_execution claimed claim_task_for_execution_in_transaction
    claim_found update_task
claims_it-queued id (claims j a) db h = elim (Option-cases (fetch task_by_id j db.tasks)) [
  | inl missing ↦ let lost = (rw missing at h) in ground arith
  | inr (current, found) ↦
      let (hit, won) = (&&_iff (str_eq id j) _).0 (rw found at h) in
      elim (update_where_cases task_by_id j (λ v. is_queued v.status) (claim_row a) db.tasks) [
        | inl miss ↦ let lost = (rw miss at won) in cc
        | inr (r, is, was, changed) ↦ (r, rw ((eq_iff id j).0 hit) is, rw (hit, was), was)
      ]
]
claims_it-queued id _ db h = cc

pub effect-left_queue :
    (c : Call) (id : String) (r : TaskRow)
    → is_queued r.status ≡ false
    → is_queued (effect c id r).status ≡ false
effect-left_queue _ id r h = ground arith

-- Once it has left the queue, a task is claimed no more.
claim_count_left :
    (id : String) (calls : List Call) (db : Database) (r : TaskRow)
    → fetch task_by_id id db.tasks ≡ some r
    → is_queued r.status ≡ false
    → claim_count id calls db ≡ 0
unfolding claim_count
claim_count_left id [] db r e h = refl
claim_count_left id (c ∷ calls) db r e h =
    let rest =
      claim_count_left id calls (apply c db) (effect c id r) (apply-fetch c id db r e)
        (effect-left_queue c id r h) in
    elim (Bool-cases (claims_it id c db)) [
      | inl won ↦ let (q, found, after, was) = claims_it-queued id c db won in ground arith
      | inr lost ↦ rw lost rest
    ]

-- However the calls of any number of workers interleave, at most one of them claims a task:
-- `claim_task_for_execution` returns a record at most once for an id.
pub claim_count-le-one :
    (id : String) (calls : List Call) (db : Database) → claim_count id calls db ≤ 1
unfolding claim_count
claim_count-le-one id [] db = omega arith
claim_count-le-one id (c ∷ calls) db = elim (Bool-cases (claims_it id c db)) [
  | inl won ↦
      let (r, found, after, was) = claims_it-queued id c db won in
      rw won (
        omega (arith, claim_count_left id calls (apply c db) _ (apply-fetch c id db r found) after))
  | inr lost ↦ rw lost (claim_count-le-one id calls (apply c db))
]
