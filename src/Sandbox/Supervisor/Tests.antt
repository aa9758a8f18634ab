-- ===== src/Sandbox/Supervisor/Tests.antt =====
-- backend/services/code_sandbox_supervisor.py: two runs of one execution.
use goat_ai.Prelude.{◌≡◌, refl, String, true, false, ◌||◌, [], ◌∷◌, ◌≢◌, eq_iff}
use goat_ai.Prelude.Table.{fetch}
use goat_ai.Sandbox.Supervisor.{register_execution, request_cancel, release_execution}
use goat_ai.Sandbox.Supervisor.Events.{registers, cancels, releases, step, steps}
use goat_ai.Sandbox.Supervisor.Polls.{after, asks, poll-asks}
use goat_ai.Sandbox.Supervisor.Releases.{release-deafens}

abbrev run_id : String
run_id = "cs-1"

abbrev other_id : String
other_id = "cs-2"

-- The second run registers and gives up, and so releases the execution of the first.
second_run_deafens_first :
    let (s, event) = register_execution run_id (after []) in
    (steps (registers run_id ∷ releases run_id ∷ cancels run_id ∷ []) s).is_set event ≡ false
unfolding steps step register_execution request_cancel release_execution fetch
second_run_deafens_first = refl

-- A second run registers and releases the execution before cancellation is requested.
release-deafens_example :
    let (s, event) = register_execution run_id (after []) in
    let released = steps (registers run_id ∷ registers other_id ∷ []) s in
    (steps (releases run_id ∷ cancels run_id ∷ []) released).is_set event ≡ released.is_set event
release-deafens_example =
    release-deafens [] run_id (registers run_id ∷ registers other_id ∷ []) (cancels run_id ∷ [])

two_ids : run_id ≢ other_id
two_ids p = let same : false ≡ true = (eq_iff run_id other_id).1 p in cc

poll-asks_example :
    let (s, event) = register_execution run_id (after []) in
    (steps (cancels run_id ∷ releases other_id ∷ []) s).is_set event
    ≡ s.is_set event || asks run_id (cancels run_id ∷ releases other_id ∷ [])
poll-asks_example =
    poll-asks [] run_id (cancels run_id ∷ releases other_id ∷ []) (tt, (two_ids, tt))
