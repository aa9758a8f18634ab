-- ===== src/Workbench/Requests/Tests.antt =====
-- backend/application/workbench_task_lifecycle.py: requests about one task.
use goat_ai.Prelude.{refl, true, [], ◌∷◌, eq_iff, inl, inr}
use goat_ai.Prelude.Table.{fetch}
use goat_ai.Authz.{AuthorizationContext, has_scope}
use goat_ai.Authz.Ownership.{ownership_from_resource}
use goat_ai.Workbench.Calls.{claims, row_to_task}
use goat_ai.Workbench.Requests.{RequestSettings}
use goat_ai.Workbench.Requests.Writes.{cancel_workbench_task, retry_workbench_task}
use goat_ai.Workbench.Requests.Writes.Settled.{CancelSettled, cancel-settles}
use goat_ai.Workbench.Requests.Writes.Created.{RetrySettled, retry-settles}
use goat_ai.Workbench.Requests.Hidden.{IsNotFound, hidden-IsNotFound}
use goat_ai.Workbench.Tests.{task_id, waiting, ended, with_task, settings, caller}

abbrev request_settings : RequestSettings
request_settings = record { agent_workbench_enabled = true; sources = settings }

abbrev bob : AuthorizationContext
bob = record caller { legacy_owner_id = "bob" }

-- A worker claims the task between the check and the cancellation.
cancel-settles_example : CancelSettled request_settings caller task_id (with_task waiting) (
    cancel_workbench_task request_settings caller 5
      (claims task_id 4 ∷ [])
      task_id
      (with_task waiting))
cancel-settles_example =
    cancel-settles request_settings caller 5 (claims task_id 4 ∷ []) task_id (with_task waiting)

retry-settles_example :
    RetrySettled request_settings caller task_id
      (with_task ended)
      (retry_workbench_task request_settings caller "2" 5 task_id (with_task ended))
retry-settles_example = retry-settles request_settings caller "2" 5 task_id (with_task ended)

hidden-IsNotFound_example :
    IsNotFound request_settings bob 5 [] "2" (with_task waiting) task_id
    × IsNotFound request_settings bob 5 [] "2" (with_task waiting) "wb-none"
unfolding fetch has_scope ownership_from_resource row_to_task
hidden-IsNotFound_example =
    hidden-IsNotFound request_settings bob 5 [] "2" (with_task waiting) task_id "wb-none" waiting
      refl refl refl refl
      (λ seen. elim seen.1 [
        | inl (nobody, p) ↦ cc ((eq_iff "bob" "").1 nobody)
        | inr (named, same) ↦ cc ((eq_iff "alice" "bob").1 same)
      ])
      refl
