-- ===== src/Sandbox/Postgres/Tests.antt =====
-- backend/services/code_sandbox_runtime.py: the Postgres repository on one execution.
use goat_ai.Prelude.{◌≡◌, refl}
use goat_ai.Prelude.Table.{fetch}
use goat_ai.Sandbox.Calls.{logs}
use goat_ai.Sandbox.Postgres.{
  insert_execution_child, insert_chunk_postgres, append_log_chunk_postgres, apply_postgres,
}
use goat_ai.Sandbox.Postgres.Outcomes.{Compares, apply_postgres-Compares}
use goat_ai.Sandbox.Tests.{one_queued}
use goat_ai.Sandbox.{out}

-- A log chunk of an execution that is not there.
apply_postgres-Compares_example : Compares (logs "cs-none" 3 out "hi") one_queued
apply_postgres-Compares_example = apply_postgres-Compares (logs "cs-none" 3 out "hi") one_queued

chunk_without_execution : apply_postgres (logs "cs-none" 3 out "hi") one_queued ≡ one_queued
unfolding apply_postgres append_log_chunk_postgres insert_chunk_postgres insert_execution_child
    fetch
chunk_without_execution = refl
