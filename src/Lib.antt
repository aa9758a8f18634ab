-- ===== src/Lib.antt =====
-- A verification library for the backend of GOAT AI: who may do what, how often, and what the
-- durable records of sandbox executions and workbench tasks go through. Paths are from the
-- repository's root.
--
-- * Authz models backend/services/authorizer.py with its types in backend/domain: the functions
--   authorize_* take the caller's context and a resource and answer a decision. A resource is what
--   ownership_from_resource sees of it: an ownership record, or attributes that it may lack. A scope
--   is its text, since a credential may carry any. The routers and application services ask these
--   functions before they touch a record.
-- * Credentials models backend/domain/credential_registry.py: the credentials of the settings, with the
--   message of the first ValueError, and the context that Authz is asked with. The JSON library,
--   str, str.lower, SHA-256 and compare_digest are one record of parameters (Python).
-- * RateLimit models backend/domain/rate_limit_policy.py and backend/services/rate_limit_store.py and
--   rate_limiter.py. The store is a table of buckets by key, the time an argument. Times are exact
--   microseconds where the source has floats; key_for, a SHA-256 of the subject, is a parameter.
-- * Idempotency models backend/services/idempotency_service.py: the SQLite store as operations on the
--   table idempotency_keys, each one transaction, and those of the Postgres store: its claim,
--   where other transactions may change the table between its statements (Postgres), and its writes,
--   whose transaction may fail (Postgres/Settled). Exclusive and Replay are about
--   histories of these operations. The texts of times compare as the
--   times do. A request's hash is an argument.
-- * Sandbox models the execution repository of backend/services/code_sandbox_execution_store.py and
--   code_sandbox_log_store.py with the records of code_sandbox_runtime.py: the three tables are lists
--   in insertion order, a call is one transaction, and a history of calls from any number of
--   processes is a list of calls, since SQLite runs the transactions one after the other.
--   Sandbox/Output, Run and Recovery model backend/services/code_sandbox_execution_service.py over
--   that repository: the accumulator of a stream's output, execute_code_sandbox_execution, and the two
--   recoveries at start-up. What the provider sends is a list of items with an ending, and between two
--   items others may make any calls; the answers of cancel_requested and the times are parameters.
--   Sandbox/Supervisor models backend/services/code_sandbox_supervisor.py: its table of Events, the
--   Events as numbers of a store, since a poll keeps the Event that it was handed.
--   Sandbox/Postgres models the Postgres repository of backend/services/code_sandbox_runtime.py, whose
--   methods lock_parent_row puts in a line, one transaction each, over the same rows. It enforces the
--   foreign keys of backend/alembic/versions/20260413_01_runtime_metadata_baseline.py, which SQLite's
--   connections leave unchecked (Postgres/Parent); so does Workbench/Postgres.
-- * Workbench models durable tasks. Store and Calls are the transactions and the methods of the SQLite
--   repository (backend/services/workbench_runtime.py over workbench_task_store.py and
--   workbench_workspace_output_store.py), Postgres those of the Postgres repository. Sources is the
--   catalog and the resolution of retrieval sources (workbench_source_catalog.py,
--   workbench_source_registry.py), which asks Authz about each source. Execution models
--   workbench_execution_service.py, with the retrieval pass of
--   workbench_legacy_retrieval_executor.py in Retrieval, and plans and canvases
--   (workbench_plan_canvas_support.py) in PlanCanvas. A run works on a World, the database and the
--   number of readings of the clock; before the n-th reading, others may make any calls. What the
--   language model, the knowledge base, the web search and the langgraph runtime answer or raise is
--   a parameter (Runs), and an exception is a value that the part of the run returns. Requests is
--   backend/application/workbench_task_lifecycle.py with workbench_shared.py: what a caller is
--   answered, by the decisions of Authz, and what its request leaves in the database.
-- * Chat models backend/services/chat_message_merge.py: the search for the last user message is a
--   recursion that knows, on its way back, whether a later one was found.
--
-- Prelude holds what these share: keyed tables with the SQL statements that the code uses (Table),
-- rows that are numbered inside a scope (Sequence), texts, JSON values and Boolean tests.
--
-- A JSON column holds the value that it encodes. Timestamps are numbers of microseconds. All loops
-- are structural recursion: no definition takes fuel, and all functions are total.
--
-- Not modelled: the web framework, files, processes, models and the network; failures of a database
-- statement other than the refused INSERT of a second row with a key and the writes of
-- Postgres/Settled; the fields of the request that a
-- sandbox provider is handed, and the re-raise of its exception; audit events, counters and log lines;
-- the langgraph research runtime of the workbench, the float of a web hit's score and the parsing of the
-- connector bindings, which are parameters; the rest of chat, knowledge and accounts.
pub mod Prelude
pub mod Authz
pub mod RateLimit
pub mod Idempotency
pub mod Sandbox
pub mod Chat
pub mod Workbench
pub mod Credentials
