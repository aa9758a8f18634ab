-- ===== src/Workbench/Runs.antt =====
-- backend/services/workbench_execution_service.py: what a run of a task works on. Before each reading of
-- the clock, other threads and processes may make calls of their own. What the language model, the
-- knowledge base, the web search and the research runtime answer are parameters, exceptions included.
use goat_ai.Prelude.{ℕ, suc, String, Bool, Option, some, List}
use goat_ai.Prelude.Json.{Json}
use goat_ai.Authz.{AuthorizationContext}
use goat_ai.Workbench.Sources.{SourceSettings}
use goat_ai.Workbench.Calls.{Call, completes, fails, notes, apply, apply_all}
use goat_ai.Workbench.{running, TaskRecord, Database}

-- The exceptions that `execute_workbench_task` tells apart.
pub data Failure : Type 0 where
  ollama_unavailable knowledge_document_not_found other_exception : Failure

pub data Answer (A : Type 0) : Type 0 where
  value : A → Answer A
  raises : Failure → Answer A

-- KnowledgeCitation. The score is a float, held as the JSON column holds it.
pub record Citation : Type 0 where
  pub document_id : String
  pub chunk_id : String
  pub filename : String
  pub snippet : String
  pub score : Json

-- KnowledgeSearchRequest
pub record SearchRequest : Type 0 where
  pub query : String
  pub document_ids : List String
  pub top_k : ℕ
  pub retrieval_profile : String

-- KnowledgeSearchResponse
pub record SearchResponse : Type 0 where
  pub query : String
  pub hits : List Citation
  pub effective_query : Option String

-- WebSearchHit
pub record WebHit : Type 0 where
  pub title : String
  pub url : String
  pub snippet : String
  pub rank : ℕ
  pub provider : String

-- The hits, a WebSearchError, or another exception.
pub data WebAnswer : Type 0 where
  web_hits : List WebHit → WebAnswer
  web_search_error : WebAnswer
  web_raises : Failure → WebAnswer

-- KnowledgeChatContext
pub record ChatContext : Type 0 where
  pub context_block : String
  pub citations : List Citation

-- How `execute_langgraph_research_task` ends.
pub data ResearchEnd : Type 0 where
  researched : String → List Citation → ResearchEnd
  no_runnable_sources execution_failed : ResearchEnd
  research_raises : Failure → ResearchEnd

-- The calls that are made until it ends, its own and those of others.
pub record ResearchRun : Type 0 where
  pub calls : List Call
  pub ending : ResearchEnd

-- The web_score of a rank is the float `max(0.0, 1.0 - (rank - 1) * 0.01)`.
pub record Tools : Type 0 where
  pub sources : SourceSettings
  pub workbench_web_provider : String
  pub workbench_web_max_results : ℕ
  pub knowledge_search : SearchRequest → AuthorizationContext → Answer SearchResponse
  pub web_search : String → ℕ → WebAnswer
  pub web_score : ℕ → Json
  pub context_builder : String → List String → ℕ → AuthorizationContext → Answer ChatContext
  pub list_model_names : Answer (List String)
  pub generate_completion : String → String → Answer String
  pub new_hex : ℕ → String
  pub langgraph_runtime_available : Bool
  pub research : TaskRecord → Database → ResearchRun

-- The n-th reading of the clock, and what others do before it.
pub record Surroundings : Type 0 where
  pub clock : ℕ → ℕ
  pub others : ℕ → List Call

pub record World : Type 0 where
  pub db : Database
  pub readings : ℕ

-- A call to the repository with the time of now.
unfoldable pub perform : Surroundings → (ℕ → Call) → World → World
perform env c w = record {
  db = apply (c (env.clock w.readings)) (apply_all (env.others w.readings) w.db);
  readings = suc w.readings;
}

-- _append_task_event, with the status "running"
unfoldable pub append_running_event : Surroundings → String → String → String → Json → World → World
append_running_event env task_id event_type message metadata =
    perform env (λ now. notes task_id event_type now (some running) (some message) (some metadata))

unfoldable pub fail_task : Surroundings → String → String → World → World
fail_task env task_id error_detail = perform env (λ now. fails task_id now error_detail)

unfoldable pub complete_task :
    Surroundings → String → String → Option (List Json) → ℕ → World → World
complete_task env task_id result_text citations count =
    perform env (λ now. completes task_id now result_text citations (some count))

-- What a part of a run leaves: the world, and the exception that it raised.
abbrev pub Attempt : Type 0
Attempt = World × Option Failure
