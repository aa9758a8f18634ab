-- ===== src/Workbench/Sources.antt =====
-- backend/services/workbench_source_catalog.py and workbench_source_registry.py: the retrieval sources
-- and which of them a caller may use. The status of the web search, whether langgraph can be imported,
-- and the connector bindings that the settings' JSON holds are parameters.
pub mod Requested
use goat_ai.Prelude.{
  ◌≡◌, ◌&&◌, ◌||◌, String, Bool, true, false, not, Option, none, some, List, [], ◌∷◌, ◌++◌, map,
  select, if◌then◌else◌, member, str_eq, eq_iff,
}
use goat_ai.Prelude.Table.{Keyed, fetch, put}
use goat_ai.Prelude.Sort.{text_before, sort_by}
use goat_ai.Prelude.Text.{append_text}
use goat_ai.Prelude.Text.Strip.{strip}
use goat_ai.Authz.{AuthorizationContext, AuthorizationDecision, authorize_workbench_source_read}

-- WorkbenchSourceDescriptor
pub record Descriptor : Type 0 where
  pub source_id : String
  pub display_name : String
  pub kind : String
  pub scope_kind : String
  pub capabilities : List String
  pub task_kinds : List String
  pub read_only : Bool
  pub runtime_ready : Bool
  pub deny_reason : Option String
  pub description : String
  pub required_scope : Option String
  pub allowed_tenant_ids : List String
  pub allowed_principal_ids : List String
  pub allowed_owner_ids : List String
  pub requires_project_id : Bool

-- WorkbenchConnectorBinding, less its documents, which the catalog does not read.
pub record Binding : Type 0 where
  pub source_id : String
  pub display_name : String
  pub description : String
  pub capabilities : List String
  pub task_kinds : List String
  pub tenant_ids : List String
  pub principal_ids : List String
  pub owner_ids : List String

-- What the settings and the process say.
pub record SourceSettings : Type 0 where
  pub workbench_langgraph_enabled : Bool
  pub langgraph_importable : Bool
  pub web_runtime_ready : Bool
  pub web_deny_reason : Option String
  pub web_description : String
  pub connector_bindings : List Binding
  pub require_session_owner : Bool

-- _readonly_source_runtime_status
abbrev pub readonly_source_runtime_status : SourceSettings → Bool × Option String
readonly_source_runtime_status settings =
    if not settings.workbench_langgraph_enabled
    then (false, some "disabled_by_operator")
    else if settings.langgraph_importable
    then (true, none)
    else (false, some "not_implemented")

-- _connector_descriptor
abbrev pub connector_descriptor : Bool → Option String → Binding → Descriptor
connector_descriptor runtime_ready deny_reason binding = record {
  source_id = binding.source_id;
  display_name = binding.display_name;
  kind = "connector";
  scope_kind = "connector_binding";
  capabilities = binding.capabilities;
  task_kinds = binding.task_kinds;
  read_only = true;
  runtime_ready = runtime_ready;
  deny_reason = deny_reason;
  description = binding.description;
  required_scope = none;
  allowed_tenant_ids = binding.tenant_ids;
  allowed_principal_ids = binding.principal_ids;
  allowed_owner_ids = binding.owner_ids;
  requires_project_id = false;
}

abbrev pub web_source : SourceSettings → Descriptor
web_source settings = record {
  source_id = "web";
  display_name = "Public Web";
  kind = "builtin";
  scope_kind = "global";
  capabilities = "search" ∷ "citations" ∷ [];
  task_kinds = "browse" ∷ "deep_research" ∷ [];
  read_only = true;
  runtime_ready = settings.web_runtime_ready;
  deny_reason = settings.web_deny_reason;
  description = settings.web_description;
  required_scope = none;
  allowed_tenant_ids = [];
  allowed_principal_ids = [];
  allowed_owner_ids = [];
  requires_project_id = false;
}

abbrev pub knowledge_source : Descriptor
knowledge_source = record {
  source_id = "knowledge";
  display_name = "Knowledge Base";
  kind = "knowledge";
  scope_kind = "knowledge_documents";
  capabilities = "search" ∷ "fetch" ∷ "citations" ∷ [];
  task_kinds = "plan" ∷ "browse" ∷ "deep_research" ∷ [];
  read_only = true;
  runtime_ready = true;
  deny_reason = none;
  description =
      "Indexed GOAT AI knowledge documents scoped by tenant, principal, and owner visibility.";
  required_scope = some "knowledge:read";
  allowed_tenant_ids = [];
  allowed_principal_ids = [];
  allowed_owner_ids = [];
  requires_project_id = false;
}

abbrev pub project_memory_source : Bool → Option String → Descriptor
project_memory_source runtime_ready deny_reason = record {
  source_id = "project_memory";
  display_name = "Project Memory";
  kind = "project_memory";
  scope_kind = "project_scope";
  capabilities = "search" ∷ "citations" ∷ [];
  task_kinds = "browse" ∷ "deep_research" ∷ [];
  read_only = true;
  runtime_ready = runtime_ready;
  deny_reason = deny_reason;
  description =
      "Read-only retrieval over caller-visible durable workspace outputs for the requested project scope.";
  required_scope = none;
  allowed_tenant_ids = [];
  allowed_principal_ids = [];
  allowed_owner_ids = [];
  requires_project_id = true;
}

unfoldable pub build_workbench_source_catalog : SourceSettings → List Descriptor
build_workbench_source_catalog settings =
    let (ready, reason) = readonly_source_runtime_status settings in
    web_source settings
    ∷ knowledge_source
    ∷ project_memory_source ready reason
    ∷ map (connector_descriptor ready reason) settings.connector_bindings

abbrev pub source_by_id : Keyed String Descriptor
source_by_id = record { key = λ d. d.source_id; beq = str_eq; beq_iff = eq_iff }

-- A dict comprehension: of two sources with one id, the later is kept.
unfoldable pub index_sources : List Descriptor → List Descriptor → List Descriptor
index_sources rows [] = rows
index_sources rows (d ∷ ds) = index_sources (put source_by_id d rows) ds

unfoldable pub build_workbench_source_catalog_by_id : SourceSettings → String → Option Descriptor
build_workbench_source_catalog_by_id settings source_id =
    fetch source_by_id source_id (index_sources [] (build_workbench_source_catalog settings))

abbrev pub source_decision :
    SourceSettings → AuthorizationContext → Descriptor → AuthorizationDecision
source_decision settings ctx d =
    authorize_workbench_source_read ctx d.required_scope d.allowed_tenant_ids
      d.allowed_principal_ids d.allowed_owner_ids settings.require_session_owner

unfoldable pub list_workbench_sources : SourceSettings → AuthorizationContext → List Descriptor
list_workbench_sources settings ctx =
    select (λ d. (source_decision settings ctx d).allowed) (build_workbench_source_catalog settings)

-- `if source_id and source_id not in normalized: normalized.append(source_id)`
unfoldable pub add_source_id : List String → String → List String
add_source_id normalized source_id =
    if not (str_eq source_id "") && not (member source_id normalized)
    then normalized ++ source_id ∷ []
    else normalized

unfoldable pub add_source_ids : List String → List String → List String
add_source_ids normalized [] = normalized
add_source_ids normalized (raw ∷ rest) = add_source_ids (add_source_id normalized (strip raw)) rest

abbrev pub has_any : List String → Bool
has_any [] = false
has_any (x ∷ xs) = true

unfoldable pub normalize_requested_source_ids :
    List String → List String → List String → List String
normalize_requested_source_ids source_ids connector_ids knowledge_document_ids =
    let normalized = add_source_ids [] (source_ids ++ connector_ids) in
    if has_any knowledge_document_ids && not (member "knowledge" normalized)
    then normalized ++ "knowledge" ∷ []
    else normalized

-- The three lists of `resolve_requested_sources`.
pub record Resolution : Type 0 where
  pub resolved : List Descriptor
  pub missing : List String
  pub denied : List String

abbrev pub no_sources : Resolution
no_sources = record { resolved = []; missing = []; denied = [] }

-- One id, in front of what is found for the later ones.
unfoldable pub resolve_one :
    SourceSettings → AuthorizationContext → String → Option Descriptor → Resolution → Resolution
resolve_one settings ctx source_id none rest = record rest { missing = source_id ∷ rest.missing }
resolve_one settings ctx source_id (some d) rest =
    let decision = source_decision settings ctx d in
    if decision.allowed
    then record rest { resolved = d ∷ rest.resolved }
    else if decision.conceal_existence
    then record rest { missing = source_id ∷ rest.missing }
    else record rest { denied = source_id ∷ rest.denied }

unfoldable pub resolve_each :
    SourceSettings → AuthorizationContext → (String → Option Descriptor) → List String → Resolution
resolve_each settings ctx descriptors [] = no_sources
resolve_each settings ctx descriptors (source_id ∷ rest) =
    resolve_one settings ctx source_id (descriptors source_id)
      (resolve_each settings ctx descriptors rest)

-- `sorted(dict.fromkeys(names))`
unfoldable pub distinct : List String → List String
distinct [] = []
distinct (x ∷ xs) = let rest = distinct xs in if member x rest then rest else x ∷ rest

abbrev pub comma_join : List String → String
comma_join [] = ""
comma_join (x ∷ []) = x
comma_join (x ∷ y ∷ rest) = append_text x (append_text ", " (comma_join (y ∷ rest)))

abbrev pub joined_names : List String → String
joined_names names = comma_join (sort_by text_before (distinct names))

-- The sources, or the PermissionError or ValueError with its message.
pub data Sources : Type 0 where
  found : List Descriptor → Sources
  permission_error : String → Sources
  value_error : String → Sources

unfoldable pub conclude_sources : Resolution → Sources
conclude_sources r =
    if has_any r.denied
    then permission_error (
        append_text "Caller lacks permission to use the requested workbench sources: "
          (joined_names r.denied))
    else if has_any r.missing
    then value_error
        (append_text "Unknown or unavailable workbench sources: " (joined_names r.missing))
    else found r.resolved

unfoldable pub resolve_with :
    SourceSettings → AuthorizationContext → (String → Option Descriptor) → List String → Sources
resolve_with settings ctx descriptors source_ids =
    conclude_sources (resolve_each settings ctx descriptors source_ids)

unfoldable pub resolve_requested_sources :
    List String → SourceSettings → AuthorizationContext → Sources
resolve_requested_sources source_ids settings ctx =
    resolve_with settings ctx (build_workbench_source_catalog_by_id settings) source_ids
