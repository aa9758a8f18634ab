-- ===== src/Authz.antt =====
-- Authorization: backend/domain/{authorization,authz_types,scope_catalog,resource_ownership}.py and
-- backend/services/authorizer.py. A scope is its text, since a credential may carry any.
pub mod Ownership
pub mod Allowed
pub mod Isolation
mod Tests
use goat_ai.Prelude.{
  String, Bool, true, false, not, ◌&&◌, ◌||◌, Option, none, some, List, [], ◌∷◌, ◌++◌, str_eq,
  if◌then◌else◌, member,
}
use Ownership.{PersistedResourceOwnership, Resource, ownership_from_resource}

pub record PrincipalId : Type 0 where
  pub value : String

pub record TenantId : Type 0 where
  pub value : String

pub record AuthorizationDecision : Type 0 where
  pub allowed : Bool
  pub reason_code : String
  pub conceal_existence : Bool

pub record AuthorizationContext : Type 0 where
  pub principal_id : PrincipalId
  pub tenant_id : TenantId
  pub scopes : List String
  pub credential_id : String
  pub legacy_owner_id : String
  pub auth_mode : String

abbrev pub workbench_read_scope : String
workbench_read_scope = "workbench:read"

abbrev pub workbench_write_scope : String
workbench_write_scope = "workbench:write"

abbrev pub workbench_export_scope : String
workbench_export_scope = "workbench:export"

abbrev pub read_scopes : List String
read_scopes =
    "chat:read" ∷ "history:read" ∷ "knowledge:read" ∷ "media:read" ∷ "artifact:read"
    ∷ workbench_read_scope ∷ []

abbrev pub write_scopes : List String
write_scopes =
    "chat:write" ∷ "history:write" ∷ "knowledge:write" ∷ "media:write" ∷ "artifact:write"
    ∷ "sandbox:execute" ∷ workbench_write_scope ∷ workbench_export_scope ∷ []

abbrev pub full_scopes : List String
full_scopes = read_scopes ++ write_scopes

-- AuthorizationDecision(False, reason, conceal_existence=conceal)
abbrev pub deny : String → Bool → AuthorizationDecision
deny reason conceal = record { allowed = false; reason_code = reason; conceal_existence = conceal }

-- AuthorizationDecision(True, "ok")
abbrev pub grant : AuthorizationDecision
grant = record { allowed = true; reason_code = "ok"; conceal_existence = false }

unfoldable pub has_scope : AuthorizationContext → String → Bool
has_scope ctx required_scope = member required_scope ctx.scopes

abbrev is_empty : String → Bool
is_empty s = str_eq s ""

pub owner_visible : String → String → Bool → Bool
owner_visible resource_owner_id legacy_owner_id require_owner_header =
    if require_owner_header && is_empty legacy_owner_id
    then false
    else if not require_owner_header && is_empty legacy_owner_id
    then true
    else if is_empty resource_owner_id
    then str_eq legacy_owner_id ""
    else str_eq resource_owner_id legacy_owner_id

-- `ownership.tenant_id and ownership.tenant_id != ctx.tenant_id.value`
pub tenant_mismatch : AuthorizationContext → PersistedResourceOwnership → Bool
tenant_mismatch ctx ownership =
    not (is_empty ownership.tenant_id) && not (str_eq ownership.tenant_id ctx.tenant_id.value)

-- `for required_scope in required_scopes`, then the checks on the resource.
pub authorize_owned_workbench_resource :
    AuthorizationContext → Resource → Bool → List String → AuthorizationDecision
unfolding tenant_mismatch
authorize_owned_workbench_resource ctx resource require_owner_header [] =
    let ownership = ownership_from_resource resource in
    if tenant_mismatch ctx ownership
    then deny "tenant_mismatch" true
    else if not (owner_visible ownership.owner_id ctx.legacy_owner_id require_owner_header)
    then deny "owner_mismatch" true
    else grant
authorize_owned_workbench_resource ctx resource require_owner_header (required_scope ∷ rest) =
    let next = authorize_owned_workbench_resource ctx resource require_owner_header rest in
    if not (has_scope ctx required_scope) then deny "scope_missing" false else next

pub authorize_session_read : AuthorizationContext → Resource → Bool → AuthorizationDecision
unfolding tenant_mismatch
authorize_session_read ctx session require_owner_header =
    let ownership = ownership_from_resource session in
    if not (has_scope ctx "history:read")
    then deny "scope_missing" false
    else if tenant_mismatch ctx ownership
    then deny "tenant_mismatch" true
    else if not (owner_visible ownership.owner_id ctx.legacy_owner_id require_owner_header)
    then deny "owner_mismatch" true
    else grant

pub authorize_artifact_read : AuthorizationContext → Resource → Bool → AuthorizationDecision
unfolding tenant_mismatch
authorize_artifact_read ctx artifact require_owner_header =
    let ownership = ownership_from_resource artifact in
    if not (has_scope ctx "artifact:read")
    then deny "scope_missing" false
    else if tenant_mismatch ctx ownership
    then deny "tenant_mismatch" true
    else if not (owner_visible ownership.owner_id ctx.legacy_owner_id require_owner_header)
    then deny "owner_mismatch" true
    else grant

pub authorize_knowledge_document_read :
    AuthorizationContext → Resource → Bool → AuthorizationDecision
unfolding tenant_mismatch
authorize_knowledge_document_read ctx document require_owner_header =
    let ownership = ownership_from_resource document in
    if not (has_scope ctx "knowledge:read")
    then deny "scope_missing" false
    else if tenant_mismatch ctx ownership
    then deny "tenant_mismatch" true
    else if not (owner_visible ownership.owner_id ctx.legacy_owner_id require_owner_header)
    then deny "owner_mismatch" true
    else grant

pub authorize_media_read : AuthorizationContext → Resource → Bool → AuthorizationDecision
unfolding tenant_mismatch
authorize_media_read ctx media require_owner_header =
    let ownership = ownership_from_resource media in
    if not (has_scope ctx "media:read")
    then deny "scope_missing" false
    else if tenant_mismatch ctx ownership
    then deny "tenant_mismatch" true
    else if not (owner_visible ownership.owner_id ctx.legacy_owner_id require_owner_header)
    then deny "owner_mismatch" true
    else grant

pub authorize_code_sandbox_execution_read :
    AuthorizationContext → Resource → Bool → AuthorizationDecision
unfolding tenant_mismatch
authorize_code_sandbox_execution_read ctx execution require_owner_header =
    let ownership = ownership_from_resource execution in
    if tenant_mismatch ctx ownership
    then deny "tenant_mismatch" true
    else if not (owner_visible ownership.owner_id ctx.legacy_owner_id require_owner_header)
    then deny "owner_mismatch" true
    else grant

pub authorize_session_write : AuthorizationContext → Resource → Bool → AuthorizationDecision
authorize_session_write ctx session require_owner_header =
    if not (has_scope ctx "history:write")
    then deny "scope_missing" false
    else authorize_session_read ctx session require_owner_header

pub authorize_knowledge_document_write :
    AuthorizationContext → Resource → Bool → AuthorizationDecision
authorize_knowledge_document_write ctx document require_owner_header =
    if not (has_scope ctx "knowledge:write")
    then deny "scope_missing" false
    else authorize_knowledge_document_read ctx document require_owner_header

pub authorize_workbench_task_read : AuthorizationContext → Resource → Bool → AuthorizationDecision
authorize_workbench_task_read ctx task require_owner_header =
    authorize_owned_workbench_resource ctx task require_owner_header (workbench_read_scope ∷ [])

pub authorize_workbench_task_write : AuthorizationContext → Resource → Bool → AuthorizationDecision
authorize_workbench_task_write ctx task require_owner_header =
    authorize_owned_workbench_resource ctx task require_owner_header (workbench_write_scope ∷ [])

pub authorize_workbench_output_read : AuthorizationContext → Resource → Bool → AuthorizationDecision
authorize_workbench_output_read ctx output require_owner_header =
    authorize_owned_workbench_resource ctx output require_owner_header (workbench_read_scope ∷ [])

pub authorize_workbench_output_export :
    AuthorizationContext → Resource → Bool → AuthorizationDecision
authorize_workbench_output_export ctx output require_owner_header =
    authorize_owned_workbench_resource ctx output require_owner_header
      (workbench_read_scope ∷ workbench_export_scope ∷ "artifact:write" ∷ [])

abbrev is_nil : List String → Bool
is_nil [] = true
is_nil (x ∷ xs) = false

-- `required_scope is not None and not _has_scope(ctx, required_scope)`
lacks : AuthorizationContext → Option String → Bool
lacks ctx none = false
lacks ctx (some required_scope) = not (has_scope ctx required_scope)

unfoldable pub authorize_workbench_source_read :
    AuthorizationContext
    → Option String
    → List String
    → List String
    → List String
    → Bool
    → AuthorizationDecision
unfolding lacks
authorize_workbench_source_read ctx required_scope allowed_tenant_ids allowed_principal_ids
      allowed_owner_ids require_owner_header =
    if not (has_scope ctx workbench_read_scope)
    then deny "scope_missing" false
    else if lacks ctx required_scope
    then deny "scope_missing" false
    else if not (is_nil allowed_tenant_ids) && not (member ctx.tenant_id.value allowed_tenant_ids)
    then deny "tenant_mismatch" true
    else if not (is_nil allowed_principal_ids)
        && not (member ctx.principal_id.value allowed_principal_ids)
    then deny "principal_mismatch" true
    else if not (is_nil allowed_owner_ids) && require_owner_header && is_empty ctx.legacy_owner_id
    then deny "owner_mismatch" true
    else if not (is_nil allowed_owner_ids) && not (member ctx.legacy_owner_id allowed_owner_ids)
    then deny "owner_mismatch" true
    else grant

pub workbench_read_policy_allowed : AuthorizationContext → Bool
workbench_read_policy_allowed ctx = has_scope ctx workbench_read_scope

pub workbench_write_policy_allowed : AuthorizationContext → Bool
workbench_write_policy_allowed ctx = has_scope ctx workbench_write_scope

pub workbench_export_policy_allowed : AuthorizationContext → Bool
workbench_export_policy_allowed ctx = has_scope ctx workbench_export_scope
