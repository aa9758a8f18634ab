-- ===== src/Authz/Allowed.antt =====
-- backend/services/authorizer.py: who is let through, stated without the code's order of checks.
use goat_ai.Prelude.{
  String, ◌≡◌, refl, ◌≢◌, ◌↔◌, ◌⊎◌, Bool, true, false, List, [], ◌∷◌, arith, eq_iff, All,
}
use goat_ai.Authz.Ownership.{PersistedResourceOwnership, Resource, ownership_from_resource}
use goat_ai.Authz.{
  AuthorizationContext, has_scope, owner_visible, tenant_mismatch,
  authorize_owned_workbench_resource, authorize_session_read, authorize_artifact_read,
  authorize_knowledge_document_read, authorize_media_read, authorize_code_sandbox_execution_read,
  authorize_session_write, authorize_knowledge_document_write, authorize_workbench_task_write,
}

-- The caller names the owner that the resource has, or names none where none is required.
abbrev pub OwnsIt : AuthorizationContext → PersistedResourceOwnership → Bool → Type 0
OwnsIt ctx ownership require_owner_header =
    ((ctx.legacy_owner_id ≡ "") × (require_owner_header ≡ false))
    ⊎ ((ctx.legacy_owner_id ≢ "") × (ownership.owner_id ≡ ctx.legacy_owner_id))

abbrev pub SameTenant : AuthorizationContext → PersistedResourceOwnership → Type 0
SameTenant ctx ownership = (ownership.tenant_id ≡ "") ⊎ (ownership.tenant_id ≡ ctx.tenant_id.value)

abbrev pub Visible : AuthorizationContext → Resource → Bool → Type 0
Visible ctx resource require_owner_header =
    let ownership = ownership_from_resource resource in
    SameTenant ctx ownership × OwnsIt ctx ownership require_owner_header

abbrev pub HasAll : AuthorizationContext → List String → Type 0
HasAll ctx required_scopes = All (λ s. has_scope ctx s ≡ true) required_scopes

pub owner_visible_iff :
    (ctx : AuthorizationContext) (o : PersistedResourceOwnership) (require_owner_header : Bool)
    → (owner_visible o.owner_id ctx.legacy_owner_id require_owner_header ≡ true)
      ↔ OwnsIt ctx o require_owner_header
unfolding owner_visible
owner_visible_iff ctx o require_owner_header = (
  ground (
    arith,
    eq_iff ctx.legacy_owner_id "",
    eq_iff o.owner_id "",
    eq_iff o.owner_id ctx.legacy_owner_id,
  ),
  ground (
    arith,
    eq_iff ctx.legacy_owner_id "",
    eq_iff o.owner_id "",
    eq_iff o.owner_id ctx.legacy_owner_id,
  ),
)

pub tenant_mismatch_iff :
    (ctx : AuthorizationContext) (o : PersistedResourceOwnership)
    → (tenant_mismatch ctx o ≡ false) ↔ SameTenant ctx o
unfolding tenant_mismatch
tenant_mismatch_iff ctx o = (
  ground (arith, eq_iff o.tenant_id "", eq_iff o.tenant_id ctx.tenant_id.value),
  ground (arith, eq_iff o.tenant_id "", eq_iff o.tenant_id ctx.tenant_id.value),
)

-- A caller is let through to a resource exactly if it holds every required scope, is of the
-- resource's tenant (or the resource has none), and names the owner that the resource has, or names
-- none where none is required.
pub authorize_owned-allowed_iff :
    (ctx : AuthorizationContext) (resource : Resource) (require_owner_header : Bool)
    (required_scopes : List String)
    → ((authorize_owned_workbench_resource ctx resource require_owner_header
          required_scopes).allowed
        ≡ true)
      ↔ (HasAll ctx required_scopes × Visible ctx resource require_owner_header)
unfolding authorize_owned_workbench_resource
authorize_owned-allowed_iff ctx resource require_owner_header [] =
    let o = ownership_from_resource resource in
    let owner = owner_visible_iff ctx o require_owner_header in
    let tenant = tenant_mismatch_iff ctx o in
    (ground (arith, owner, tenant), ground (arith, owner, tenant))
authorize_owned-allowed_iff ctx resource require_owner_header (s ∷ required_scopes) =
    let rest = authorize_owned-allowed_iff ctx resource require_owner_header required_scopes in
    (ground (arith, rest), ground (arith, rest))

-- A denial hides that the resource exists exactly if the caller holds every required scope: only a
-- missing scope is told openly.
pub authorize_owned-conceal_iff :
    (ctx : AuthorizationContext) (resource : Resource) (require_owner_header : Bool)
    (required_scopes : List String)
    → let decision =
        authorize_owned_workbench_resource ctx resource require_owner_header required_scopes in
      (decision.conceal_existence ≡ true)
      ↔ (HasAll ctx required_scopes × (decision.allowed ≡ false))
unfolding authorize_owned_workbench_resource
authorize_owned-conceal_iff ctx resource require_owner_header [] = (ground arith, ground arith)
authorize_owned-conceal_iff ctx resource require_owner_header (s ∷ required_scopes) =
    let rest = authorize_owned-conceal_iff ctx resource require_owner_header required_scopes in
    (ground (arith, rest), ground (arith, rest))

-- The reader of each kind of resource is the reader of workbench resources at its own scope; that of
-- sandbox executions asks for no scope.
pub readers_agree :
    (ctx : AuthorizationContext) (resource : Resource) (require_owner_header : Bool)
    → let owned = authorize_owned_workbench_resource ctx resource require_owner_header in
      (authorize_session_read ctx resource require_owner_header ≡ owned ("history:read" ∷ []))
      × (authorize_artifact_read ctx resource require_owner_header ≡ owned ("artifact:read" ∷ []))
      × (authorize_knowledge_document_read ctx resource require_owner_header
          ≡ owned ("knowledge:read" ∷ []))
      × (authorize_media_read ctx resource require_owner_header ≡ owned ("media:read" ∷ []))
      × (authorize_code_sandbox_execution_read ctx resource require_owner_header ≡ owned [])
unfolding authorize_owned_workbench_resource authorize_session_read authorize_artifact_read
    authorize_knowledge_document_read authorize_media_read authorize_code_sandbox_execution_read
readers_agree ctx resource require_owner_header = (refl, refl, refl, refl, refl)

-- A session or a document may be written exactly if the caller holds the write scope and may read
-- it; a workbench task may be written without the scope to read it.
pub writers-allowed_iff :
    (ctx : AuthorizationContext) (resource : Resource) (require_owner_header : Bool)
    → (((authorize_session_write ctx resource require_owner_header).allowed ≡ true) ↔ (
        HasAll ctx ("history:write" ∷ "history:read" ∷ [])
        × Visible ctx resource require_owner_header))
      × (((authorize_knowledge_document_write ctx resource require_owner_header).allowed ≡ true) ↔ (
          HasAll ctx ("knowledge:write" ∷ "knowledge:read" ∷ [])
          × Visible ctx resource require_owner_header))
      × (((authorize_workbench_task_write ctx resource require_owner_header).allowed ≡ true)
          ↔ (HasAll ctx ("workbench:write" ∷ []) × Visible ctx resource require_owner_header))
unfolding authorize_session_write authorize_knowledge_document_write authorize_workbench_task_write
writers-allowed_iff ctx resource require_owner_header =
    let owned = λ (scope : String).
      authorize_owned-allowed_iff ctx resource require_owner_header (scope ∷ []) in
    let agree = readers_agree ctx resource require_owner_header in
    let session = owned "history:read" in
    let document = owned "knowledge:read" in
    (
      (ground (arith, agree.0, session), ground (arith, agree.0, session)),
      (ground (arith, agree.2, document), ground (arith, agree.2, document)),
      owned "workbench:write",
    )
