-- ===== src/Authz/Isolation.antt =====
-- backend/services/authorizer.py: what no caller gets, whatever the resource's kind.
use goat_ai.Prelude.{
  String, ◌≡◌, ◌≢◌, Bool, true, false, Option, none, some, List, [], ◌∷◌, ◌⊎◌, ◌↔◌, arith, eq_iff,
  str_eq, refl, if◌then◌else◌, member, All,
}
use goat_ai.Authz.Ownership.{Resource}
use goat_ai.Authz.Allowed.{Visible, authorize_owned-allowed_iff, readers_agree, writers-allowed_iff}
use goat_ai.Authz.{
  AuthorizationContext, AuthorizationDecision, has_scope, authorize_owned_workbench_resource,
  authorize_session_read, authorize_artifact_read, authorize_knowledge_document_read,
  authorize_media_read, authorize_code_sandbox_execution_read, authorize_session_write,
  authorize_knowledge_document_write, authorize_workbench_task_write, authorize_workbench_task_read,
  authorize_workbench_output_read, authorize_workbench_output_export,
  authorize_workbench_source_read, workbench_read_scope, workbench_write_scope, deny, grant,
}

-- What each of the eleven functions answers about one persisted resource.
abbrev pub decisions : AuthorizationContext → Resource → Bool → List AuthorizationDecision
decisions ctx resource require_owner_header =
    authorize_session_read ctx resource require_owner_header
    ∷ authorize_session_write ctx resource require_owner_header
    ∷ authorize_artifact_read ctx resource require_owner_header
    ∷ authorize_knowledge_document_read ctx resource require_owner_header
    ∷ authorize_knowledge_document_write ctx resource require_owner_header
    ∷ authorize_media_read ctx resource require_owner_header
    ∷ authorize_workbench_task_read ctx resource require_owner_header
    ∷ authorize_workbench_task_write ctx resource require_owner_header
    ∷ authorize_workbench_output_read ctx resource require_owner_header
    ∷ authorize_workbench_output_export ctx resource require_owner_header
    ∷ authorize_code_sandbox_execution_read ctx resource require_owner_header
    ∷ []

owned_hidden :
    (ctx : AuthorizationContext) (resource : Resource) (require_owner_header : Bool)
    (required_scopes : List String)
    → ¬ Visible ctx resource require_owner_header
    → (authorize_owned_workbench_resource ctx resource require_owner_header required_scopes).allowed
      ≡ false
owned_hidden ctx resource require_owner_header required_scopes h =
    ground (arith, authorize_owned-allowed_iff ctx resource require_owner_header required_scopes)

-- A resource that is not visible to the caller (of another tenant, or of another owner) is refused
-- by every function of the module that takes a resource, to read, to write or to export, whatever
-- scopes the caller holds.
pub invisible_refused :
    (ctx : AuthorizationContext) (resource : Resource) (require_owner_header : Bool)
    → ¬ Visible ctx resource require_owner_header
    → All (λ d. d.allowed ≡ false) (decisions ctx resource require_owner_header)
unfolding authorize_workbench_task_read authorize_workbench_task_write
    authorize_workbench_output_read authorize_workbench_output_export
invisible_refused ctx resource require_owner_header h =
    let owned = λ (scopes : List String). owned_hidden ctx resource require_owner_header scopes h in
    let (session, artifact, document, media, execution) =
      readers_agree ctx resource require_owner_header in
    let (session_write, document_write, task_write) =
      writers-allowed_iff ctx resource require_owner_header in
    (
      rw session (owned _),
      (
        ground (arith, session_write),
        (
          rw artifact (owned _),
          (
            rw document (owned _),
            (
              ground (arith, document_write),
              (
                rw media (owned _),
                (owned _, (owned _, (owned _, (owned _, (rw execution (owned []), tt))))),
              ),
            ),
          ),
        ),
      ),
    )

-- An empty list of allowed names allows every name.
abbrev pub Admits : List String → String → Type 0
Admits names name = (names ≡ []) ⊎ (member name names ≡ true)

abbrev pub Asked : AuthorizationContext → Option String → Type 0
Asked ctx none = Unit {0}
Asked ctx (some required_scope) = has_scope ctx required_scope ≡ true

-- A retrieval source is let through exactly if the caller holds the scope to read the workbench and
-- the source's own, and is on each of the three lists that is not empty; an owner list also wants an
-- owner named where owners are required.
pub source_read-allowed_iff :
    (ctx : AuthorizationContext) (required_scope : Option String)
    (tenants principals owners : List String) (require_owner_header : Bool)
    → ((authorize_workbench_source_read ctx required_scope tenants principals owners
          require_owner_header).allowed
        ≡ true)
      ↔ ((has_scope ctx workbench_read_scope ≡ true)
          × Asked ctx required_scope
          × Admits tenants ctx.tenant_id.value
          × Admits principals ctx.principal_id.value
          × Admits owners ctx.legacy_owner_id
          × ((owners ≡ []) ⊎ (require_owner_header ≡ false) ⊎ (ctx.legacy_owner_id ≢ "")))
unfolding authorize_workbench_source_read
source_read-allowed_iff ctx none tenants principals owners require_owner_header =
    (ground (arith, eq_iff ctx.legacy_owner_id ""), ground (arith, eq_iff ctx.legacy_owner_id ""))
source_read-allowed_iff ctx (some s) tenants principals owners require_owner_header =
    (ground (arith, eq_iff ctx.legacy_owner_id ""), ground (arith, eq_iff ctx.legacy_owner_id ""))

-- Of a resource that it may not see, a caller that holds the scope is told no missing scope.
abbrev pub Concealed : AuthorizationDecision → Type 0
Concealed d = (d.allowed ≡ false) × (str_eq d.reason_code "scope_missing" ≡ false)

told_reason :
    (mismatch foreign : Bool)
    → str_eq
        (if mismatch
          then deny "tenant_mismatch" true
          else if foreign
          then deny "owner_mismatch" true
          else grant).reason_code
        "scope_missing"
      ≡ false
told_reason true foreign = refl
told_reason false true = refl
told_reason false false = refl

owned-Concealed :
    (ctx : AuthorizationContext) (resource : Resource) (require_owner_header : Bool)
    (scope : String)
    → ¬ Visible ctx resource require_owner_header
    → has_scope ctx scope ≡ true
    → Concealed (authorize_owned_workbench_resource ctx resource require_owner_header (scope ∷ []))
unfolding authorize_owned_workbench_resource
owned-Concealed ctx resource require_owner_header scope hidden held =
    (owned_hidden ctx resource require_owner_header (scope ∷ []) hidden, rw held (told_reason _ _))

-- The two functions about tasks.
pub task-Concealed :
    (ctx : AuthorizationContext) (resource : Resource) (require_owner_header : Bool)
    → ¬ Visible ctx resource require_owner_header
    → (has_scope ctx workbench_read_scope ≡ true
        → Concealed (authorize_workbench_task_read ctx resource require_owner_header))
      × (has_scope ctx workbench_write_scope ≡ true
          → Concealed (authorize_workbench_task_write ctx resource require_owner_header))
unfolding authorize_workbench_task_read authorize_workbench_task_write
task-Concealed ctx resource require_owner_header hidden = (
  owned-Concealed ctx resource require_owner_header workbench_read_scope hidden,
  owned-Concealed ctx resource require_owner_header workbench_write_scope hidden,
)
