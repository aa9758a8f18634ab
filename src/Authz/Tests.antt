-- ===== src/Authz/Tests.antt =====
-- backend/services/authorizer.py at concrete callers and resources.
use goat_ai.Prelude.{
  String, ◌≡◌, refl, ◌↔◌, ◌≢◌, ◌⊎◌, true, false, none, some, List, [], ◌∷◌, arith, eq_iff, All,
}
use goat_ai.Authz.Ownership.{Resource, owned, bare, ownership_from_resource}
use goat_ai.Authz.Allowed.{HasAll, Visible, authorize_owned-allowed_iff}
use goat_ai.Authz.Isolation.{decisions, invisible_refused, source_read-allowed_iff, Asked, Admits}
use goat_ai.Authz.{
  AuthorizationContext, has_scope, owner_visible, tenant_mismatch,
  authorize_owned_workbench_resource, authorize_session_read, authorize_session_write,
  authorize_workbench_source_read, read_scopes, workbench_read_scope, grant, deny,
}

abbrev alice : AuthorizationContext
alice = record {
  principal_id = record { value = "principal:alice" };
  tenant_id = record { value = "tenant:default" };
  scopes = read_scopes;
  credential_id = "credential:read-default";
  legacy_owner_id = "alice";
  auth_mode = "shared_key_v1";
}

abbrev alice_notes : Resource
alice_notes =
    owned (record {
      owner_id = "alice";
      tenant_id = "tenant:default";
      principal_id = "principal:alice";
    })

abbrev bob_notes : Resource
bob_notes = bare (some "bob") none none

read_own : authorize_session_read alice alice_notes true ≡ grant
unfolding authorize_session_read tenant_mismatch owner_visible has_scope ownership_from_resource
read_own = refl

write_own : authorize_session_write alice alice_notes true ≡ deny "scope_missing" false
unfolding authorize_session_write has_scope
write_own = refl

read_other : authorize_session_read alice bob_notes true ≡ deny "owner_mismatch" true
unfolding authorize_session_read tenant_mismatch owner_visible has_scope ownership_from_resource
read_other = refl

authorize_owned-allowed_example :
    ((authorize_owned_workbench_resource alice alice_notes true ("history:read" ∷ [])).allowed
      ≡ true)
    ↔ (HasAll alice ("history:read" ∷ []) × Visible alice alice_notes true)
authorize_owned-allowed_example =
    authorize_owned-allowed_iff alice alice_notes true ("history:read" ∷ [])

bob_hidden : ¬ Visible alice bob_notes true
unfolding ownership_from_resource
bob_hidden v = ground (arith, eq_iff "bob" "alice", eq_iff "alice" "")

invisible_refused_example : All (λ d. d.allowed ≡ false) (decisions alice bob_notes true)
invisible_refused_example = invisible_refused alice bob_notes true bob_hidden

abbrev alices : List String
alices = "alice" ∷ []

source_read-allowed_example :
    ((authorize_workbench_source_read alice (some "knowledge:read") [] [] alices true).allowed
      ≡ true)
    ↔ ((has_scope alice workbench_read_scope ≡ true)
        × Asked alice (some "knowledge:read")
        × Admits [] "tenant:default"
        × Admits [] "principal:alice"
        × Admits alices "alice"
        × ((alices ≡ []) ⊎ (true ≡ false) ⊎ (alice.legacy_owner_id ≢ "")))
source_read-allowed_example =
    source_read-allowed_iff alice (some "knowledge:read") [] [] alices true
