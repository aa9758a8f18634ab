-- ===== src/Authz/Ownership.antt =====
-- backend/domain/resource_ownership.py
use goat_ai.Prelude.{String, Option, str_eq, if◌then◌else◌, or_else}

pub record PersistedResourceOwnership : Type 0 where
  pub owner_id : String
  pub tenant_id : String
  pub principal_id : String

abbrev pub default_tenant_id : String
default_tenant_id = "tenant:default"

-- `text or other`
abbrev pub text_or : String → String → String
text_or s other = if str_eq s "" then other else s

unfoldable pub ownership_from_fields : String → String → String → PersistedResourceOwnership
ownership_from_fields owner_id tenant_id principal_id = record {
  owner_id = owner_id;
  tenant_id = text_or tenant_id default_tenant_id;
  principal_id = principal_id;
}

-- What a resource shows: an ownership record, or attributes that it may lack.
pub data Resource : Type 0 where
  owned : PersistedResourceOwnership → Resource
  bare : Option String → Option String → Option String → Resource

unfoldable pub ownership_from_resource : Resource → PersistedResourceOwnership
unfolding ownership_from_fields
ownership_from_resource (owned ownership) = ownership
ownership_from_resource (bare owner_id tenant_id principal_id) =
    ownership_from_fields (or_else owner_id "") (or_else tenant_id default_tenant_id)
      (or_else principal_id "")
