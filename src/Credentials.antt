-- ===== src/Credentials.antt =====
-- backend/domain/credential_registry.py: the API credentials that the settings declare, and the
-- authorization context of the credential that a key belongs to. A set of scopes is a list of them.
pub mod Resolution
mod Tests
use Prim.Native.Char.{code}
use goat_ai.Prelude.{
  ℕ, suc, String, Bool, true, false, not, ◌&&◌, ◌||◌, Option, none, some, List, [], ◌∷◌, str_eq,
  leb, ◌==◌, if◌then◌else◌, member, map,
}
use goat_ai.Prelude.Text.{append_text}
use goat_ai.Prelude.Text.Strip.{strip}
use goat_ai.Authz.{PrincipalId, TenantId, AuthorizationContext, read_scopes, full_scopes}

-- What the code takes of Python's libraries: json.loads and the values that it makes (which of them
-- are a list, a dict with its `get`, or a str, and the `str` of one), str.lower, the hex digest of
-- SHA-256, and hmac.compare_digest.
pub record Python (J : Type 0) : Type 0 where
  pub loads : String → Option J
  pub as_list : J → Option (List J)
  pub as_dict : J → Option (String → Option J)
  pub as_str : J → Option String
  pub str : J → String
  pub lower : String → String
  pub sha256 : String → String
  pub compare_digest : String → String → Bool

-- What a function returns, or the message of the ValueError that it raises.
pub data Result (A : Type 0) : Type 0 where
  value_error : String → Result A
  ok : A → Result A

abbrev pub bind : {A B : Type 0} → Result A → (A → Result B) → Result B
bind (value_error message) f = value_error message
bind (ok a) f = f a

pub record Settings : Type 0 where
  pub api_key : String
  pub api_key_write : String
  pub api_credentials_json : String

pub record ApiCredential : Type 0 where
  pub credential_id : String
  pub secret_sha256 : String
  pub principal_id : PrincipalId
  pub tenant_id : TenantId
  pub scopes : List String
  pub status : String
  pub auth_mode : String
  pub description : String

abbrev is_blank : String → Bool
is_blank s = str_eq s ""

-- `s or fallback`
abbrev text_or : String → String → String
text_or fallback s = if is_blank s then fallback else s

abbrev default_tenant : String
default_tenant = "tenant:default"

-- The credential that a shared key of the settings stands for.
default_credential : String → String → String → List String → String → ApiCredential
default_credential name principal secret_sha256 scopes description = record {
  credential_id = name;
  secret_sha256 = secret_sha256;
  principal_id = record { value = principal };
  tenant_id = record { value = default_tenant };
  scopes = scopes;
  status = "active";
  auth_mode = "shared_key_v1";
  description = description;
}

-- len(s)
char_count : String → ℕ
char_count String.[] = 0
char_count (String.◌∷◌ c s) = suc (char_count s)

-- any(ch not in "0123456789abcdef" for ch in s), negated
all_hex : String → Bool
all_hex String.[] = true
all_hex (String.◌∷◌ c s) =
    let n = code c in
    let rest = all_hex s in (leb 48 n && leb n 57 || leb 97 n && leb n 102) && rest

module _ {J : Type 0} (python : Python J) where
  unfoldable pub build_default_credentials : Settings → List ApiCredential
  unfolding default_credential
  build_default_credentials settings =
      let write =
        if is_blank settings.api_key_write
        then []
        else default_credential "credential:write-default" "principal:write-default"
            (python.sha256 settings.api_key_write) full_scopes "Derived from GOAT_API_KEY_WRITE"
          ∷ [] in
      if is_blank settings.api_key
      then write
      else default_credential "credential:read-default" "principal:read-default"
          (python.sha256 settings.api_key) read_scopes "Derived from GOAT_API_KEY"
        ∷ write

  -- str(item.get(key, default)).strip()
  abbrev field : (String → Option J) → String → String → String
  field item key default =
      strip (elim (item key) [ none ↦ default | some value ↦ python.str value ])

  -- One element of the scopes: a text that is not blank, stripped.
  parse_scope : J → Result String
  parse_scope item = elim (python.as_str item) [
    | none ↦ value_error "Credential scopes must be non-empty strings."
    | some scope ↦
        if is_blank (strip scope)
        then value_error "Credential scopes must be non-empty strings."
        else ok (strip scope)
  ]

  parse_each : List J → Result (List String)
  unfolding parse_scope
  parse_each [] = ok []
  parse_each (item ∷ items) =
      bind (parse_scope item) (λ scope. bind (parse_each items) (λ scopes. ok (scope ∷ scopes)))

  -- A missing `scopes` is an empty list.
  parse_scope_set : Option J → Result (List String)
  unfolding parse_each
  parse_scope_set none = ok []
  parse_scope_set (some raw) = elim (python.as_list raw) [
    | none ↦ value_error "Credential scopes must be a JSON array."
    | some items ↦ parse_each items
  ]

  resolve_secret_hash : (String → Option J) → Result String
  unfolding all_hex char_count
  resolve_secret_hash item =
      let digest = python.lower (field item "secret_sha256" "") in
      let secret = field item "secret" "" in
      if not (is_blank digest)
      then if not (char_count digest == 64) || not (all_hex digest)
        then value_error "Credential secret_sha256 must be a lowercase SHA-256 hex digest."
        else ok digest
      else if is_blank secret
      then ok ""
      else ok (python.sha256 secret)

  abbrev pub known_status : String → Bool
  known_status status = str_eq status "active" || str_eq status "disabled"

  -- The checks of an entry whose secret hash is known, in the order of the code.
  unfoldable pub checked_entry :
      List String → List String → (String → Option J) → String → Result ApiCredential
  unfolding parse_scope_set
  checked_entry seen_ids seen_secret_hashes item secret_sha256 =
      let credential_id = field item "credential_id" "" in
      let principal_id = field item "principal_id" "" in
      let tenant_id = text_or default_tenant (field item "tenant_id" default_tenant) in
      let status = text_or "active" (field item "status" "active") in
      let description : String = elim (item "description") [
        | none ↦ ""
        | some value ↦ python.str value
      ] in
      if is_blank credential_id || is_blank secret_sha256 || is_blank principal_id
      then value_error
          "Each credential requires credential_id, principal_id, and either secret or secret_sha256."
      else if member credential_id seen_ids
      then value_error (append_text "Duplicate credential_id: " credential_id)
      else if member secret_sha256 seen_secret_hashes
      then value_error "Duplicate credential secrets are not allowed."
      else if not (known_status status)
      then value_error "Credential status must be 'active' or 'disabled'."
      else bind (parse_scope_set (item "scopes")) (λ scopes. ok (record {
        credential_id = credential_id;
        secret_sha256 = secret_sha256;
        principal_id = record { value = principal_id };
        tenant_id = record { value = tenant_id };
        scopes = scopes;
        status = status;
        auth_mode = "credential_registry_v1";
        description = description;
      }))

  unfoldable pub load_entry : List String → List String → J → Result ApiCredential
  unfolding checked_entry resolve_secret_hash
  load_entry seen_ids seen_secret_hashes raw = elim (python.as_dict raw) [
    | none ↦ value_error "Each credential entry must be an object."
    | some item ↦ bind (resolve_secret_hash item) (checked_entry seen_ids seen_secret_hashes item)
  ]

  -- The loop over the entries, which stops at the first error.
  unfoldable pub load_each : List String → List String → List J → Result (List ApiCredential)
  unfolding load_entry
  load_each seen_ids seen_secret_hashes [] = ok []
  load_each seen_ids seen_secret_hashes (raw ∷ payload) =
      bind (load_entry seen_ids seen_secret_hashes raw) (λ credential.
        bind
          (load_each (credential.credential_id ∷ seen_ids)
            (credential.secret_sha256 ∷ seen_secret_hashes) payload)
          (λ credentials. ok (credential ∷ credentials)))

  unfoldable pub load_api_credentials : Settings → Result (List ApiCredential)
  unfolding load_each
  load_api_credentials settings =
      let raw = strip settings.api_credentials_json in
      if is_blank raw then ok (build_default_credentials settings) else elim (python.loads raw) [
        | none ↦ value_error "GOAT_API_CREDENTIALS_JSON must be valid JSON."
        | some payload ↦ elim (python.as_list payload) [
          | none ↦ value_error "GOAT_API_CREDENTIALS_JSON must be a JSON array."
          | some entries ↦ load_each [] [] entries
        ]
      ]

  -- The loop over the credentials: the first with the hash decides.
  unfoldable pub find_credential : String → List ApiCredential → Option ApiCredential
  find_credential digest [] = none
  find_credential digest (credential ∷ credentials) =
      let rest = find_credential digest credentials in
      if not (python.compare_digest credential.secret_sha256 digest)
      then rest
      else if not (str_eq credential.status "active")
      then none
      else some credential

  unfoldable pub resolve_credential : String → Settings → Result (Option ApiCredential)
  resolve_credential provided_api_key settings =
      let provided_secret_hash = python.sha256 provided_api_key in
      bind (load_api_credentials settings)
        (λ credentials. ok (find_credential provided_secret_hash credentials))

  unfoldable pub resolve_authorization_context :
      String → Settings → String → Result (Option AuthorizationContext)
  resolve_authorization_context provided_api_key settings legacy_owner_id =
      bind (resolve_credential provided_api_key settings) (λ credential. ok (elim credential [
        | none ↦ none
        | some c ↦ some (record {
          principal_id = c.principal_id;
          tenant_id = c.tenant_id;
          scopes = c.scopes;
          credential_id = c.credential_id;
          legacy_owner_id = legacy_owner_id;
          auth_mode = c.auth_mode;
        })
      ]))
