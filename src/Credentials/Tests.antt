-- ===== src/Credentials/Tests.antt =====
-- backend/domain/credential_registry.py at a registry of two credentials. The library functions are
-- instantiated: the registry is the only JSON text, and a digest is the text itself.
use goat_ai.Prelude.{
  String, ◌≡◌, ◌↔◌, refl, Option, none, some, List, [], ◌∷◌, arith, str_eq, eq_iff, if◌then◌else◌,
}
use goat_ai.Prelude.Text.Strip.{strip, is_space}
use goat_ai.Credentials.Resolution.{IsOneOf, resolve_credential-IsOneOf_iff}
use goat_ai.Credentials.{
  Python, ok, Settings, ApiCredential, load_api_credentials, resolve_credential,
}

data Value : Type 0 where
  text : String → Value
  entry : String → String → String → Value
  entries : Value

abbrev two_entries : List Value
two_entries = entry "c1" "s1" "active" ∷ entry "c2" "s2" "active" ∷ []

abbrev entry_get : String → String → String → String → Option Value
entry_get name secret status key =
    if str_eq key "credential_id"
    then some (text name)
    else if str_eq key "principal_id"
    then some (text name)
    else if str_eq key "secret"
    then some (text secret)
    else if str_eq key "status"
    then some (text status)
    else none

abbrev value_list : Value → Option (List Value)
value_list entries = some two_entries
value_list _ = none

abbrev value_dict : Value → Option (String → Option Value)
value_dict (entry name secret status) = some (entry_get name secret status)
value_dict _ = none

abbrev value_text : Value → Option String
value_text (text s) = some s
value_text _ = none

abbrev value_str : Value → String
value_str (text s) = s
value_str _ = ""

abbrev toy : Python Value
toy = record {
  loads = λ s. if str_eq s "[..]" then some entries else none;
  as_list = value_list;
  as_dict = value_dict;
  as_str = value_text;
  str = value_str;
  lower = λ s. s;
  sha256 = λ s. s;
  compare_digest = str_eq;
}

abbrev registry : Settings
registry = record { api_key = ""; api_key_write = ""; api_credentials_json = " [..]" }

abbrev credential : String → String → ApiCredential
credential name secret = record {
  credential_id = name;
  secret_sha256 = secret;
  principal_id = record { value = name };
  tenant_id = record { value = "tenant:default" };
  scopes = [];
  status = "active";
  auth_mode = "credential_registry_v1";
  description = "";
}

abbrev both : List ApiCredential
both = credential "c1" "s1" ∷ credential "c2" "s2" ∷ []

registry_loads : load_api_credentials toy registry ≡ ok both
unfolding load_api_credentials strip is_space
registry_loads = refl

abbrev second : ApiCredential
second = credential "c2" "s2"

resolve_credential-IsOneOf_example :
    (resolve_credential toy "s2" registry ≡ ok (some second))
    ↔ (IsOneOf second both × (second.secret_sha256 ≡ toy.sha256 "s2") × (second.status ≡ "active"))
unfolding strip is_space
resolve_credential-IsOneOf_example =
    resolve_credential-IsOneOf_iff toy registry both "s2" second (λ a b. refl)
      (ground (arith, eq_iff (strip " [..]") "")) registry_loads
