-- ===== src/Credentials/Secret.antt =====
-- When credentials are accepted, and what the provider's secret holds.
use oci_openshift_autoscalin.Base.{
  String, Bool, true, false, Option, none, some, List, [], ◌∷◌, ◌≡◌, ◌↔◌, refl, arith,
  if◌then◌else◌, ok, All, is_empty, ◌==◌, ◌||◌,
}
use oci_openshift_autoscalin.Base.Bind.{bind-ok}
use oci_openshift_autoscalin.Base.Text.{is_blank}
use oci_openshift_autoscalin.Base.Dict.{lookup}
use oci_openshift_autoscalin.Credentials.{
  Credentials, CredentialRequirement, missing, require_credential_values,
  parse_use_instance_principal, uses_instance_principal, validate_credentials, auth_config_data,
}

abbrev pub Given : CredentialRequirement → Type 0
Given r = is_blank r.value ≡ false

missing_head :
    (r : CredentialRequirement) (rs : List CredentialRequirement)
    → is_empty (missing (r ∷ rs)) ≡ true
    → Given r × (is_empty (missing rs) ≡ true)
unfolding missing
missing_head r rs h = ground (arith, h)

missing-All : (rs : List CredentialRequirement) → is_empty (missing rs) ≡ true → All Given rs
missing-All [] h = tt
missing-All (r ∷ rs) h = let (p, q) = missing_head r rs h in (p, missing-All rs q)

missing-none : (rs : List CredentialRequirement) → All Given rs → is_empty (missing rs) ≡ true
unfolding missing
missing-none [] h = refl
missing-none (r ∷ rs) (h, hs) = rw h (missing-none rs hs)

require_credential_values-ok :
    (mode : String) (rs : List CredentialRequirement)
    → require_credential_values mode rs ≡ ok tt ↔ All Given rs
unfolding require_credential_values
require_credential_values-ok mode rs =
    (λ h. missing-All rs (ground (arith, h)), λ h. rw (missing-none rs h))

-- The requirements of the mode that the setting chooses: with the instance principal the region,
-- else every part of a key.
abbrev pub requirements : Bool → Credentials → List CredentialRequirement
requirements true c = record { name = "OCI_REGION"; value = c.region } ∷ []
requirements false c =
    record { name = "OCI_TENANCY_ID"; value = c.tenancy_id }
    ∷ record { name = "OCI_USER_ID"; value = c.user_id }
    ∷ record { name = "OCI_REGION"; value = c.region }
    ∷ record { name = "OCI_CREDENTIALS_FINGERPRINT"; value = c.fingerprint }
    ∷ record { name = "OCI_CREDENTIALS_KEY"; value = c.private_key }
    ∷ []

require_mode-ok :
    (b : Bool) (c : Credentials)
    → (if b
          then require_credential_values "instance-principal auth" (requirements true c)
          else require_credential_values "key-based auth" (requirements false c))
        ≡ ok tt
      ↔ All Given (requirements b c)
require_mode-ok true c =
    require_credential_values-ok "instance-principal auth" (requirements true c)
require_mode-ok false c = require_credential_values-ok "key-based auth" (requirements false c)

module _ (parse_bool : String → Option Bool) (quote : String → String) where
  -- Credentials are accepted exactly when the setting for the instance principal can be read and no
  -- value that its mode requires is blank.
  pub validate_credentials-ok :
      (c : Credentials)
      → validate_credentials parse_bool quote (some c) ≡ ok tt ↔ (
          (b : Bool) × (parse_use_instance_principal parse_bool quote c.use_instance_principal
            ≡ ok b)
          × All Given (requirements b c))
  unfolding validate_credentials
  validate_credentials-ok c =
      let setting = parse_use_instance_principal parse_bool quote c.use_instance_principal in
      (
        λ h. let (b, p, q) = bind-ok setting _ tt h in (b, p, (require_mode-ok b c).0 q),
        λ (b, p, q). rw p ((require_mode-ok b c).1 q),
      )

  -- The secret of the provider holds no key material when the operator uses the instance
  -- principal: besides the region and the setting itself, nothing is stored.
  pub auth_config_data-uses_instance_principal :
      (c : Credentials) (j : String)
      → uses_instance_principal parse_bool quote (some c) ≡ true
      → ("region" == j || "useInstancePrincipal" == j) ≡ false
      → lookup j (auth_config_data parse_bool quote (some c)) ≡ none
  unfolding auth_config_data lookup
  auth_config_data-uses_instance_principal c j h n = ground (arith, h, n)
