-- ===== src/Credentials.antt =====
-- The credentials of the OCI provider (internal/components/capoci/capoci.go).
pub mod Secret
pub mod Args
use oci_openshift_autoscalin.Base.{
  String, ◌<>◌, Bool, true, false, Option, none, some, List, [], ◌∷◌, if◌then◌else◌, Result, ok,
  err, Check, errorf, is_empty,
}
use oci_openshift_autoscalin.Base.Bind.{◌>>=◌}
use oci_openshift_autoscalin.Base.Text.{trim_space, is_blank, has_prefix, joined}
use oci_openshift_autoscalin.Base.Dict.{Dict, insert}
use oci_openshift_autoscalin.Base.{◌==◌, ◌||◌, ◌&&◌}

-- `CAPOCICredentials`
pub record Credentials : Type 0 where
  pub tenancy_id : String
  pub user_id : String
  pub region : String
  pub fingerprint : String
  pub private_key : String
  pub use_instance_principal : String
  pub passphrase : String

pub record CredentialRequirement : Type 0 where
  pub name : String
  pub value : String

unfoldable pub missing : List CredentialRequirement → List String
missing [] = []
missing (r ∷ rs) = let rest = missing rs in if is_blank r.value then r.name ∷ rest else rest

unfoldable pub require_credential_values : String → List CredentialRequirement → Check
require_credential_values mode values =
    let names = missing values in
    if is_empty names then ok tt else err (errorf (mode <> " requires " <> joined ", " names))

abbrev pub key_requirements : Credentials → List CredentialRequirement
key_requirements c =
    record { name = "OCI_TENANCY_ID"; value = c.tenancy_id }
    ∷ record { name = "OCI_USER_ID"; value = c.user_id }
    ∷ record { name = "OCI_REGION"; value = c.region }
    ∷ record { name = "OCI_CREDENTIALS_FINGERPRINT"; value = c.fingerprint }
    ∷ record { name = "OCI_CREDENTIALS_KEY"; value = c.private_key }
    ∷ []

-- `parse_bool` is `strconv.ParseBool` (`none` for its error); `quote` is `%q`.
module _ (parse_bool : String → Option Bool) (quote : String → String) where
  unfoldable pub parse_use_instance_principal : String → Result Bool
  parse_use_instance_principal value = elim (parse_bool (trim_space value)) [
    | some b ↦ ok b
    | none ↦
        err (
          errorf
            ("invalid OCI_USE_INSTANCE_PRINCIPAL " <> quote value <> ": must be true or false"))
  ]

  -- `none`: a nil pointer
  unfoldable pub uses_instance_principal : Option Credentials → Bool
  uses_instance_principal none = false
  uses_instance_principal (some c) = elim (parse_use_instance_principal c.use_instance_principal) [
    | ok b ↦ b
    | err e ↦ false
  ]

  unfoldable pub validate_credentials : Option Credentials → Check
  validate_credentials none = err (errorf "CAPOCI credentials are required")
  validate_credentials (some c) = do
    b ← parse_use_instance_principal c.use_instance_principal
    (if b
        then require_credential_values "instance-principal auth"
            (record { name = "OCI_REGION"; value = c.region } ∷ [])
        else require_credential_values "key-based auth" (key_requirements c))

  unfoldable pub auth_config_data : Option Credentials → Dict String
  auth_config_data none = []
  auth_config_data (some c) =
      let data_ = ("region", c.region) ∷ ("useInstancePrincipal", c.use_instance_principal) ∷ [] in
      if uses_instance_principal (some c)
      then data_
      else let data_ = insert "tenancy" c.tenancy_id data_ in
        let data_ = insert "user" c.user_id data_ in
        let data_ = insert "fingerprint" c.fingerprint data_ in
        let data_ = insert "key" c.private_key data_ in
        if is_blank c.passphrase then data_ else insert "passphrase" c.passphrase data_

-- An argument of a container is a text (`some`) or some other JSON value (`none`).
unfoldable pub set_or_replace_arg : List (Option String) → String → String → List (Option String)
set_or_replace_arg [] prefix value = some (prefix <> value) ∷ []
set_or_replace_arg (none ∷ args) prefix value = none ∷ set_or_replace_arg args prefix value
set_or_replace_arg (some s ∷ args) prefix value =
    if has_prefix s prefix
    then some (prefix <> value) ∷ args
    else some s ∷ set_or_replace_arg args prefix value

abbrev pub format_bool : Bool → String
format_bool true = "true"
format_bool false = "false"

abbrev pub enable_imds_arg_prefix : String
enable_imds_arg_prefix = "--enable-instance-metadata-service-lookup="

abbrev pub init_oci_clients_on_startup_arg_prefix : String
init_oci_clients_on_startup_arg_prefix = "--init-oci-clients-on-startup="

-- What `setStartupArgs` does to the arguments of the first container; `use_imds` is
-- `auth.UsesInstancePrincipal()`.
unfoldable pub startup_args : Bool → List (Option String) → List (Option String)
unfolding set_or_replace_arg
startup_args use_imds args =
    let args = set_or_replace_arg args enable_imds_arg_prefix (format_bool use_imds) in
    if use_imds
    then set_or_replace_arg args init_oci_clients_on_startup_arg_prefix (format_bool false)
    else args
