-- ===== src/Tests/Objects.antt =====
-- Example objects: labels, names, credentials and components.
use oci_openshift_autoscalin.Base.{
  ◌<>◌, String, Bool, true, Option, none, some, List, [], ◌∷◌, ◌++◌, ◌≡◌, ◌↔◌, refl, All, ok,
  if◌then◌else◌, ◌==◌,
}
use oci_openshift_autoscalin.Base.Dict.{Dict, lookup}
use oci_openshift_autoscalin.Base.Text.{trim_space}
use oci_openshift_autoscalin.Components.{remove_component, remove_each, reconcile_components}
use oci_openshift_autoscalin.Components.Removal.{
  attempts, removals, log-remove_component, log-reconcile_components,
}
use oci_openshift_autoscalin.Credentials.{
  Credentials, parse_use_instance_principal, uses_instance_principal, validate_credentials,
  auth_config_data, set_or_replace_arg, enable_imds_arg_prefix,
}
use oci_openshift_autoscalin.Credentials.Args.{find_arg, others, set_or_replace_arg_lem}
use oci_openshift_autoscalin.Credentials.Secret.{
  Given, requirements, validate_credentials-ok, auth_config_data-uses_instance_principal,
}
use oci_openshift_autoscalin.Labels.{
  managed_by_label, is_operator_owned_label, merge_managed_labels,
}
use oci_openshift_autoscalin.Labels.Owned.{reconciled, lookup-merge_managed_labels}
use oci_openshift_autoscalin.Exec.{◌>>=◌}
use oci_openshift_autoscalin.Run.{ask}
use oci_openshift_autoscalin.Tests.Fixtures.{env_listing, older_resource, component, run_of}

abbrev existing : Dict String
existing = ("team", "blue") ∷ (managed_by_label, "someone") ∷ []

abbrev managed : Dict String
managed = (managed_by_label, "first") ∷ ("team", "red") ∷ []

merge_example :
    lookup "team" (merge_managed_labels existing managed)
    ≡ reconciled (is_operator_owned_label "team") (lookup "team" existing) (lookup "team" managed)
unfolding lookup
merge_example = lookup-merge_managed_labels existing managed (refl, (refl, tt)) "team"

removed_example :
    (remove_component (env_listing []) component (run_of older_resource)).1.log
    ≡ [] ++ removals component.subcomponents
unfolding remove_component remove_each ask ◌>>=◌
removed_example = log-remove_component (env_listing []) component (run_of older_resource) refl

reconciled_example :
    (reconcile_components (env_listing []) component (run_of older_resource)).1.log
    ≡ [] ++ attempts component component.subcomponents
reconciled_example = log-reconcile_components (env_listing []) component (run_of older_resource)

abbrev parse_bool : String → Option Bool
parse_bool s = if s == "true" then some true else none

abbrev principal : Credentials
principal = record {
  tenancy_id = "tenancy";
  user_id = "user";
  region = "us-ashburn-1";
  fingerprint = "";
  private_key = "key";
  use_instance_principal = "true";
  passphrase = "";
}

secret_example : lookup "key" (auth_config_data parse_bool (λ s. s) (some principal)) ≡ none
unfolding uses_instance_principal parse_use_instance_principal trim_space
secret_example =
    auth_config_data-uses_instance_principal parse_bool (λ s. s) principal "key" refl refl

credentials_example : validate_credentials parse_bool (λ s. s) (some principal) ≡ ok tt ↔ (
    (b : Bool) × (parse_use_instance_principal parse_bool (λ s. s) "true" ≡ ok b)
    × All Given (requirements b principal))
credentials_example = validate_credentials-ok parse_bool (λ s. s) principal

abbrev args : List (Option String)
args = some "--v=2" ∷ some "--enable-instance-metadata-service-lookup=false" ∷ []

set_arg_example :
    (find_arg enable_imds_arg_prefix (set_or_replace_arg args enable_imds_arg_prefix "true")
      ≡ some (enable_imds_arg_prefix <> "true"))
    × (others enable_imds_arg_prefix (set_or_replace_arg args enable_imds_arg_prefix "true")
        ≡ others enable_imds_arg_prefix args)
    × (set_or_replace_arg
          (set_or_replace_arg args enable_imds_arg_prefix "true")
          enable_imds_arg_prefix
          "false"
        ≡ set_or_replace_arg args enable_imds_arg_prefix "false")
set_arg_example = set_or_replace_arg_lem args enable_imds_arg_prefix "true" "false"
