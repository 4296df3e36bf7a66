-- ===== src/Tests/Groups.antt =====
-- Example data for the objects of node groups.
use oci_openshift_autoscalin.Base.{String, Bool, true, Option, none, some, ok}
use oci_openshift_autoscalin.Base.{if◌then◌else◌, ◌==◌}
use oci_openshift_autoscalin.Credentials.{Credentials}
use oci_openshift_autoscalin.Namespaces.{NamespaceConfig}
use oci_openshift_autoscalin.Config.{Config}
use oci_openshift_autoscalin.Scaling.Secrets.{SecretSource}
use oci_openshift_autoscalin.Tests.Fixtures.{config}

-- a bare-metal shape
abbrev pub metal_config : Config
metal_config = record config {
  network = record (config.network) {
    bare_metal_subnet_id = "metal-subnet";
    bare_metal_subnet_name = "metal";
  };
  autoscaling = record (config.autoscaling) { shape = "BM.Standard.E5.192" };
}

abbrev pub source : SecretSource
source = record {
  generate_ignition_config = ok "{}";
  create_token = λ account namespace. ok "token";
  get_kubeconfig_ca = ok "certificate";
  base64 = λ s. s;
}

abbrev pub parse_bool : String → Option Bool
parse_bool s = if s == "true" then some true else none

abbrev pub principal : Credentials
principal = record {
  tenancy_id = "tenancy";
  user_id = "user";
  region = "us-ashburn-1";
  fingerprint = "";
  private_key = "key";
  use_instance_principal = "true";
  passphrase = "";
}

abbrev pub namespaces : NamespaceConfig
namespaces = record {
  operator = "";
  capi_provider = "";
  capoci_provider = "";
  managed_resource = " machines ";
  autoscaler = "";
  autoscaler_discovery = "";
}
