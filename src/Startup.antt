-- ===== src/Startup.antt =====
-- The configuration that the command `run` gives to the controllers (`run`, `validateOptions` and
-- `resolveCSRApprovalConfig` of cmd/main.go), before it starts the manager.
pub mod Resolved
use oci_openshift_autoscalin.Base.{
  String, Bool, Option, none, some, Result, ok, err, Check, errorf, wrap_err, reject_if,
  if◌then◌else◌,
}
use oci_openshift_autoscalin.Base.Bind.{◌>>=◌, ◌>>◌}
use oci_openshift_autoscalin.Base.Text.{is_nil, is_blank, trim_space}
use oci_openshift_autoscalin.Clusterctl.{Library, validate_provider_version}
use oci_openshift_autoscalin.Config.{Config, validate_shape_config}
use oci_openshift_autoscalin.Crds.{ProviderConfig}
use oci_openshift_autoscalin.Credentials.{Credentials, validate_credentials}
use oci_openshift_autoscalin.Kube.{Kube}
use oci_openshift_autoscalin.Namespaces.{
  default_operator_namespace, NamespaceConfig, with_defaults, validate_namespaces,
}

pub record CsrApprovalConfig : Type 0 where
  pub machine_namespace : String
  pub cluster_name : String

-- `Options`, without those of the manager
pub record Options : Type 0 where
  pub credentials : Credentials
  pub provider : ProviderConfig
  pub capoci_provider : ProviderConfig
  pub autoscaling : Config
  pub namespaces : NamespaceConfig
  pub csr_approval : CsrApprovalConfig

abbrev pub default_csr_machine_namespace : String
default_csr_machine_namespace = default_operator_namespace

-- What startup reads beside the options: CLUSTER_NAME, and the answer of `GetClusterName`, which
-- Discovery models.
pub record Surroundings : Type 0 where
  pub cluster_name : String
  pub discovered : Result String

unfoldable pub machine_namespace_of : String → String → String
machine_namespace_of namespace default =
    let own = trim_space namespace in
    let fallback = trim_space default in
    if is_nil own then if is_nil fallback then default_csr_machine_namespace else fallback else own

unfoldable pub cluster_name_of : Surroundings → String → Result String
cluster_name_of s configured =
    let own = trim_space configured in
    let fallback = trim_space s.cluster_name in
    if is_nil own
    then if is_nil fallback
      then (do
        name ←
            wrap_err "CSR approval cluster name was not configured and cluster discovery failed"
              s.discovered
        ok (trim_space name))
      else ok fallback
    else ok own

-- `resolveCSRApprovalConfig`
unfoldable pub resolve_csr_approval_config :
    Surroundings → CsrApprovalConfig → String → Result CsrApprovalConfig
unfolding machine_namespace_of cluster_name_of
resolve_csr_approval_config s config default = do
  name ← cluster_name_of s config.cluster_name
  reject_if (is_nil name)
      (errorf "CSR approval cluster name must not be empty; set CSR_CLUSTER_NAME or CLUSTER_NAME")
  ok (record {
    machine_namespace = machine_namespace_of config.machine_namespace default;
    cluster_name = name;
  })

module _ (k : Kube) (l : Library) (parse_bool : String → Option Bool) where
  unfoldable pub validate_options : Options → Check
  validate_options options = do
    validate_credentials parse_bool k.quote (some options.credentials)
    validate_namespaces k options.namespaces
    validate_shape_config none options.autoscaling
    reject_if (is_blank options.csr_approval.cluster_name)
        (errorf "CSR approval requires CSR_CLUSTER_NAME or CLUSTER_NAME")

  -- the part of `run` that completes and checks the options
  unfoldable pub resolve_options : Surroundings → Options → Result Options
  unfolding resolve_csr_approval_config validate_options
  resolve_options s options = do
    let namespaces = with_defaults options.namespaces
    csr ← resolve_csr_approval_config s options.csr_approval namespaces.managed_resource
    let resolved = record options { namespaces = namespaces; csr_approval = csr }
    validate_options resolved
    validate_provider_version l resolved.provider.capi_version
    validate_provider_version l resolved.capoci_provider.version
    ok resolved
