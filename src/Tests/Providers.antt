-- ===== src/Tests/Providers.antt =====
-- Concrete inputs for startup, the definitions of the providers and the marking of the control plane.
use oci_openshift_autoscalin.Base.{
  String, true, false, none, some, List, [], ◌∷◌, ◌==◌, ◌≡◌, refl, if◌then◌else◌, ok, All, ◌++◌,
}
use oci_openshift_autoscalin.Clusterctl.{
  Library, Manifest, required_crds, core_provider_name, core_provider_type,
  infrastructure_oci_provider_name, infrastructure_provider_type,
}
use oci_openshift_autoscalin.Clusterctl.{
  validate_provider_version, generate_capi_components, validate_generated_provider_components,
  require_seen, required_kinds, namespaced_requirements, has, seen_kinds, namespaced_kind_key,
  seen_crds,
}
use oci_openshift_autoscalin.Base.Text.{trim_space}
use oci_openshift_autoscalin.Exec.{◌>>=◌}
use oci_openshift_autoscalin.Namespaces.{validate_namespaces}
use oci_openshift_autoscalin.ControlPlane
use oci_openshift_autoscalin.ControlPlane.Marked.{mark_for_version-is_marked, patches}
use oci_openshift_autoscalin.Crds.{
  Cluster, ProviderConfig, run_init, get_clusterctl_crds, apply_each, apply_provider_crd, ask,
  crds_of, set_provider_crd_webhook_namespace,
}
use oci_openshift_autoscalin.Crds.Applied.{run_init-IsCreated}
use oci_openshift_autoscalin.Crds.Created.{IsCreated}
use oci_openshift_autoscalin.Tests.Fixtures.{kube, config}
use oci_openshift_autoscalin.Tests.Groups.{namespaces, parse_bool, principal}
use oci_openshift_autoscalin.Startup.{Options, Surroundings, resolve_options}
use oci_openshift_autoscalin.Startup.Resolved.{IsName, resolve_options-IsName}
use oci_openshift_autoscalin.Credentials.{
  validate_credentials, parse_use_instance_principal, require_credential_values, missing,
}
use oci_openshift_autoscalin.Config.{validate_shape_config}
use oci_openshift_autoscalin.Namespaces.{with_defaults}

abbrev manifest : String → String → Manifest
manifest kind name = record {
  kind = kind;
  namespace = "";
  name = name;
  labels = [];
  annotations = [];
  spec = record { versions = none; conversion = none; preserve_unknown_fields = none; others = "" };
}

abbrev definition : String → Manifest
definition name = manifest "CustomResourceDefinition" name

abbrev webhooks : List Manifest
webhooks =
    manifest "ValidatingWebhookConfiguration" "validating"
    ∷ manifest "MutatingWebhookConfiguration" "mutating"
    ∷ []

abbrev library : Library
library = record {
  matches = λ s. true;
  quote = λ s. s;
  new_client = ok tt;
  get_provider_components = λ ref type namespace. ok (
      if type == core_provider_type
      then definition "clusters.cluster.x-k8s.io"
        ∷ definition "machinedeployments.cluster.x-k8s.io"
        ∷ webhooks
      else definition "ociclusters.infrastructure.cluster.x-k8s.io"
        ∷ definition "ocimachinetemplates.infrastructure.cluster.x-k8s.io"
        ∷ webhooks);
}

abbrev empty_cluster : Cluster
empty_cluster = record {
  create = λ log m. ok tt;
  get = λ log name. ok (definition name);
  patch = λ log a b. ok tt;
}

abbrev providers : ProviderConfig
providers = record { capi_version = "v1.10.1"; capoci_version = "v0.20.0"; version = "v0.20.0" }

initialised : (run_init empty_cluster kube library providers namespaces []).0 ≡ ok tt
unfolding run_init ◌>>=◌ validate_namespaces trim_space validate_provider_version
    get_clusterctl_crds generate_capi_components validate_generated_provider_components require_seen
    required_kinds namespaced_requirements has seen_kinds namespaced_kind_key required_crds
    seen_crds apply_each apply_provider_crd ask crds_of set_provider_crd_webhook_namespace
initialised = refl

run_init_example :
    All
      (λ r. IsCreated r.0 (run_init empty_cluster kube library providers namespaces []).1)
      (required_crds core_provider_name core_provider_type)
    × All
        (λ r. IsCreated r.0 (run_init empty_cluster kube library providers namespaces []).1)
        (required_crds infrastructure_oci_provider_name infrastructure_provider_type)
run_init_example = run_init-IsCreated empty_cluster kube library providers namespaces [] initialised

abbrev condition : String → String → ControlPlane.ClusterCondition
condition type status = record {
  type = type;
  status = status;
  reason = "";
  message = "";
  observed_generation = 1;
  last_transition_time = "";
}

abbrev unmarked : ControlPlane.ClusterObject
unmarked = record {
  namespace = "machines";
  name = "cluster";
  generation = 2;
  initialized = none;
  conditions = some (none ∷ some (condition "ControlPlaneInitialized" "False") ∷ []);
  others = "";
}

abbrev serving : ControlPlane.Cluster
serving = record {
  get = λ log namespace name version. ok unmarked;
  patch_status = λ log a b. ok tt;
  now = λ log. "2025-01-01T00:00:00Z";
}

abbrev asked : ControlPlane.Log
asked = ControlPlane.Call.get "machines" "cluster" "cluster.x-k8s.io/v1beta2" ∷ []

mark_example :
    ((ControlPlane.mark_for_version serving "machines" "cluster" "cluster.x-k8s.io/v1beta2" []).1
      ≡ asked ++ patches serving asked unmarked)
    × ((now : String) → ControlPlane.is_marked (ControlPlane.mark now unmarked) ≡ true)
    × ((now type : String)
        → (type == ControlPlane.control_plane_initialized) ≡ false
        → ControlPlane.cluster_status_condition_is_true (ControlPlane.mark now unmarked) type
          ≡ ControlPlane.cluster_status_condition_is_true unmarked type)
mark_example =
    mark_for_version-is_marked serving "machines" "cluster" "cluster.x-k8s.io/v1beta2" [] unmarked
      refl

abbrev options : Options
options = record {
  credentials = principal;
  provider = providers;
  capoci_provider = providers;
  autoscaling = config;
  namespaces = namespaces;
  csr_approval = record { machine_namespace = ""; cluster_name = " ocp " };
}

abbrev surroundings : Surroundings
surroundings = record { cluster_name = ""; discovered = ok "infra" }

abbrev complete : Options
complete = record options {
  namespaces = with_defaults namespaces;
  csr_approval = record { machine_namespace = "machines"; cluster_name = "ocp" };
}

completed : resolve_options kube library parse_bool surroundings options ≡ ok complete
unfolding resolve_options trim_space validate_credentials parse_use_instance_principal
    require_credential_values missing validate_namespaces validate_shape_config
    validate_provider_version
completed = refl

resolve_options_example :
    IsName complete.csr_approval.machine_namespace
    × IsName complete.csr_approval.cluster_name
    × (validate_credentials parse_bool kube.quote (some complete.credentials) ≡ ok tt)
    × (validate_namespaces kube complete.namespaces ≡ ok tt)
    × (validate_provider_version library options.provider.capi_version ≡ ok tt)
    × (validate_provider_version library options.capoci_provider.version ≡ ok tt)
resolve_options_example =
    resolve_options-IsName kube library parse_bool surroundings options complete completed
