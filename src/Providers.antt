-- ===== src/Providers.antt =====
-- The components that the operator builds for the providers and for the cluster autoscaler:
-- `GetComponents` of internal/components/capi/capi.go, of internal/components/capoci/capoci.go and
-- of internal/components/autoscaler/autoscaler.go with rbac.go.
pub mod Settled
pub mod Wired
pub mod Owned
use oci_openshift_autoscalin.Base.{
  String, ◌<>◌, Bool, true, false, Option, some, List, [], ◌∷◌, Result, ok,
}
use oci_openshift_autoscalin.Api.{Autoscaler}
use oci_openshift_autoscalin.Credentials.{Credentials, auth_config_data}
use oci_openshift_autoscalin.Helm.{DeploymentValues}
use oci_openshift_autoscalin.Labels.{set_default_labels}
use oci_openshift_autoscalin.Objects.{Object, Payload, Component, Scc, PolicyRule, RoleRef, Subject}
use oci_openshift_autoscalin.Scaling.Parts.{labelled, subcomponent}
use oci_openshift_autoscalin.Scaling.Rendered.{new_object, rendered, as_they_are}

unfoldable pub service_account_subject : String → String → String
service_account_subject namespace name = "system:serviceaccount:" <> namespace <> ":" <> name

unfoldable pub scc : List String → Bool → Scc
scc users allow_host_network = record {
  run_as_user = "MustRunAsRange";
  se_linux_context = "MustRunAs";
  fs_group = "MustRunAs";
  supplemental_groups = "RunAsAny";
  allow_privileged_container = false;
  allow_host_dir_volume_plugin = false;
  allow_host_network = allow_host_network;
  allow_host_ports = false;
  allow_host_pid = false;
  allow_host_ipc = false;
  allow_privilege_escalation = false;
  default_allow_privilege_escalation = false;
  default_add_capabilities = [];
  allowed_capabilities = [];
  required_drop_capabilities = "ALL" ∷ [];
  volumes =
      "configMap" ∷ "downwardAPI" ∷ "emptyDir" ∷ "persistentVolumeClaim" ∷ "projected" ∷ "secret"
      ∷ [];
  seccomp_profiles = "runtime/default" ∷ [];
  users = users;
}

-- the mutation of `SecurityContextConstraints`
unfoldable pub security_context_constraints :
    List String → Autoscaler → Bool → Object → Result Object
security_context_constraints users a allow_host_network o =
    rendered (set_default_labels a.metadata.name) as_they_are
      (ok (Payload.scc (scc users allow_host_network))) o

-- `GetComponents` of capi, over the namespaces and the service accounts of the two providers
unfoldable pub capi_components : String → String → String → String → Autoscaler → Bool → Component
capi_components capi_namespace capoci_namespace capi_account capoci_account a allow_host_network =
    record {
      instance_name = a.metadata.name;
      name = "CAPI";
      subcomponents =
          subcomponent "capiSCC" (new_object "SecurityContextConstraints" "" "oci-capi") (
            security_context_constraints (service_account_subject capi_namespace capi_account ∷ [])
              a false)
          ∷ subcomponent "capociSCC" (new_object "SecurityContextConstraints" "" "oci-capoci") (
              security_context_constraints
                (service_account_subject capoci_namespace capoci_account ∷ []) a allow_host_network)
          ∷ subcomponent "namespace" (new_object "Namespace" "" capi_namespace) (labelled a)
          ∷ [];
    }

module _ (parse_bool : String → Option Bool) (quote : String → String) where
  -- the mutation of `AuthConfigSecret`
  unfoldable pub auth_config_secret : Autoscaler → Option Credentials → Object → Result Object
  auth_config_secret a auth o =
      rendered (set_default_labels a.metadata.name) as_they_are
        (ok (Payload.secret (auth_config_data parse_bool quote auth))) o

  -- `GetComponents` of capoci
  unfoldable pub capoci_components : String → Autoscaler → Option Credentials → Component
  capoci_components namespace a auth = record {
    instance_name = a.metadata.name;
    name = "CAPOCI";
    subcomponents =
        subcomponent "namespace" (new_object "Namespace" "" namespace) (labelled a)
        ∷ subcomponent "authConfigSecret" (new_object "Secret" namespace "capoci-auth-config")
            (auth_config_secret a auth)
        ∷ [];
  }

abbrev pub infrastructure_read_resources : List String
infrastructure_read_resources =
    "ociclusters" ∷ "ociclusteridentities" ∷ "ocimachinetemplates" ∷ "ocimachines" ∷ []

-- the mutation of `ClusterRole`
unfoldable pub cluster_role : Autoscaler → Object → Result Object
cluster_role a o =
    rendered (set_default_labels a.metadata.name) as_they_are
      (ok (
        Payload.cluster_role (
          record {
            api_groups = "infrastructure.cluster.x-k8s.io" ∷ [];
            resources = infrastructure_read_resources;
            verbs = "get" ∷ "list" ∷ "watch" ∷ [];
          }
          ∷ [])))
      o

-- the mutation of `ClusterRoleBinding`
unfoldable pub cluster_role_binding : DeploymentValues → Autoscaler → Object → Result Object
cluster_role_binding v a o =
    rendered (set_default_labels a.metadata.name) as_they_are
      (ok (
        Payload.cluster_role_binding
          (record {
            api_group = "rbac.authorization.k8s.io";
            kind = "ClusterRole";
            name = v.name <> "-extra";
          })
          (record {
            kind = "ServiceAccount";
            name = v.service_account_name;
            namespace = v.namespace;
          }
            ∷ [])))
      o

-- `GetComponents` of autoscaler
unfoldable pub rbac_components : DeploymentValues → Autoscaler → Component
rbac_components v a = record {
  instance_name = a.metadata.name;
  name = "Autoscaler";
  subcomponents =
      subcomponent "namespace" (new_object "Namespace" "" v.namespace) (labelled a)
      ∷ subcomponent "clusterRole" (new_object "ClusterRole" "" (v.name <> "-extra"))
          (cluster_role a)
      ∷ subcomponent "clusterRoleBinding" (new_object "ClusterRoleBinding" "" (v.name <> "-extra"))
          (cluster_role_binding v a)
      ∷ [];
}
