-- ===== src/Scaling/Cluster.antt =====
-- The cluster of the infrastructure provider, its identity and the Cluster API's cluster
-- (`OCICluster`, `OCIClusterIdentity` and `CAPICluster` of
-- internal/components/enable_autoscaler/capi.go).
pub mod Valid
pub mod Undiscovered
use oci_openshift_autoscalin.Base.{
  String, Bool, true, Option, none, some, List, [], ◌∷◌, ◌++◌, if◌then◌else◌, Result, ok, Check,
  wrap_err,
}
use oci_openshift_autoscalin.Base.Bind.{◌>>=◌, ◌>>◌}
use oci_openshift_autoscalin.Base.Text.{is_nil}
use oci_openshift_autoscalin.Base.Dict.{Dict, copy_onto}
use oci_openshift_autoscalin.Api.{Autoscaler}
use oci_openshift_autoscalin.Config.{Config, NetworkConfig}
use oci_openshift_autoscalin.Kube.{Kube}
use oci_openshift_autoscalin.Labels.{set_default_labels}
use oci_openshift_autoscalin.NodePool.{identity_name}
use oci_openshift_autoscalin.Objects.{
  Object, Payload, Subnet, IdentityRef, OciClusterSpec, CapiClusterSpec, InfrastructureRef,
}
use oci_openshift_autoscalin.Scaling.Rendered.{rendered, as_they_are}
use oci_openshift_autoscalin.Scaling.References.{infrastructure_ref, validate_capi_cluster_object}

abbrev pub oci_infrastructure_api_version : String
oci_infrastructure_api_version = "infrastructure.cluster.x-k8s.io/v1beta2"

abbrev pub skip_api_server_lb_management_annotation : String
skip_api_server_lb_management_annotation = "cluster.x-k8s.io/skip-apiserver-lb-management"

abbrev pub worker_role_name : String
worker_role_name = "worker"

-- the identifier of the specification that is there
abbrev pub existing_identifier : Payload → String
existing_identifier (Payload.oci_cluster spec) = spec.oci_resource_identifier
existing_identifier _ = ""

abbrev pub worker : String → String → Subnet
worker id name = record { id = id; name = name; role = worker_role_name }

unfoldable pub cluster_subnets : NetworkConfig → List Subnet
cluster_subnets n =
    worker n.ocp_subnet_id n.ocp_subnet_name
    ∷ (if is_nil n.bare_metal_subnet_id
        then []
        else worker n.bare_metal_subnet_id n.bare_metal_subnet_name ∷ [])

unfoldable pub capi_cluster_spec : Config → InfrastructureRef → CapiClusterSpec
capi_cluster_spec config ref = record {
  pod_cidr_blocks = config.network.cluster_network_cidr_block ∷ [];
  service_domain = "cluster.local";
  service_cidr_blocks = config.network.service_network_cidr_block ∷ [];
  infrastructure_ref = some ref;
}

module _ (capi_system_namespace cluster_name : String) where
  unfoldable pub oci_cluster_spec : Config → Bool → String → OciClusterSpec
  unfolding cluster_subnets
  oci_cluster_spec config use_instance_principal identifier = record {
    oci_resource_identifier = identifier;
    compartment_id = config.compartment_id;
    control_plane_host = config.network.control_plane_endpoint;
    control_plane_port = 6443;
    api_server_lb_id = config.network.api_server_load_balancer_id;
    skip_network_management = true;
    vcn_id = config.network.vcn_id;
    subnets = cluster_subnets config.network;
    network_security_groups =
        worker config.network.network_security_group_id config.network.compute_nsg_name ∷ [];
    identity_ref =
        if use_instance_principal
        then some (record {
          api_version = oci_infrastructure_api_version;
          kind = "OCIClusterIdentity";
          name = identity_name cluster_name;
          namespace = capi_system_namespace;
        })
        else none;
  }

  -- the mutation of `OCICluster`
  unfoldable pub oci_cluster : Autoscaler → Config → Bool → Object → Result Object
  oci_cluster a config use_instance_principal o =
      rendered (set_default_labels a.metadata.name)
        (copy_onto ((skip_api_server_lb_management_annotation, "true") ∷ []))
        (ok (
          Payload.oci_cluster
            (oci_cluster_spec config use_instance_principal (existing_identifier o.payload))))
        o

-- the mutation of `OCIClusterIdentity`
unfoldable pub oci_cluster_identity : String → Autoscaler → Object → Result Object
oci_cluster_identity capi_system_namespace a o =
    rendered (set_default_labels a.metadata.name) as_they_are
      (ok (Payload.oci_cluster_identity "InstancePrincipal" (capi_system_namespace ∷ []))) o

-- the specification that `CAPICluster` renders and checks
unfoldable pub capi_cluster_payload : Kube → String → Config → Result Payload
capi_cluster_payload k cluster_name config = do
  ref ← infrastructure_ref k oci_infrastructure_api_version "OCICluster" cluster_name
  let spec = capi_cluster_spec config ref
  wrap_err "invalid rendered Cluster object" (validate_capi_cluster_object k spec)
  ok (Payload.capi_cluster spec)

-- the mutation of `CAPICluster`
unfoldable pub capi_cluster : Kube → String → Autoscaler → Config → Object → Result Object
capi_cluster k cluster_name a config o =
    rendered (set_default_labels a.metadata.name) as_they_are
      (capi_cluster_payload k cluster_name config) o
