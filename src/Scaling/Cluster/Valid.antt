-- ===== src/Scaling/Cluster/Valid.antt =====
-- When the Cluster API's cluster can be written.
use oci_openshift_autoscalin.Base.{
  String, false, [], ◌∷◌, ◌≡◌, ◌↔◌, refl, arith, ok, err, some, none, IsOk, Check, wrap_err,
}
use oci_openshift_autoscalin.Base.Bind.{bind-ok, ◌>>=◌}
use oci_openshift_autoscalin.Base.Dict.{Dict}
use oci_openshift_autoscalin.Labels.{set_default_labels}
use oci_openshift_autoscalin.Scaling.Rendered.{rendered, as_they_are}
use oci_openshift_autoscalin.Base.Text.{is_blank, trim_space}
use oci_openshift_autoscalin.Api.{Autoscaler}
use oci_openshift_autoscalin.Config.{Config}
use oci_openshift_autoscalin.Kube.{Kube}
use oci_openshift_autoscalin.Objects.{Object, Payload, InfrastructureRef}
use oci_openshift_autoscalin.Scaling.References.{
  infrastructure_ref, validate_capi_infrastructure_ref, validate_capi_cluster_object,
  validate_cidr_blocks,
}
use oci_openshift_autoscalin.Scaling.Cluster.{
  capi_cluster, capi_cluster_payload, capi_cluster_spec, oci_infrastructure_api_version,
}

abbrev pub IsCidr : Kube → String → Type 0
IsCidr k block = (is_blank block ≡ false) × (k.parse_cidr (trim_space block) ≡ ok tt)

block-ok :
    (k : Kube) (path block : String)
    → validate_cidr_blocks k path 0 (block ∷ []) ≡ ok tt ↔ IsCidr k block
unfolding validate_cidr_blocks
block-ok k path block =
    (λ h. (ground (arith, h), ground (arith, h)), λ (p, q). ground (arith, p, q))

object-ok :
    (k : Kube) (config : Config) (ref : InfrastructureRef)
    → validate_capi_infrastructure_ref (some ref) ≡ ok tt
    → validate_capi_cluster_object k (capi_cluster_spec config ref) ≡ ok tt
      ↔ IsCidr k config.network.cluster_network_cidr_block
        × IsCidr k config.network.service_network_cidr_block
unfolding validate_capi_cluster_object capi_cluster_spec
object-ok k config ref v =
    let pods = config.network.cluster_network_cidr_block in
    let services = config.network.service_network_cidr_block in
    let at_pods = block-ok k "clusterNetwork.pods.cidrBlocks" pods in
    let at_services = block-ok k "clusterNetwork.services.cidrBlocks" services in
    (
      λ h.
          let (_, _, h1) = bind-ok (validate_capi_infrastructure_ref (some ref)) _ tt h in
          let (_, p, h2) =
            bind-ok (validate_cidr_blocks k "clusterNetwork.pods.cidrBlocks" 0 (pods ∷ [])) _ tt
              h1 in
          (at_pods.0 p, at_services.0 h2),
      λ (p, q). rw (v, at_pods.1 p, at_services.1 q) refl,
    )

written-ok :
    (label annotate : Dict String → Dict String) (text : String) (p : Payload) (o : Object)
    (r : Check)
    → IsOk (rendered label annotate (wrap_err text r >>= λ _. ok p) o) ↔ (r ≡ ok tt)
written-ok label annotate text p o (ok _) = (λ h. refl, λ e. tt)
written-ok label annotate text p o (err e) = (λ h. elim h [ ], λ h. cc h)

abbrev pub infrastructure_group : String
infrastructure_group = "infrastructure.cluster.x-k8s.io"

module _ (k : Kube) (cluster_name : String) (config : Config)
    (parsed : k.parse_group oci_infrastructure_api_version ≡ ok infrastructure_group)
    (named : is_blank cluster_name ≡ false) where
  abbrev cluster_ref : InfrastructureRef
  cluster_ref = record {
    api_group = infrastructure_group;
    kind = "OCICluster";
    name = cluster_name;
    namespace = none;
  }

  cluster_ref-ok :
      infrastructure_ref k oci_infrastructure_api_version "OCICluster" cluster_name ≡ ok cluster_ref
  unfolding infrastructure_ref trim_space
  cluster_ref-ok = rw (parsed, named) refl

  cluster_ref-valid : validate_capi_infrastructure_ref (some cluster_ref) ≡ ok tt
  unfolding validate_capi_infrastructure_ref trim_space
  cluster_ref-valid = rw named refl

  -- The Cluster of a node group is written exactly when its blocks of pods and of services are both
  -- valid CIDR blocks, which an empty block is not. The name of the cluster is not blank, and the API group of the
  -- provider is read as it is documented.
  pub capi_cluster-IsOk :
      (a : Autoscaler) (o : Object)
      → IsOk (capi_cluster k cluster_name a config o)
        ↔ IsCidr k config.network.cluster_network_cidr_block
          × IsCidr k config.network.service_network_cidr_block
  unfolding capi_cluster capi_cluster_payload
  capi_cluster-IsOk a o =
      let checked = validate_capi_cluster_object k (capi_cluster_spec config cluster_ref) in
      let valid = object-ok k config cluster_ref cluster_ref-valid in
      let written =
        written-ok (set_default_labels a.metadata.name) as_they_are
          "invalid rendered Cluster object"
          (Payload.capi_cluster (capi_cluster_spec config cluster_ref)) o checked in
      rw cluster_ref-ok (λ h. valid.0 (written.0 h), λ c. written.1 (valid.1 c))
