-- ===== src/NodePool.antt =====
-- The names of the node pool and of the objects generated for it
-- (internal/components/enable_autoscaler/capi.go), and the validation of the custom resource
-- (`validate` of internal/controllers/ociclusterautoscaler_controller.go).
pub mod Bound
use oci_openshift_autoscalin.Base.{
  ℕ, String, ◌<>◌, ◌-◌, Bool, List, ltb, if◌then◌else◌, not, is_empty, Result, ok, err, Check,
  Error, errorf, wrap_err, reject_if,
}
use oci_openshift_autoscalin.Base.Bind.{◌>>=◌, ◌>>◌}
use oci_openshift_autoscalin.Base.Int.{decimal}
use oci_openshift_autoscalin.Base.Text.{is_nil, trim_space, joined}
use oci_openshift_autoscalin.Api.{Autoscaler}
use oci_openshift_autoscalin.Config.{Config, validate_min_max_nodes, validate_shape_config}
use oci_openshift_autoscalin.Kube.{Kube}
use oci_openshift_autoscalin.Namespaces.{validate_optional_object_name}
use Prim.Native.String.{len}

abbrev pub max_dns1123_label_length : ℕ
max_dns1123_label_length = 63

abbrev pub max_node_pool_name_length : ℕ
max_node_pool_name_length = max_dns1123_label_length - len "-autoscaling"

unfoldable pub identity_name : String → String
identity_name cluster_name = cluster_name <> "-identity"

unfoldable pub autoscaling_name : String → String
autoscaling_name cluster_name = cluster_name <> "-autoscaling"

unfoldable pub bootstrap_secret_name : String → String
bootstrap_secret_name cluster_name = cluster_name <> "-bootstrap"

unfoldable pub node_pool_name : String → Autoscaler → String
node_pool_name cluster_name a =
    let pool_identifier = trim_space a.spec.autoscaling.pool_identifier in
    if is_nil pool_identifier then cluster_name else cluster_name <> "-" <> pool_identifier

unfoldable pub autoscaling_resource_name : String → Autoscaler → String
autoscaling_resource_name cluster_name a = autoscaling_name (node_pool_name cluster_name a)

module _ (k : Kube) where
  unfoldable pub validate_dns1123_label : String → String → Check
  validate_dns1123_label field value =
      let reasons = k.is_dns1123_label value in
      reject_if (not (is_empty reasons)) (
        errorf (
          field
          <> " "
          <> k.quote value
          <> " must be a valid DNS-1123 label: "
          <> joined "; " reasons))

  unfoldable pub validate_node_pool_name : String → Check
  validate_node_pool_name name = do
    reject_if (ltb max_node_pool_name_length (len name)) (
        errorf (
          "node pool name "
          <> k.quote name
          <> " must be at most "
          <> decimal max_node_pool_name_length
          <> " characters so generated CAPI resource names stay within "
          <> decimal max_dns1123_label_length
          <> " characters"))
    validate_dns1123_label "node pool name" name

  unfoldable pub validate_generated_node_pool_names : String → Autoscaler → Check
  validate_generated_node_pool_names cluster_name a = do
    let name = node_pool_name cluster_name a
    validate_node_pool_name name
    validate_dns1123_label "autoscaling resource name" (autoscaling_name name)

  -- `validate` of the controller
  unfoldable pub validate : Autoscaler → Config → Check
  validate a config = do
    wrap_err "invalid Min/Max nodes set in either the autoscaler spec or the config"
        (validate_min_max_nodes a config)
    validate_optional_object_name k "spec.capi.clusterName" a.spec.capi.cluster_name
    validate_optional_object_name k "spec.clusterAutoscaler.name" a.spec.cluster_autoscaler.name
    validate_optional_object_name k "spec.clusterAutoscaler.serviceAccountName"
        a.spec.cluster_autoscaler.service_account_name
    let cluster_name = trim_space a.spec.capi.cluster_name
    (if is_nil cluster_name
        then ok tt
        else wrap_err "spec.capi.clusterName/spec.autoscaling.poolIdentifier"
            (validate_node_pool_name (node_pool_name cluster_name a)))
