-- ===== src/Tests/Config.antt =====
-- An example configuration.
use oci_openshift_autoscalin.Base.{IsOk, inl}
use oci_openshift_autoscalin.Base.Text.{before}
use oci_openshift_autoscalin.Scaling.Rendered.{new_object}
use oci_openshift_autoscalin.Scaling.Cluster.{capi_cluster}
use oci_openshift_autoscalin.Scaling.Cluster.Undiscovered.{capi_cluster-set_autoscaling_config}
use oci_openshift_autoscalin.Tests.Fixtures.{kube}
use oci_openshift_autoscalin.Base.{true, [], ◌≡◌, ◌↔◌, refl, ok}
use oci_openshift_autoscalin.Base.Text.{trim_space}
use oci_openshift_autoscalin.Exec.{◌>>=◌ as ◌>>=ₑ◌}
use oci_openshift_autoscalin.Config.{
  override, resolve_config, validate_shape_config, validate_required_config_fields,
  validate_bare_metal_subnet_config, validate_rdma_config, validate_defined_tags_namespace,
  require_fields, is_bare_metal_shape, validate_min_max_nodes,
}
use oci_openshift_autoscalin.Config.Resolve.{InOrder, min_of, max_of, validate_min_max_nodes-ok}
use oci_openshift_autoscalin.Discovery.{
  set_autoscaling_config, set_network_config, get_cluster_network_cidr_block,
  get_service_network_cidr_block, choose_block,
}
use oci_openshift_autoscalin.Discovery.Resolved.{set_autoscaling_config-override}
use oci_openshift_autoscalin.Run.{ask}
use oci_openshift_autoscalin.Tests.Fixtures.{config, older_resource, env_listing, run_of}

sizes_example :
    validate_min_max_nodes older_resource config ≡ ok tt
    ↔ InOrder (min_of older_resource config) (max_of older_resource config)
sizes_example = validate_min_max_nodes-ok older_resource config

-- the networks stay empty, although the cluster answers
discovery_example :
    (override older_resource config ≡ override older_resource config)
    × ((override older_resource config).network ≡ config.network)
unfolding set_autoscaling_config resolve_config override validate_shape_config
    validate_required_config_fields validate_bare_metal_subnet_config validate_rdma_config
    validate_defined_tags_namespace require_fields is_bare_metal_shape trim_space set_network_config
    get_cluster_network_cidr_block get_service_network_cidr_block choose_block ask ◌>>=ₑ◌
discovery_example =
    set_autoscaling_config-override (env_listing []) (λ s. true) older_resource config
      (override older_resource config) (run_of older_resource) refl

undiscovered_example : ¬ IsOk (
    capi_cluster kube "ocp" older_resource
      (override older_resource config)
      (new_object "Cluster" "machines" "ocp"))
unfolding set_autoscaling_config resolve_config override validate_shape_config
    validate_required_config_fields validate_bare_metal_subnet_config validate_rdma_config
    validate_defined_tags_namespace require_fields is_bare_metal_shape trim_space set_network_config
    get_cluster_network_cidr_block get_service_network_cidr_block choose_block ask ◌>>=ₑ◌ before
undiscovered_example =
    capi_cluster-set_autoscaling_config kube (env_listing []) (λ s. true) "ocp" older_resource
      config (override older_resource config) (run_of older_resource)
      (new_object "Cluster" "machines" "ocp") refl refl (inl refl) refl
