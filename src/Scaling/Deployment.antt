-- ===== src/Scaling/Deployment.antt =====
-- The machines of a node group and their health check (`MachineDeployment` and
-- `MachineHealthCheck` of internal/components/enable_autoscaler/capi.go).
pub mod Steps
pub mod Selected
use oci_openshift_autoscalin.Base.{
  ℕ, String, ◌<>◌, Option, none, some, [], ◌∷◌, if◌then◌else◌, Result, ok, wrap_err,
}
use oci_openshift_autoscalin.Base.Bind.{◌>>=◌, ◌>>◌}
use oci_openshift_autoscalin.Base.Int.{ℤ, show_ℤ}
use oci_openshift_autoscalin.Base.Dict.{Dict, insert}
use oci_openshift_autoscalin.Api.{Autoscaler}
use oci_openshift_autoscalin.Config.{Config, is_bare_metal_shape, or_default}
use oci_openshift_autoscalin.Kube.{Kube}
use oci_openshift_autoscalin.Labels.{set_default_labels, get_component_labels}
use oci_openshift_autoscalin.NodePool.{
  node_pool_name, autoscaling_name, bootstrap_secret_name, validate_generated_node_pool_names,
}
use oci_openshift_autoscalin.Objects.{
  Object, Payload, InfrastructureRef, Rollout, NodeCondition, MachineDeploymentSpec,
  HealthCheckSpec,
}
use oci_openshift_autoscalin.Scaling.Cluster.{oci_infrastructure_api_version}
use oci_openshift_autoscalin.Scaling.Rendered.{rendered, as_they_are}
use oci_openshift_autoscalin.Scaling.References.{
  infrastructure_ref, validate_machine_deployment_object,
}

abbrev pub capi_cluster_name_label : String
capi_cluster_name_label = "cluster.x-k8s.io/cluster-name"

abbrev pub capi_deployment_name_label : String
capi_deployment_name_label = "cluster.x-k8s.io/deployment-name"

abbrev pub cpu_capacity_annotation : String
cpu_capacity_annotation = "capacity.cluster-autoscaler.kubernetes.io/cpu"

abbrev pub node_labels_annotation : String
node_labels_annotation = "capacity.cluster-autoscaler.kubernetes.io/labels"

abbrev pub memory_capacity_annotation : String
memory_capacity_annotation = "capacity.cluster-autoscaler.kubernetes.io/memory"

abbrev pub node_group_min_size_annotation : String
node_group_min_size_annotation = "cluster.x-k8s.io/cluster-api-autoscaler-node-group-min-size"

abbrev pub node_group_max_size_annotation : String
node_group_max_size_annotation = "cluster.x-k8s.io/cluster-api-autoscaler-node-group-max-size"

abbrev pub worker_role_label_value : String
worker_role_label_value = "node-role.kubernetes.io/worker="

-- the labels that select the machines of a node pool
abbrev pub machine_labels : String → String → Dict String
machine_labels cluster_name pool =
    (capi_cluster_name_label, cluster_name) ∷ (capi_deployment_name_label, pool) ∷ []

unfoldable pub machine_template_labels : String → String → String → Dict String
machine_template_labels instance_name cluster_name pool = insert capi_deployment_name_label pool (
    insert capi_cluster_name_label cluster_name
      (get_component_labels instance_name "EnableAutoscaler" "machine"))

-- what the autoscaler reads of a node group, over the annotations that are there
unfoldable pub capacity_annotations : Config → Dict String → Dict String
capacity_annotations config annotations =
    let c = config.autoscaling in
    insert node_group_max_size_annotation (show_ℤ c.max_nodes) (
      insert node_group_min_size_annotation (show_ℤ c.min_nodes) (
        insert memory_capacity_annotation (show_ℤ c.memory <> "G") (
          insert node_labels_annotation worker_role_label_value
            (insert cpu_capacity_annotation (show_ℤ c.cpus) annotations))))

-- `spec.replicas` and the fields that the operator does not name; a specification that is not there
-- has neither
abbrev pub existing_replicas : Payload → Option ℤ
existing_replicas (Payload.machine_deployment spec) = spec.replicas
existing_replicas _ = none

abbrev pub existing_others : Payload → Dict String
existing_others (Payload.machine_deployment spec) = spec.others
existing_others _ = []

abbrev pub rolling_update : Rollout
rolling_update = record { type = "RollingUpdate"; max_surge = 0; max_unavailable = 1 }

abbrev pub bare_metal_node_startup_timeout_seconds : ℕ
bare_metal_node_startup_timeout_seconds = 1200

abbrev pub default_node_startup_timeout_seconds : ℕ
default_node_startup_timeout_seconds = 600

abbrev pub unhealthy_node_timeout_seconds : ℕ
unhealthy_node_timeout_seconds = 300

abbrev pub unhealthy : String → NodeCondition
unhealthy status = record {
  type = "Ready";
  status = status;
  timeout_seconds = unhealthy_node_timeout_seconds;
}

module _ (k : Kube) (cluster_name : String) (a : Autoscaler) (config : Config) where
  unfoldable pub machine_deployment_spec : InfrastructureRef → Payload → MachineDeploymentSpec
  machine_deployment_spec ref existing =
      let pool = node_pool_name cluster_name a in
      record {
        replicas = some (or_default (existing_replicas existing) config.autoscaling.min_nodes);
        cluster_name = cluster_name;
        match_labels = machine_labels cluster_name pool;
        template_labels = machine_template_labels a.metadata.name cluster_name pool;
        template_cluster_name = cluster_name;
        data_secret_name = bootstrap_secret_name cluster_name;
        infrastructure_ref = some ref;
        failure_domain =
            if config.autoscaling.enable_rdma
            then some config.autoscaling.rdma_failure_domain
            else none;
        rollout =
            if is_bare_metal_shape config.autoscaling.shape then some rolling_update else none;
        others = existing_others existing;
      }

  unfoldable pub machine_deployment_payload : Payload → Result Payload
  machine_deployment_payload existing = do
    validate_generated_node_pool_names k cluster_name a
    ref ←
        infrastructure_ref k oci_infrastructure_api_version "OCIMachineTemplate"
          (autoscaling_name (node_pool_name cluster_name a))
    let spec = machine_deployment_spec ref existing
    wrap_err "invalid rendered MachineDeployment object" (validate_machine_deployment_object spec)
    ok (Payload.machine_deployment spec)

  -- the mutation of `MachineDeployment`
  unfoldable pub machine_deployment : Object → Result Object
  machine_deployment o =
      rendered (set_default_labels a.metadata.name) (capacity_annotations config)
        (machine_deployment_payload o.payload) o

  unfoldable pub health_check_spec : HealthCheckSpec
  health_check_spec = record {
    cluster_name = cluster_name;
    match_labels = machine_labels cluster_name (node_pool_name cluster_name a);
    node_startup_timeout_seconds =
        if is_bare_metal_shape config.autoscaling.shape
        then bare_metal_node_startup_timeout_seconds
        else default_node_startup_timeout_seconds;
    unhealthy_node_conditions = unhealthy "Unknown" ∷ unhealthy "False" ∷ [];
    trigger_if = "100%";
  }

  unfoldable pub machine_health_check_payload : Result Payload
  machine_health_check_payload = do
    validate_generated_node_pool_names k cluster_name a
    ok (Payload.machine_health_check health_check_spec)

  -- the mutation of `MachineHealthCheck`
  unfoldable pub machine_health_check : Object → Result Object
  machine_health_check o =
      rendered (set_default_labels a.metadata.name) as_they_are machine_health_check_payload o
