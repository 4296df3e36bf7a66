-- ===== src/Scaling/Deployment/Steps.antt =====
-- What a machine deployment that was rendered consists of.
use oci_openshift_autoscalin.Base.{String, ◌≡◌, Result, ok, wrap_err}
use oci_openshift_autoscalin.Base.Bind.{bind-ok}
use oci_openshift_autoscalin.Api.{Autoscaler}
use oci_openshift_autoscalin.Config.{Config}
use oci_openshift_autoscalin.Kube.{Kube}
use oci_openshift_autoscalin.NodePool.{
  validate_generated_node_pool_names, autoscaling_name, node_pool_name,
}
use oci_openshift_autoscalin.Objects.{Payload, InfrastructureRef}
use oci_openshift_autoscalin.Scaling.Cluster.{oci_infrastructure_api_version}
use oci_openshift_autoscalin.Scaling.Deployment.{
  machine_deployment_payload, machine_deployment_spec, machine_health_check_payload,
  health_check_spec,
}
use oci_openshift_autoscalin.Scaling.References.{
  infrastructure_ref, validate_machine_deployment_object,
}

pub ok-payload : (x y : Payload) → Result.ok x ≡ Result.ok y → x ≡ y
ok-payload x y e = cc e

module _ (k : Kube) (cluster_name : String) (a : Autoscaler) (config : Config) where
  pub machine_deployment_payload-steps :
      (p q : Payload)
      → machine_deployment_payload k cluster_name a config p ≡ ok q
      → (ref : InfrastructureRef) × (validate_generated_node_pool_names k cluster_name a ≡ ok tt)
        × (infrastructure_ref k oci_infrastructure_api_version "OCIMachineTemplate"
              (autoscaling_name (node_pool_name cluster_name a))
            ≡ ok ref)
        × (wrap_err "invalid rendered MachineDeployment object" (
              validate_machine_deployment_object
                (machine_deployment_spec k cluster_name a config ref p))
            ≡ ok tt)
        × (Payload.machine_deployment (machine_deployment_spec k cluster_name a config ref p) ≡ q)
  unfolding machine_deployment_payload
  machine_deployment_payload-steps p q h =
      let name = autoscaling_name (node_pool_name cluster_name a) in
      let (_, v, h1) = bind-ok (validate_generated_node_pool_names k cluster_name a) _ q h in
      let (ref, e, h2) =
        bind-ok (infrastructure_ref k oci_infrastructure_api_version "OCIMachineTemplate" name) _ q
          h1 in
      let spec = machine_deployment_spec k cluster_name a config ref p in
      let (_, w, h3) =
        bind-ok
          (wrap_err "invalid rendered MachineDeployment object"
            (validate_machine_deployment_object spec))
          _ q h2 in
      (ref, v, e, w, ok-payload _ _ h3)

  pub machine_health_check_payload-steps :
      (q : Payload)
      → machine_health_check_payload k cluster_name a config ≡ ok q
      → Payload.machine_health_check (health_check_spec k cluster_name a config) ≡ q
  unfolding machine_health_check_payload
  machine_health_check_payload-steps q h =
      let (_, v, h1) = bind-ok (validate_generated_node_pool_names k cluster_name a) _ q h in
      ok-payload _ _ h1
