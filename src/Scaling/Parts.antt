-- ===== src/Scaling/Parts.antt =====
-- The component of a node group (`GetComponents` of
-- internal/components/enable_autoscaler/enable_autoscaler.go), and the objects of the other
-- components that the operator builds itself.
use oci_openshift_autoscalin.Base.{String, ◌<>◌, Bool, some, [], ◌∷◌, if◌then◌else◌, Result, ok}
use oci_openshift_autoscalin.Api.{Autoscaler}
use oci_openshift_autoscalin.Config.{Config}
use oci_openshift_autoscalin.Kube.{Kube}
use oci_openshift_autoscalin.Labels.{set_default_labels}
use oci_openshift_autoscalin.NodePool.{
  identity_name, node_pool_name, autoscaling_name, bootstrap_secret_name,
}
use oci_openshift_autoscalin.Objects.{Object, Subcomponent, Component}
use oci_openshift_autoscalin.Scaling.Cluster.{oci_cluster, oci_cluster_identity, capi_cluster}
use oci_openshift_autoscalin.Scaling.Rendered.{new_object, rendered, as_they_are}
use oci_openshift_autoscalin.Scaling.Machines.{machine_template}
use oci_openshift_autoscalin.Scaling.Deployment.{machine_deployment, machine_health_check}
use oci_openshift_autoscalin.Scaling.Secrets.{
  SecretSource, bootstrap_config_secret, kubeconfig_secret,
}

-- the mutation of an object that is only labelled, such as `ManagedResourceNamespace`
unfoldable pub labelled : Autoscaler → Object → Result Object
labelled a o = rendered (set_default_labels a.metadata.name) as_they_are (ok o.payload) o

abbrev pub subcomponent : String → Object → (Object → Result Object) → Subcomponent
subcomponent name o mutate = record { name = name; object = o; mutate_fn = some mutate }

module _ (k : Kube) (source : SecretSource) where
  unfoldable pub scaling_components :
      String → String → String → String → Autoscaler → Config → Bool → Component
  scaling_components namespace token_namespace cluster_name account a config
        use_instance_principal =
      let pool = node_pool_name cluster_name a in
      record {
        instance_name = a.metadata.name;
        name = "EnableAutoscaler";
        subcomponents =
            subcomponent "managedResourceNamespace" (new_object "Namespace" "" namespace)
              (labelled a)
            ∷ subcomponent "bootstrapConfigSecret"
                (new_object "Secret" namespace (bootstrap_secret_name cluster_name))
                (bootstrap_config_secret source a)
            ∷ subcomponent "kubeConfigSecret"
                (new_object "Secret" namespace (cluster_name <> "-kubeconfig"))
                (kubeconfig_secret source namespace token_namespace cluster_name account a)
            ∷ subcomponent "machineTemplate"
                (new_object "OCIMachineTemplate" namespace (autoscaling_name pool))
                (machine_template k cluster_name a config)
            ∷ subcomponent "machineDeployment" (new_object "MachineDeployment" namespace pool)
                (machine_deployment k cluster_name a config)
            ∷ subcomponent "machineHealthCheck"
                (new_object "MachineHealthCheck" namespace (autoscaling_name pool))
                (machine_health_check k cluster_name a config)
            ∷ subcomponent "ociCluster" (new_object "OCICluster" namespace cluster_name)
                (oci_cluster namespace cluster_name a config use_instance_principal)
            ∷ subcomponent "cluster" (new_object "Cluster" namespace cluster_name)
                (capi_cluster k cluster_name a config)
            ∷ (if use_instance_principal
                then subcomponent "ociClusterIdentity"
                    (new_object "OCIClusterIdentity" namespace (identity_name cluster_name))
                    (oci_cluster_identity namespace a)
                  ∷ []
                else []);
      }
