-- ===== src/Scaling/Cluster/Undiscovered.antt =====
-- A configuration that leaves the blocks of the cluster to be discovered.
use oci_openshift_autoscalin.Base.{String, Bool, ◌≡◌, ◌≢◌, ok, IsOk, false, ◌⊎◌, inl, inr, ap, ◌∙◌}
use mathlib.Core.Path.{subst}
use oci_openshift_autoscalin.Base.Text.{is_blank, trim_space}
use oci_openshift_autoscalin.Api.{Autoscaler}
use oci_openshift_autoscalin.Config.{Config}
use oci_openshift_autoscalin.Kube.{Kube}
use oci_openshift_autoscalin.Run.{Run, Env}
use oci_openshift_autoscalin.Objects.{Object}
use oci_openshift_autoscalin.Discovery.{set_autoscaling_config}
use oci_openshift_autoscalin.Discovery.Resolved.{set_autoscaling_config-override}
use oci_openshift_autoscalin.Scaling.Cluster.{capi_cluster, oci_infrastructure_api_version}
use oci_openshift_autoscalin.Scaling.Cluster.Valid.{infrastructure_group, capi_cluster-IsOk}

not_empty : (s : String) → is_blank s ≡ false → s ≢ ""
unfolding trim_space
not_empty s h e = let f : is_blank "" ≡ false = subst (λ x. is_blank x ≡ false) e h in cc f

-- Take a configuration of the operator that leaves a block of the cluster empty, to be discovered.
-- Whatever the cluster answers, when the configuration is completed without an error, the Cluster
-- of the node group cannot be written with what comes back. The name of the cluster is not blank, and
-- the API group of the provider is read as it is documented.
pub capi_cluster-set_autoscaling_config :
    (k : Kube) (env : Env) (matches : String → Bool) (cluster_name : String) (a : Autoscaler)
    (config found : Config) (r : Run) (o : Object)
    → k.parse_group oci_infrastructure_api_version ≡ ok infrastructure_group
    → is_blank cluster_name ≡ false
    → (config.network.cluster_network_cidr_block ≡ "")
      ⊎ (config.network.service_network_cidr_block ≡ "")
    → (set_autoscaling_config env matches a config r).0 ≡ ok found
    → ¬ IsOk (capi_cluster k cluster_name a found o)
capi_cluster-set_autoscaling_config k env matches cluster_name a config found r o parsed named empty
      h made =
    let (_, e) = set_autoscaling_config-override env matches a config found r h in
    let (pods, services) = (capi_cluster-IsOk k cluster_name found parsed named a o).0 made in
    elim empty [
      | inl none_given ↦
          not_empty found.network.cluster_network_cidr_block pods.0
            (ap (λ n. n.cluster_network_cidr_block) e ∙ none_given)
      | inr none_given ↦
          not_empty found.network.service_network_cidr_block services.0
            (ap (λ n. n.service_network_cidr_block) e ∙ none_given)
    ]
