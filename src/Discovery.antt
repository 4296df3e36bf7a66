-- ===== src/Discovery.antt =====
-- What the operator reads from the cluster: its name and its networks
-- (internal/utils/kubeapi.go), and the configuration that is completed with them
-- (SetNetworkConfig and SetAutoScalingConfig of internal/components/enable_autoscaler/config.go).
pub mod Resolved
use oci_openshift_autoscalin.Base.{
  ℕ, String, ◌<>◌, Bool, true, false, Option, none, some, List, [], ◌∷◌, ◌||◌, ◌&&◌, not, ◌==◌,
  if◌then◌else◌, Result, ok, err, Check, Error, errorf, wrap, wrap_err, reject_if,
}
use oci_openshift_autoscalin.Base.{length}
use oci_openshift_autoscalin.Base.Int.{decimal}
use oci_openshift_autoscalin.Base.Text.{is_nil, trim_space}
use oci_openshift_autoscalin.Api.{Autoscaler}
use oci_openshift_autoscalin.Exec.{Exec, return, fail, lift, catch, ◌>>=◌, ◌>>◌}
use oci_openshift_autoscalin.Run.{Env, Call, Action, Network, ask}
use oci_openshift_autoscalin.Config.{Config, resolve_config}

-- `expected 1 infrastructure cluster, got %d`
abbrev pub one_infrastructure : List String → Result String
one_infrastructure (name ∷ []) = ok name
one_infrastructure names =
    err (errorf ("expected 1 infrastructure cluster, got " <> decimal (length names)))

abbrev first_given : List String → Option String
first_given [] = none
first_given (block ∷ _) = if is_nil block then none else some block

-- the first block of the spec, else that of the status
unfoldable pub choose_block : String → List String → List String → Result String
choose_block missing spec status = elim (first_given spec) [
  | some block ↦ ok block
  | none ↦ elim (first_given status) [ some block ↦ ok block | none ↦ err (errorf missing) ]
]

-- a computation with `fmt.Errorf("<text>: %w", err)` around its error
abbrev pub wrapping : {A : Type 0} → String → Action A → Action A
wrapping text m = catch m >>= λ r. lift (wrap_err text r)

module _ (env : Env) where
  -- `GetInfrastructureCluster` and `GetClusterName`
  unfoldable pub get_cluster_name : Action String
  get_cluster_name = wrapping "failed to get infrastructure cluster" (do
    names ←
        wrapping "failed to get infrastructure cluster"
          (ask Call.list_infrastructures env.list_infrastructures)
    lift (one_infrastructure names))

  -- `clusterNameFor`
  unfoldable pub cluster_name_for : Autoscaler → Action String
  cluster_name_for a =
      let given = trim_space a.spec.capi.cluster_name in
      if is_nil given then get_cluster_name else return given

  unfoldable pub get_cluster_network_cidr_block : Action String
  get_cluster_network_cidr_block = do
    n ← wrapping "failed to get cluster network CIDR block" (ask Call.get_network env.get_network)
    lift (
        choose_block
          "cluster network CIDR block not found in network.config.openshift.io/cluster (spec.clusterNetwork/status.clusterNetwork empty)"
          n.spec_cluster n.status_cluster)

  unfoldable pub get_service_network_cidr_block : Action String
  get_service_network_cidr_block = do
    n ← wrapping "failed to get service network CIDR block" (ask Call.get_network env.get_network)
    lift (
        choose_block
          "service network CIDR block not found in network.config.openshift.io/cluster (spec.serviceNetwork/status.serviceNetwork empty)"
          n.spec_service n.status_service)

  unfoldable pub set_network_config : Config → Action Config
  set_network_config config = do
    let n = config.network
    lift (
        reject_if (not (is_nil n.bare_metal_subnet_id) && n.bare_metal_subnet_id == n.ocp_subnet_id)
          (errorf (
            "secondary subnet must differ from primary subnet (bareMetalSubnetID="
            <> n.bare_metal_subnet_id <> ", ocpSubnetID=" <> n.ocp_subnet_id <> ")")))
    cluster ←
        if is_nil n.cluster_network_cidr_block
        then wrapping "failed to get cluster network CIDR block" get_cluster_network_cidr_block
        else return n.cluster_network_cidr_block
    service ←
        if is_nil n.service_network_cidr_block
        then wrapping "failed to get service network CIDR block" get_service_network_cidr_block
        else return n.service_network_cidr_block
    return (record config {
      network = record n {
        cluster_network_cidr_block = cluster;
        service_network_cidr_block = service;
      };
    })

  -- The source writes `if config, err := SetNetworkConfig(…); err != nil`, so the configuration
  -- with the network goes to a variable of the `if`, and the one that was given is returned.
  unfoldable pub set_autoscaling_config : (String → Bool) → Autoscaler → Config → Action Config
  set_autoscaling_config matches a config = do
    resolved ← lift (resolve_config matches a config)
    _ ← wrapping "failed to set network config" (set_network_config resolved)
    return resolved
