-- ===== src/Stack.antt =====
-- The stages of a live reconcile (`reconcileOCICapiStack` of
-- internal/controllers/ociclusterautoscaler_controller.go). The debug read of the machine template
-- at its end only logs and is left out.
pub mod Live
use oci_openshift_autoscalin.Base.{
  ℕ, ◌*◌, String, ◌<>◌, Bool, true, false, Option, none, some, List, [], ◌∷◌, if◌then◌else◌, Result,
  ok, err, Error, Check, is_not_found,
}
use oci_openshift_autoscalin.Exec.{return, fail, lift, catch, modify, ◌>>=◌, ◌>>◌}
use oci_openshift_autoscalin.Api.{
  Autoscaler, condition_true, condition_false, condition_unknown, condition_policy_accepted,
  condition_providers_ready, condition_autoscaler_ready, condition_scaling_resources_ready,
}
use oci_openshift_autoscalin.Components.{reconcile_components}
use oci_openshift_autoscalin.Discovery.{wrapping, cluster_name_for, set_autoscaling_config}
use oci_openshift_autoscalin.Handler.{
  Reconciler, change, current, add_failure, with_capi_installed, with_deployed, set_condition,
  ready_from_failed_stage, update_status, reporting,
}
use oci_openshift_autoscalin.Helm.{deployment_values, install_autoscaler}
use oci_openshift_autoscalin.Namespaces.{NamespaceConfig, with_defaults}
use oci_openshift_autoscalin.NodePool.{validate, validate_node_pool_name, node_pool_name}
use oci_openshift_autoscalin.Rollout.{check_deployment_available, check_capi_installation}
use oci_openshift_autoscalin.Run.{Call, Action, ask}
use oci_openshift_autoscalin.Status.{
  with_phase, phase_blocked, observe_generation, condition_is_true,
}

-- seconds
abbrev pub retry_interval : ℕ
retry_interval = 20

abbrev pub kubeconfig_secret_refresh_interval : ℕ
kubeconfig_secret_refresh_interval = 12 * 3600

-- A stage that may stop with a time to come back: `some seconds`.
abbrev pub stage_then : Action ℕ → Option ℕ → Action ℕ
stage_then rest none = rest
stage_then rest (some seconds) = return seconds

module _ (c : Reconciler) where
  unfoldable pub reject_policy : Error → Action (Unit {0})
  reject_policy e = do
    change (with_phase phase_blocked)
    change observe_generation
    set_condition c condition_policy_accepted condition_false "PolicyRejected"
        ("Autoscaler policy rejected: " <> e.message)
    _ ← ready_from_failed_stage c
    u ← catch (update_status c)
    fail (add_failure e "failed to update status after policy validation failure" u)

  abbrev pub judge_policy : Check → Action (Unit {0})
  judge_policy (err e) = reject_policy e
  judge_policy (ok _) =
      set_condition c condition_policy_accepted condition_true "PolicyAccepted"
        "Autoscaler policy accepted"

  unfoldable pub accept_policy : Action (Unit {0})
  unfolding reject_policy
  accept_policy = do a ← current; judge_policy (validate c.kube a c.config)

  -- step 1
  unfoldable pub reconcile_prerequisites : Action (Unit {0})
  reconcile_prerequisites = do
    a ← current
    reporting c condition_providers_ready "ProviderPrerequisitesFailed"
        "Failed to reconcile CAPI provider prerequisites" (return tt)
        (reconcile_components c.env (c.parts.capi_components a))
    b ← current
    (if condition_is_true c.kube b condition_providers_ready
        then return tt
        else set_condition c condition_providers_ready condition_unknown
            "ProviderPrerequisitesReady"
            "Provider prerequisites reconciled; checking provider controller rollout")

  abbrev pub configured : Check → Action (Option ℕ)
  configured (ok _) = return none
  configured (err e) = do
    set_condition c condition_providers_ready condition_false "ProviderPrerequisitesFailed"
        ("Failed to reconcile CAPOCI provider configuration: " <> e.message)
    return (some retry_interval)

  -- step 2: an error comes back as a time to retry
  unfoldable pub reconcile_configuration : Action (Option ℕ)
  reconcile_configuration = do
    a ← current
    r ← catch (reconcile_components c.env (c.parts.capoci_components a))
    configured r

  unfoldable pub settle_rollout : Bool → Action (Option ℕ)
  settle_rollout installed = do
    change (with_capi_installed installed)
    (if installed
        then (do
          set_condition c condition_providers_ready condition_true "ProvidersReady"
              "CAPI and CAPOCI provider controller managers are available"
          return none)
        else (do
          set_condition c condition_providers_ready condition_unknown "ProviderRolloutPending"
              "Provider controller managers are not installed yet"
          return (some retry_interval)))

  unfoldable pub pend_rollout : Error → Action (Option ℕ)
  pend_rollout e = do
    change (with_capi_installed false)
    set_condition c condition_providers_ready condition_unknown "ProviderRolloutPending"
        ("Provider controller managers are not ready: " <> e.message)
    return (some retry_interval)

  abbrev pub judge_rollout : Result Bool → Action (Option ℕ)
  judge_rollout (ok installed) = settle_rollout installed
  judge_rollout (err e) = if is_not_found e then settle_rollout false else pend_rollout e

  -- step 3
  unfoldable pub check_rollout : Action (Option ℕ)
  unfolding settle_rollout pend_rollout
  check_rollout = do
    r ← catch (check_capi_installation c.env (with_defaults c.namespaces))
    judge_rollout r

  abbrev pub judge_deployment : String → Check → Action (Option ℕ)
  judge_deployment deployment (ok _) = do
    change (with_deployed true)
    set_condition c condition_autoscaler_ready condition_true "AutoscalerReady"
        (deployment <> " is available")
    return none
  judge_deployment deployment (err e) = do
    change (with_deployed false)
    set_condition c condition_autoscaler_ready condition_false "AutoscalerDeploymentUnavailable"
        (deployment <> " is not available: " <> e.message)
    return (some retry_interval)

  -- step 4
  unfoldable pub deploy_autoscaler : Action (Option ℕ)
  deploy_autoscaler = do
    a ← current
    let v = deployment_values (with_defaults c.namespaces) a
    reporting c condition_autoscaler_ready "AutoscalerRBACFailed"
        "Failed to reconcile autoscaler RBAC components" (change (with_deployed false))
        (reconcile_components c.env (c.parts.rbac_components v a))
    reporting c condition_autoscaler_ready "AutoscalerInstallFailed"
        "Failed to install or upgrade autoscaler Helm chart" (change (with_deployed false))
        (install_autoscaler c.env v)
    r ← catch (check_deployment_available c.env v.namespace v.name)
    judge_deployment ("cluster-autoscaler deployment " <> v.namespace <> "/" <> v.name) r

  abbrev pub mark_after : String → String → Check → Action (Unit {0})
  mark_after namespace name (ok _) = return tt
  mark_after namespace name (err e) =
      if is_not_found e
      then ask (Call.mark_control_plane namespace name "cluster.x-k8s.io/v1beta1")
          (λ log. c.env.mark_control_plane log namespace name "cluster.x-k8s.io/v1beta1")
      else fail e

  -- `markExistingClusterControlPlaneInitialized`: the older version after NotFound
  unfoldable pub mark_control_plane : String → String → Action (Unit {0})
  mark_control_plane namespace name = do
    r ← catch (
        ask (Call.mark_control_plane namespace name "cluster.x-k8s.io/v1beta2")
          (λ log. c.env.mark_control_plane log namespace name "cluster.x-k8s.io/v1beta2"))
    mark_after namespace name r

  -- step 5
  unfoldable pub enable_autoscaling : Action ℕ
  enable_autoscaling = do
    a ← current
    name ←
        reporting c condition_scaling_resources_ready "ClusterDiscoveryFailed"
          "Failed to discover OpenShift cluster name for managed scaling resources" (return tt)
          (cluster_name_for c.env a)
    wrapping "invalid generated autoscaler node pool name" (
        reporting c condition_scaling_resources_ready "ScalingConfigFailed"
          ("Invalid generated autoscaler node pool name for cluster " <> c.kube.quote name)
          (return tt) (lift (validate_node_pool_name c.kube (node_pool_name name a))))
    config ←
        reporting c condition_scaling_resources_ready "ScalingConfigFailed"
          "Failed to resolve autoscaling configuration" (return tt)
          (set_autoscaling_config c.env c.matches a c.config)
    reporting c condition_scaling_resources_ready "ScalingResourcesFailed"
        "Failed to reconcile managed scaling resources" (return tt)
        (reconcile_components c.env (c.parts.scaling_components name a config))
    reporting c condition_scaling_resources_ready "ScalingResourcesFailed"
        ("Failed to mark CAPI Cluster " <> c.kube.quote name <> " initialized") (return tt)
        (mark_control_plane (with_defaults c.namespaces).managed_resource name)
    set_condition c condition_scaling_resources_ready condition_true "ScalingResourcesReady"
        ("Managed scaling resources for cluster " <> c.kube.quote name <> " are reconciled")
    return kubeconfig_secret_refresh_interval

  -- the time to come back
  unfoldable pub reconcile_stack : Action ℕ
  reconcile_stack = do
    accept_policy
    reconcile_prerequisites
    configuration ← reconcile_configuration
    let deployed : Action ℕ = do d ← deploy_autoscaler; stage_then enable_autoscaling d
    let rolled_out : Action ℕ = do o ← check_rollout; stage_then deployed o
    stage_then rolled_out configuration
