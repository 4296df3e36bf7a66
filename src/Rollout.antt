-- ===== src/Rollout.antt =====
-- Whether deployments are available (`checkDeploymentAvailable` and `checkCAPIInstallation` of
-- internal/controllers/ociclusterautoscaler_controller.go, `GetDeploymentCondition` of
-- internal/utils/kubeapi.go).
use oci_openshift_autoscalin.Base.{
  String, ◌<>◌, Bool, true, Option, none, some, List, [], ◌∷◌, ◌==◌, not, if◌then◌else◌, err, Check,
  errorf, reject_if,
}
use oci_openshift_autoscalin.Exec.{return, lift, ◌>>=◌, ◌>>◌}
use oci_openshift_autoscalin.Namespaces.{NamespaceConfig}
use oci_openshift_autoscalin.Run.{Env, Call, Action, DeploymentCondition, ask}
use oci_openshift_autoscalin.Discovery.{wrapping}

unfoldable pub get_deployment_condition :
    List DeploymentCondition → String → Option DeploymentCondition
get_deployment_condition [] type = none
get_deployment_condition (c ∷ cs) type =
    let rest = get_deployment_condition cs type in if c.type == type then some c else rest

abbrev pub rollout_check : String → Option DeploymentCondition → Check
rollout_check deployment none = err (errorf (deployment <> " is not available"))
rollout_check deployment (some c) =
    reject_if (not (c.status == "True"))
      (errorf (deployment <> " is not available: " <> c.reason <> ": " <> c.message))

module _ (env : Env) where
  unfoldable pub check_deployment_available : String → String → Action (Unit {0})
  unfolding get_deployment_condition
  check_deployment_available namespace name = do
    let deployment = "deployment " <> namespace <> "/" <> name
    conditions ←
        wrapping (deployment <> " is not installed")
          (ask (Call.get_deployment namespace name) (λ log. env.get_deployment log namespace name))
    lift (rollout_check deployment (get_deployment_condition conditions "Available"))

  unfoldable pub check_capi_installation : NamespaceConfig → Action Bool
  check_capi_installation c = do
    check_deployment_available c.capi_provider "capi-manager"
    check_deployment_available c.capoci_provider "capoci-controller-manager"
    return true
