-- ===== src/Handler.antt =====
-- What the steps of the reconciler share: its settings, the parts it calls, and the ways in which
-- it changes the status (internal/controllers/ociclusterautoscaler_controller.go).
pub mod Quiet
pub mod Removes
use oci_openshift_autoscalin.Base.{
  String, ◌<>◌, Bool, true, false, Option, List, Result, ok, err, Error, Check, wrap, join,
}
use oci_openshift_autoscalin.Exec.{return, fail, catch, modify, ◌>>=◌, ◌>>◌}
use oci_openshift_autoscalin.Api.{Autoscaler, Status, ConditionStatus, condition_false}
use oci_openshift_autoscalin.Config.{Config}
use oci_openshift_autoscalin.Helm.{DeploymentValues}
use oci_openshift_autoscalin.Kube.{Kube}
use oci_openshift_autoscalin.Namespaces.{NamespaceConfig}
use oci_openshift_autoscalin.Objects.{Component}
use oci_openshift_autoscalin.Run.{Run, Env, Call, Action, ask}
use oci_openshift_autoscalin.Status.{
  set_condition_and_record, set_ready_condition_from_failed_stage,
}

-- The interface of the reconciler to the packages that build its components
-- (`GetComponents` of internal/components/capi, capoci, autoscaler and enable_autoscaler).
pub record Parts : Type 0 where
  pub capi_components : Autoscaler → Component
  pub capoci_components : Autoscaler → Component
  pub rbac_components : DeploymentValues → Autoscaler → Component
  pub scaling_components : String → Autoscaler → Config → Component

-- `OCIClusterAutoscalerReconciler`: the libraries and the cluster it calls, and its settings.
pub record Reconciler : Type 0 where
  pub kube : Kube
  pub env : Env
  pub parts : Parts
  -- whether there is an EventRecorder
  pub recorder : Bool
  pub config : Config
  pub namespaces : NamespaceConfig
  -- the regular expression of a defined-tags namespace
  pub matches : String → Bool

abbrev pub set_instance : Autoscaler → Run → Run
set_instance a r = record r { instance = a }

abbrev pub change : (Autoscaler → Autoscaler) → Action (Unit {0})
change f = modify (λ r. set_instance (f r.instance) r)

-- the `instance` in memory
unfoldable pub current : Action Autoscaler
current r = (ok r.instance, r)

abbrev pub add_failure : Error → String → Check → Error
add_failure e text (ok _) = e
add_failure e text (err u) = join e (wrap text u)

abbrev pub with_capi_installed : Bool → Autoscaler → Autoscaler
with_capi_installed b a = record a { status = record (a.status) { capi_installed = b } }

abbrev pub with_deployed : Bool → Autoscaler → Autoscaler
with_deployed b a = record a { status = record (a.status) { cluster_autoscaler_deployed = b } }

module _ (c : Reconciler) where
  -- `r.setConditionAndRecord`
  abbrev pub set_condition : String → ConditionStatus → String → String → Action (Unit {0})
  set_condition type status reason message =
      modify (set_condition_and_record c.kube c.recorder type status reason message)

  -- `r.setReadyConditionFromFailedStage`
  unfoldable pub ready_from_failed_stage : Action Bool
  ready_from_failed_stage r =
      let (s, reported) = set_ready_condition_from_failed_stage c.kube c.recorder r in
      (ok reported, s)

  -- `r.Status().Update`, which overwrites the instance with the answer
  unfoldable pub update_status : Action (Unit {0})
  update_status = do
    a ← current
    b ← ask (Call.update_status a) (λ log. c.env.update_status log a)
    modify (set_instance b)

  -- `r.Update`
  unfoldable pub update : Action (Unit {0})
  update = do
    a ← current
    b ← ask (Call.update a) (λ log. c.env.update log a)
    modify (set_instance b)

  -- `if err := …; err != nil`: `before`, the condition is false with the text and the error in its
  -- message, and the error is returned
  abbrev pub report :
      {A : Type 0} → String → String → String → Action (Unit {0}) → Result A → Action A
  report type reason text before (ok a) = return a
  report type reason text before (err e) =
      before >> set_condition type condition_false reason (text <> ": " <> e.message) >> fail e

  unfoldable pub reporting :
      {A : Type 0} → String → String → String → Action (Unit {0}) → Action A → Action A
  reporting type reason text before m = catch m >>= report type reason text before
