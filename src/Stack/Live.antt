-- ===== src/Stack/Live.antt =====
-- Which of the stages remove an object or a Helm release.
use oci_openshift_autoscalin.Base.{
  ℕ, String, Bool, Option, none, some, Result, ok, err, Error, Check, refl,
}
use oci_openshift_autoscalin.Exec.Preserves.{
  return-Preserves, fail-Preserves, catch-Preserves, bind-Preserves, if-Preserves, preserves_rules,
}
use oci_openshift_autoscalin.Handler.{Reconciler}
use oci_openshift_autoscalin.Handler.Quiet.{
  change-Only, current-Only, set_condition-Only, ready_from_failed_stage-Only, update_status-Only,
  reporting-Only,
}
use oci_openshift_autoscalin.Handler.Removes.{
  removes, removes-SparesStatus, RemovesNothing, wrapping-Only, install_autoscaler-Only,
  reconcile_components-Only, cluster_name_for-Only, set_autoscaling_config-Only,
  check_deployment_available-Only, check_capi_installation-Only,
}
use oci_openshift_autoscalin.Run.{Log, Action}
use oci_openshift_autoscalin.Run.Calls.{ask-Only}
use oci_openshift_autoscalin.Stack.{
  reject_policy, judge_policy, accept_policy, reconcile_prerequisites, configured,
  reconcile_configuration, settle_rollout, pend_rollout, judge_rollout, check_rollout,
  judge_deployment, deploy_autoscaler, mark_after, mark_control_plane, enable_autoscaling,
  stage_then, reconcile_stack,
}

ruleset steps = (
  preserves_rules, change-Only, current-Only, set_condition-Only, ready_from_failed_stage-Only,
  update_status-Only, reporting-Only, removes-SparesStatus,
)

module _ (c : Reconciler) (before : Log) where
  reject_policy-Only : (e : Error) → RemovesNothing before (reject_policy c e)
  unfolding reject_policy
  reject_policy-Only e = search steps depth 20

  judge_policy-Only : (r : Check) → RemovesNothing before (judge_policy c r)
  judge_policy-Only (ok _) = search steps
  judge_policy-Only (err e) = reject_policy-Only e

  accept_policy-Only : RemovesNothing before (accept_policy c)
  unfolding accept_policy
  accept_policy-Only = search (steps, judge_policy-Only) depth 20

  reconcile_prerequisites-Only : RemovesNothing before (reconcile_prerequisites c)
  unfolding reconcile_prerequisites
  reconcile_prerequisites-Only = search (steps, reconcile_components-Only) depth 20

  configured-Only : (r : Check) → RemovesNothing before (configured c r)
  configured-Only (ok _) = search steps
  configured-Only (err e) = search steps

  reconcile_configuration-Only : RemovesNothing before (reconcile_configuration c)
  unfolding reconcile_configuration
  reconcile_configuration-Only = search (steps, reconcile_components-Only, configured-Only) depth 20

  settle_rollout-Only : (installed : Bool) → RemovesNothing before (settle_rollout c installed)
  unfolding settle_rollout
  settle_rollout-Only installed = search steps depth 20

  pend_rollout-Only : (e : Error) → RemovesNothing before (pend_rollout c e)
  unfolding pend_rollout
  pend_rollout-Only e = search steps depth 20

  judge_rollout-Only : (r : Result Bool) → RemovesNothing before (judge_rollout c r)
  judge_rollout-Only (ok installed) = settle_rollout-Only installed
  judge_rollout-Only (err e) = search (steps, settle_rollout-Only, pend_rollout-Only)

  check_rollout-Only : RemovesNothing before (check_rollout c)
  unfolding check_rollout
  check_rollout-Only = search (steps, check_capi_installation-Only, judge_rollout-Only) depth 20

  judge_deployment-Only :
      (deployment : String) (r : Check) → RemovesNothing before (judge_deployment c deployment r)
  judge_deployment-Only deployment (ok _) = search steps
  judge_deployment-Only deployment (err e) = search steps

  mark_after-Only :
      (namespace name : String) (r : Check) → RemovesNothing before (mark_after c namespace name r)
  mark_after-Only namespace name (ok _) = search steps
  mark_after-Only namespace name (err e) =
      if-Preserves _ _ _ (ask-Only removes before _ _ refl) (fail-Preserves e)

  mark_control_plane-Only :
      (namespace name : String) → RemovesNothing before (mark_control_plane c namespace name)
  unfolding mark_control_plane
  mark_control_plane-Only namespace name =
      bind-Preserves _ _ (catch-Preserves _ (ask-Only removes before _ _ refl))
        (mark_after-Only namespace name)

  enable_autoscaling-Only : RemovesNothing before (enable_autoscaling c)
  unfolding enable_autoscaling
  enable_autoscaling-Only =
      search
        (
          steps, wrapping-Only, cluster_name_for-Only, set_autoscaling_config-Only,
          reconcile_components-Only, mark_control_plane-Only,
        )
        depth 30

  stage_then-Only :
      (rest : Action ℕ) (o : Option ℕ)
      → RemovesNothing before rest
      → RemovesNothing before (stage_then rest o)
  stage_then-Only rest none keep = keep
  stage_then-Only rest (some seconds) keep = return-Preserves seconds

  deploy_autoscaler-Only : RemovesNothing before (deploy_autoscaler c)
  unfolding deploy_autoscaler
  deploy_autoscaler-Only =
      search
        (
          steps, install_autoscaler-Only, reconcile_components-Only,
          check_deployment_available-Only, judge_deployment-Only,
        )
        depth 30

  pub reconcile_stack-Only : RemovesNothing before (reconcile_stack c)
  unfolding reconcile_stack
  reconcile_stack-Only =
      search
        (
          steps, accept_policy-Only, reconcile_prerequisites-Only, reconcile_configuration-Only,
          check_rollout-Only, deploy_autoscaler-Only, enable_autoscaling-Only, stage_then-Only,
        )
        depth 20
