-- ===== src/Reconcile.antt =====
-- One reconcile of a custom resource (`Reconcile` and `cleanup` of
-- internal/controllers/ociclusterautoscaler_controller.go).
pub mod Updates
pub mod Finalizer
pub mod Conflict
pub mod Errors
use oci_openshift_autoscalin.Base.{
  ℕ, String, ◌<>◌, Bool, true, false, not, Option, none, some, if◌then◌else◌, Result, ok, err,
  Error, Check, is_not_found, is_no_match,
}
use oci_openshift_autoscalin.Base.Text.{is_nil}
use oci_openshift_autoscalin.Exec.{return, fail, catch, modify, ◌>>=◌, ◌>>◌}
use oci_openshift_autoscalin.Api.{
  Autoscaler, NamespacedName, condition_true, condition_false, condition_unknown, condition_ready,
  condition_policy_accepted, condition_cleanup_succeeded,
}
use oci_openshift_autoscalin.Components.{remove_component}
use oci_openshift_autoscalin.Discovery.{cluster_name_for}
use oci_openshift_autoscalin.Handler.{
  Reconciler, change, current, set_instance, add_failure, set_condition, ready_from_failed_stage,
  update_status, update, reporting,
}
use oci_openshift_autoscalin.Helm.{deployment_values, remove_autoscaler}
use oci_openshift_autoscalin.Namespaces.{with_defaults}
use oci_openshift_autoscalin.Run.{Call, Action, ask}
use oci_openshift_autoscalin.Singleton.{singleton_conflict, is_singleton_owner, is_deleting}
use oci_openshift_autoscalin.Stack.{reconcile_stack}
use oci_openshift_autoscalin.Status.{
  with_phase, phase_initializing, phase_blocked, phase_error, phase_cleaning_up, observe_generation,
  set_aggregate_ready_condition,
}

abbrev pub finalizer_name : String
finalizer_name = "ociclusterautoscaler.capi.openshift.io/finalizer"

-- a minute, in seconds
abbrev pub conflict_interval : ℕ
conflict_interval = 60

module _ (c : Reconciler) where
  abbrev pub after_scaling : Check → Action (Unit {0})
  after_scaling (ok _) = return tt
  after_scaling (err e) = if is_no_match e then return tt else (do
    set_condition c condition_cleanup_succeeded condition_false "CleanupFailed"
        ("Failed to remove managed scaling resources: " <> e.message)
    fail e)

  unfoldable pub cleanup : Action (Unit {0})
  cleanup = do
    a ← current
    let v = deployment_values (with_defaults c.namespaces) a
    name ← cluster_name_for c.env a
    r ← catch (remove_component c.env (c.parts.scaling_components name a c.config))
    after_scaling r
    reporting c condition_cleanup_succeeded "CleanupFailed"
        "Failed to remove autoscaler Helm release" (return tt) (remove_autoscaler c.env v)
    reporting c condition_cleanup_succeeded "CleanupFailed"
        "Failed to remove autoscaler RBAC components" (return tt)
        (remove_component c.env (c.parts.rbac_components v a))

  unfoldable pub report_cleanup : Error → Action (Unit {0})
  report_cleanup e = do
    change (with_phase phase_error)
    change observe_generation
    let message = "Cleanup failed: " <> e.message
    set_condition c condition_cleanup_succeeded condition_false "CleanupFailed" message
    set_condition c condition_ready condition_false "CleanupFailed" message
    u ← catch (update_status c)
    fail (add_failure e "failed to update status after cleanup error" u)

  abbrev pub after_cleanup : Check → Action (Unit {0})
  after_cleanup (err e) = report_cleanup e
  after_cleanup (ok _) = do
    change observe_generation
    set_condition c condition_cleanup_succeeded condition_true "CleanupSucceeded"
        "Managed autoscaler resources were deleted"
    update_status c

  -- the announcement before the cleanup
  unfoldable pub start_cleanup : Action (Unit {0})
  start_cleanup = do
    change (with_phase phase_cleaning_up)
    change observe_generation
    set_condition c condition_cleanup_succeeded condition_unknown "CleanupStarted"
        "Deleting managed autoscaler resources"
    update_status c

  unfoldable pub clean_up : Action (Unit {0})
  unfolding start_cleanup report_cleanup
  clean_up = do start_cleanup; r ← catch cleanup; after_cleanup r

  unfoldable pub skip_cleanup : Action (Unit {0})
  skip_cleanup = do
    change observe_generation
    set_condition c condition_cleanup_succeeded condition_true "CleanupSkipped"
        "Cleanup skipped because this resource is not the active singleton owner"
    update_status c

  unfoldable pub remove_finalizer : Action (Unit {0})
  remove_finalizer = do
    change (λ a. record a {
      metadata = record (a.metadata) {
        finalizers = c.kube.remove_finalizer a.metadata.finalizers finalizer_name;
      };
    })
    update c

  unfoldable pub give_up : Bool → Action (Option ℕ)
  unfolding clean_up skip_cleanup remove_finalizer
  give_up owns = do (if owns then clean_up else skip_cleanup); remove_finalizer; return none

  abbrev pub when_held : Bool → Autoscaler → Action (Option ℕ)
  when_held false a = return none
  when_held true a = is_singleton_owner c.env a >>= give_up

  -- the branch of a resource that is being deleted
  unfoldable pub finalize : Action (Option ℕ)
  unfolding give_up
  finalize = do
    a ← current
    when_held (c.kube.contains_finalizer a.metadata.finalizers finalizer_name) a

  unfoldable pub block : NamespacedName → Action (Option ℕ)
  block owner = do
    let message =
        "OCIClusterAutoscaler is singleton; active owner is " <> owner.namespace <> "/"
        <> owner.name
    change (with_phase phase_blocked)
    change observe_generation
    set_condition c condition_policy_accepted condition_false "SingletonConflict" message
    set_condition c condition_ready condition_false "SingletonConflict" message
    update_status c
    return (some conflict_interval)

  unfoldable pub add_finalizer : Action (Option ℕ)
  add_finalizer = do
    change (λ a. record a {
      metadata = record (a.metadata) {
        finalizers = c.kube.add_finalizer a.metadata.finalizers finalizer_name;
      };
    })
    update c
    return none

  abbrev pub report_unless : Error → Bool → Action (Unit {0})
  report_unless e true = return tt
  report_unless e false = do
    change (with_phase phase_error)
    set_condition c condition_ready condition_false "ReconcileError" e.message

  abbrev pub after_stack : Autoscaler → Result ℕ → Action (Option ℕ)
  after_stack original (err e) = do
    reported ← ready_from_failed_stage c
    report_unless e reported
    change observe_generation
    u ← catch (update_status c)
    fail (add_failure e "failed to update status after reconcile error" u)
  after_stack original (ok seconds) = do
    modify (set_aggregate_ready_condition c.kube c.recorder)
    a ← current
    (if not (c.kube.deep_equal original.status a.status) then update_status c else return tt)
    return (some seconds)

  unfoldable pub reconcile_owned : Action (Option ℕ)
  reconcile_owned = do original ← current; r ← catch (reconcile_stack c); after_stack original r

  abbrev pub live_or_blocked : Autoscaler → Option NamespacedName → Action (Option ℕ)
  live_or_blocked a (some owner) = block owner
  live_or_blocked a none =
      if not (c.kube.contains_finalizer a.metadata.finalizers finalizer_name)
      then add_finalizer
      else reconcile_owned

  -- the branch of a resource that is not being deleted
  unfoldable pub reconcile_live : Action (Option ℕ)
  unfolding block add_finalizer reconcile_owned
  reconcile_live = do a ← current; conflict ← singleton_conflict c.env a; live_or_blocked a conflict

  unfoldable pub initialize : Action (Unit {0})
  initialize = do
    a ← current
    (if is_nil a.status.phase
        then (do
          change (with_phase phase_initializing)
          set_condition c condition_ready condition_unknown "Initializing"
              "OCIClusterAutoscaler reconciliation has started"
          update_status c)
        else return tt)

  abbrev after_get : Result Autoscaler → Action (Option ℕ)
  after_get (err e) = if is_not_found e then return none else fail e
  after_get (ok a) = do
    modify (set_instance a)
    initialize
    b ← current
    (if is_deleting b then finalize else reconcile_live)

  -- `none`: nothing is scheduled
  unfoldable pub reconcile : NamespacedName → Action (Option ℕ)
  unfolding initialize finalize reconcile_live
  reconcile request = do
    r ← catch (ask (Call.get_instance request) (λ log. c.env.get_instance log request))
    after_get r
