-- ===== src/Tests/Reconcile.antt =====
-- Example runs of the reconciler.
use oci_openshift_autoscalin.Base.{
  true, false, some, none, [], ◌∷◌, ◌≡◌, ◌⊎◌, refl, ok, Error, errorf, wrap,
}
use oci_openshift_autoscalin.Exec.{return, fail, modify, catch, ◌>>=◌}
use oci_openshift_autoscalin.Handler.{
  Parts, Reconciler, ready_from_failed_stage, update_status, current,
}
use oci_openshift_autoscalin.Handler.Removes.{removes}
use oci_openshift_autoscalin.Reconcile.{finalize, reconcile_live, reconcile_owned}
use oci_openshift_autoscalin.Reconcile.Errors.{WritesNotReady, reconcile_owned-WritesNotReady}
use oci_openshift_autoscalin.Base.Int.{pos}
use oci_openshift_autoscalin.NodePool.{validate}
use oci_openshift_autoscalin.Config.{validate_min_max_nodes}
use oci_openshift_autoscalin.Stack.{reconcile_stack, accept_policy, reject_policy}
use oci_openshift_autoscalin.Status.{
  set_condition_and_record, set_ready_condition_from_failed_stage,
}
use oci_openshift_autoscalin.Reconcile.Conflict.{removes-reconcile_live, removes-finalize_denied}
use oci_openshift_autoscalin.Reconcile.Finalizer.{CleanupSucceeds, updates-finalize}
use oci_openshift_autoscalin.Reconcile.Updates.{updates}
use oci_openshift_autoscalin.Run.{Run, ask}
use oci_openshift_autoscalin.Run.Calls.{calls}
use oci_openshift_autoscalin.Singleton.{
  resolve_singleton_owner, singleton_owner, is_singleton_owner, select_singleton_owner, candidates,
  sort_candidates, insert_sorted, older,
}
use oci_openshift_autoscalin.Tests.Fixtures.{
  kube, kube-IsLawful, env_listing, older_resource, resource, component, config, run_of,
}

abbrev parts : Parts
parts = record {
  capi_components = λ a. component;
  capoci_components = λ a. component;
  rbac_components = λ v a. component;
  scaling_components = λ name a c. component;
}

abbrev deleted : Run
deleted = run_of (resource "second" 20 (some 30))

-- two resources, of which the second is being deleted
abbrev reconciler : Reconciler
reconciler = record {
  kube = kube;
  env = env_listing (older_resource ∷ resource "second" 20 (some 30) ∷ []);
  parts = parts;
  recorder = true;
  config = config;
  namespaces = record {
    operator = "";
    capi_provider = "";
    capoci_provider = "";
    managed_resource = "";
    autoscaler = "";
    autoscaler_discovery = "";
  };
  matches = λ s. true;
}

finalize_example :
    (calls updates (finalize reconciler deleted).1.log ≡ calls updates [])
    ⊎ (((is_singleton_owner reconciler.env deleted.instance deleted).0 ≡ ok false)
        ⊎ CleanupSucceeds reconciler (is_singleton_owner reconciler.env deleted.instance deleted).1)
finalize_example = updates-finalize reconciler deleted

denied_example : calls removes (finalize reconciler deleted).1.log ≡ calls removes []
unfolding is_singleton_owner singleton_owner resolve_singleton_owner ask return
    select_singleton_owner candidates sort_candidates insert_sorted older ◌>>=◌
denied_example = removes-finalize_denied reconciler deleted refl

live_example :
    calls removes (reconcile_live reconciler (run_of older_resource)).1.log ≡ calls removes []
live_example = removes-reconcile_live reconciler (run_of older_resource)

abbrev blocked : Run
blocked = run_of (resource "second" 20 none)

-- more nodes at least than at most
abbrev impossible : Run
impossible = run_of (record older_resource {
  spec = record (older_resource.spec) {
    autoscaling = record (older_resource.spec.autoscaling) { min_nodes = some (pos 5) };
  };
})

abbrev rejected : Error
rejected =
    wrap "invalid Min/Max nodes set in either the autoscaler spec or the config"
      (errorf "min nodes must be less than max nodes")

failed_example :
    WritesNotReady reconciler kube-IsLawful
      (reconcile_stack reconciler impossible).1.log
      (reconcile_owned reconciler impossible).1.log
unfolding reconcile_stack accept_policy reject_policy ready_from_failed_stage update_status current
    validate validate_min_max_nodes ask return fail modify catch set_condition_and_record
    set_ready_condition_from_failed_stage ◌>>=◌
failed_example = reconcile_owned-WritesNotReady reconciler kube-IsLawful impossible rejected refl
