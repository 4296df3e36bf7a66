-- ===== src/Reconcile/Updates.antt =====
-- Calls that write the resource itself, and the parts of a deletion that make none.
use oci_openshift_autoscalin.Base.{
  String, Bool, true, false, List, [], ◌∷◌, ok, err, Error, Check, refl,
}
use oci_openshift_autoscalin.Api.{Autoscaler}
use oci_openshift_autoscalin.Components.{remove_each, remove_component, go_on}
use oci_openshift_autoscalin.Discovery.{wrapping, get_cluster_name, cluster_name_for}
use oci_openshift_autoscalin.Exec.Preserves.{
  Preserves, return-Preserves, fail-Preserves, lift-Preserves, catch-Preserves, bind-Preserves,
  if-Preserves, preserves_rules,
}
use oci_openshift_autoscalin.Handler.{Reconciler}
use oci_openshift_autoscalin.Handler.Quiet.{
  SparesStatus, change-Only, current-Only, set_condition-Only, update_status-Only, reporting-Only,
}
use oci_openshift_autoscalin.Helm.{DeploymentValues, remove_autoscaler}
use oci_openshift_autoscalin.Helm.Calls.{remove-Only}
use oci_openshift_autoscalin.Objects.{Component, Subcomponent}
use oci_openshift_autoscalin.Reconcile.{
  cleanup, after_scaling, report_cleanup, after_cleanup, start_cleanup, clean_up,
}
use oci_openshift_autoscalin.Run.{Env, Call, Log, Action}
use oci_openshift_autoscalin.Run.Calls.{Only, ask-Only}
use oci_openshift_autoscalin.Singleton.{
  resolve_singleton_owner, singleton_owner, is_singleton_owner,
}

-- the calls that write a resource itself, and with it the finalizers
abbrev pub updates : Call → Bool
updates c = elim c [ Call.update a ↦ true | _ ↦ false ]

updates-SparesStatus : SparesStatus updates
updates-SparesStatus = record { event = λ t reason message. refl; status = λ a. refl }

abbrev pub UpdatesNothing : {A : Type 0} → Log → Action A → Type 0
UpdatesNothing before m = Preserves (Only updates before) m

ruleset steps = (
  preserves_rules, change-Only, current-Only, set_condition-Only, update_status-Only,
  reporting-Only, updates-SparesStatus,
)

module _ (before : Log) where
  wrapping-Only :
      {A : Type 0} (text : String) (m : Action A)
      → UpdatesNothing before m
      → UpdatesNothing before (wrapping text m)
  wrapping-Only text m keep = bind-Preserves _ _ (catch-Preserves m keep) (λ r. lift-Preserves _)

  module _ (env : Env) where
    get_cluster_name-Only : UpdatesNothing before (get_cluster_name env)
    unfolding get_cluster_name
    get_cluster_name-Only = wrapping-Only _ _ (
        bind-Preserves _ _ (wrapping-Only _ _ (ask-Only updates before _ _ refl))
          (λ names. lift-Preserves _))

    cluster_name_for-Only : (a : Autoscaler) → UpdatesNothing before (cluster_name_for env a)
    unfolding cluster_name_for
    cluster_name_for-Only a = search (if-Preserves, get_cluster_name-Only, return-Preserves)

    pub is_singleton_owner-Only :
        (a : Autoscaler) → UpdatesNothing before (is_singleton_owner env a)
    unfolding is_singleton_owner singleton_owner resolve_singleton_owner
    is_singleton_owner-Only a =
        bind-Preserves _ _
          (bind-Preserves _ _
            (bind-Preserves _ _ (ask-Only updates before _ _ refl) (λ items. return-Preserves _))
            (λ owner. return-Preserves _))
          (λ owner. return-Preserves _)

    go_on-Only :
        (r : Check) (rest : Action (Unit {0}))
        → UpdatesNothing before rest
        → UpdatesNothing before (go_on r rest)
    go_on-Only (ok _) rest keep = keep
    go_on-Only (err e) rest keep = if-Preserves _ _ _ keep (fail-Preserves e)

    remove_each-Only :
        (subcomponents : List Subcomponent) → UpdatesNothing before (remove_each env subcomponents)
    unfolding remove_each
    remove_each-Only [] = return-Preserves tt
    remove_each-Only (s ∷ rest) = if-Preserves _ _ _ (remove_each-Only rest) (
        bind-Preserves _ _ (catch-Preserves _ (ask-Only updates before _ _ refl))
          (λ r. go_on-Only r _ (remove_each-Only rest)))

    remove_component-Only : (c : Component) → UpdatesNothing before (remove_component env c)
    unfolding remove_component
    remove_component-Only c = remove_each-Only c.subcomponents

    remove_autoscaler-Only :
        (v : DeploymentValues) → UpdatesNothing before (remove_autoscaler env v)
    remove_autoscaler-Only =
        remove-Only updates before env
          (record {
            client = λ s. refl;
            get_chart = λ s. refl;
            add_repo = λ s t. refl;
            get_release = λ s. refl;
            get_values = λ s. refl;
            upgrade = λ s. refl;
            install = λ s. refl;
          })
          (λ s. refl)

  module _ (c : Reconciler) where
    start_cleanup-Only : UpdatesNothing before (start_cleanup c)
    unfolding start_cleanup
    start_cleanup-Only = search steps depth 20

    report_cleanup-Only : (e : Error) → UpdatesNothing before (report_cleanup c e)
    unfolding report_cleanup
    report_cleanup-Only e = search steps depth 20

    after_cleanup-Only : (r : Check) → UpdatesNothing before (after_cleanup c r)
    after_cleanup-Only (ok _) = search steps depth 20
    after_cleanup-Only (err e) = report_cleanup-Only e

    after_scaling-Only : (r : Check) → UpdatesNothing before (after_scaling c r)
    after_scaling-Only (ok _) = search steps
    after_scaling-Only (err e) = search steps depth 20

    cleanup-Only : UpdatesNothing before (cleanup c)
    unfolding cleanup
    cleanup-Only =
        search
          (
            steps, remove_autoscaler-Only, cluster_name_for-Only, remove_component-Only,
            after_scaling-Only,
          )
          depth 20

    pub clean_up-Only : UpdatesNothing before (clean_up c)
    unfolding clean_up
    clean_up-Only = search (steps, start_cleanup-Only, cleanup-Only, after_cleanup-Only) depth 20
