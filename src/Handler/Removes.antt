-- ===== src/Handler/Removes.antt =====
-- Calls that remove an object or a Helm release, and the parts of the reconciler that make none.
use oci_openshift_autoscalin.Base.{String, Bool, true, false, List, [], ◌∷◌, refl}
use oci_openshift_autoscalin.Api.{Autoscaler}
use oci_openshift_autoscalin.Components.{reconcile_each, reconcile_components}
use oci_openshift_autoscalin.Config.{Config}
use oci_openshift_autoscalin.Discovery.{
  wrapping, get_cluster_name, cluster_name_for, get_cluster_network_cidr_block,
  get_service_network_cidr_block, set_network_config, set_autoscaling_config,
}
use oci_openshift_autoscalin.Exec.Preserves.{
  Preserves, return-Preserves, lift-Preserves, catch-Preserves, bind-Preserves, if-Preserves,
  preserves_rules,
}
use oci_openshift_autoscalin.Handler.Quiet.{SparesStatus}
use oci_openshift_autoscalin.Helm.{DeploymentValues, install_autoscaler}
use oci_openshift_autoscalin.Helm.Calls.{install-Only}
use oci_openshift_autoscalin.Namespaces.{NamespaceConfig}
use oci_openshift_autoscalin.Objects.{Component, Subcomponent}
use oci_openshift_autoscalin.Rollout.{check_deployment_available, check_capi_installation}
use oci_openshift_autoscalin.Run.{Env, Call, Log, Action}
use oci_openshift_autoscalin.Run.Calls.{Only, ask-Only}

-- the calls that remove something
abbrev pub removes : Call → Bool
removes c = elim c [ Call.delete o ↦ true | Call.helm_uninstall name ↦ true | _ ↦ false ]

pub removes-SparesStatus : SparesStatus removes
removes-SparesStatus = record { event = λ t reason message. refl; status = λ a. refl }

abbrev pub RemovesNothing : {A : Type 0} → Log → Action A → Type 0
RemovesNothing before m = Preserves (Only removes before) m

module _ (before : Log) where
  pub wrapping-Only :
      {A : Type 0} (text : String) (m : Action A)
      → RemovesNothing before m
      → RemovesNothing before (wrapping text m)
  wrapping-Only text m keep = bind-Preserves _ _ (catch-Preserves m keep) (λ r. lift-Preserves _)

  module _ (env : Env) where
    reconcile_each-Only :
        (c : Component) (subcomponents : List Subcomponent)
        → RemovesNothing before (reconcile_each env c subcomponents)
    unfolding reconcile_each
    reconcile_each-Only c [] = return-Preserves []
    reconcile_each-Only c (s ∷ rest) =
        bind-Preserves _ _ (catch-Preserves _ (ask-Only removes before _ _ refl))
          (λ r. bind-Preserves _ _ (reconcile_each-Only c rest) (λ errors. return-Preserves _))

    pub reconcile_components-Only :
        (c : Component) → RemovesNothing before (reconcile_components env c)
    unfolding reconcile_components
    reconcile_components-Only c =
        bind-Preserves _ _ (reconcile_each-Only c c.subcomponents) (λ errors. lift-Preserves _)

    get_cluster_name-Only : RemovesNothing before (get_cluster_name env)
    unfolding get_cluster_name
    get_cluster_name-Only = wrapping-Only _ _ (
        bind-Preserves _ _ (wrapping-Only _ _ (ask-Only removes before _ _ refl))
          (λ names. lift-Preserves _))

    pub cluster_name_for-Only : (a : Autoscaler) → RemovesNothing before (cluster_name_for env a)
    unfolding cluster_name_for
    cluster_name_for-Only a = search (if-Preserves, get_cluster_name-Only, return-Preserves)

    cluster_block-Only : RemovesNothing before (get_cluster_network_cidr_block env)
    unfolding get_cluster_network_cidr_block
    cluster_block-Only =
        bind-Preserves _ _ (wrapping-Only _ _ (ask-Only removes before _ _ refl))
          (λ n. lift-Preserves _)

    service_block-Only : RemovesNothing before (get_service_network_cidr_block env)
    unfolding get_service_network_cidr_block
    service_block-Only =
        bind-Preserves _ _ (wrapping-Only _ _ (ask-Only removes before _ _ refl))
          (λ n. lift-Preserves _)

    set_network_config-Only :
        (config : Config) → RemovesNothing before (set_network_config env config)
    unfolding set_network_config
    set_network_config-Only config =
        search (preserves_rules, wrapping-Only, cluster_block-Only, service_block-Only) depth 14

    pub set_autoscaling_config-Only :
        (matches : String → Bool) (a : Autoscaler) (config : Config)
        → RemovesNothing before (set_autoscaling_config env matches a config)
    unfolding set_autoscaling_config
    set_autoscaling_config-Only matches a config =
        search (preserves_rules, wrapping-Only, set_network_config-Only)

    pub check_deployment_available-Only :
        (namespace name : String)
        → RemovesNothing before (check_deployment_available env namespace name)
    unfolding check_deployment_available
    check_deployment_available-Only namespace name =
        bind-Preserves _ _ (wrapping-Only _ _ (ask-Only removes before _ _ refl))
          (λ cs. lift-Preserves _)

    pub check_capi_installation-Only :
        (c : NamespaceConfig) → RemovesNothing before (check_capi_installation env c)
    unfolding check_capi_installation
    check_capi_installation-Only c = search (preserves_rules, check_deployment_available-Only)

    pub install_autoscaler-Only :
        (v : DeploymentValues) → RemovesNothing before (install_autoscaler env v)
    install_autoscaler-Only = install-Only removes before env (record {
      client = λ s. refl;
      get_chart = λ s. refl;
      add_repo = λ s t. refl;
      get_release = λ s. refl;
      get_values = λ s. refl;
      upgrade = λ s. refl;
      install = λ s. refl;
    })
