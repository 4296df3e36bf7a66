-- ===== src/Helm/Calls.antt =====
-- What installing and removing the release calls.
use oci_openshift_autoscalin.Base.{
  Bool, true, false, Option, none, some, String, Result, ok, err, ◌≡◌,
}
use oci_openshift_autoscalin.Discovery.{wrapping}
use oci_openshift_autoscalin.Exec.Preserves.{
  Preserves, return-Preserves, lift-Preserves, catch-Preserves, bind-Preserves, if-Preserves,
}
use oci_openshift_autoscalin.Helm.{
  DeploymentValues, get_helm_client, chart_exists, release_exists, compare_version, compare_release,
  release_up_to_date, upgrade_unless, upgrade_or_install, install_autoscaler, uninstall_if,
  remove_autoscaler,
}
use oci_openshift_autoscalin.Run.{Env, Call, ChartSpec, Release, Log, Action}
use oci_openshift_autoscalin.Run.Calls.{Only, ask-Only}

-- of Helm's calls none is of the kind, but perhaps the removal of a release
pub record SparesHelm (p : Call → Bool) : Type 0 where
  pub client : (s : String) → p (Call.helm_client s) ≡ false
  pub get_chart : (s : String) → p (Call.helm_get_chart s) ≡ false
  pub add_repo : (s t : String) → p (Call.helm_add_repo s t) ≡ false
  pub get_release : (s : String) → p (Call.helm_get_release s) ≡ false
  pub get_values : (s : String) → p (Call.helm_get_values s) ≡ false
  pub upgrade : (s : ChartSpec) → p (Call.helm_upgrade s) ≡ false
  pub install : (s : ChartSpec) → p (Call.helm_install s) ≡ false

module _ (p : Call → Bool) (before : Log) where
  wrapping-Only :
      {A : Type 0} (text : String) (m : Action A)
      → Preserves (Only p before) m
      → Preserves (Only p before) (wrapping text m)
  wrapping-Only text m keep = bind-Preserves _ _ (catch-Preserves m keep) (λ r. lift-Preserves _)

  module _ (env : Env) (spares : SparesHelm p) where
    client-Only : (s : String) → Preserves (Only p before) (get_helm_client env s)
    unfolding get_helm_client
    client-Only s = wrapping-Only _ _ (ask-Only p before _ _ (spares.client s))

    chart_exists-Only : (s : String) → Preserves (Only p before) (chart_exists env s)
    unfolding chart_exists
    chart_exists-Only s =
        bind-Preserves _ _ (catch-Preserves _ (ask-Only p before _ _ (spares.get_chart s)))
          (λ r. lift-Preserves _)

    release_exists-Only : (s : String) → Preserves (Only p before) (release_exists env s)
    unfolding release_exists
    release_exists-Only s =
        bind-Preserves _ _ (catch-Preserves _ (ask-Only p before _ _ (spares.get_release s)))
          (λ r. lift-Preserves _)

    version-Only :
        (v : DeploymentValues) (desired : String) (o : Option String)
        → Preserves (Only p before) (compare_version env v desired o)
    version-Only v desired none = return-Preserves false
    version-Only v desired (some version) =
        bind-Preserves _ _ (ask-Only p before _ _ (spares.get_values v.name))
          (λ r. lift-Preserves _)

    compare-Only :
        (v : DeploymentValues) (desired : String) (o : Option Release)
        → Preserves (Only p before) (compare_release env v desired o)
    compare-Only v desired none = return-Preserves false
    compare-Only v desired (some release) = version-Only v desired release.chart_version

    up_to_date-Only :
        (v : DeploymentValues) (desired : String)
        → Preserves (Only p before) (release_up_to_date env v desired)
    unfolding release_up_to_date
    up_to_date-Only v desired =
        bind-Preserves _ _ (ask-Only p before _ _ (spares.get_release v.name))
          (compare-Only v desired)

    upgrade-Only :
        (spec : ChartSpec) (r : Result Bool) → Preserves (Only p before) (upgrade_unless env spec r)
    upgrade-Only spec (ok true) = return-Preserves tt
    upgrade-Only spec (ok false) = ask-Only p before _ _ (spares.upgrade spec)
    upgrade-Only spec (err e) = ask-Only p before _ _ (spares.upgrade spec)

    upgrade_or_install-Only :
        (v : DeploymentValues) (spec : ChartSpec) (b : Bool)
        → Preserves (Only p before) (upgrade_or_install env v spec b)
    upgrade_or_install-Only v spec true =
        bind-Preserves _ _ (catch-Preserves _ (up_to_date-Only v spec.values_yaml))
          (upgrade-Only spec)
    upgrade_or_install-Only v spec false =
        wrapping-Only _ _ (ask-Only p before _ _ (spares.install spec))

    pub install-Only : (v : DeploymentValues) → Preserves (Only p before) (install_autoscaler env v)
    unfolding install_autoscaler
    install-Only v = bind-Preserves _ _ (client-Only v.namespace) (λ _.
        bind-Preserves _ _ (chart_exists-Only v.chart) (λ known.
          bind-Preserves _ _
            (if-Preserves _ _ _
              (wrapping-Only _ _ (ask-Only p before _ _ (spares.add_repo v.name v.repository_url)))
              (return-Preserves tt))
            (λ _. bind-Preserves _ _ (release_exists-Only v.name) (upgrade_or_install-Only v _))))

    module _ (uninstall : (s : ChartSpec) → p (Call.helm_uninstall s) ≡ false) where
      uninstall-Only :
          (v : DeploymentValues) (b : Bool) → Preserves (Only p before) (uninstall_if env v b)
      uninstall-Only v false = return-Preserves tt
      uninstall-Only v true = wrapping-Only _ _ (ask-Only p before _ _ (uninstall _))

      pub remove-Only : (v : DeploymentValues) → Preserves (Only p before) (remove_autoscaler env v)
      unfolding remove_autoscaler
      remove-Only v =
          bind-Preserves _ _ (client-Only v.namespace)
            (λ _. bind-Preserves _ _ (release_exists-Only v.name) (uninstall-Only v))
