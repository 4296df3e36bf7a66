-- ===== src/Helm.antt =====
-- The Helm release of the cluster autoscaler: its values
-- (internal/components/autoscaler/values.go, `getAutoscalerDeploymentValues` of
-- internal/controllers/ociclusterautoscaler_controller.go), its installation and its removal
-- (internal/components/autoscaler/autoscaler.go, internal/utils/helm.go).
pub mod Calls
use oci_openshift_autoscalin.Base.{
  String, ◌<>◌, Bool, true, false, Option, none, some, if◌then◌else◌, not, ◌==◌, Result, ok, err,
  Error, Check, wrap,
}
use oci_openshift_autoscalin.Base.Text.{is_nil, trim_space, contains}
use oci_openshift_autoscalin.Api.{Autoscaler}
use oci_openshift_autoscalin.Config.{or_default, or_text}
use oci_openshift_autoscalin.Discovery.{wrapping}
use oci_openshift_autoscalin.Exec.{return, fail, lift, catch, ◌>>=◌, ◌>>◌}
use oci_openshift_autoscalin.Namespaces.{NamespaceConfig, with_defaults}
use oci_openshift_autoscalin.Run.{Env, Call, Action, ChartSpec, Release, ask}

-- `AutoscalerDeploymentValues`
pub record DeploymentValues : Type 0 where
  pub cloud_provider : String
  pub name : String
  pub namespace : String
  pub auto_discovery_namespace : String
  pub service_account_name : String
  pub create_rbac : Bool
  pub create_service_account : Bool
  pub repository_url : String
  pub chart : String
  pub version : String
  pub scan_interval : String

-- `%t`
abbrev show_bool : Bool → String
show_bool true = "true"
show_bool false = "false"

unfoldable pub get_values_string : DeploymentValues → String
get_values_string v =
    "\ncloudProvider: "
    <> v.cloud_provider
    <> "\nfullnameOverride: "
    <> v.name
    <> "\nautoDiscovery:\n  namespace: "
    <> or_text v.auto_discovery_namespace v.namespace
    <> "\nextraArgs:\n  scan-interval: "
    <> or_text v.scan_interval "60s"
    <> "\n  max-node-provision-time: 30m\nrbac:\n  create: "
    <> show_bool v.create_rbac
    <> "\n  serviceAccount:\n    create: "
    <> show_bool v.create_service_account
    <> "\n    name: "
    <> v.service_account_name

-- `GetAutoscalerDeploymentValues`
unfoldable pub override_values : DeploymentValues → Autoscaler → DeploymentValues
override_values v a =
    let s = a.spec.cluster_autoscaler in
    record v {
      cloud_provider = or_text s.cloud_provider v.cloud_provider;
      name = or_text s.name v.name;
      service_account_name = or_text s.service_account_name v.service_account_name;
      create_rbac = or_default s.create_rbac v.create_rbac;
      create_service_account = or_default s.create_service_account v.create_service_account;
      repository_url = or_text s.repository_url v.repository_url;
      version = or_text s.version v.version;
    }

-- `getAutoscalerDeploymentValues`
unfoldable pub deployment_values : NamespaceConfig → Autoscaler → DeploymentValues
unfolding override_values
deployment_values namespaces a =
    let c = with_defaults namespaces in
    override_values
      (record {
        cloud_provider = "clusterapi";
        name = "oci-cluster-autoscaler";
        namespace = c.autoscaler;
        auto_discovery_namespace =
            or_text (trim_space namespaces.autoscaler_discovery) (with_defaults c).managed_resource;
        service_account_name = "oci-cluster-autoscaler";
        create_rbac = true;
        create_service_account = true;
        repository_url = "https://kubernetes.github.io/autoscaler";
        chart = "oci-cluster-autoscaler/cluster-autoscaler";
        version = "9.40.0";
        scan_interval = "";
      })
      a

abbrev pub says_not_found : Error → Bool
says_not_found e = contains e.message "not found"

module _ (env : Env) where
  unfoldable pub get_helm_client : String → Action (Unit {0})
  get_helm_client namespace =
      wrapping "error creating helm client"
        (ask (Call.helm_client namespace) (λ log. env.helm_client log namespace))

  abbrev pub chart_found : Result Bool → Result Bool
  chart_found (ok found) = ok found
  chart_found (err e) =
      if not (says_not_found e) then err (wrap "error getting chart" e) else ok false

  unfoldable pub chart_exists : String → Action Bool
  chart_exists name = do
    r ← catch (ask (Call.helm_get_chart name) (λ log. env.helm_get_chart log name))
    lift (chart_found r)

  abbrev is_some : Option Release → Bool
  is_some none = false
  is_some (some r) = true

  -- `ReleaseExists`, and the test of its error that both callers make
  abbrev pub release_found : Result (Option Release) → Result Bool
  release_found (ok release) = ok (is_some release)
  release_found (err e) =
      let w = wrap "error getting release" e in if not (says_not_found w) then err w else ok false

  unfoldable pub release_exists : String → Action Bool
  release_exists name = do
    r ← catch (ask (Call.helm_get_release name) (λ log. env.helm_get_release log name))
    lift (release_found r)

  -- `helmReleaseMatchesDesired`
  unfoldable pub release_matches : String → String → DeploymentValues → String → Result Bool
  release_matches current_version current_values v desired =
      if not (current_version == v.version)
      then ok false
      else env.same_values current_values desired

  abbrev pub compare_version : DeploymentValues → String → Option String → Action Bool
  compare_version v desired none = return false
  compare_version v desired (some version) = do
    values ← ask (Call.helm_get_values v.name) (λ log. env.helm_get_values log v.name)
    lift (release_matches version values v desired)

  abbrev pub compare_release : DeploymentValues → String → Option Release → Action Bool
  compare_release v desired none = return false
  compare_release v desired (some release) = compare_version v desired release.chart_version

  unfoldable pub release_up_to_date : DeploymentValues → String → Action Bool
  unfolding release_matches
  release_up_to_date v desired = do
    release ← ask (Call.helm_get_release v.name) (λ log. env.helm_get_release log v.name)
    compare_release v desired release

  abbrev pub upgrade_unless : ChartSpec → Result Bool → Action (Unit {0})
  upgrade_unless spec (ok true) = return tt
  upgrade_unless spec _ = ask (Call.helm_upgrade spec) (λ log. env.helm_upgrade log spec)

  abbrev pub upgrade_or_install : DeploymentValues → ChartSpec → Bool → Action (Unit {0})
  upgrade_or_install v spec true = do
    r ← catch (release_up_to_date v spec.values_yaml)
    upgrade_unless spec r
  upgrade_or_install v spec false =
      wrapping "error installing chart"
        (ask (Call.helm_install spec) (λ log. env.helm_install log spec))

  unfoldable pub install_autoscaler : DeploymentValues → Action (Unit {0})
  install_autoscaler v = do
    let spec : ChartSpec = record {
      release_name = v.name;
      chart_name = v.chart;
      namespace = v.namespace;
      values_yaml = get_values_string v;
      version = v.version;
    }
    get_helm_client v.namespace
    known ← chart_exists v.chart
    (if not known
        then wrapping "error adding chart repo" (
            ask (Call.helm_add_repo v.name v.repository_url)
              (λ log. env.helm_add_repo log v.name v.repository_url))
        else return tt)
    exists ← release_exists v.name
    upgrade_or_install v spec exists

  abbrev pub uninstall_if : DeploymentValues → Bool → Action (Unit {0})
  uninstall_if v false = return tt
  uninstall_if v true =
      let spec : ChartSpec = record {
        release_name = v.name;
        chart_name = v.chart;
        namespace = v.namespace;
        values_yaml = "";
        version = "";
      } in
      wrapping "error removing chart"
        (ask (Call.helm_uninstall spec) (λ log. env.helm_uninstall log spec))

  unfoldable pub remove_autoscaler : DeploymentValues → Action (Unit {0})
  remove_autoscaler v = do
    get_helm_client v.namespace
    exists ← release_exists v.name
    uninstall_if v exists
