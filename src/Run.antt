-- ===== src/Run.antt =====
-- What a reconciler does to the world: the calls to the cluster and to Helm, in their order. The
-- answer to a call is a parameter that may depend on all calls before it (`Env`), so a theorem over
-- every `Env` holds whatever the API server, other writers and Helm do between two calls.
pub mod Calls
use oci_openshift_autoscalin.Base.{String, Bool, Option, List, [], ◌∷◌, ◌++◌, Result, Check}
use oci_openshift_autoscalin.Api.{Autoscaler, NamespacedName}
use oci_openshift_autoscalin.Objects.{Object, Subcomponent}
use oci_openshift_autoscalin.Exec.{Exec}

-- `corev1.EventTypeNormal` and `EventTypeWarning`
pub data EventType : Type 0 where
  normal warning : EventType

-- `helmclient.ChartSpec`, as far as the operator fills it in differently
pub record ChartSpec : Type 0 where
  pub release_name : String
  pub chart_name : String
  pub namespace : String
  pub values_yaml : String
  pub version : String

pub data Call : Type 0 where
  get_instance : NamespacedName → Call
  list_autoscalers : Call
  -- `r.Status().Update(ctx, instance)` and `r.Update(ctx, instance)`
  update_status : Autoscaler → Call
  update : Autoscaler → Call
  event : EventType → String → String → Call
  -- `controllerutil.CreateOrPatch` for a subcomponent, and `client.Delete`
  create_or_patch : String → Subcomponent → Call
  delete : Object → Call
  get_deployment : String → String → Call
  list_infrastructures : Call
  get_network : Call
  helm_client : String → Call
  helm_get_chart : String → Call
  helm_add_repo : String → String → Call
  helm_get_release : String → Call
  helm_get_values : String → Call
  helm_upgrade : ChartSpec → Call
  helm_install : ChartSpec → Call
  helm_uninstall : ChartSpec → Call
  mark_control_plane : String → String → String → Call

abbrev pub Log : Type 0
Log = List Call

-- `appsv1.DeploymentCondition`
pub record DeploymentCondition : Type 0 where
  pub type : String
  pub status : String
  pub reason : String
  pub message : String

-- `configv1.Network`: the CIDR blocks of its spec and of its status
pub record Network : Type 0 where
  pub spec_cluster : List String
  pub spec_service : List String
  pub status_cluster : List String
  pub status_service : List String

-- A release that `GetRelease` returned: the version of its chart, `none` where a pointer on the way
-- to it is nil.
pub record Release : Type 0 where
  pub chart_version : Option String

pub record Env : Type 0 where
  pub get_instance : Log → NamespacedName → Result Autoscaler
  pub list_autoscalers : Log → Result (List Autoscaler)
  -- a successful update returns the object as the server holds it
  pub update_status : Log → Autoscaler → Result Autoscaler
  pub update : Log → Autoscaler → Result Autoscaler
  pub create_or_patch : Log → Object → (Object → Result Object) → Result String
  pub delete : Log → Object → Check
  pub get_deployment : Log → String → String → Result (List DeploymentCondition)
  -- the names `status.infrastructureName` of the items
  pub list_infrastructures : Log → Result (List String)
  pub get_network : Log → Result Network
  pub helm_client : Log → String → Check
  -- whether the chart that `GetChart` returns is not nil
  pub helm_get_chart : Log → String → Result Bool
  pub helm_add_repo : Log → String → String → Check
  -- `none`: a nil release
  pub helm_get_release : Log → String → Result (Option Release)
  -- the values of a release, as YAML
  pub helm_get_values : Log → String → Result String
  -- whether two values are equal, once both are normalised by `yaml`
  pub same_values : String → String → Result Bool
  pub helm_upgrade : Log → ChartSpec → Check
  pub helm_install : Log → ChartSpec → Check
  pub helm_uninstall : Log → ChartSpec → Check
  pub mark_control_plane : Log → String → String → String → Check

-- The state of one run: the `instance` that the code holds in memory, and the calls so far.
pub record Run : Type 0 where
  pub instance : Autoscaler
  pub log : Log

abbrev pub Action : Type 0 → Type 0
Action A = Exec Run A

-- A call, logged, and its answer.
unfoldable pub ask : {A : Type 0} → Call → (Log → Result A) → Action A
ask call answer r = (answer r.log, record r { log = r.log ++ call ∷ [] })
