-- ===== src/Generated.antt =====
-- Bringing the objects that clusterctl generates to the cluster: `reconcileClusterctlComponents`,
-- `prepareClusterctlObjectForUpdate`, `setDeploymentRolloutDefaults` and
-- `removeClusterctlComponents`, of internal/controllers/ociclusterautoscaler_controller.go.
pub mod Settled
use oci_openshift_autoscalin.Base.{
  ℕ, zero, suc, eqb, String, Bool, true, false, Option, none, some, List, [], ◌∷◌, ◌++◌, ◌==◌, ◌&&◌,
  if◌then◌else◌, Result, ok, err, Check, is_not_found, is_empty,
}
use oci_openshift_autoscalin.Base.Dict.{Dict}
use oci_openshift_autoscalin.Base.Text.{is_nil}
use oci_openshift_autoscalin.Exec.{Exec, return, fail, catch, ◌>>=◌, ◌>>◌}
use oci_openshift_autoscalin.Preserved.{Content, deployment, preserve_content}

-- the fields that belong to the cluster
pub record Held : Type 0 where
  pub resource_version : String
  pub uid : String
  pub creation_timestamp : String
  pub generation : ℕ
  pub managed_fields : String
  pub finalizers : List String
  pub status : Option String

pub record Unstructured : Type 0 where
  pub api_version : String
  pub kind : String
  pub namespace : String
  pub name : String
  pub labels : Dict String
  pub annotations : Dict String
  pub held : Held
  pub content : Content

-- the strategy that `setDeploymentRolloutDefaults` sets
abbrev pub rollout_defaults : String
rollout_defaults = "{type: RollingUpdate, rollingUpdate: {maxSurge: 1, maxUnavailable: 0}}"

unfoldable pub set_deployment_rollout_defaults : Unstructured → Unstructured
set_deployment_rollout_defaults o = elim o.content [
  | deployment strategy others ↦ elim strategy [
    | none ↦ record o { content = Content.deployment (some rollout_defaults) others }
    | some s ↦ o
  ]
  | _ ↦ o
]

unfoldable pub prepare_clusterctl_object_for_update : Unstructured → Unstructured → Unstructured
unfolding preserve_content
prepare_clusterctl_object_for_update desired current = record desired {
  held = current.held;
  content = preserve_content desired.content current.content;
}

pub data Call : Type 0 where
  get : Unstructured → Call
  create : Unstructured → Call
  update : Unstructured → Call

abbrev pub Log : Type 0
Log = List Call

-- The answers of the cluster, and `reflect.DeepEqual`. The object that is read has the kind and
-- the name of the one that is asked for.
pub record Cluster : Type 0 where
  pub get : Log → Unstructured → Result Unstructured
  pub create : Log → Unstructured → Check
  pub update : Log → Unstructured → Check
  pub deep_equal : Unstructured → Unstructured → Bool

unfoldable pub ask : {A : Type 0} → Call → (Log → Result A) → Exec Log A
ask call answer log = (answer log, log ++ call ∷ [])

module _ (c : Cluster) where
  -- what one turn of the loop does with the answer for the object
  unfoldable pub on_current : Unstructured → Result Unstructured → Exec Log (Unit {0})
  on_current desired (err e) =
      if is_not_found e then ask (Call.create desired) (λ log. c.create log desired) else fail e
  on_current desired (ok current) =
      let reconciled = prepare_clusterctl_object_for_update desired current in
      if c.deep_equal current reconciled
      then return tt
      else ask (Call.update reconciled) (λ log. c.update log reconciled)

  unfoldable pub reconcile_clusterctl_components : List Unstructured → Exec Log (Unit {0})
  unfolding on_current set_deployment_rollout_defaults
  reconcile_clusterctl_components [] = return tt
  reconcile_clusterctl_components (o ∷ objs) = do
    let desired = set_deployment_rollout_defaults o
    current ← catch (ask (Call.get desired) (λ log. c.get log desired))
    on_current desired current
    reconcile_clusterctl_components objs

abbrev pub after_delete : {S : Type 0} → Check → Exec S (Unit {0})
after_delete (ok _) = return tt
after_delete (err e) = if is_not_found e then return tt else fail e

-- `removeClusterctlComponents`, with the answers of the cluster to the deletions; the log has the
-- objects whose deletion was asked for
unfoldable pub remove_clusterctl_components :
    (List Unstructured → Unstructured → Check)
    → List Unstructured
    → Exec (List Unstructured) (Unit {0})
remove_clusterctl_components delete [] = return tt
remove_clusterctl_components delete (o ∷ objs) = do
  r ← catch (λ log. (delete log o, log ++ o ∷ []))
  after_delete r
  remove_clusterctl_components delete objs
