-- ===== src/ControlPlane.antt =====
-- Marking the control plane of the Cluster as initialised
-- (`markExistingClusterControlPlaneInitializedForVersion`, `clusterStatusConditionIsTrue` and
-- `setClusterStatusCondition` of internal/controllers/ociclusterautoscaler_controller.go), in one
-- version of the API.
pub mod Marked
use oci_openshift_autoscalin.Base.{
  ℕ, String, Bool, true, false, Option, none, some, List, [], ◌∷◌, ◌++◌, ◌==◌, ◌&&◌, not,
  if◌then◌else◌, Result, ok, err, Check, wrap_err,
}
use oci_openshift_autoscalin.Exec.{Exec, return, lift, catch, ◌>>=◌}

pub record ClusterCondition : Type 0 where
  pub type : String
  pub status : String
  pub reason : String
  pub message : String
  pub observed_generation : ℕ
  pub last_transition_time : String

-- The Cluster, as far as the code names it: `status.initialization.controlPlaneInitialized` and
-- `status.conditions`, each of which may be absent. A condition that is no map is `none`.
pub record ClusterObject : Type 0 where
  pub namespace : String
  pub name : String
  pub generation : ℕ
  pub initialized : Option Bool
  pub conditions : Option (List (Option ClusterCondition))
  pub others : String

abbrev pub control_plane_initialized : String
control_plane_initialized = "ControlPlaneInitialized"

-- the loop of `clusterStatusConditionIsTrue`
unfoldable pub first_is_true : List (Option ClusterCondition) → String → Bool
first_is_true [] type = false
first_is_true (none ∷ cs) type = first_is_true cs type
first_is_true (some c ∷ cs) type =
    let rest = first_is_true cs type in if c.type == type then c.status == "True" else rest

unfoldable pub cluster_status_condition_is_true : ClusterObject → String → Bool
unfolding first_is_true
cluster_status_condition_is_true cluster type = elim cluster.conditions [
  | none ↦ false
  | some cs ↦ first_is_true cs type
]

abbrev pub conditions_or_none :
    Option (List (Option ClusterCondition)) → List (Option ClusterCondition)
conditions_or_none none = []
conditions_or_none (some cs) = cs

-- the loop of `setClusterStatusCondition`
unfoldable pub put_condition :
    List (Option ClusterCondition) → ClusterCondition → List (Option ClusterCondition)
put_condition [] desired = some desired ∷ []
put_condition (none ∷ cs) desired = none ∷ put_condition cs desired
put_condition (some c ∷ cs) desired =
    let rest = put_condition cs desired in
    if c.type == desired.type then some desired ∷ cs else some c ∷ rest

unfoldable pub set_cluster_status_condition : ClusterObject → ClusterCondition → ClusterObject
unfolding put_condition
set_cluster_status_condition cluster desired = record cluster {
  conditions = some (put_condition (conditions_or_none cluster.conditions) desired);
}

abbrev pub is_initialized : ClusterObject → Bool
is_initialized cluster = elim cluster.initialized [ none ↦ false | some b ↦ b ]

unfoldable pub is_marked : ClusterObject → Bool
is_marked cluster =
    is_initialized cluster && cluster_status_condition_is_true cluster control_plane_initialized

abbrev pub initialized_condition : String → ClusterObject → ClusterCondition
initialized_condition now cluster = record {
  type = control_plane_initialized;
  status = "True";
  reason = "Initialized";
  message = "External OpenShift control plane is initialized";
  observed_generation = cluster.generation;
  last_transition_time = now;
}

-- what the code makes of a Cluster that is not marked, at the time `now`
unfoldable pub mark : String → ClusterObject → ClusterObject
mark now cluster =
    let started =
      if is_initialized cluster then cluster else record cluster { initialized = some true } in
    if cluster_status_condition_is_true cluster control_plane_initialized
    then started
    else set_cluster_status_condition started (initialized_condition now started)

pub data Call : Type 0 where
  get : String → String → String → Call
  -- `Status().Patch`, from what was read to what it becomes
  patch_status : ClusterObject → ClusterObject → Call

abbrev pub Log : Type 0
Log = List Call

-- the answers of the cluster, and its clock
pub record Cluster : Type 0 where
  pub get : Log → String → String → String → Result ClusterObject
  pub patch_status : Log → ClusterObject → ClusterObject → Check
  pub now : Log → String

unfoldable pub ask : {A : Type 0} → Call → (Log → Result A) → Exec Log A
ask call answer log = (answer log, log ++ call ∷ [])

module _ (c : Cluster) where
  unfoldable pub patch_marked : ClusterObject → Exec Log (Unit {0})
  patch_marked cluster log =
      let next = mark (c.now log) cluster in
      (do
        r ← catch (ask (Call.patch_status cluster next) (λ l. c.patch_status l cluster next))
        lift (wrap_err "failed to patch Cluster control plane initialization status" r))
        log

  -- with the namespace, the name and the version of the API
  unfoldable pub mark_for_version : String → String → String → Exec Log (Unit {0})
  unfolding patch_marked
  mark_for_version namespace name version = do
    cluster ← ask (Call.get namespace name version) (λ log. c.get log namespace name version)
    (if is_marked cluster then return tt else patch_marked cluster)
