-- ===== src/ControlPlane/Marked.antt =====
-- What marking does to a Cluster, and that a marked one is left alone.
use oci_openshift_autoscalin.Base.{
  String, Bool, true, false, Option, none, some, List, [], ◌∷◌, ◌++◌, ◌==◌, ◌≡◌, refl, sym, ◌∙◌,
  arith, eq_iff, if◌then◌else◌, ok, Bool-cases, inl, inr,
}
use mathlib.Core.List.{append-nil}
use oci_openshift_autoscalin.Exec.{return, ◌>>=◌}
use oci_openshift_autoscalin.ControlPlane.{
  Call, Log, Cluster, ClusterObject, ClusterCondition, first_is_true,
  cluster_status_condition_is_true, put_condition, set_cluster_status_condition, is_marked,
  is_initialized, mark, ask, patch_marked, mark_for_version, control_plane_initialized,
  initialized_condition, conditions_or_none,
}

first_is_true-put_condition :
    (cs : List (Option ClusterCondition)) (d : ClusterCondition) (type : String)
    → first_is_true (put_condition cs d) type
      ≡ (if d.type == type then d.status == "True" else first_is_true cs type)
unfolding first_is_true put_condition
first_is_true-put_condition [] d type = ground arith
first_is_true-put_condition (none ∷ cs) d type = first_is_true-put_condition cs d type
first_is_true-put_condition (some c ∷ cs) d type = ground (
  arith,
  eq_iff c.type d.type,
  eq_iff d.type type,
  eq_iff c.type type,
  first_is_true-put_condition cs d type,
)

abbrev listed : Option (List (Option ClusterCondition)) → String → Bool
listed cs type = first_is_true (conditions_or_none cs) type

is_true-listed :
    (cluster : ClusterObject) (type : String)
    → cluster_status_condition_is_true cluster type ≡ listed cluster.conditions type
unfolding cluster_status_condition_is_true first_is_true
is_true-listed cluster type = ground arith

abbrev start : ClusterObject → ClusterObject
start cluster =
    if is_initialized cluster then cluster else record cluster { initialized = some true }

is_initialized-start : (cluster : ClusterObject) → is_initialized (start cluster) ≡ true
is_initialized-start cluster = ground arith

conditions-start :
    (cluster : ClusterObject)
    → listed (start cluster).conditions control_plane_initialized
      ≡ listed cluster.conditions control_plane_initialized
conditions-start cluster = ground arith

is_marked-set :
    (cluster : ClusterObject) (d : ClusterCondition)
    → d.type ≡ control_plane_initialized
    → d.status ≡ "True"
    → is_initialized cluster ≡ true
    → is_marked (set_cluster_status_condition cluster d) ≡ true
unfolding is_marked set_cluster_status_condition cluster_status_condition_is_true
is_marked-set cluster d t s i = ground (
  arith,
  t,
  s,
  i,
  eq_iff d.type control_plane_initialized,
  eq_iff d.status "True",
  first_is_true-put_condition (conditions_or_none cluster.conditions) d control_plane_initialized,
)

is_marked-listed :
    (cluster : ClusterObject)
    → is_initialized cluster ≡ true
    → listed cluster.conditions control_plane_initialized ≡ true
    → is_marked cluster ≡ true
unfolding is_marked
is_marked-listed cluster i l =
    rw (is_true-listed cluster control_plane_initialized) (ground (arith, i, l))

is_marked-mark : (now : String) (cluster : ClusterObject) → is_marked (mark now cluster) ≡ true
unfolding mark
is_marked-mark now cluster =
    elim (Bool-cases (cluster_status_condition_is_true cluster control_plane_initialized)) [
      | inl e ↦ rw e (
          is_marked-listed (start cluster) (is_initialized-start cluster)
            (conditions-start cluster ∙ sym (is_true-listed cluster control_plane_initialized) ∙ e))
      | inr e ↦ rw e (
          is_marked-set (start cluster) (initialized_condition now (start cluster)) refl refl
            (is_initialized-start cluster))
    ]

conditions-mark :
    (now : String) (cluster : ClusterObject) (type : String)
    → (type == control_plane_initialized) ≡ false
    → listed (mark now cluster).conditions type ≡ listed cluster.conditions type
unfolding mark set_cluster_status_condition
conditions-mark now cluster type other = ground (
  arith,
  other,
  eq_iff type control_plane_initialized,
  eq_iff control_plane_initialized type,
  first_is_true-put_condition (conditions_or_none cluster.conditions)
      (initialized_condition now (start cluster)) type,
)

conditions_kept :
    (now : String) (cluster : ClusterObject) (type : String)
    → (type == control_plane_initialized) ≡ false
    → cluster_status_condition_is_true (mark now cluster) type
      ≡ cluster_status_condition_is_true cluster type
conditions_kept now cluster type other =
    is_true-listed (mark now cluster) type
    ∙ conditions-mark now cluster type other
    ∙ sym (is_true-listed cluster type)

abbrev pub patches : Cluster → Log → ClusterObject → Log
patches c log cluster =
    if is_marked cluster then [] else Call.patch_status cluster (mark (c.now log) cluster) ∷ []

patches-patch_marked :
    (c : Cluster) (log : Log) (cluster : ClusterObject)
    → ((if is_marked cluster then return tt else patch_marked c cluster) log).1
      ≡ log ++ patches c log cluster
unfolding patch_marked ask ◌>>=◌ is_marked
patches-patch_marked c log cluster = elim (Bool-cases (is_marked cluster)) [
  | inl e ↦ rw e (sym (append-nil log))
  | inr e ↦ rw e refl
]

-- Marking asks for the Cluster, when that is there asks for one patch if the Cluster is not marked
-- and for nothing if it is. What the patch makes of the Cluster is marked, and the truth of its
-- other conditions is kept.
pub mark_for_version-is_marked :
    (c : Cluster) (namespace name version : String) (log : Log) (cluster : ClusterObject)
    → c.get log namespace name version ≡ ok cluster
    → ((mark_for_version c namespace name version log).1
        ≡ (log ++ Call.get namespace name version ∷ [])
          ++ patches c (log ++ Call.get namespace name version ∷ []) cluster)
      × ((now : String) → is_marked (mark now cluster) ≡ true)
      × ((now type : String)
          → (type == control_plane_initialized) ≡ false
          → cluster_status_condition_is_true (mark now cluster) type
            ≡ cluster_status_condition_is_true cluster type)
unfolding mark_for_version ask ◌>>=◌ is_marked
mark_for_version-is_marked c namespace name version log cluster h = (
  rw h (patches-patch_marked c (log ++ Call.get namespace name version ∷ []) cluster),
  λ now. is_marked-mark now cluster,
  λ now type other. conditions_kept now cluster type other,
)
