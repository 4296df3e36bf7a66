-- ===== src/Singleton.antt =====
-- One OCIClusterAutoscaler owns the cluster's shared resources: the oldest
-- (`resolveSingletonOwner` and its callers in internal/controllers/ociclusterautoscaler_controller.go).
pub mod Order
pub mod Owner
use oci_openshift_autoscalin.Base.{
  String, Bool, true, false, Option, none, some, List, [], ◌∷◌, ◌&&◌, ◌||◌, not, ◌==◌,
  if◌then◌else◌, eqb, ltb, Result, ok, err,
}
use oci_openshift_autoscalin.Base.Text.Order.{text_ltb}
use oci_openshift_autoscalin.Api.{Autoscaler, NamespacedName}
use oci_openshift_autoscalin.Exec.{Exec, return, ◌>>=◌}
use oci_openshift_autoscalin.Run.{Env, Call, Action, ask}

-- `metav1.Time.IsZero` of the deletion timestamp
abbrev pub is_deleting : Autoscaler → Bool
is_deleting a = elim a.metadata.deletion_timestamp [ none ↦ false | some _ ↦ true ]

-- the order by which the candidates are sorted
unfoldable pub older : Autoscaler → Autoscaler → Bool
older left right =
    let l = left.metadata in
    let r = right.metadata in
    if not (eqb l.creation_timestamp r.creation_timestamp)
    then ltb l.creation_timestamp r.creation_timestamp
    else if not (l.namespace == r.namespace)
    then text_ltb l.namespace r.namespace
    else text_ltb l.name r.name

unfoldable pub candidates : List Autoscaler → Bool → List Autoscaler
candidates [] include_deleting = []
candidates (item ∷ items) include_deleting =
    let rest = candidates items include_deleting in
    if not include_deleting && is_deleting item then rest else item ∷ rest

-- `sort.Slice`: an insertion sort by `older`
unfoldable pub insert_sorted : Autoscaler → List Autoscaler → List Autoscaler
insert_sorted a [] = a ∷ []
insert_sorted a (b ∷ l) = let rest = insert_sorted a l in if older b a then b ∷ rest else a ∷ b ∷ l

unfoldable pub sort_candidates : List Autoscaler → List Autoscaler
unfolding insert_sorted
sort_candidates [] = []
sort_candidates (a ∷ l) = insert_sorted a (sort_candidates l)

abbrev pub first : List Autoscaler → Option Autoscaler
first [] = none
first (a ∷ l) = some a

-- `none`: not found
unfoldable pub select_singleton_owner : List Autoscaler → Bool → Option Autoscaler
unfolding candidates sort_candidates older
select_singleton_owner items include_deleting =
    first (sort_candidates (candidates items include_deleting))

abbrev pub key : Autoscaler → NamespacedName
key a = record { namespace = a.metadata.namespace; name = a.metadata.name }

abbrev pub same_key : NamespacedName → NamespacedName → Bool
same_key a b = a.namespace == b.namespace && a.name == b.name

abbrev owner_key : Option Autoscaler → Option NamespacedName
owner_key none = none
owner_key (some a) = some (key a)

module _ (env : Env) where
  unfoldable pub resolve_singleton_owner : Bool → Action (Option Autoscaler)
  resolve_singleton_owner include_deleting = do
    items ← ask Call.list_autoscalers env.list_autoscalers
    return (select_singleton_owner items include_deleting)

  -- `singletonOwner`, `resolveSingletonOwnerName`
  unfoldable pub singleton_owner : Bool → Action (Option NamespacedName)
  unfolding resolve_singleton_owner
  singleton_owner include_deleting = do
    owner ← resolve_singleton_owner include_deleting
    return (owner_key owner)

  abbrev conflict_with : Autoscaler → Option NamespacedName → Option NamespacedName
  conflict_with a none = none
  conflict_with a (some owner) = if same_key owner (key a) then none else some owner

  -- `some owner`: there is a conflict with this owner
  unfoldable pub singleton_conflict : Autoscaler → Action (Option NamespacedName)
  unfolding singleton_owner
  singleton_conflict a = do owner ← singleton_owner false; return (conflict_with a owner)

  abbrev owned_by : Autoscaler → Option NamespacedName → Bool
  owned_by a none = false
  owned_by a (some owner) = same_key owner (key a)

  unfoldable pub is_singleton_owner : Autoscaler → Action Bool
  unfolding singleton_owner
  is_singleton_owner a = do owner ← singleton_owner true; return (owned_by a owner)
