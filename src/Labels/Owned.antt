-- ===== src/Labels/Owned.antt =====
-- What reconciling labels does to each label.
use oci_openshift_autoscalin.Base.{
  String, Bool, true, false, Option, none, some, [], ◌∷◌, ◌||◌, ◌≡◌, refl, ◌∙◌, ◌==◌, arith, eq_iff,
  Bool-cases, inl, inr, if◌then◌else◌,
}
use oci_openshift_autoscalin.Base.Text.{is_nil}
use oci_openshift_autoscalin.Base.Dict.{Dict, lookup, insert, lookup-insert}
use oci_openshift_autoscalin.Labels.{
  is_operator_owned_label, is_unset, managed_by_label, component_label, subcomponent_label,
  app_component_label, merge_managed_labels, get_default_labels, get_component_labels,
  set_component_labels,
}

-- no key twice
abbrev pub IsMap : Dict String → Type 0
IsMap [] = Unit
IsMap ((k, v) ∷ m) = (lookup k m ≡ none) × IsMap m

-- What one label should be: `old` is what the object has, `wanted` what the operator sets.
unfoldable pub reconciled : Bool → Option String → Option String → Option String
reconciled owned old none = old
reconciled owned old (some wanted) = if owned || is_unset old then some wanted else old

-- Whatever labels an object has, after merging the operator's labels into them each label is the
-- one that `reconciled` names: an owned label takes the operator's value, another one keeps a value
-- that is not empty, and a label that the operator does not set stays. The operator's labels
-- have no key twice.
pub lookup-merge_managed_labels :
    (existing managed : Dict String)
    → IsMap managed
    → (j : String)
    → lookup j (merge_managed_labels existing managed)
      ≡ reconciled (is_operator_owned_label j) (lookup j existing) (lookup j managed)
unfolding merge_managed_labels lookup reconciled
lookup-merge_managed_labels existing [] p j = refl
lookup-merge_managed_labels existing ((k, v) ∷ managed) (fresh, p) j =
    let here = lookup-merge_managed_labels existing managed p k in
    let there = lookup-merge_managed_labels existing managed p j in
    ground (
      arith,
      eq_iff k j,
      fresh,
      here,
      there,
      lookup-insert j k v (merge_managed_labels existing managed),
    )

-- Reconciling a label a second time changes nothing.
pub reconciled-reconciled :
    (owned : Bool) (old wanted : Option String)
    → reconciled owned (reconciled owned old wanted) wanted ≡ reconciled owned old wanted
unfolding reconciled
reconciled-reconciled owned none none = refl
reconciled-reconciled owned (some o) none = refl
reconciled-reconciled owned none (some w) = ground arith
reconciled-reconciled owned (some o) (some w) = ground arith

insert-IsMap : (k v : String) (m : Dict String) → IsMap m → IsMap (insert k v m)
unfolding insert lookup
insert-IsMap k v [] p = (refl, tt)
insert-IsMap k v ((j, w) ∷ m) (fresh, p) = elim (Bool-cases (j == k)) [
  | inl e ↦ rw e (ground (arith, eq_iff j k, e, fresh), p)
  | inr e ↦ rw e (
    ground (arith, eq_iff k j, eq_iff j k, e, fresh, lookup-insert j k v m),
    insert-IsMap k v m p,
  )
]

pub get_default_labels-IsMap : (instance_name : String) → IsMap (get_default_labels instance_name)
unfolding get_default_labels lookup
get_default_labels-IsMap instance_name = (refl, (refl, (refl, (refl, (refl, (refl, tt))))))

if-IsMap : (b : Bool) (m n : Dict String) → IsMap m → IsMap n → IsMap (if b then m else n)
if-IsMap true m n p q = p
if-IsMap false m n p q = q

pub get_component_labels-IsMap :
    (instance_name component_name subcomponent_name : String)
    → IsMap (get_component_labels instance_name component_name subcomponent_name)
unfolding get_component_labels
get_component_labels-IsMap i c s =
    let default = get_default_labels-IsMap i in
    let named = insert-IsMap app_component_label c _ (insert-IsMap component_label c _ default) in
    let labels = if-IsMap (is_nil c) _ _ default named in
    if-IsMap (is_nil s) _ _ labels (insert-IsMap subcomponent_label s _ labels)

lookup-get_default_labels : (i : String) → lookup managed_by_label (get_default_labels i) ≡ some i
unfolding get_default_labels lookup
lookup-get_default_labels i = refl

lookup-get_component_labels :
    (i c s : String) → lookup managed_by_label (get_component_labels i c s) ≡ some i
unfolding get_component_labels
lookup-get_component_labels i c s =
    let default = get_default_labels i in
    let named = insert component_label c default in
    let both = insert app_component_label c named in
    ground (
      arith,
      lookup-get_default_labels i,
      lookup-insert managed_by_label component_label c default,
      lookup-insert managed_by_label app_component_label c named,
      lookup-insert managed_by_label subcomponent_label s default,
      lookup-insert managed_by_label subcomponent_label s both,
    )

-- The label that names the owner of an object is the owner's, whatever it was.
pub set_component_labels-managed_by_label :
    (i c s : String) (labels : Dict String)
    → lookup managed_by_label (set_component_labels i c s labels) ≡ some i
unfolding set_component_labels reconciled is_operator_owned_label
set_component_labels-managed_by_label i c s labels =
    lookup-merge_managed_labels labels (get_component_labels i c s)
      (get_component_labels-IsMap i c s) managed_by_label
    ∙ rw (lookup-get_component_labels i c s) refl
