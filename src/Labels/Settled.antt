-- ===== src/Labels/Settled.antt =====
-- When setting labels again changes nothing.
use oci_openshift_autoscalin.Base.{
  String, Bool, true, false, Option, none, some, ◌≡◌, refl, sym, ap, ◌∙◌, arith, eq_iff,
  if◌then◌else◌,
}
use oci_openshift_autoscalin.Base.Text.{is_nil}
use oci_openshift_autoscalin.Base.Dict.{Dict, Same, lookup, insert, lookup-insert}
use oci_openshift_autoscalin.Labels.{
  is_operator_owned_label, merge_managed_labels, get_default_labels, get_component_labels,
  set_default_labels, set_component_labels, component_label, app_component_label,
  subcomponent_label,
}
use oci_openshift_autoscalin.Labels.Owned.{
  IsMap, reconciled, lookup-merge_managed_labels, reconciled-reconciled, get_default_labels-IsMap,
  get_component_labels-IsMap,
}

-- each label is already what reconciling it with the operator's labels makes of it
abbrev pub IsSettled : Dict String → Dict String → Type 0
IsSettled managed labels =
    (j : String)
    → reconciled (is_operator_owned_label j) (lookup j labels) (lookup j managed) ≡ lookup j labels

merge-IsSettled :
    (managed labels : Dict String)
    → IsMap managed
    → IsSettled managed (merge_managed_labels labels managed)
merge-IsSettled managed labels p j =
    let once = lookup-merge_managed_labels labels managed p j in
    rw once (reconciled-reconciled (is_operator_owned_label j) (lookup j labels) (lookup j managed))

merge_settled :
    (managed labels : Dict String)
    → IsMap managed
    → IsSettled managed labels
    → Same (merge_managed_labels labels managed) labels
merge_settled managed labels p s j = lookup-merge_managed_labels labels managed p j ∙ s j

merge-Same :
    (managed l m : Dict String)
    → IsMap managed
    → Same l m
    → Same (merge_managed_labels l managed) (merge_managed_labels m managed)
merge-Same managed l m p s j =
    lookup-merge_managed_labels l managed p j
    ∙ ap (λ x. reconciled (is_operator_owned_label j) x (lookup j managed)) (s j)
    ∙ sym (lookup-merge_managed_labels m managed p j)

-- a smaller set of labels with the same values
abbrev Within : Dict String → Dict String → Type 0
Within small large = (j v : String) → lookup j small ≡ some v → lookup j large ≡ some v

settled_at :
    (owned : Bool) (old small large : Option String)
    → ((v : String) → small ≡ some v → large ≡ some v)
    → reconciled owned old large ≡ old
    → reconciled owned old small ≡ old
unfolding reconciled
settled_at owned old none large w h = refl
settled_at owned old (some v) large w h = let e = w v refl in rw e at h

Within-IsSettled :
    (small large labels : Dict String)
    → Within small large
    → IsSettled large labels
    → IsSettled small labels
Within-IsSettled small large labels w s j =
    settled_at (is_operator_owned_label j) (lookup j labels) (lookup j small) (lookup j large) (w j)
      (s j)

insert-Within : (key v : String) (m : Dict String) → lookup key m ≡ none → Within m (insert key v m)
insert-Within key v m fresh j w h = ground (arith, eq_iff key j, fresh, h, lookup-insert j key v m)

if-Within :
    (b : Bool) (l m n : Dict String) → Within l m → Within l n → Within l (if b then m else n)
if-Within true l m n p q = p
if-Within false l m n p q = q

if-lookup :
    (b : Bool) (key : String) (m n : Dict String)
    → lookup key m ≡ none
    → lookup key n ≡ none
    → lookup key (if b then m else n) ≡ none
if-lookup true key m n p q = p
if-lookup false key m n p q = q

default-Within : (i c s : String) → Within (get_default_labels i) (get_component_labels i c s)
unfolding get_component_labels get_default_labels lookup insert
default-Within i c s =
    let default = get_default_labels i in
    let once = insert component_label c default in
    let twice = insert app_component_label c once in
    let labels = if is_nil c then default else twice in
    let p : Within default twice = λ j v h.
      insert-Within app_component_label c once refl j v
        (insert-Within component_label c default refl j v h) in
    let q : Within default labels = if-Within (is_nil c) default default twice (λ j v h. h) p in
    let fresh : lookup subcomponent_label labels ≡ none =
      if-lookup (is_nil c) subcomponent_label default twice refl refl in
    if-Within (is_nil s) default labels (insert subcomponent_label s labels) q
      λ j v h. insert-Within subcomponent_label s labels fresh j v (q j v h)

abbrev pub IsLabelled : String → String → String → Dict String → Type 0
IsLabelled i c s labels = IsSettled (get_component_labels i c s) labels

pub set_component_labels-IsLabelled :
    (i c s : String) (labels : Dict String) → IsLabelled i c s (set_component_labels i c s labels)
unfolding set_component_labels
set_component_labels-IsLabelled i c s labels =
    merge-IsSettled (get_component_labels i c s) labels (get_component_labels-IsMap i c s)

-- The labels of a component stay under a second labelling, and under the default labels.
pub set_component_labels_settled :
    (i c s : String) (labels : Dict String)
    → IsLabelled i c s labels
    → Same (set_component_labels i c s labels) labels
unfolding set_component_labels
set_component_labels_settled i c s labels =
    merge_settled (get_component_labels i c s) labels (get_component_labels-IsMap i c s)

pub set_default_labels_settled :
    (i c s : String) (labels : Dict String)
    → IsLabelled i c s labels
    → Same (set_default_labels i labels) labels
unfolding set_default_labels
set_default_labels_settled i c s labels p =
    merge_settled (get_default_labels i) labels (get_default_labels-IsMap i) (
      Within-IsSettled (get_default_labels i) (get_component_labels i c s) labels
        (default-Within i c s) p)

pub set_component_labels-Same :
    (i c s : String) (l m : Dict String)
    → Same l m
    → Same (set_component_labels i c s l) (set_component_labels i c s m)
unfolding set_component_labels
set_component_labels-Same i c s l m =
    merge-Same (get_component_labels i c s) l m (get_component_labels-IsMap i c s)
