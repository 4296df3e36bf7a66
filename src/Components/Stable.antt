-- ===== src/Components/Stable.antt =====
-- When mutating an object again changes nothing, so that `CreateOrPatch` writes nothing.
use oci_openshift_autoscalin.Base.{
  Bool, true, false, some, ◌≡◌, refl, sym, ap, ◌∙◌, arith, Result, ok, err, Bool-cases, All, inl,
  inr,
}
use mathlib.Core.Path.{subst}
use oci_openshift_autoscalin.Base.Text.{is_nil}
use oci_openshift_autoscalin.Base.Dict.{Same}
use oci_openshift_autoscalin.Labels.{set_component_labels}
use oci_openshift_autoscalin.Labels.Settled.{
  set_component_labels-IsLabelled, set_component_labels_settled, set_component_labels-Same,
}
use oci_openshift_autoscalin.Objects.{Object, Subcomponent, Component}
use oci_openshift_autoscalin.Components.{apply, mutation, label}

-- the same object, its maps compared key by key
pub record SameObject (x y : Object) : Type 0 where
  pub kind : x.kind ≡ y.kind
  pub namespace : x.namespace ≡ y.namespace
  pub name : x.name ≡ y.name
  pub payload : x.payload ≡ y.payload
  pub labels : Same x.labels y.labels
  pub annotations : Same x.annotations y.annotations

-- When the mutation made an object, mutating that object succeeds and makes the same object.
abbrev pub IsStable : Component → Subcomponent → Type 0
IsStable c s =
    (o made : Object)
    → mutation c s o ≡ ok made
    → (again : Object) × (mutation c s made ≡ ok again) × SameObject again made

abbrev pub with_labels : Component → Subcomponent → Object → Object
with_labels c s o = record o {
  labels = set_component_labels c.instance_name c.name s.name o.labels;
}

-- the same of the subcomponent's own mutation, over what it and the labels of the component made
abbrev pub IsRepeatable : Component → Subcomponent → (Object → Result Object) → Type 0
IsRepeatable c s f =
    (o made : Object)
    → f o ≡ ok made
    → (again : Object) × (f (with_labels c s made) ≡ ok again)
      × SameObject again (with_labels c s made)

pub label-steps :
    (c : Component) (s : Subcomponent) (r : Result Object) (made : Object)
    → label c s r ≡ ok made
    → (own : Object) × (r ≡ ok own)
      × (is_nil c.instance_name ≡ false)
      × (with_labels c s own ≡ made)
label-steps c s (err e) made h = cc h
label-steps c s (ok own) made h = elim (Bool-cases (is_nil c.instance_name)) [
  | inl b ↦ absurd (ground (arith, b, h))
  | inr b ↦ (own, refl, b, ground (arith, b, h))
]

label-ok :
    (c : Component) (s : Subcomponent) (o : Object)
    → is_nil c.instance_name ≡ false
    → label c s (ok o) ≡ ok (with_labels c s o)
label-ok c s o b = rw b refl

pub with_labels-SameObject :
    (c : Component) (s : Subcomponent) (own again : Object)
    → SameObject again (with_labels c s own)
    → SameObject (with_labels c s again) (with_labels c s own)
with_labels-SameObject c s own again same = record {
  kind = same.kind;
  namespace = same.namespace;
  name = same.name;
  payload = same.payload;
  annotations = same.annotations;
  labels = λ j.
      set_component_labels-Same c.instance_name c.name s.name _ _ same.labels j
      ∙ set_component_labels_settled c.instance_name c.name s.name _
          (set_component_labels-IsLabelled c.instance_name c.name s.name own.labels) j;
}

pub mutation-some :
    (c : Component) (s : Subcomponent) (f : Object → Result Object) (o : Object)
    → s.mutate_fn ≡ some f
    → mutation c s o ≡ label c s (f o)
unfolding mutation
mutation-some c s f o e = rw e refl

pub repeatable-IsStable :
    (c : Component) (s : Subcomponent) (f : Object → Result Object)
    → s.mutate_fn ≡ some f
    → IsRepeatable c s f
    → IsStable c s
repeatable-IsStable c s f e repeat o made h =
    let (own, p, b, m) = label-steps c s (f o) made (sym (mutation-some c s f o e) ∙ h) in
    let (again, q, same) = repeat o own p in
    subst (λ x. (y : Object) × (mutation c s x ≡ ok y) × SameObject y x) m
      (
        with_labels c s again,
        mutation-some c s f (with_labels c s own) e ∙ ap (label c s) q ∙ label-ok c s again b,
        with_labels-SameObject c s own again same,
      )

-- every object of a component
abbrev pub IsSettled : Component → Type 0
IsSettled c = All (IsStable c) c.subcomponents

-- the same object, but for its payload
pub record SameMetadata (x y : Object) : Type 0 where
  pub kind : x.kind ≡ y.kind
  pub namespace : x.namespace ≡ y.namespace
  pub name : x.name ≡ y.name
  pub labels : Same x.labels y.labels
  pub annotations : Same x.annotations y.annotations

-- What a second mutation may make of an object that a first one made: the same object; or, when
-- the payload is read from the cluster, an error or an object that differs in its payload only.
abbrev pub Settles : Bool → Object → Result Object → Type 0
Settles false made r = (again : Object) × (r ≡ ok again) × SameObject again made
Settles true made (ok again) = SameMetadata again made
Settles true made (err e) = Unit

-- of two subcomponents, each with its component
abbrev pub Renews :
    (Subcomponent → Bool) → Component → Component → Subcomponent × Subcomponent → Type 0
Renews reads c d (s, t) =
    (o made : Object) → mutation c s o ≡ ok made → Settles (reads s) made (mutation d t made)

mutation-component :
    (c d : Component) (s : Subcomponent) (o : Object)
    → c.instance_name ≡ d.instance_name
    → c.name ≡ d.name
    → mutation c s o ≡ mutation d s o
unfolding mutation
mutation-component c d s o i n = label_same (apply s.mutate_fn o)
  where
    label_same : (r : Result Object) → label c s r ≡ label d s r
    label_same (err e) = refl
    label_same (ok own) = rw (i, n) refl

metadata-SameObject : (x y : Object) → SameObject x y → SameMetadata x y
metadata-SameObject x y same = record {
  kind = same.kind;
  namespace = same.namespace;
  name = same.name;
  labels = same.labels;
  annotations = same.annotations;
}

settle : (b : Bool) (made : Object) (r : Result Object) → Settles false made r → Settles b made r
settle false made r h = h
settle true made r (again, e, same) =
    subst (Settles true made) (sym e) (metadata-SameObject again made same)

-- a stable subcomponent, in another component of the same names
pub stable-Renews :
    (reads : Subcomponent → Bool) (c d : Component) (s : Subcomponent)
    → c.instance_name ≡ d.instance_name
    → c.name ≡ d.name
    → IsStable c s
    → Renews reads c d (s, s)
stable-Renews reads c d s i n stable o made h =
    let (again, e, same) = stable o made h in
    settle (reads s) made (mutation d s made)
      (again, sym (mutation-component c d s made i n) ∙ e, same)
