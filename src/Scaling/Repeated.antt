-- ===== src/Scaling/Repeated.antt =====
-- What a second mutation of a rendered object does.
use oci_openshift_autoscalin.Base.{
  String, [], ◌∷◌, ◌≡◌, refl, sym, ap, ◌∙◌, Result, ok, err, some, Bool, true, false, All,
  if◌then◌else◌,
}
use mathlib.Core.Path.{subst}
use oci_openshift_autoscalin.Base.Dict.{Dict, Same}
use oci_openshift_autoscalin.Objects.{Object, Payload, Subcomponent, Component}
use oci_openshift_autoscalin.Components.Stable.{
  IsStable, repeatable-IsStable, IsRepeatable, SameObject, with_labels, label-steps, mutation-some,
}
use oci_openshift_autoscalin.Components.{mutation}
use oci_openshift_autoscalin.Labels.{set_component_labels, set_default_labels}
use oci_openshift_autoscalin.Labels.Settled.{
  set_component_labels-IsLabelled, set_component_labels_settled, set_default_labels_settled,
}
use oci_openshift_autoscalin.Scaling.Rendered.{rendered}

-- a map that the operator changes the same way each time
abbrev pub IsIdempotent : (Dict String → Dict String) → Type 0
IsIdempotent f = (m : Dict String) → Same (f (f m)) (f m)

-- labels, with those of the component in between
abbrev pub IsNeutral : String → String → String → (Dict String → Dict String) → Type 0
IsNeutral i c s label =
    (m : Dict String)
    → Same (label (set_component_labels i c s (label m))) (set_component_labels i c s (label m))

module _ (label annotate : Dict String → Dict String) where
  abbrev pub filled : Object → Payload → Object
  filled o p = record o {
    labels = label o.labels;
    annotations = annotate o.annotations;
    payload = p;
  }

  pub rendered-steps :
      (r : Result Payload) (o made : Object)
      → rendered label annotate r o ≡ ok made
      → (p : Payload) × (r ≡ ok p) × (filled o p ≡ made)
  rendered-steps (err e) o made h = cc h
  rendered-steps (ok p) o made h = (p, refl, cc h)

  pub rendered-IsRepeatable :
      (c : Component) (s : Subcomponent) (r : Payload → Result Payload)
      → IsNeutral c.instance_name c.name s.name label
      → IsIdempotent annotate
      → ((p q : Payload) → r p ≡ ok q → r q ≡ ok q)
      → IsRepeatable c s (λ o. rendered label annotate (r o.payload) o)
  rendered-IsRepeatable c s r neutral idempotent again o made h =
      let (p, e, m) = rendered-steps (r o.payload) o made h in
      let next = with_labels c s (filled o p) in
      subst
        (λ x.
          (y : Object) × (rendered label annotate (r (with_labels c s x).payload)
              (with_labels c s x)
            ≡ ok y)
          × SameObject y (with_labels c s x))
        m
        (
          filled next p,
          ap (λ x. rendered label annotate x next) (again o.payload p e),
          record {
            kind = refl;
            namespace = refl;
            name = refl;
            payload = refl;
            labels = neutral o.labels;
            annotations = idempotent o.annotations;
          },
        )

pub as_they_are-IsIdempotent : IsIdempotent (λ m. m)
as_they_are-IsIdempotent m j = refl

pub set_default_labels-IsNeutral : (i c s : String) → IsNeutral i c s (set_default_labels i)
set_default_labels-IsNeutral i c s m =
    set_default_labels_settled i c s _
      (set_component_labels-IsLabelled i c s (set_default_labels i m))

pub set_component_labels-IsNeutral : (i c s : String) → IsNeutral i c s (set_component_labels i c s)
set_component_labels-IsNeutral i c s m =
    set_component_labels_settled i c s _
      (set_component_labels-IsLabelled i c s (set_component_labels i c s m))

-- What the mutation of a rendered subcomponent makes of the payload.
pub mutation-payload :
    (label annotate : Dict String → Dict String) (c : Component) (s : Subcomponent)
    (r : Payload → Result Payload) (o made : Object)
    → s.mutate_fn ≡ some (λ o. rendered label annotate (r o.payload) o)
    → mutation c s o ≡ ok made
    → r o.payload ≡ ok made.payload
mutation-payload label annotate c s r o made e h =
    let (own, p, _, m) = label-steps c s _ made (sym (mutation-some c s _ o e) ∙ h) in
    let (q, here, n) = rendered-steps label annotate (r o.payload) o own p in
    here ∙ ap (λ x. Result.ok x) (ap (λ x. x.payload) n ∙ ap (λ x. x.payload) m)

pub All-if :
    {A : Type 0} (P : A → Type 0) (b : Bool) (x : A) → P x → All P (if b then x ∷ [] else [])
All-if P true x p = (p, tt)
All-if P false x p = tt

pub rendered-IsStable :
    (c : Component) (s : Subcomponent) (label annotate : Dict String → Dict String)
    (r : Payload → Result Payload)
    → s.mutate_fn ≡ some (λ o. rendered label annotate (r o.payload) o)
    → IsNeutral c.instance_name c.name s.name label
    → IsIdempotent annotate
    → ((p q : Payload) → r p ≡ ok q → r q ≡ ok q)
    → IsStable c s
rendered-IsStable c s label annotate r e neutral idempotent again =
    repeatable-IsStable c s _ e
      (rendered-IsRepeatable label annotate c s r neutral idempotent again)
