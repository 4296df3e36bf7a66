-- ===== src/Scaling/Renewed.antt =====
-- What a later reconcile makes of the objects of a node group, when the cluster answers otherwise
-- to what the mutations of the secrets read.
use oci_openshift_autoscalin.Base.{
  List, String, Bool, true, [], ◌∷◌, ◌≡◌, ◌||◌, ◌==◌, refl, sym, ap, ◌∙◌, Result, ok, err, some,
  All, zip, All-zip,
}
use mathlib.Core.Path.{subst}
use oci_openshift_autoscalin.Base.Dict.{Dict}
use oci_openshift_autoscalin.Api.{Autoscaler}
use oci_openshift_autoscalin.Config.{Config}
use oci_openshift_autoscalin.Kube.{Kube}
use oci_openshift_autoscalin.Objects.{Object, Payload, Subcomponent, Component}
use oci_openshift_autoscalin.Components.{mutation}
use oci_openshift_autoscalin.Components.Stable.{
  IsStable, Renews, Settles, SameMetadata, SameObject, stable-Renews, with_labels,
  with_labels-SameObject, label-steps, mutation-some,
}
use oci_openshift_autoscalin.Scaling.Repeated.{
  IsIdempotent, IsNeutral, rendered-steps, as_they_are-IsIdempotent, set_default_labels-IsNeutral,
  filled,
}
use oci_openshift_autoscalin.Scaling.Rendered.{rendered, as_they_are}
use oci_openshift_autoscalin.Labels.{set_default_labels}
use oci_openshift_autoscalin.Scaling.Secrets.{
  SecretSource, kubeconfig_labels, bootstrap_config_secret, kubeconfig_secret,
}
use oci_openshift_autoscalin.Scaling.Parts.{scaling_components}
use oci_openshift_autoscalin.Scaling.Stable.{
  kubeconfig_labels_fresh, kubeconfig_labels-IsNeutral, scaling_components-IsSettled,
}

-- the secrets of a node group, whose payload is read from the cluster
abbrev pub reads_cluster : Subcomponent → Bool
reads_cluster s = s.name == "bootstrapConfigSecret" || s.name == "kubeConfigSecret"

relabelled :
    (c d : Component) (s t : Subcomponent) (o : Object)
    → c.instance_name ≡ d.instance_name
    → c.name ≡ d.name
    → s.name ≡ t.name
    → with_labels c s o ≡ with_labels d t o
relabelled c d s t o i n m = rw (i, n, m) refl

module _ (label annotate : Dict String → Dict String) where
  -- a rendering of a labelled object, with another payload
  filled-SameMetadata :
      (c : Component) (s : Subcomponent) (o : Object) (p q : Payload)
      → IsNeutral c.instance_name c.name s.name label
      → IsIdempotent annotate
      → SameMetadata
          (with_labels c s (filled label annotate (with_labels c s (filled label annotate o p)) q))
          (with_labels c s (filled label annotate o p))
  filled-SameMetadata c s o p q neutral idempotent =
      let own = filled label annotate o p in
      let next = filled label annotate (with_labels c s own) p in
      let same : SameObject next (with_labels c s own) = record {
        kind = refl;
        namespace = refl;
        name = refl;
        payload = refl;
        labels = neutral o.labels;
        annotations = idempotent o.annotations;
      } in
      record {
        kind = refl;
        namespace = refl;
        name = refl;
        labels = (with_labels-SameObject c s own next same).labels;
        annotations = idempotent o.annotations;
      }

  module _ (c d : Component) (s t : Subcomponent) (r r' : Result Payload)
      (e : s.mutate_fn ≡ some (λ o. rendered label annotate r o))
      (e' : t.mutate_fn ≡ some (λ o. rendered label annotate r' o))
      (i : c.instance_name ≡ d.instance_name) (n : c.name ≡ d.name) (m : s.name ≡ t.name) where
    -- two renderings with other payloads make objects with the same metadata
    rendered-SameMetadata :
        (o made again : Object)
        → IsNeutral c.instance_name c.name s.name label
        → IsIdempotent annotate
        → mutation c s o ≡ ok made
        → mutation d t made ≡ ok again
        → SameMetadata again made
    rendered-SameMetadata o made again neutral idempotent h h' =
        let (own, p, _, labelled) = label-steps c s _ made (sym (mutation-some c s _ o e) ∙ h) in
        let (first, _, filling) = rendered-steps label annotate r o own p in
        let (own', p', _, labelled') =
          label-steps d t _ again (sym (mutation-some d t _ made e') ∙ h') in
        let (second, _, filling') = rendered-steps label annotate r' made own' p' in
        subst (λ x. SameMetadata x made)
          (relabelled c d s t (filled label annotate made second) i n m
            ∙ ap (with_labels d t) filling'
            ∙ labelled')
          (subst (λ x. SameMetadata (with_labels c s (filled label annotate x second)) x)
            (ap (with_labels c s) filling ∙ labelled)
            (filled-SameMetadata c s o first second neutral idempotent))

    unless_error :
        (made : Object) (result : Result Object)
        → ((again : Object) → result ≡ ok again → SameMetadata again made)
        → Settles true made result
    unless_error made (ok again) h = h again refl
    unless_error made (err x) h = tt

    rendered-Renews :
        (reads : Subcomponent → Bool)
        → reads s ≡ true
        → IsNeutral c.instance_name c.name s.name label
        → IsIdempotent annotate
        → Renews reads c d (s, t)
    rendered-Renews reads secret neutral idempotent o made h =
        subst (λ b. Settles b made (mutation d t made)) (sym secret)
          (unless_error made (mutation d t made)
            (λ again h'. rendered-SameMetadata o made again neutral idempotent h h'))

-- the subcomponents after the namespace and the secrets
abbrev after_secrets : List Subcomponent → List Subcomponent
after_secrets (_ ∷ _ ∷ _ ∷ rest) = rest
after_secrets _ = []

pub scaling_components-Renews :
    (k : Kube) (source later : SecretSource)
    (namespace token_namespace cluster_name account : String) (a : Autoscaler) (config : Config)
    (b : Bool)
    → All
        (Renews reads_cluster
          (scaling_components k source namespace token_namespace cluster_name account a config b)
          (scaling_components k later namespace token_namespace cluster_name account a config b))
        (zip
          (scaling_components k source namespace token_namespace cluster_name account a config
            b).subcomponents
          (scaling_components k later namespace token_namespace cluster_name account a config
            b).subcomponents)
unfolding scaling_components bootstrap_config_secret kubeconfig_secret
scaling_components-Renews k source later namespace token_namespace cluster_name account a config b =
    let i = a.metadata.name in
    let c = scaling_components k source namespace token_namespace cluster_name account a config b in
    let d = scaling_components k later namespace token_namespace cluster_name account a config b in
    let stable = λ (s : Subcomponent). stable-Renews reads_cluster c d s refl refl in
    let (first, (_, (_, rest))) =
      scaling_components-IsSettled k source namespace token_namespace cluster_name account a config
        b in
    let fresh = kubeconfig_labels_fresh i in
    (
      stable _ first,
      (
        rendered-Renews (set_default_labels i) as_they_are c d _ _ _ _ refl refl refl refl refl
            reads_cluster refl (set_default_labels-IsNeutral i _ _) as_they_are-IsIdempotent,
        (
          rendered-Renews (kubeconfig_labels i cluster_name) as_they_are c d _ _ _ _ refl refl refl
              refl refl reads_cluster refl
              (kubeconfig_labels-IsNeutral i _ _ cluster_name fresh.0 fresh.1)
              as_they_are-IsIdempotent,
          All-zip (IsStable c) (Renews reads_cluster c d) (after_secrets c.subcomponents) stable
              rest,
        ),
      ),
    )
