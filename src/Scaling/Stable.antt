-- ===== src/Scaling/Stable.antt =====
-- Every object of a node group settles after one reconcile.
use oci_openshift_autoscalin.Base.{
  String, [], ◌∷◌, ◌≡◌, refl, ◌∙◌, arith, eq_iff, Result, ok, some, none, Bool, false,
}
use mathlib.Core.Path.{subst}
use oci_openshift_autoscalin.Base.Bind.{bind-ok}
use oci_openshift_autoscalin.Base.Dict.{
  Dict, lookup, insert, copy_onto, lookup-insert, lookup-copy_onto,
}
use oci_openshift_autoscalin.Api.{Autoscaler}
use oci_openshift_autoscalin.Config.{Config}
use oci_openshift_autoscalin.Kube.{Kube}
use oci_openshift_autoscalin.Labels.{
  set_component_labels, get_component_labels, get_default_labels, is_operator_owned_label,
}
use oci_openshift_autoscalin.Labels.Owned.{
  lookup-merge_managed_labels, get_component_labels-IsMap, reconciled,
}
use oci_openshift_autoscalin.Labels.Settled.{
  set_component_labels-IsLabelled, set_default_labels_settled,
}
use oci_openshift_autoscalin.Objects.{Payload}
use oci_openshift_autoscalin.Components.Stable.{IsStable, IsSettled}
use oci_openshift_autoscalin.Scaling.Repeated.{
  All-if, rendered-IsStable, IsIdempotent, IsNeutral, as_they_are-IsIdempotent,
  set_default_labels-IsNeutral, set_component_labels-IsNeutral,
}
use oci_openshift_autoscalin.Scaling.Cluster.{
  oci_cluster, oci_cluster_identity, capi_cluster, capi_cluster_payload, oci_cluster_spec,
  existing_identifier, skip_api_server_lb_management_annotation,
}
use oci_openshift_autoscalin.Scaling.Machines.{
  existing_tags, machine_template, machine_template_payload, machine_spec,
}
use oci_openshift_autoscalin.Scaling.Machines.Placed.{machine_spec-machine_spec}
use oci_openshift_autoscalin.Scaling.Deployment.{
  capacity_annotations, machine_deployment, machine_health_check, machine_health_check_payload,
  machine_deployment_payload, machine_deployment_spec, capi_cluster_name_label,
}
use oci_openshift_autoscalin.NodePool.{validate_generated_node_pool_names}
use oci_openshift_autoscalin.Scaling.Deployment.Steps.{ok-payload, machine_deployment_payload-steps}
use oci_openshift_autoscalin.Scaling.Secrets.{
  SecretSource, bootstrap_config_secret, bootstrap_config_payload, kubeconfig_secret,
  kubeconfig_payload, kubeconfig_labels, move_label,
}
use oci_openshift_autoscalin.Scaling.Parts.{scaling_components, labelled}

skip_annotation-IsIdempotent :
    IsIdempotent (copy_onto ((skip_api_server_lb_management_annotation, "true") ∷ []))
skip_annotation-IsIdempotent m j =
    let base : Dict String = (skip_api_server_lb_management_annotation, "true") ∷ [] in
    ground (arith, lookup-copy_onto j base (copy_onto base m), lookup-copy_onto j base m)

capacity_annotations-IsIdempotent : (config : Config) → IsIdempotent (capacity_annotations config)
unfolding capacity_annotations
capacity_annotations-IsIdempotent config m j = simp lookup-insert (ground arith)

lookup-set_component_labels :
    (i c s key : String) (labels : Dict String)
    → is_operator_owned_label key ≡ false
    → lookup key (get_component_labels i c s) ≡ none
    → lookup key (set_component_labels i c s labels) ≡ lookup key labels
unfolding set_component_labels reconciled
lookup-set_component_labels i c s key labels owned h =
    lookup-merge_managed_labels labels (get_component_labels i c s)
      (get_component_labels-IsMap i c s) key
    ∙ rw h refl

machine_template_payload-again :
    (k : Kube) (cluster_name : String) (a : Autoscaler) (config : Config) (p q : Payload)
    → machine_template_payload k cluster_name a config p ≡ ok q
    → machine_template_payload k cluster_name a config q ≡ ok q
unfolding machine_template_payload
machine_template_payload-again k cluster_name a config p q h =
    let (_, v, h1) = bind-ok (validate_generated_node_pool_names k cluster_name a) _ q h in
    let (spec, e, h2) = bind-ok (machine_spec k cluster_name a config (existing_tags p)) _ q h1 in
    subst (λ x. machine_template_payload k cluster_name a config x ≡ ok x) (ok-payload _ _ h2)
      (rw (v, machine_spec-machine_spec k cluster_name a config (existing_tags p) spec e) refl)

machine_deployment_payload-again :
    (k : Kube) (cluster_name : String) (a : Autoscaler) (config : Config) (p q : Payload)
    → machine_deployment_payload k cluster_name a config p ≡ ok q
    → machine_deployment_payload k cluster_name a config q ≡ ok q
unfolding machine_deployment_payload machine_deployment_spec
machine_deployment_payload-again k cluster_name a config p q h =
    let (ref, v, e, w, m) = machine_deployment_payload-steps k cluster_name a config p q h in
    subst (λ x. machine_deployment_payload k cluster_name a config x ≡ ok x) m (rw (v, e, w) refl)

insert_known :
    (key v j : String) (m all : Dict String)
    → lookup j m ≡ lookup j all
    → lookup key all ≡ some v
    → lookup j (insert key v m) ≡ lookup j all
insert_known key v j m all h known = ground (arith, eq_iff key j, h, known, lookup-insert j key v m)

pub kubeconfig_labels_fresh :
    (i : String)
    → (lookup move_label (get_component_labels i "EnableAutoscaler" "kubeConfigSecret") ≡ none)
      × (lookup capi_cluster_name_label
            (get_component_labels i "EnableAutoscaler" "kubeConfigSecret")
          ≡ none)
unfolding get_component_labels get_default_labels insert lookup
kubeconfig_labels_fresh i = (refl, refl)

pub kubeconfig_labels-IsNeutral :
    (i c s cluster_name : String)
    → lookup move_label (get_component_labels i c s) ≡ none
    → lookup capi_cluster_name_label (get_component_labels i c s) ≡ none
    → IsNeutral i c s (kubeconfig_labels i cluster_name)
unfolding kubeconfig_labels is_operator_owned_label
kubeconfig_labels-IsNeutral i c s cluster_name p q m j =
    let own = kubeconfig_labels i cluster_name m in
    let all = set_component_labels i c s own in
    let kept = set_default_labels_settled i c s all (set_component_labels-IsLabelled i c s own) j in
    let moved : lookup move_label all ≡ some "" =
      lookup-set_component_labels i c s move_label own refl p ∙ simp lookup-insert refl in
    let named : lookup capi_cluster_name_label all ≡ some cluster_name =
      lookup-set_component_labels i c s capi_cluster_name_label own refl q
      ∙ simp lookup-insert refl in
    insert_known move_label "" j _ all
      (insert_known capi_cluster_name_label cluster_name j _ all kept named) moved

oci_cluster_payload-again :
    (namespace cluster_name : String) (config : Config) (b : Bool) (p q : Payload)
    → Result.ok (
        Payload.oci_cluster
          (oci_cluster_spec namespace cluster_name config b (existing_identifier p)))
      ≡ ok q
    → Result.ok (
        Payload.oci_cluster
          (oci_cluster_spec namespace cluster_name config b (existing_identifier q)))
      ≡ ok q
unfolding oci_cluster_spec
oci_cluster_payload-again namespace cluster_name config b p q h =
    subst
      (λ x.
        Result.ok (
          Payload.oci_cluster
            (oci_cluster_spec namespace cluster_name config b (existing_identifier x)))
        ≡ ok x)
      (ok-payload _ _ h) refl

-- Every object of a node group settles.
pub scaling_components-IsSettled :
    (k : Kube) (source : SecretSource) (namespace token_namespace cluster_name account : String)
    (a : Autoscaler) (config : Config) (use_instance_principal : Bool)
    → IsSettled (
        scaling_components k source namespace token_namespace cluster_name account a config
          use_instance_principal)
unfolding scaling_components labelled bootstrap_config_secret kubeconfig_secret machine_template
    machine_deployment machine_health_check oci_cluster oci_cluster_identity capi_cluster
scaling_components-IsSettled k source namespace token_namespace cluster_name account a config b =
    let c = scaling_components k source namespace token_namespace cluster_name account a config b in
    let i = a.metadata.name in
    let fresh = kubeconfig_labels_fresh i in
    (
      rendered-IsStable c _ _ _ (λ p. ok p) refl (set_default_labels-IsNeutral i _ _)
          as_they_are-IsIdempotent (λ p q h. refl),
      (
        rendered-IsStable c _ _ _ (λ p. bootstrap_config_payload source) refl
            (set_default_labels-IsNeutral i _ _) as_they_are-IsIdempotent (λ p q h. h),
        (
          rendered-IsStable c _ _ _
              (λ p. kubeconfig_payload source namespace token_namespace cluster_name account) refl
              (kubeconfig_labels-IsNeutral i _ _ cluster_name fresh.0 fresh.1)
              as_they_are-IsIdempotent (λ p q h. h),
          (
            rendered-IsStable c _ _ _ (machine_template_payload k cluster_name a config) refl
                (set_component_labels-IsNeutral i _ _) as_they_are-IsIdempotent
                (machine_template_payload-again k cluster_name a config),
            (
              rendered-IsStable c _ _ _ (machine_deployment_payload k cluster_name a config) refl
                  (set_default_labels-IsNeutral i _ _) (capacity_annotations-IsIdempotent config)
                  (machine_deployment_payload-again k cluster_name a config),
              (
                rendered-IsStable c _ _ _
                    (λ p. machine_health_check_payload k cluster_name a config) refl
                    (set_default_labels-IsNeutral i _ _) as_they_are-IsIdempotent (λ p q h. h),
                (
                  rendered-IsStable c _ _ _
                      (λ p. ok (
                        Payload.oci_cluster (
                          oci_cluster_spec namespace cluster_name config b
                            (existing_identifier p))))
                      refl (set_default_labels-IsNeutral i _ _) skip_annotation-IsIdempotent
                      (oci_cluster_payload-again namespace cluster_name config b),
                  (
                    rendered-IsStable c _ _ _ (λ p. capi_cluster_payload k cluster_name config) refl
                        (set_default_labels-IsNeutral i _ _) as_they_are-IsIdempotent (λ p q h. h),
                    All-if (IsStable c) b _ (
                        rendered-IsStable c _ _ _
                          (λ p.
                            ok (Payload.oci_cluster_identity "InstancePrincipal" (namespace ∷ [])))
                          refl (set_default_labels-IsNeutral i _ _) as_they_are-IsIdempotent
                          (λ p q h. h)),
                  ),
                ),
              ),
            ),
          ),
        ),
      ),
    )
