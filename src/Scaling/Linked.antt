-- ===== src/Scaling/Linked.antt =====
-- The objects of a node group refer to each other.
use oci_openshift_autoscalin.Base.{
  String, Bool, true, false, List, [], ◌∷◌, ◌≡◌, refl, Result, ok, some, All, In, All-In, inl, inr,
  wrap_err, errorf, reject_if,
}
use mathlib.Core.Path.{subst}
use oci_openshift_autoscalin.Base.Bind.{bind-ok}
use oci_openshift_autoscalin.Base.Dict.{Dict}
use oci_openshift_autoscalin.Api.{Autoscaler}
use oci_openshift_autoscalin.Config.{Config}
use oci_openshift_autoscalin.Kube.{Kube}
use oci_openshift_autoscalin.NodePool.{validate_generated_node_pool_names}
use oci_openshift_autoscalin.Objects.{Object, Payload, Subcomponent, Component}
use oci_openshift_autoscalin.Scaling.Secrets.{
  SecretSource, bootstrap_config_secret, kubeconfig_secret, bootstrap_config_payload,
  kubeconfig_payload,
}
use oci_openshift_autoscalin.Scaling.Cluster.{
  oci_cluster, oci_cluster_identity, capi_cluster, existing_identifier, oci_cluster_spec,
  capi_cluster_payload,
}
use oci_openshift_autoscalin.Scaling.Deployment.{
  machine_deployment, machine_health_check, machine_deployment_payload,
  machine_health_check_payload,
}
use oci_openshift_autoscalin.Scaling.Deployment.Steps.{ok-payload}
use oci_openshift_autoscalin.Base.Text.{is_nil}
use oci_openshift_autoscalin.Scaling.Machines.{
  machine_template, machine_template_payload, machine_spec, existing_tags,
}
use oci_openshift_autoscalin.Scaling.Parts.{scaling_components, labelled}
use oci_openshift_autoscalin.Scaling.Rendered.{rendered}
use oci_openshift_autoscalin.Scaling.Repeated.{mutation-payload, All-if}
use oci_openshift_autoscalin.Components.{mutation}
use oci_openshift_autoscalin.Scaling.Targets.{
  Target, IsLinked, node_group_targets, deployment-IsLinked, health_check-IsLinked,
  capi_cluster-IsLinked,
}

template-IsLinked :
    (all : List Target) (k : Kube) (cluster_name : String) (a : Autoscaler) (config : Config)
    (p q : Payload)
    → machine_template_payload k cluster_name a config p ≡ ok q
    → IsLinked all q
unfolding machine_template_payload
template-IsLinked all k cluster_name a config p q h =
    let (_, _, h1) = bind-ok (validate_generated_node_pool_names k cluster_name a) _ q h in
    let (spec, _, h2) = bind-ok (machine_spec k cluster_name a config (existing_tags p)) _ q h1 in
    subst (IsLinked all) (ok-payload _ _ h2) tt

bootstrap-IsLinked :
    (all : List Target) (source : SecretSource) (q : Payload)
    → bootstrap_config_payload source ≡ ok q
    → IsLinked all q
unfolding bootstrap_config_payload
bootstrap-IsLinked all source q h =
    let (_, _, h1) =
      bind-ok (wrap_err "failed to generate ignition config" source.generate_ignition_config) _ q
        h in
    subst (IsLinked all) (ok-payload _ _ h1) tt

kubeconfig-IsLinked :
    (all : List Target) (source : SecretSource) (n t c s : String) (q : Payload)
    → kubeconfig_payload source n t c s ≡ ok q
    → IsLinked all q
unfolding kubeconfig_payload
kubeconfig-IsLinked all source n t c s q h =
    let (token, _, h1) =
      bind-ok (wrap_err "failed to create service account token request" (source.create_token s t))
        _ q h in
    let (_, _, h2) =
      bind-ok
        (reject_if (is_nil token) (errorf "service account token request returned an empty token"))
        _ q h1 in
    let (_, _, h3) =
      bind-ok (wrap_err "failed to get kubeconfig CA" source.get_kubeconfig_ca) _ q h2 in
    subst (IsLinked all) (ok-payload _ _ h3) tt

identity-IsLinked :
    (k : Kube) (source : SecretSource) (namespace token_namespace : String)
    (cluster_name account : String) (a : Autoscaler) (config : Config) (b : Bool)
    (identifier : String)
    → IsLinked
        (node_group_targets k source namespace token_namespace cluster_name account a config b)
        (Payload.oci_cluster (oci_cluster_spec namespace cluster_name config b identifier))
unfolding scaling_components oci_cluster_spec
identity-IsLinked k source namespace token_namespace cluster_name account a config true identifier =
    (inr (inr (inr (inr (inr (inr (inr (inr (inl refl)))))))), tt)
identity-IsLinked k source namespace token_namespace cluster_name account a config false
      identifier =
    tt

abbrev KeepsLinks : List Target → Component → Subcomponent → Type 0
KeepsLinks all c s =
    (o made : Object)
    → IsLinked all o.payload
    → mutation c s o ≡ ok made
    → IsLinked all made.payload

rendered-KeepsLinks :
    (all : List Target) (c : Component) (s : Subcomponent)
    (label annotate : Dict String → Dict String) (r : Payload → Result Payload)
    → s.mutate_fn ≡ some (λ o. rendered label annotate (r o.payload) o)
    → ((p q : Payload) → IsLinked all p → r p ≡ ok q → IsLinked all q)
    → KeepsLinks all c s
rendered-KeepsLinks all c s label annotate r e law o made before h =
    law o.payload made.payload before (mutation-payload label annotate c s r o made e h)

each-KeepsLinks :
    (k : Kube) (source : SecretSource) (namespace token_namespace cluster_name account : String)
    (a : Autoscaler) (config : Config) (b : Bool)
    → All
        (KeepsLinks
          (node_group_targets k source namespace token_namespace cluster_name account a config b)
          (scaling_components k source namespace token_namespace cluster_name account a config b))
        (scaling_components k source namespace token_namespace cluster_name account a config
          b).subcomponents
unfolding scaling_components labelled bootstrap_config_secret kubeconfig_secret machine_template
    machine_deployment machine_health_check oci_cluster oci_cluster_identity capi_cluster
each-KeepsLinks k source namespace token_namespace cluster_name account a config b =
    let c = scaling_components k source namespace token_namespace cluster_name account a config b in
    let ts =
      node_group_targets k source namespace token_namespace cluster_name account a config b in
    (
      rendered-KeepsLinks ts c _ _ _ (λ p. ok p) refl
          (λ p q before h. subst (IsLinked ts) (ok-payload _ _ h) before),
      (
        rendered-KeepsLinks ts c _ _ _ (λ p. bootstrap_config_payload source) refl
            (λ p q before. bootstrap-IsLinked ts source q),
        (
          rendered-KeepsLinks ts c _ _ _
              (λ p. kubeconfig_payload source namespace token_namespace cluster_name account) refl
              (λ p q before. kubeconfig-IsLinked ts source _ _ _ _ q),
          (
            rendered-KeepsLinks ts c _ _ _ (machine_template_payload k cluster_name a config) refl
                (λ p q before. template-IsLinked ts k cluster_name a config p q),
            (
              rendered-KeepsLinks ts c _ _ _ (machine_deployment_payload k cluster_name a config)
                  refl
                  (λ p q before.
                    deployment-IsLinked k source namespace token_namespace cluster_name account a
                      config b p q),
              (
                rendered-KeepsLinks ts c _ _ _
                    (λ p. machine_health_check_payload k cluster_name a config) refl
                    (λ p q before.
                      health_check-IsLinked k source namespace token_namespace cluster_name account
                        a config b q),
                (
                  rendered-KeepsLinks ts c _ _ _
                      (λ p. ok (
                        Payload.oci_cluster (
                          oci_cluster_spec namespace cluster_name config b
                            (existing_identifier p))))
                      refl
                      (λ p q before h. subst (IsLinked ts) (ok-payload _ _ h) (
                        identity-IsLinked k source namespace token_namespace cluster_name account a
                          config b (existing_identifier p))),
                  (
                    rendered-KeepsLinks ts c _ _ _ (λ p. capi_cluster_payload k cluster_name config)
                        refl
                        (λ p q before.
                          capi_cluster-IsLinked k source namespace token_namespace cluster_name
                            account a config b q),
                    All-if (KeepsLinks ts c) b _ (
                        rendered-KeepsLinks ts c _ _ _
                          (λ p.
                            ok (Payload.oci_cluster_identity "InstancePrincipal" (namespace ∷ [])))
                          refl (λ p q before h. subst (IsLinked ts) (ok-payload _ _ h) tt)),
                  ),
                ),
              ),
            ),
          ),
        ),
      ),
    )

-- The objects of a node group refer to each other only: when the mutation of one of its objects made
-- an object, every cluster, infrastructure object, secret and identity that its payload refers to is
-- one of the objects of the node group, by kind and name. The one thing assumed is that this holds of the payload that the object
-- had, which a mutation that only labels keeps.
pub mutation-IsLinked :
    (k : Kube) (source : SecretSource) (namespace token_namespace cluster_name account : String)
    (a : Autoscaler) (config : Config) (use_instance_principal : Bool) (s : Subcomponent)
    → In s
        (scaling_components k source namespace token_namespace cluster_name account a config
          use_instance_principal).subcomponents
    → (o made : Object)
    → IsLinked
        (node_group_targets k source namespace token_namespace cluster_name account a config
          use_instance_principal)
        o.payload
    → mutation
        (scaling_components k source namespace token_namespace cluster_name account a config
          use_instance_principal)
        s
        o
      ≡ ok made
    → IsLinked
        (node_group_targets k source namespace token_namespace cluster_name account a config
          use_instance_principal)
        made.payload
mutation-IsLinked k source namespace token_namespace cluster_name account a config b s i =
    let c = scaling_components k source namespace token_namespace cluster_name account a config b in
    let ts =
      node_group_targets k source namespace token_namespace cluster_name account a config b in
    All-In (KeepsLinks ts c) s c.subcomponents
      (each-KeepsLinks k source namespace token_namespace cluster_name account a config b) i
