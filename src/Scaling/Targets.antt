-- ===== src/Scaling/Targets.antt =====
-- What the objects of a node group refer to, and which objects there are.
use oci_openshift_autoscalin.Base.{
  String, Bool, List, [], ◌∷◌, ◌≡◌, refl, arith, ok, Option, some, none, All, In, inl, inr,
  wrap_err,
}
use mathlib.Core.Path.{subst}
use oci_openshift_autoscalin.Base.Bind.{bind-ok}
use oci_openshift_autoscalin.Api.{Autoscaler}
use oci_openshift_autoscalin.Config.{Config}
use oci_openshift_autoscalin.Kube.{Kube}
use oci_openshift_autoscalin.Objects.{Payload, Subcomponent, InfrastructureRef, IdentityRef}
use oci_openshift_autoscalin.Scaling.Secrets.{SecretSource}
use oci_openshift_autoscalin.Scaling.Cluster.{
  capi_cluster_payload, capi_cluster_spec, oci_infrastructure_api_version,
}
use oci_openshift_autoscalin.Scaling.References.{infrastructure_ref, validate_capi_cluster_object}
use oci_openshift_autoscalin.Scaling.Deployment.{
  machine_deployment_payload, machine_deployment_spec, machine_health_check_payload,
  health_check_spec,
}
use oci_openshift_autoscalin.Scaling.Deployment.Steps.{
  ok-payload, machine_deployment_payload-steps, machine_health_check_payload-steps,
}
use oci_openshift_autoscalin.Scaling.Parts.{scaling_components}

-- an object that a reference means
pub record Target : Type 0 where
  pub kind : String
  pub name : String

abbrev pub to : String → String → Target
to kind name = record { kind = kind; name = name }

abbrev to_infrastructure : Option InfrastructureRef → List Target
to_infrastructure none = []
to_infrastructure (some ref) = to ref.kind ref.name ∷ []

abbrev to_identity : Option IdentityRef → List Target
to_identity none = []
to_identity (some ref) = to ref.kind ref.name ∷ []

-- the references in a payload
abbrev pub targets : Payload → List Target
targets (Payload.oci_cluster spec) = to_identity spec.identity_ref
targets (Payload.capi_cluster spec) = to_infrastructure spec.infrastructure_ref
targets (Payload.machine_deployment spec) =
    to "Cluster" spec.cluster_name
    ∷ to "Cluster" spec.template_cluster_name
    ∷ to "Secret" spec.data_secret_name
    ∷ to_infrastructure spec.infrastructure_ref
targets (Payload.machine_health_check spec) = to "Cluster" spec.cluster_name ∷ []
targets _ = []

-- the objects of a component
abbrev pub objects : List Subcomponent → List Target
objects [] = []
objects (s ∷ rest) = to s.object.kind s.object.name ∷ objects rest

infrastructure_ref-steps :
    (k : Kube) (version kind name : String) (ref : InfrastructureRef)
    → infrastructure_ref k version kind name ≡ ok ref
    → (ref.kind ≡ kind) × (ref.name ≡ name)
unfolding infrastructure_ref
infrastructure_ref-steps k version kind name ref h = (ground (arith, h), ground (arith, h))

capi_cluster_payload-steps :
    (k : Kube) (cluster_name : String) (config : Config) (q : Payload)
    → capi_cluster_payload k cluster_name config ≡ ok q
    → (ref : InfrastructureRef) × (infrastructure_ref k oci_infrastructure_api_version "OCICluster"
          cluster_name
        ≡ ok ref)
      × (Payload.capi_cluster (capi_cluster_spec config ref) ≡ q)
unfolding capi_cluster_payload
capi_cluster_payload-steps k cluster_name config q h =
    let (ref, e, h1) =
      bind-ok (infrastructure_ref k oci_infrastructure_api_version "OCICluster" cluster_name) _ q
        h in
    let (_, _, h2) =
      bind-ok
        (wrap_err "invalid rendered Cluster object"
          (validate_capi_cluster_object k (capi_cluster_spec config ref)))
        _ q h1 in
    (ref, e, ok-payload _ _ h2)

-- every reference of a payload means one of the objects
abbrev pub IsLinked : List Target → Payload → Type 0
IsLinked all p = All (λ t. In t all) (targets p)

module _ (k : Kube) (source : SecretSource) (namespace token_namespace : String)
    (cluster_name account : String) (a : Autoscaler) (config : Config) (b : Bool) where
  abbrev pub node_group_targets : List Target
  node_group_targets =
      objects
        (scaling_components k source namespace token_namespace cluster_name account a config
          b).subcomponents

  cluster-In : In (to "Cluster" cluster_name) node_group_targets
  unfolding scaling_components
  cluster-In = inr (inr (inr (inr (inr (inr (inr (inl refl)))))))

  pub deployment-IsLinked :
      (p q : Payload)
      → machine_deployment_payload k cluster_name a config p ≡ ok q
      → IsLinked node_group_targets q
  unfolding scaling_components machine_deployment_spec
  deployment-IsLinked p q h =
      let (ref, _, e, _, m) = machine_deployment_payload-steps k cluster_name a config p q h in
      let (kind, name) = infrastructure_ref-steps k _ _ _ ref e in
      subst (IsLinked node_group_targets) m (
        cluster-In,
        (cluster-In, (inr (inl refl), (inr (inr (inr (inl (rw (kind, name) refl)))), tt))),
      )

  pub health_check-IsLinked :
      (q : Payload)
      → machine_health_check_payload k cluster_name a config ≡ ok q
      → IsLinked node_group_targets q
  unfolding health_check_spec
  health_check-IsLinked q h =
      subst (IsLinked node_group_targets)
        (machine_health_check_payload-steps k cluster_name a config q h) (cluster-In, tt)

  pub capi_cluster-IsLinked :
      (q : Payload)
      → capi_cluster_payload k cluster_name config ≡ ok q
      → IsLinked node_group_targets q
  unfolding scaling_components capi_cluster_spec
  capi_cluster-IsLinked q h =
      let (ref, e, m) = capi_cluster_payload-steps k cluster_name config q h in
      let (kind, name) = infrastructure_ref-steps k _ _ _ ref e in
      subst (IsLinked node_group_targets) m
        (inr (inr (inr (inr (inr (inr (inl (rw (kind, name) refl))))))), tt)
