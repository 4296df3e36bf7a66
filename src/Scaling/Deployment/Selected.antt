-- ===== src/Scaling/Deployment/Selected.antt =====
-- Which machines a machine deployment and its health check select.
use oci_openshift_autoscalin.Base.{
  String, ◌≡◌, refl, ok, some, sym, ◌∙◌, ap, arith, eq_iff, Bool-cases, inl, inr, ◌==◌,
}
use mathlib.Core.Path.{subst}
use oci_openshift_autoscalin.Base.Dict.{Dict, lookup, lookup-insert}
use oci_openshift_autoscalin.Api.{Autoscaler}
use oci_openshift_autoscalin.Config.{Config}
use oci_openshift_autoscalin.Kube.{Kube}
use oci_openshift_autoscalin.Labels.{set_default_labels}
use oci_openshift_autoscalin.NodePool.{node_pool_name}
use oci_openshift_autoscalin.Objects.{Object, Payload, MachineDeploymentSpec, HealthCheckSpec}
use oci_openshift_autoscalin.Scaling.Rendered.{as_they_are}
use oci_openshift_autoscalin.Scaling.Repeated.{rendered-steps}
use oci_openshift_autoscalin.Scaling.Deployment.Steps.{
  machine_deployment_payload-steps, machine_health_check_payload-steps,
}
use oci_openshift_autoscalin.Scaling.Deployment.{
  machine_deployment, machine_deployment_payload, machine_deployment_spec, machine_health_check,
  machine_health_check_payload, health_check_spec, capacity_annotations, machine_labels,
  machine_template_labels, capi_cluster_name_label,
}

-- a selector and the labels of a machine
abbrev pub Selects : Dict String → Dict String → Type 0
Selects selector labels = (j v : String) → lookup j selector ≡ some v → lookup j labels ≡ some v

machine_labels-Selects :
    (i cluster_name pool : String)
    → Selects (machine_labels cluster_name pool) (machine_template_labels i cluster_name pool)
unfolding machine_template_labels lookup
machine_labels-Selects i cluster_name pool j v h =
    elim (Bool-cases (capi_cluster_name_label == j)) [
      | inl e ↦
          subst
            (λ x.
              lookup x (machine_labels cluster_name pool) ≡ some v
              → lookup x (machine_template_labels i cluster_name pool) ≡ some v)
            ((eq_iff capi_cluster_name_label j).0 e) (λ g. simp lookup-insert g) h
      | inr e ↦ simp lookup-insert (ground (arith, e, h))
    ]

-- The machine deployment and the health check of a node group that were written select the same
-- machines, and the machines that the deployment makes carry the labels that both select. The two
-- may stem from different configurations.
pub machine_deployment-machine_health_check :
    (k : Kube) (cluster_name : String) (a : Autoscaler) (config other : Config)
    (o p made checked : Object)
    → machine_deployment k cluster_name a config o ≡ ok made
    → machine_health_check k cluster_name a other p ≡ ok checked
    → (spec : MachineDeploymentSpec) × (health : HealthCheckSpec) × (made.payload
        ≡ Payload.machine_deployment spec)
      × (checked.payload ≡ Payload.machine_health_check health)
      × (health.match_labels ≡ spec.match_labels)
      × Selects spec.match_labels spec.template_labels
unfolding machine_deployment machine_health_check machine_deployment_spec health_check_spec
machine_deployment-machine_health_check k cluster_name a config other o p made checked h g =
    let i = a.metadata.name in
    let (q, e, m) =
      rendered-steps (set_default_labels i) (capacity_annotations config)
        (machine_deployment_payload k cluster_name a config o.payload) o made h in
    let (ref, _, _, _, n) =
      machine_deployment_payload-steps k cluster_name a config o.payload q e in
    let (r, f, l) =
      rendered-steps (set_default_labels i) as_they_are
        (machine_health_check_payload k cluster_name a other) p checked g in
    (
      machine_deployment_spec k cluster_name a config ref o.payload,
      health_check_spec k cluster_name a other,
      sym (n ∙ ap (λ x. x.payload) m),
      sym (machine_health_check_payload-steps k cluster_name a other r f ∙ ap (λ x. x.payload) l),
      refl,
      machine_labels-Selects i cluster_name (node_pool_name cluster_name a),
    )
